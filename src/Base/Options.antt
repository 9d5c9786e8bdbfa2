-- ===== src/Base/Options.antt =====
-- What is known of an option that has a value.
use mathlib.Core.Path.{◌≡◌, refl}
use mathlib.Core.Logic.{◌≢◌}
use mathlib.Core.Option.{Option, none, some}
use yardstick.Base.Tests.{◌>>=◌}

pub some_inj {ℓ} : {A : Type ℓ} {a b : A} → some a ≡ some b → a ≡ b
some_inj e = cc

pub none_ne {ℓ} : {A : Type ℓ} {a : A} → ◌≢◌ {A = Option A} none (some a)
none_ne e = cc

-- What a chain that has a value went through.
pub option_bind_inv {ℓ κ} :
    {A : Type ℓ} {B : Type κ} (m : Option A) (k : A → Option B) {b : B}
    → (m >>= k) ≡ some b
    → (a : A) × (m ≡ some a) × (k a ≡ some b)
option_bind_inv none k e = absurd (none_ne e)
option_bind_inv (some a) k e = (a, refl, e)
