-- ===== src/Service/Walks.antt =====
-- What a walk that ends has gone through.
use yardstick.Base.{◌≡◌, refl, ap, Option, none, some}
use yardstick.Sink.{Walk, ended, fault, unfinished}
use yardstick.Sink.Walks.{ended_inj, fault_ne, unfinished_ne}
use yardstick.Service.{◌>>=◌, walk_of}

pub bind_inv {ℓ κ} :
    {A : Type ℓ} {B : Type κ} (m : Walk A) (k : A → Walk B) {b : B}
    → (m >>= k) ≡ ended b
    → (a : A) × (m ≡ ended a) × (k a ≡ ended b)
bind_inv (ended a) k e = (a, refl, e)
bind_inv fault k e = absurd (fault_ne e)
bind_inv unfinished k e = absurd (unfinished_ne e)

pub walk_of_inv {ℓ} : {A : Type ℓ} (o : Option A) {a : A} → walk_of o ≡ ended a → o ≡ some a
unfolding walk_of
walk_of_inv none e = absurd (fault_ne e)
walk_of_inv (some a) e = ap some (ended_inj e)
