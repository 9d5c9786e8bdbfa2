-- ===== src/Base/Maps.antt =====
-- Memory as a function of the address: an array, a heap, a table.
use Prim.Native.Nat.{ℕ}
use mathlib.Core.Path.{◌≡◌}
use mathlib.Core.Logic.{◌≢◌}
use native.Mathlib.Omega.{arith}
use yardstick.Base.Tests.{◌==◌, if◌then◌else◌}

abbrev pub update {ℓ} : {A : Type ℓ} → (ℕ → A) → ℕ → A → ℕ → A
update f p a q = if p == q then a else f q

pub update_self {ℓ} : {A : Type ℓ} (f : ℕ → A) (p : ℕ) (a : A) → update f p a p ≡ a
update_self f p a = ground arith

pub update-ne {ℓ} : {A : Type ℓ} (f : ℕ → A) (p q : ℕ) (a : A) → p ≢ q → update f p a q ≡ f q
update-ne f p q a h = ground arith
