-- ===== src/Sink/Walks.antt =====
-- What is known of a walk that ends.
use yardstick.Base.{◌≡◌, ◌≢◌}
use yardstick.Sink.{Walk, ended, fault, unfinished}

pub ended_inj {ℓ} : {A : Type ℓ} {a b : A} → ended a ≡ ended b → a ≡ b
ended_inj e = cc

pub fault_ne {ℓ} : {A : Type ℓ} {a : A} → ◌≢◌ {A = Walk A} fault (ended a)
fault_ne e = cc

pub unfinished_ne {ℓ} : {A : Type ℓ} {a : A} → ◌≢◌ {A = Walk A} unfinished (ended a)
unfinished_ne e = cc
