-- ===== src/Algorithm.antt =====
-- src/Algorithm.h: searches of an array, which is a list here. An index is what the source gets as
-- the difference of two pointers.
use mathlib.Core.Path.{subst}
use native.Mathlib.Nat.{zero-add}
use yardstick.Base.{
  ℕ, zero, suc, sym, ◌+◌, ◌<◌, ◌≡◌, ◌⊎◌, inl, inr, refl, ap, ◌∙◌, Bool, true, false, some, List, [],
  ◌∷◌, length, get_elem?, if◌then◌else◌, arith, Bool-cases,
}

module _ {ℓ} {A : Type ℓ} where
  -- The loops, at the index that they have come to.
  unfoldable pub find_value_from : (A → A → Bool) → A → ℕ → List A → ℕ
  find_value_from equal value it [] = it
  find_value_from equal value it (x ∷ xs) =
      let later = find_value_from equal value (it + 1) xs in if equal x value then it else later

  -- `FindValue`, with the type's `operator==`
  unfoldable pub find_value : (A → A → Bool) → List A → A → ℕ
  find_value equal xs value = find_value_from equal value 0 xs

  unfoldable pub find_if_from : (A → Bool) → ℕ → List A → ℕ
  find_if_from pred it [] = it
  find_if_from pred it (x ∷ xs) =
      let later = find_if_from pred (it + 1) xs in if pred x then it else later

  -- `FindIf`
  unfoldable pub find_if : List A → (A → Bool) → ℕ
  find_if xs pred = find_if_from pred 0 xs

  -- The place that a search comes to: the first element that satisfies the test, or the end.
  pub record IsFirst (pred : A → Bool) (xs : List A) (place : ℕ) : Type ℓ where
    pub before : (k : ℕ) (x : A) → k < place → get_elem? xs k ≡ some x → pred x ≡ false
    pub found : (place ≡ length xs) ⊎ ((x : A) × (get_elem? xs place ≡ some x) × (pred x ≡ true))

  find_if_from-IsFirst :
      (pred : A → Bool) (it : ℕ) (xs : List A)
      → (place : ℕ) × (find_if_from pred it xs ≡ it + place) × IsFirst pred xs place
  unfolding find_if_from
  find_if_from-IsFirst pred it [] =
      (0, omega arith, record { before = λ k x h e. absurd (omega arith); found = inl refl })
  find_if_from-IsFirst pred it (x ∷ xs) = elim (Bool-cases (pred x)) [
    | inl here ↦ (
      0,
      rw here (omega arith),
      record { before = λ k y h e. absurd (omega arith); found = inr (x, refl, here) },
    )
    | inr no_match ↦
        let (place, e, first) = find_if_from-IsFirst pred (it + 1) xs in
        (
          suc place,
          rw no_match (omega (arith, e)),
          record { before = before place first no_match; found = found place first },
        )
  ]
    where
      before :
          (place : ℕ)
          → IsFirst pred xs place
          → pred x ≡ false
          → (k : ℕ) (y : A) → k < suc place
          → get_elem? (x ∷ xs) k ≡ some y
          → pred y ≡ false
      before place first no_match zero y h e =
          let same : x ≡ y = cc in ap pred (sym same) ∙ no_match
      before place first no_match (suc k) y h e = first.before k y (omega arith) e

      found :
          (place : ℕ)
          → IsFirst pred xs place
          → (suc place ≡ length (x ∷ xs))
            ⊎ ((y : A) × (get_elem? (x ∷ xs) (suc place) ≡ some y) × (pred y ≡ true))
      found place first = elim first.found [ inl e ↦ inl (ap suc e) | inr f ↦ inr f ]

  find_if-IsFirst : (xs : List A) (pred : A → Bool) → IsFirst pred xs (find_if xs pred)
  unfolding find_if
  find_if-IsFirst xs pred =
      let (place, e, first) = find_if_from-IsFirst pred 0 xs in
      subst (IsFirst pred xs) (sym (e ∙ zero-add place)) first

  find_value_from-eq :
      (equal : A → A → Bool) (value : A) (it : ℕ) (xs : List A)
      → find_value_from equal value it xs ≡ find_if_from (λ x. equal x value) it xs
  unfolding find_value_from find_if_from
  find_value_from-eq equal value it [] = refl
  find_value_from-eq equal value it (x ∷ xs) =
      ap (λ n. if equal x value then it else n) (find_value_from-eq equal value (it + 1) xs)

  find_value-IsFirst :
      (equal : A → A → Bool) (xs : List A) (value : A)
      → IsFirst (λ x. equal x value) xs (find_value equal xs value)
  unfolding find_value find_if
  find_value-IsFirst equal xs value =
      subst (IsFirst (λ x. equal x value) xs) (sym (find_value_from-eq equal value 0 xs))
        (find_if-IsFirst xs (λ x. equal x value))

  -- FindIf and FindValue give the index of the first element of an array that satisfies the
  -- predicate or equals the value, and the length of the array if there is none.
  pub searches-IsFirst :
      (xs : List A) (pred : A → Bool) (equal : A → A → Bool) (value : A)
      → IsFirst pred xs (find_if xs pred)
        × IsFirst (λ x. equal x value) xs (find_value equal xs value)
  searches-IsFirst xs pred equal value =
      (find_if-IsFirst xs pred, find_value-IsFirst equal xs value)
