-- ===== src/Circular/Bytes.antt =====
-- src/ConcurrentCircularBuffer.h: bytes in a ring, read and written by the index.
use yardstick.Base.{
  ℕ, zero, suc, ◌+◌, ◌≤◌, ◌<◌, ◌≡◌, refl, sym, ap, ◌∙◌, none, some, List, [], ◌∷◌, ◌++◌, length,
  length-append, length-take, length-drop, take, drop, get_elem?, arith, get_elem?-append_front,
}
use yardstick.Circular.{copy_in}

module _ {ℓ} {A : Type ℓ} where
  pub get_elem?-append_back :
      (xs ys : List A) (k : ℕ) → get_elem? (xs ++ ys) (length xs + k) ≡ get_elem? ys k
  get_elem?-append_back [] ys k = ap (get_elem? ys) (omega arith)
  get_elem?-append_back (x ∷ xs) ys k =
      let next : suc (length xs) + k ≡ suc (length xs + k) = omega arith in
      ap (get_elem? (x ∷ (xs ++ ys))) next ∙ get_elem?-append_back xs ys k

  pub get_elem?-take : (n k : ℕ) (xs : List A) → k < n → get_elem? (take n xs) k ≡ get_elem? xs k
  get_elem?-take zero k xs h = absurd (omega arith)
  get_elem?-take (suc n) k [] h = refl
  get_elem?-take (suc n) zero (x ∷ xs) h = refl
  get_elem?-take (suc n) (suc k) (x ∷ xs) h = get_elem?-take n k xs (omega arith)

  pub get_elem?-drop : (n k : ℕ) (xs : List A) → get_elem? (drop n xs) k ≡ get_elem? xs (n + k)
  get_elem?-drop zero k xs = ap (get_elem? xs) (omega arith)
  get_elem?-drop (suc n) k [] = refl
  get_elem?-drop (suc n) k (x ∷ xs) =
      let next : suc n + k ≡ suc (n + k) = omega arith in
      get_elem?-drop n k xs ∙ ap (get_elem? (x ∷ xs)) (sym next)

  get_elem?-out : (xs : List A) (k : ℕ) → length xs ≤ k → get_elem? xs k ≡ none
  get_elem?-out [] k h = refl
  get_elem?-out (x ∷ xs) zero h = absurd (omega arith)
  get_elem?-out (x ∷ xs) (suc k) h = get_elem?-out xs k (omega arith)

  head_same : {x y : A} → some x ≡ some y → x ≡ y
  head_same e = cc

  -- Lists of one length with the same elements at the same places are the same.
  pub same_list :
      (xs ys : List A)
      → length xs ≡ length ys
      → ((k : ℕ) → k < length xs → get_elem? xs k ≡ get_elem? ys k)
      → xs ≡ ys
  same_list [] [] e h = refl
  same_list [] (y ∷ ys) e h = absurd (omega arith)
  same_list (x ∷ xs) [] e h = absurd (omega arith)
  same_list (x ∷ xs) (y ∷ ys) e h = λ i.
      head_same (h 0 (omega arith)) i
      ∷ same_list xs ys (omega arith) (λ k lt. h (suc k) (omega arith)) i

-- What a copy leaves where it stands, and elsewhere.
pub copy_in-inside :
    (at : ℕ) (bytes buffer : List ℕ) (k : ℕ)
    → at ≤ length buffer
    → k < length bytes
    → get_elem? (copy_in at bytes buffer) (at + k) ≡ get_elem? bytes k
unfolding copy_in
copy_in-inside at bytes buffer k h lt =
    let front : length (take at buffer) ≡ at = omega (arith, length-take at buffer) in
    ap (λ n. get_elem? (copy_in at bytes buffer) (n + k)) (sym front)
    ∙ get_elem?-append_back (take at buffer) (bytes ++ drop (at + length bytes) buffer) k
    ∙ get_elem?-append_front bytes (drop (at + length bytes) buffer) k lt

pub copy_in-before :
    (at : ℕ) (bytes buffer : List ℕ) (k : ℕ)
    → at ≤ length buffer
    → k < at
    → get_elem? (copy_in at bytes buffer) k ≡ get_elem? buffer k
unfolding copy_in
copy_in-before at bytes buffer k h lt =
    get_elem?-append_front (take at buffer) (bytes ++ drop (at + length bytes) buffer) k
      (omega (arith, length-take at buffer))
    ∙ get_elem?-take at k buffer lt

pub copy_in-behind :
    (at : ℕ) (bytes buffer : List ℕ) (k : ℕ)
    → at ≤ length buffer
    → get_elem? (copy_in at bytes buffer) (at + length bytes + k)
      ≡ get_elem? buffer (at + length bytes + k)
unfolding copy_in
copy_in-behind at bytes buffer k h =
    let front : length (take at buffer) ≡ at = omega (arith, length-take at buffer) in
    let far : at + length bytes + k ≡ length (take at buffer) + (length bytes + k) = omega arith in
    ap (get_elem? (copy_in at bytes buffer)) far
    ∙ get_elem?-append_back (take at buffer) (bytes ++ drop (at + length bytes) buffer)
        (length bytes + k)
    ∙ get_elem?-append_back bytes (drop (at + length bytes) buffer) k
    ∙ get_elem?-drop (at + length bytes) k buffer

pub length-copy_in :
    (at : ℕ) (bytes buffer : List ℕ)
    → at + length bytes ≤ length buffer
    → length (copy_in at bytes buffer) ≡ length buffer
unfolding copy_in
length-copy_in at bytes buffer h = omega (
  arith,
  length-append (take at buffer) (bytes ++ drop (at + length bytes) buffer),
  length-append bytes (drop (at + length bytes) buffer),
  length-take at buffer,
  length-drop (at + length bytes) buffer,
)
