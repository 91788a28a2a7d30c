-- ===== src/AntiEntropy/Diff/Sorted.antt =====
-- The lists that diffRows answers are in ascending order of their hashes.
use cinder.Prelude.{
  ℕ, ◌≡◌, refl, ap, ◌∙◌, Bool, true, ◌&&◌, List, [], ◌∷◌, Bytes, ltb, leb, ◌≤◌, arith, Bool-cases,
  inl, inr,
}
use cinder.AntiEntropy.Diff.{insert_hash, sort_hashes, insert_pair, sort_pairs}

-- No hash stands behind a larger one.
abbrev pub is_first : ℕ → List ℕ → Bool
is_first x [] = true
is_first x (y ∷ ys) = leb x y

abbrev pub is_ascending : List ℕ → Bool
is_ascending [] = true
is_ascending (x ∷ xs) = is_first x xs && is_ascending xs

abbrev pub first_hashes : List (ℕ × Bytes) → List ℕ
first_hashes [] = []
first_hashes (x ∷ xs) = x.0 ∷ first_hashes xs

first-insert_hash :
    (z x : ℕ) (xs : List ℕ) → z ≤ x → is_first z xs ≡ true → is_first z (insert_hash x xs) ≡ true
unfolding insert_hash
first-insert_hash z x [] h k = ground (arith, h)
first-insert_hash z x (y ∷ ys) h k = ground (arith, h, k)

ascending-insert_hash :
    (x : ℕ) (xs : List ℕ) → is_ascending xs ≡ true → is_ascending (insert_hash x xs) ≡ true
unfolding insert_hash
ascending-insert_hash x [] h = refl
ascending-insert_hash x (y ∷ ys) h = elim (Bool-cases (ltb y x)) [
  | inl above ↦ rw above (
      ground (
        arith,
        h,
        above,
        first-insert_hash y x ys (ground (arith, above)) (ground (arith, h)),
        ascending-insert_hash x ys (ground (arith, h)),
      ))
  | inr below ↦ rw below (ground (arith, h, below))
]

pub ascending-sort_hashes : (xs : List ℕ) → is_ascending (sort_hashes xs) ≡ true
unfolding sort_hashes
ascending-sort_hashes [] = refl
ascending-sort_hashes (x ∷ xs) = ascending-insert_hash x (sort_hashes xs) (ascending-sort_hashes xs)

hashes-insert_pair :
    (x : ℕ × Bytes) (m : List (ℕ × Bytes))
    → first_hashes (insert_pair x m) ≡ insert_hash x.0 (first_hashes m)
unfolding insert_pair insert_hash
hashes-insert_pair x [] = refl
hashes-insert_pair x (y ∷ ys) = ground (arith, hashes-insert_pair x ys)

pub ascending-sort_pairs :
    (m : List (ℕ × Bytes)) → is_ascending (first_hashes (sort_pairs m)) ≡ true
unfolding sort_pairs
ascending-sort_pairs [] = refl
ascending-sort_pairs (x ∷ m) =
    ap is_ascending (hashes-insert_pair x (sort_pairs m))
    ∙ ascending-insert_hash x.0 (first_hashes (sort_pairs m)) (ascending-sort_pairs m)
