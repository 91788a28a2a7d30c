-- ===== src/HintQueue/Free.antt =====
-- The list of free slots.
use cinder.Prelude.{ℕ, ◌≡◌, true, false, List, [], ◌∷◌, ◌==◌, ==_iff, arith, Bool-cases, inl, inr}
use cinder.Ring.{seen_before}
use cinder.HintQueue.{Slot, Slots, k_none, update}

-- The free list from `i` on.
unfoldable pub Free : Slots → ℕ → List ℕ → Type 0
Free s i [] = i ≡ k_none
Free s i (x ∷ xs) = (i ≡ x) × Free s (s x).free_next xs

pub Free-frame :
    (s u : Slots) (i : ℕ) (xs : List ℕ)
    → ((j : ℕ) → seen_before j xs ≡ true → (u j).free_next ≡ (s j).free_next)
    → Free s i xs
    → Free u i xs
unfolding Free
Free-frame s u i [] h k = k
Free-frame s u i (x ∷ xs) h k =
    let e : (u x).free_next ≡ (s x).free_next = h x (ground arith) in
    (k.0, rw e (Free-frame s u (s x).free_next xs (λ j t. h j (ground (arith, t))) k.1))

pub apart :
    (j x : ℕ) (frees : List ℕ)
    → seen_before j frees ≡ true
    → seen_before x frees ≡ false
    → (j == x) ≡ false
apart j x frees t out = elim (Bool-cases (j == x)) [
  | inl e ↦ absurd (cc (t, out, (==_iff j x).0 e))
  | inr e ↦ e
]

pub Free-update :
    (s : Slots) (x : ℕ) (slot : Slot) (i : ℕ) (xs : List ℕ)
    → seen_before x xs ≡ false
    → Free s i xs
    → Free (update s x slot) i xs
unfolding update
Free-update s x slot i xs out h =
    Free-frame s (update s x slot) i xs (λ j t. ground (arith, apart j x xs t out)) h
