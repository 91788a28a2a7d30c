-- ===== src/WriteQuorum/Targets.antt =====
-- Different targets below a number are at most that many.
use cinder.Prelude.{
  ℕ, zero, suc, ◌+◌, ◌<◌, ◌≤◌, ◌≡◌, refl, false, List, [], ◌∷◌, length, ◌==◌, ==_iff, if◌then◌else◌,
  arith, Bool-cases, inl, inr,
}
use cinder.Buffer.Lists.{Each}
use cinder.Ring.{seen_before}
use cinder.Ring.Walk.{Different}

others : ℕ → List ℕ → List ℕ
others k [] = []
others k (i ∷ is) = if i == k then others k is else i ∷ others k is

seen_before-others :
    (i k : ℕ) (is : List ℕ) → seen_before i is ≡ false → seen_before i (others k is) ≡ false
unfolding others
seen_before-others i k [] h = refl
seen_before-others i k (j ∷ is) h = ground (arith, h, seen_before-others i k is)

Different-others : (k : ℕ) (is : List ℕ) → Different is → Different (others k is)
unfolding others
Different-others k [] d = tt
Different-others k (i ∷ is) d = elim (Bool-cases (i == k)) [
  | inl same ↦ rw same (Different-others k is d.1)
  | inr other ↦ rw other (seen_before-others i k is d.0, Different-others k is d.1)
]

others_same : (k : ℕ) (is : List ℕ) → seen_before k is ≡ false → length (others k is) ≡ length is
unfolding others
others_same k [] h = refl
others_same k (i ∷ is) h = ground (arith, h, others_same k is)

length-others : (k : ℕ) (is : List ℕ) → Different is → length is ≤ 1 + length (others k is)
unfolding others
length-others k [] d = omega arith
length-others k (i ∷ is) d = elim (Bool-cases (i == k)) [
  | inl same ↦ rw same (omega (arith, others_same k is (ground (arith, d.0, same, ==_iff i k))))
  | inr other ↦ rw other (omega (arith, length-others k is d.1))
]

others_below : (n : ℕ) (is : List ℕ) → Each (λ i. i < suc n) is → Each (λ i. i < n) (others n is)
unfolding others
others_below n [] t = tt
others_below n (i ∷ is) t = elim (Bool-cases (i == n)) [
  | inl same ↦ rw same (others_below n is t.1)
  | inr other ↦ rw other (ground (arith, t.0, other), others_below n is t.1)
]

pub at_most : (n : ℕ) (is : List ℕ) → Different is → Each (λ i. i < n) is → length is ≤ n
at_most zero [] d t = omega arith
at_most zero (i ∷ is) d t = absurd (omega (arith, t.0))
at_most (suc n) is d t = omega (
  arith,
  length-others n is d,
  at_most n (others n is) (Different-others n is d) (others_below n is t),
)
