-- ===== src/Ring/Walk.antt =====
-- getNodes' walk around the ring, on node indices.
use cinder.Prelude.{
  ℕ, ◌+◌, ◌<◌, ◌≤◌, ◌≡◌, refl, sym, subst, true, false, ◌||◌, List, [], ◌∷◌, ◌++◌, length,
  length-append, ltb, ltb→le, ◌==◌, ==_iff, if◌then◌else◌, arith, Bool-cases, inl, inr,
}
use cinder.Buffer.Lists.{Each}
use cinder.Ring.{Point, seen_before, walk}

abbrev pub Different : List ℕ → Type 0
Different [] = Unit
Different (i ∷ is) = (seen_before i is ≡ false) × Different is

pub seen_before-append :
    (i j : ℕ) (js : List ℕ) → seen_before i (js ++ (j ∷ [])) ≡ (seen_before i js || (j == i))
seen_before-append i j [] = ground arith
seen_before-append i j (k ∷ js) = ground (arith, seen_before-append i j js)

pub Different-append :
    (i : ℕ) (is : List ℕ) → Different is → seen_before i is ≡ false → Different (is ++ (i ∷ []))
Different-append i [] d f = (refl, tt)
Different-append i (j ∷ is) d f = (
  ground (arith, d.0, f, seen_before-append j i is),
  Different-append i is d.1 (ground (arith, f)),
)

-- What one step keeps: `seen` after a point.
abbrev step : ℕ → List ℕ → List ℕ
step i seen = if seen_before i seen then seen else seen ++ (i ∷ [])

step-Different : (i : ℕ) (seen : List ℕ) → Different seen → Different (step i seen)
step-Different i seen d = elim (Bool-cases (seen_before i seen)) [
  | inl old ↦ rw old d
  | inr new ↦ rw new (Different-append i seen d new)
]

pub walk-Different :
    (ps : List Point) (n : ℕ) (seen : List ℕ) → Different seen → Different (walk ps n seen)
unfolding walk
walk-Different [] n seen d = d
walk-Different (p ∷ ps) n seen d = elim (Bool-cases (ltb (length seen) n)) [
  | inl more ↦
      rw more (walk-Different ps n (step p.node_index seen) (step-Different p.node_index seen d))
  | inr full ↦ rw full d
]

length-step : (i : ℕ) (seen : List ℕ) → length (step i seen) ≤ length seen + 1
length-step i seen = ground (arith, length-append seen (i ∷ []))

pub length-walk :
    (ps : List Point) (n : ℕ) (seen : List ℕ) → length seen ≤ n → length (walk ps n seen) ≤ n
unfolding walk
length-walk [] n seen h = h
length-walk (p ∷ ps) n seen h = elim (Bool-cases (ltb (length seen) n)) [
  | inl more ↦ rw more (
      length-walk ps n (step p.node_index seen)
        (ground (arith, more, length-step p.node_index seen)))
  | inr full ↦ rw full h
]

step_seen :
    (i j : ℕ) (seen : List ℕ) → (seen_before j (step i seen)) ≡ (seen_before j seen || (i == j))
step_seen i j seen = elim (Bool-cases (seen_before i seen)) [
  | inl old ↦ rw old (ground (arith, old, ==_iff i j))
  | inr new ↦ rw new (seen_before-append j i seen)
]

walk_keeps :
    (ps : List Point) (n : ℕ) (seen : List ℕ) (j : ℕ)
    → seen_before j seen ≡ true
    → seen_before j (walk ps n seen) ≡ true
unfolding walk
walk_keeps [] n seen j h = h
walk_keeps (p ∷ ps) n seen j h = elim (Bool-cases (ltb (length seen) n)) [
  | inl more ↦ rw more (
      walk_keeps ps n (step p.node_index seen) j (ground (arith, h, step_seen p.node_index j seen)))
  | inr full ↦ rw full h
]

-- A walk that finds fewer nodes than asked for has seen them all.
pub walk_complete :
    (ps : List Point) (n : ℕ) (seen : List ℕ)
    → length (walk ps n seen) < n
    → Each (λ p. seen_before p.node_index (walk ps n seen) ≡ true) ps
unfolding walk
walk_complete [] n seen h = tt
walk_complete (p ∷ ps) n seen h = elim (Bool-cases (ltb (length seen) n)) [
  | inl more ↦
      let one : walk (p ∷ ps) n seen ≡ walk ps n (step p.node_index seen) = rw (more, walk) refl in
      subst (λ out. Each (λ q. seen_before q.node_index out ≡ true) (p ∷ ps)) (sym one)
        (
          walk_keeps ps n (step p.node_index seen) p.node_index
              (ground (arith, step_seen p.node_index p.node_index seen)),
          walk_complete ps n (step p.node_index seen) (subst (λ out. length out < n) one h),
        )
  | inr full ↦
      let stop : walk (p ∷ ps) n seen ≡ seen = rw (full, walk) refl in
      absurd (omega (arith, ltb→le (length seen) n full, subst (λ out. length out < n) stop h))
]
