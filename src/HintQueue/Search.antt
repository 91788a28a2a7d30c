-- ===== src/HintQueue/Search.antt =====
-- The loop along the list finds the first hint that passes its test.
use mathlib.Core.List.{append_assoc}
use cinder.Prelude.{
  ℕ, zero, suc, ◌<◌, ◌≡◌, refl, sym, subst, ap, ◌∙◌, Bool, Option, none, some, [], ◌∷◌, ◌++◌,
  length, if◌then◌else◌, arith, Bool-cases, inl, inr,
}
use cinder.Buffer.Lists.{Each}
use cinder.HintQueue.{Hint, Slots, k_none, k_capacity, search_from}
use cinder.HintQueue.Chain.{Chain, lookup, Distinct, first_of, Linked, Middle, Distinct-Middle}
use cinder.HintQueue.Invariant.{chain_bytes, lookup_here}
use cinder.HintQueue.Fifo.{find_hint, remove_hint, bytes_of, hints_of}

-- The hints of the chain are in their slots.
abbrev pub Holding : Slots → Chain → Type 0
Holding s xs = Each (λ e. (s e.0).hint ≡ some e.1) xs

pub holds :
    (s : Slots) (all ys xs : Chain)
    → ((i : ℕ) → (s i).hint ≡ lookup i all)
    → all ≡ ys ++ xs
    → Distinct all
    → Holding s xs
holds s all ys [] h e d = tt
holds s all ys ((x, hint) ∷ xs) h e d =
    let m : Middle ys x xs = Distinct-Middle ys x hint xs (subst Distinct e d) in
    (
      h x ∙ ap (lookup x) e ∙ lookup_here x hint ys xs m.before,
      holds s all (ys ++ ((x, hint) ∷ [])) xs h (e ∙ sym (append_assoc ys ((x, hint) ∷ []) xs)) d,
    )

unfoldable pub find_slot : (Hint → Bool) → Chain → Option ℕ
find_slot test [] = none
find_slot test ((x, hint) ∷ xs) = if test hint then some x else find_slot test xs

pub search-find_slot :
    (test : Hint → Bool) (fuel : ℕ) (s : Slots) (p : ℕ) (xs : Chain)
    → Linked s p xs k_none
    → Holding s xs
    → Each (λ e. e.0 < k_capacity) xs
    → length xs < fuel
    → search_from test fuel s (first_of k_none xs) ≡ some (find_slot test xs)
unfolding search_from find_slot first_of Linked
search-find_slot test zero s p xs l h b f = absurd (omega (arith, f))
search-find_slot test (suc fuel) s p [] l h b f = refl
search-find_slot test (suc fuel) s p ((x, hint) ∷ xs) l h b f =
    ground (arith, h.0, b.0, l.1, search-find_slot test fuel s x xs l.2 h.1 b.1 (omega (arith, f)))

-- What a search has found: a place in the chain, and the same hint in the list.
pub record Found (test : Hint → Bool) (xs : Chain) (x : ℕ) : Type 0 where
  pub before : Chain
  pub hint : Hint
  pub behind : Chain
  pub split : xs ≡ before ++ ((x, hint) ∷ behind)
  pub found : find_hint test (hints_of xs) ≡ some hint
  pub removed : remove_hint test (hints_of xs) ≡ hints_of (before ++ behind)

pub find_slot-Found :
    (test : Hint → Bool) (xs : Chain) (x : ℕ) → find_slot test xs ≡ some x → Found test xs x
unfolding find_slot find_hint remove_hint
find_slot-Found test [] x h = absurd (cc)
find_slot-Found test ((y, hint) ∷ xs) x h = elim (Bool-cases (test hint)) [
  | inl e ↦ record {
    before = [];
    hint = hint;
    behind = xs;
    split = ground (arith, h, e);
    found = ground (arith, e);
    removed = ground (arith, e);
  }
  | inr e ↦
      let r : Found test xs x = find_slot-Found test xs x (ground (arith, h, e)) in
      record {
        before = (y, hint) ∷ r.before;
        hint = r.hint;
        behind = r.behind;
        split = ap (λ (t : Chain). (y, hint) ∷ t) r.split;
        found = ground (arith, e, r.found);
        removed = ground (arith, e, r.removed);
      }
]

pub find_hint-none :
    (test : Hint → Bool) (xs : Chain)
    → find_slot test xs ≡ none
    → find_hint test (hints_of xs) ≡ none
unfolding find_slot find_hint
find_hint-none test [] h = refl
find_hint-none test ((y, hint) ∷ xs) h = ground (arith, h, find_hint-none test xs)

pub chain_bytes-bytes_of : (b : ℕ) (xs : Chain) → chain_bytes b xs ≡ bytes_of b (hints_of xs)
unfolding chain_bytes bytes_of
chain_bytes-bytes_of b [] = refl
chain_bytes-bytes_of b (x ∷ xs) = omega (arith, chain_bytes-bytes_of b xs)

pub length-hints_of : (xs : Chain) → length (hints_of xs) ≡ length xs
length-hints_of [] = refl
length-hints_of (x ∷ xs) = ap suc (length-hints_of xs)

pub hints_of-append : (xs ys : Chain) → hints_of (xs ++ ys) ≡ hints_of xs ++ hints_of ys
hints_of-append [] ys = refl
hints_of-append (x ∷ xs) ys = ap (λ t. x.1 ∷ t) (hints_of-append xs ys)
