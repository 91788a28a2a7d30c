-- ===== src/HintQueue/Chain.antt =====
-- The doubly linked list in the slot array: what it stands for, and how it changes with a link.
use cinder.Prelude.{
  ℕ, ◌≡◌, refl, sym, ◌∙◌, false, Option, none, some, List, [], ◌∷◌, ◌++◌, ◌==◌, ◌⊎◌, if◌then◌else◌,
  arith, Bool-cases, inl, inr,
}
use cinder.HintQueue.{Hint, Slot, Slots, update, set_next, set_prev}

-- The slots of the list in its order, with their hints.
abbrev pub Chain : Type 0
Chain = List (ℕ × Hint)

unfoldable pub lookup : ℕ → Chain → Option Hint
lookup i [] = none
lookup i ((j, hint) ∷ xs) = if i == j then some hint else lookup i xs

abbrev pub Distinct : Chain → Type 0
Distinct [] = Unit
Distinct ((i, hint) ∷ xs) = (lookup i xs ≡ none) × Distinct xs

-- The first and the last index, or the given one where there is none.
unfoldable pub first_of : ℕ → Chain → ℕ
first_of stop [] = stop
first_of stop ((i, hint) ∷ xs) = i

unfoldable pub last_of : ℕ → Chain → ℕ
last_of p [] = p
last_of p ((i, hint) ∷ xs) = last_of i xs

-- The links of the chain: `p` is before it, `stop` behind.
unfoldable pub Linked : Slots → ℕ → Chain → ℕ → Type 0
Linked s p [] stop = Unit
Linked s p ((i, hint) ∷ xs) stop =
    ((s i).prev ≡ p) × ((s i).next ≡ first_of stop xs) × Linked s i xs stop

pub first_of-append :
    (stop : ℕ) (xs ys : Chain) → first_of stop (xs ++ ys) ≡ first_of (first_of stop ys) xs
unfolding first_of
first_of-append stop [] ys = refl
first_of-append stop (x ∷ xs) ys = refl

pub last_of-append : (p : ℕ) (xs ys : Chain) → last_of p (xs ++ ys) ≡ last_of (last_of p xs) ys
unfolding last_of
last_of-append p [] ys = refl
last_of-append p (x ∷ xs) ys = last_of-append x.0 xs ys

pub Linked-join :
    (s : Slots) (p : ℕ) (xs ys : Chain) (stop : ℕ)
    → Linked s p xs (first_of stop ys)
    → Linked s (last_of p xs) ys stop
    → Linked s p (xs ++ ys) stop
unfolding Linked last_of
Linked-join s p [] ys stop h k = k
Linked-join s p (x ∷ xs) ys stop h k =
    (h.0, h.1 ∙ sym (first_of-append stop xs ys), Linked-join s x.0 xs ys stop h.2 k)

pub Linked-split :
    (s : Slots) (p : ℕ) (xs ys : Chain) (stop : ℕ)
    → Linked s p (xs ++ ys) stop
    → Linked s p xs (first_of stop ys) × Linked s (last_of p xs) ys stop
unfolding Linked last_of
Linked-split s p [] ys stop h = (tt, h)
Linked-split s p (x ∷ xs) ys stop h =
    let (a, b) = Linked-split s x.0 xs ys stop h.2 in
    ((h.0, h.1 ∙ first_of-append stop xs ys, a), b)

-- A slot outside the chain may change.
pub Linked-update :
    (s : Slots) (i : ℕ) (slot : Slot) (p : ℕ) (xs : Chain) (stop : ℕ)
    → lookup i xs ≡ none
    → Linked s p xs stop
    → Linked (update s i slot) p xs stop
unfolding Linked update lookup
Linked-update s i slot p [] stop out h = tt
Linked-update s i slot p ((j, hint) ∷ xs) stop out h = (
  ground (arith, h.0, out),
  ground (arith, h.1, out),
  Linked-update s i slot j xs stop (ground (arith, out)) h.2,
)

-- The last slot of a chain is not that of another list.
pub lookup-last :
    (i : ℕ) (x : ℕ × Hint) (xs : Chain) → lookup i (x ∷ xs) ≡ none → (last_of x.0 xs == i) ≡ false
unfolding lookup last_of
lookup-last i x [] h = ground (arith, h)
lookup-last i x (y ∷ ys) h = lookup-last i y ys (ground (arith, h))

-- The last link is led elsewhere.
pub Linked-set_next :
    (s : Slots) (p : ℕ) (x : ℕ × Hint) (xs : Chain) (stop next : ℕ)
    → Distinct (x ∷ xs)
    → Linked s p (x ∷ xs) stop
    → Linked (set_next s (last_of x.0 xs) next) p (x ∷ xs) next
unfolding Linked set_next update last_of first_of
Linked-set_next s p x [] stop next d h = (ground (arith, h.0), ground arith, tt)
Linked-set_next s p x (y ∷ ys) stop next d h = (
  ground (arith, h.0, lookup-last x.0 y ys d.0),
  ground (arith, h.1, lookup-last x.0 y ys d.0),
  Linked-set_next s x.0 y ys stop next d.1 h.2,
)

-- The first link back is led elsewhere.
pub Linked-set_prev :
    (s : Slots) (p : ℕ) (x : ℕ × Hint) (xs : Chain) (stop prev : ℕ)
    → Distinct (x ∷ xs)
    → Linked s p (x ∷ xs) stop
    → Linked (set_prev s x.0 prev) prev (x ∷ xs) stop
unfolding Linked set_prev update
Linked-set_prev s p x xs stop prev d h = (
  ground arith,
  ground (arith, h.1),
  Linked-update s x.0 (record (s x.0) { prev = prev }) x.0 xs stop d.0 h.2,
)

pub lookup-append :
    (i : ℕ) (xs ys : Chain)
    → lookup i (xs ++ ys) ≡ elim (lookup i xs) [ none ↦ lookup i ys | some hint ↦ some hint ]
unfolding lookup
lookup-append i [] ys = refl
lookup-append i ((j, hint) ∷ xs) ys = ground (arith, lookup-append i xs ys)

pub lookup_before : (i : ℕ) (xs ys : Chain) → lookup i (xs ++ ys) ≡ none → lookup i xs ≡ none
unfolding lookup
lookup_before i [] ys h = refl
lookup_before i ((j, hint) ∷ xs) ys h = ground (arith, lookup_before i xs ys, h)

pub lookup_behind : (i : ℕ) (xs ys : Chain) → lookup i (xs ++ ys) ≡ none → lookup i ys ≡ none
unfolding lookup
lookup_behind i [] ys h = h
lookup_behind i ((j, hint) ∷ xs) ys h = ground (arith, lookup_behind i xs ys, h)

pub lookup_both :
    (i : ℕ) (xs ys : Chain) → lookup i xs ≡ none → lookup i ys ≡ none → lookup i (xs ++ ys) ≡ none
lookup_both i xs ys h k = ground (arith, lookup-append i xs ys, h, k)

pub lookup_head :
    (i j : ℕ) (hint : Hint) (xs : Chain) → lookup i ((j, hint) ∷ xs) ≡ none → (i == j) ≡ false
unfolding lookup
lookup_head i j hint xs h = ground (arith, h)

pub lookup_tail :
    (i j : ℕ) (hint : Hint) (xs : Chain) → lookup i ((j, hint) ∷ xs) ≡ none → lookup i xs ≡ none
unfolding lookup
lookup_tail i j hint xs h = ground (arith, h)

pub lookup_cons :
    (i j : ℕ) (hint : Hint) (xs : Chain)
    → (i == j) ≡ false
    → lookup i xs ≡ none
    → lookup i ((j, hint) ∷ xs) ≡ none
unfolding lookup
lookup_cons i j hint xs h k = ground (arith, h, k)

-- What is known of a chain with an element in its middle.
pub record Middle (xs : Chain) (i : ℕ) (ys : Chain) : Type 0 where
  pub before : lookup i xs ≡ none
  pub behind : lookup i ys ≡ none
  pub left : Distinct xs
  pub right : Distinct ys
  pub joined : Distinct (xs ++ ys)
  pub apart : (j : ℕ) → (lookup j xs ≡ none) ⊎ (lookup j ys ≡ none)

pub Distinct-Middle :
    (xs : Chain) (i : ℕ) (hint : Hint) (ys : Chain)
    → Distinct (xs ++ ((i, hint) ∷ ys))
    → Middle xs i ys
unfolding lookup
Distinct-Middle [] i hint ys d = record {
  before = refl;
  behind = d.0;
  left = tt;
  right = d.1;
  joined = d.1;
  apart = λ j. inl refl;
}
Distinct-Middle ((k, other) ∷ xs) i hint ys d =
    let rest : Middle xs i ys = Distinct-Middle xs i hint ys d.1 in
    let tail : lookup k ((i, hint) ∷ ys) ≡ none = lookup_behind k xs ((i, hint) ∷ ys) d.0 in
    record {
      before = lookup_cons i k other xs (ground (arith, lookup_head k i hint ys tail)) rest.before;
      behind = rest.behind;
      left = (lookup_before k xs ((i, hint) ∷ ys) d.0, rest.left);
      right = rest.right;
      joined = (
        lookup_both k xs ys (lookup_before k xs _ d.0) (lookup_tail k i hint ys tail),
        rest.joined,
      );
      apart = λ j. elim (Bool-cases (j == k)) [
        | inl same ↦ inr (ground (arith, same, lookup_tail k i hint ys tail))
        | inr different ↦ elim (rest.apart j) [
          | inl h ↦ inl (lookup_cons j k other xs different h)
          | inr h ↦ inr h
        ]
      ];
    }
