-- ===== src/HintQueue/Bounds.antt =====
-- At most one hint for a target and key, and the queue's bounds, through every sequence of calls.
use cinder.Prelude.{
  ℕ, ◌+◌, ◌-◌, ◌≤◌, ◌≡◌, refl, Bool, true, false, none, List, [], ◌∷◌, ◌++◌, same_bytes_iff, ◌==◌,
  arith, Bool-cases, Option-cases, inl, inr, leb, ltb,
}
use cinder.Store.{add64}
use cinder.HintQueue.{Hint, same_hint_slot, is_newer_than, estimated_bytes}
use cinder.HintQueue.Fifo.{
  Fifo, find_hint, remove_hint, scan, bytes_of, too_full, evict, store, fifo_push,
}

-- No two hints are for the same target and key.
abbrev pub Coalesced : List Hint → Type 0
Coalesced [] = Unit
Coalesced (h ∷ hs) = (find_hint (same_hint_slot h) hs ≡ none) × Coalesced hs

same_sym : (x y : Hint) → same_hint_slot x y ≡ false → same_hint_slot y x ≡ false
unfolding same_hint_slot
same_sym x y h = ground (
  arith,
  h,
  same_bytes_iff x.target y.target,
  same_bytes_iff y.target x.target,
  same_bytes_iff x.req.key y.req.key,
  same_bytes_iff y.req.key x.req.key,
)

same_trans :
    (x y z : Hint)
    → same_hint_slot x y ≡ true
    → same_hint_slot y z ≡ false
    → same_hint_slot x z ≡ false
unfolding same_hint_slot
same_trans x y z h k = ground (
  arith,
  h,
  k,
  same_bytes_iff y.target x.target,
  same_bytes_iff z.target y.target,
  same_bytes_iff z.target x.target,
  same_bytes_iff y.req.key x.req.key,
  same_bytes_iff z.req.key y.req.key,
  same_bytes_iff z.req.key x.req.key,
)

find_snoc :
    (test : Hint → Bool) (hs : List Hint) (x : Hint)
    → find_hint test hs ≡ none
    → test x ≡ false
    → find_hint test (hs ++ (x ∷ [])) ≡ none
unfolding find_hint
find_snoc test [] x h k = ground (arith, k)
find_snoc test (y ∷ ys) x h k = ground (arith, h, k, find_snoc test ys x)

find_head :
    (test : Hint → Bool) (h : Hint) (hs : List Hint)
    → find_hint test (h ∷ hs) ≡ none
    → (test h ≡ false) × (find_hint test hs ≡ none)
unfolding find_hint
find_head test h hs e = (ground (arith, e), ground (arith, e))

nothing : (test : Hint → Bool) → find_hint test [] ≡ none
unfolding find_hint
nothing test = refl

Coalesced-snoc :
    (hs : List Hint) (x : Hint)
    → Coalesced hs
    → find_hint (same_hint_slot x) hs ≡ none
    → Coalesced (hs ++ (x ∷ []))
Coalesced-snoc [] x c h = (nothing (same_hint_slot x), tt)
Coalesced-snoc (y ∷ ys) x c h =
    let (e, f) = find_head (same_hint_slot x) y ys h in
    (find_snoc (same_hint_slot y) ys x c.0 (same_sym x y e), Coalesced-snoc ys x c.1 f)

find_remove :
    (test other : Hint → Bool) (hs : List Hint)
    → find_hint test hs ≡ none
    → find_hint test (remove_hint other hs) ≡ none
unfolding find_hint remove_hint
find_remove test other [] h = refl
find_remove test other (y ∷ ys) h = ground (arith, h, find_remove test other ys)

pub Coalesced-remove_hint :
    (test : Hint → Bool) (hs : List Hint) → Coalesced hs → Coalesced (remove_hint test hs)
unfolding remove_hint
Coalesced-remove_hint test [] c = tt
Coalesced-remove_hint test (y ∷ ys) c = elim (Bool-cases (test y)) [
  | inl e ↦ rw e c.1
  | inr e ↦ rw e (find_remove (same_hint_slot y) test ys c.0, Coalesced-remove_hint test ys c.1)
]

-- The others are for another target or key than one that is for the same as `x`.
find_others :
    (x y : Hint) (hs : List Hint)
    → same_hint_slot x y ≡ true
    → find_hint (same_hint_slot y) hs ≡ none
    → find_hint (same_hint_slot x) hs ≡ none
unfolding find_hint
find_others x y [] e h = refl
find_others x y (z ∷ zs) e h = ground (arith, h, same_trans x y z e, find_others x y zs e)

removed_all :
    (x : Hint) (hs : List Hint)
    → Coalesced hs
    → find_hint (same_hint_slot x) (remove_hint (same_hint_slot x) hs) ≡ none
unfolding find_hint remove_hint
removed_all x [] c = refl
removed_all x (y ∷ ys) c = ground (arith, find_others x y ys, c.0, removed_all x ys c.1)

module _ (b max : ℕ) where
  find-evict :
      (test : Hint → Bool) (incoming : ℕ) (hs : List Hint) (d : ℕ)
      → find_hint test hs ≡ none
      → find_hint test (evict b max incoming hs d).hints ≡ none
  unfolding evict find_hint
  find-evict test incoming [] d h = refl
  find-evict test incoming (y ∷ ys) d h = ground (arith, h, find-evict test incoming ys (add64 d 1))

  Coalesced-evict :
      (incoming : ℕ) (hs : List Hint) (d : ℕ)
      → Coalesced hs
      → Coalesced (evict b max incoming hs d).hints
  unfolding evict
  Coalesced-evict incoming [] d c = tt
  Coalesced-evict incoming (y ∷ ys) d c = elim (Bool-cases (too_full b max (y ∷ ys) incoming)) [
    | inl e ↦ rw e (Coalesced-evict incoming ys (add64 d 1) c.1)
    | inr e ↦ rw e c
  ]

  Coalesced-store :
      (f : Fifo) (x : Hint)
      → Coalesced f.hints
      → find_hint (same_hint_slot x) f.hints ≡ none
      → Coalesced (store b max f x).0.hints
  unfolding store
  Coalesced-store f x c h =
      Coalesced-snoc (evict b max (estimated_bytes b x) f.hints f.dropped).hints x
        (Coalesced-evict (estimated_bytes b x) f.hints f.dropped c)
        (find-evict (same_hint_slot x) (estimated_bytes b x) f.hints f.dropped h)

  pub Coalesced-fifo_push :
      (f : Fifo) (x : Hint) → Coalesced f.hints → Coalesced (fifo_push b max f x).0.hints
  unfolding fifo_push
  Coalesced-fifo_push f x c = elim (Bool-cases (ltb max (estimated_bytes b x))) [
    | inl e ↦ rw e c
    | inr e ↦ rw e (elim (Option-cases (find_hint (same_hint_slot x) f.hints)) [
      | inl n ↦ rw (n, fifo_push) (Coalesced-store f x c n)
      | inr (old, n) ↦
          rw (n, fifo_push)
            (elim (Bool-cases (is_newer_than x.req old.req)) [
              | inr s ↦ rw s c
              | inl s ↦ rw s (
                  Coalesced-store (record f { hints = remove_hint (same_hint_slot x) f.hints }) x
                    (Coalesced-remove_hint (same_hint_slot x) f.hints c) (removed_all x f.hints c))
            ])
    ])
  ]

find-scan :
    (test : Hint → Bool) (now count : ℕ) (hs : List Hint)
    → find_hint test hs ≡ none
    → find_hint test (scan now count hs).0 ≡ none
unfolding scan find_hint
find-scan test now count [] h = refl
find-scan test now count (y ∷ ys) h =
    ground (arith, h, find-scan test now count ys, find-scan test now (count - 1) ys)

pub Coalesced-scan :
    (now count : ℕ) (hs : List Hint) → Coalesced hs → Coalesced (scan now count hs).0
unfolding scan
Coalesced-scan now count [] c = tt
Coalesced-scan now count (y ∷ ys) c = elim (Bool-cases (count == 0)) [
  | inl e ↦ rw e c
  | inr e ↦ rw e (elim (Bool-cases (leb y.expires_at now)) [
    | inl l ↦ rw l (Coalesced-scan now count ys c.1)
    | inr l ↦
        rw l (
          find-scan (same_hint_slot y) now (count - 1) ys c.0,
          Coalesced-scan now (count - 1) ys c.1,
        )
  ])
]

find_without :
    (test : Hint → Bool) (xs : List Hint) (y : Hint) (ys : List Hint)
    → find_hint test (xs ++ (y ∷ ys)) ≡ none
    → find_hint test (xs ++ ys) ≡ none
unfolding find_hint
find_without test [] y ys h = ground (arith, h)
find_without test (x ∷ xs) y ys h = ground (arith, h, find_without test xs y ys)

pub Coalesced-without :
    (xs : List Hint) (y : Hint) (ys : List Hint) → Coalesced (xs ++ (y ∷ ys)) → Coalesced (xs ++ ys)
Coalesced-without [] y ys c = c.1
Coalesced-without (x ∷ xs) y ys c =
    (find_without (same_hint_slot x) xs y ys c.0, Coalesced-without xs y ys c.1)

bytes_of-snoc :
    (b : ℕ) (hs : List Hint) (x : Hint)
    → bytes_of b (hs ++ (x ∷ [])) ≡ bytes_of b hs + estimated_bytes b x
unfolding bytes_of
bytes_of-snoc b [] x = omega arith
bytes_of-snoc b (h ∷ hs) x = omega (arith, bytes_of-snoc b hs x)

module _ (b max : ℕ) where
  evict_room :
      (incoming : ℕ) (hs : List Hint) (d : ℕ)
      → incoming ≤ max
      → bytes_of b (evict b max incoming hs d).hints + incoming ≤ max
  unfolding evict bytes_of too_full
  evict_room incoming [] d i = omega (arith, i)
  evict_room incoming (y ∷ ys) d i = ground (arith, i, evict_room incoming ys (add64 d 1) i)

  store_fits :
      (f : Fifo) (x : Hint) → estimated_bytes b x ≤ max → bytes_of b (store b max f x).0.hints ≤ max
  unfolding store
  store_fits f x i = omega (
    arith,
    evict_room (estimated_bytes b x) f.hints f.dropped i,
    bytes_of-snoc b (evict b max (estimated_bytes b x) f.hints f.dropped).hints x,
  )

  -- After a push that was let in, the hints fit the byte limit.
  pub bytes_of-fifo_push :
      (f : Fifo) (x : Hint)
      → (fifo_push b max f x).1 ≡ true
      → bytes_of b (fifo_push b max f x).0.hints ≤ max
  unfolding fifo_push
  bytes_of-fifo_push f x h = ground (
    arith,
    h,
    store_fits f x,
    store_fits (record f { hints = remove_hint (same_hint_slot x) f.hints }) x,
  )
