-- ===== src/HintQueue/Fifo.antt =====
-- What the queue promises: a list of hints, the oldest first, and the count of those given up.
use cinder.Prelude.{
  ℕ, ◌+◌, ◌-◌, ◌==◌, Bool, true, false, ◌||◌, Option, none, some, List, [], ◌∷◌, ◌++◌, ◌≡◌, length,
  map, ltb, leb, if◌then◌else◌,
}
use cinder.Store.{add64}
use cinder.HintQueue.{Hint, HintQueue, k_capacity, estimated_bytes, same_hint_slot, is_newer_than}
use cinder.HintQueue.Chain.{Chain}
use cinder.HintQueue.Invariant.{IsQueue}

pub record Fifo : Type 0 where
  pub hints : List Hint
  pub dropped : ℕ

-- The first hint that passes the test, and the list without it.
unfoldable pub find_hint : (Hint → Bool) → List Hint → Option Hint
find_hint test [] = none
find_hint test (h ∷ hs) = if test h then some h else find_hint test hs

unfoldable pub remove_hint : (Hint → Bool) → List Hint → List Hint
remove_hint test [] = []
remove_hint test (h ∷ hs) = if test h then hs else h ∷ remove_hint test hs

-- Expired hints among those that a scan meets before it has `count` others: what stays and what it
-- has found.
unfoldable pub scan : ℕ → ℕ → List Hint → List Hint × List Hint
scan now count [] = ([], [])
scan now count (h ∷ hs) =
    let skipped = scan now count hs in
    let found = scan now (count - 1) hs in
    if count == 0
    then (h ∷ hs, [])
    else if leb h.expires_at now
    then skipped
    else (h ∷ found.0, h ∷ found.1)

module _ (hint_bytes : ℕ) where
  unfoldable pub bytes_of : List Hint → ℕ
  unfolding estimated_bytes
  bytes_of [] = 0
  bytes_of (h ∷ hs) = estimated_bytes hint_bytes h + bytes_of hs

  module _ (max_bytes : ℕ) where
    unfoldable pub too_full : List Hint → ℕ → Bool
    too_full hs incoming = length hs == k_capacity || ltb max_bytes (bytes_of hs + incoming)

    -- The oldest go until there is room.
    unfoldable pub evict : ℕ → List Hint → ℕ → Fifo
    evict incoming [] dropped = record { hints = []; dropped = dropped }
    evict incoming (h ∷ hs) dropped =
        let rest = evict incoming hs (add64 dropped 1) in
        if too_full (h ∷ hs) incoming then rest else record { hints = h ∷ hs; dropped = dropped }

    unfoldable pub store : Fifo → Hint → Fifo × Bool
    store f hint =
        let room = evict (estimated_bytes hint_bytes hint) f.hints f.dropped in
        (record { hints = room.hints ++ (hint ∷ []); dropped = room.dropped }, true)

    -- Pushing a hint: one that can never fit is given up, one for a waiting target and key gives way
    -- to a newer write and keeps out an older one.
    unfoldable pub fifo_push : Fifo → Hint → Fifo × Bool
    fifo_push f hint =
        if ltb max_bytes (estimated_bytes hint_bytes hint)
        then (record f { dropped = add64 f.dropped 1 }, false)
        else elim (find_hint (same_hint_slot hint) f.hints) [
          | none ↦ store f hint
          | some old ↦
              if is_newer_than hint.req old.req
              then store (record f { hints = remove_hint (same_hint_slot hint) f.hints }) hint
              else (f, false)
        ]

abbrev pub hints_of : Chain → List Hint
hints_of xs = map (λ e. e.1) xs

-- The queue holds these hints in this order.
unfoldable pub Implements : ℕ → HintQueue → Fifo → Type 0
Implements hint_bytes q f =
    (xs : Chain) × (frees : List ℕ) × IsQueue hint_bytes q xs frees
    × (hints_of xs ≡ f.hints)
    × (q.dropped ≡ f.dropped)
