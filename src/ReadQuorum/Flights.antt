-- ===== src/ReadQuorum/Flights.antt =====
-- attach and finish: one flight from its leader to its end.
use mathlib.Core.List.{append_assoc, append-nil}
use cinder.Prelude.{
  ℕ, ◌≡◌, refl, sym, ap, ◌∙◌, Bool, true, false, none, some, List, [], ◌∷◌, ◌++◌, length,
  same_bytes_refl, arith,
}
use cinder.ReadQuorum.{
  Flight, FlightKey, Registry, same_key, find_flight, erase_flight, waiters_at, set_waiters, attach,
  finish,
}

same_key_refl : (id : FlightKey) → same_key id id ≡ true
same_key_refl id = ground (arith, same_bytes_refl id.key)

waiters_last : (heap : List Flight) (w : Flight) → waiters_at (heap ++ (w ∷ [])) (length heap) ≡ w
waiters_last [] w = refl
waiters_last (f ∷ heap) w = waiters_last heap w

set_last :
    (heap : List Flight) (v w : Flight)
    → set_waiters (heap ++ (v ∷ [])) (length heap) w ≡ heap ++ (w ∷ [])
set_last [] v w = refl
set_last (f ∷ heap) v w = ap (λ fs. f ∷ fs) (set_last heap v w)

find_last :
    (m : List (FlightKey × ℕ)) (id : FlightKey) (i : ℕ)
    → find_flight m id ≡ none
    → find_flight (m ++ ((id, i) ∷ [])) id ≡ some i
unfolding find_flight
find_last [] id i h = rw (same_key_refl id) refl
find_last ((k, j) ∷ m) id i h = ground (arith, h, find_last m id i)

erase_last :
    (m : List (FlightKey × ℕ)) (id : FlightKey) (i : ℕ)
    → find_flight m id ≡ none
    → erase_flight (m ++ ((id, i) ∷ [])) id ≡ m
unfolding find_flight erase_flight
erase_last [] id i h = rw (same_key_refl id) refl
erase_last ((k, j) ∷ m) id i h = ground (arith, h, erase_last m id i)

-- The registry with one more flight, its waiters `w`.
abbrev pub opened : Registry → FlightKey → Flight → Registry
opened g id w = record {
  heap = g.heap ++ (w ∷ []);
  flights = g.flights ++ ((id, length g.heap) ∷ []);
}

attach_first :
    (g : Registry) (id : FlightKey) (callback : ℕ)
    → find_flight g.flights id ≡ none
    → attach g id callback ≡ (opened g id (callback ∷ []), length g.heap, true)
unfolding attach
attach_first g id callback h = rw (h, attach) refl

attach_next :
    (g : Registry) (id : FlightKey) (w : Flight) (callback : ℕ)
    → find_flight g.flights id ≡ none
    → attach (opened g id w) id callback
      ≡ (opened g id (w ++ (callback ∷ [])), length g.heap, false)
unfolding attach
attach_next g id w callback h =
    rw (find_last g.flights id (length g.heap) h, attach)
      (rw (waiters_last g.heap w) (rw (set_last g.heap w (w ++ (callback ∷ []))) refl))

-- The callers that come after the leader, in order.
unfoldable pub attach_all : Registry → FlightKey → List ℕ → Registry
attach_all g id [] = g
attach_all g id (callback ∷ callbacks) = attach_all (attach g id callback).0 id callbacks

attached :
    (g : Registry) (id : FlightKey) (callbacks : List ℕ) (w : Flight)
    → find_flight g.flights id ≡ none
    → attach_all (opened g id w) id callbacks ≡ opened g id (w ++ callbacks)
unfolding attach_all
attached g id [] w h = ap (opened g id) (sym (append-nil w))
attached g id (callback ∷ callbacks) w h =
    ap (λ (r : Registry × ℕ × Bool). attach_all r.0 id callbacks) (attach_next g id w callback h)
    ∙ attached g id callbacks (w ++ (callback ∷ [])) h
    ∙ ap (opened g id) (append_assoc w (callback ∷ []) callbacks)

finish-opened :
    (g : Registry) (id : FlightKey) (w : Flight)
    → find_flight g.flights id ≡ none
    → finish (opened g id w) id (length g.heap)
      ≡ (record { heap = g.heap ++ ([] ∷ []); flights = g.flights }, w)
unfolding finish
finish-opened g id w h =
    rw (find_last g.flights id (length g.heap) h, finish)
      (rw (waiters_last g.heap w)
        (rw (set_last g.heap w []) (ground (arith, erase_last g.flights id (length g.heap) h))))

no_waiters :
    (g : Registry) (id : FlightKey)
    → (finish (record { heap = g.heap ++ ([] ∷ []); flights = g.flights }) id (length g.heap)).1
      ≡ []
unfolding finish
no_waiters g id = waiters_last g.heap []

-- On a key with no flight, the first caller leads a new one; a caller that comes while it is open
-- joins that flight and does not lead; the flight's end calls the callbacks of all of them, once each
-- and in the order of their arrival, and leaves the key with no flight, so the next caller leads again.
pub one_flight :
    (g : Registry) (id : FlightKey) (first late : ℕ) (others : List ℕ)
    → find_flight g.flights id ≡ none
    → let joined = attach_all (attach g id first).0 id others in
      let ended = finish joined id (length g.heap) in
      ((attach g id first).1 ≡ length g.heap)
      × ((attach g id first).2 ≡ true)
      × ((attach joined id late).1 ≡ length g.heap)
      × ((attach joined id late).2 ≡ false)
      × (ended.1 ≡ first ∷ others)
      × (find_flight ended.0.flights id ≡ none)
      × ((finish ended.0 id (length g.heap)).1 ≡ [])
      × ((attach ended.0 id late).2 ≡ true)
one_flight g id first late others h =
    let joined =
      ap (λ (r : Registry × ℕ × Bool). attach_all r.0 id others) (attach_first g id first h)
      ∙ attached g id others (first ∷ []) h in
    let ended =
      ap (λ (r : Registry). finish r id (length g.heap)) joined
      ∙ finish-opened g id (first ∷ others) h in
    let none_left = ap (λ (r : Registry × List ℕ). find_flight r.0.flights id) ended ∙ h in
    (
      ap (λ (r : Registry × ℕ × Bool). r.1) (attach_first g id first h),
      ap (λ (r : Registry × ℕ × Bool). r.2) (attach_first g id first h),
      ap (λ (r : Registry). (attach r id late).1) joined
          ∙ ap (λ (r : Registry × ℕ × Bool). r.1) (attach_next g id (first ∷ others) late h),
      ap (λ (r : Registry). (attach r id late).2) joined
          ∙ ap (λ (r : Registry × ℕ × Bool). r.2) (attach_next g id (first ∷ others) late h),
      ap (λ (r : Registry × List ℕ). r.1) ended,
      none_left,
      ap (λ (r : Registry × List ℕ). (finish r.0 id (length g.heap)).1) ended ∙ no_waiters g id,
      ap (λ (r : Registry × ℕ × Bool). r.2)
          (attach_first (finish (attach_all (attach g id first).0 id others) id (length g.heap)).0
            id late none_left),
    )
