-- ===== src/HintQueue/Unlink.antt =====
-- Taking a slot out of the middle of the chain: the two links around it are joined.
use cinder.Prelude.{
  ℕ, ◌<◌, ◌≡◌, refl, sym, ap, ◌∙◌, false, none, [], ◌∷◌, ◌++◌, ◌==◌, ◌⊎◌, arith, inl, inr,
}
use cinder.Buffer.Lists.{Each}
use cinder.HintQueue.{
  Hint, Slot, Slots, HintQueue, k_none, k_capacity, update, set_next, set_prev, unlink_prev,
  unlink_next, release,
}
use cinder.HintQueue.Chain.{
  Chain, lookup, first_of, last_of, Linked, Linked-update, Linked-set_next, Linked-set_prev, Middle,
  Linked-join, Linked-split, lookup-last, lookup_head, first_of-append, last_of-append,
}

-- The chain around the slot `x`, and the ends of the queue, which may already pass over it.
pub record Around (q : HintQueue) (ys : Chain) (x : ℕ) (zs : Chain) (to back first last : ℕ)
    : Type 0 where
  pub left : Linked q.slots k_none ys to
  pub right : Linked q.slots back zs k_none
  pub prev : (q.slots x).prev ≡ last_of k_none ys
  pub next : (q.slots x).next ≡ first_of k_none zs
  pub head : q.head ≡ first
  pub tail : q.tail ≡ last

set_next-Linked :
    (s : Slots) (i next p : ℕ) (xs : Chain) (stop : ℕ)
    → lookup i xs ≡ none
    → Linked s p xs stop
    → Linked (set_next s i next) p xs stop
unfolding set_next
set_next-Linked s i next p xs stop = Linked-update s i (record (s i) { next = next }) p xs stop

set_prev-Linked :
    (s : Slots) (i prev p : ℕ) (xs : Chain) (stop : ℕ)
    → lookup i xs ≡ none
    → Linked s p xs stop
    → Linked (set_prev s i prev) p xs stop
unfolding set_prev
set_prev-Linked s i prev p xs stop = Linked-update s i (record (s i) { prev = prev }) p xs stop

pub last_below :
    (n x : ℕ) (hint : Hint) (xs : Chain) → Each (λ e. e.0 < n) ((x, hint) ∷ xs) → last_of x xs < n
unfolding last_of
last_below n x hint [] b = b.0
last_below n x hint ((y, other) ∷ ys) b = last_below n y other ys b.1

in_itself : (x : ℕ × Hint) (xs : Chain) → lookup (last_of x.0 xs) (x ∷ xs) ≡ none → ⊥
in_itself x xs h = ground (arith, lookup-last (last_of x.0 xs) x xs h)

-- Of two chains without a common slot, the second does not hold the last of the first.
last_apart :
    (x : ℕ × Hint) (xs ys : Chain)
    → ((j : ℕ) → (lookup j (x ∷ xs) ≡ none) ⊎ (lookup j ys ≡ none))
    → lookup (last_of x.0 xs) ys ≡ none
last_apart x xs ys h = elim (h (last_of x.0 xs)) [ inl k ↦ absurd (in_itself x xs k) | inr k ↦ k ]

first_apart :
    (xs : Chain) (x : ℕ × Hint) (ys : Chain)
    → ((j : ℕ) → (lookup j xs ≡ none) ⊎ (lookup j (x ∷ ys) ≡ none))
    → lookup x.0 xs ≡ none
first_apart xs x ys h = elim (h x.0) [
  | inl k ↦ k
  | inr k ↦ absurd (ground (arith, lookup_head x.0 x.0 x.1 ys k))
]

Linked-nil : (s : Slots) (p stop : ℕ) → Linked s p [] stop
unfolding Linked
Linked-nil s p stop = tt

module _ (q : HintQueue) (x : ℕ) where
  prev_first :
      (next : ℕ)
      → (q.slots x).prev ≡ k_none
      → (q.slots x).next ≡ next
      → unlink_prev q x ≡ record q { head = next }
  unfolding unlink_prev
  prev_first next h k = ground (arith, h, k)

  prev_inner :
      (p next : ℕ)
      → (q.slots x).prev ≡ p
      → p < k_capacity
      → (q.slots x).next ≡ next
      → unlink_prev q x ≡ record q { slots = set_next q.slots p next }
  unfolding unlink_prev
  prev_inner p next h b k = ground (arith, h, b, k)

  next_last :
      (prev : ℕ)
      → (q.slots x).next ≡ k_none
      → (q.slots x).prev ≡ prev
      → unlink_next q x ≡ record q { tail = prev }
  unfolding unlink_next
  next_last prev h k = ground (arith, h, k)

  next_inner :
      (n prev : ℕ)
      → (q.slots x).next ≡ n
      → n < k_capacity
      → (q.slots x).prev ≡ prev
      → unlink_next q x ≡ record q { slots = set_prev q.slots n prev }
  unfolding unlink_next
  next_inner n prev h b k = ground (arith, h, b, k)

  untouched-set_next : (i next : ℕ) → (i == x) ≡ false → set_next q.slots i next x ≡ q.slots x
  unfolding set_next update
  untouched-set_next i next h = ground (arith, h)

  untouched-set_prev : (i prev : ℕ) → (i == x) ≡ false → set_prev q.slots i prev x ≡ q.slots x
  unfolding set_prev update
  untouched-set_prev i prev h = ground (arith, h)

  join_left :
      (ys zs : Chain)
      → Middle ys x zs
      → Each (λ e. e.0 < k_capacity) ys
      → Around q ys x zs x x (first_of x ys) (last_of x zs)
      → Around
          (unlink_prev q x)
          ys
          x
          zs
          (first_of k_none zs)
          x
          (first_of (first_of k_none zs) ys)
          (last_of x zs)
  unfolding first_of last_of
  join_left [] zs m b a = rw (prev_first (first_of k_none zs) a.prev a.next) (record {
    left = Linked-nil q.slots k_none (first_of k_none zs);
    right = a.right;
    prev = a.prev;
    next = a.next;
    head = refl;
    tail = a.tail;
  })
  join_left ((y, other) ∷ ys) zs m b a =
      let n : ℕ = first_of k_none zs in
      let same : set_next q.slots (last_of y ys) n x ≡ q.slots x =
        untouched-set_next (last_of y ys) n (lookup-last x (y, other) ys m.before) in
      rw (prev_inner (last_of y ys) n a.prev (last_below k_capacity y other ys b) a.next) (record {
        left = Linked-set_next q.slots k_none (y, other) ys x n m.left a.left;
        right =
            set_next-Linked q.slots (last_of y ys) n x zs k_none
              (last_apart (y, other) ys zs m.apart) a.right;
        prev = ap (λ (s : Slot). s.prev) same ∙ a.prev;
        next = ap (λ (s : Slot). s.next) same ∙ a.next;
        head = a.head;
        tail = a.tail;
      })

  join_right :
      (ys zs : Chain) (head : ℕ)
      → Middle ys x zs
      → Each (λ e. e.0 < k_capacity) zs
      → Around q ys x zs (first_of k_none zs) x head (last_of x zs)
      → Around
          (unlink_next q x)
          ys
          x
          zs
          (first_of k_none zs)
          (last_of k_none ys)
          head
          (last_of (last_of k_none ys) zs)
  unfolding first_of last_of
  join_right ys [] head m b a = rw (next_last (last_of k_none ys) a.next a.prev) (record {
    left = a.left;
    right = Linked-nil q.slots (last_of k_none ys) k_none;
    prev = a.prev;
    next = a.next;
    head = a.head;
    tail = refl;
  })
  join_right ys ((z, other) ∷ zs) head m b a =
      let p : ℕ = last_of k_none ys in
      let same : set_prev q.slots z p x ≡ q.slots x =
        untouched-set_prev z p (ground (arith, lookup_head x z other zs m.behind)) in
      rw (next_inner z p a.next b.0 a.prev) (record {
        left =
            set_prev-Linked q.slots z p k_none ys z (first_apart ys (z, other) zs m.apart) a.left;
        right = Linked-set_prev q.slots x (z, other) zs k_none p m.right a.right;
        prev = ap (λ (s : Slot). s.prev) same ∙ a.prev;
        next = ap (λ (s : Slot). s.next) same ∙ a.next;
        head = a.head;
        tail = a.tail;
      })

  release-Linked :
      (p : ℕ) (xs : Chain) (stop : ℕ)
      → lookup x xs ≡ none
      → Linked q.slots p xs stop
      → Linked (release q x).slots p xs stop
  unfolding release
  release-Linked p xs stop h k = Linked-update q.slots x _ p xs stop h k

start :
    (q : HintQueue) (x : ℕ) (hint : Hint) (ys zs : Chain)
    → Linked q.slots k_none (ys ++ ((x, hint) ∷ zs)) k_none
    → q.head ≡ first_of k_none (ys ++ ((x, hint) ∷ zs))
    → q.tail ≡ last_of k_none (ys ++ ((x, hint) ∷ zs))
    → Around q ys x zs x x (first_of x ys) (last_of x zs)
unfolding Linked first_of last_of
start q x hint ys zs links head tail =
    let (left, right) = Linked-split q.slots k_none ys ((x, hint) ∷ zs) k_none links in
    record {
      left = left;
      right = right.2;
      prev = right.0;
      next = right.1;
      head = head ∙ first_of-append k_none ys ((x, hint) ∷ zs);
      tail = tail ∙ last_of-append k_none ys ((x, hint) ∷ zs);
    }

-- The chain without the slot, after all three steps.
pub unlink-Linked :
    (q : HintQueue) (x : ℕ) (hint : Hint) (ys zs : Chain)
    → Middle ys x zs
    → Each (λ e. e.0 < k_capacity) ys
    → Each (λ e. e.0 < k_capacity) zs
    → Linked q.slots k_none (ys ++ ((x, hint) ∷ zs)) k_none
    → q.head ≡ first_of k_none (ys ++ ((x, hint) ∷ zs))
    → q.tail ≡ last_of k_none (ys ++ ((x, hint) ∷ zs))
    → let r = release (unlink_next (unlink_prev q x) x) x in
      Linked r.slots k_none (ys ++ zs) k_none
      × (r.head ≡ first_of k_none (ys ++ zs))
      × (r.tail ≡ last_of k_none (ys ++ zs))
unfolding release
unlink-Linked q x hint ys zs m b c links head tail =
    let r = unlink_next (unlink_prev q x) x in
    let a =
      join_right (unlink_prev q x) x ys zs _ m c
        (join_left q x ys zs m b (start q x hint ys zs links head tail)) in
    (
      Linked-join (release r x).slots k_none ys zs k_none
          (release-Linked r x k_none ys (first_of k_none zs) m.before a.left)
          (release-Linked r x (last_of k_none ys) zs k_none m.behind a.right),
      a.head ∙ sym (first_of-append k_none ys zs),
      a.tail ∙ sym (last_of-append k_none ys zs),
    )
