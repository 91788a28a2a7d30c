-- ===== src/HintQueue/Kept.antt =====
-- Changes of links that leave everything else as it is.
use cinder.Prelude.{ℕ, ◌≡◌, ◌∙◌, arith}
use cinder.HintQueue.{HintQueue, update, set_next, set_prev, unlink_prev, unlink_next}

-- The second queue differs from the first in links alone.
pub record Kept (q r : HintQueue) : Type 0 where
  pub hint : (i : ℕ) → (r.slots i).hint ≡ (q.slots i).hint
  pub free_next : (i : ℕ) → (r.slots i).free_next ≡ (q.slots i).free_next
  pub generation : (i : ℕ) → (r.slots i).generation ≡ (q.slots i).generation
  pub next_unused : r.next_unused ≡ q.next_unused
  pub free_head : r.free_head ≡ q.free_head
  pub size : r.size ≡ q.size
  pub current_bytes : r.current_bytes ≡ q.current_bytes
  pub max_bytes : r.max_bytes ≡ q.max_bytes
  pub dropped : r.dropped ≡ q.dropped

pub Kept-trans : (q r u : HintQueue) → Kept q r → Kept r u → Kept q u
Kept-trans q r u h k = record {
  hint = λ i. k.hint i ∙ h.hint i;
  free_next = λ i. k.free_next i ∙ h.free_next i;
  generation = λ i. k.generation i ∙ h.generation i;
  next_unused = k.next_unused ∙ h.next_unused;
  free_head = k.free_head ∙ h.free_head;
  size = k.size ∙ h.size;
  current_bytes = k.current_bytes ∙ h.current_bytes;
  max_bytes = k.max_bytes ∙ h.max_bytes;
  dropped = k.dropped ∙ h.dropped;
}

pub unlink_prev-Kept : (q : HintQueue) (i : ℕ) → Kept q (unlink_prev q i)
unfolding unlink_prev set_next update
unlink_prev-Kept q i = record {
  hint = λ j. ground arith;
  free_next = λ j. ground arith;
  generation = λ j. ground arith;
  next_unused = ground arith;
  free_head = ground arith;
  size = ground arith;
  current_bytes = ground arith;
  max_bytes = ground arith;
  dropped = ground arith;
}

pub unlink_next-Kept : (q : HintQueue) (i : ℕ) → Kept q (unlink_next q i)
unfolding unlink_next set_prev update
unlink_next-Kept q i = record {
  hint = λ j. ground arith;
  free_next = λ j. ground arith;
  generation = λ j. ground arith;
  next_unused = ground arith;
  free_head = ground arith;
  size = ground arith;
  current_bytes = ground arith;
  max_bytes = ground arith;
  dropped = ground arith;
}

pub unlink-Kept : (q : HintQueue) (i : ℕ) → Kept q (unlink_next (unlink_prev q i) i)
unlink-Kept q i =
    Kept-trans q (unlink_prev q i) (unlink_next (unlink_prev q i) i) (unlink_prev-Kept q i)
      (unlink_next-Kept (unlink_prev q i) i)
