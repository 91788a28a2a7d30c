-- ===== src/HintQueue/Handles.antt =====
-- Handles: what push does to each slot, and why an old handle removes no newer hint.
use cinder.Prelude.{
  ℕ, zero, suc, ◌≡◌, refl, sym, subst, ap, ◌∙◌, ◌⊎◌, Bool, false, Option, none, some, ◌==◌,
  if◌then◌else◌, arith, Bool-cases, Option-cases, inl, inr, ltb, leb,
}
use cinder.Store.{add64}
use cinder.HintQueue.Taken.{taken, taken_generation, taken_hint}
use cinder.HintQueue.Push.{
  unlink-taken, crowded, make_room_stop, make_room_step, make_room_stuck, admit_made, admit_stuck,
}
use cinder.HintQueue.Refine.{replace_stale, replace_newer, push_large}
use cinder.HintQueue.{
  Hint, Handle, Slot, HintQueue, k_none, k_capacity, rounds, estimated_bytes, unlink_and_release,
  make_room, enqueue, admit, replace, push, after_search, same_hint_slot, search_from,
  is_newer_than, publish_metrics, remove_handle, link_at_tail, acquire_slot, set_next, update,
}

-- A slot keeps its hint, or has lost it.
Keeps : Slot → Slot → Type 0
Keeps s t = (t.generation ≡ s.generation) × ((t.hint ≡ s.hint) ⊎ (t.hint ≡ none))

-- A slot keeps its hint, or has lost it, or has a hint of the next generation.
pub data Fate (s t : Slot) : Type 0 where
  kept : t.generation ≡ s.generation → t.hint ≡ s.hint → Fate s t
  emptied : t.hint ≡ none → Fate s t
  reused : t.generation ≡ add64 s.generation 1 → Fate s t

Keeps-trans : (s t u : Slot) → Keeps s t → Keeps t u → Keeps s u
unfolding Keeps
Keeps-trans s t u h k = ground (arith, h, k)

Fate-after : (s t u : Slot) → Keeps s t → Fate t u → Fate s u
unfolding Keeps
Fate-after s t u (g, inl h) (kept k l) = kept (k ∙ g) (l ∙ h)
Fate-after s t u (g, inr h) (kept k l) = emptied (l ∙ h)
Fate-after s t u h (emptied l) = emptied l
Fate-after s t u h (reused k) = reused (k ∙ ap (λ (n : ℕ). add64 n 1) h.0)

Keeps-refl : (s : Slot) → Keeps s s
unfolding Keeps
Keeps-refl s = (refl, inl refl)

other_generation : (now before g : ℕ) → now ≡ add64 before 1 → before ≡ g → (now == g) ≡ false
other_generation now before g h k = ground (arith, h, k)

pub some-injective {ℓ} : {A : Type ℓ} {x y : A} {o : Option A} → o ≡ some x → o ≡ some y → x ≡ y
some-injective a c = cc (a, c)

pair-injective : {x y : HintQueue} {a c : Bool} → ◌≡◌ {A = HintQueue × Bool} (x, a) (y, c) → x ≡ y
pair-injective e = ap (λ (p : HintQueue × Bool). p.0) e

none-some {ℓ} : {A : Type ℓ} {x : A} {o : Option A} → o ≡ none → o ≡ some x → ⊥
none-some a c = cc (a, c)

module _ (b : ℕ) where
  taken-Keeps :
      (q : HintQueue) (x : ℕ) (old : Hint) (i : ℕ) → Keeps (q.slots i) ((taken b q x old).slots i)
  unfolding Keeps
  taken-Keeps q x old i = (taken_generation b q x old i, ground (arith, taken_hint b q x old i))

  unlink_none : (q : HintQueue) (x : ℕ) → (q.slots x).hint ≡ none → unlink_and_release b q x ≡ none
  unfolding unlink_and_release
  unlink_none q x e = rw (e, unlink_and_release) refl

  unlink-Keeps :
      (q r : HintQueue) (x i : ℕ)
      → unlink_and_release b q x ≡ some r
      → Keeps (q.slots i) (r.slots i)
  unlink-Keeps q r x i h = elim (Option-cases (q.slots x).hint) [
    | inl e ↦ absurd (cc (h, unlink_none q x e))
    | inr (old, e) ↦
        subst (λ (t : HintQueue). Keeps (q.slots i) (t.slots i))
          (some-injective (unlink-taken b q x old e) h) (taken-Keeps q x old i)
  ]

  enqueue_generation :
      (q : HintQueue) (hint : Hint) (i : ℕ)
      → ((enqueue b q hint).slots i).generation ≡ (
          if i == (acquire_slot q).0
          then add64 (q.slots i).generation 1
          else (q.slots i).generation)
  unfolding enqueue acquire_slot link_at_tail publish_metrics set_next update
  enqueue_generation q hint i = ground arith

  enqueue_hint :
      (q : HintQueue) (hint : Hint) (i : ℕ)
      → (i == (acquire_slot q).0) ≡ false
      → ((enqueue b q hint).slots i).hint ≡ (q.slots i).hint
  unfolding enqueue acquire_slot link_at_tail publish_metrics set_next update
  enqueue_hint q hint i = ground arith

  enqueue-Fate :
      (q : HintQueue) (hint : Hint) (i : ℕ) → Fate (q.slots i) ((enqueue b q hint).slots i)
  enqueue-Fate q hint i = elim (Bool-cases (i == (acquire_slot q).0)) [
    | inl e ↦ reused (
        enqueue_generation q hint i
        ∙ ap (λ t. if t then add64 (q.slots i).generation 1 else (q.slots i).generation) e)
    | inr e ↦
        kept
          (enqueue_generation q hint i
            ∙ ap (λ t. if t then add64 (q.slots i).generation 1 else (q.slots i).generation) e)
          (enqueue_hint q hint i e)
  ]

  made_nothing : (q : HintQueue) (incoming : ℕ) → make_room b zero q incoming ≡ none
  unfolding make_room
  made_nothing q incoming = refl

  push_small :
      (q : HintQueue) (hint : Hint)
      → ltb q.max_bytes (estimated_bytes b hint) ≡ false
      → push b q hint
        ≡ after_search b q hint (
            search_from
              (same_hint_slot hint)
              rounds
              q.slots
              (if ltb 0 q.size then q.head else k_none))
  unfolding push
  push_small q hint e = rw (e, push) refl

  published :
      (q : HintQueue) (i : ℕ)
      → Fate (q.slots i) ((publish_metrics (record q { dropped = add64 q.dropped 1 })).slots i)
  unfolding publish_metrics
  published q i = kept (ground arith) (ground arith)

  pub remove_empty :
      (q : HintQueue) (handle : Handle)
      → (q.slots handle.index).hint ≡ none
      → remove_handle b q handle ≡ some q
  unfolding remove_handle
  remove_empty q handle e = elim (Bool-cases (leb k_capacity handle.index)) [
    | inl l ↦ rw (l, remove_handle) refl
    | inr l ↦ rw (l, remove_handle) (rw (e, remove_handle) refl)
  ]

  pub remove_reused :
      (q : HintQueue) (handle : Handle)
      → ((q.slots handle.index).generation == handle.generation) ≡ false
      → remove_handle b q handle ≡ some q
  unfolding remove_handle
  remove_reused q handle e = elim (Bool-cases (leb k_capacity handle.index)) [
    | inl l ↦ rw (l, remove_handle) refl
    | inr l ↦
        rw (l, remove_handle)
          (elim (Option-cases (q.slots handle.index).hint) [
            | inl n ↦ rw (n, remove_handle) refl
            | inr (hint, n) ↦ rw (n, remove_handle) (rw (e, remove_handle) refl)
          ])
  ]

  make_room-Keeps :
      (fuel : ℕ) (q r : HintQueue) (incoming i : ℕ)
      → make_room b fuel q incoming ≡ some r
      → Keeps (q.slots i) (r.slots i)
  make_room-Keeps zero q r incoming i h = absurd (none-some (made_nothing q incoming) h)
  make_room-Keeps (suc fuel) q r incoming i h = elim (Bool-cases (crowded b q incoming)) [
    | inr e ↦
        subst (λ (t : HintQueue). Keeps (q.slots i) (t.slots i))
          (some-injective (make_room_stop b fuel q incoming e) h) (Keeps-refl (q.slots i))
    | inl e ↦ elim (Option-cases (unlink_and_release b q q.head)) [
      | inl n ↦ absurd (none-some (make_room_stuck b fuel q incoming e n) h)
      | inr (t, n) ↦
          let u : HintQueue = record t { dropped = add64 t.dropped 1 } in
          Keeps-trans (q.slots i) (t.slots i) (r.slots i) (unlink-Keeps q t q.head i n)
            (make_room-Keeps fuel u r incoming i (sym (make_room_step b fuel q t incoming e n) ∙ h))
    ]
  ]

  admit-Fate :
      (q r : HintQueue) (hint : Hint) (ok : Bool) (i : ℕ)
      → admit b q hint ≡ some (r, ok)
      → Fate (q.slots i) (r.slots i)
  admit-Fate q r hint ok i h = elim (Option-cases (make_room b rounds q (estimated_bytes b hint))) [
    | inl n ↦ absurd (none-some (admit_stuck b q hint n) h)
    | inr (t, n) ↦
        subst (λ (u : HintQueue). Fate (q.slots i) (u.slots i))
          (pair-injective (some-injective (admit_made b q t hint n) h))
          (Fate-after (q.slots i) (t.slots i) _
            (make_room-Keeps rounds q t (estimated_bytes b hint) i n) (enqueue-Fate t hint i))
  ]

  replace_stuck :
      (q : HintQueue) (hint : Hint) (x : ℕ) → (q.slots x).hint ≡ none → replace b q hint x ≡ none
  unfolding replace
  replace_stuck q hint x e = rw (e, replace) refl

  replace-Fate :
      (q r : HintQueue) (hint : Hint) (ok : Bool) (x i : ℕ)
      → replace b q hint x ≡ some (r, ok)
      → Fate (q.slots i) (r.slots i)
  replace-Fate q r hint ok x i h = elim (Option-cases (q.slots x).hint) [
    | inl n ↦ absurd (none-some (replace_stuck q hint x n) h)
    | inr (old, n) ↦ elim (Bool-cases (is_newer_than hint.req old.req)) [
      | inr stale ↦
          subst (λ (u : HintQueue). Fate (q.slots i) (u.slots i))
            (pair-injective (some-injective (replace_stale b q hint old x n stale) h))
            (kept refl refl)
      | inl newer ↦
          Fate-after (q.slots i) ((taken b q x old).slots i) (r.slots i) (taken-Keeps q x old i) (
            admit-Fate (taken b q x old) r hint ok i
              (sym (replace_newer b q hint old x n newer) ∙ h))
    ]
  ]

  after-Fate :
      (q r : HintQueue) (hint : Hint) (ok : Bool) (i : ℕ) (found : Option (Option ℕ))
      → after_search b q hint found ≡ some (r, ok)
      → Fate (q.slots i) (r.slots i)
  unfolding after_search
  after-Fate q r hint ok i none h = absurd (none-some refl h)
  after-Fate q r hint ok i (some none) h = admit-Fate q r hint ok i h
  after-Fate q r hint ok i (some (some x)) h = replace-Fate q r hint ok x i h

  push-Fate :
      (q r : HintQueue) (hint : Hint) (ok : Bool) (i : ℕ)
      → push b q hint ≡ some (r, ok)
      → Fate (q.slots i) (r.slots i)
  push-Fate q r hint ok i h = elim (Bool-cases (ltb q.max_bytes (estimated_bytes b hint))) [
    | inl e ↦
        subst (λ (u : HintQueue). Fate (q.slots i) (u.slots i))
          (pair-injective (some-injective (push_large b q hint q.max_bytes refl e) h))
          (published q i)
    | inr e ↦ after-Fate q r hint ok i _ (sym (push_small q hint e) ∙ h)
  ]

  -- A handle that named a hint before a push that returned names the same hint after it, or removing
  -- by it leaves the queue as it is: a late completion never deletes the hint that took the slot.
  pub remove_handle-push :
      (q r : HintQueue) (new hint : Hint) (ok : Bool) (handle : Handle)
      → push b q new ≡ some (r, ok)
      → (q.slots handle.index).hint ≡ some hint
      → (q.slots handle.index).generation ≡ handle.generation
      → (((r.slots handle.index).hint ≡ some hint)
          × ((r.slots handle.index).generation ≡ handle.generation))
        ⊎ (remove_handle b r handle ≡ some r)
  remove_handle-push q r new hint ok handle p h g = elim (push-Fate q r new ok handle.index p) [
    | kept k l ↦ inl (l ∙ h, k ∙ g)
    | emptied l ↦ inr (remove_empty r handle l)
    | reused k ↦ inr (remove_reused r handle (other_generation _ _ handle.generation k g))
  ]
