-- ===== src/Snapshot/Parses.antt =====
-- Reads with errors: what is written is read back, and what is cut short is an error.
use mathlib.Core.List.{append_assoc}
use cinder.Prelude.{
  ℕ, ◌-◌, ◌<◌, ◌≤◌, ◌≡◌, refl, ap, ◌∙◌, Bool, true, [], ◌++◌, Bytes, length, take, length-append,
  ltb, arith, Bool-cases, inl, inr,
}
use cinder.Status.{Result, Error, Errc, ok, err}
use cinder.Buffer.{Parser}
use cinder.Buffer.Laws.{Reads, take-append_less, take-append_more}
use cinder.Snapshot.{Step, done, then_run, ◌>>=◌, field, check, within}
use Prim.Native.String.{String}

-- On the bytes `w` the step reads `a`, whatever follows; any proper prefix of them is an error.
pub record Parses {ℓ} {A : Type ℓ} (p : Step A) (a : A) (w : Bytes) : Type ℓ where
  pub whole : (rest : Bytes) → p (w ++ rest) ≡ ok (a, rest)
  pub cut : (n : ℕ) → n < length w → (e : Error) × (p (take n w) ≡ err e)

pub field-Parses {ℓ} :
    {A : Type ℓ} (p : Parser A) (message : String) (a : A) (w : Bytes)
    → Reads p a w
    → Parses (field p message) a w
unfolding field
field-Parses p message a w h = record {
  whole = λ rest. rw (h.whole rest, field) refl;
  cut = λ n l.
      let (r, e) = h.cut n l in
      (record { code = Errc.corrupt_data; message = message }, rw (e, field) refl);
}

pub done-Parses {ℓ} : {A : Type ℓ} (a : A) → Parses (done a) a []
done-Parses a = record { whole = λ rest. refl; cut = λ n h. absurd (omega (arith, h)) }

pub check-Parses :
    (test : Bool) (failure : Result (Unit {0})) → test ≡ true → Parses (check test failure) tt []
unfolding check
check-Parses test failure h = record {
  whole = λ rest. rw h refl;
  cut = λ n l. absurd (omega (arith, l));
}

pub within-Parses {ℓ} :
    {A : Type ℓ} (p : Step A) (a : A) (block rest : Bytes)
    → p block ≡ ok (a, rest)
    → Parses (within p block) a []
unfolding within
within-Parses p a block rest h = record {
  whole = λ r. rw (h, within) refl;
  cut = λ n l. absurd (omega (arith, l));
}

module _ {ℓ κ} {A : Type ℓ} {B : Type κ} (p : Step A) (f : A → Step B) (a : A) (b : B) (v w : Bytes)
    (h : Parses p a v) (k : Parses (f a) b w) where
  cut_first : (n : ℕ) → n < length v → (e : Error) × ((p >>= f) (take n (v ++ w)) ≡ err e)
  cut_first n less =
      let (e, q) = h.cut n less in
      (
        e,
        ap (λ (t : Bytes). (p >>= f) t) (take-append_less n v w less)
            ∙ ap (λ (o : Result (A × Bytes)). then_run o f) q,
      )

  cut_second :
      (n : ℕ)
      → length v ≤ n
      → n < length (v ++ w)
      → (e : Error) × ((p >>= f) (take n (v ++ w)) ≡ err e)
  cut_second n more c =
      let (e, q) = k.cut (n - length v) (omega (arith, more, c, length-append v w)) in
      (
        e,
        ap (λ (t : Bytes). (p >>= f) t) (take-append_more n v w more)
            ∙ ap (λ (o : Result (A × Bytes)). then_run o f) (h.whole (take (n - length v) w))
            ∙ q,
      )

  pub bind-Parses : Parses (p >>= f) b (v ++ w)
  bind-Parses = record {
    whole = λ rest.
        ap (λ (r : Bytes). (p >>= f) r) (append_assoc v w rest)
        ∙ ap (λ (o : Result (A × Bytes)). then_run o f) (h.whole (w ++ rest))
        ∙ k.whole rest;
    cut = λ n c. elim (Bool-cases (ltb n (length v))) [
      | inl less ↦ cut_first n (ground (arith, less))
      | inr more ↦ cut_second n (ground (arith, more)) c
    ];
  }

-- The last read of a chain, whose continuation takes nothing more.
pub last-Parses {ℓ κ} :
    {A : Type ℓ} {B : Type κ} (p : Step A) (f : A → Step B) (a : A) (b : B) (v : Bytes)
    → Parses p a v
    → ((r : Bytes) → f a r ≡ ok (b, r))
    → Parses (p >>= f) b v
last-Parses p f a b v h k = record {
  whole = λ rest. ap (λ o. then_run o f) (h.whole rest) ∙ k rest;
  cut = λ n c. let (e, q) = h.cut n c in (e, ap (λ o. then_run o f) q);
}
