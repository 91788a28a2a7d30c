-- ===== src/Buffer/Laws.antt =====
-- What is written is read back, and what is cut short is recognised.
use native.Mathlib.Nat.{pow-suc}
use mathlib.Core.List.{append_assoc}
use cinder.Prelude.{
  ℕ, zero, suc, ◌-◌, ◌/◌, ◌^◌, ◌<◌, ◌≤◌, ◌≡◌, refl, ap, ◌∙◌, subst, List, [], ◌∷◌, ◌++◌, Bytes,
  length, take, drop, length-append, take-append, drop-append, length-take, ltb, arith, Bool-cases,
  inl, inr,
}
use cinder.Buffer.{le, of_le, Outcome, got, torn, Parser, pure, continue, ◌>>=◌, read, read_string}

pub length-le : (width v : ℕ) → length (le width v) ≡ width
unfolding le
length-le zero v = refl
length-le (suc width) v = omega (arith, length-le width (v / 256))

pub of_le-le : (width v : ℕ) → v < 256 ^ width → of_le (le width v) ≡ v
unfolding le of_le
of_le-le zero v h = omega arith
of_le-le (suc width) v h =
    omega (arith, of_le-le width (v / 256) (omega (arith, pow-suc 256 width)))

-- On the bytes `w` the parser reads `a`, whatever follows; on any proper prefix of them it runs into
-- the end of the input.
pub record Reads {ℓ} {A : Type ℓ} (p : Parser A) (a : A) (w : Bytes) : Type ℓ where
  pub whole : (rest : Bytes) → p (w ++ rest) ≡ got a rest
  pub cut : (n : ℕ) → n < length w → (r : Bytes) × (p (take n w) ≡ torn r)

pub read_string-Reads : (w : Bytes) → Reads (read_string (length w)) w w
unfolding read_string
read_string-Reads w = record {
  whole = λ rest. ground (arith, length-append w rest, take-append w rest, drop-append w rest);
  cut = λ n h. (take n w, ground (arith, h, length-take n w (omega (arith, h))));
}

split-le :
    (width v : ℕ) (rest : Bytes)
    → (take width (le width v ++ rest) ≡ le width v) × (drop width (le width v ++ rest) ≡ rest)
split-le width v rest =
    subst
      (λ (n : ℕ). (take n (le width v ++ rest) ≡ le width v) × (drop n (le width v ++ rest) ≡ rest))
      (length-le width v) (take-append (le width v) rest, drop-append (le width v) rest)

pub read-Reads : (width v : ℕ) → v < 256 ^ width → Reads (read width) v (le width v)
unfolding read
read-Reads width v h = record {
  whole = λ rest. ground (
    arith,
    length-append (le width v) rest,
    length-le width v,
    split-le width v rest,
    of_le-le width v h,
  );
  cut = λ n c. (
    take n (le width v),
    ground (arith, c, length-le width v, length-take n (le width v) (omega (arith, c))),
  );
}

pub take-append_less {ℓ} :
    {A : Type ℓ} (n : ℕ) (xs ys : List A) → n < length xs → take n (xs ++ ys) ≡ take n xs
take-append_less zero xs ys h = refl
take-append_less (suc n) [] ys h = absurd (omega (arith, h))
take-append_less (suc n) (x ∷ xs) ys h =
    ap (λ t. x ∷ t) (take-append_less n xs ys (omega (arith, h)))

pub take-append_more {ℓ} :
    {A : Type ℓ} (n : ℕ) (xs ys : List A)
    → length xs ≤ n
    → take n (xs ++ ys) ≡ xs ++ take (n - length xs) ys
take-append_more n [] ys h = ap (λ (m : ℕ). take m ys) (omega arith)
take-append_more zero (x ∷ xs) ys h = absurd (omega (arith, h))
take-append_more (suc n) (x ∷ xs) ys h =
    ap (λ t. x ∷ t)
      (take-append_more n xs ys (omega (arith, h)) ∙ ap (λ (m : ℕ). xs ++ take m ys) (omega arith))

pub pure-Reads {ℓ} : {A : Type ℓ} (a : A) → Reads (pure a) a []
pure-Reads a = record { whole = λ rest. refl; cut = λ n h. absurd (omega (arith, h)) }

module _ {ℓ κ} {A : Type ℓ} {B : Type κ} (p : Parser A) (f : A → Parser B) (a : A) (b : B)
    (v w : Bytes) (h : Reads p a v) (k : Reads (f a) b w) where
  bind-whole : (rest : Bytes) → (p >>= f) ((v ++ w) ++ rest) ≡ got b rest
  bind-whole rest =
      ap (λ (r : Bytes). (p >>= f) r) (append_assoc v w rest)
      ∙ ap (λ (o : Outcome A). continue o f) (h.whole (w ++ rest))
      ∙ k.whole rest

  cut_first : (n : ℕ) → n < length v → (r : Bytes) × ((p >>= f) (take n (v ++ w)) ≡ torn r)
  cut_first n less =
      let (r, e) = h.cut n less in
      (
        r,
        ap (λ (t : Bytes). (p >>= f) t) (take-append_less n v w less)
            ∙ ap (λ (o : Outcome A). continue o f) e,
      )

  cut_second :
      (n : ℕ)
      → length v ≤ n
      → n < length (v ++ w)
      → (r : Bytes) × ((p >>= f) (take n (v ++ w)) ≡ torn r)
  cut_second n more c =
      let (r, e) = k.cut (n - length v) (omega (arith, more, c, length-append v w)) in
      (
        r,
        ap (λ (t : Bytes). (p >>= f) t) (take-append_more n v w more)
            ∙ ap (λ (o : Outcome A). continue o f) (h.whole (take (n - length v) w))
            ∙ e,
      )

  pub bind-Reads : Reads (p >>= f) b (v ++ w)
  bind-Reads = record {
    whole = bind-whole;
    cut = λ n c. elim (Bool-cases (ltb n (length v))) [
      | inl less ↦ cut_first n (ground (arith, less))
      | inr more ↦ cut_second n (ground (arith, more)) c
    ];
  }

-- The last read of a chain, whose continuation takes nothing more.
pub last-Reads {ℓ κ} :
    {A : Type ℓ} {B : Type κ} (p : Parser A) (f : A → Parser B) (a : A) (b : B) (v : Bytes)
    → Reads p a v
    → ((r : Bytes) → f a r ≡ got b r)
    → Reads (p >>= f) b v
last-Reads p f a b v h k = record {
  whole = λ rest. ap (λ o. continue o f) (h.whole rest) ∙ k rest;
  cut = λ n c. let (r, e) = h.cut n c in (r, ap (λ o. continue o f) e);
}

-- A chain goes on behind what its first parser reads.
pub after-Reads {ℓ κ} :
    {A : Type ℓ} {B : Type κ} (p : Parser A) (f : A → Parser B) (a : A) (v rest : Bytes)
    (o : Outcome B)
    → Reads p a v
    → f a rest ≡ o
    → (p >>= f) (v ++ rest) ≡ o
after-Reads p f a v rest o h k = ap (λ (x : Outcome _). continue x f) (h.whole rest) ∙ k
