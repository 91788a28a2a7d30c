-- ===== src/Buffer/Lists.antt =====
-- Loops of writes, read back, and conditions on what was read.
use mathlib.Core.List.{append-nil}
use cinder.Prelude.{
  ℕ, ◌*◌, ◌^◌, ◌<◌, ◌≡◌, refl, sym, ap, ◌∙◌, Bool, true, false, List, [], ◌∷◌, Bytes, length,
  length-append, ◌==◌, ==_iff, arith,
}
use cinder.Buffer.{Outcome, got, Parser, ◌>>◌, read, le, guard, read_list, write_list}
use cinder.Buffer.Laws.{Reads, bind-Reads, last-Reads, pure-Reads, read-Reads}

-- A predicate holds of every element.
abbrev pub Each {ℓ} : {A : Type ℓ} → (A → Type 0) → List A → Type 0
Each P [] = Unit
Each P (x ∷ xs) = P x × Each P xs

pub read_list-Reads {ℓ} :
    {A : Type ℓ} (P : A → Type 0) (p : Parser A) (w : A → Bytes)
    → ((a : A) → P a → Reads p a (w a))
    → (xs : List A) → Each P xs
    → Reads (read_list p (length xs)) xs (write_list w xs)
read_list-Reads P p w h [] t = pure-Reads []
read_list-Reads P p w h (x ∷ xs) t = bind-Reads p _ x (x ∷ xs) (w x) (write_list w xs) (h x t.0) (
    last-Reads (read_list p (length xs)) _ xs (x ∷ xs) (write_list w xs)
      (read_list-Reads P p w h xs t.1) (λ r. refl))

pub length-write_list {ℓ} :
    {A : Type ℓ} (w : A → Bytes) (size : ℕ)
    → ((a : A) → length (w a) ≡ size)
    → (xs : List A) → length (write_list w xs) ≡ length xs * size
length-write_list w size h [] = omega arith
length-write_list w size h (x ∷ xs) =
    omega (arith, h x, length-append (w x) (write_list w xs), length-write_list w size h xs)

-- What is left is all that the list takes.
pub whole_list {ℓ} :
    {A : Type ℓ} (P : A → Type 0) (p : Parser A) (w : A → Bytes)
    → ((a : A) → P a → Reads p a (w a))
    → (xs : List A) → Each P xs
    → read_list p (length xs) (write_list w xs) ≡ got xs []
whole_list P p w h xs t =
    ap (λ b. read_list p (length xs) b) (sym (append-nil (write_list w xs)))
    ∙ (read_list-Reads P p w h xs t).whole []

pub pass {ℓ} :
    {A : Type ℓ} (test : Bool) (p : Parser A) (rest : Bytes) (o : Outcome A)
    → test ≡ true
    → p rest ≡ o
    → (guard test >> p) rest ≡ o
pass true p rest o h k = k
pass false p rest o h k = absurd (cc)

abbrev pub IsU64 : ℕ → Type 0
IsU64 h = h < 2 ^ 64

pub same : (n : ℕ) → (n == n) ≡ true
same n = (==_iff n n).1 refl

pub exact_size {ℓ} :
    {A : Type ℓ} (w : A → Bytes) (size : ℕ) (h : (a : A) → length (w a) ≡ size) (xs : List A)
    → (length (write_list w xs) == length xs * size) ≡ true
exact_size w size h xs = (==_iff _ _).1 (length-write_list w size h xs)

-- The end of each message: the elements, and nothing behind them.
pub elements {ℓ} :
    {A : Type ℓ} (P : A → Type 0) (p : Parser A) (w : A → Bytes) (size : ℕ)
    → ((a : A) → length (w a) ≡ size)
    → ((a : A) → P a → Reads p a (w a))
    → (xs : List A) → Each P xs
    → (guard (length (write_list w xs) == length xs * size) >> read_list p (length xs))
        (write_list w xs)
      ≡ got xs []
elements P p w size s h xs t =
    pass (length (write_list w xs) == length xs * size) _ (write_list w xs) (got xs [])
      (exact_size w size s xs) (whole_list P p w h xs t)

pub hashes-Reads : (h : ℕ) → IsU64 h → Reads (read 8) h (le 8 h)
hashes-Reads h t = read-Reads 8 h t

pub guard-Reads {ℓ} :
    {A : Type ℓ} (test : Bool) (p : Parser A) (a : A) (v : Bytes)
    → test ≡ true
    → Reads p a v
    → Reads (guard test >> p) a v
guard-Reads true p a v h k = record { whole = k.whole; cut = k.cut }
guard-Reads false p a v h k = absurd (cc)
