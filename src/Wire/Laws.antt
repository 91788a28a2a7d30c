-- ===== src/Wire/Laws.antt =====
-- What is written is read back.
use cinder.Prelude.{
  ℕ, zero, suc, ◌+◌, ◌*◌, ◌/◌, ◌%◌, ◌^◌, ◌<◌, ◌≡◌, refl, ◌∙◌, ap, [], ◌∷◌, ◌++◌, Bytes, length,
  length-append, take-append, drop-append, arith,
}
use native.Mathlib.Nat.{pow-suc}
use cinder.Status.{ok}
use mathlib.Core.Path.{subst}
use cinder.Wire.{valued, be, of_be, read_bytes, read}

pub length-be : (width v : ℕ) → length (be width v) ≡ width
unfolding be
length-be zero v = refl
length-be (suc width) v =
    omega (arith, length-append (be width (v / 256)) (v % 256 ∷ []), length-be width (v / 256))

of_be-append : (acc : ℕ) (bs : Bytes) (b : ℕ) → of_be acc (bs ++ (b ∷ [])) ≡ of_be acc bs * 256 + b
unfolding of_be
of_be-append acc [] b = refl
of_be-append acc (c ∷ bs) b = of_be-append (acc * 256 + c) bs b

pub of_be-be : (width v : ℕ) → v < 256 ^ width → of_be 0 (be width v) ≡ v
unfolding be
of_be-be zero v h = unfold of_be in omega arith
of_be-be (suc width) v h =
    of_be-append 0 (be width (v / 256)) (v % 256)
    ∙ omega (arith, of_be-be width (v / 256) (omega (arith, pow-suc 256 width)))

pub read_bytes-append : (xs ys : Bytes) → read_bytes (length xs) (xs ++ ys) ≡ ok (xs, ys)
unfolding read_bytes
read_bytes-append xs ys = ground (arith, length-append xs ys, take-append xs ys, drop-append xs ys)

read_bytes-be :
    (width v : ℕ) (rest : Bytes) → read_bytes width (be width v ++ rest) ≡ ok (be width v, rest)
read_bytes-be width v rest =
    subst (λ (n : ℕ). read_bytes n (be width v ++ rest) ≡ ok (be width v, rest)) (length-be width v)
      (read_bytes-append (be width v) rest)

-- An integer that fits its width is read back, and the reader stops behind it.
pub read-be :
    (width v : ℕ) (rest : Bytes) → v < 256 ^ width → read width (be width v ++ rest) ≡ ok (v, rest)
unfolding read
read-be width v rest h =
    ap valued (read_bytes-be width v rest) ∙ ap (λ (n : ℕ). ok (n, rest)) (of_be-be width v h)
