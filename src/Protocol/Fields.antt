-- ===== src/Protocol/Fields.antt =====
-- The optional and the trailing fields of both message kinds are read back.
use cinder.Prelude.{
  ℕ, ◌∙◌, Bool, true, false, ◌+◌, ◌*◌, ◌/◌, ◌^◌, ◌<◌, ◌≡◌, refl, not, Option, none, some, is_some,
  [], ◌∷◌, ◌++◌, Bytes, length, length-append, ◌==◌, if◌then◌else◌, arith,
}
use mathlib.Core.List.{append_assoc}
use cinder.Status.{ok}
use cinder.Wire.{be}
use cinder.Wire.Laws.{length-be, read-be, read_bytes-append}
use cinder.Protocol.Frame.{sum}
use cinder.Protocol.{
  size_if, expiry_bytes, bytes_if, read_expiry, read_sized, read_trace, has_flag, ns_per_ms,
  k_flag_has_trace,
}

pub length-expiry_bytes : (o : Option ℕ) → length (expiry_bytes o) ≡ sum (size_if (is_some o) 8 [])
length-expiry_bytes none = refl
length-expiry_bytes (some at) = length-be 8 _ ∙ omega arith

pub length-trace :
    (b : Bool) (m n : ℕ) → length (bytes_if b (be 8 m ++ be 8 n)) ≡ sum (size_if b 16 [])
length-trace true m n =
    rw (length-append (be 8 m) (be 8 n)) (omega (arith, length-be 8 m, length-be 8 n))
length-trace false m n = refl

-- An expiry loses what is below a millisecond.
abbrev pub whole_ms : Option ℕ → Option ℕ
whole_ms none = none
whole_ms (some at) = some (at / ns_per_ms * ns_per_ms)

-- The expiry is one that system_clock holds in an int64_t of nanoseconds.
abbrev pub IsClockTime : Option ℕ → Type 0
IsClockTime none = Unit {0}
IsClockTime (some at) = at < 2 ^ 63

pub read_expiry-bytes :
    (o : Option ℕ) (rest : Bytes)
    → IsClockTime o
    → read_expiry (is_some o) (expiry_bytes o ++ rest) ≡ ok (whole_ms o, rest)
unfolding read_expiry
read_expiry-bytes none rest h = refl
read_expiry-bytes (some at) rest h =
    rw (read-be 8 (at / ns_per_ms) rest (omega arith)) (ground arith)

pub read_sized-append : (xs rest : Bytes) → read_sized (length xs) (xs ++ rest) ≡ ok (xs, rest)
unfolding read_sized
read_sized-append [] rest = refl
read_sized-append (x ∷ xs) rest = ground (arith, read_bytes-append (x ∷ xs) rest)

trace_length : (t s : ℕ) (rest : Bytes) → length (be 8 t ++ (be 8 s ++ rest)) ≡ 16 + length rest
trace_length t s rest =
    rw (length-append (be 8 t) (be 8 s ++ rest), length-append (be 8 s) rest)
      (omega (arith, length-be 8 t, length-be 8 s))

trace_present :
    (flags t s : ℕ) (rest : Bytes)
    → has_flag flags k_flag_has_trace ≡ true
    → t < 2 ^ 64
    → s < 2 ^ 64
    → read_trace flags (be 8 t ++ (be 8 s ++ rest)) ≡ ok ((t, if t == 0 then 0 else s), rest)
unfolding read_trace
trace_present flags t s rest f ht hs =
    ground (arith, f, trace_length t s rest, read-be 8 t (be 8 s ++ rest) ht, read-be 8 s rest hs)

pub trace_absent :
    (flags : ℕ) (rest : Bytes)
    → has_flag flags k_flag_has_trace ≡ false
    → read_trace flags rest ≡ ok ((0, 0), rest)
unfolding read_trace
trace_absent flags rest f = ground (arith, f)

read_trace_by :
    (b : Bool) (flags t s : ℕ) (rest : Bytes)
    → (t == 0) ≡ b
    → has_flag flags k_flag_has_trace ≡ not b
    → t < 2 ^ 64
    → s < 2 ^ 64
    → read_trace flags (bytes_if (not b) (be 8 t ++ be 8 s) ++ rest)
      ≡ ok ((t, if b then 0 else s), rest)
read_trace_by true flags t s rest e f ht hs = ground (arith, trace_absent flags rest f)
read_trace_by false flags t s rest e f ht hs =
    rw append_assoc (rw (trace_present flags t s rest f ht hs) (ground arith))

-- A trace context is written if the trace id is not 0, and then both ids are read back.
pub read_trace-bytes :
    (flags t s : ℕ) (rest : Bytes)
    → has_flag flags k_flag_has_trace ≡ not (t == 0)
    → t < 2 ^ 64
    → s < 2 ^ 64
    → read_trace flags (bytes_if (not (t == 0)) (be 8 t ++ be 8 s) ++ rest)
      ≡ ok ((t, if t == 0 then 0 else s), rest)
read_trace-bytes flags t s rest = read_trace_by (t == 0) flags t s rest refl
