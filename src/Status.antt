-- ===== src/Status.antt =====
-- include/cinder/common/status.hpp: error codes, errors and results. An error is its code and its
-- message; the source location and the chain of causes carry no behaviour and are left out.
use Prim.Native.String.{String}
use cinder.Prelude.{ℕ, Option, none, some}

pub data Errc : Type 0 where
  ok not_found capacity_exceeded invalid_argument ttl_expired not_supported : Errc
  internal_error timeout not_ready permission_denied corrupt_data : Errc

-- std::to_underlying
abbrev pub errc_code : Errc → ℕ
errc_code Errc.ok = 0
errc_code Errc.not_found = 1
errc_code Errc.capacity_exceeded = 2
errc_code Errc.invalid_argument = 3
errc_code Errc.ttl_expired = 4
errc_code Errc.not_supported = 5
errc_code Errc.internal_error = 6
errc_code Errc.timeout = 7
errc_code Errc.not_ready = 8
errc_code Errc.permission_denied = 9
errc_code Errc.corrupt_data = 10

pub record Error : Type 0 where
  pub code : Errc
  pub message : String

-- std::expected<T, Error>
pub data Result {ℓ} (A : Type ℓ) : Type ℓ where
  ok : A → Result A
  err : Error → Result A

infixl 5 ◌>>=◌
abbrev pub ◌>>=◌ {ℓ κ} : {A : Type ℓ} {B : Type κ} → Result A → (A → Result B) → Result B
Result.ok a >>= f = f a
Result.err e >>= f = err e

-- Error(Errc::InvalidArgument, message)
abbrev pub invalid : String → Error
invalid message = record { code = Errc.invalid_argument; message = message }

-- The value of an optional, or an InvalidArgument error.
abbrev pub require {ℓ} : {A : Type ℓ} → Option A → String → Result A
require none message = err (invalid message)
require (some a) message = Result.ok a
