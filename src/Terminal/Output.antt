-- ===== src/Terminal/Output.antt =====
-- crates/latte-work-server/src/terminal.rs: the output of a terminal, of which the last mebibyte is
-- kept, and its reading from a cursor.
use latte_work.Common.{
  ℕ, zero, suc, ◌+◌, ◌-◌, ◌*◌, ◌/◌, ◌%◌, ◌^◌, max, Bool, false, ◌&&◌, ◌||◌, List, [], ◌++◌, ltb,
  leb, eqb, if◌then◌else◌, length, take, drop, Result, ok, err, bail_if, ◌>>◌,
}

abbrev pub output_limit : ℕ
output_limit = 1024 * 1024

abbrev pub read_limit : ℕ
read_limit = 64 * 1024

-- `bytes` in the order in which they arrived, `end` the number of all bytes that ever did.
pub record Output : Type 0 where
  pub bytes : List ℕ
  pub end : ℕ
  pub eof : Bool

abbrev pub empty_output : Output
empty_output = record { bytes = []; end = 0; eof = false }

-- The floats a cursor can be: a whole number that is not negative, or one that `read` refuses.
pub data Cursor : Type 0 where
  whole : ℕ → Cursor
  infinite_or_nan negative fractional : Cursor

-- `as f64` of an unsigned number below 2^64: exact up to 2^53, and above rounded to the nearest
-- multiple of the first power of two that leaves 53 digits, to the even one in the middle.
abbrev pub nearest : ℕ → ℕ → ℕ
nearest unit n =
    if ltb (2 * (n % unit)) unit || (eqb (2 * (n % unit)) unit && eqb (n / unit % 2) 0)
    then n / unit * unit
    else (n / unit + 1) * unit

-- Eleven doublings are enough below 2^64.
unfoldable pub round : ℕ → ℕ → ℕ → ℕ
round zero unit n = nearest unit n
round (suc fuel) unit n =
    let wider = round fuel (2 * unit) n in if ltb n (2 ^ 53 * unit) then nearest unit n else wider

unfoldable pub as_f64 : ℕ → ℕ
unfolding round
as_f64 n = if leb n (2 ^ 53) then n else round 11 1 n

-- `end` is a u64.
unfoldable pub append : Output → List ℕ → Output
append o bytes = record {
  bytes = drop (length (o.bytes ++ bytes) - output_limit) (o.bytes ++ bytes);
  end = (o.end + length bytes) % 2 ^ 64;
  eof = o.eof;
}

pub record Slice : Type 0 where
  pub bytes : List ℕ
  pub next : ℕ
  pub has_more : Bool
  pub truncated : Bool

pub data OutputError : Type 0 where
  invalid_cursor : OutputError

unfoldable pub first_kept : Output → ℕ
first_kept o = o.end - length o.bytes

-- `read` from a cursor that is a whole number.
unfoldable pub read_from : Output → ℕ → Slice
unfolding first_kept as_f64
read_from o after =
    let offset = max after (first_kept o) in
    let bytes = take read_limit (drop (offset - first_kept o) o.bytes) in
    record {
      bytes = bytes;
      next = as_f64 (offset + length bytes);
      has_more = ltb (offset + length bytes) o.end;
      truncated = ltb after (first_kept o);
    }

unfoldable pub read : Output → Cursor → Result OutputError Slice
read o (whole after) = do bail_if (ltb (as_f64 o.end) after) invalid_cursor; ok (read_from o after)
read o infinite_or_nan = err invalid_cursor
read o negative = err invalid_cursor
read o fractional = err invalid_cursor
