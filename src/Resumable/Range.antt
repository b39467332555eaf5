-- ===== src/Resumable/Range.antt =====
-- `ContentRange` and `RangeError` of src/resumable.rs.
pub mod Spelling
use ftnl_backend_api_rs.Base.{
  ℕ, ◌+◌, ◌-◌, ◌%◌, ◌^◌, ◌≤◌, ◌<◌, Bool, ◌||◌, not, Option, none, some, ltb, leb, ◌==◌,
  if◌then◌else◌, Result, ok, err, ◌>>=◌, ◌>>◌, ok_or, reject_if, ◌≡◌, refl, arith,
}
use ftnl_backend_api_rs.Text.{Str, codes, strip_prefix, split_once, contains, str_eq, trim}
use ftnl_backend_api_rs.Text.Decimal.{u64_max, from_str}
use ftnl_backend_api_rs.Resumable.Number.{parse_u64}

-- The three fields are `u64`.
pub record ContentRange : Type 0 where
  pub start : ℕ
  pub end_exclusive : ℕ
  pub total : ℕ

pub data RangeError : Type 0 where
  invalid_unit invalid_syntax invalid_number unsupported_wildcard reversed offset_overflow :
      RangeError
  total_mismatch : (expected actual : ℕ) → RangeError
  outside_declared_size : (end_exclusive total : ℕ) → RangeError

unfoldable pub whole : ℕ → ContentRange
whole total = record { start = 0; end_exclusive = total; total = total }

-- `u64::checked_add`
abbrev pub checked_add : ℕ → ℕ → Option ℕ
checked_add a b = if leb (a + b) u64_max then some (a + b) else none

-- The second half of `parse`: the text before the slash, and the total that is already read.
unfoldable pub parse_bounds : Str → ℕ → Result ContentRange RangeError
parse_bounds bounds total = do
  (start_text, end_text) ← ok_or (split_once b'-' bounds) invalid_syntax
  reject_if (contains b'-' end_text) invalid_syntax
  start ← ok_or (parse_u64 start_text) invalid_number
  end_inclusive ← ok_or (parse_u64 end_text) invalid_number
  reject_if (ltb end_inclusive start) reversed
  end_exclusive ← ok_or (checked_add end_inclusive 1) offset_overflow
  reject_if (ltb total end_exclusive) (outside_declared_size end_exclusive total)
  ok (record { start = start; end_exclusive = end_exclusive; total = total })

-- `ContentRange::parse`
unfoldable pub parse : Str → ℕ → Result ContentRange RangeError
parse value expected_total = do
  remainder ← ok_or (strip_prefix (codes "bytes ") (trim value)) invalid_unit
  (bounds, total_text) ← ok_or (split_once b'/' remainder) invalid_syntax
  reject_if
      (contains b'/' total_text
        || contains b',' bounds
        || str_eq total_text (codes "*")
        || str_eq bounds (codes "*"))
      unsupported_wildcard
  total ← ok_or (parse_u64 total_text) invalid_number
  reject_if (not (total == expected_total)) (total_mismatch expected_total total)
  parse_bounds bounds total

-- `end_exclusive - start` in `u64`: a release build wraps.
unfoldable pub len : ContentRange → ℕ
len r = (r.end_exclusive + 2 ^ 64 - r.start) % 2 ^ 64

unfoldable pub is_empty : ContentRange → Bool
unfolding len
is_empty r = len r == 0

-- The bounds that every range built by this module has.
pub record InBounds (r : ContentRange) : Type 0 where
  pub ordered : r.start ≤ r.end_exclusive
  pub inside : r.end_exclusive ≤ r.total
  pub fits : r.total ≤ u64_max

pub whole-InBounds : (total : ℕ) → total ≤ u64_max → InBounds (whole total)
unfolding whole
whole-InBounds total h = omega arith

-- Within bounds the subtraction does not wrap.
pub len_lem : (r : ContentRange) → InBounds r → len r ≡ r.end_exclusive - r.start
unfolding len
len_lem r b = omega arith

strict_range :
    parse (codes "bytes 10-19/100") 100
    ≡ ok (record { start = 10; end_exclusive = 20; total = 100 })
unfolding parse parse_bounds parse_u64 from_str trim
strict_range = refl

other_unit : parse (codes "items 0-9/10") 10 ≡ err invalid_unit
unfolding parse trim
other_unit = refl

other_total : parse (codes "bytes 0-9/11") 10 ≡ err (total_mismatch 10 11)
unfolding parse parse_bounds parse_u64 from_str trim
other_total = refl

wildcard : parse (codes "bytes */10") 10 ≡ err unsupported_wildcard
unfolding parse trim
wildcard = refl
