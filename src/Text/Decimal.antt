-- ===== src/Text/Decimal.antt =====
-- `u64::to_string` and `u64::from_str`.
pub mod RoundTrip
use Prim.Native.Nat.{◌^◌}
use mathlib.Core.Bool.{true, false}
use ftnl_backend_api_rs.Base.{
  ℕ, zero, suc, ◌+◌, ◌-◌, ◌*◌, ◌/◌, ◌%◌, ◌≤◌, ◌<◌, ◌&&◌, [], ◌∷◌, Option, none, some, leb, ◌==◌,
  if◌then◌else◌, arith, ◌≡◌, refl,
}
use ftnl_backend_api_rs.Text.{Str, codes, is_ascii_digit}

abbrev pub u64_max : ℕ
u64_max = 2 ^ 64 - 1

-- The digits of a number in front of a text, none for 0: a round takes the last digit off. The fuel is
-- at least the number, which every round divides by ten.
emit : ℕ → ℕ → Str → Str
emit zero n out = out
emit (suc fuel) n out = elim (n == 0) [
  | true ↦ out
  | false ↦ emit fuel (n / 10) ((b'0' + n % 10) ∷ out)
]

unfoldable pub digits : ℕ → Str → Str
unfolding emit
digits n = emit n n

-- `u64::to_string`
unfoldable pub decimal : ℕ → Str
decimal n = if n == 0 then b'0' ∷ [] else digits n []

-- The loop of `from_str`: `checked_mul(10)`, then `checked_add` of the digit.
unfoldable pub read_digits : ℕ → Str → Option ℕ
read_digits n [] = some n
read_digits n (c ∷ s) =
    let rest = read_digits (n * 10 + (c - b'0')) s in
    if is_ascii_digit c && leb (n * 10) u64_max && leb (n * 10 + (c - b'0')) u64_max
    then rest
    else none

after_sign : Str → Option ℕ
unfolding read_digits
after_sign [] = none
after_sign (c ∷ s) = read_digits 0 (c ∷ s)

-- `u64::from_str`: digits behind an optional `+`; anything else, and a number too large, is an error.
unfoldable pub from_str : Str → Option ℕ
unfolding after_sign
from_str [] = none
from_str (c ∷ s) = if c == b'+' then after_sign s else read_digits 0 (c ∷ s)

decimal_max : decimal u64_max ≡ codes "18446744073709551615"
unfolding decimal digits
decimal_max = refl

from_str_overflow : from_str (codes "18446744073709551616") ≡ none
unfolding from_str
from_str_overflow = refl
