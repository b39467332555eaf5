-- ===== src/Resumable/Number.antt =====
-- `parse_u64` of src/resumable.rs: strict decimal numbers.
pub mod Canonical
use ftnl_backend_api_rs.Base.{
  ℕ, ◌≡◌, refl, ◌&&◌, ◌||◌, not, all, [], ◌∷◌, Option, none, some, ltb, if◌then◌else◌,
}
use ftnl_backend_api_rs.Text.{Str, codes, len, bytes, is_empty, starts_with, is_ascii_digit}
use ftnl_backend_api_rs.Text.Decimal.{from_str}

unfoldable pub parse_u64 : Str → Option ℕ
parse_u64 value =
    if is_empty value
      || (ltb 1 (len value) && starts_with (codes "0") value)
      || not (all is_ascii_digit (bytes value))
    then none
    else from_str value

leading_zero : parse_u64 (codes "01") ≡ none
unfolding parse_u64
leading_zero = refl

signed : parse_u64 (codes "+1") ≡ none
unfolding parse_u64
signed = refl

one_digit : parse_u64 (codes "0") ≡ some 0
unfolding parse_u64 from_str
one_digit = refl
