-- ===== src/Declaration.antt =====
-- src/declaration.rs: the decision whether a phone may declare a file.
pub mod Media
pub mod Decision
mod Tests
mod UnitTests
use ftnl_backend_api_rs.Base.{
  ℕ, Bool, true, false, ◌||◌, not, List, [], ◌∷◌, ◌++◌, Option, none, some, ltb, leb, ◌==◌, any,
  all, Result, ok, err, ◌>>◌, reject_if, ◌≡◌, refl,
}
use ftnl_backend_api_rs.Text.{
  Str, codes, len, bytes, is_empty, str_eq, starts_with, strip_suffix, is_control,
  is_ascii_hexdigit,
}

pub record DeclarationPolicy : Type 0 where
  pub current_files : ℕ  -- usize
  pub max_files : ℕ  -- u16
  pub max_file_bytes : ℕ  -- u64
  pub accepted_media : List Str

pub record FileDeclaration : Type 0 where
  pub name : Str
  pub media_type : Str
  pub size_bytes : ℕ  -- u64
  pub sha256 : Option Str

pub data DeclarationRejection : Type 0 where
  invalid_name file_limit_reached file_too_large unsupported_media invalid_sha256 :
      DeclarationRejection

abbrev is_prefix_of : Str → Option Str → Bool
is_prefix_of media none = false
is_prefix_of media (some prefix) = starts_with (prefix ++ codes "/") media

-- The closure of `media_is_accepted`.
unfoldable pub pattern_accepts : Str → Str → Bool
pattern_accepts media_type pattern' =
    str_eq pattern' (codes "*/*")
    || str_eq pattern' media_type
    || is_prefix_of media_type (strip_suffix (codes "/*") pattern')

unfoldable pub media_is_accepted : List Str → Str → Bool
media_is_accepted patterns media_type = any (pattern_accepts media_type) patterns

abbrev name_is_invalid : Str → Bool
name_is_invalid name =
    is_empty name
    || ltb 255 (len name)
    || any (λ character. character == 0 || is_control character) name

abbrev digest_is_invalid : Option Str → Bool
digest_is_invalid none = false
digest_is_invalid (some digest) =
    not (len digest == 64) || not (all is_ascii_hexdigit (bytes digest))

unfoldable pub validate_declaration :
    DeclarationPolicy → FileDeclaration → Result (Unit {0}) DeclarationRejection
validate_declaration policy declaration = do
  reject_if (name_is_invalid declaration.name) invalid_name
  reject_if (leb policy.max_files policy.current_files) file_limit_reached
  reject_if (ltb policy.max_file_bytes declaration.size_bytes) file_too_large
  reject_if (not (media_is_accepted policy.accepted_media declaration.media_type)) unsupported_media
  reject_if (digest_is_invalid declaration.sha256) invalid_sha256
  ok tt

image_wildcard : media_is_accepted (codes "image/*" ∷ []) (codes "image/jpeg") ≡ true
unfolding media_is_accepted pattern_accepts strip_suffix
image_wildcard = refl

text_refused : media_is_accepted (codes "image/*" ∷ []) (codes "text/plain") ≡ false
unfolding media_is_accepted pattern_accepts strip_suffix
text_refused = refl
