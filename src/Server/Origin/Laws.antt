-- ===== src/Server/Origin/Laws.antt =====
-- The CORS predicate and the pairing link, for one configured origin (src/lib.rs).
use mathlib.Core.List.{reverse, reverse-append}
use ftnl_backend_api_rs.Base.{
  ℕ, true, false, List, [], ◌∷◌, ◌++◌, length, length-append, ◌≡◌, ◌≢◌, refl, sym, ap, ◌∙◌, arith,
  inl, inr, Bool-cases, ◌==◌, append_assoc,
}
use ftnl_backend_api_rs.Text.{Str, codes, bytes, encode_utf8, str_eq, trim_start, trim_end}
use ftnl_backend_api_rs.Text.Laws.{str_eq_iff}
use ftnl_backend_api_rs.Server.{Platform}
use ftnl_backend_api_rs.Server.Table.{new_state}
use ftnl_backend_api_rs.Server.Handlers.{pairing_uri}
use ftnl_backend_api_rs.Server.Origin.{origin_is_allowed}

bytes-append : (a b : Str) → bytes (a ++ b) ≡ bytes a ++ bytes b
bytes-append [] b = refl
bytes-append (c ∷ a) b =
    ap (λ rest. encode_utf8 c ++ rest) (bytes-append a b)
    ∙ sym (append_assoc (encode_utf8 c) (bytes a) (bytes b))

trim_end-slash :
    (origin : Str)
    → trim_end (λ c. c == b'/') (origin ++ codes "/") ≡ trim_end (λ c. c == b'/') origin
unfolding trim_end
trim_end-slash origin =
    ap (λ t. reverse (trim_start (λ c. c == b'/') t)) (reverse-append origin (codes "/"))

longer-differs : (s : List ℕ) (c : ℕ) → s ≢ s ++ c ∷ []
longer-differs s c h = absurd (omega (arith, ap length h, length-append s (c ∷ [])))

-- When the configured origin ends in a slash, the pairing links are those of the origin without it,
-- but that origin itself, which is what a browser sends, is not allowed; configured without the slash,
-- it is.
pub slash_splits_origin :
    (platform : Platform) (origin : Str) (id : ℕ) (secret : Str)
    → (pairing_uri platform (origin ++ codes "/") id secret ≡ pairing_uri platform origin id secret)
      × (origin_is_allowed (new_state (origin ++ codes "/")) (bytes origin) ≡ false)
      × (origin_is_allowed (new_state origin) (bytes origin) ≡ true)
unfolding origin_is_allowed new_state
slash_splits_origin platform origin id secret = (
  ap (λ o. o ++ codes "/t/" ++ platform.hyphenated id ++ codes "#c=" ++ secret)
      (trim_end-slash origin),
  elim (Bool-cases (str_eq (bytes origin) (bytes (origin ++ codes "/")))) [
    | inl same ↦ absurd (
        longer-differs (bytes origin) b'/'
          ((str_eq_iff _ _).0 same ∙ bytes-append origin (codes "/")))
    | inr other ↦ other
  ],
  (str_eq_iff (bytes origin) (bytes origin)).1 refl,
)
