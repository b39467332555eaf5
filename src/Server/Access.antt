-- ===== src/Server/Access.antt =====
-- Who may do what: `ensure_active`, `bearer_hash`, `authorize` and the `require_…` helpers of src/lib.rs.
pub mod Bearer
use ftnl_backend_api_rs.Base.{
  ℕ, Bool, false, ◌||◌, not, List, ◌++◌, Option, none, some, leb, Result, ok, err, ◌>>◌, ◌>>=◌,
  ok_or, reject_if, if◌then◌else◌,
}
use ftnl_backend_api_rs.Text.{Str, codes, bytes, strip_prefix, is_empty}
use ftnl_backend_api_rs.Protocol.{
  Principal, desktop, phone, Operation, permits, is_expired, is_cancelled,
}
use ftnl_backend_api_rs.Server.{Platform, Digest, Tunnel, ApiError, expired, conflict, unauthorized}

unfoldable pub ensure_active : Tunnel → ℕ → Result (Unit {0}) ApiError
ensure_active t now = do
  reject_if (leb t.expires_at now || is_expired t.status) expired
  reject_if (is_cancelled t.status) conflict
  ok tt

unfoldable pub authorize : Tunnel → Principal → Operation → Result (Unit {0}) ApiError
authorize t principal operation =
    if permits t.status principal operation then ok tt else err conflict

module _ (platform : Platform) where
  -- `format!("{}{}", Uuid::new_v4().simple(), Uuid::new_v4().simple())`
  unfoldable pub token : ℕ → ℕ → Str
  token first second = platform.simple first ++ platform.simple second

  unfoldable pub token_hash : Str → Digest
  token_hash value = platform.sha256 (bytes value)

  unfoldable pub hashes_equal : Digest → Digest → Bool
  hashes_equal left right = platform.ct_eq left right

  -- The chain behind `headers.get(AUTHORIZATION)`.
  abbrev pub bearer_value : Option (List ℕ) → Option Str
  bearer_value none = none
  bearer_value (some header) = elim (platform.to_str header) [
    | none ↦ none
    | some text ↦ elim (strip_prefix (codes "Bearer ") text) [
      | none ↦ none
      | some value ↦ if is_empty value then none else some value
    ]
  ]

  unfoldable pub bearer_hash : Option (List ℕ) → Result Digest ApiError
  bearer_hash authorization = do
    value ← ok_or (bearer_value authorization) unauthorized
    ok (token_hash value)

  unfoldable pub require_desktop : Tunnel → Digest → Operation → Result (Unit {0}) ApiError
  require_desktop t supplied operation = do
    reject_if (not (hashes_equal t.desktop_hash supplied)) unauthorized
    authorize t desktop operation

  -- `phone_hash.as_ref().is_some_and(|expected| hashes_equal(expected, supplied))`
  abbrev phone_matches : Option Digest → Digest → Bool
  phone_matches none supplied = false
  phone_matches (some expected) supplied = hashes_equal expected supplied

  unfoldable pub require_phone : Tunnel → Digest → Operation → Result (Unit {0}) ApiError
  require_phone t supplied operation = do
    reject_if (not (phone_matches t.phone_hash supplied)) unauthorized
    authorize t phone operation

  unfoldable pub require_either : Tunnel → Digest → Operation → Result (Unit {0}) ApiError
  require_either t supplied operation =
      if hashes_equal t.desktop_hash supplied
      then authorize t desktop operation
      else if phone_matches t.phone_hash supplied
      then authorize t phone operation
      else err unauthorized
