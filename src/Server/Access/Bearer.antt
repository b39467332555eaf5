-- ===== src/Server/Access/Bearer.antt =====
-- Which requests carry a bearer capability (`bearer_hash` of src/lib.rs).
use ftnl_backend_api_rs.Base.{
  ℕ, false, List, ◌++◌, Option, none, some, ◌≡◌, ◌↔◌, refl, ap, ◌∙◌, ok, arith, inl, inr,
  Option-cases, ok_or-eq-ok,
}
use ftnl_backend_api_rs.Text.{Str, codes, bytes, strip_prefix, is_empty}
use ftnl_backend_api_rs.Text.Laws.{strip_prefix-eq-some}
use ftnl_backend_api_rs.Server.{Platform, Digest, unauthorized}
use ftnl_backend_api_rs.Server.Access.{bearer_value, bearer_hash, token_hash}

module _ (platform : Platform) where
  value_shown :
      (header : List ℕ) (value : Str)
      → bearer_value platform (some header) ≡ some value
      → (platform.to_str header ≡ some (codes "Bearer " ++ value)) × (is_empty value ≡ false)
  value_shown header value h = elim (Option-cases (platform.to_str header)) [
    | inl n ↦ absurd (ground arith)
    | inr (text, e) ↦ elim (Option-cases (strip_prefix (codes "Bearer ") text)) [
      | inl n ↦ absurd (ground arith)
      | inr (rest, p) ↦
          let split = strip_prefix-eq-some (codes "Bearer ") text p in
          (e ∙ ap some (split ∙ ap (λ r. codes "Bearer " ++ r) (ground arith)), ground arith)
    ]
  ]

-- A request has a digest as its bearer exactly when it has an Authorization header whose text is
-- "Bearer " and a token that is not empty, and the digest is the SHA-256 of the token.
pub bearer_hash_iff :
    (platform : Platform) (authorization : Option (List ℕ)) (digest : Digest)
    → (bearer_hash platform authorization ≡ ok digest) ↔ (
        (header : List ℕ) × (value : Str) × (authorization ≡ some header)
        × (platform.to_str header ≡ some (codes "Bearer " ++ value))
        × (is_empty value ≡ false)
        × (digest ≡ platform.sha256 (bytes value)))
unfolding bearer_hash token_hash
bearer_hash_iff platform none digest = (λ h. absurd (ground arith), λ h. absurd (ground arith))
bearer_hash_iff platform (some header) digest = (
  λ h.
      let (value, found, hashed) =
        ok_or-eq-ok (bearer_value platform (some header)) unauthorized _ h in
      let (text, filled) = value_shown platform header value found in
      (header, value, refl, text, filled, ground arith),
  λ (same, value, e, text, filled, hashed). ground arith,
)
