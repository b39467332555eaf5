-- ===== src/Server/Capability.antt =====
-- When the pairing secret is exchanged, and by whom a tunnel is cancelled (src/lib.rs).
use ftnl_backend_api_rs.Base.{
  ◌<◌, true, some, ◌≡◌, ◌↔◌, ◌≢◌, ok, arith, Option-cases, Result-cases, refl, ap, ◌∙◌, inl, inr,
}
use ftnl_backend_api_rs.Text.{Str, bytes}
use ftnl_backend_api_rs.Protocol.{TunnelStatus, permits}
use ftnl_backend_api_rs.Server.{Platform, Digest, Tunnel, publish}
use ftnl_backend_api_rs.Server.Access.{ensure_active, authorize, token_hash, hashes_equal}
use ftnl_backend_api_rs.Server.Handlers.{Reading, claim_tunnel}
use ftnl_backend_api_rs.Server.Accepted.{claim_accepted}

module _ (platform : Platform) (t : Tunnel) (secret : Str) (at : Reading) where
  -- The digest that a claim must match.
  abbrev Exchangeable : Type 0
  Exchangeable =
      (t.status ≡ TunnelStatus.waiting)
      × (at.now < t.expires_at)
      × (t.pairing_hash ≡ some (platform.sha256 (bytes secret)))

  claim-hash :
      (expected : Digest) {r : Tunnel × Str}
      → t.pairing_hash ≡ some expected
      → claim_tunnel platform t secret at ≡ ok r
      → platform.ct_eq expected (platform.sha256 (bytes secret)) ≡ true
  unfolding claim_tunnel token_hash hashes_equal
  claim-hash expected e h = ground arith

  claim-Exchangeable : {r : Tunnel × Str} → claim_tunnel platform t secret at ≡ ok r → Exchangeable
  claim-Exchangeable {r} h =
      let (waiting, live, some_hash, _) = claim_accepted platform t secret at {r = r} h in
      elim (Option-cases t.pairing_hash) [
        | inl n ↦ absurd (some_hash n)
        | inr (expected, e) ↦ (
          waiting,
          live,
          e ∙ ap some ((platform.ct_eq_iff expected _).0 (claim-hash expected {r = r} e h)),
        )
      ]

  Exchangeable-claim :
      Exchangeable → (r : Tunnel × Str) × (claim_tunnel platform t secret at ≡ ok r)
  unfolding claim_tunnel ensure_active authorize permits token_hash hashes_equal
  Exchangeable-claim (waiting, live, paired) =
      let digest = platform.sha256 (bytes secret) in
      let same = (platform.ct_eq_iff digest digest).1 refl in
      elim (Result-cases (claim_tunnel platform t secret at)) [
        | inl accepted ↦ accepted
        | inr (e, refused) ↦ absurd (ground arith)
      ]

  -- A claim is accepted exactly when the tunnel is waiting and not expired, and its pairing digest is
  -- that of the secret.
  pub claim_iff : ((r : Tunnel × Str) × (claim_tunnel platform t secret at ≡ ok r)) ↔ (
      (t.status ≡ TunnelStatus.waiting)
      × (at.now < t.expires_at)
      × (t.pairing_hash ≡ some (platform.sha256 (bytes secret))))
  claim_iff = (λ h. claim-Exchangeable {r = h.0} h.1, Exchangeable-claim)

-- Once a claim was accepted, no claim on the tunnel that it leaves is, whatever secret it brings.
pub claim_is_once :
    (platform : Platform) (t : Tunnel) (secret again : Str) (at later : Reading)
    (r q : Tunnel × Str)
    → claim_tunnel platform t secret at ≡ ok r
    → claim_tunnel platform r.0 again later ≢ ok q
unfolding publish
claim_is_once platform t secret again at later r q h k =
    let (_, _, _, e) = claim_accepted platform t secret at {r = r} h in
    let (waiting, _, _, _) = claim_accepted platform r.0 again later {r = q} k in
    absurd (ground arith)
