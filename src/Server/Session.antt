-- ===== src/Server/Session.antt =====
-- A whole session on the table of tunnels of src/lib.rs: pairing, a declaration, an upload and the
-- download.
pub mod Script
pub mod Delivery
use mathlib.Core.Path.{subst}
use ftnl_backend_api_rs.Base.{
  ℕ, ◌+◌, ◌<◌, Bool, true, false, List, [], Option, some, none, ◌≡◌, refl, sym, ap, ◌∙◌, Result, ok,
  err, inl, inr, arith, ==_iff, get, put, get-put_self, length, map, flatten,
}
use ftnl_backend_api_rs.Text.{Str, codes}
use ftnl_backend_api_rs.Protocol.{TunnelStatus, permits}
use ftnl_backend_api_rs.Protocol.Quint.{InTransfer}
use ftnl_backend_api_rs.Declaration.{DeclarationPolicy, validate_declaration}
use ftnl_backend_api_rs.Server.{
  Platform, Digest, FileDescriptor, StoredFile, Tunnel, AppState, ApiError, Stamp, publish, same_id,
  seconds, from_rejection,
}
use ftnl_backend_api_rs.Server.Access.{
  ensure_active, authorize, token, token_hash, hashes_equal, bearer_hash, require_phone,
}
use ftnl_backend_api_rs.Server.Handlers.{
  CreateTunnelRequest, CreateTunnelResponse, DeclareFileRequest, Reading, validate_create,
  create_tunnel, new_tunnel, claim_tunnel, declare_file, declared_file, policy, declaration,
}
use ftnl_backend_api_rs.Server.Table.{
  Call, Request, Response, serve, handle, credential, with_tunnel, on_found, insert_created,
  respond,
}

module _ (platform : Platform) where
  -- A claim with the pairing secret of a waiting tunnel.
  pub claim_lem :
      (t : Tunnel) (secret : Str) (at : Reading)
      → t.status ≡ TunnelStatus.waiting
      → at.now < t.expires_at
      → t.pairing_hash ≡ some (token_hash platform secret)
      → let capability = token platform at.first at.second in
        claim_tunnel platform t secret at
        ≡ ok (
          publish
              (record t {
                phone_hash = some (token_hash platform capability);
                pairing_hash = none;
                status = TunnelStatus.connected;
              })
              (codes "tunnel.connected")
              none
              none
              none
              at.stamp,
          capability,
        )
  unfolding claim_tunnel ensure_active authorize permits hashes_equal
  claim_lem t secret at waits live holds =
      ground (arith, platform.ct_eq_iff (token_hash platform secret) (token_hash platform secret))

  pub declare_lem :
      (t : Tunnel) (authorization : Option (List ℕ)) (request : DeclareFileRequest) (at : Reading)
      (p : Digest)
      → InTransfer t.status
      → at.now < t.expires_at
      → bearer_hash platform authorization ≡ ok p
      → t.phone_hash ≡ some p
      → validate_declaration (policy t) (declaration request) ≡ ok tt
      → let stored = declared_file request at.first at.now in
        declare_file platform t authorization request at
        ≡ ok (
          publish
              (record t { files = put same_id at.first stored t.files })
              (codes "file.declared")
              (some at.first)
              (some 0)
              none
              at.stamp,
          stored.descriptor,
        )
  unfolding declare_file ensure_active require_phone authorize permits hashes_equal
  declare_lem t authorization request at p transfer live b paired valid =
      ground (arith, platform.ct_eq_iff p p)

  -- A request on a tunnel that is in the table.
  pub served :
      (s : AppState) (id : ℕ) (c : Call) (t : Tunnel) (answer : Tunnel × Result Response ApiError)
      {credentials : Option (List ℕ)}
      → get same_id id s.tunnels ≡ some t
      → credential platform c ≡ ok credentials
      → serve platform id c t ≡ answer
      → let (s', result) = handle platform s (Request.call id c) in
        (result ≡ answer.1) × (get same_id id s'.tunnels ≡ some answer.0)
  unfolding handle with_tunnel
  served s id c t answer found shown done =
      rw (shown, found, done) (refl, get-put_self same_id ==_iff id answer.0 s.tunnels)

  -- A new tunnel stands in the table.
  pub inserted :
      (s : AppState) (request : CreateTunnelRequest) (id : ℕ) (pairing desk : Reading) (t : Tunnel)
      (response : CreateTunnelResponse)
      → create_tunnel platform s.portal_origin request id pairing desk ≡ ok (t, response)
      → get same_id id (handle platform s (Request.create request id pairing desk)).0.tunnels
        ≡ some t
  unfolding handle
  inserted s request id pairing desk t response made =
      subst (λ r. get same_id id (insert_created s id r).0.tunnels ≡ some t) (sym made)
        (get-put_self same_id ==_iff id t s.tunnels)

-- What a handler leaves of a tunnel that is in the table.
pub written :
    {A : Type 0} (s : AppState) (id : ℕ) (handler : Tunnel → Tunnel × Result A ApiError)
    (t : Tunnel)
    → get same_id id s.tunnels ≡ some t
    → get same_id id (with_tunnel s id handler).0.tunnels ≡ some (handler t).0
unfolding with_tunnel
written s id handler t found =
    subst (λ o. get same_id id (on_found s id handler o).0.tunnels ≡ some (handler t).0) (sym found)
      (get-put_self same_id ==_iff id (handler t).0 s.tunnels)
