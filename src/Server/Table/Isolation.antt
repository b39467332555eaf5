-- ===== src/Server/Table/Isolation.antt =====
-- What a request leaves alone.
use ftnl_backend_api_rs.Base.{
  ℕ, false, Option, none, some, ==_iff, ◌≡◌, ◌≢◌, refl, Result, ok, err, inl, inr, Bool-cases, get,
  get-put_other,
}
use ftnl_backend_api_rs.Server.{Platform, Tunnel, AppState, ApiError, same_id}
use ftnl_backend_api_rs.Server.Handlers.{CreateTunnelResponse}
use ftnl_backend_api_rs.Server.Table.{
  Request, create, call, Response, on_found, with_tunnel, insert_created, after, serve, credential,
  handle,
}

-- The tunnel that a request names, or creates.
abbrev pub target : Request → ℕ
target (create request tunnel_id pairing desk) = tunnel_id
target (call tunnel_id c) = tunnel_id

pub same_id-false : (a b : ℕ) → a ≢ b → same_id a b ≡ false
same_id-false a b h = elim (Bool-cases (same_id a b)) [
  | inl e ↦ absurd (h ((==_iff a b).0 e))
  | inr e ↦ e
]

module _ {A : Type 0} (s : AppState) (tunnel_id : ℕ)
    (handler : Tunnel → Tunnel × Result A ApiError) where
  pub found_isolates :
      (other : ℕ) (found : Option Tunnel)
      → tunnel_id ≢ other
      → get same_id other (on_found s tunnel_id handler found).0.tunnels
        ≡ get same_id other s.tunnels
  found_isolates other none h = refl
  found_isolates other (some t) h =
      get-put_other same_id ==_iff other tunnel_id (handler t).0 s.tunnels
        (same_id-false tunnel_id other h)

created_isolates :
    (s : AppState) (tunnel_id other : ℕ) (r : Result (Tunnel × CreateTunnelResponse) ApiError)
    → tunnel_id ≢ other
    → get same_id other (insert_created s tunnel_id r).0.tunnels ≡ get same_id other s.tunnels
created_isolates s tunnel_id other (err e) h = refl
created_isolates s tunnel_id other (ok (t, response)) h =
    get-put_other same_id ==_iff other tunnel_id t s.tunnels (same_id-false tunnel_id other h)

module _ (platform : Platform) where
  after_isolates :
      {B : Type 0} (s : AppState) (r : Result B ApiError)
      (rest : AppState × Result Response ApiError) (other : ℕ)
      → get same_id other rest.0.tunnels ≡ get same_id other s.tunnels
      → get same_id other (after s r rest).0.tunnels ≡ get same_id other s.tunnels
  after_isolates s (err x) rest other k = refl
  after_isolates s (ok b) rest other k = k

  -- A request changes no tunnel but the one that it names or creates, whatever its answer.
  pub handle_isolates :
      (s : AppState) (r : Request) (other : ℕ)
      → target r ≢ other
      → get same_id other (handle platform s r).0.tunnels ≡ get same_id other s.tunnels
  unfolding handle with_tunnel
  handle_isolates s (create request tunnel_id pairing desk) other h =
      created_isolates s tunnel_id other _ h
  handle_isolates s (call tunnel_id c) other h =
      after_isolates s (credential platform c) _ other
        (found_isolates s tunnel_id (serve platform tunnel_id c) other _ h)
