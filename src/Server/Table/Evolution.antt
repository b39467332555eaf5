-- ===== src/Server/Table/Evolution.antt =====
-- What a request makes of a tunnel that is in the table.
use ftnl_backend_api_rs.Base.{
  ℕ, Bool, false, some, ◌==◌, ==_iff, ◌≡◌, refl, sym, ap, ◌∙◌, Result, ok, err, arith, inl, inr,
  Bool-cases, get, put, get-put_self,
}
use ftnl_backend_api_rs.Server.{Platform, Tunnel, AppState, ApiError, Stamp, same_id}
use ftnl_backend_api_rs.Server.History.{Extends, Extends-refl}
use ftnl_backend_api_rs.Server.History.Calls.{
  claim_tunnel-Extends, cancel_tunnel-Extends, declare_file-Extends, create_event_ticket-Extends,
  connect_events-Extends, download_file-Extends, store_upload-Extends,
}
use ftnl_backend_api_rs.Server.Table.{
  Call, Request, create, call, Response, with_tunnel, respond, reply, after, serve, credential,
  handle,
}
use ftnl_backend_api_rs.Server.Table.Isolation.{handle_isolates, found_isolates}
use ftnl_backend_api_rs.Server.Table.World.{
  Pending, World, finish_upload, Step, request, begin, finish,
}

module _ {A : Type 0} (P : Tunnel → Type 0) (t : Tunnel) (start : P t) (answer : A → Response) where
  pub respond_keeps :
      (r : Result (Tunnel × A) ApiError)
      → ((x : Tunnel × A) → r ≡ ok x → P x.0)
      → P (respond t answer r).0
  respond_keeps (err e) k = start
  respond_keeps (ok x) k = k x refl

  pub reply_keeps : (r : Result A ApiError) → P (reply t answer r).0
  reply_keeps (err e) = start
  reply_keeps (ok a) = start

-- The tunnel is still there, and continues the earlier one.
abbrev pub Continues : AppState → AppState → ℕ → Tunnel → Type 0
Continues s s' id t = (t' : Tunnel) × (get same_id id s'.tunnels ≡ some t') × Extends t t'

stays :
    (s s' : AppState) (id : ℕ) (t : Tunnel)
    → get same_id id s.tunnels ≡ some t
    → get same_id id s'.tunnels ≡ get same_id id s.tunnels
    → Continues s s' id t
stays s s' id t found same = (t, same ∙ found, Extends-refl t)

found-Continues :
    {A : Type 0} (s : AppState) (tunnel_id id : ℕ) (handler : Tunnel → Tunnel × Result A ApiError)
    (t : Tunnel)
    → get same_id id s.tunnels ≡ some t
    → ((u : Tunnel) → Extends u (handler u).0)
    → Continues s (with_tunnel s tunnel_id handler).0 id t
unfolding with_tunnel
found-Continues s tunnel_id id handler t found k = elim (Bool-cases (tunnel_id == id)) [
  | inl e ↦
      let here : get same_id tunnel_id s.tunnels ≡ some t =
        ap (λ i. get same_id i s.tunnels) ((==_iff tunnel_id id).0 e) ∙ found in
      rw here (
        (handler t).0,
        ap (λ i. get same_id i (put same_id tunnel_id (handler t).0 s.tunnels))
              (sym ((==_iff tunnel_id id).0 e))
            ∙ get-put_self same_id ==_iff tunnel_id (handler t).0 s.tunnels,
        k t,
      )
  | inr e ↦
      stays s (with_tunnel s tunnel_id handler).0 id t found
        (found_isolates s tunnel_id handler id _ (λ q. ground arith))
]

abbrev pub creates : Request → ℕ → Bool
creates (create q tunnel_id pairing desk) id = tunnel_id == id
creates (call tunnel_id c) id = false

module _ (platform : Platform) where
  pub serve-Extends : (id : ℕ) (c : Call) (t : Tunnel) → Extends t (serve platform id c t).0
  unfolding serve
  serve-Extends id (Call.claim secret at) t =
      respond_keeps (Extends t) t (Extends-refl t) _ _ (claim_tunnel-Extends platform t secret at)
  serve-Extends id (Call.snapshot a now) t = reply_keeps (Extends t) t (Extends-refl t) _ _
  serve-Extends id (Call.cancel a at) t =
      respond_keeps (Extends t) t (Extends-refl t) _ _ (cancel_tunnel-Extends platform t a at)
  serve-Extends id (Call.declare a r at) t =
      respond_keeps (Extends t) t (Extends-refl t) _ _ (declare_file-Extends platform t a r at)
  serve-Extends id (Call.status file_id a now) t = reply_keeps (Extends t) t (Extends-refl t) _ _
  serve-Extends id (Call.download file_id a now stamp) t =
      respond_keeps (Extends t) t (Extends-refl t) _ _
        (download_file-Extends platform t a file_id now stamp)
  serve-Extends id (Call.mint a at) t =
      respond_keeps (Extends t) t (Extends-refl t) _ _ (create_event_ticket-Extends platform t a at)
  serve-Extends id (Call.connect ticket now) t = connect_events-Extends platform t ticket now

  after-Continues :
      {B : Type 0} (s : AppState) (r : Result B ApiError)
      (rest : AppState × Result Response ApiError) (id : ℕ) (t : Tunnel)
      → get same_id id s.tunnels ≡ some t
      → Continues s rest.0 id t
      → Continues s (after s r rest).0 id t
  after-Continues s (err e) rest id t found k = stays s s id t found refl
  after-Continues s (ok b) rest id t found k = k

  -- A tunnel in the table stays there and goes on, at each request that holds the lock throughout.
  handle-Continues :
      (s : AppState) (r : Request) (id : ℕ) (t : Tunnel)
      → get same_id id s.tunnels ≡ some t
      → creates r id ≡ false
      → Continues s (handle platform s r).0 id t
  unfolding handle
  handle-Continues s (create r tunnel_id pairing desk) id t found fresh =
      stays s (handle platform s (create r tunnel_id pairing desk)).0 id t found
        (handle_isolates platform s (create r tunnel_id pairing desk) id (λ q. ground arith))
  handle-Continues s (call tunnel_id c) id t found fresh =
      after-Continues s (credential platform c) _ id t found (
        found-Continues s tunnel_id id (serve platform tunnel_id c) t found
          (serve-Extends tunnel_id c))

  -- So does a tunnel when an upload takes its second look.
  finish-Continues :
      (s : AppState) (p : Pending) (now : ℕ) (progress available : Stamp) (id : ℕ) (t : Tunnel)
      → get same_id id s.tunnels ≡ some t
      → Continues s (finish_upload platform s p now progress available).0 id t
  unfolding finish_upload
  finish-Continues s p now progress available id t found =
      found-Continues s p.tunnel_id id _ t found
        (λ u. store_upload-Extends platform u p.file_id p.upload now progress available)

  -- Whether the step creates a tunnel under the identity.
  abbrev pub step_creates : {w w' : World} → Step platform w w' → ℕ → Bool
  step_creates (request r e) id = creates r id
  step_creates (begin tunnel_id file_id a c body now u b e) id = false
  step_creates (finish earlier later p now progress available m e) id = false

  -- A tunnel in the table stays there at every step of the server, be it a request or one of the two
  -- looks of an upload, unless the step creates a tunnel under its very identity: its terms do not
  -- change, its status does not go back, and its events are continued.
  pub step-Continues :
      {w w' : World} (st : Step platform w w') (id : ℕ) (t : Tunnel)
      → get same_id id w.state.tunnels ≡ some t
      → step_creates st id ≡ false
      → Continues w.state w'.state id t
  step-Continues {w} (request r e) id t found fresh =
      rw e (handle-Continues w.state r id t found fresh)
  step-Continues {w} (begin tunnel_id file_id a c body now u b e) id t found fresh =
      rw e (stays w.state w.state id t found refl)
  step-Continues {w} (finish earlier later p now progress available m e) id t found fresh =
      rw e (finish-Continues w.state p now progress available id t found)
