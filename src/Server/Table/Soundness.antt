-- ===== src/Server/Table/Soundness.antt =====
-- Each request keeps a tunnel sound and fresh.
use ftnl_backend_api_rs.Base.{ℕ}
use ftnl_backend_api_rs.Server.{Platform, Tunnel}
use ftnl_backend_api_rs.Server.Invariant.{IsSound}
use ftnl_backend_api_rs.Server.Invariant.Calls.{
  claim_tunnel-IsSound, cancel_tunnel-IsSound, declare_file-IsSound, create_event_ticket-IsSound,
  connect_events-IsSound, download_file-IsSound,
}
use ftnl_backend_api_rs.Server.Invariant.Fresh.{
  IsFresh, claim_tunnel-IsFresh, cancel_tunnel-IsFresh, declare_file-IsFresh,
  create_event_ticket-IsFresh, connect_events-IsFresh, download_file-IsFresh,
}
use ftnl_backend_api_rs.Server.Table.{Call, serve}
use ftnl_backend_api_rs.Server.Table.Evolution.{respond_keeps, reply_keeps}

module _ (platform : Platform) where
  pub serve-IsSound :
      (id : ℕ) (c : Call) (t : Tunnel) → IsSound t → IsSound (serve platform id c t).0
  unfolding serve
  serve-IsSound id (Call.claim secret at) t s =
      respond_keeps IsSound t s _ _ (λ x e. claim_tunnel-IsSound platform t secret at {r = x} e s)
  serve-IsSound id (Call.snapshot a now) t s = reply_keeps IsSound t s _ _
  serve-IsSound id (Call.cancel a at) t s =
      respond_keeps IsSound t s _ _ (λ x e. cancel_tunnel-IsSound platform t a at {r = x} e s)
  serve-IsSound id (Call.declare a r at) t s =
      respond_keeps IsSound t s _ _ (λ x e. declare_file-IsSound platform t a r at {r = x} e s)
  serve-IsSound id (Call.status file_id a now) t s = reply_keeps IsSound t s _ _
  serve-IsSound id (Call.download file_id a now stamp) t s =
      respond_keeps IsSound t s _ _
        (λ x e. download_file-IsSound platform t a file_id now stamp {r = x} e s)
  serve-IsSound id (Call.mint a at) t s =
      respond_keeps IsSound t s _ _ (λ x e. create_event_ticket-IsSound platform t a at {r = x} e s)
  serve-IsSound id (Call.connect ticket now) t s = connect_events-IsSound platform t ticket now s

  pub serve-IsFresh :
      (id : ℕ) (c : Call) (t : Tunnel) → IsSound t → IsFresh t → IsFresh (serve platform id c t).0
  unfolding serve
  serve-IsFresh id (Call.claim secret at) t s f =
      respond_keeps IsFresh t f _ _ (claim_tunnel-IsFresh platform t s f secret at)
  serve-IsFresh id (Call.snapshot a now) t s f = reply_keeps IsFresh t f _ _
  serve-IsFresh id (Call.cancel a at) t s f =
      respond_keeps IsFresh t f _ _ (cancel_tunnel-IsFresh platform t s f a at)
  serve-IsFresh id (Call.declare a r at) t s f =
      respond_keeps IsFresh t f _ _ (declare_file-IsFresh platform t s f a r at)
  serve-IsFresh id (Call.status file_id a now) t s f = reply_keeps IsFresh t f _ _
  serve-IsFresh id (Call.download file_id a now stamp) t s f =
      respond_keeps IsFresh t f _ _ (download_file-IsFresh platform t s f a file_id now stamp)
  serve-IsFresh id (Call.mint a at) t s f =
      respond_keeps IsFresh t f _ _ (create_event_ticket-IsFresh platform t s f a at)
  serve-IsFresh id (Call.connect ticket now) t s f =
      connect_events-IsFresh platform t s f ticket now
