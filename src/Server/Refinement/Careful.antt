-- ===== src/Server/Refinement/Careful.antt =====
-- Each fitting call keeps a tunnel whose files all have bytes as the refinement needs it.
use ftnl_backend_api_rs.Base.{ℕ, ◌<◌, Bool, ◌≡◌, refl, sym, ◌∙◌, Result, ok, err, inl, inr, All-get}
use ftnl_backend_api_rs.Text.{Str}
use ftnl_backend_api_rs.Resumable.Range.{InBounds}
use ftnl_backend_api_rs.Server.{Platform, Digest, Tunnel, Stamp, ApiError, same_id}
use ftnl_backend_api_rs.Server.Handlers.{
  CreateTunnelRequest, CreateTunnelResponse, Reading, create_tunnel, connect_events, live_ticket,
  redeem,
}
use ftnl_backend_api_rs.Server.Transfers.{Upload, store_upload}
use ftnl_backend_api_rs.Server.Accepted.{create_accepted}
use ftnl_backend_api_rs.Server.Invariant.{IsSound}
use ftnl_backend_api_rs.Server.Invariant.Calls.{create_tunnel-IsSound}
use ftnl_backend_api_rs.Server.Invariant.Uploads.{store_upload-IsSound}
use ftnl_backend_api_rs.Server.Invariant.Fresh.{
  IsFresh, create_tunnel-IsFresh, store_upload-IsFresh,
}
use ftnl_backend_api_rs.Server.Table.{Call, serve}
use ftnl_backend_api_rs.Server.Table.Evolution.{respond_keeps, reply_keeps}
use ftnl_backend_api_rs.Server.Table.Soundness.{serve-IsSound, serve-IsFresh}
use ftnl_backend_api_rs.Server.Refinement.Runs.{HasBytes}
use ftnl_backend_api_rs.Server.Refinement.Abstract.{IsCareful, Fits}
use ftnl_backend_api_rs.Server.Refinement.Files.{
  KeepsFiles, files_of, put-FilesAreCareful, claim-files, cancel-files, declare-files, mint-files,
  download-files,
}
use ftnl_backend_api_rs.Server.Refinement.Stores.{Advances, store_upload_effect}

careful : (t : Tunnel) → IsSound t → IsFresh t → KeepsFiles t → IsCareful t
careful t s f k = record {
  sound = s;
  fresh = f;
  distinct = k.distinct;
  filled = k.filled;
  pending = k.pending;
}

module _ (platform : Platform) where
  pub create-IsCareful :
      (origin : Str) (request : CreateTunnelRequest) (id : ℕ) (pairing desk : Reading)
      (r : Tunnel × CreateTunnelResponse)
      → create_tunnel platform origin request id pairing desk ≡ ok r
      → IsCareful r.0
  create-IsCareful origin request id pairing desk r h =
      let (e, _, _, _, _, _) = create_accepted platform origin request id pairing desk {r = r} h in
      careful r.0 (create_tunnel-IsSound platform origin request id pairing desk {r = r} h)
        (create_tunnel-IsFresh platform origin request id pairing desk r h)
        (rw e (record { distinct = tt; filled = tt; pending = λ _. inl refl }))

  redeem-files :
      (t : Tunnel) (now : ℕ) (found : Result (Digest × ℕ) ApiError)
      → KeepsFiles t
      → KeepsFiles (redeem t now found).0
  redeem-files t now (err e) k = k
  redeem-files t now (ok x) k = k

  serve-files :
      (id : ℕ) (c : Call) (t : Tunnel) (issued : Digest → Bool)
      → IsCareful t
      → Fits platform t issued c
      → KeepsFiles (serve platform id c t).0
  unfolding serve connect_events
  serve-files id (Call.claim secret at) t issued k fits =
      respond_keeps KeepsFiles t (files_of t k) _ _ (claim-files platform t k secret at)
  serve-files id (Call.snapshot a now) t issued k fits = reply_keeps KeepsFiles t (files_of t k) _ _
  serve-files id (Call.cancel a at) t issued k fits =
      respond_keeps KeepsFiles t (files_of t k) _ _ (cancel-files platform t k a at)
  serve-files id (Call.declare a r at) t issued k fits =
      respond_keeps KeepsFiles t (files_of t k) _ _
        (λ x. declare-files platform t k a r at x fits.1)
  serve-files id (Call.status file_id a now) t issued k fits =
      reply_keeps KeepsFiles t (files_of t k) _ _
  serve-files id (Call.download file_id a now stamp) t issued k fits =
      respond_keeps KeepsFiles t (files_of t k) _ _
        (download-files platform t k a file_id now stamp)
  serve-files id (Call.mint a at) t issued k fits =
      respond_keeps KeepsFiles t (files_of t k) _ _ (mint-files platform t k a at)
  serve-files id (Call.connect ticket now) t issued k fits =
      redeem-files t now (live_ticket platform t ticket now) (files_of t k)

  pub serve-IsCareful :
      (id : ℕ) (c : Call) (t : Tunnel) (issued : Digest → Bool)
      → IsCareful t
      → Fits platform t issued c
      → IsCareful (serve platform id c t).0
  serve-IsCareful id c t issued k fits =
      careful (serve platform id c t).0 (serve-IsSound platform id c t k.sound)
        (serve-IsFresh platform id c t k.sound k.fresh) (serve-files id c t issued k fits)

  advance-files : (t t' : Tunnel) → IsCareful t → Advances t t' → KeepsFiles t'
  advance-files t t' k a = rw (a.files) (
      put-FilesAreCareful t.status t'.status t.files a.file_id a.after (files_of t k)
        (λ z.
          All-get same_id HasBytes a.file_id t.files a.before k.filled a.found
            (sym a.same_size ∙ z))
        a.still_undelivered)

  pub store-IsCareful :
      (t : Tunnel) (file_id : ℕ) (u : Upload) (now : ℕ) (progress available : Stamp)
      → InBounds u.range
      → u.range.start < u.range.end_exclusive
      → IsCareful t
      → IsCareful (store_upload platform t file_id u now progress available).0
  store-IsCareful t file_id u now progress available bounds lt k =
      let t' = (store_upload platform t file_id u now progress available).0 in
      careful t' (store_upload-IsSound platform t file_id u now progress available bounds k.sound)
        (store_upload-IsFresh platform t k.sound k.fresh file_id u now progress available)
        (elim (store_upload_effect platform t file_id u now progress available k.sound bounds lt) [
          | inl same ↦ rw same (files_of t k)
          | inr a ↦ advance-files t t' k a
        ])
