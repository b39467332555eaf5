-- ===== src/Server/Session/Delivery.antt =====
-- Used as it is meant to be, the server of src/lib.rs delivers the file.
use ftnl_backend_api_rs.Base.{
  ℕ, ◌<◌, ◌≤◌, not, ◌&&◌, true, false, [], ◌∷◌, some, none, ◌≡◌, refl, sym, ap, ◌∙◌, ok, inl, arith,
  ==_iff, All-get, get, put, get-put_self, map, flatten,
}
use ftnl_backend_api_rs.Text.{Str}
use ftnl_backend_api_rs.Text.Decimal.{u64_max}
use ftnl_backend_api_rs.Protocol.{TunnelStatus}
use ftnl_backend_api_rs.Resumable.Range.{whole}
use ftnl_backend_api_rs.Resumable.Upload.{AppendOutcome, UploadBuffer, new, is_complete}
use ftnl_backend_api_rs.Server.{Platform, StoredFile, Tunnel, AppState, publish, same_id}
use ftnl_backend_api_rs.Server.Access.{token_hash}
use ftnl_backend_api_rs.Server.Handlers.{create_tunnel, new_response, claim_tunnel, declare_file}
use ftnl_backend_api_rs.Server.Transfers.{
  Upload, Download, upload_file, store_upload, store_received, receive_upload, download_file,
  after_outcome, with_file,
}
use ftnl_backend_api_rs.Server.Accepted.{download_accepted}
use ftnl_backend_api_rs.Server.Refinement.Stores.{announced}
use ftnl_backend_api_rs.Server.Refinement.Departure.{alone-closes}
use ftnl_backend_api_rs.Server.Table.{
  Call, Request, Response, content, supplied_hash, handle, serve,
}
use ftnl_backend_api_rs.Server.Table.World.{begin_upload, finish_upload}
use ftnl_backend_api_rs.Server.Invariant.{IsSound, FileIsSound}
use ftnl_backend_api_rs.Server.Invariant.Calls.{
  create_tunnel-IsSound, claim_tunnel-IsSound, declare_file-IsSound,
}
use ftnl_backend_api_rs.Server.RoundTrip.{
  find_upload_lem, receive_upload_lem, upload_whole, upload_then_download,
}
use ftnl_backend_api_rs.Server.Session.{claim_lem, declare_lem, served, inserted, written}
use ftnl_backend_api_rs.Server.Session.Script.{
  Script, IsProper, secret, phone_capability, desktop_capability, expires_at, stored_after, session,
  waiting_tunnel, paired_tunnel, new_file, declared_tunnel,
}

module _ (platform : Platform) (x : Script) (proper : IsProper platform x) where
  claims :
      claim_tunnel platform (waiting_tunnel platform x) (secret platform x) x.claiming
      ≡ ok ((paired_tunnel platform x), (phone_capability platform x))
  claims =
      claim_lem platform (waiting_tunnel platform x) (secret platform x) x.claiming refl
        proper.claimed_in_time refl

  declares :
      declare_file platform (paired_tunnel platform x) x.phone x.file x.declaring
      ≡ ok ((declared_tunnel platform x), (new_file platform x).descriptor)
  unfolding publish
  declares =
      declare_lem platform (paired_tunnel platform x) x.phone x.file x.declaring
        (token_hash platform (phone_capability platform x)) (inl refl) proper.declared_in_time
        proper.phone_shows refl proper.acceptable

  stored_file :
      get same_id x.declaring.first (declared_tunnel platform x).files ≡ some (new_file platform x)
  unfolding publish
  stored_file = get-put_self same_id ==_iff x.declaring.first (new_file platform x) []

  creates :
      (origin : Str)
      → create_tunnel platform origin x.request x.tunnel_id x.pairing x.desk
        ≡ ok (
          (waiting_tunnel platform x),
          new_response platform origin x.request x.tunnel_id x.pairing x.desk,
        )
  unfolding create_tunnel
  creates origin = rw proper.valid refl

  declared_tunnel-IsSound : (origin : Str) → IsSound (declared_tunnel platform x)
  declared_tunnel-IsSound origin =
      let response = new_response platform origin x.request x.tunnel_id x.pairing x.desk in
      declare_file-IsSound platform (paired_tunnel platform x) x.phone x.file x.declaring
        {r = ((declared_tunnel platform x), (new_file platform x).descriptor)} declares
        (claim_tunnel-IsSound platform (waiting_tunnel platform x) (secret platform x) x.claiming
          {r = ((paired_tunnel platform x), (phone_capability platform x))} claims
          (create_tunnel-IsSound platform origin x.request x.tunnel_id x.pairing x.desk
            {r = ((waiting_tunnel platform x), response)} (creates origin)))

  module _ (s : AppState) where
    abbrev made : AppState
    made = (handle platform s (Request.create x.request x.tunnel_id x.pairing x.desk)).0

    made_at : get same_id x.tunnel_id made.tunnels ≡ some (waiting_tunnel platform x)
    made_at =
        inserted platform s x.request x.tunnel_id x.pairing x.desk (waiting_tunnel platform x)
          (new_response platform s.portal_origin x.request x.tunnel_id x.pairing x.desk)
          (creates s.portal_origin)

    abbrev paired : AppState
    paired =
        (handle platform made
          (Request.call x.tunnel_id (Call.claim (secret platform x) x.claiming))).0

    paired_at : get same_id x.tunnel_id paired.tunnels ≡ some (paired_tunnel platform x)
    unfolding serve
    paired_at =
        (served platform made x.tunnel_id (Call.claim (secret platform x) x.claiming)
          (waiting_tunnel platform x)
          (
            (paired_tunnel platform x),
            ok (Response.claimed (phone_capability platform x) (expires_at platform x)),
          )
          {credentials = none} made_at refl (rw claims refl)).1

    abbrev declared : AppState
    declared =
        (handle platform paired
          (Request.call x.tunnel_id (Call.declare x.phone x.file x.declaring))).0

    declared_at : get same_id x.tunnel_id declared.tunnels ≡ some (declared_tunnel platform x)
    unfolding serve
    declared_at =
        (served platform paired x.tunnel_id (Call.declare x.phone x.file x.declaring)
          (paired_tunnel platform x)
          ((declared_tunnel platform x), ok (Response.declared (new_file platform x).descriptor))
          {credentials = some (token_hash platform (phone_capability platform x))} paired_at
          (ap supplied_hash proper.phone_shows) (rw declares refl)).1

    abbrev upload : Upload
    upload = record {
      supplied = token_hash platform (phone_capability platform x);
      range = whole x.file.size_bytes;
      bytes = flatten x.chunks;
    }

    size_fits : x.file.size_bytes ≤ u64_max
    unfolding publish
    size_fits =
        let sound = declared_tunnel-IsSound s.portal_origin in
        let limited =
          (All-get same_id (FileIsSound x.request.max_file_bytes) x.declaring.first
            (declared_tunnel platform x).files (new_file platform x) sound.files_sound
            stored_file).limited in
        omega (arith, limited, sound.limit_fits)

    received :
        receive_upload platform
          (declared_tunnel platform x)
          x.phone
          x.declaring.first
          none
          (map some x.chunks)
          x.first
        ≡ ok upload
    unfolding publish
    received =
        receive_upload_lem platform (declared_tunnel platform x)
          (token_hash platform (phone_capability platform x)) x.phone x.declaring.first x.first
          (new_file platform x) x.chunks proper.phone_shows
          (find_upload_lem platform (declared_tunnel platform x)
            (token_hash platform (phone_capability platform x)) x.phone x.declaring.first x.first
            (new_file platform x) proper.begun_in_time (inl refl) refl stored_file)
          size_fits proper.sized

    begun :
        begin_upload platform declared x.tunnel_id x.declaring.first x.phone none
          (map some x.chunks)
          x.first
        ≡ ok upload
    unfolding begin_upload
    begun = rw (proper.phone_shows, declared_at) received

    abbrev sent_tunnel : Tunnel
    sent_tunnel =
        (upload_file platform (declared_tunnel platform x) (declared_tunnel platform x) x.phone
          x.declaring.first none (map some x.chunks) x.first x.second x.progress x.available).0

    abbrev sent : AppState
    sent = ((stored_after platform x) declared (ok upload)).0

    sent_at : get same_id x.tunnel_id sent.tunnels ≡ some sent_tunnel
    unfolding finish_upload upload_file
    sent_at =
        written declared x.tunnel_id
          (λ t. store_upload platform t x.declaring.first upload x.second x.progress x.available)
          (declared_tunnel platform x) declared_at
        ∙ ap
            (λ r.
              some
                (store_received platform (declared_tunnel platform x) x.declaring.first x.second
                  x.progress x.available r).0)
            (sym received)

    delivered :
        (r : Tunnel × Download) × (download_file platform sent_tunnel x.desktop x.declaring.first
            x.third x.downloaded
          ≡ ok r)
        × (r.1.content ≡ flatten x.chunks)
    unfolding publish new
    delivered =
        (upload_then_download platform (declared_tunnel platform x) x.phone x.desktop
          (token_hash platform (phone_capability platform x)) x.declaring.first
          (new_file platform x) x.chunks x.first x.second x.third x.progress x.available
          x.downloaded (declared_tunnel-IsSound s.portal_origin) proper.begun_in_time
          proper.stored_in_time proper.downloaded_in_time (inl refl) proper.phone_shows refl
          proper.desktop_shows stored_file refl proper.sized).1

    -- The one file of the tunnel, once it was sent.
    sent_file : (f : StoredFile) × (sent_tunnel.files ≡ (x.declaring.first, f) ∷ [])
    unfolding publish new put
    sent_file =
        let p = token_hash platform (phone_capability platform x) in
        let found = λ (now : ℕ) (live : now < (expires_at platform x)).
          find_upload_lem platform (declared_tunnel platform x) p x.phone x.declaring.first now
            (new_file platform x) live (inl refl) refl stored_file in
        let outcome : AppendOutcome = record {
          offset = x.file.size_bytes;
          complete = true;
          replayed = false;
        } in
        let buffer : UploadBuffer = record {
          total = x.file.size_bytes;
          bytes = flatten x.chunks;
        } in
        let after = after_outcome (new_file platform x) buffer outcome in
        let (_, _, _, _, files) =
          announced (with_file (declared_tunnel platform x) x.declaring.first after)
            x.declaring.first outcome (not (is_complete (new_file platform x).upload) && true)
            x.progress x.available refl in
        (
          after,
          ap (λ r. r.0.files)
                (upload_whole platform (declared_tunnel platform x) x.phone p x.declaring.first
                  (new_file platform x) x.chunks x.first x.second x.progress x.available
                  proper.phone_shows (found x.first proper.begun_in_time)
                  (found x.second proper.stored_in_time) refl size_fits refl proper.sized)
              ∙ files
              ∙ rw ((==_iff x.declaring.first x.declaring.first).1 refl) refl,
        )

    closes :
        (r : Tunnel × Download)
        → download_file platform sent_tunnel x.desktop x.declaring.first x.third x.downloaded ≡ ok r
        → r.0.status ≡ TunnelStatus.complete
    unfolding publish get
    closes r accepted =
        let (f, alone) = sent_file in
        let found : get same_id x.declaring.first sent_tunnel.files ≡ some f =
          rw alone (rw ((==_iff x.declaring.first x.declaring.first).1 refl) refl) in
        let (_, _, _, _, e) =
          download_accepted platform sent_tunnel x.desktop x.declaring.first x.third x.downloaded f
            {r = r} found accepted in
        ap (λ u. u.status) e ∙ alone-closes sent_tunnel x.declaring.first f alone

-- Whatever else is in the table: a desktop creates a tunnel, a phone claims it with the secret of that
-- tunnel, declares a file that the tunnel accepts and sends it, cut into chunks in any way, and the
-- desktop downloads it, all in time and with the capabilities that were given out. Then the download is
-- answered with the bytes that were sent, and the tunnel is complete.
pub session_delivers :
    (platform : Platform) (x : Script) (s : AppState)
    → IsProper platform x
    → let (s', answer) = session platform x s in
      (d : Download) × (t : Tunnel) × (answer ≡ ok (content d))
      × (d.content ≡ flatten x.chunks)
      × (get same_id x.tunnel_id s'.tunnels ≡ some t)
      × (t.status ≡ TunnelStatus.complete)
unfolding session serve
session_delivers platform x s proper =
    let (r, accepted, same) = delivered platform x proper s in
    let last = Call.download x.declaring.first x.desktop x.third x.downloaded in
    let whole_upload =
      ap
        (λ u.
          handle platform (stored_after platform x (declared platform x proper s) u).0
            (Request.call x.tunnel_id last))
        (begun platform x proper s) in
    let (answer, there) =
      served platform (sent platform x proper s) x.tunnel_id last (sent_tunnel platform x proper s)
        (r.0, ok (content r.1))
        {credentials = some (token_hash platform (desktop_capability platform x))}
        (sent_at platform x proper s) (ap supplied_hash proper.desktop_shows) (rw accepted refl) in
    (
      r.1,
      r.0,
      ap (λ q. q.1) whole_upload ∙ answer,
      same,
      ap (λ q. get same_id x.tunnel_id q.0.tunnels) whole_upload ∙ there,
      closes platform x proper s r accepted,
    )
