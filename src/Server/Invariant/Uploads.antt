-- ===== src/Server/Invariant/Uploads.antt =====
-- `upload_file` keeps a tunnel sound, whatever happened to it between the two looks.
use ftnl_backend_api_rs.Base.{
  ℕ, ◌≤◌, Bool, true, false, List, Option, none, some, ◌≡◌, refl, ap, ◌∙◌, sym, Result, ok, err,
  arith, ok_or-eq-ok, All-get, get, map_err,
}
use mathlib.Core.Path.{subst}
use ftnl_backend_api_rs.Text.Decimal.{u64_max}
use ftnl_backend_api_rs.Protocol.Quint.{InTransfer}
use ftnl_backend_api_rs.Resumable.Range.{ContentRange, InBounds, RangeError, parse, whole-InBounds}
use ftnl_backend_api_rs.Resumable.Range.Spelling.{parse_iff}
use ftnl_backend_api_rs.Resumable.Upload.{AppendOutcome, UploadBuffer, UploadError, append}
use ftnl_backend_api_rs.Resumable.Upload.Outcomes.{append_error_unchanged}
use ftnl_backend_api_rs.Server.{Platform, StoredFile, Tunnel, Stamp, ApiError, same_id}
use ftnl_backend_api_rs.Server.Transfers.{
  Upload, requested_range, store_upload, store_found, store_received, upload_file, receive_upload,
  find_upload, with_file, after_outcome, finish_append, announce_progress, announce_available,
}
use ftnl_backend_api_rs.Server.Accepted.{find_accepted, receive_found, receive_accepted}
use ftnl_backend_api_rs.Server.Invariant.{IsSound, FileIsSound, is_some, publish-IsSound}
use ftnl_backend_api_rs.Server.Invariant.Files.{after_outcome-FileIsSound}
use ftnl_backend_api_rs.Server.Invariant.Calls.{with_file-IsSound, IsSound-phone}

announce_progress-IsSound :
    (t : Tunnel) (file_id at : ℕ) (complete replayed : Bool) (stamp : Stamp)
    → is_some t.phone_hash ≡ true
    → IsSound t
    → IsSound (
        announce_progress t file_id
          (record { offset = at; complete = complete; replayed = replayed })
          stamp)
announce_progress-IsSound t file_id at complete true stamp h s = s
announce_progress-IsSound t file_id at complete false stamp h s =
    publish-IsSound _ _ _ _ _ stamp (record {
      files_sound = s.files_sound;
      limit_fits = s.limit_fits;
      tickets_distinct = s.tickets_distinct;
      file_limit = s.file_limit;
      exchange = s.exchange;
      phase = h;
    })

announce_available-IsSound :
    (t : Tunnel) (file_id : ℕ) (o : AppendOutcome) (became_complete : Bool) (stamp : Stamp)
    → IsSound t
    → IsSound (announce_available t file_id o became_complete stamp)
announce_available-IsSound t file_id o true stamp s = publish-IsSound _ _ _ _ _ stamp s
announce_available-IsSound t file_id o false stamp s = s

announce-IsSound :
    (t : Tunnel) (file_id : ℕ) (o : AppendOutcome) (became_complete : Bool)
    (progress available : Stamp)
    → is_some t.phone_hash ≡ true
    → IsSound t
    → IsSound (
        announce_available
          (announce_progress t file_id o progress)
          file_id
          o
          became_complete
          available)
announce-IsSound t file_id o became_complete progress available h s =
    announce_available-IsSound _ file_id o became_complete available
      (announce_progress-IsSound t file_id o.offset o.complete o.replayed progress h s)

finish_append-IsSound :
    (t : Tunnel) (file_id : ℕ) (stored : StoredFile) (upload : Upload) (progress available : Stamp)
    (p : UploadBuffer × Result AppendOutcome UploadError)
    → append stored.upload upload.range upload.bytes ≡ p
    → get same_id file_id t.files ≡ some stored
    → InTransfer t.status
    → InBounds upload.range
    → IsSound t
    → IsSound (finish_append t file_id stored progress available p).0
finish_append-IsSound t file_id stored upload progress available (u, err e) h found transfer bounds
      s =
    let same =
      ap (λ q. q.0) (sym h)
      ∙ append_error_unchanged stored.upload upload.range upload.bytes {e = e} (ap (λ q. q.1) h) in
    let sound =
      All-get same_id (FileIsSound t.max_file_bytes) file_id t.files stored s.files_sound found in
    with_file-IsSound t file_id stored (record stored { upload = u }) found transfer
      (subst (λ b. FileIsSound t.max_file_bytes (record stored { upload = b })) (sym same) sound) s
finish_append-IsSound t file_id stored upload progress available (u, ok o) h found transfer bounds
      s =
    let sound =
      All-get same_id (FileIsSound t.max_file_bytes) file_id t.files stored s.files_sound found in
    let after =
      after_outcome-FileIsSound t.max_file_bytes stored upload.range upload.bytes o bounds
        (ap (λ q. q.1) h) sound in
    announce-IsSound (with_file t file_id (after_outcome stored u o)) file_id o _ progress available
      (IsSound-phone t s transfer)
      (with_file-IsSound t file_id stored (after_outcome stored u o) found transfer
        (subst (λ b. FileIsSound t.max_file_bytes (after_outcome stored b o)) (ap (λ q. q.0) h)
          after)
        s)

module _ (platform : Platform) where
  pub map_err-eq-ok :
      (r : Result ContentRange RangeError) (f : RangeError → ApiError) {range : ContentRange}
      → map_err f r ≡ ok range
      → r ≡ ok range
  map_err-eq-ok (ok range) f h = ground arith
  map_err-eq-ok (err e) f h = absurd (ground arith)

  requested_range-InBounds :
      (content_range : Option (List ℕ)) (size : ℕ) {range : ContentRange}
      → size ≤ u64_max
      → requested_range platform content_range size ≡ ok range
      → InBounds range
  unfolding requested_range
  requested_range-InBounds none size h e = subst InBounds (ground arith) (whole-InBounds size h)
  requested_range-InBounds (some header) size {range} h e =
      let (value, _, q) = ok_or-eq-ok (platform.to_str header) _ _ e in
      ((parse_iff value size range).0 (map_err-eq-ok (parse value size) _ q)).3

  store_found-IsSound :
      (t : Tunnel) (file_id : ℕ) (upload : Upload) (now : ℕ) (progress available : Stamp)
      (found : Result StoredFile ApiError)
      → find_upload platform t upload.supplied file_id now ≡ found
      → InBounds upload.range
      → IsSound t
      → IsSound (store_found t file_id upload progress available found).0
  store_found-IsSound t file_id upload now progress available (err e) h bounds s = s
  store_found-IsSound t file_id upload now progress available (ok stored) h bounds s =
      let (transfer, _, found) =
        find_accepted platform t upload.supplied file_id now {stored = stored} h in
      finish_append-IsSound t file_id stored upload progress available _ refl found transfer bounds
        s

  pub store_upload-IsSound :
      (t : Tunnel) (file_id : ℕ) (upload : Upload) (now : ℕ) (progress available : Stamp)
      → InBounds upload.range
      → IsSound t
      → IsSound (store_upload platform t file_id upload now progress available).0
  unfolding store_upload
  store_upload-IsSound t file_id upload now progress available =
      store_found-IsSound t file_id upload now progress available _ refl

  pub receive-InBounds :
      (t : Tunnel) (authorization : Option (List ℕ)) (file_id : ℕ) (content_range : Option (List ℕ))
      (body : List (Option (List ℕ))) (now : ℕ) (u : Upload)
      → receive_upload platform t authorization file_id content_range body now ≡ ok u
      → IsSound t
      → InBounds u.range
  receive-InBounds t authorization file_id content_range body now u h s =
      let (stored, found) =
        receive_found platform t authorization file_id content_range body now {u = u} h in
      let sound =
        All-get same_id (FileIsSound t.max_file_bytes) file_id t.files stored s.files_sound found in
      requested_range-InBounds content_range stored.descriptor.size_bytes
        (omega (arith, sound.limited, s.limit_fits))
        (receive_accepted platform t authorization file_id content_range body now stored {u = u}
          found h)

  store_received-IsSound :
      (before t : Tunnel) (authorization : Option (List ℕ)) (file_id : ℕ)
      (content_range : Option (List ℕ)) (body : List (Option (List ℕ))) (first second : ℕ)
      (progress available : Stamp) (received : Result Upload ApiError)
      → receive_upload platform before authorization file_id content_range body first ≡ received
      → IsSound before
      → IsSound t
      → IsSound (store_received platform t file_id second progress available received).0
  store_received-IsSound before t a file_id c body first second progress available (err e) h b s = s
  store_received-IsSound before t a file_id c body first second progress available (ok u) h b s =
      store_upload-IsSound t file_id u second progress available
        (receive-InBounds before a file_id c body first u h b) s

  pub upload_file-IsSound :
      (before t : Tunnel) (authorization : Option (List ℕ)) (file_id : ℕ)
      (content_range : Option (List ℕ)) (body : List (Option (List ℕ))) (first second : ℕ)
      (progress available : Stamp)
      → IsSound before
      → IsSound t
      → IsSound
          (upload_file platform before t authorization file_id content_range body first second
            progress available).0
  unfolding upload_file
  upload_file-IsSound before t a file_id c body first second progress available =
      store_received-IsSound before t a file_id c body first second progress available _ refl
