-- ===== src/Server/Refinement/Stores.antt =====
-- What the second look of an upload (src/lib.rs) makes of a tunnel.
use mathlib.Core.Path.{subst}
use ftnl_backend_api_rs.Base.{
  ℕ, ◌<◌, Bool, true, false, not, ◌&&◌, List, Option, some, none, ok_or-eq-ok, append-nil, ◌≡◌, ◌⊎◌,
  refl, sym, ap, ◌∙◌, Result, ok, err, inl, inr, arith, Bool-cases, if◌then◌else◌, [], get, put,
  put-get, All-get,
}
use ftnl_backend_api_rs.Protocol.{transferring}
use ftnl_backend_api_rs.Protocol.Quint.{InTransfer}
use ftnl_backend_api_rs.Resumable.Range.{ContentRange, InBounds, parse, whole}
use ftnl_backend_api_rs.Resumable.Range.Spelling.{parse_iff}
use ftnl_backend_api_rs.Server.Refinement.Runs.{HasBytes}
use ftnl_backend_api_rs.Server.Invariant.Uploads.{map_err-eq-ok, receive-InBounds}
use ftnl_backend_api_rs.Resumable.Upload.{
  AppendOutcome, UploadBuffer, UploadError, append, commit, replay, is_complete, extend,
}
use ftnl_backend_api_rs.Resumable.Upload.Outcomes.{append_error_unchanged, append_reports}
use ftnl_backend_api_rs.Server.{
  Platform, FileStatus, StoredFile, Tunnel, Stamp, ApiError, publish, same_id,
}
use ftnl_backend_api_rs.Server.Transfers.{
  Upload, receive_upload, requested_range, store_upload, store_found, find_upload, finish_append,
  after_outcome, with_file, announce_progress, announce_available, is_downloaded,
}
use ftnl_backend_api_rs.Server.Accepted.{find_accepted, receive_found, receive_accepted}
use ftnl_backend_api_rs.Server.Invariant.{FileIsSound, StatusAgrees, IsSound}
use ftnl_backend_api_rs.Server.Refinement.Abstract.{IsCareful, is_available, was_downloaded}

-- A chunk was put behind the bytes of one file.
pub record Advances (t t' : Tunnel) : Type 0 where
  pub file_id : ℕ
  pub before : StoredFile
  pub after : StoredFile
  pub in_transfer : InTransfer t.status
  pub found : get same_id file_id t.files ≡ some before
  pub incomplete : is_available before ≡ false
  pub undelivered : was_downloaded before ≡ false
  pub still_undelivered : was_downloaded after ≡ false
  pub same_size : after.descriptor.size_bytes ≡ before.descriptor.size_bytes
  pub status : t'.status ≡ transferring
  pub pairing : t'.pairing_hash ≡ t.pairing_hash
  pub phone : t'.phone_hash ≡ t.phone_hash
  pub tickets : t'.event_tickets ≡ t.event_tickets
  pub files : t'.files ≡ put same_id file_id after t.files

extend-nil : (b : UploadBuffer) → extend b [] ≡ b
extend-nil b = ap (λ l. record b { bytes = l }) (append-nil b.bytes)

-- A chunk that is not a replay, of a range that is not empty, found the file incomplete.
progress-incomplete :
    (b : UploadBuffer) (r : ContentRange) (chunk : List ℕ) (o : AppendOutcome)
    → InBounds r
    → r.start < r.end_exclusive
    → (append b r chunk).1 ≡ ok o
    → o.replayed ≡ false
    → is_complete b ≡ false
unfolding append commit replay
progress-incomplete b r chunk o bounds lt h fresh = ground arith

incomplete-undelivered :
    (limit : ℕ) (f : StoredFile)
    → FileIsSound limit f
    → is_available f ≡ false
    → was_downloaded f ≡ false
incomplete-undelivered limit f s h = undelivered f.descriptor.status s.agrees
  where
    undelivered : (status : FileStatus) → StatusAgrees status f → is_downloaded status ≡ false
    undelivered FileStatus.declared a = refl
    undelivered FileStatus.uploading a = refl
    undelivered FileStatus.available a = refl
    undelivered FileStatus.downloaded a = sym a ∙ h
    undelivered FileStatus.rejected a = refl
    undelivered FileStatus.cancelled a = refl

after-undelivered :
    (f : StoredFile) (u : UploadBuffer) (o : AppendOutcome)
    → o.replayed ≡ false
    → was_downloaded (after_outcome f u o) ≡ false
after-undelivered f u o e = rw e (either o.complete)
  where
    either :
        (b : Bool)
        → is_downloaded (if b then FileStatus.available else FileStatus.uploading) ≡ false
    either true = refl
    either false = refl

after-size :
    (f : StoredFile) (u : UploadBuffer) (o : AppendOutcome)
    → (after_outcome f u o).descriptor.size_bytes ≡ f.descriptor.size_bytes
after-size f u o = elim (Bool-cases o.replayed) [ inl e ↦ rw e refl | inr e ↦ rw e refl ]

-- The fields that the announcements touch, when there was progress.
pub announced :
    (u : Tunnel) (file_id : ℕ) (o : AppendOutcome) (became_complete : Bool)
    (progress available : Stamp)
    → o.replayed ≡ false
    → let t' =
        announce_available
          (announce_progress u file_id o progress)
          file_id
          o
          became_complete
          available in
      (t'.status ≡ transferring)
      × (t'.pairing_hash ≡ u.pairing_hash)
      × (t'.phone_hash ≡ u.phone_hash)
      × (t'.event_tickets ≡ u.event_tickets)
      × (t'.files ≡ u.files)
unfolding publish
announced u file_id o true progress available e = rw e (refl, refl, refl, refl, refl)
announced u file_id o false progress available e = rw e (refl, refl, refl, refl, refl)

not-and_self : (b : Bool) → (not b && b) ≡ false
not-and_self true = refl
not-and_self false = refl

module _ (t : Tunnel) (s : IsSound t) (file_id : ℕ) (stored : StoredFile)
    (found : get same_id file_id t.files ≡ some stored) where
  -- The same file is written back.
  rewritten :
      (u : UploadBuffer)
      → u ≡ stored.upload
      → with_file t file_id (record stored { upload = u }) ≡ t
  rewritten u e =
      ap (λ b. with_file t file_id (record stored { upload = b })) e
      ∙ ap (λ m. record t { files = m }) (put-get same_id file_id stored t.files found)

  replayed_rests :
      (u : UploadBuffer) (o : AppendOutcome) (progress available : Stamp)
      → u ≡ stored.upload
      → o.complete ≡ is_complete u
      → o.replayed ≡ true
      → (finish_append t file_id stored progress available (u, ok o)).0 ≡ t
  replayed_rests u o progress available same complete again =
      let quiet : (not (is_complete stored.upload) && o.complete) ≡ false =
        ap (λ b. not (is_complete stored.upload) && b) (complete ∙ ap is_complete same)
        ∙ not-and_self (is_complete stored.upload) in
      rw (again, quiet) (rewritten u same)

  finish_append_effect :
      (range : ContentRange) (chunk : List ℕ) (progress available : Stamp)
      (p : UploadBuffer × Result AppendOutcome UploadError)
      → append stored.upload range chunk ≡ p
      → InTransfer t.status
      → InBounds range
      → range.start < range.end_exclusive
      → let t' = (finish_append t file_id stored progress available p).0 in (t' ≡ t) ⊎ Advances t t'
  finish_append_effect range chunk progress available (u, err e) h live bounds lt = inl (
      rewritten u (
        ap (λ q. q.0) (sym h)
        ∙ append_error_unchanged stored.upload range chunk {e = e} (ap (λ q. q.1) h)))
  finish_append_effect range chunk progress available (u, ok o) h live bounds lt =
      let result = ap (λ q. q.1) h in
      let (bytes, _, complete) = append_reports stored.upload range chunk o bounds result in
      let became_complete = not (is_complete stored.upload) && o.complete in
      elim (Bool-cases o.replayed) [
        | inl again ↦ inl (
            replayed_rests u o progress available
              (sym (ap (λ q. q.0) h) ∙ bytes ∙ rw again (extend-nil stored.upload))
              (complete ∙ ap (λ q. is_complete q.0) h) again)
        | inr fresh ↦
            let incomplete =
              progress-incomplete stored.upload range chunk o bounds lt result fresh in
            let (status, pairing, phone, tickets, files) =
              announced (with_file t file_id (after_outcome stored u o)) file_id o became_complete
                progress available fresh in
            inr (record {
              file_id = file_id;
              before = stored;
              after = after_outcome stored u o;
              in_transfer = live;
              found = found;
              incomplete = incomplete;
              undelivered =
                  incomplete-undelivered t.max_file_bytes stored
                    (All-get same_id (FileIsSound t.max_file_bytes) file_id t.files stored
                      s.files_sound found)
                    incomplete;
              still_undelivered = after-undelivered stored u o fresh;
              same_size = after-size stored u o;
              status = status;
              pairing = pairing;
              phone = phone;
              tickets = tickets;
              files = files;
            })
      ]

-- A second look leaves the tunnel as it was, or puts the chunk behind the bytes of one file.
pub store_upload_effect :
    (platform : Platform) (t : Tunnel) (file_id : ℕ) (u : Upload) (now : ℕ)
    (progress available : Stamp)
    → IsSound t
    → InBounds u.range
    → u.range.start < u.range.end_exclusive
    → let t' = (store_upload platform t file_id u now progress available).0 in
      (t' ≡ t) ⊎ Advances t t'
unfolding store_upload
store_upload_effect platform t file_id u now progress available s bounds lt =
    effect (find_upload platform t u.supplied file_id now) refl
  where
    effect :
        (found : Result StoredFile ApiError)
        → find_upload platform t u.supplied file_id now ≡ found
        → let t' = (store_found t file_id u progress available found).0 in (t' ≡ t) ⊎ Advances t t'
    effect (err e) h = inl refl
    effect (ok stored) h =
        let (live, _, found) =
          find_accepted platform t u.supplied file_id now {stored = stored} h in
        finish_append_effect t s file_id stored found u.range u.bytes progress available _ refl live
          bounds lt

module _ (platform : Platform) where
  requested_range-nonempty :
      (content_range : Option (List ℕ)) (size : ℕ) {range : ContentRange}
      → 0 < size
      → requested_range platform content_range size ≡ ok range
      → range.start < range.end_exclusive
  unfolding requested_range whole
  requested_range-nonempty none size {range} h e =
      let same : whole size ≡ range = ground arith in
      subst (λ (r : ContentRange). r.start < r.end_exclusive) same h
  requested_range-nonempty (some header) size {range} h e =
      let (value, _, q) = ok_or-eq-ok (platform.to_str header) _ _ e in
      ((parse_iff value size range).0 (map_err-eq-ok platform (parse value size) _ q)).2

  -- The first look takes no empty range of a file with bytes.
  pub receive-IsNonempty :
      (t : Tunnel)
      → IsCareful t
      → (authorization : Option (List ℕ)) (file_id : ℕ) (content_range : Option (List ℕ))
        (body : List (Option (List ℕ))) (now : ℕ) (u : Upload)
      → receive_upload platform t authorization file_id content_range body now ≡ ok u
      → InBounds u.range × (u.range.start < u.range.end_exclusive)
  receive-IsNonempty t k authorization file_id content_range body now u h =
      let (stored, found) =
        receive_found platform t authorization file_id content_range body now {u = u} h in
      let filled = All-get same_id HasBytes file_id t.files stored k.filled found in
      (
        receive-InBounds platform t authorization file_id content_range body now u h k.sound,
        requested_range-nonempty content_range stored.descriptor.size_bytes (ground (arith, filled))
            (receive_accepted platform t authorization file_id content_range body now stored {u = u}
              found h),
      )
