-- ===== src/Server/Transfers.antt =====
-- The uploads and downloads of src/lib.rs. `upload_file` looks at the tunnel twice, and other calls
-- may come between: it takes the tunnel as it is at the first and at the second look.
use ftnl_backend_api_rs.Base.{
  ℕ, ◌+◌, Bool, true, false, not, ◌&&◌, List, [], ◌∷◌, ◌++◌, Option, none, some, leb, ltb, ◌==◌,
  Result, ok, err, ◌>>◌, ◌>>=◌, ok_or, map_err, reject_if, if◌then◌else◌, length, all, get, put,
  values,
}
use ftnl_backend_api_rs.Text.{Str, codes}
use ftnl_backend_api_rs.Text.Decimal.{decimal, u64_max}
use ftnl_backend_api_rs.Protocol.{TunnelStatus, Operation}
use ftnl_backend_api_rs.Resumable.Range.{ContentRange, parse, whole, len}
use ftnl_backend_api_rs.Resumable.Upload.{
  AppendOutcome, UploadBuffer, UploadError, append, offset, is_complete, try_usize,
}
use ftnl_backend_api_rs.Resumable.Messages.{range_error_text, upload_error_text}
use ftnl_backend_api_rs.Server.{
  Platform, Digest, FileStatus, StoredFile, Tunnel, ApiError, invalid, invalid_range,
  upload_conflict, not_found, conflict, too_large, Stamp, publish, same_id,
}
use ftnl_backend_api_rs.Server.Access.{ensure_active, bearer_hash, require_desktop, require_phone}

unfoldable pub map_upload_error : UploadError → ApiError
map_upload_error (UploadError.body_length expected actual) =
    invalid_range (upload_error_text (UploadError.body_length expected actual))
map_upload_error UploadError.chunk_too_large =
    invalid_range (upload_error_text UploadError.chunk_too_large)
map_upload_error (UploadError.total_changed expected actual) =
    upload_conflict (upload_error_text (UploadError.total_changed expected actual))
map_upload_error (UploadError.gap expected_start actual_start) =
    upload_conflict (upload_error_text (UploadError.gap expected_start actual_start))
map_upload_error (UploadError.partial_overlap committed start end_exclusive) =
    upload_conflict (upload_error_text (UploadError.partial_overlap committed start end_exclusive))
map_upload_error (UploadError.conflicting_replay start end_exclusive) =
    upload_conflict (upload_error_text (UploadError.conflicting_replay start end_exclusive))

-- Status code and the two headers.
pub record UploadResponse : Type 0 where
  pub status : ℕ
  pub upload_offset : Str
  pub upload_complete : Str

-- The decimal text of an offset is always a valid header value.
unfoldable pub upload_response : AppendOutcome → UploadResponse
upload_response outcome = record {
  status = if outcome.complete then 204 else 308;
  upload_offset = decimal outcome.offset;
  upload_complete = if outcome.complete then codes "true" else codes "false";
}

-- `usize::saturating_add`
abbrev saturating_add : ℕ → ℕ → ℕ
saturating_add a b = if leb (a + b) u64_max then a + b else u64_max

-- The loop over the stream: `none` is a chunk that could not be read.
unfoldable pub read_body :
    ContentRange → ℕ → List ℕ → List (Option (List ℕ)) → Result (List ℕ) ApiError
read_body range expected_chunk_len bytes [] = do
  reject_if (not (length bytes == expected_chunk_len)) (
      invalid_range (
        codes "request body contains "
        ++ decimal (length bytes)
        ++ codes " bytes; range requires "
        ++ decimal (len range)))
  ok bytes
read_body range expected_chunk_len bytes (none ∷ stream) =
    err (invalid (codes "invalid request body"))
read_body range expected_chunk_len bytes (some chunk ∷ stream) = do
  reject_if (ltb expected_chunk_len (saturating_add (length bytes) (length chunk)))
      (invalid_range (codes "request body exceeds declared range length " ++ decimal (len range)))
  read_body range expected_chunk_len (bytes ++ chunk) stream

pub record Upload : Type 0 where
  pub supplied : Digest
  pub range : ContentRange
  pub bytes : List ℕ

-- The descriptor after progress.
abbrev pub after_outcome : StoredFile → UploadBuffer → AppendOutcome → StoredFile
after_outcome stored upload outcome =
    if outcome.replayed then record stored { upload = upload } else record {
      descriptor = record stored.descriptor {
        bytes_transferred = outcome.offset;
        status = if outcome.complete then FileStatus.available else FileStatus.uploading;
      };
      upload = upload;
    }

abbrev pub with_file : Tunnel → ℕ → StoredFile → Tunnel
with_file t file_id stored = record t { files = put same_id file_id stored t.files }

abbrev pub announce_progress : Tunnel → ℕ → AppendOutcome → Stamp → Tunnel
announce_progress t file_id outcome stamp =
    if outcome.replayed
    then t
    else publish (record t { status = TunnelStatus.transferring }) (codes "file.progress")
        (some file_id) (some outcome.offset) none stamp

abbrev pub announce_available : Tunnel → ℕ → AppendOutcome → Bool → Stamp → Tunnel
announce_available t file_id outcome became_complete stamp =
    if became_complete
    then publish t (codes "file.available") (some file_id) (some outcome.offset) none stamp
    else t

abbrev pub finish_append :
    Tunnel
    → ℕ
    → StoredFile
    → Stamp
    → Stamp
    → UploadBuffer × Result AppendOutcome UploadError
    → Tunnel × Result UploadResponse ApiError
finish_append t file_id stored progress available (upload, err error) =
    (with_file t file_id (record stored { upload = upload }), err (map_upload_error error))
finish_append t file_id stored progress available (upload, ok outcome) =
    let updated = with_file t file_id (after_outcome stored upload outcome) in
    let became_complete = not (is_complete stored.upload) && outcome.complete in
    (
      announce_available (announce_progress updated file_id outcome progress) file_id outcome
          became_complete available,
      ok (upload_response outcome),
    )

pub record Download : Type 0 where
  pub media_type : Str
  pub content : List ℕ

abbrev pub is_downloaded : FileStatus → Bool
is_downloaded FileStatus.downloaded = true
is_downloaded _ = false

abbrev pub mark_downloaded : StoredFile → StoredFile
mark_downloaded stored = record stored {
  descriptor = record stored.descriptor { status = FileStatus.downloaded };
}

-- The tunnel is complete once each of its files was downloaded.
abbrev pub close_if_done : Tunnel → Tunnel
close_if_done t =
    if all (λ file. is_downloaded file.descriptor.status) (values t.files)
    then record t { status = TunnelStatus.complete; event_tickets = [] }
    else t

abbrev pub store_found :
    Tunnel
    → ℕ
    → Upload
    → Stamp
    → Stamp
    → Result StoredFile ApiError
    → Tunnel × Result UploadResponse ApiError
store_found t file_id upload progress available (err e) = (t, err e)
store_found t file_id upload progress available (ok stored) =
    finish_append t file_id stored progress available
      (append stored.upload upload.range upload.bytes)

module _ (platform : Platform) where
  -- The range that the request names, or the whole file.
  unfoldable pub requested_range : Option (List ℕ) → ℕ → Result ContentRange ApiError
  requested_range none expected_size = ok (whole expected_size)
  requested_range (some header) expected_size = do
    value ← ok_or (platform.to_str header) (invalid_range (codes "Content-Range is not ASCII"))
    map_err (λ error. invalid_range (range_error_text error)) (parse value expected_size)

  -- The checks of the first look at the tunnel.
  abbrev pub find_upload : Tunnel → Digest → ℕ → ℕ → Result StoredFile ApiError
  find_upload t supplied file_id now = do
    ensure_active t now
    require_phone platform t supplied Operation.upload_file
    ok_or (get same_id file_id t.files) not_found

  -- The checks of the second look, which repeat those of the first.
  abbrev find_again : Tunnel → Digest → ℕ → ℕ → Result StoredFile ApiError
  find_again t supplied file_id now = do
    ensure_active t now
    require_phone platform t supplied Operation.upload_file
    ok_or (get same_id file_id t.files) not_found

  -- The checks of `upload_status`.
  abbrev find_status : Tunnel → Digest → ℕ → ℕ → Result StoredFile ApiError
  find_status t supplied file_id now = do
    ensure_active t now
    require_phone platform t supplied Operation.upload_file
    ok_or (get same_id file_id t.files) not_found

  -- The first look at the tunnel, and the request body.
  unfoldable pub receive_upload :
      Tunnel
      → Option (List ℕ)
      → ℕ
      → Option (List ℕ)
      → List (Option (List ℕ))
      → ℕ
      → Result Upload ApiError
  receive_upload t authorization file_id content_range body now = do
    supplied ← bearer_hash platform authorization
    stored ← find_upload t supplied file_id now
    range ← requested_range content_range stored.descriptor.size_bytes
    expected_chunk_len ← ok_or (try_usize (len range)) too_large
    bytes ← read_body range expected_chunk_len [] body
    ok (record { supplied = supplied; range = range; bytes = bytes })

  -- The second look.
  unfoldable pub store_upload :
      Tunnel → ℕ → Upload → ℕ → Stamp → Stamp → Tunnel × Result UploadResponse ApiError
  store_upload t file_id upload now progress available =
      store_found t file_id upload progress available (find_again t upload.supplied file_id now)

  abbrev pub store_received :
      Tunnel
      → ℕ
      → ℕ
      → Stamp
      → Stamp
      → Result Upload ApiError
      → Tunnel × Result UploadResponse ApiError
  store_received t file_id now progress available (err e) = (t, err e)
  store_received t file_id now progress available (ok upload) =
      store_upload t file_id upload now progress available

  -- `before` is the tunnel at the first look, at the instant `first`; `t` at the second.
  unfoldable pub upload_file :
      (before t : Tunnel)
      → Option (List ℕ)
      → ℕ
      → Option (List ℕ)
      → List (Option (List ℕ))
      → (first second : ℕ) → Stamp
      → Stamp
      → Tunnel × Result UploadResponse ApiError
  upload_file before t authorization file_id content_range body first second progress available =
      store_received t file_id second progress available
        (receive_upload before authorization file_id content_range body first)

  unfoldable pub upload_status : Tunnel → Option (List ℕ) → ℕ → ℕ → Result UploadResponse ApiError
  upload_status t authorization file_id now = do
    supplied ← bearer_hash platform authorization
    stored ← find_status t supplied file_id now
    ok (
        upload_response (record {
          offset = offset stored.upload;
          complete = is_complete stored.upload;
          replayed = true;
        }))

  unfoldable pub download_file :
      Tunnel → Option (List ℕ) → ℕ → ℕ → Stamp → Result (Tunnel × Download) ApiError
  download_file t authorization file_id now stamp = do
    supplied ← bearer_hash platform authorization
    ensure_active t now
    require_desktop platform t supplied Operation.download_file
    stored ← ok_or (get same_id file_id t.files) not_found
    reject_if (not (is_complete stored.upload)) conflict
    let content = stored.upload.bytes
    let media_type =
        if platform.header_value_is_valid stored.descriptor.media_type
        then stored.descriptor.media_type
        else codes "application/octet-stream"
    let closed = close_if_done (with_file t file_id (mark_downloaded stored))
    ok (
      publish closed (codes "file.downloaded") (some file_id) (some (length content)) none stamp,
      record { media_type = media_type; content = content },
    )
