-- ===== src/Server/RoundTrip/Resume.antt =====
-- An interrupted upload is resumed from the offset that the probe reports (`upload_status`,
-- `upload_file` and `download_file` of src/lib.rs; docs/resumable-uploads.md).
use ftnl_backend_api_rs.Base.{
  ℕ, ◌-◌, ◌<◌, ◌≤◌, true, false, List, [], ◌++◌, Option, some, length, length-append, length-drop,
  take, drop, take-add, take_all, map, flatten, get, ==_iff, ◌≡◌, refl, sym, ap, ◌∙◌, ok, le→leb,
  All-get, arith,
}
use ftnl_backend_api_rs.Text.{codes}
use ftnl_backend_api_rs.Text.Decimal.{decimal, u64_max}
use ftnl_backend_api_rs.Protocol.Quint.{InTransfer}
use ftnl_backend_api_rs.Resumable.Range.{ContentRange, InBounds, len, len_lem}
use ftnl_backend_api_rs.Resumable.Range.Spelling.{spelling, parse-spelling}
use ftnl_backend_api_rs.Resumable.Upload.{
  AppendOutcome, UploadBuffer, append, commit, extend, offset, is_complete,
}
use ftnl_backend_api_rs.Server.{Platform, Digest, StoredFile, Tunnel, Stamp, same_id}
use ftnl_backend_api_rs.Server.Access.{bearer_hash}
use ftnl_backend_api_rs.Server.Transfers.{
  Download, upload_response, upload_status, requested_range, receive_upload, find_upload,
  store_upload, upload_file, download_file, finish_append, after_outcome,
}
use ftnl_backend_api_rs.Server.Invariant.{IsSound, FileIsSound}
use ftnl_backend_api_rs.Server.RoundTrip.{find_upload_lem, finish_append-IsReady, download_lem}
use ftnl_backend_api_rs.Server.RoundTrip.Body.{read_body_lem}

-- The range from an offset to the end of the file.
abbrev pub rest_of : ℕ → ℕ → ContentRange
rest_of start total = record { start = start; end_exclusive = total; total = total }

append-rest :
    (u : UploadBuffer) (n : ℕ) (chunk : List ℕ)
    → u.total ≡ n
    → offset u < n
    → n ≤ u64_max
    → length chunk ≡ n - offset u
    → append u (rest_of (offset u) n) chunk
      ≡ (extend u chunk, ok (record { offset = n; complete = true; replayed = false }))
unfolding append commit len
append-rest u n chunk total lt fits size = ground (arith, length-append u.bytes chunk)

module _ (platform : Platform) (t : Tunnel) (p : Digest) (phone : Option (List ℕ)) (file_id : ℕ)
    (stored : StoredFile) (header : List ℕ) (chunks : List (List ℕ)) where
  abbrev rest : ContentRange
  rest = rest_of (offset stored.upload) stored.descriptor.size_bytes

  requested-rest :
      platform.to_str header ≡ some (spelling rest)
      → rest.start < rest.end_exclusive
      → InBounds rest
      → requested_range platform (some header) stored.descriptor.size_bytes ≡ ok rest
  unfolding requested_range
  requested-rest text lt bounds = rw (text, parse-spelling rest lt bounds) refl

  receive-rest :
      (now : ℕ)
      → bearer_hash platform phone ≡ ok p
      → find_upload platform t p file_id now ≡ ok stored
      → platform.to_str header ≡ some (spelling rest)
      → rest.start < rest.end_exclusive
      → InBounds rest
      → length (flatten chunks) ≡ rest.end_exclusive - rest.start
      → receive_upload platform t phone file_id (some header) (map some chunks) now
        ≡ ok (record { supplied = p; range = rest; bytes = flatten chunks })
  unfolding receive_upload
  receive-rest now b found text lt bounds size =
      let span = len_lem rest bounds in
      let fits : rest.end_exclusive - rest.start ≤ u64_max =
        omega (arith, bounds.inside, bounds.fits) in
      rw (b, found, requested-rest text lt bounds, span, le→leb _ u64_max fits)
        (rw (read_body_lem rest _ [] chunks fits (omega (arith, size))) refl)

  -- The tunnel and the answer of the rest.
  upload-rest :
      (first second : ℕ) (progress available : Stamp)
      → bearer_hash platform phone ≡ ok p
      → find_upload platform t p file_id first ≡ ok stored
      → find_upload platform t p file_id second ≡ ok stored
      → platform.to_str header ≡ some (spelling rest)
      → rest.start < rest.end_exclusive
      → InBounds rest
      → stored.upload.total ≡ stored.descriptor.size_bytes
      → length (flatten chunks) ≡ rest.end_exclusive - rest.start
      → upload_file platform t t phone file_id
          (some header)
          (map some chunks)
          first
          second
          progress
          available
        ≡ finish_append t file_id stored progress available (
          extend stored.upload (flatten chunks),
          ok (record { offset = stored.descriptor.size_bytes; complete = true; replayed = false }),
        )
  unfolding upload_file store_upload
  upload-rest first second progress available b once twice text lt bounds total size = rw (
    receive-rest first b once text lt bounds size,
    twice,
    append-rest stored.upload stored.descriptor.size_bytes (flatten chunks) total lt bounds.fits
        size,
  )

-- The bytes up to the offset, and the rest, are the whole content.
rejoined :
    (bytes content chunk : List ℕ)
    → bytes ≡ take (length bytes) content
    → chunk ≡ drop (length bytes) content
    → length bytes < length content
    → bytes ++ chunk ≡ content
rejoined bytes content chunk prefix rest lt =
    (λ i. prefix i ++ rest i)
    ∙ sym (
        take-add (length bytes) (length content - length bytes) content
        ∙ ap (λ l. take (length bytes) content ++ l)
            (take_all (length content - length bytes) (drop (length bytes) content)
              (omega (arith, length-drop (length bytes) content))))
    ∙ ap (λ n. take n content) (omega arith)
    ∙ take_all (length content) content (omega arith)

-- The buffer of a file holds the first bytes of a content, and the transfer was interrupted. The probe
-- reports how many there are; the phone sends the rest with the `Content-Range` that begins there, cut
-- into chunks in any way; then the upload is complete, and the desktop downloads the whole content.
pub resume_then_download :
    (platform : Platform) (t : Tunnel) (phone desk : Option (List ℕ)) (p : Digest) (file_id : ℕ)
    (stored : StoredFile) (content header : List ℕ) (chunks : List (List ℕ))
    (probe first second third : ℕ) (progress available downloaded : Stamp)
    → let at = offset stored.upload in
      let size = stored.descriptor.size_bytes in
      IsSound t
      → probe < t.expires_at
      → first < t.expires_at
      → second < t.expires_at
      → third < t.expires_at
      → InTransfer t.status
      → bearer_hash platform phone ≡ ok p
      → t.phone_hash ≡ some p
      → bearer_hash platform desk ≡ ok t.desktop_hash
      → get same_id file_id t.files ≡ some stored
      → length content ≡ size
      → stored.upload.bytes ≡ take at content
      → at < size
      → platform.to_str header ≡ some (spelling (rest_of at size))
      → flatten chunks ≡ drop at content
      → (upload_status platform t phone file_id probe
          ≡ ok (record {
            status = 308;
            upload_offset = decimal at;
            upload_complete = codes "false";
          }))
        × (let (t', answer) =
              upload_file platform t t phone file_id
                (some header)
                (map some chunks)
                first
                second
                progress
                available in
            (answer
              ≡ ok (record {
                status = 204;
                upload_offset = decimal size;
                upload_complete = codes "true";
              }))
            × ((r : Tunnel × Download) × (download_file platform t' desk file_id third downloaded
                  ≡ ok r)
                × (r.1.content ≡ content)))
unfolding upload_status upload_response
resume_then_download platform t phone desk p file_id stored content header chunks probe first second
      third progress available downloaded s live0 live1 live2 live3 transfer bp paired bd found size
      prefix lt text rest =
    let at = offset stored.upload in
    let n = stored.descriptor.size_bytes in
    let sound =
      All-get same_id (FileIsSound t.max_file_bytes) file_id t.files stored s.files_sound found in
    let bounds : InBounds (rest_of at n) = omega (arith, sound.limited, s.limit_fits) in
    let o : AppendOutcome = record { offset = n; complete = true; replayed = false } in
    let u = extend stored.upload (flatten chunks) in
    let t' = (finish_append t file_id stored progress available (u, ok o)).0 in
    let (file, transfer', expiry, owner) =
      finish_append-IsReady t file_id stored progress available u n in
    let whole =
      rejoined stored.upload.bytes content (flatten chunks) prefix rest (omega (arith, size)) in
    let lookup = λ (now : ℕ) (live : now < t.expires_at).
      find_upload_lem platform t p phone file_id now stored live transfer paired found in
    let incomplete : is_complete stored.upload ≡ false = ground (arith, sound.sized) in
    let span = ap length rest ∙ length-drop at content in
    let (r, accepted, got) =
      download_lem platform t' desk file_id third downloaded (after_outcome stored u o)
        (bd ∙ ap ok (sym owner)) (omega (arith, expiry)) transfer' file
        ((==_iff (offset u) stored.upload.total).1 (
          omega (
            arith,
            length-append stored.upload.bytes (flatten chunks),
            span,
            size,
            sound.sized,
          ))) in
    (
      rw (bp, lookup probe live0, incomplete) refl,
      rw
          (upload-rest platform t p phone file_id stored header chunks first second progress
            available bp (lookup first live1) (lookup second live2) text lt bounds sound.sized
            (omega (arith, span, size)))
          (refl, (r, accepted, got ∙ whole)),
    )
