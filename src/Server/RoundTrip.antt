-- ===== src/Server/RoundTrip.antt =====
-- What is uploaded is what is downloaded (`upload_file` and `download_file` of src/lib.rs).
pub mod Body
pub mod Resume
use ftnl_backend_api_rs.Base.{
  ℕ, ◌<◌, ◌≤◌, Bool, true, false, not, ◌&&◌, List, [], ◌∷◌, ◌++◌, Option, none, some, length, map,
  flatten, get, put, get-put_self, ==_iff, ◌==◌, ◌≡◌, refl, sym, ap, ◌∙◌, Result, ok, err, ok_or,
  ◌>>=◌, le→leb, All-get, arith, if◌then◌else◌, inl, inr, Result-cases,
}
use ftnl_backend_api_rs.Protocol.{TunnelStatus, permits}
use ftnl_backend_api_rs.Protocol.Quint.{InTransfer}
use ftnl_backend_api_rs.Resumable.Range.{ContentRange, whole, len, len_lem, whole-InBounds}
use ftnl_backend_api_rs.Resumable.Upload.{
  AppendOutcome, UploadBuffer, append, commit, try_usize, offset, is_complete,
}
use ftnl_backend_api_rs.Text.Decimal.{u64_max}
use ftnl_backend_api_rs.Server.{
  ApiError, Platform, Digest, StoredFile, Tunnel, Stamp, same_id, publish, too_large,
}
use ftnl_backend_api_rs.Server.Access.{
  ensure_active, authorize, bearer_hash, require_phone, require_desktop, hashes_equal,
}
use ftnl_backend_api_rs.Server.Transfers.{
  Upload, UploadResponse, Download, upload_response, requested_range, receive_upload, find_upload,
  store_upload, upload_file, download_file, finish_append, after_outcome, announce_available,
  read_body,
}
use ftnl_backend_api_rs.Server.Accepted.{download_accepted}
use ftnl_backend_api_rs.Server.Invariant.{IsSound, FileIsSound}
use ftnl_backend_api_rs.Server.RoundTrip.Body.{read_body_lem}

read_whole :
    (n : ℕ) (chunks : List (List ℕ)) (p : Digest)
    → n ≤ u64_max
    → length (flatten chunks) ≡ n
    → ◌≡◌ {A = Result Upload ApiError}
        (do
          expected_chunk_len ← ok_or (try_usize (len (whole n))) too_large
          bytes ← read_body (whole n) expected_chunk_len [] (map some chunks)
          ok (record { supplied = p; range = whole n; bytes = bytes }))
        (ok (record { supplied = p; range = whole n; bytes = flatten chunks }))
unfolding whole
read_whole n chunks p fits size =
    let span : len (whole n) ≡ n = omega (arith, len_lem (whole n) (whole-InBounds n fits)) in
    rw (span, le→leb n u64_max fits, read_body_lem (whole n) n [] chunks fits (omega (arith, size)))

module _ (platform : Platform) (t : Tunnel) (p : Digest) (authorization : Option (List ℕ))
    (file_id now : ℕ) (stored : StoredFile) where
  pub find_upload_lem :
      now < t.expires_at
      → InTransfer t.status
      → t.phone_hash ≡ some p
      → get same_id file_id t.files ≡ some stored
      → find_upload platform t p file_id now ≡ ok stored
  unfolding ensure_active require_phone authorize permits hashes_equal
  find_upload_lem live transfer paired found = ground (arith, platform.ct_eq_iff p p)

  pub receive_upload_lem :
      (chunks : List (List ℕ))
      → bearer_hash platform authorization ≡ ok p
      → find_upload platform t p file_id now ≡ ok stored
      → stored.descriptor.size_bytes ≤ u64_max
      → length (flatten chunks) ≡ stored.descriptor.size_bytes
      → receive_upload platform t authorization file_id none (map some chunks) now
        ≡ ok (record {
          supplied = p;
          range = whole stored.descriptor.size_bytes;
          bytes = flatten chunks;
        })
  unfolding receive_upload requested_range
  receive_upload_lem chunks b found fits size =
      rw (b, found) (read_whole stored.descriptor.size_bytes chunks p fits size)

eq_nil_of_length : (xs : List ℕ) → length xs ≡ 0 → xs ≡ []
eq_nil_of_length [] h = refl
eq_nil_of_length (x ∷ xs) h = absurd (omega arith)

-- The whole file, uploaded at once to an empty buffer.
append-whole :
    (u : UploadBuffer) (n : ℕ) (content : List ℕ)
    → u.total ≡ n
    → length content ≡ n
    → offset u ≡ 0
    → n ≤ u64_max
    → append u (whole n) content ≡ (
      record { total = n; bytes = content },
      ok (record { offset = n; complete = true; replayed = false }),
    )
unfolding append commit whole len
append-whole u n content total size empty fits = ground (arith, eq_nil_of_length u.bytes)

-- What `download_file` needs of the tunnel that an upload leaves.
module _ (t : Tunnel) (file_id : ℕ) (f : StoredFile) where
  abbrev pub IsReady : Tunnel → Type 0
  IsReady t' =
      (get same_id file_id t'.files ≡ some f)
      × InTransfer t'.status
      × (t'.expires_at ≡ t.expires_at)
      × (t'.desktop_hash ≡ t.desktop_hash)

  announce_available-IsReady :
      (t' : Tunnel) (o : AppendOutcome) (became_complete : Bool) (stamp : Stamp)
      → IsReady t'
      → IsReady (announce_available t' file_id o became_complete stamp)
  unfolding publish
  announce_available-IsReady t' o true stamp h = h
  announce_available-IsReady t' o false stamp h = h

pub finish_append-IsReady :
    (t : Tunnel) (file_id : ℕ) (stored : StoredFile) (progress available : Stamp) (u : UploadBuffer)
    (at : ℕ)
    → let o : AppendOutcome = record { offset = at; complete = true; replayed = false } in
      IsReady t file_id
        (after_outcome stored u o)
        (finish_append t file_id stored progress available (u, ok o)).0
unfolding publish
finish_append-IsReady t file_id stored progress available u at =
    announce_available-IsReady t file_id _ _
      (record { offset = at; complete = true; replayed = false })
      (not (is_complete stored.upload) && true) available
      (get-put_self same_id ==_iff file_id _ t.files, inr refl, refl, refl)

pub download_lem :
    (platform : Platform) (t : Tunnel) (authorization : Option (List ℕ)) (file_id now : ℕ)
    (stamp : Stamp) (f : StoredFile)
    → bearer_hash platform authorization ≡ ok t.desktop_hash
    → now < t.expires_at
    → InTransfer t.status
    → get same_id file_id t.files ≡ some f
    → is_complete f.upload ≡ true
    → (r : Tunnel × Download) × (download_file platform t authorization file_id now stamp ≡ ok r)
      × (r.1.content ≡ f.upload.bytes)
unfolding download_file ensure_active require_desktop authorize permits hashes_equal
download_lem platform t authorization file_id now stamp f b live transfer found done =
    let same = (platform.ct_eq_iff t.desktop_hash t.desktop_hash).1 refl in
    elim (Result-cases (download_file platform t authorization file_id now stamp)) [
      | inl (r, e) ↦
          (r, e, (download_accepted platform t authorization file_id now stamp f {r = r} found e).3)
      | inr (x, e) ↦ absurd (ground arith)
    ]

-- The tunnel and the answer of such an upload.
pub upload_whole :
    (platform : Platform) (t : Tunnel) (phone : Option (List ℕ)) (p : Digest) (file_id : ℕ)
    (stored : StoredFile) (chunks : List (List ℕ)) (first second : ℕ) (progress available : Stamp)
    → bearer_hash platform phone ≡ ok p
    → find_upload platform t p file_id first ≡ ok stored
    → find_upload platform t p file_id second ≡ ok stored
    → stored.upload.total ≡ stored.descriptor.size_bytes
    → stored.descriptor.size_bytes ≤ u64_max
    → offset stored.upload ≡ 0
    → length (flatten chunks) ≡ stored.descriptor.size_bytes
    → let n = stored.descriptor.size_bytes in
      upload_file platform t t phone file_id none (map some chunks) first second progress available
      ≡ finish_append t file_id stored progress available (
        record { total = n; bytes = flatten chunks },
        ok (record { offset = n; complete = true; replayed = false }),
      )
unfolding upload_file store_upload
upload_whole platform t phone p file_id stored chunks first second progress available b once twice
      total fits empty size =
    let n = stored.descriptor.size_bytes in
    rw (
      receive_upload_lem platform t p phone file_id first stored chunks b once fits size,
      twice,
      append-whole stored.upload n (flatten chunks) total size empty fits,
    )

-- The phone uploads a file in one request, cut into chunks in any way, to a tunnel that is sound and
-- has received nothing of the file; then the desktop can download it, and gets what was sent.
pub upload_then_download :
    (platform : Platform) (t : Tunnel) (phone desk : Option (List ℕ)) (p : Digest) (file_id : ℕ)
    (stored : StoredFile) (chunks : List (List ℕ)) (first second third : ℕ)
    (progress available downloaded : Stamp)
    → IsSound t
    → first < t.expires_at
    → second < t.expires_at
    → third < t.expires_at
    → InTransfer t.status
    → bearer_hash platform phone ≡ ok p
    → t.phone_hash ≡ some p
    → bearer_hash platform desk ≡ ok t.desktop_hash
    → get same_id file_id t.files ≡ some stored
    → offset stored.upload ≡ 0
    → length (flatten chunks) ≡ stored.descriptor.size_bytes
    → let (t', answer) =
        upload_file platform t t phone file_id none
          (map some chunks)
          first
          second
          progress
          available in
      (answer
        ≡ ok (
            upload_response (record {
              offset = stored.descriptor.size_bytes;
              complete = true;
              replayed = false;
            })))
      × ((r : Tunnel × Download) × (download_file platform t' desk file_id third downloaded ≡ ok r)
          × (r.1.content ≡ flatten chunks))
upload_then_download platform t phone desk p file_id stored chunks first second third progress
      available downloaded s live1 live2 live3 transfer bp paired bd found empty size =
    let n = stored.descriptor.size_bytes in
    let sound =
      All-get same_id (FileIsSound t.max_file_bytes) file_id t.files stored s.files_sound found in
    let u : UploadBuffer = record { total = n; bytes = flatten chunks } in
    let o : AppendOutcome = record { offset = n; complete = true; replayed = false } in
    let t' = (finish_append t file_id stored progress available (u, ok o)).0 in
    let (file, transfer', expiry, owner) =
      finish_append-IsReady t file_id stored progress available u n in
    rw
      (upload_whole platform t phone p file_id stored chunks first second progress available bp
        (find_upload_lem platform t p phone file_id first stored live1 transfer paired found)
        (find_upload_lem platform t p phone file_id second stored live2 transfer paired found)
        sound.sized (omega (arith, sound.limited, s.limit_fits)) empty size)
      (
        refl,
        download_lem platform t' desk file_id third downloaded (after_outcome stored u o)
            (bd ∙ ap ok (sym owner)) (omega (arith, expiry)) transfer' file
            ((==_iff (length (flatten chunks)) n).1 size),
      )
