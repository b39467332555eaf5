-- ===== src/Resumable/Upload/Chunks.antt =====
-- A client that sends its file in order, chunk by chunk, completes the upload.
use ftnl_backend_api_rs.Base.{
  ℕ, ◌+◌, ◌≤◌, true, false, [], ◌∷◌, append-nil, append_assoc, List, length, length-append, arith,
  ◌≡◌, refl, sym, ap, ◌∙◌, ==_iff, Result, ok, err, All, flatten,
}
use ftnl_backend_api_rs.Text.Decimal.{u64_max}
use ftnl_backend_api_rs.Resumable.Range.{ContentRange}
use ftnl_backend_api_rs.Resumable.Upload.{
  AppendOutcome, UploadBuffer, UploadError, new, offset, is_complete, extend, commit, append,
}
use ftnl_backend_api_rs.Resumable.Upload.Outcomes.{append-commit}

-- The range of the next chunk, at the offset that the server last reported.
abbrev pub next_range : UploadBuffer → List ℕ → ContentRange
next_range b chunk = record {
  start = offset b;
  end_exclusive = offset b + length chunk;
  total = b.total;
}

-- The results of the requests, and the buffer after them.
unfoldable pub send_chunks :
    UploadBuffer → List (List ℕ) → UploadBuffer × List (Result AppendOutcome UploadError)
send_chunks b [] = (b, [])
send_chunks b (c ∷ cs) =
    let (b', result) = append b (next_range b c) c in
    let (last, results) = send_chunks b' cs in (last, result ∷ results)

abbrev pub IsProgress : Result AppendOutcome UploadError → Type 0
IsProgress (ok o) = o.replayed ≡ false
IsProgress (err e) = ⊥

commit_next :
    (b : UploadBuffer) (c : List ℕ)
    → ((commit b (next_range b c) c).0 ≡ extend b c) × IsProgress (commit b (next_range b c) c).1
unfolding commit
commit_next b c = ground arith

append_next :
    (b : UploadBuffer) (c : List ℕ)
    → offset b + length c ≤ b.total
    → b.total ≤ u64_max
    → ((append b (next_range b c) c).0 ≡ extend b c) × IsProgress (append b (next_range b c) c).1
append_next b c h fits =
    rw (append-commit b (next_range b c) c (omega arith) refl (omega arith)) (commit_next b c)

send_chunks_lem :
    (b : UploadBuffer) (cs : List (List ℕ))
    → offset b + length (flatten cs) ≤ b.total
    → b.total ≤ u64_max
    → ((send_chunks b cs).0 ≡ extend b (flatten cs)) × All IsProgress (send_chunks b cs).1
unfolding send_chunks
send_chunks_lem b [] h fits = ((λ i. record b { bytes = sym (append-nil b.bytes) i }), tt)
send_chunks_lem b (c ∷ cs) h fits =
    let (grown, progress) = append_next b c (omega (arith, length-append c (flatten cs))) fits in
    let (last, results) =
      send_chunks_lem (extend b c) cs
        (omega (arith, length-append c (flatten cs), length-append b.bytes c)) fits in
    (
      rw grown (last ∙ (λ i. record b { bytes = append_assoc b.bytes c (flatten cs) i })),
      (progress, rw grown results),
    )

-- The chunks of a file, sent in order, are all accepted as new progress; then the upload is complete
-- and the buffer holds the file.
pub send_chunks_complete :
    (cs : List (List ℕ))
    → length (flatten cs) ≤ u64_max
    → let (b, results) = send_chunks (new (length (flatten cs))) cs in
      (b.bytes ≡ flatten cs) × (is_complete b ≡ true) × All IsProgress results
unfolding new
send_chunks_complete cs fits =
    let (last, results) = send_chunks_lem (new (length (flatten cs))) cs (omega arith) fits in
    (ap (λ b. b.bytes) last, ap is_complete last ∙ (==_iff _ (length (flatten cs))).1 refl, results)
