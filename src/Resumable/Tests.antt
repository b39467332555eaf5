-- ===== src/Resumable/Tests.antt =====
-- Runs of src/resumable.rs on concrete requests, most of them those of its own tests.
use ftnl_backend_api_rs.Base.{
  ℕ, ◌≤◌, ◌<◌, true, false, List, [], ◌∷◌, take, length, some, ok, err, ◌≡◌, refl, ◌↔◌, arith, All,
}
use ftnl_backend_api_rs.Text.{codes, trim}
use ftnl_backend_api_rs.Text.Decimal.{u64_max, decimal}
use ftnl_backend_api_rs.Resumable.Number.{parse_u64}
use ftnl_backend_api_rs.Resumable.Number.Canonical.{parse_u64_iff}
use ftnl_backend_api_rs.Resumable.Range.{ContentRange, InBounds, parse, len}
use ftnl_backend_api_rs.Resumable.Range.Spelling.{spelling, parse_iff}
use ftnl_backend_api_rs.Resumable.Upload.{
  AppendOutcome, UploadBuffer, new, offset, is_complete, append, commit, gap,
}
use ftnl_backend_api_rs.Resumable.Upload.Bounds.{IsWithin, append-IsWithin}
use ftnl_backend_api_rs.Resumable.Upload.Outcomes.{
  append_iff, append_reports, append_retry, Continues,
}
use ftnl_backend_api_rs.Resumable.Upload.Prefix.{uploads, uploads_refine_file}
use ftnl_backend_api_rs.Resumable.Upload.Chunks.{send_chunks, send_chunks_complete, IsProgress}

abbrev range_of : ℕ → ℕ → ℕ → ContentRange
range_of start end total = record { start = start; end_exclusive = end; total = total }

parse_u64_iff_example :
    (parse_u64 (codes "42") ≡ some 42) ↔ ((codes "42" ≡ decimal 42) × (42 ≤ u64_max))
parse_u64_iff_example = parse_u64_iff (codes "42") 42

parse_iff_example : (parse (codes " bytes 3-5/6") 6 ≡ ok (range_of 3 6 6)) ↔ (
    (trim (codes " bytes 3-5/6") ≡ spelling (range_of 3 6 6))
    × ◌≡◌ {A = ℕ} 6 6
    × (3 < 6)
    × InBounds (range_of 3 6 6))
parse_iff_example = parse_iff (codes " bytes 3-5/6") 6 (range_of 3 6 6)

abbrev half : UploadBuffer
half = record { total = 6; bytes = codes "abc" }

append-IsWithin_example : IsWithin (append half (range_of 3 6 6) (codes "def")).0
append-IsWithin_example =
    append-IsWithin half (range_of 3 6 6) (codes "def") (omega arith) (omega arith)

append_iff_example :
    ((o : AppendOutcome) × ((append half (range_of 3 6 6) (codes "def")).1 ≡ ok o))
    ↔ (◌≡◌ {A = ℕ} 6 6 × (length (codes "def") ≡ 3) × Continues half (range_of 3 6 6) (codes "def"))
append_iff_example = append_iff half (range_of 3 6 6) (codes "def") (omega arith) (omega arith)

abbrev last_chunk : AppendOutcome
last_chunk = record { offset = 6; complete = true; replayed = false }

second_half : (append half (range_of 3 6 6) (codes "def")).1 ≡ ok last_chunk
unfolding append commit len
second_half = refl

append_reports_example :
    let after = (append half (range_of 3 6 6) (codes "def")).0 in
    (after ≡ record half { bytes = codes "abcdef" })
    × (6 ≡ offset after)
    × (true ≡ is_complete after)
append_reports_example =
    append_reports half (range_of 3 6 6) (codes "def") last_chunk (omega arith) second_half

append_retry_example :
    let after = (append half (range_of 3 6 6) (codes "def")).0 in
    append after (range_of 3 6 6) (codes "def")
    ≡ (after, ok (record { offset = 6; complete = true; replayed = true }))
append_retry_example =
    append_retry half (range_of 3 6 6) (codes "def") last_chunk (omega arith) (omega arith)
      (omega arith) second_half

too_early : (append (new 6) (range_of 3 6 6) (codes "def")).1 ≡ err (gap 0 3)
unfolding append commit len new
too_early = refl

-- A gap, the first half, the first half again, the second half.
abbrev requests : List (ContentRange × List ℕ)
requests =
    (range_of 3 6 6, codes "def")
    ∷ (range_of 0 3 6, codes "abc")
    ∷ (range_of 0 3 6, codes "abc")
    ∷ (range_of 3 6 6, codes "def")
    ∷ []

uploads_refine_file_example :
    let b = uploads (new 6) requests in
    (b.bytes ≡ take (offset b) (codes "abcdef")) × (is_complete b ≡ true → b.bytes ≡ codes "abcdef")
uploads_refine_file_example =
    uploads_refine_file (codes "abcdef") requests
      ((omega arith, refl), ((omega arith, refl), ((omega arith, refl), ((omega arith, refl), tt))))

send_chunks_complete_example :
    let (b, results) = send_chunks (new 6) (codes "abc" ∷ codes "d" ∷ codes "ef" ∷ []) in
    (b.bytes ≡ codes "abcdef") × (is_complete b ≡ true) × All IsProgress results
send_chunks_complete_example =
    send_chunks_complete (codes "abc" ∷ codes "d" ∷ codes "ef" ∷ []) (omega arith)
