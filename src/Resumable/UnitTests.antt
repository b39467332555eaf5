-- ===== src/Resumable/UnitTests.antt =====
-- The unit tests of src/resumable.rs, each as the conjunction of its assertions.
use ftnl_backend_api_rs.Base.{ℕ, true, false, [], ok, err, ◌≡◌, refl, Result}
use ftnl_backend_api_rs.Text.{codes, trim}
use ftnl_backend_api_rs.Text.Decimal.{from_str}
use ftnl_backend_api_rs.Resumable.Number.{parse_u64}
use ftnl_backend_api_rs.Resumable.Range.{
  ContentRange, RangeError, invalid_unit, total_mismatch, unsupported_wildcard, invalid_number,
  parse, parse_bounds, whole, len,
}
use ftnl_backend_api_rs.Resumable.Upload.{
  AppendOutcome, gap, body_length, conflicting_replay, partial_overlap, new, offset, append, commit,
  replay,
}

abbrev range_of : ℕ → ℕ → ℕ → ContentRange
range_of start end_exclusive total = record {
  start = start;
  end_exclusive = end_exclusive;
  total = total;
}

-- `result.is_err()`
abbrev IsErr : Result ContentRange RangeError → Type 0
IsErr result = (e : RangeError) × (result ≡ err e)

unfoldable ParsesStrictContentRange : Type 0
ParsesStrictContentRange =
    (parse (codes "bytes 10-19/100") 100 ≡ ok (range_of 10 20 100))
    × (parse (codes "items 0-9/10") 10 ≡ err invalid_unit)
    × (parse (codes "bytes 0-9/11") 10 ≡ err (total_mismatch 10 11))
    × IsErr (parse (codes "bytes */10") 10)
    × IsErr (parse (codes "bytes 01-9/10") 10)

parses_strict_content_range : ParsesStrictContentRange
unfolding ParsesStrictContentRange parse parse_bounds parse_u64 from_str trim
parses_strict_content_range =
    (refl, refl, refl, (unsupported_wildcard, refl), (invalid_number, refl))

-- The ranges are those that `parse(…).expect(…)` gives.
unfoldable AppendsSequentialChunksToCompletion : Type 0
AppendsSequentialChunksToCompletion =
    (first : ContentRange) × (second : ContentRange) × (parse (codes "bytes 0-2/6") 6 ≡ ok first)
    × (parse (codes "bytes 3-5/6") 6 ≡ ok second)
    × (let (half, one) = append (new 6) first (codes "abc") in
        let (upload, two) = append half second (codes "def") in
        (one ≡ ok (record { offset = 3; complete = false; replayed = false }))
        × (two ≡ ok (record { offset = 6; complete = true; replayed = false }))
        × (upload.bytes ≡ codes "abcdef"))

appends_sequential_chunks_to_completion : AppendsSequentialChunksToCompletion
unfolding AppendsSequentialChunksToCompletion parse parse_bounds parse_u64 from_str trim append
    commit len new
appends_sequential_chunks_to_completion =
    (range_of 0 3 6, range_of 3 6 6, refl, refl, (refl, refl, refl))

unfoldable ExactRetryIsIdempotent : Type 0
ExactRetryIsIdempotent =
    (range : ContentRange) × (o : AppendOutcome) × (parse (codes "bytes 0-2/6") 6 ≡ ok range)
    × (let (half, one) = append (new 6) range (codes "abc") in
        let (upload, two) = append half range (codes "abc") in
        (one ≡ ok o)
        × (two ≡ ok (record { offset = 3; complete = false; replayed = true }))
        × (upload.bytes ≡ codes "abc"))

exact_retry_is_idempotent : ExactRetryIsIdempotent
unfolding ExactRetryIsIdempotent parse parse_bounds parse_u64 from_str trim append commit replay len
    new
exact_retry_is_idempotent = (
  range_of 0 3 6,
  record { offset = 3; complete = false; replayed = false },
  refl,
  (refl, refl, refl),
)

unfoldable ConflictingRetryAndPartialOverlapFailClosed : Type 0
ConflictingRetryAndPartialOverlapFailClosed =
    (range : ContentRange) × (overlap : ContentRange) × (o : AppendOutcome) × (a : ℕ) × (b : ℕ)
    × (c : ℕ) × (d : ℕ) × (e : ℕ) × (parse (codes "bytes 0-2/6") 6 ≡ ok range)
    × (parse (codes "bytes 2-4/6") 6 ≡ ok overlap)
    × (let (half, one) = append (new 6) range (codes "abc") in
        let (retried, two) = append half range (codes "xyz") in
        let (upload, three) = append retried overlap (codes "cde") in
        (one ≡ ok o)
        × (two ≡ err (conflicting_replay a b))
        × (three ≡ err (partial_overlap c d e))
        × (upload.bytes ≡ codes "abc"))

conflicting_retry_and_partial_overlap_fail_closed : ConflictingRetryAndPartialOverlapFailClosed
unfolding ConflictingRetryAndPartialOverlapFailClosed parse parse_bounds parse_u64 from_str trim
    append commit replay len new
conflicting_retry_and_partial_overlap_fail_closed = (
  range_of 0 3 6,
  range_of 2 5 6,
  record { offset = 3; complete = false; replayed = false },
  0,
  3,
  3,
  2,
  5,
  refl,
  refl,
  (refl, refl, refl, refl),
)

unfoldable GapsAndWrongBodyLengthsDoNotMutateState : Type 0
GapsAndWrongBodyLengthsDoNotMutateState =
    (gap_range : ContentRange) × (length_range : ContentRange) × (a : ℕ) × (b : ℕ) × (c : ℕ)
    × (d : ℕ) × (parse (codes "bytes 3-5/6") 6 ≡ ok gap_range)
    × (parse (codes "bytes 0-2/6") 6 ≡ ok length_range)
    × (let (first, one) = append (new 6) gap_range (codes "def") in
        let (upload, two) = append first length_range (codes "ab") in
        (one ≡ err (gap a b)) × (two ≡ err (body_length c d)) × (offset upload ≡ 0))

gaps_and_wrong_body_lengths_do_not_mutate_state : GapsAndWrongBodyLengthsDoNotMutateState
unfolding GapsAndWrongBodyLengthsDoNotMutateState parse parse_bounds parse_u64 from_str trim append
    commit len new
gaps_and_wrong_body_lengths_do_not_mutate_state =
    (range_of 3 6 6, range_of 0 3 6, 0, 3, 3, 2, refl, refl, (refl, refl, refl))

unfoldable EmptyLegacyUploadCompletes : Type 0
EmptyLegacyUploadCompletes =
    (append (new 0) (whole 0) []).1 ≡ ok (record { offset = 0; complete = true; replayed = false })

empty_legacy_upload_completes : EmptyLegacyUploadCompletes
unfolding EmptyLegacyUploadCompletes append commit len new whole
empty_legacy_upload_completes = refl
