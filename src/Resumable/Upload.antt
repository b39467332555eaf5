-- ===== src/Resumable/Upload.antt =====
-- `UploadBuffer`, `AppendOutcome` and `UploadError` of src/resumable.rs. `append` takes the buffer
-- and returns it with the result; lengths and offsets are `u64`, and `usize` has 64 bits.
pub mod Bounds
pub mod Outcomes
pub mod Prefix
pub mod Chunks
use ftnl_backend_api_rs.Base.{
  ℕ, ◌+◌, ◌-◌, ◌≤◌, Bool, true, false, not, Option, none, some, ltb, leb, ◌==◌, if◌then◌else◌, List,
  [], ◌++◌, length, take, drop, Result, ok, err, ◌≡◌, refl,
}
use ftnl_backend_api_rs.Text.{codes, str_eq}
use ftnl_backend_api_rs.Text.Decimal.{u64_max}
use ftnl_backend_api_rs.Resumable.Range.{ContentRange, len, whole}

pub record AppendOutcome : Type 0 where
  pub offset : ℕ
  pub complete : Bool
  pub replayed : Bool

pub record UploadBuffer : Type 0 where
  pub total : ℕ
  pub bytes : List ℕ

pub data UploadError : Type 0 where
  total_changed : (expected actual : ℕ) → UploadError
  body_length : (expected actual : ℕ) → UploadError
  gap : (expected_start actual_start : ℕ) → UploadError
  partial_overlap : (committed start end_exclusive : ℕ) → UploadError
  conflicting_replay : (start end_exclusive : ℕ) → UploadError
  chunk_too_large : UploadError

-- `UploadBuffer::new`
unfoldable pub new : ℕ → UploadBuffer
new total = record { total = total; bytes = [] }

abbrev pub offset : UploadBuffer → ℕ
offset b = length b.bytes

abbrev pub is_complete : UploadBuffer → Bool
is_complete b = offset b == b.total

-- `usize::try_from(u64)`
abbrev pub try_usize : ℕ → Option ℕ
try_usize n = if leb n u64_max then some n else none

-- `slice.get(start..end)`
abbrev pub get_range : List ℕ → ℕ → ℕ → Option (List ℕ)
get_range bytes start end =
    if leb start end
    then if leb end (length bytes) then some (take (end - start) (drop start bytes)) else none
    else none

-- `option == Some(chunk)`
abbrev pub is_some_of : List ℕ → Option (List ℕ) → Bool
is_some_of chunk none = false
is_some_of chunk (some bytes) = str_eq bytes chunk

-- The branch of `append` for a range that begins before the offset.
unfoldable pub replay : UploadBuffer → ContentRange → List ℕ → Result AppendOutcome UploadError
replay b range chunk =
    if ltb (offset b) range.end_exclusive
    then err (partial_overlap (offset b) range.start range.end_exclusive)
    else elim (try_usize range.start) [
      | none ↦ err chunk_too_large
      | some start ↦ elim (try_usize range.end_exclusive) [
        | none ↦ err chunk_too_large
        | some end ↦
            if not (is_some_of chunk (get_range b.bytes start end))
            then err (conflicting_replay range.start range.end_exclusive)
            else ok (record { offset = offset b; complete = is_complete b; replayed = true })
      ]
    ]

-- The end of `append`: the chunk goes behind the committed bytes.
abbrev pub extend : UploadBuffer → List ℕ → UploadBuffer
extend b chunk = record b { bytes = b.bytes ++ chunk }

-- What `append` does with a chunk of the right length.
unfoldable pub commit :
    UploadBuffer → ContentRange → List ℕ → UploadBuffer × Result AppendOutcome UploadError
commit b range chunk =
    if ltb (offset b) range.start
    then (b, err (gap (offset b) range.start))
    else if ltb range.start (offset b)
    then (b, replay b range chunk)
    else (
      extend b chunk,
      ok (record {
        offset = offset (extend b chunk);
        complete = is_complete (extend b chunk);
        replayed = false;
      }),
    )

unfoldable pub append :
    UploadBuffer → ContentRange → List ℕ → UploadBuffer × Result AppendOutcome UploadError
append b range chunk =
    if not (range.total == b.total)
    then (b, err (total_changed b.total range.total))
    else elim (try_usize (len range)) [
      | none ↦ (b, err chunk_too_large)
      | some expected_len ↦
          if not (length chunk == expected_len)
          then (b, err (body_length (len range) (length chunk)))
          else commit b range chunk
    ]

half : UploadBuffer
half = record { total = 6; bytes = codes "abc" }

conflicting_retry :
    append half (record { start = 0; end_exclusive = 3; total = 6 }) (codes "xyz")
    ≡ (half, err (conflicting_replay 0 3))
unfolding append commit replay len half
conflicting_retry = refl

overlap :
    append half (record { start = 2; end_exclusive = 5; total = 6 }) (codes "cde")
    ≡ (half, err (partial_overlap 3 2 5))
unfolding append commit replay len half
overlap = refl

empty_upload :
    append (new 0) (whole 0) []
    ≡ (new 0, ok (record { offset = 0; complete = true; replayed = false }))
unfolding append commit len new whole
empty_upload = refl
