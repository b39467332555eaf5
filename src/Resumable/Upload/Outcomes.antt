-- ===== src/Resumable/Upload/Outcomes.antt =====
-- When `append` succeeds, what it then reports, and what a retry of the same request does.
use ftnl_backend_api_rs.Base.{
  ℕ, ◌-◌, ◌≤◌, ◌<◌, true, false, [], ◌++◌, append-nil, List, length, length-append, take, drop,
  take_all, drop-append_length, arith, ◌≡◌, sym, ap, ◌∙◌, ok, err, ◌⊎◌, inl, inr, ◌↔◌,
  if◌then◌else◌,
}
use ftnl_backend_api_rs.Text.Laws.{str_eq_iff}
use ftnl_backend_api_rs.Resumable.Range.{ContentRange, InBounds, len_lem}
use ftnl_backend_api_rs.Resumable.Upload.{
  AppendOutcome, UploadBuffer, UploadError, offset, is_complete, extend, replay, commit, append,
}
use ftnl_backend_api_rs.Resumable.Upload.Bounds.{IsWithin}

-- A call that reports an error leaves the buffer as it was.
pub append_error_unchanged :
    (b : UploadBuffer) (r : ContentRange) (chunk : List ℕ) {e : UploadError}
    → (append b r chunk).1 ≡ err e
    → (append b r chunk).0 ≡ b
unfolding append commit
append_error_unchanged b r chunk h = ground arith

-- A call leaves the buffer alone, or puts the chunk behind the committed bytes.
pub append_effect :
    (b : UploadBuffer) (r : ContentRange) (chunk : List ℕ)
    → ((append b r chunk).0 ≡ b)
      ⊎ ((r.total ≡ b.total) × (r.start ≡ offset b) × ((append b r chunk).0 ≡ extend b chunk))
unfolding append commit
append_effect b r chunk = ground arith

-- The committed bytes that a range names.
abbrev pub slice : List ℕ → ContentRange → List ℕ
slice bytes r = take (r.end_exclusive - r.start) (drop r.start bytes)

-- The range continues the upload, or it names committed bytes and the chunk repeats them.
abbrev pub Continues : UploadBuffer → ContentRange → List ℕ → Type 0
Continues b r chunk =
    (r.start ≡ offset b)
    ⊎ ((r.start < offset b) × (r.end_exclusive ≤ offset b) × (slice b.bytes r ≡ chunk))

replay-eq-ok :
    (b : UploadBuffer) (r : ContentRange) (chunk : List ℕ) {o : AppendOutcome}
    → InBounds r
    → replay b r chunk ≡ ok o
    → (r.end_exclusive ≤ offset b)
      × (slice b.bytes r ≡ chunk)
      × (o ≡ record { offset = offset b; complete = is_complete b; replayed = true })
unfolding replay
replay-eq-ok b r chunk bounds h = ground (arith, str_eq_iff (slice b.bytes r) chunk)

replay_lem :
    (b : UploadBuffer) (r : ContentRange) (chunk : List ℕ)
    → InBounds r
    → IsWithin b
    → r.end_exclusive ≤ offset b
    → slice b.bytes r ≡ chunk
    → replay b r chunk
      ≡ ok (record { offset = offset b; complete = is_complete b; replayed = true })
unfolding replay
replay_lem b r chunk bounds w h e = ground (arith, str_eq_iff (slice b.bytes r) chunk)

commit-eq-ok :
    (b : UploadBuffer) (r : ContentRange) (chunk : List ℕ) {o : AppendOutcome}
    → InBounds r
    → (commit b r chunk).1 ≡ ok o
    → Continues b r chunk
unfolding commit
commit-eq-ok b r chunk {o} bounds h = ground (arith, replay-eq-ok b r chunk {o = o} bounds)

append-eq-ok :
    (b : UploadBuffer) (r : ContentRange) (chunk : List ℕ) (o : AppendOutcome)
    → InBounds r
    → (append b r chunk).1 ≡ ok o
    → (r.total ≡ b.total)
      × (length chunk ≡ r.end_exclusive - r.start)
      × ((commit b r chunk).1 ≡ ok o)
      × (append b r chunk ≡ commit b r chunk)
unfolding append
append-eq-ok b r chunk o bounds h = ground (arith, len_lem r bounds)

pub append-commit :
    (b : UploadBuffer) (r : ContentRange) (chunk : List ℕ)
    → InBounds r
    → r.total ≡ b.total
    → length chunk ≡ r.end_exclusive - r.start
    → append b r chunk ≡ commit b r chunk
unfolding append
append-commit b r chunk bounds t l = ground (arith, len_lem r bounds)

commit-Continues :
    (b : UploadBuffer) (r : ContentRange) (chunk : List ℕ)
    → InBounds r
    → IsWithin b
    → Continues b r chunk
    → (o : AppendOutcome) × ((commit b r chunk).1 ≡ ok o)
unfolding commit
commit-Continues b r chunk bounds w (inl e) = (
  record {
    offset = offset (extend b chunk);
    complete = is_complete (extend b chunk);
    replayed = false;
  },
  ground arith,
)
commit-Continues b r chunk bounds w (inr (lt, le, e)) = (
  record { offset = offset b; complete = is_complete b; replayed = true },
  ground (arith, replay_lem b r chunk bounds w le e),
)

-- For a range within bounds, `append` succeeds exactly when the total is the declared one, the chunk
-- has the length of the range, and the range begins at the offset or lies in the committed bytes and
-- the chunk repeats them.
pub append_iff :
    (b : UploadBuffer) (r : ContentRange) (chunk : List ℕ)
    → InBounds r
    → IsWithin b
    → ((o : AppendOutcome) × ((append b r chunk).1 ≡ ok o))
      ↔ ((r.total ≡ b.total) × (length chunk ≡ r.end_exclusive - r.start) × Continues b r chunk)
append_iff b r chunk bounds w = (
  λ h.
      let (t, l, c, _) = append-eq-ok b r chunk h.0 bounds h.1 in
      (t, l, commit-eq-ok b r chunk {o = h.0} bounds c),
  λ h.
      let (o, c) = commit-Continues b r chunk bounds w h.2 in
      (o, ap (λ p. p.1) (append-commit b r chunk bounds h.0 h.1) ∙ c),
)

-- The bytes that a successful call has put behind the committed ones.
abbrev pub added : AppendOutcome → List ℕ → List ℕ
added o chunk = if o.replayed then [] else chunk

commit_reports :
    (b : UploadBuffer) (r : ContentRange) (chunk : List ℕ) (o : AppendOutcome)
    → InBounds r
    → (commit b r chunk).1 ≡ ok o
    → ((commit b r chunk).0 ≡ extend b (added o chunk))
      × (o.offset ≡ offset (commit b r chunk).0)
      × (o.complete ≡ is_complete (commit b r chunk).0)
unfolding commit
commit_reports b r chunk o bounds h =
    ground (arith, replay-eq-ok b r chunk {o = o} bounds, append-nil b.bytes)

-- A successful call only extends the buffer, by the chunk if it is no replay and by nothing if it is;
-- the offset and the completion that it reports are those of the new buffer.
pub append_reports :
    (b : UploadBuffer) (r : ContentRange) (chunk : List ℕ) (o : AppendOutcome)
    → InBounds r
    → (append b r chunk).1 ≡ ok o
    → ((append b r chunk).0 ≡ extend b (added o chunk))
      × (o.offset ≡ offset (append b r chunk).0)
      × (o.complete ≡ is_complete (append b r chunk).0)
append_reports b r chunk o bounds h =
    let (_, _, c, e) = append-eq-ok b r chunk o bounds h in
    rw e (commit_reports b r chunk o bounds c)

slice-extend :
    (b : UploadBuffer) (r : ContentRange) (chunk : List ℕ)
    → r.start ≡ offset b
    → length chunk ≡ r.end_exclusive - r.start
    → slice (b.bytes ++ chunk) r ≡ chunk
slice-extend b r chunk e l =
    (λ i. take (sym l i) (drop (e i) (b.bytes ++ chunk)))
    ∙ ap (take (length chunk)) (drop-append_length b.bytes chunk)
    ∙ take_all (length chunk) chunk (omega arith)

commit_replays :
    (b : UploadBuffer) (r : ContentRange) (chunk : List ℕ)
    → InBounds r
    → IsWithin b
    → r.start < offset b
    → r.end_exclusive ≤ offset b
    → slice b.bytes r ≡ chunk
    → commit b r chunk
      ≡ (b, ok (record { offset = offset b; complete = is_complete b; replayed = true }))
unfolding commit
commit_replays b r chunk bounds w lt le e = ground (arith, replay_lem b r chunk bounds w le e)

commit_grows :
    (b : UploadBuffer) (r : ContentRange) (chunk : List ℕ)
    → r.start ≡ offset b
    → (commit b r chunk).0 ≡ extend b chunk
unfolding commit
commit_grows b r chunk e = ground arith

commit_keeps :
    (b : UploadBuffer) (r : ContentRange) (chunk : List ℕ)
    → r.start < offset b
    → (commit b r chunk).0 ≡ b
unfolding commit
commit_keeps b r chunk e = ground arith

-- After a successful call the range lies in the committed bytes, and they are the chunk there.
committed_after :
    (b : UploadBuffer) (r : ContentRange) (chunk : List ℕ)
    → InBounds r
    → IsWithin b
    → r.start < r.end_exclusive
    → r.total ≡ b.total
    → length chunk ≡ r.end_exclusive - r.start
    → Continues b r chunk
    → let b' = (commit b r chunk).0 in
      IsWithin b'
      × (r.start < offset b')
      × (r.end_exclusive ≤ offset b')
      × (slice b'.bytes r ≡ chunk)
committed_after b r chunk bounds w lt t l (inl e) = rw (commit_grows b r chunk e) (
  omega (arith, length-append b.bytes chunk),
  omega (arith, length-append b.bytes chunk),
  omega (arith, length-append b.bytes chunk),
  slice-extend b r chunk e l,
)
committed_after b r chunk bounds w lt t l (inr (before, le, e)) =
    rw (commit_keeps b r chunk before) (w, before, le, e)

-- Sending the same nonempty request again, at once after it was accepted, is accepted as a replay: it
-- reports the same offset and completion, and changes nothing.
pub append_retry :
    (b : UploadBuffer) (r : ContentRange) (chunk : List ℕ) (o : AppendOutcome)
    → InBounds r
    → IsWithin b
    → r.start < r.end_exclusive
    → (append b r chunk).1 ≡ ok o
    → let b' = (append b r chunk).0 in append b' r chunk ≡ (b', ok (record o { replayed = true }))
append_retry b r chunk o bounds w lt h =
    let (t, l, c, e) = append-eq-ok b r chunk o bounds h in
    let (w', before, le, same) =
      committed_after b r chunk bounds w lt t l (commit-eq-ok b r chunk {o = o} bounds c) in
    let (grown, at, done) = commit_reports b r chunk o bounds c in
    let b' = (commit b r chunk).0 in
    rw e (
      append-commit b' r chunk bounds (t ∙ sym (ap (λ u. u.total) grown)) l
      ∙ commit_replays b' r chunk bounds w' before le same
      ∙ (λ i. (b', ok (record { offset = sym at i; complete = sym done i; replayed = true }))))
