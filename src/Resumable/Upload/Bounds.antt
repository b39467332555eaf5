-- ===== src/Resumable/Upload/Bounds.antt =====
-- `append` keeps the buffer within the declared size.
use ftnl_backend_api_rs.Base.{ℕ, ◌-◌, ◌≤◌, List, length, length-append, arith, ◌≡◌}
use ftnl_backend_api_rs.Resumable.Range.{ContentRange, InBounds, len_lem}
use ftnl_backend_api_rs.Resumable.Upload.{UploadBuffer, offset, commit, append}

abbrev pub IsWithin : UploadBuffer → Type 0
IsWithin b = offset b ≤ b.total

commit-IsWithin :
    (b : UploadBuffer) (r : ContentRange) (chunk : List ℕ)
    → InBounds r
    → r.total ≡ b.total
    → length chunk ≡ r.end_exclusive - r.start
    → IsWithin b
    → IsWithin (commit b r chunk).0
unfolding commit
commit-IsWithin b r chunk bounds t l h = ground (arith, length-append b.bytes chunk)

-- `append` keeps the committed bytes within the declared size, whatever the chunk, if the range is
-- within bounds; so the `debug_assert!` at its end holds.
pub append-IsWithin :
    (b : UploadBuffer) (r : ContentRange) (chunk : List ℕ)
    → InBounds r
    → IsWithin b
    → IsWithin (append b r chunk).0
unfolding append
append-IsWithin b r chunk bounds h =
    ground (arith, len_lem r bounds, commit-IsWithin b r chunk bounds)
