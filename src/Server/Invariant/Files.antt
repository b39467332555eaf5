-- ===== src/Server/Invariant/Files.antt =====
-- What an upload and a download leave of a file.
use mathlib.Core.Path.{subst}
use ftnl_backend_api_rs.Base.{
  ℕ, ◌≤◌, Bool, true, false, List, append-nil, ◌≡◌, ap, ◌∙◌, sym, ok, arith, refl,
}
use ftnl_backend_api_rs.Resumable.Range.{ContentRange, InBounds}
use ftnl_backend_api_rs.Resumable.Upload.{
  AppendOutcome, UploadBuffer, new, offset, is_complete, append, extend,
}
use ftnl_backend_api_rs.Resumable.Upload.Bounds.{append-IsWithin, IsWithin}
use ftnl_backend_api_rs.Resumable.Upload.Outcomes.{append_reports, added}
use ftnl_backend_api_rs.Server.{StoredFile}
use ftnl_backend_api_rs.Server.Handlers.{DeclareFileRequest, declared_file}
use ftnl_backend_api_rs.Server.Transfers.{after_outcome, mark_downloaded}
use ftnl_backend_api_rs.Server.Invariant.{FileIsSound}

pub declared-FileIsSound :
    (limit : ℕ) (request : DeclareFileRequest) (file_id created_at : ℕ)
    → request.size_bytes ≤ limit
    → FileIsSound limit (declared_file request file_id created_at)
unfolding new
declared-FileIsSound limit request file_id created_at h = record {
  sized = refl;
  within = omega arith;
  counted = refl;
  limited = h;
  agrees = refl;
}

pub downloaded-FileIsSound :
    (limit : ℕ) (f : StoredFile)
    → is_complete f.upload ≡ true
    → FileIsSound limit f
    → FileIsSound limit (mark_downloaded f)
downloaded-FileIsSound limit f c h = record {
  sized = h.sized;
  within = h.within;
  counted = h.counted;
  limited = h.limited;
  agrees = c;
}

progress-FileIsSound :
    (limit : ℕ) (f : StoredFile) (u : UploadBuffer) (complete : Bool)
    → complete ≡ is_complete u
    → u.total ≡ f.upload.total
    → IsWithin u
    → FileIsSound limit f
    → FileIsSound limit
        (after_outcome f u (record { offset = offset u; complete = complete; replayed = false }))
progress-FileIsSound limit f u true c t w h = record {
  sized = t ∙ h.sized;
  within = w;
  counted = refl;
  limited = h.limited;
  agrees = sym c;
}
progress-FileIsSound limit f u false c t w h = record {
  sized = t ∙ h.sized;
  within = w;
  counted = refl;
  limited = h.limited;
  agrees = sym c;
}

outcome-FileIsSound :
    (limit : ℕ) (f : StoredFile) (u : UploadBuffer) (chunk : List ℕ) (at : ℕ)
    (complete replayed : Bool)
    → let o : AppendOutcome = record { offset = at; complete = complete; replayed = replayed } in
      (u ≡ extend f.upload (added o chunk))
      → at ≡ offset u
      → complete ≡ is_complete u
      → IsWithin u
      → FileIsSound limit f
      → FileIsSound limit (after_outcome f u o)
outcome-FileIsSound limit f u chunk at complete true g a c w h =
    subst (λ b. FileIsSound limit (record f { upload = b }))
      (sym (g ∙ ap (λ bs. record f.upload { bytes = bs }) (append-nil f.upload.bytes))) h
outcome-FileIsSound limit f u chunk at complete false g a c w h =
    subst
      (λ n.
        FileIsSound limit
          (after_outcome f u (record { offset = n; complete = complete; replayed = false })))
      (sym a) (progress-FileIsSound limit f u complete c (ap (λ b. b.total) g) w h)

-- A file stays sound when an upload to it succeeds.
pub after_outcome-FileIsSound :
    (limit : ℕ) (f : StoredFile) (r : ContentRange) (chunk : List ℕ) (o : AppendOutcome)
    → InBounds r
    → (append f.upload r chunk).1 ≡ ok o
    → FileIsSound limit f
    → FileIsSound limit (after_outcome f (append f.upload r chunk).0 o)
after_outcome-FileIsSound limit f r chunk o bounds e h =
    let (grown, at, done) = append_reports f.upload r chunk o bounds e in
    outcome-FileIsSound limit f (append f.upload r chunk).0 chunk o.offset o.complete o.replayed
      grown at done (append-IsWithin f.upload r chunk bounds h.within) h
