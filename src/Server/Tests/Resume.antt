-- ===== src/Server/Tests/Resume.antt =====
-- An upload that was interrupted after its first byte.
use ftnl_backend_api_rs.Base.{[], ◌∷◌, some, ◌≡◌, refl, ok, arith, inr, get, put, map}
use ftnl_backend_api_rs.Text.{codes, strip_suffix, trim}
use ftnl_backend_api_rs.Text.Decimal.{decimal, digits, from_str}
use ftnl_backend_api_rs.Protocol.{permits}
use ftnl_backend_api_rs.Declaration.{validate_declaration, media_is_accepted, pattern_accepts}
use ftnl_backend_api_rs.Resumable.Number.{parse_u64}
use ftnl_backend_api_rs.Resumable.Range.{parse, parse_bounds, len}
use ftnl_backend_api_rs.Resumable.Range.Spelling.{spelling, bounds_text}
use ftnl_backend_api_rs.Resumable.Upload.{append, commit, new}
use ftnl_backend_api_rs.Server.{Tunnel, StoredFile, FileStatus, publish}
use ftnl_backend_api_rs.Server.Access.{
  ensure_active, authorize, token, token_hash, hashes_equal, bearer_hash, require_phone,
}
use ftnl_backend_api_rs.Server.Handlers.{declare_file}
use ftnl_backend_api_rs.Server.Transfers.{
  upload_file, upload_status, download_file, Download, receive_upload, read_body, requested_range,
  store_upload,
}
use ftnl_backend_api_rs.Server.Invariant.{IsSound}
use ftnl_backend_api_rs.Server.Invariant.Traces.{Reached, Reached-IsSound}
use ftnl_backend_api_rs.Server.RoundTrip.Resume.{resume_then_download}
use ftnl_backend_api_rs.Server.Tests.{
  plain, reading, bearer, declared, declared-Reached, declare_result, claimed,
}

abbrev interrupted : Tunnel
interrupted =
    (upload_file plain declared.0 declared.0 (bearer 3) 44 (some (codes "bytes 0-0/3"))
      (some (codes "a") ∷ []) 5 6 (reading 6).stamp (reading 7).stamp).0

abbrev part : StoredFile
part = record {
  descriptor = record declared.1 { bytes_transferred = 1; status = FileStatus.uploading };
  upload = record { total = 3; bytes = codes "a" };
}

interrupted-IsSound : IsSound interrupted
interrupted-IsSound = Reached-IsSound plain {t = interrupted} (
    Reached.uploaded (bearer 3) 44 (some (codes "bytes 0-0/3")) (some (codes "a") ∷ []) 5 6
      (reading 6).stamp (reading 7).stamp declared-Reached declared-Reached refl)

resume_then_download_example :
    (upload_status plain interrupted (bearer 3) 44 7
      ≡ ok (record { status = 308; upload_offset = decimal 1; upload_complete = codes "false" }))
    × (let (t', answer) =
          upload_file plain interrupted interrupted
            (bearer 3)
            44
            (some (codes "bytes 1-2/3"))
            (map some (codes "b" ∷ codes "c" ∷ []))
            8
            9
            (reading 8).stamp
            (reading 9).stamp in
        (answer
          ≡ ok (record { status = 204; upload_offset = decimal 3; upload_complete = codes "true" }))
        × ((r : Tunnel × Download) × (download_file plain t' (bearer 2) 44 10 (reading 10).stamp
              ≡ ok r)
            × (r.1.content ≡ codes "abc")))
unfolding upload_file receive_upload read_body requested_range store_upload get append commit len
    new declare_file require_phone validate_declaration media_is_accepted pattern_accepts
    strip_suffix declare_result put ensure_active authorize permits token token_hash bearer_hash
    hashes_equal publish bearer claimed parse parse_bounds parse_u64 from_str trim spelling
    bounds_text decimal digits
resume_then_download_example =
    resume_then_download plain interrupted (bearer 3) (bearer 2) (43 ∷ 63 ∷ []) 44 part
      (codes "abc") (codes "bytes 1-2/3") (codes "b" ∷ codes "c" ∷ []) 7 8 9 10 (reading 8).stamp
      (reading 9).stamp (reading 10).stamp interrupted-IsSound (omega arith) (omega arith)
      (omega arith) (omega arith) (inr refl) refl refl refl refl refl refl (omega arith) refl refl
