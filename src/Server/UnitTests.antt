-- ===== src/Server/UnitTests.antt =====
-- Unit tests of src/lib.rs that need no other crate, each as the conjunction of its assertions.
use ftnl_backend_api_rs.Base.{true, false, ◌≡◌, refl}
use ftnl_backend_api_rs.Text.{codes}
use ftnl_backend_api_rs.Text.Decimal.{decimal, digits}
use ftnl_backend_api_rs.Server.Transfers.{upload_response}

unfoldable UploadResponsesExposeResumeCheckpoint : Type 0
UploadResponsesExposeResumeCheckpoint =
    let partial = upload_response (record { offset = 1024; complete = false; replayed = false }) in
    let complete = upload_response (record { offset = 2048; complete = true; replayed = false }) in
    (partial.status ≡ 308)
    × (partial.upload_offset ≡ codes "1024")
    × (partial.upload_complete ≡ codes "false")
    × (complete.status ≡ 204)
    × (complete.upload_complete ≡ codes "true")

upload_responses_expose_resume_checkpoint : UploadResponsesExposeResumeCheckpoint
unfolding UploadResponsesExposeResumeCheckpoint upload_response decimal digits
upload_responses_expose_resume_checkpoint = (refl, refl, refl, refl, refl)
