-- ===== src/Resumable/Messages.antt =====
-- The `Display` implementations of `RangeError` and `UploadError` in src/resumable.rs.
use ftnl_backend_api_rs.Base.{◌++◌}
use ftnl_backend_api_rs.Text.{Str, codes}
use ftnl_backend_api_rs.Text.Decimal.{decimal}
use ftnl_backend_api_rs.Resumable.Range.{RangeError}
use ftnl_backend_api_rs.Resumable.Upload.{UploadError}

unfoldable pub range_error_text : RangeError → Str
range_error_text RangeError.invalid_unit = codes "Content-Range must use the `bytes` unit"
range_error_text RangeError.invalid_syntax =
    codes "Content-Range must use `bytes START-END/TOTAL` syntax"
range_error_text RangeError.invalid_number =
    codes "Content-Range offsets must be unsigned decimal integers"
range_error_text RangeError.unsupported_wildcard =
    codes "Content-Range wildcards and multipart ranges are unsupported"
range_error_text RangeError.reversed = codes "Content-Range end precedes its start"
range_error_text RangeError.offset_overflow = codes "Content-Range end offset overflowed"
range_error_text (RangeError.total_mismatch expected actual) =
    codes "Content-Range total "
    ++ decimal actual
    ++ codes " does not match declared size "
    ++ decimal expected
range_error_text (RangeError.outside_declared_size end_exclusive total) =
    codes "Content-Range ends at "
    ++ decimal end_exclusive
    ++ codes ", beyond declared size "
    ++ decimal total

unfoldable pub upload_error_text : UploadError → Str
upload_error_text (UploadError.total_changed expected actual) =
    codes "upload total changed from " ++ decimal expected ++ codes " to " ++ decimal actual
upload_error_text (UploadError.body_length expected actual) =
    codes "request body contains "
    ++ decimal actual
    ++ codes " bytes; Content-Range requires "
    ++ decimal expected
upload_error_text (UploadError.gap expected_start actual_start) =
    codes "upload gap: server expects offset "
    ++ decimal expected_start
    ++ codes ", request begins at "
    ++ decimal actual_start
upload_error_text (UploadError.partial_overlap committed start end_exclusive) =
    codes "range "
    ++ decimal start
    ++ codes ".."
    ++ decimal end_exclusive
    ++ codes " partially overlaps committed offset "
    ++ decimal committed
upload_error_text (UploadError.conflicting_replay start end_exclusive) =
    codes "replayed range "
    ++ decimal start
    ++ codes ".."
    ++ decimal end_exclusive
    ++ codes " does not match committed bytes"
upload_error_text UploadError.chunk_too_large =
    codes "range length cannot be represented by this server"
