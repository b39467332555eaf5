-- ===== src/Server/Tests/Refinement.antt =====
-- A paired tunnel follows the specification; with a file of no bytes it leaves it.
use ftnl_backend_api_rs.Base.{[], ◌∷◌, ◌≡◌, refl, ok, err, Result, get, put}
use ftnl_backend_api_rs.Text.{codes}
use ftnl_backend_api_rs.Protocol.{permits}
use ftnl_backend_api_rs.Resumable.Upload.{new}
use ftnl_backend_api_rs.Server.{StoredFile, FileStatus, Tunnel, ApiError, publish}
use ftnl_backend_api_rs.Server.Access.{
  ensure_active, authorize, token, token_hash, hashes_equal, bearer_hash, require_desktop,
}
use ftnl_backend_api_rs.Server.Handlers.{claim_tunnel}
use ftnl_backend_api_rs.Server.Transfers.{Download, download_file}
use ftnl_backend_api_rs.Server.Refinement.{Follows}
use ftnl_backend_api_rs.Server.Refinement.Departure.{early_download_departs}
use ftnl_backend_api_rs.Server.Tests.{plain, reading, bearer, claimed}

abbrev nothing : StoredFile
nothing = record {
  descriptor = record {
    file_id = 9;
    name = codes "a.png";
    media_type = codes "image/png";
    size_bytes = 0;
    bytes_transferred = 0;
    status = FileStatus.declared;
    created_at = 4;
  };
  upload = new 0;
}

abbrev with_nothing : Tunnel
with_nothing = record claimed.0 { files = (9, nothing) ∷ [] }

abbrev nothing_result : Result (Tunnel × Download) ApiError
nothing_result = download_file plain with_nothing (bearer 2) 9 8 (reading 8).stamp

abbrev nothing_downloaded : Tunnel × Download
nothing_downloaded = elim nothing_result [
  | ok r ↦ r
  | err e ↦ (with_nothing, record { media_type = []; content = [] })
]

nothing_test : nothing_result ≡ ok nothing_downloaded
unfolding download_file require_desktop new get put ensure_active authorize permits token token_hash
    bearer_hash hashes_equal publish bearer claimed claim_tunnel
nothing_test = refl

early_download_departs_example : ¬ Follows with_nothing nothing_downloaded.0
unfolding claimed claim_tunnel ensure_active authorize permits token token_hash hashes_equal publish
early_download_departs_example =
    early_download_departs plain with_nothing (bearer 2) 9 8 nothing (reading 8).stamp
      nothing_downloaded refl refl nothing_test
