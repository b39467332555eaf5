-- ===== src/Server/Tests.antt =====
-- A session from pairing to download, with a platform that hashes nothing.
mod Table
mod Session
mod World
mod Refinement
mod Delivery
mod Resume
use ftnl_backend_api_rs.Base.{
  delete, ℕ, ◌+◌, ◌<◌, ◌↔◌, true, List, [], ◌∷◌, ◌++◌, Option, none, some, ◌≡◌, ◌≢◌, refl, Result,
  ok, err, length, get, put,
}
use ftnl_backend_api_rs.Text.{Str, codes, bytes, strip_suffix, trim_end}
use ftnl_backend_api_rs.Text.Laws.{str_eq_iff}
use ftnl_backend_api_rs.Text.{str_eq}
use ftnl_backend_api_rs.Declaration.{validate_declaration, media_is_accepted, pattern_accepts}
use ftnl_backend_api_rs.Server.{
  publish, Platform, Tunnel, StoredFile, FileDescriptor, FileStatus, ApiError, same_id,
}
use ftnl_backend_api_rs.Server.Handlers.{
  EventTicketResponse, create_event_ticket, connect_events, CreateTunnelRequest,
  CreateTunnelResponse, DeclareFileRequest, Reading, create_tunnel, validate_create, claim_tunnel,
  declare_file, declared_file, new_tunnel,
}
use ftnl_backend_api_rs.Protocol.{permits, TunnelStatus}
use ftnl_backend_api_rs.Server.Access.{
  ensure_active, authorize, token, token_hash, hashes_equal, bearer_hash, require_phone,
  require_desktop, require_either,
}
use ftnl_backend_api_rs.Server.Transfers.{
  upload_file, download_file, Download, receive_upload, read_body, requested_range, store_upload,
}
use ftnl_backend_api_rs.Resumable.Range.{len, whole}
use ftnl_backend_api_rs.Resumable.Upload.{append, commit, new}
use ftnl_backend_api_rs.Server.Capability.{claim_iff, claim_is_once}
use ftnl_backend_api_rs.Server.Invariant.{IsSound}
use ftnl_backend_api_rs.Server.Invariant.Tickets.{redeem_is_once}
use ftnl_backend_api_rs.Server.Invariant.Traces.{
  Reached, created, Reached-IsSound, download_serves_whole,
}

abbrev plain : Platform
plain = record {
  sha256 = λ b. b;
  ct_eq = str_eq;
  to_str = λ header. some header;
  simple = λ n. n ∷ [];
  hyphenated = λ n. n ∷ [];
  header_value_is_valid = λ text. true;
  ct_eq_iff = str_eq_iff;
}

abbrev request : CreateTunnelRequest
request = record {
  application_id = codes "demo";
  accept = codes "image/*" ∷ [];
  max_files = 1;
  max_file_bytes = 10;
  expires_in_seconds = 60;
}

abbrev reading : ℕ → Reading
reading n = record {
  now = n;
  first = 40 + n;
  second = 60 + n;
  stamp = record { now = n; event_id = n };
}

abbrev waiting_tunnel : Tunnel
waiting_tunnel = new_tunnel plain request 7 (reading 1) (reading 2)

abbrev response : CreateTunnelResponse
response = record {
  api_version = codes "v1";
  tunnel_id = 7;
  status = TunnelStatus.waiting;
  pairing_uri = codes "http://a/t/" ++ 7 ∷ codes "#c=" ++ 41 ∷ 61 ∷ [];
  desktop_capability = 42 ∷ 62 ∷ [];
  expires_at = 60_000_000_002;
}

create_test :
    create_tunnel plain (codes "http://a/") request 7 (reading 1) (reading 2)
    ≡ ok (waiting_tunnel, response)
unfolding create_tunnel validate_create token trim_end
create_test = refl

abbrev claimed : Tunnel × Str
unfolding claim_tunnel
claimed = elim (claim_tunnel plain waiting_tunnel (41 ∷ 61 ∷ []) (reading 3)) [
  | ok r ↦ r
  | err e ↦ (waiting_tunnel, [])
]

claim_test : claim_tunnel plain waiting_tunnel (41 ∷ 61 ∷ []) (reading 3) ≡ ok claimed
unfolding claim_tunnel ensure_active authorize permits token token_hash hashes_equal
claim_test = refl

bearer : ℕ → Option (List ℕ)
bearer n = some (codes "Bearer " ++ (40 + n) ∷ (60 + n) ∷ [])

abbrev photo : DeclareFileRequest
photo = record {
  name = codes "a.png";
  media_type = codes "image/png";
  size_bytes = 3;
  last_modified_ms = none;
  sha256 = none;
}

abbrev declare_result : Result (Tunnel × FileDescriptor) ApiError
unfolding declare_file
declare_result = declare_file plain claimed.0 (bearer 3) photo (reading 4)

abbrev declared : Tunnel × FileDescriptor
declared = elim declare_result [
  | ok r ↦ r
  | err e ↦ (waiting_tunnel, (declared_file photo 0 0).descriptor)
]

declare_test : declare_file plain claimed.0 (bearer 3) photo (reading 4) ≡ ok declared
unfolding declare_file require_phone validate_declaration media_is_accepted pattern_accepts
    strip_suffix declare_result put ensure_active authorize permits token token_hash bearer_hash
    hashes_equal publish bearer claimed
declare_test = refl

abbrev chunks : List (Option (List ℕ))
chunks = some (codes "ab") ∷ some (codes "c") ∷ []

abbrev uploaded : Tunnel
uploaded =
    (upload_file plain declared.0 declared.0 (bearer 3) 44 none chunks 5 6 (reading 6).stamp
      (reading 7).stamp).0

upload_test :
    (get same_id 44 uploaded.files)
    ≡ some (record {
      descriptor = record declared.1 { bytes_transferred = 3; status = FileStatus.available };
      upload = record { total = 3; bytes = codes "abc" };
    })
unfolding upload_file receive_upload read_body requested_range store_upload get append commit len
    whole new declare_file require_phone validate_declaration media_is_accepted pattern_accepts
    strip_suffix declare_result put ensure_active authorize permits token token_hash bearer_hash
    hashes_equal publish bearer claimed
upload_test = refl

abbrev download_result : Result (Tunnel × Download) ApiError
download_result = download_file plain uploaded (bearer 2) 44 8 (reading 8).stamp

abbrev downloaded : Tunnel × Download
downloaded = elim download_result [
  | ok r ↦ r
  | err e ↦ (waiting_tunnel, record { media_type = []; content = [] })
]

download_test : download_result ≡ ok downloaded
unfolding download_file require_desktop upload_file receive_upload read_body requested_range
    store_upload get append commit len whole new declare_file require_phone validate_declaration
    media_is_accepted pattern_accepts strip_suffix declare_result put ensure_active authorize
    permits token token_hash bearer_hash hashes_equal publish bearer claimed
download_test = refl

waiting-Reached : Reached plain waiting_tunnel
waiting-Reached =
    created (codes "http://a/") request 7 (reading 1) (reading 2) {response = response} create_test

declared-Reached : Reached plain declared.0
declared-Reached =
    Reached.declared (bearer 3) photo (reading 4) {descriptor = declared.1}
      (Reached.claimed (41 ∷ 61 ∷ []) (reading 3) {capability = claimed.1} waiting-Reached
        claim_test)
      declare_test

uploaded-Reached : Reached plain uploaded
uploaded-Reached =
    Reached.uploaded (bearer 3) 44 none chunks 5 6 (reading 6).stamp (reading 7).stamp
      declared-Reached declared-Reached refl

download_serves_whole_example :
    (stored : StoredFile) × (get same_id 44 uploaded.files ≡ some stored)
    × (downloaded.1.content ≡ stored.upload.bytes)
    × (length downloaded.1.content ≡ stored.descriptor.size_bytes)
download_serves_whole_example =
    download_serves_whole plain {t = uploaded} (bearer 2) 44 8 (reading 8).stamp downloaded
      uploaded-Reached download_test

claim_iff_example :
    ((r : Tunnel × Str) × (claim_tunnel plain waiting_tunnel (41 ∷ 61 ∷ []) (reading 3) ≡ ok r)) ↔ (
      (waiting_tunnel.status ≡ TunnelStatus.waiting)
      × ((reading 3).now < waiting_tunnel.expires_at)
      × (waiting_tunnel.pairing_hash ≡ some (plain.sha256 (bytes (41 ∷ 61 ∷ [])))))
claim_iff_example = claim_iff plain waiting_tunnel (41 ∷ 61 ∷ []) (reading 3)

abbrev mint_result : Result (Tunnel × EventTicketResponse) ApiError
mint_result = create_event_ticket plain claimed.0 (bearer 2) (reading 5)

abbrev minted : Tunnel × EventTicketResponse
minted = elim mint_result [
  | ok r ↦ r
  | err e ↦ (waiting_tunnel, record { ticket = []; expires_at = 0 })
]

mint_test : mint_result ≡ ok minted
unfolding create_event_ticket require_either put ensure_active authorize permits token token_hash
    bearer_hash hashes_equal publish bearer claimed strip_suffix
mint_test = refl

open_test : (connect_events plain minted.0 (45 ∷ 65 ∷ []) 6).1 ≡ ok tt
unfolding connect_events create_event_ticket require_either put get delete ensure_active authorize
    permits token token_hash bearer_hash hashes_equal publish bearer claimed strip_suffix
open_test = refl

redeem_is_once_example :
    (connect_events plain (connect_events plain minted.0 (45 ∷ 65 ∷ []) 6).0 (45 ∷ 65 ∷ []) 7).1
    ≢ ok tt
redeem_is_once_example =
    redeem_is_once plain minted.0 (45 ∷ 65 ∷ []) 6 7
      (Reached.minted (bearer 2) (reading 5) {response = minted.1}
        (Reached.claimed (41 ∷ 61 ∷ []) (reading 3) {capability = claimed.1} waiting-Reached
          claim_test)
        mint_test)
      open_test
