-- ===== src/Server/Tests/Session.antt =====
-- The session again, up to the bytes that arrive, and what a client reads of it.
use ftnl_backend_api_rs.Base.{
  ℕ, ◌+◌, ◌<◌, ◌↔◌, true, false, List, [], ◌∷◌, ◌++◌, map, flatten, none, some, ◌≡◌, ◌⊎◌, refl,
  Result, ok, err, arith, length, get, put, inl,
}
use ftnl_backend_api_rs.Text.{split_once, trim_end, Str, codes, bytes, is_empty, strip_suffix}
use ftnl_backend_api_rs.Text.Laws.{Lacks}
use ftnl_backend_api_rs.Text.Decimal.{decimal, digits}
use ftnl_backend_api_rs.Protocol.{TunnelStatus, permits}
use ftnl_backend_api_rs.Declaration.{validate_declaration, media_is_accepted, pattern_accepts}
use ftnl_backend_api_rs.Resumable.Range.{len, whole}
use ftnl_backend_api_rs.Resumable.Upload.{append, commit, new}
use ftnl_backend_api_rs.Server.{
  Tunnel, TunnelEvent, StoredFile, FileDescriptor, FileStatus, ApiError, same_id, publish,
}
use ftnl_backend_api_rs.Server.Access.{
  ensure_active, authorize, token, token_hash, hashes_equal, bearer_hash, require_phone,
  require_either,
}
use ftnl_backend_api_rs.Server.Access.Bearer.{bearer_hash_iff}
use ftnl_backend_api_rs.Server.Handlers.{claim_tunnel, declare_file, pairing_uri}
use ftnl_backend_api_rs.Server.Transfers.{
  upload_file, download_file, Download, UploadResponse, upload_response, receive_upload, read_body,
  requested_range, store_upload,
}
use ftnl_backend_api_rs.Server.Invariant.Traces.{Reached-IsSound}
use ftnl_backend_api_rs.Server.RoundTrip.{upload_then_download}
use ftnl_backend_api_rs.Server.Snapshot.{
  TunnelSnapshot, get_tunnel, descriptors, sort_by_created_at, insert_by_created_at,
}
use ftnl_backend_api_rs.Server.Snapshot.Order.{IsSorted, created_then, get_tunnel_orders}
use ftnl_backend_api_rs.Server.Table.{new_state}
use ftnl_backend_api_rs.Server.History.{Numbered, IsNumbered}
use ftnl_backend_api_rs.Server.Feed.{event_socket}
use ftnl_backend_api_rs.Server.Feed.Laws.{feed_in_order}
use ftnl_backend_api_rs.Server.Origin.{origin_is_allowed}
use ftnl_backend_api_rs.Server.Origin.Fragment.{address, secret_in_fragment}
use ftnl_backend_api_rs.Server.Origin.Laws.{slash_splits_origin}
use ftnl_backend_api_rs.Server.Tests.{
  request, response, create_test, plain, reading, bearer, waiting_tunnel, claimed, declared,
  declared-Reached, declare_result, chunks,
}

bearer_hash_iff_example : (bearer_hash plain (bearer 2) ≡ ok (bytes (42 ∷ 62 ∷ []))) ↔ (
    (header : List ℕ) × (value : Str) × (bearer 2 ≡ some header)
    × (plain.to_str header ≡ some (codes "Bearer " ++ value))
    × (is_empty value ≡ false)
    × (bytes (42 ∷ 62 ∷ []) ≡ plain.sha256 (bytes value)))
bearer_hash_iff_example = bearer_hash_iff plain (bearer 2) (bytes (42 ∷ 62 ∷ []))

slash_splits_origin_example :
    (pairing_uri plain (codes "http://a" ++ codes "/") 7 (codes "s")
      ≡ pairing_uri plain (codes "http://a") 7 (codes "s"))
    × (origin_is_allowed (new_state (codes "http://a" ++ codes "/")) (bytes (codes "http://a"))
        ≡ false)
    × (origin_is_allowed (new_state (codes "http://a")) (bytes (codes "http://a")) ≡ true)
slash_splits_origin_example = slash_splits_origin plain (codes "http://a") 7 (codes "s")

-- Two files that were declared in the other order than the map holds them.
abbrev picture : ℕ → FileDescriptor
picture n = record {
  file_id = n;
  name = codes "a.png";
  media_type = codes "image/png";
  size_bytes = 3;
  bytes_transferred = 0;
  status = FileStatus.declared;
  created_at = n;
}

abbrev gallery : Tunnel
gallery = record claimed.0 {
  files =
      (5, record { descriptor = picture 5; upload = new 3 })
      ∷ (4, record { descriptor = picture 4; upload = new 3 })
      ∷ [];
}

abbrev shown : TunnelSnapshot
shown = record {
  tunnel_id = 7;
  status = TunnelStatus.connected;
  expires_at = 60_000_000_002;
  files = picture 4 ∷ picture 5 ∷ [];
}

snapshot_test : get_tunnel plain gallery 7 (bearer 2) 8 ≡ ok shown
unfolding get_tunnel sort_by_created_at insert_by_created_at claim_tunnel ensure_active authorize
    permits token token_hash hashes_equal bearer_hash require_either bearer publish claimed
snapshot_test = refl

get_tunnel_orders_example :
    (shown.status ≡ gallery.status)
    × (shown.expires_at ≡ gallery.expires_at)
    × (8 < shown.expires_at)
    × IsSorted shown.files
    × ((instant : ℕ)
        → created_then instant shown.files ≡ created_then instant (descriptors gallery))
get_tunnel_orders_example = get_tunnel_orders plain gallery 7 (bearer 2) 8 shown snapshot_test

abbrev answer : UploadResponse
answer = record { status = 204; upload_offset = codes "3"; upload_complete = codes "true" }

answer_test :
    (upload_file plain declared.0 declared.0
      (bearer 3)
      44
      none
      chunks
      5
      6
      (reading 6).stamp
      (reading 7).stamp).1
    ≡ ok answer
unfolding upload_response decimal digits upload_file receive_upload read_body requested_range
    store_upload get append commit len whole new declare_file require_phone validate_declaration
    media_is_accepted pattern_accepts strip_suffix declare_result put ensure_active authorize
    permits token token_hash bearer_hash hashes_equal publish bearer claimed
answer_test = refl

abbrev photo_file : StoredFile
photo_file = record { descriptor = declared.1; upload = new 3 }

declared_file_test : get same_id 44 declared.0.files ≡ some photo_file
unfolding get put new declare_file require_phone validate_declaration media_is_accepted
    pattern_accepts strip_suffix declare_result ensure_active authorize permits token token_hash
    bearer_hash hashes_equal publish bearer claimed
declared_file_test = refl

abbrev received : Tunnel × Result UploadResponse ApiError
received =
    upload_file plain declared.0 declared.0 (bearer 3) 44 none chunks 5 6 (reading 6).stamp
      (reading 7).stamp

upload_then_download_example :
    (received.1
      ≡ ok (
          upload_response (record {
            offset = photo_file.descriptor.size_bytes;
            complete = true;
            replayed = false;
          })))
    × ((r : Tunnel × Download) × (download_file plain received.0 (bearer 2) 44 8 (reading 8).stamp
          ≡ ok r)
        × (r.1.content ≡ flatten (codes "ab" ∷ codes "c" ∷ [])))
unfolding get put new declare_file require_phone validate_declaration media_is_accepted
    pattern_accepts strip_suffix declare_result ensure_active authorize permits token token_hash
    bearer_hash hashes_equal publish bearer claimed
upload_then_download_example =
    upload_then_download plain declared.0 (bearer 3) (bearer 2) (43 ∷ 63 ∷ []) 44 photo_file
      (codes "ab" ∷ codes "c" ∷ []) 5 6 8 (reading 6).stamp (reading 7).stamp (reading 8).stamp
      (Reached-IsSound plain {t = declared.0} declared-Reached) (omega arith) (omega arith)
      (omega arith) (inl refl) refl refl refl declared_file_test refl refl

counter_test : IsNumbered claimed.0
unfolding claimed claim_tunnel ensure_active authorize permits hashes_equal token_hash token publish
counter_test = record { in_order = (refl, refl, tt); counted = refl }

feed_in_order_example :
    let feed =
      event_socket
        (λ event. some event.kind)
        (λ sent frame. true)
        []
        (map ok claimed.0.events ++ err (codes "lagged") ∷ []) in
    (sent later : List TunnelEvent) × (claimed.0.events ≡ sent ++ later)
    × (feed.frames ≡ map (λ event. event.kind) sent)
    × Numbered 7 (1 + length waiting_tunnel.events) sent
    × ((feed.is_closed ≡ true) ⊎ (later ≡ []))
unfolding claimed claim_tunnel ensure_active authorize permits hashes_equal token_hash token publish
feed_in_order_example =
    feed_in_order (λ event. event.kind) (λ sent frame. true) waiting_tunnel claimed.0
      (map ok claimed.0.events ++ err (codes "lagged") ∷ []) [] counter_test refl

address_test : Lacks b'#' (address plain (codes "http://a/") 7)
unfolding trim_end
address_test = (
  λ h. omega arith,
  (
    λ h. omega arith,
    (
      λ h. omega arith,
      (
        λ h. omega arith,
        (
          λ h. omega arith,
          (
            λ h. omega arith,
            (
              λ h. omega arith,
              (
                λ h. omega arith,
                (λ h. omega arith, (λ h. omega arith, (λ h. omega arith, (λ h. omega arith, tt)))),
              ),
            ),
          ),
        ),
      ),
    ),
  ),
)

secret_in_fragment_example :
    split_once b'#' response.pairing_uri
    ≡ some (address plain (codes "http://a/") 7, codes "c=" ++ token plain 41 61)
unfolding trim_end
secret_in_fragment_example =
    secret_in_fragment plain (codes "http://a/") request 7 (reading 1) (reading 2)
      (waiting_tunnel, response) create_test address_test
