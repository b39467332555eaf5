-- ===== src/Server/Tests/Table.antt =====
-- Requests to one tunnel: an upload that is overtaken by a cancellation, and one that is not.
use ftnl_backend_api_rs.Base.{true, false, [], ◌∷◌, none, some, ◌≡◌, refl, ok, get, put, inl, inr}
use ftnl_backend_api_rs.Text.{codes, strip_suffix}
use ftnl_backend_api_rs.Protocol.{TunnelStatus, permits}
use ftnl_backend_api_rs.Declaration.{validate_declaration, media_is_accepted, pattern_accepts}
use ftnl_backend_api_rs.Resumable.Range.{len, whole}
use ftnl_backend_api_rs.Resumable.Upload.{append, commit, new}
use ftnl_backend_api_rs.Server.{Tunnel, AppState, same_id, publish}
use ftnl_backend_api_rs.Server.Access.{
  ensure_active, authorize, token, token_hash, hashes_equal, bearer_hash, require_phone,
}
use ftnl_backend_api_rs.Server.Handlers.{declare_file}
use ftnl_backend_api_rs.Server.Transfers.{
  upload_response, upload_file, receive_upload, read_body, requested_range, store_upload,
}
use ftnl_backend_api_rs.Server.Table.{Response}
use ftnl_backend_api_rs.Server.Table.World.{World, Pending, Step, finish_upload}
use ftnl_backend_api_rs.Server.Table.Arrival.{Arrival, arrive}
use ftnl_backend_api_rs.Server.Table.Arrival.Closed.{arrive-Refuses}
use ftnl_backend_api_rs.Server.Table.Arrival.Credentials.{ArrivalShows, arrive-Shows}
use ftnl_backend_api_rs.Server.Table.Closed.{Refuses}
use ftnl_backend_api_rs.Server.Table.Evolution.{Continues, step-Continues}
use ftnl_backend_api_rs.Server.Tests.{
  plain, reading, bearer, chunks, claimed, declared, declare_result,
}

abbrev send_photo : Arrival
send_photo =
    Arrival.upload declared.0 (bearer 3) 44 none chunks 5 6 (reading 6).stamp (reading 7).stamp

abbrev cancelled : Tunnel
cancelled = record declared.0 { status = TunnelStatus.cancelled; files = [] }

-- The first look finds the tunnel open, the second cancelled.
arrive-Refuses_example : Refuses cancelled (arrive plain 7 send_photo cancelled)
arrive-Refuses_example =
    arrive-Refuses plain 7 cancelled send_photo (inr (inl (inr (inl refl)))) refl

abbrev photo_stored : Response
photo_stored =
    Response.progress (upload_response (record { offset = 3; complete = true; replayed = false }))

send_photo_test : (arrive plain 7 send_photo declared.0).1 ≡ ok photo_stored
unfolding arrive upload_file receive_upload read_body requested_range store_upload get append commit
    len whole new declare_file require_phone validate_declaration media_is_accepted pattern_accepts
    strip_suffix declare_result put ensure_active authorize permits token token_hash bearer_hash
    hashes_equal publish bearer claimed
send_photo_test = refl

arrive-Shows_example : ArrivalShows plain declared.0 send_photo
arrive-Shows_example = arrive-Shows plain 7 declared.0 send_photo photo_stored send_photo_test

abbrev table : AppState
table = record { tunnels = (7, declared.0) ∷ []; portal_origin = codes "http://a" }

abbrev in_flight : Pending
in_flight = record {
  tunnel_id = 7;
  file_id = 44;
  upload = record { supplied = 43 ∷ 63 ∷ []; range = whole 3; bytes = codes "abc" };
}

abbrev before : World
before = record { state = table; pending = in_flight ∷ [] }

abbrev after : World
after = record {
  state = (finish_upload plain table in_flight 6 (reading 6).stamp (reading 7).stamp).0;
  pending = [];
}

found_test : get same_id 7 table.tunnels ≡ some declared.0
unfolding get
found_test = refl

step-Continues_example : Continues table after.state 7 declared.0
step-Continues_example =
    step-Continues plain {w = before} {w' = after}
      (Step.finish [] [] in_flight 6 (reading 6).stamp (reading 7).stamp refl refl) 7 declared.0
      found_test refl
