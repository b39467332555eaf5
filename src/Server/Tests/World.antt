-- ===== src/Server/Tests/World.antt =====
-- A run of the server with an upload that is overtaken by a cancellation.
use mathlib.Core.Path.{subst}
use mathlib.Core.Option.{some-injective}
use ftnl_backend_api_rs.Base.{
  Bool, false, sym, ◌∙◌, arith, [], ◌∷◌, none, some, ◌≡◌, refl, ok, get, put,
}
use ftnl_backend_api_rs.Text.{codes, strip_suffix}
use ftnl_backend_api_rs.Protocol.{permits}
use ftnl_backend_api_rs.Declaration.{validate_declaration, media_is_accepted, pattern_accepts}
use ftnl_backend_api_rs.Resumable.Range.{len, whole}
use ftnl_backend_api_rs.Resumable.Upload.{new}
use ftnl_backend_api_rs.Server.Refinement.Abstract.{Fits}
use ftnl_backend_api_rs.Server.Refinement.Whole.{Represented}
use ftnl_backend_api_rs.Server.Refinement.World.{
  FitRun, FitRun-WorldStands, Stands, server_refines_quint,
}
use ftnl_backend_api_rs.Server.Refinement.Simulation.{Simulates}
use ftnl_backend_api_rs.Server.Refinement.Arrivals.{arrive-Simulates}
use ftnl_backend_api_rs.Server.Table.Arrival.{Arrival, arrive}
use ftnl_backend_api_rs.Server.{Digest, Tunnel, same_id, publish}
use ftnl_backend_api_rs.Server.Access.{
  ensure_active, authorize, token, token_hash, hashes_equal, bearer_hash, require_phone,
}
use ftnl_backend_api_rs.Server.Handlers.{create_tunnel, validate_create, claim_tunnel, declare_file}
use ftnl_backend_api_rs.Server.Transfers.{Upload, receive_upload, read_body, requested_range}
use ftnl_backend_api_rs.Server.Table.{Call, Request, new_state, handle, with_tunnel, serve}
use ftnl_backend_api_rs.Server.Table.World.{World, Pending, Step, Run, begin_upload, finish_upload}
use ftnl_backend_api_rs.Server.Table.Invariant.{WorldIsSound, Run-WorldIsSound}
use ftnl_backend_api_rs.Server.Tests.{
  plain, request, reading, bearer, photo, chunks, claimed, declared, declare_result,
}

abbrev nothing_issued : Digest → Bool
nothing_issued d = false

abbrev asked : World → Request → World
asked w r = record w { state = (handle plain w.state r).0 }

abbrev empty : World
empty = record { state = new_state (codes "http://a"); pending = [] }

abbrev with_phone : World
with_phone =
    asked (asked empty (Request.create request 7 (reading 1) (reading 2)))
      (Request.call 7 (Call.claim (41 ∷ 61 ∷ []) (reading 3)))

with_phone-Run : Run plain (codes "http://a") with_phone
with_phone-Run =
    Run.next (Run.next (Run.start {w = empty} refl) (Step.request _ refl))
      (Step.request {w' = with_phone} (Request.call 7 (Call.claim (41 ∷ 61 ∷ []) (reading 3))) refl)

abbrev with_photo : World
with_photo = asked with_phone (Request.call 7 (Call.declare (bearer 3) photo (reading 4)))

with_photo-Run : Run plain (codes "http://a") with_photo
with_photo-Run = Run.next with_phone-Run (
    Step.request {w' = with_photo} (Request.call 7 (Call.declare (bearer 3) photo (reading 4)))
      refl)

abbrev abc : Upload
abc = record { supplied = 43 ∷ 63 ∷ []; range = whole 3; bytes = codes "abc" }

begin_test : begin_upload plain with_photo.state 7 44 (bearer 3) none chunks 5 ≡ ok abc
unfolding begin_upload receive_upload read_body requested_range handle serve with_tunnel new_state
    create_tunnel validate_create claim_tunnel declare_file require_phone validate_declaration
    media_is_accepted pattern_accepts strip_suffix get put len whole new ensure_active authorize
    permits token token_hash bearer_hash hashes_equal publish bearer
begin_test = refl

abbrev in_flight : Pending
in_flight = record { tunnel_id = 7; file_id = 44; upload = abc }

abbrev overtaken : World
overtaken =
    asked (record with_photo { pending = in_flight ∷ [] })
      (Request.call 7 (Call.cancel (bearer 2) (reading 6)))

abbrev ended : World
ended = record {
  state = (finish_upload plain overtaken.state in_flight 7 (reading 7).stamp (reading 8).stamp).0;
  pending = [];
}

ended-Run : Run plain (codes "http://a") ended
ended-Run =
    Run.next
      (Run.next
        (Run.next with_photo-Run (Step.begin 7 44 (bearer 3) none chunks 5 abc begin_test refl))
        (Step.request {w' = overtaken} (Request.call 7 (Call.cancel (bearer 2) (reading 6))) refl))
      (Step.finish {w' = ended} [] [] in_flight 7 (reading 7).stamp (reading 8).stamp refl refl)

Run-WorldIsSound_example : WorldIsSound ended
Run-WorldIsSound_example = Run-WorldIsSound plain (codes "http://a") {w = ended} ended-Run

photo_test : get same_id 7 with_photo.state.tunnels ≡ some declared.0
unfolding handle serve with_tunnel new_state create_tunnel validate_create claim_tunnel declare_file
    require_phone validate_declaration media_is_accepted pattern_accepts strip_suffix get put new
    ensure_active authorize permits token token_hash bearer_hash hashes_equal publish bearer claimed
    declare_result
photo_test = refl

phone_test : get same_id 7 with_phone.state.tunnels ≡ some claimed.0
unfolding handle serve with_tunnel new_state create_tunnel validate_create claim_tunnel get put
    ensure_active authorize permits token token_hash hashes_equal publish claimed
phone_test = refl

-- The declared file has bytes, and a new identity in the tunnel that was found.
photo-Fits :
    (t : Tunnel)
    → get same_id 7 with_phone.state.tunnels ≡ some t
    → Fits plain t nothing_issued (Call.declare (bearer 3) photo (reading 4))
unfolding claim_tunnel ensure_active authorize permits token token_hash hashes_equal publish claimed
    get
photo-Fits t found =
    subst (λ u. Fits plain u nothing_issued (Call.declare (bearer 3) photo (reading 4)))
      (some-injective _ _ (sym phone_test ∙ found)) (refl, λ h. omega arith)

with_photo-FitRun : FitRun plain (codes "http://a") with_photo nothing_issued
with_photo-FitRun =
    FitRun.next
      (FitRun.next
        (FitRun.next (FitRun.start {w = empty} refl)
          (Step.request (Request.create request 7 (reading 1) (reading 2)) refl) tt)
        (Step.request {w' = with_phone} (Request.call 7 (Call.claim (41 ∷ 61 ∷ []) (reading 3)))
          refl)
        (λ t found. tt))
      (Step.request {w' = with_photo} (Request.call 7 (Call.declare (bearer 3) photo (reading 4)))
        refl)
      photo-Fits

server_refines_quint_example : Represented declared.0 nothing_issued
server_refines_quint_example =
    server_refines_quint plain (codes "http://a") with_photo nothing_issued 7 declared.0
      with_photo-FitRun photo_test

abbrev with_photo-Stands : Stands nothing_issued declared.0
with_photo-Stands =
    (FitRun-WorldStands plain (codes "http://a") with_photo-FitRun).tunnels_stand 7 declared.0
      photo_test

abbrev send_photo : Arrival
send_photo =
    Arrival.upload declared.0 (bearer 3) 44 none chunks 5 6 (reading 6).stamp (reading 7).stamp

arrive-Simulates_example :
    Simulates with_photo-Stands.1.0 (arrive plain 7 send_photo declared.0).0 nothing_issued
arrive-Simulates_example =
    arrive-Simulates plain declared.0 nothing_issued with_photo-Stands.1.0 with_photo-Stands.0
      with_photo-Stands.1.2 7 send_photo with_photo-Stands.0
