-- ===== src/Server/Tests/Delivery.antt =====
-- A session that delivers three bytes, beside another tunnel.
use ftnl_backend_api_rs.Base.{[], ◌∷◌, ◌≡◌, refl, ok, arith, get, some}
use ftnl_backend_api_rs.Text.{codes, strip_suffix}
use ftnl_backend_api_rs.Protocol.{TunnelStatus}
use ftnl_backend_api_rs.Declaration.{validate_declaration, media_is_accepted, pattern_accepts}
use ftnl_backend_api_rs.Server.{AppState, Tunnel, same_id}
use ftnl_backend_api_rs.Server.Access.{token, token_hash, bearer_hash}
use ftnl_backend_api_rs.Server.Handlers.{validate_create}
use ftnl_backend_api_rs.Server.Transfers.{Download}
use ftnl_backend_api_rs.Server.Table.{content}
use ftnl_backend_api_rs.Server.Session.Script.{Script, IsProper, session}
use ftnl_backend_api_rs.Server.Session.Delivery.{session_delivers}
use ftnl_backend_api_rs.Server.Tests.{plain, request, reading, bearer, photo, claimed}

abbrev script : Script
script = record {
  request = request;
  tunnel_id = 7;
  pairing = reading 1;
  desk = reading 2;
  claiming = reading 3;
  file = photo;
  declaring = reading 4;
  phone = bearer 3;
  desktop = bearer 2;
  chunks = codes "ab" ∷ codes "c" ∷ [];
  first = 5;
  second = 6;
  third = 8;
  progress = (reading 6).stamp;
  available = (reading 7).stamp;
  downloaded = (reading 8).stamp;
}

abbrev busy : AppState
busy = record { tunnels = (8, claimed.0) ∷ []; portal_origin = codes "http://a/" }

script-IsProper : IsProper plain script
unfolding validate_create validate_declaration media_is_accepted pattern_accepts strip_suffix token
    token_hash bearer_hash bearer
script-IsProper = record {
  valid = refl;
  acceptable = refl;
  claimed_in_time = omega arith;
  declared_in_time = omega arith;
  begun_in_time = omega arith;
  stored_in_time = omega arith;
  downloaded_in_time = omega arith;
  phone_shows = refl;
  desktop_shows = refl;
  sized = refl;
}

session_delivers_example :
    let (s', answer) = session plain script busy in
    (d : Download) × (t : Tunnel) × (answer ≡ ok (content d))
    × (d.content ≡ codes "abc")
    × (get same_id 7 s'.tunnels ≡ some t)
    × (t.status ≡ TunnelStatus.complete)
session_delivers_example = session_delivers plain script busy script-IsProper
