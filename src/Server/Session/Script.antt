-- ===== src/Server/Session/Script.antt =====
-- A session with the server of src/lib.rs, from its inputs to the answer of the download.
use ftnl_backend_api_rs.Base.{
  ℕ, ◌+◌, ◌<◌, List, [], Option, some, none, ◌≡◌, Result, ok, err, put, length, map, flatten,
}
use ftnl_backend_api_rs.Text.{Str, codes}
use ftnl_backend_api_rs.Protocol.{TunnelStatus}
use ftnl_backend_api_rs.Declaration.{DeclarationPolicy, validate_declaration}
use ftnl_backend_api_rs.Server.{
  Platform, StoredFile, Tunnel, AppState, ApiError, Stamp, publish, same_id, seconds,
}
use ftnl_backend_api_rs.Server.Access.{token, token_hash, bearer_hash}
use ftnl_backend_api_rs.Server.Handlers.{
  CreateTunnelRequest, DeclareFileRequest, Reading, validate_create, new_tunnel, declared_file,
  declaration,
}
use ftnl_backend_api_rs.Server.Transfers.{Upload, UploadResponse}
use ftnl_backend_api_rs.Server.Table.{Call, Request, Response, handle}
use ftnl_backend_api_rs.Server.Table.World.{begin_upload, finish_upload}

-- The inputs of a session: the requests with their headers, and what they read of the clock and of the
-- random generator.
pub record Script : Type 0 where
  pub request : CreateTunnelRequest
  pub tunnel_id : ℕ
  pub pairing : Reading
  pub desk : Reading
  pub claiming : Reading
  pub file : DeclareFileRequest
  pub declaring : Reading
  pub phone : Option (List ℕ)
  pub desktop : Option (List ℕ)
  pub chunks : List (List ℕ)
  pub first : ℕ
  pub second : ℕ
  pub third : ℕ
  pub progress : Stamp
  pub available : Stamp
  pub downloaded : Stamp

module _ (platform : Platform) (x : Script) where
  abbrev pub secret : Str
  secret = token platform x.pairing.first x.pairing.second

  abbrev pub phone_capability : Str
  phone_capability = token platform x.claiming.first x.claiming.second

  abbrev pub desktop_capability : Str
  desktop_capability = token platform x.desk.first x.desk.second

  abbrev pub expires_at : ℕ
  expires_at = x.desk.now + seconds x.request.expires_in_seconds

  -- The requests are valid, come in time, and show the capabilities that the server has given out; the
  -- chunks have the declared length.
  pub record IsProper : Type 0 where
    pub valid : validate_create x.request ≡ ok tt
    pub acceptable :
        let limits : DeclarationPolicy = record {
          current_files = 0;
          max_files = x.request.max_files;
          max_file_bytes = x.request.max_file_bytes;
          accepted_media = x.request.accept;
        } in
        validate_declaration limits (declaration x.file) ≡ ok tt
    pub claimed_in_time : x.claiming.now < expires_at
    pub declared_in_time : x.declaring.now < expires_at
    pub begun_in_time : x.first < expires_at
    pub stored_in_time : x.second < expires_at
    pub downloaded_in_time : x.third < expires_at
    pub phone_shows : bearer_hash platform x.phone ≡ ok (token_hash platform phone_capability)
    pub desktop_shows : bearer_hash platform x.desktop ≡ ok (token_hash platform desktop_capability)
    pub sized : length (flatten x.chunks) ≡ x.file.size_bytes

  abbrev pub stored_after :
      AppState → Result Upload ApiError → AppState × Result UploadResponse ApiError
  stored_after s (err e) = (s, err e)
  stored_after s (ok u) =
      finish_upload platform s
        (record { tunnel_id = x.tunnel_id; file_id = x.declaring.first; upload = u }) x.second
        x.progress x.available

  -- The session, and the answer of the download.
  unfoldable pub session : AppState → AppState × Result Response ApiError
  session s =
      let id = x.tunnel_id in
      let file_id = x.declaring.first in
      let (made, _) = handle platform s (Request.create x.request id x.pairing x.desk) in
      let (paired, _) = handle platform made (Request.call id (Call.claim secret x.claiming)) in
      let (declared, _) =
        handle platform paired (Request.call id (Call.declare x.phone x.file x.declaring)) in
      let (uploaded, _) =
        stored_after declared
          (begin_upload platform declared id file_id x.phone none (map some x.chunks) x.first) in
      handle platform uploaded
        (Request.call id (Call.download file_id x.desktop x.third x.downloaded))

  -- The tunnel after each of the first three requests.
  abbrev pub waiting_tunnel : Tunnel
  waiting_tunnel = new_tunnel platform x.request x.tunnel_id x.pairing x.desk

  abbrev pub paired_tunnel : Tunnel
  paired_tunnel =
      publish
        (record waiting_tunnel {
          phone_hash = some (token_hash platform phone_capability);
          pairing_hash = none;
          status = TunnelStatus.connected;
        })
        (codes "tunnel.connected") none none none x.claiming.stamp

  abbrev pub new_file : StoredFile
  new_file = declared_file x.file x.declaring.first x.declaring.now

  abbrev pub declared_tunnel : Tunnel
  declared_tunnel =
      publish (record paired_tunnel { files = put same_id x.declaring.first new_file [] })
        (codes "file.declared") (some x.declaring.first) (some 0) none x.declaring.stamp
