-- ===== src/Server/Handlers.antt =====
-- The handlers of src/lib.rs on one tunnel that neither upload nor download. A handler that returns
-- each error before it assigns a field has the new tunnel in its result; clock readings and random
-- numbers are arguments.
pub mod Creation
use ftnl_backend_api_rs.Base.{
  ℕ, ◌+◌, not, List, [], ◌∷◌, ◌++◌, Option, none, some, leb, ◌||◌, ltb, ◌==◌, Result, ok, err, ◌>>◌,
  ◌>>=◌, ok_or, map_err, reject_if, if◌then◌else◌, length, get, put, delete,
}
use ftnl_backend_api_rs.Text.{Str, codes, len, is_empty, trim_end}
use ftnl_backend_api_rs.Protocol.{TunnelStatus, pairing_secret, event_ticket, Operation}
use ftnl_backend_api_rs.Declaration.{DeclarationPolicy, FileDeclaration, validate_declaration}
use ftnl_backend_api_rs.Resumable.Upload.{new}
use ftnl_backend_api_rs.Server.{
  Platform, Digest, FileStatus, FileDescriptor, StoredFile, Tunnel, ApiError, invalid, conflict,
  unauthorized, from_rejection, Stamp, publish, seconds, event_ticket_seconds, max_expires_seconds,
  same_id, same_digest,
}
use ftnl_backend_api_rs.Server.Access.{
  ensure_active, authorize, token, token_hash, hashes_equal, bearer_hash, require_desktop,
  require_phone, require_either,
}

pub record CreateTunnelRequest : Type 0 where
  pub application_id : Str
  pub accept : List Str
  pub max_files : ℕ  -- u16
  pub max_file_bytes : ℕ  -- u64
  pub expires_in_seconds : ℕ  -- u32

pub record CreateTunnelResponse : Type 0 where
  pub api_version : Str
  pub tunnel_id : ℕ
  pub status : TunnelStatus
  pub pairing_uri : Str
  pub desktop_capability : Str
  pub expires_at : ℕ

unfoldable pub validate_create : CreateTunnelRequest → Result (Unit {0}) ApiError
validate_create request = do
  reject_if (is_empty request.application_id || ltb 128 (len request.application_id))
      (invalid (codes "application_id must be 1..128 bytes"))
  reject_if (request.max_files == 0 || ltb 100 request.max_files)
      (invalid (codes "max_files must be between 1 and 100"))
  reject_if (request.max_file_bytes == 0 || ltb 5_368_709_120 request.max_file_bytes)
      (invalid (codes "max_file_bytes is outside the supported range"))
  reject_if
      (ltb request.expires_in_seconds 60 || ltb max_expires_seconds request.expires_in_seconds)
      (invalid (codes "expires_in_seconds must be 60..3600"))
  reject_if (length request.accept == 0 || ltb 32 (length request.accept))
      (invalid (codes "accept must contain 1..32 media patterns"))
  ok tt

pub record DeclareFileRequest : Type 0 where
  pub name : Str
  pub media_type : Str
  pub size_bytes : ℕ  -- u64
  pub last_modified_ms : Option ℕ
  pub sha256 : Option Str

pub record EventTicketResponse : Type 0 where
  pub ticket : Str
  pub expires_at : ℕ

-- What one call reads of the clock and of the random generator.
pub record Reading : Type 0 where
  pub now : ℕ
  pub first : ℕ
  pub second : ℕ
  pub stamp : Stamp

abbrev pub policy : Tunnel → DeclarationPolicy
policy t = record {
  current_files = length t.files;
  max_files = t.max_files;
  max_file_bytes = t.max_file_bytes;
  accepted_media = t.accept;
}

abbrev pub declaration : DeclareFileRequest → FileDeclaration
declaration request = record {
  name = request.name;
  media_type = request.media_type;
  size_bytes = request.size_bytes;
  sha256 = request.sha256;
}

abbrev pub declared_file : DeclareFileRequest → ℕ → ℕ → StoredFile
declared_file request file_id created_at = record {
  descriptor = record {
    file_id = file_id;
    name = request.name;
    media_type = request.media_type;
    size_bytes = request.size_bytes;
    bytes_transferred = 0;
    status = FileStatus.declared;
    created_at = created_at;
  };
  upload = new request.size_bytes;
}

-- The end of `connect_events`, once the ticket is found.
abbrev pub redeem : Tunnel → ℕ → Result (Digest × ℕ) ApiError → Tunnel × Result (Unit {0}) ApiError
redeem t now (err e) = (t, err e)
redeem t now (ok (hash, expiry)) = (
  record t { event_tickets = delete same_digest hash t.event_tickets },
  reject_if (leb expiry now) unauthorized,
)

module _ (platform : Platform) where
  abbrev pub new_tunnel :
      CreateTunnelRequest → (tunnel_id : ℕ) → (pairing desktop : Reading) → Tunnel
  new_tunnel request tunnel_id pairing desktop = record {
    id = tunnel_id;
    status = TunnelStatus.waiting;
    pairing_hash = some (token_hash platform (token platform pairing.first pairing.second));
    desktop_hash = token_hash platform (token platform desktop.first desktop.second);
    phone_hash = none;
    expires_at = desktop.now + seconds request.expires_in_seconds;
    max_files = request.max_files;
    max_file_bytes = request.max_file_bytes;
    accept = request.accept;
    files = [];
    sequence = 0;
    event_tickets = [];
    events = [];
  }

  -- `format!("{origin}/t/{tunnel_id}#c={pairing_secret}")`
  abbrev pub pairing_uri : Str → ℕ → Str → Str
  pairing_uri portal_origin tunnel_id secret =
      trim_end (λ c. c == b'/') portal_origin
      ++ codes "/t/"
      ++ platform.hyphenated tunnel_id
      ++ codes "#c="
      ++ secret

  abbrev pub new_response :
      Str
      → CreateTunnelRequest
      → (tunnel_id : ℕ) → (pairing desktop : Reading) → CreateTunnelResponse
  new_response portal_origin request tunnel_id pairing desktop = record {
    api_version = codes "v1";
    tunnel_id = tunnel_id;
    status = TunnelStatus.waiting;
    pairing_uri = pairing_uri portal_origin tunnel_id (token platform pairing.first pairing.second);
    desktop_capability = token platform desktop.first desktop.second;
    expires_at = desktop.now + seconds request.expires_in_seconds;
  }

  -- The tunnel that `create_tunnel` puts into the table, and its answer.
  unfoldable pub create_tunnel :
      Str
      → CreateTunnelRequest
      → (tunnel_id : ℕ) → (pairing desktop : Reading)
      → Result (Tunnel × CreateTunnelResponse) ApiError
  create_tunnel portal_origin request tunnel_id pairing desktop = do
    validate_create request
    ok (
      new_tunnel request tunnel_id pairing desktop,
      new_response portal_origin request tunnel_id pairing desktop,
    )

  unfoldable pub claim_tunnel : Tunnel → Str → Reading → Result (Tunnel × Str) ApiError
  claim_tunnel t secret at = do
    ensure_active t at.now
    authorize t pairing_secret Operation.claim
    expected ← ok_or t.pairing_hash conflict
    reject_if (not (hashes_equal platform expected (token_hash platform secret))) unauthorized
    let phone_capability = token platform at.first at.second
    let claimed = record t {
      phone_hash = some (token_hash platform phone_capability);
      pairing_hash = none;
      status = TunnelStatus.connected;
    }
    ok (publish claimed (codes "tunnel.connected") none none none at.stamp, phone_capability)

  unfoldable pub cancel_tunnel :
      Tunnel → Option (List ℕ) → Reading → Result (Tunnel × Unit {0}) ApiError
  cancel_tunnel t authorization at = do
    supplied ← bearer_hash platform authorization
    ensure_active t at.now
    require_desktop platform t supplied Operation.cancel
    let cleared = record t { status = TunnelStatus.cancelled; files = []; event_tickets = [] }
    ok (publish cleared (codes "tunnel.cancelled") none none none at.stamp, tt)

  -- `first` is the identity of the file, `now` also the time of its creation.
  unfoldable pub declare_file :
      Tunnel
      → Option (List ℕ)
      → DeclareFileRequest
      → Reading
      → Result (Tunnel × FileDescriptor) ApiError
  declare_file t authorization request at = do
    supplied ← bearer_hash platform authorization
    ensure_active t at.now
    require_phone platform t supplied Operation.declare_file
    map_err from_rejection (validate_declaration (policy t) (declaration request))
    let stored = declared_file request at.first at.now
    let with_file = record t { files = put same_id at.first stored t.files }
    ok (
      publish with_file (codes "file.declared") (some at.first) (some 0) none at.stamp,
      stored.descriptor,
    )

  unfoldable pub create_event_ticket :
      Tunnel → Option (List ℕ) → Reading → Result (Tunnel × EventTicketResponse) ApiError
  create_event_ticket t authorization at = do
    supplied ← bearer_hash platform authorization
    ensure_active t at.now
    require_either platform t supplied Operation.mint_event_ticket
    let ticket = token platform at.first at.second
    let expires_at = at.now + seconds event_ticket_seconds
    ok (
      record t {
        event_tickets = put same_digest (token_hash platform ticket) expires_at t.event_tickets;
      },
      record { ticket = ticket; expires_at = expires_at },
    )

  -- `keys().find(…)`
  abbrev pub find_ticket : Digest → List (Digest × ℕ) → Option Digest
  find_ticket supplied [] = none
  find_ticket supplied ((hash, expiry) ∷ tickets) =
      if hashes_equal platform hash supplied then some hash else find_ticket supplied tickets

  abbrev pub live_ticket : Tunnel → Str → ℕ → Result (Digest × ℕ) ApiError
  live_ticket t ticket now = do
    ensure_active t now
    authorize t event_ticket Operation.redeem_event_ticket
    hash ← ok_or (find_ticket (token_hash platform ticket) t.event_tickets) unauthorized
    expiry ← ok_or (get same_digest hash t.event_tickets) unauthorized
    ok (hash, expiry)

  -- The ticket is removed before its expiry is looked at.
  unfoldable pub connect_events : Tunnel → Str → ℕ → Tunnel × Result (Unit {0}) ApiError
  connect_events t ticket now = redeem t now (live_ticket t ticket now)
