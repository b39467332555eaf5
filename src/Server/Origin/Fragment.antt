-- ===== src/Server/Origin/Fragment.antt =====
-- The pairing link that `create_tunnel` of src/lib.rs answers.
use ftnl_backend_api_rs.Base.{ℕ, ◌==◌, ◌++◌, append_assoc, some, ◌≡◌, ap, ◌∙◌, ok}
use ftnl_backend_api_rs.Text.{Str, codes, split_once, trim_end}
use ftnl_backend_api_rs.Text.Laws.{Lacks, split_once-append}
use ftnl_backend_api_rs.Server.{Platform, Tunnel}
use ftnl_backend_api_rs.Server.Access.{token}
use ftnl_backend_api_rs.Server.Handlers.{
  CreateTunnelRequest, CreateTunnelResponse, Reading, create_tunnel,
}
use ftnl_backend_api_rs.Server.Accepted.{create_accepted}

-- The address that a browser sends to the portal: the link up to its `#`.
abbrev pub address : Platform → Str → ℕ → Str
address platform origin id =
    trim_end (λ c. c == b'/') origin ++ codes "/t/" ++ platform.hyphenated id

-- The link of an accepted creation has the pairing secret behind its first `#`, where a browser keeps it
-- to itself; before it stands the address alone, as long as origin and identity have no `#`.
pub secret_in_fragment :
    (platform : Platform) (origin : Str) (request : CreateTunnelRequest) (id : ℕ)
    (pairing desk : Reading) (r : Tunnel × CreateTunnelResponse)
    → create_tunnel platform origin request id pairing desk ≡ ok r
    → Lacks b'#' (address platform origin id)
    → split_once b'#' r.1.pairing_uri
      ≡ some (address platform origin id, codes "c=" ++ token platform pairing.first pairing.second)
secret_in_fragment platform origin request id pairing desk r h clean =
    let (e, _, _, _, _, _) = create_accepted platform origin request id pairing desk {r = r} h in
    let secret = token platform pairing.first pairing.second in
    ap (λ q. split_once b'#' q.1.pairing_uri) e
    ∙ ap (split_once b'#') (append_assoc (address platform origin id) (codes "#c=") secret)
    ∙ split_once-append b'#' (address platform origin id) (codes "c=" ++ secret) clean
