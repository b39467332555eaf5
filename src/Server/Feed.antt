-- ===== src/Server/Feed.antt =====
-- The feed of events of a tunnel: `event_socket` of src/lib.rs. JSON, the channel and the socket are
-- parameters: what `to_string` makes of an event, the answers of `recv` in turn, and whether the socket
-- takes a frame after those that it has taken.
pub mod Laws
use ftnl_backend_api_rs.Base.{
  ℕ, Bool, true, false, List, [], ◌∷◌, ◌++◌, Option, none, some, Result, ok, err, if◌then◌else◌,
}
use ftnl_backend_api_rs.Text.{Str}
use ftnl_backend_api_rs.Server.{TunnelEvent}

-- The frames that the socket has taken, and whether the loop has ended and the socket is closed.
pub record Feed : Type 0 where
  pub frames : List Str
  pub is_closed : Bool

module _ (to_string : TunnelEvent → Option Str) (takes : List Str → Str → Bool) where
  unfoldable pub event_socket :
      {RecvError : Type 0} → List Str → List (Result TunnelEvent RecvError) → Feed
  event_socket frames [] = record { frames = frames; is_closed = false }
  event_socket frames (err e ∷ received) = record { frames = frames; is_closed = true }
  event_socket frames (ok event ∷ received) = elim (to_string event) [
    | none ↦ event_socket frames received
    | some payload ↦
        let rest = event_socket (frames ++ payload ∷ []) received in
        if takes frames payload then rest else record { frames = frames; is_closed = true }
  ]
