-- ===== src/Server/Table/World.antt =====
-- The server with its uploads in flight: an upload holds the lock of `AppState` at its first look at
-- the tunnel and again at its second, and any other requests may come between (src/lib.rs).
use ftnl_backend_api_rs.Base.{ℕ, List, [], ◌∷◌, ◌++◌, Option, Result, ok, ◌>>=◌, ok_or, get, ◌≡◌}
use ftnl_backend_api_rs.Text.{Str}
use ftnl_backend_api_rs.Server.{Platform, AppState, ApiError, not_found, Stamp, same_id}
use ftnl_backend_api_rs.Server.Access.{bearer_hash}
use ftnl_backend_api_rs.Server.Transfers.{Upload, UploadResponse, receive_upload, store_upload}
use ftnl_backend_api_rs.Server.Table.{Request, new_state, handle, with_tunnel}

-- An upload between its two looks.
pub record Pending : Type 0 where
  pub tunnel_id : ℕ
  pub file_id : ℕ
  pub upload : Upload

pub record World : Type 0 where
  pub state : AppState
  pub pending : List Pending

module _ (platform : Platform) where
  -- `upload_file` up to the end of the request body.
  unfoldable pub begin_upload :
      AppState
      → ℕ
      → ℕ
      → Option (List ℕ)
      → Option (List ℕ)
      → List (Option (List ℕ))
      → ℕ
      → Result Upload ApiError
  begin_upload s tunnel_id file_id authorization content_range body now = do
    supplied ← bearer_hash platform authorization
    t ← ok_or (get same_id tunnel_id s.tunnels) not_found
    receive_upload platform t authorization file_id content_range body now

  -- The rest of `upload_file`.
  unfoldable pub finish_upload :
      AppState → Pending → ℕ → Stamp → Stamp → AppState × Result UploadResponse ApiError
  finish_upload s p now progress available =
      with_tunnel s p.tunnel_id
        (λ t. store_upload platform t p.file_id p.upload now progress available)

  pub data Step : World → World → Type 0 where
    request :
        {w w' : World} (r : Request)
        → w' ≡ record w { state = (handle platform w.state r).0 }
        → Step w w'
    begin :
        {w w' : World} (tunnel_id file_id : ℕ) (authorization content_range : Option (List ℕ))
        (body : List (Option (List ℕ))) (now : ℕ) (u : Upload)
        → begin_upload w.state tunnel_id file_id authorization content_range body now ≡ ok u
        → w' ≡ record w {
          pending = record { tunnel_id = tunnel_id; file_id = file_id; upload = u } ∷ w.pending;
        }
        → Step w w'
    finish :
        {w w' : World} (earlier later : List Pending) (p : Pending) (now : ℕ)
        (progress available : Stamp)
        → w.pending ≡ earlier ++ p ∷ later
        → w' ≡ record {
          state = (finish_upload w.state p now progress available).0;
          pending = earlier ++ later;
        }
        → Step w w'

  -- What a server that starts with an empty table comes to.
  pub data Run (portal_origin : Str) : World → Type 0 where
    start :
        {w : World}
        → w ≡ record { state = new_state portal_origin; pending = [] }
        → Run portal_origin w
    next : {w w' : World} → Run portal_origin w → Step w w' → Run portal_origin w'
