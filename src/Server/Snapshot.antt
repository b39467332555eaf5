-- ===== src/Server/Snapshot.antt =====
-- `get_tunnel` of src/lib.rs, with `sort_by_key`, which is stable: an insertion sort from the right.
pub mod Order
use ftnl_backend_api_rs.Base.{
  ℕ, List, [], ◌∷◌, map, Option, leb, if◌then◌else◌, values, Result, ok, ◌>>◌, ◌>>=◌,
}
use ftnl_backend_api_rs.Protocol.{TunnelStatus, Operation}
use ftnl_backend_api_rs.Server.{Platform, FileDescriptor, Tunnel, ApiError}
use ftnl_backend_api_rs.Server.Access.{ensure_active, bearer_hash, require_either}

pub record TunnelSnapshot : Type 0 where
  pub tunnel_id : ℕ
  pub status : TunnelStatus
  pub expires_at : ℕ
  pub files : List FileDescriptor

-- An earlier file stays before the later ones that were created at the same instant.
unfoldable pub insert_by_created_at : FileDescriptor → List FileDescriptor → List FileDescriptor
insert_by_created_at file [] = file ∷ []
insert_by_created_at file (first ∷ files) =
    if leb file.created_at first.created_at
    then file ∷ first ∷ files
    else first ∷ insert_by_created_at file files

-- `sort_by_key(|file| file.created_at)`
unfoldable pub sort_by_created_at : List FileDescriptor → List FileDescriptor
unfolding insert_by_created_at
sort_by_created_at [] = []
sort_by_created_at (file ∷ files) = insert_by_created_at file (sort_by_created_at files)

-- `files.values().map(…).collect()`
abbrev pub descriptors : Tunnel → List FileDescriptor
descriptors t = map (λ stored. stored.descriptor) (values t.files)

module _ (platform : Platform) where
  unfoldable pub get_tunnel : Tunnel → ℕ → Option (List ℕ) → ℕ → Result TunnelSnapshot ApiError
  get_tunnel t tunnel_id authorization now = do
    supplied ← bearer_hash platform authorization
    ensure_active t now
    require_either platform t supplied Operation.read_snapshot
    ok (record {
      tunnel_id = tunnel_id;
      status = t.status;
      expires_at = t.expires_at;
      files = sort_by_created_at (descriptors t);
    })
