-- ===== src/Server/Refinement/Abstract.antt =====
-- The state of the specification that a tunnel of src/lib.rs stands for, its files and tickets
-- included: a file is its identity, a ticket its digest.
use ftnl_backend_api_rs.Base.{
  ℕ, Bool, true, false, List, [], none, ◌≡◌, ◌≢◌, ◌⊎◌, get, values, IsDistinct, All, holds,
}
use ftnl_backend_api_rs.Protocol.{TunnelStatus, connected, transferring}
use ftnl_backend_api_rs.Protocol.Quint.{InTransfer}
use ftnl_backend_api_rs.Protocol.Unbounded.{SpecState, insert}
use ftnl_backend_api_rs.Resumable.Upload.{is_complete}
use ftnl_backend_api_rs.Server.{Platform, Digest, StoredFile, Tunnel, same_id, same_digest}
use ftnl_backend_api_rs.Server.Access.{token, token_hash}
use ftnl_backend_api_rs.Server.Transfers.{is_downloaded}
use ftnl_backend_api_rs.Server.Invariant.{IsSound, is_some, all_downloaded}
use ftnl_backend_api_rs.Server.Invariant.Fresh.{IsFresh}
use ftnl_backend_api_rs.Server.Refinement.Runs.{HasBytes}
use ftnl_backend_api_rs.Server.Table.{Call}

abbrev pub Spec : Type 0
Spec = SpecState ℕ Digest

abbrev pub exists : StoredFile → Bool
exists f = true

abbrev pub is_available : StoredFile → Bool
is_available f = is_complete f.upload

abbrev pub was_downloaded : StoredFile → Bool
was_downloaded f = is_downloaded f.descriptor.status

-- A set holds the keys whose value passes a test.
abbrev pub Marks {κ} :
    {K : Type 0} {V : Type κ} → (K → K → Bool) → (V → Bool) → List (K × V) → (K → Bool) → Type 0
Marks same p m set = (k : _) → set k ≡ holds p (get same k m)

pub record FilesAgree (files : List (ℕ × StoredFile)) (s : Spec) : Type 0 where
  pub declared_marks : Marks same_id exists files s.declared_files
  pub available_marks : Marks same_id is_available files s.available_files
  pub downloaded_marks : Marks same_id was_downloaded files s.downloaded_files

-- A cancelled tunnel has dropped its files. The first bytes of a file already put the tunnel into the
-- phase of transfer, which the specification enters with the first whole file.
pub record Abstracts (t : Tunnel) (issued : Digest → Bool) (s : Spec) : Type 0 where
  pub phases : (s.phase ≡ t.status) ⊎ ((t.status ≡ transferring) × (s.phase ≡ connected))
  pub pairing : s.pairing_available ≡ is_some t.pairing_hash
  pub phone : s.phone_capability_issued ≡ is_some t.phone_hash
  pub active : Marks same_digest (λ expiry. true) t.event_tickets s.active_tickets
  pub were_issued : (d : Digest) → s.issued_tickets d ≡ true → issued d ≡ true
  pub files : (t.status ≡ TunnelStatus.cancelled) ⊎ FilesAgree t.files s

-- What holds of a tunnel whose files all have bytes.
pub record IsCareful (t : Tunnel) : Type 0 where
  pub sound : IsSound t
  pub fresh : IsFresh t
  pub distinct : IsDistinct same_id t.files
  pub filled : All HasBytes (values t.files)
  pub pending : InTransfer t.status → (t.files ≡ []) ⊎ (all_downloaded t.files ≡ false)

-- Whether a call fits: a declared file has bytes and a new identity, and a minted ticket is new.
abbrev pub Fits : Platform → Tunnel → (Digest → Bool) → Call → Type 0
Fits platform t issued (Call.declare authorization request at) =
    (get same_id at.first t.files ≡ none) × (request.size_bytes ≢ 0)
Fits platform t issued (Call.mint authorization at) =
    issued (token_hash platform (token platform at.first at.second)) ≡ false
Fits platform t issued _ = Unit

-- The digests of the tickets that were drawn so far.
abbrev pub note : Platform → (Digest → Bool) → Call → Digest → Bool
note platform issued (Call.mint authorization at) =
    insert same_digest (token_hash platform (token platform at.first at.second)) issued
note platform issued _ = issued
