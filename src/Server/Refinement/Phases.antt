-- ===== src/Server/Refinement/Phases.antt =====
-- The control states of sound tunnels, and how the ends of uploads and downloads move them.
use mathlib.Core.Path.{subst}
use ftnl_backend_api_rs.Base.{
  ℕ, Bool, true, false, not, List, Option, ◌≡◌, ◌⊎◌, ◌&&◌, refl, ap, ◌∙◌, Result, ok, err, inl, inr,
  Bool-cases,
}
use ftnl_backend_api_rs.Text.{Str}
use ftnl_backend_api_rs.Protocol.{TunnelStatus, waiting, transferring, complete, cancelled}
use ftnl_backend_api_rs.Protocol.Quint.{InTransfer, IsLive}
use ftnl_backend_api_rs.Resumable.Upload.{AppendOutcome, UploadBuffer, UploadError, is_complete}
use ftnl_backend_api_rs.Server.{Digest, StoredFile, Tunnel, Stamp, publish}
use ftnl_backend_api_rs.Server.Transfers.{
  with_file, close_if_done, mark_downloaded, finish_append, after_outcome, announce_progress,
  announce_available,
}
use ftnl_backend_api_rs.Server.Invariant.{PhaseAgrees, IsSound, is_some, all_downloaded}
use ftnl_backend_api_rs.Server.Invariant.Calls.{IsSound-phone}
use ftnl_backend_api_rs.Server.Refinement.{Control, control, Allows, Follows}
use ftnl_backend_api_rs.Server.Refinement.Moves.{
  at_waiting, at, transfers, completes, waiting_cancels, connected_cancels, transferring_cancels,
  waiting_stays, connected_stays, transferring_stays, complete_stays, cancelled_stays,
  unpaired_stays,
}

stay :
    (status : TunnelStatus) (pairing phone : Bool) (files : List (ℕ × StoredFile))
    (tickets : List (Digest × ℕ))
    → pairing ≡ not phone
    → PhaseAgrees status phone files tickets
    → let c : Control = record {
      phase = status;
      pairing_available = pairing;
      phone_capability_issued = phone;
    } in
      Allows c c
stay TunnelStatus.waiting pairing phone files tickets e (h, _) = rw (e, h) waiting_stays
stay TunnelStatus.connected pairing phone files tickets e h = rw (e, h) connected_stays
stay TunnelStatus.transferring pairing phone files tickets e h = rw (e, h) transferring_stays
stay TunnelStatus.complete pairing phone files tickets e (h, _, _, _) = rw (e, h) complete_stays
stay TunnelStatus.cancelled pairing true files tickets e h = rw e cancelled_stays
stay TunnelStatus.cancelled pairing false files tickets e h = rw e unpaired_stays
stay TunnelStatus.expired pairing phone files tickets e h = absurd h

pub Follows-by :
    (t t' : Tunnel) {c d : Control} → control t ≡ c → control t' ≡ d → Allows c d → Follows t t'
Follows-by t t' e f h = rw (e, f) h

abbrev to_phase : TunnelStatus → Control → Control
to_phase phase c = record c { phase = phase }

publish-control :
    (t : Tunnel) (kind : Str) (file_id bytes_transferred : Option ℕ) (reason_code : Option Str)
    (stamp : Stamp)
    → control (publish t kind file_id bytes_transferred reason_code stamp) ≡ control t
unfolding publish
publish-control t kind file_id bytes_transferred reason_code stamp = refl

-- An upload that made progress moves to the phase of transfer; nothing else moves.
announced-control :
    (u : Tunnel) (file_id : ℕ) (o : AppendOutcome) (replayed became_complete : Bool)
    (progress available : Stamp)
    → o.replayed ≡ replayed
    → let t' =
        announce_available
          (announce_progress u file_id o progress)
          file_id
          o
          became_complete
          available in
      (control t' ≡ control u) ⊎ (control t' ≡ to_phase transferring (control u))
unfolding publish
announced-control u file_id o true true progress available e = inl (rw e refl)
announced-control u file_id o true false progress available e = inl (rw e refl)
announced-control u file_id o false true progress available e = inr (rw e refl)
announced-control u file_id o false false progress available e = inr (rw e refl)

close-control :
    (u : Tunnel)
    → (control (close_if_done u) ≡ to_phase complete (control u))
      ⊎ (control (close_if_done u) ≡ control u)
close-control u = elim (Bool-cases (all_downloaded u.files)) [
  | inl done ↦ inl (rw done refl)
  | inr more ↦ inr (rw more refl)
]

module _ (t : Tunnel) (s : IsSound t) where
  pub stays : Follows t t
  stays =
      stay t.status (is_some t.pairing_hash) (is_some t.phone_hash) t.files t.event_tickets
        s.exchange s.phase

  pub same_control : (t' : Tunnel) → control t' ≡ control t → Follows t t'
  same_control t' e = Follows-by t t' refl e stays

  pub waiting-control : t.status ≡ waiting → control t ≡ at_waiting
  waiting-control e =
      let (unpaired, _) =
        subst (λ x. PhaseAgrees x (is_some t.phone_hash) t.files t.event_tickets) e s.phase in
      λ i. record {
        phase = e i;
        pairing_available = (s.exchange ∙ ap not unpaired) i;
        phone_capability_issued = unpaired i;
      }

  pub transfer-control : InTransfer t.status → control t ≡ at t.status
  transfer-control h =
      let issued = IsSound-phone t s h in
      λ i. record {
        phase = t.status;
        pairing_available = (s.exchange ∙ ap not issued) i;
        phone_capability_issued = issued i;
      }

  to_transferring :
      InTransfer t.status → (t' : Tunnel) → control t' ≡ at transferring → Follows t t'
  to_transferring (inl e) t' f = Follows-by t t' (transfer-control (inl e) ∙ ap at e) f transfers
  to_transferring (inr e) t' f =
      Follows-by t t' (transfer-control (inr e) ∙ ap at e) f transferring_stays

  pub to_cancelled :
      IsLive t.status → (t' : Tunnel) → control t' ≡ to_phase cancelled (control t) → Follows t t'
  to_cancelled (inl e) t' f =
      Follows-by t t' (waiting-control e) (f ∙ ap (to_phase cancelled) (waiting-control e))
        waiting_cancels
  to_cancelled (inr (inl e)) t' f =
      let c = transfer-control (inl e) in
      Follows-by t t' (c ∙ ap at e) (f ∙ ap (to_phase cancelled) c) connected_cancels
  to_cancelled (inr (inr e)) t' f =
      let c = transfer-control (inr e) in
      Follows-by t t' (c ∙ ap at e) (f ∙ ap (to_phase cancelled) c) transferring_cancels

  pub finish_append-Follows :
      (file_id : ℕ) (stored : StoredFile) (progress available : Stamp)
      (p : UploadBuffer × Result AppendOutcome UploadError)
      → InTransfer t.status
      → Follows t (finish_append t file_id stored progress available p).0
  finish_append-Follows file_id stored progress available (u, err e) h =
      same_control (with_file t file_id (record stored { upload = u })) refl
  finish_append-Follows file_id stored progress available (u, ok o) h =
      let updated = with_file t file_id (after_outcome stored u o) in
      let became_complete = not (is_complete stored.upload) && o.complete in
      let announced =
        announce_available (announce_progress updated file_id o progress) file_id o became_complete
          available in
      elim (announced-control updated file_id o o.replayed became_complete progress available
        refl) [
          | inl same ↦ same_control announced same
          | inr moved ↦
              to_transferring h announced (moved ∙ ap (to_phase transferring) (transfer-control h))
        ]

  pub close_if_done-Follows :
      (stored : StoredFile) (file_id : ℕ)
      → t.status ≡ transferring
      → Follows t (close_if_done (with_file t file_id (mark_downloaded stored)))
  close_if_done-Follows stored file_id e =
      let updated = with_file t file_id (mark_downloaded stored) in
      let here = transfer-control (inr e) ∙ ap at e in
      elim (close-control updated) [
        | inl closed ↦
            Follows-by t (close_if_done updated) here (closed ∙ ap (to_phase complete) here)
              completes
        | inr same ↦ same_control (close_if_done updated) same
      ]
