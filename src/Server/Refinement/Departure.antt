-- ===== src/Server/Refinement/Departure.antt =====
-- Where a tunnel of src/lib.rs leaves the specification: a declared file of no bytes.
use ftnl_backend_api_rs.Base.{
  ℕ, true, List, [], ◌∷◌, Option, some, ==_iff, ◌≡◌, refl, ap, ◌∙◌, ok, inr, arith, get, put,
}
use ftnl_backend_api_rs.Protocol.{connected, complete}
use ftnl_backend_api_rs.Protocol.Quint
use ftnl_backend_api_rs.Protocol.Quint.{SpecState, Element, one, two, Step, Reach, none_of, member}
use ftnl_backend_api_rs.Protocol.Quint.Safety.{Reach-IsSafe}
use ftnl_backend_api_rs.Server.{Platform, StoredFile, Tunnel, Stamp, publish, same_id}
use ftnl_backend_api_rs.Server.Transfers.{
  Download, download_file, with_file, mark_downloaded, close_if_done,
}
use ftnl_backend_api_rs.Server.Accepted.{download_accepted}
use ftnl_backend_api_rs.Server.Refinement.{Follows}

none-available :
    (s : SpecState) (e : Element)
    → s.available_files ≡ none_of
    → member e s.available_files ≡ true
    → ⊥
none-available s one h m = ground (arith, ap (λ x. x.has_one) h)
none-available s two h m = ground (arith, ap (λ x. x.has_two) h)

Step-departs : (s q : SpecState) → Step s q → Reach s → s.phase ≡ connected → q.phase ≡ complete → ⊥
Step-departs s q (Quint.claim a b c same) r h k = ground (arith, ap (λ x. x.phase) same)
Step-departs s q (Quint.mint_desktop_ticket e live fresh same) r h k =
    ground (arith, ap (λ x. x.phase) same)
Step-departs s q (Quint.mint_phone_ticket e i live fresh same) r h k =
    ground (arith, ap (λ x. x.phase) same)
Step-departs s q (Quint.redeem_ticket e live active same) r h k =
    ground (arith, ap (λ x. x.phase) same)
Step-departs s q (Quint.declare_file e live i fresh same) r h k =
    ground (arith, ap (λ x. x.phase) same)
Step-departs s q (Quint.finish_upload e live i d fresh same) r h k =
    ground (arith, ap (λ x. x.phase) same)
Step-departs s q (Quint.download_partial e live a d more same) r h k =
    ground (arith, ap (λ x. x.phase) same)
Step-departs s q (Quint.download_last e live available d last same) r h k =
    none-available s e ((Reach-IsSafe r).available_is_transferring (inr h)) available
Step-departs s q (Quint.cancel live same) r h k = ground (arith, ap (λ x. x.phase) same)
Step-departs s q (Quint.expire live same) r h k = ground (arith, ap (λ x. x.phase) same)
Step-departs s q (Quint.idle same) r h k = ground (arith, ap (λ x. x.phase) same)

pub alone-closes :
    (t : Tunnel) (file_id : ℕ) (stored : StoredFile)
    → t.files ≡ (file_id, stored) ∷ []
    → (close_if_done (with_file t file_id (mark_downloaded stored))).status ≡ complete
unfolding put
alone-closes t file_id stored e = rw e (rw ((==_iff file_id file_id).1 refl) refl)

-- In a connected tunnel with a single file, a download of it that is accepted, as that of a declared
-- file of no bytes is, moves the tunnel in a way that no step of the specification from a state that it
-- reaches does.
pub early_download_departs :
    (platform : Platform) (t : Tunnel) (authorization : Option (List ℕ)) (file_id now : ℕ)
    (stored : StoredFile) (stamp : Stamp) (r : Tunnel × Download)
    → t.status ≡ connected
    → t.files ≡ (file_id, stored) ∷ []
    → download_file platform t authorization file_id now stamp ≡ ok r
    → ¬ Follows t r.0
unfolding get publish
early_download_departs platform t authorization file_id now stored stamp r at_first alone h
      follows =
    let found : get same_id file_id t.files ≡ some stored =
      rw alone (rw ((==_iff file_id file_id).1 refl) refl) in
    let (_, _, _, _, e) =
      download_accepted platform t authorization file_id now stamp stored {r = r} found h in
    Step-departs follows.before follows.after follows.step follows.reached
      (ap (λ c. c.phase) follows.from ∙ at_first)
      (ap (λ c. c.phase) follows.to ∙ ap (λ u. u.status) e ∙ alone-closes t file_id stored alone)
