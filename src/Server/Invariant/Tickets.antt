-- ===== src/Server/Invariant/Tickets.antt =====
-- An event ticket opens at most one feed (`connect_events` of src/lib.rs).
use ftnl_backend_api_rs.Base.{
  ℕ, ◌<◌, List, [], ◌∷◌, none, some, ◌≡◌, ◌≢◌, ap, sym, ◌∙◌, ok, arith, inl, inr, Result-cases,
  Option-cases, get, get-delete,
}
use ftnl_backend_api_rs.Text.{Str}
use ftnl_backend_api_rs.Text.Laws.{str_eq_iff}
use ftnl_backend_api_rs.Server.{Platform, Digest, Tunnel, same_digest}
use ftnl_backend_api_rs.Server.Access.{token_hash, hashes_equal}
use ftnl_backend_api_rs.Server.Handlers.{live_ticket, find_ticket, redeem, connect_events}
use ftnl_backend_api_rs.Server.Accepted.{ticket_found}
use ftnl_backend_api_rs.Server.Invariant.Traces.{Reached, Reached-IsSound}

none-some : {n : ℕ} → none ≡ some n → ⊥
none-some h = cc

module _ (platform : Platform) where
  find_ticket-eq-some :
      (supplied hash : Digest) (tickets : List (Digest × ℕ))
      → find_ticket platform supplied tickets ≡ some hash
      → hash ≡ supplied
  unfolding hashes_equal
  find_ticket-eq-some supplied hash [] h = absurd (ground arith)
  find_ticket-eq-some supplied hash ((first, expiry) ∷ tickets) h =
      ground (arith, platform.ct_eq_iff first supplied, find_ticket-eq-some supplied hash tickets)

  found-hash :
      (t : Tunnel) (ticket : Str) (now : ℕ) (found : Digest × ℕ)
      → live_ticket platform t ticket now ≡ ok found
      → found.0 ≡ token_hash platform ticket
  found-hash t ticket now found h =
      elim (Option-cases (find_ticket platform (token_hash platform ticket) t.event_tickets)) [
        | inl n ↦ absurd (ground arith)
        | inr (hash, e) ↦
            find_ticket-eq-some (token_hash platform ticket) found.0 t.event_tickets (ground arith)
      ]

  pub connect-found :
      (t : Tunnel) (ticket : Str) (now : ℕ)
      → (connect_events platform t ticket now).1 ≡ ok tt
      → (expiry : ℕ) × (live_ticket platform t ticket now ≡ ok (token_hash platform ticket, expiry))
        × (now < expiry)
  unfolding connect_events
  connect-found t ticket now h = elim (Result-cases (live_ticket platform t ticket now)) [
    | inl (found, e) ↦
        (found.1, e ∙ (λ i. ok (found-hash t ticket now found e i, found.1)), ground arith)
    | inr (error, e) ↦ absurd (ground arith)
  ]

-- When an event ticket has opened a feed of a reached tunnel, no call with it opens one of the tunnel
-- that this leaves, at any time.
pub redeem_is_once :
    (platform : Platform) (t : Tunnel) (ticket : Str) (now later : ℕ)
    → Reached platform t
    → (connect_events platform t ticket now).1 ≡ ok tt
    → (connect_events platform (connect_events platform t ticket now).0 ticket later).1 ≢ ok tt
unfolding connect_events
redeem_is_once platform t ticket now later reached h k =
    let (expiry, e, _) = connect-found platform t ticket now h in
    let (again, q, _) =
      connect-found platform (connect_events platform t ticket now).0 ticket later k in
    let hash = token_hash platform ticket in
    let (_, _, there) =
      ticket_found platform (connect_events platform t ticket now).0 ticket later
        {found = (hash, again)} q in
    let left = ap (λ r. (redeem t now r).0.event_tickets) e in
    let distinct = (Reached-IsSound platform reached).tickets_distinct in
    let gone = get-delete same_digest str_eq_iff hash t.event_tickets distinct in
    none-some (sym gone ∙ ap (get same_digest hash) (sym left) ∙ there)
