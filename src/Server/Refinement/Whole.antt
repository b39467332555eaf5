-- ===== src/Server/Refinement/Whole.antt =====
-- A new tunnel, and each request to a tunnel, against the specification.
use ftnl_backend_api_rs.Base.{ℕ, Bool, true, false, ◌||◌, ◌≡◌, refl, ok, inl, inr, get}
use ftnl_backend_api_rs.Text.{Str}
use ftnl_backend_api_rs.Protocol.Unbounded
use ftnl_backend_api_rs.Protocol.Unbounded.{Reach, Step, init, insert}
use ftnl_backend_api_rs.Server.{Platform, Digest, Tunnel, same_id, same_digest}
use ftnl_backend_api_rs.Server.Access.{token, token_hash}
use ftnl_backend_api_rs.Server.Handlers.{
  CreateTunnelRequest, CreateTunnelResponse, Reading, create_tunnel, connect_events, live_ticket,
}
use ftnl_backend_api_rs.Server.Accepted.{create_accepted}
use ftnl_backend_api_rs.Server.Table.{Call, serve}
use ftnl_backend_api_rs.Server.Table.Evolution.{respond_keeps, reply_keeps}
use ftnl_backend_api_rs.Server.Refinement.Abstract.{Spec, Abstracts, IsCareful, Fits, note}
use ftnl_backend_api_rs.Server.Refinement.Simulation.{
  Simulates, rests, more_issued, claim-Simulates, cancel-Simulates, declare-Simulates,
  mint-Simulates, redeem-Simulates,
}
use ftnl_backend_api_rs.Server.Refinement.Downloads.{download-Simulates}

insert-grows :
    (d : Digest) (set : Digest → Bool) (x : Digest)
    → set x ≡ true
    → insert same_digest d set x ≡ true
insert-grows d set x h = either (same_digest d x)
  where
    either : (b : Bool) → (b || set x) ≡ true
    either true = refl
    either false = h

pub note-grows :
    (platform : Platform) (issued : Digest → Bool) (c : Call) (d : Digest)
    → issued d ≡ true
    → note platform issued c d ≡ true
note-grows platform issued (Call.mint auth at) d h = insert-grows _ issued d h
note-grows platform issued (Call.claim secret at) d h = h
note-grows platform issued (Call.snapshot auth now) d h = h
note-grows platform issued (Call.cancel auth at) d h = h
note-grows platform issued (Call.declare auth r at) d h = h
note-grows platform issued (Call.status file_id auth now) d h = h
note-grows platform issued (Call.download file_id auth now stamp) d h = h
note-grows platform issued (Call.connect ticket now) d h = h

module _ (platform : Platform) (t : Tunnel) (issued : Digest → Bool) (s : Spec) (k : IsCareful t)
    (a : Abstracts t issued s) where
  -- A fitting call is one step of the specification, or none.
  pub serve-Simulates :
      (id : ℕ) (c : Call)
      → Fits platform t issued c
      → Simulates s (serve platform id c t).0 (note platform issued c)
  unfolding serve connect_events
  serve-Simulates id (Call.claim secret at) fits =
      respond_keeps (λ u. Simulates s u issued) t (rests t issued s k a) _ _
        (claim-Simulates t issued s k a platform secret at)
  serve-Simulates id (Call.snapshot auth now) fits =
      reply_keeps (λ u. Simulates s u issued) t (rests t issued s k a) _ _
  serve-Simulates id (Call.cancel auth at) fits =
      respond_keeps (λ u. Simulates s u issued) t (rests t issued s k a) _ _
        (cancel-Simulates t issued s k a platform auth at)
  serve-Simulates id (Call.declare auth r at) (unused, bytes) =
      respond_keeps (λ u. Simulates s u issued) t (rests t issued s k a) _ _
        (λ x. declare-Simulates t issued s k a platform auth r at x unused bytes)
  serve-Simulates id (Call.status file_id auth now) fits =
      reply_keeps (λ u. Simulates s u issued) t (rests t issued s k a) _ _
  serve-Simulates id (Call.download file_id auth now stamp) fits =
      respond_keeps (λ u. Simulates s u issued) t (rests t issued s k a) _ _
        (download-Simulates t issued s k a platform auth file_id now stamp)
  serve-Simulates id (Call.mint auth at) fits =
      let d = token_hash platform (token platform at.first at.second) in
      let other = insert same_digest d issued in
      respond_keeps (λ u. Simulates s u other) t
        (s, Unbounded.idle refl, more_issued t issued s k a other (insert-grows d issued)) _ _
        (λ x. mint-Simulates t issued s k a platform auth at x fits)
  serve-Simulates id (Call.connect ticket now) fits =
      redeem-Simulates t issued s k a platform ticket now (live_ticket platform t ticket now) refl

-- The state of the specification for a tunnel, and that it is reached.
abbrev pub Represented : Tunnel → (Digest → Bool) → Type 0
Represented t issued = (s : Spec) × Reach same_id same_digest s × Abstracts t issued s

module _ (platform : Platform) where
  pub create-Represented :
      (origin : Str) (request : CreateTunnelRequest) (id : ℕ) (pairing desk : Reading)
      (r : Tunnel × CreateTunnelResponse)
      → create_tunnel platform origin request id pairing desk ≡ ok r
      → Represented r.0 (λ d. false)
  unfolding init get
  create-Represented origin request id pairing desk r h =
      let (e, _, _, _, _, _) = create_accepted platform origin request id pairing desk {r = r} h in
      rw e (
        init same_id same_digest,
        Reach.start,
        record {
          phases = inl refl;
          pairing = refl;
          phone = refl;
          active = λ d. refl;
          were_issued = λ d y. y;
          files = inr (record {
            declared_marks = λ j. refl;
            available_marks = λ j. refl;
            downloaded_marks = λ j. refl;
          });
        },
      )

  pub next-Represented :
      (t' : Tunnel) (issued' : Digest → Bool) {s : Spec}
      → Reach same_id same_digest s
      → Simulates s t' issued'
      → Represented t' issued'
  next-Represented t' issued' r (s', step, a) = (s', Reach.next r step, a)
