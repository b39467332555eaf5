-- ===== src/Server/Refinement/World.antt =====
-- In every run of the server whose draws are new and whose files have bytes, each tunnel of the table
-- stands for a state that the specification reaches.
use mathlib.Core.Path.{subst}
use mathlib.Core.Option.{some-injective}
use ftnl_backend_api_rs.Base.{
  ℕ, ◌<◌, Bool, true, false, List, [], ◌∷◌, Option, some, none, ◌≡◌, refl, sym, ap, ◌∙◌, Result, ok,
  err, inl, inr, arith, ==_iff, Bool-cases, get, put, get-put, All, All-append, append-All,
  >>=-eq-ok, ok_or-eq-ok, if◌then◌else◌,
}
use ftnl_backend_api_rs.Text.{Str}
use ftnl_backend_api_rs.Resumable.Range.{InBounds}
use ftnl_backend_api_rs.Server.{Platform, Digest, Tunnel, AppState, ApiError, Stamp, same_id}
use ftnl_backend_api_rs.Server.Access.{bearer_hash}
use ftnl_backend_api_rs.Server.Handlers.{CreateTunnelResponse, create_tunnel}
use ftnl_backend_api_rs.Server.Transfers.{Upload}
use ftnl_backend_api_rs.Server.Table.{
  Call, create, call, Response, new_state, on_found, with_tunnel, insert_created, after, serve,
  credential, handle,
}
use ftnl_backend_api_rs.Server.Table.World.{
  Pending, World, begin_upload, finish_upload, Step, request, begin, finish,
}
use ftnl_backend_api_rs.Server.Refinement.Abstract.{IsCareful, Fits, note}
use ftnl_backend_api_rs.Server.Refinement.Stores.{receive-IsNonempty}
use ftnl_backend_api_rs.Server.Refinement.Careful.{
  create-IsCareful, serve-IsCareful, store-IsCareful,
}
use ftnl_backend_api_rs.Server.Refinement.Simulation.{more_issued}
use ftnl_backend_api_rs.Server.Refinement.Deliveries.{store-Simulates}
use ftnl_backend_api_rs.Server.Refinement.Whole.{
  Represented, serve-Simulates, create-Represented, next-Represented, note-grows,
}

-- A request fits if it fits the tunnel that it finds; creations and the looks of an upload do.
abbrev StepFits :
    (platform : Platform) → (Digest → Bool) → {w w' : World} → Step platform w w' → Type 0
StepFits platform issued {w = w} (request (call id c) e) =
    (t : Tunnel) → get same_id id w.state.tunnels ≡ some t → Fits platform t issued c
StepFits platform issued (request (create r id pairing desk) e) = Unit
StepFits platform issued (begin id file_id a c body now u b e) = Unit
StepFits platform issued (finish earlier later p now progress available m e) = Unit

abbrev noted :
    (platform : Platform) → (Digest → Bool) → {w w' : World} → Step platform w w' → Digest → Bool
noted platform issued (request (call id c) e) = note platform issued c
noted platform issued (request (create r id pairing desk) e) = issued
noted platform issued (begin id file_id a c body now u b e) = issued
noted platform issued (finish earlier later p now progress available m e) = issued

-- A run of the server whose requests fit, with the digests of the tickets that were drawn.
pub data FitRun (platform : Platform) (origin : Str) : World → (Digest → Bool) → Type 0 where
  start :
      {w : World}
      → w ≡ record { state = new_state origin; pending = [] }
      → FitRun platform origin w (λ d. false)
  next :
      {w w' : World} {issued : Digest → Bool}
      → FitRun platform origin w issued
      → (s : Step platform w w') → StepFits platform issued s
      → FitRun platform origin w' (noted platform issued s)

abbrev pub Stands : (Digest → Bool) → Tunnel → Type 0
Stands issued t = IsCareful t × Represented t issued

abbrev pub AllStand : (Digest → Bool) → AppState → Type 0
AllStand issued s = (id : ℕ) (t : Tunnel) → get same_id id s.tunnels ≡ some t → Stands issued t

abbrev pub IsStorable : Pending → Type 0
IsStorable p = InBounds p.upload.range × (p.upload.range.start < p.upload.range.end_exclusive)

pub record WorldStands (w : World) (issued : Digest → Bool) : Type 0 where
  pub tunnels_stand : AllStand issued w.state
  uploads_fit : All IsStorable w.pending

put-AllStand :
    (issued : Digest → Bool) (s : AppState) (id : ℕ) (t : Tunnel)
    → Stands issued t
    → AllStand issued s
    → AllStand issued (record s { tunnels = put same_id id t s.tunnels })
put-AllStand issued s id t h all j u found = elim (Bool-cases (same_id id j)) [
  | inl e ↦
      let same : some t ≡ some u =
        ap (λ b. if b then some t else get same_id j s.tunnels) (sym e)
        ∙ sym (get-put same_id ==_iff j id t s.tunnels)
        ∙ found in
      subst (Stands issued) (some-injective _ _ same) h
  | inr e ↦ all j u (
      ap (λ b. if b then some t else get same_id j s.tunnels) (sym e)
      ∙ sym (get-put same_id ==_iff j id t s.tunnels)
      ∙ found)
]

found-AllStand :
    {A : Type 0} (issued : Digest → Bool) (s : AppState) (id : ℕ)
    (handler : Tunnel → Tunnel × Result A ApiError) (found : Option Tunnel)
    → ((t : Tunnel) → found ≡ some t → Stands issued (handler t).0)
    → AllStand issued s
    → AllStand issued (on_found s id handler found).0
found-AllStand issued s id handler none k h = h
found-AllStand issued s id handler (some t) k h =
    put-AllStand issued s id (handler t).0 (k t refl) h

module _ (platform : Platform) where
  more-Stands :
      (issued other : Digest → Bool) (t : Tunnel)
      → ((d : Digest) → issued d ≡ true → other d ≡ true)
      → Stands issued t
      → Stands other t
  more-Stands issued other t h (k, (s, reached, a)) =
      (k, (s, reached, more_issued t issued s k a other h))

  created-AllStand :
      (issued : Digest → Bool) (s : AppState) (id : ℕ)
      (r : Result (Tunnel × CreateTunnelResponse) ApiError)
      → ((x : Tunnel × CreateTunnelResponse) → r ≡ ok x → Stands issued x.0)
      → AllStand issued s
      → AllStand issued (insert_created s id r).0
  created-AllStand issued s id (err e) k h = h
  created-AllStand issued s id (ok x) k h = put-AllStand issued s id x.0 (k x refl) h

  after-AllStand :
      {B : Type 0} (issued : Digest → Bool) (s : AppState) (r : Result B ApiError)
      (rest : AppState × Result Response ApiError)
      → AllStand issued s
      → AllStand issued rest.0
      → AllStand issued (after s r rest).0
  after-AllStand issued s (err e) rest h k = h
  after-AllStand issued s (ok b) rest h k = k

  call-AllStand :
      (issued : Digest → Bool) (s : AppState) (id : ℕ) (c : Call)
      → ((t : Tunnel) → get same_id id s.tunnels ≡ some t → Fits platform t issued c)
      → AllStand issued s
      → AllStand (note platform issued c) (handle platform s (call id c)).0
  unfolding handle with_tunnel
  call-AllStand issued s id c fits h =
      let grown : AllStand (note platform issued c) s = λ j u found.
        more-Stands issued (note platform issued c) u (note-grows platform issued c)
          (h j u found) in
      after-AllStand (note platform issued c) s (credential platform c) _ grown (
        found-AllStand (note platform issued c) s id (serve platform id c) _
          (λ t found.
            let (k, (q, reached, a)) = h id t found in
            (
              serve-IsCareful platform id c t issued k (fits t found),
              next-Represented platform _ _ reached
                  (serve-Simulates platform t issued q k a id c (fits t found)),
            ))
          grown)

  finish-AllStand :
      (issued : Digest → Bool) (s : AppState) (p : Pending) (now : ℕ) (progress available : Stamp)
      → IsStorable p
      → AllStand issued s
      → AllStand issued (finish_upload platform s p now progress available).0
  unfolding finish_upload with_tunnel
  finish-AllStand issued s p now progress available (bounds, lt) h =
      found-AllStand issued s p.tunnel_id _ _
        (λ t found.
          let (k, (q, reached, a)) = h p.tunnel_id t found in
          (
            store-IsCareful platform t p.file_id p.upload now progress available bounds lt k,
            next-Represented platform _ _ reached (
                store-Simulates t issued q k a platform p.file_id p.upload now progress available
                  bounds lt),
          ))
        h

  begin-IsStorable :
      (issued : Digest → Bool) (s : AppState) (id file_id : ℕ) (a c : Option (List ℕ))
      (body : List (Option (List ℕ))) (now : ℕ) (u : Upload)
      → AllStand issued s
      → begin_upload platform s id file_id a c body now ≡ ok u
      → IsStorable (record { tunnel_id = id; file_id = file_id; upload = u })
  unfolding begin_upload
  begin-IsStorable issued s id file_id a c body now u h e =
      let (_, _, e1) = >>=-eq-ok (bearer_hash platform a) _ e in
      let (t, found, received) = ok_or-eq-ok (get same_id id s.tunnels) _ _ e1 in
      receive-IsNonempty platform t (h id t found).0 a file_id c body now u received

  Step-WorldStands :
      {w w' : World} {issued : Digest → Bool} (st : Step platform w w')
      → StepFits platform issued st
      → WorldStands w issued
      → WorldStands w' (noted platform issued st)
  unfolding handle
  Step-WorldStands {w} {issued = issued} (request (create r id pairing desk) e) fits h =
      rw e (record {
        tunnels_stand =
            created-AllStand issued w.state id
              (create_tunnel platform w.state.portal_origin r id pairing desk)
              (λ x made.
                more-Stands (λ d. false) issued x.0 (λ d y. absurd (ground (arith, y)))
                  (
                    create-IsCareful platform w.state.portal_origin r id pairing desk x made,
                    create-Represented platform w.state.portal_origin r id pairing desk x made,
                  ))
              h.tunnels_stand;
        uploads_fit = h.uploads_fit;
      })
  Step-WorldStands {w} {issued = issued} (request (call id c) e) fits h = rw e (record {
    tunnels_stand = call-AllStand issued w.state id c fits h.tunnels_stand;
    uploads_fit = h.uploads_fit;
  })
  Step-WorldStands {w} {issued = issued} (begin id file_id a c body now u b e) fits h =
      rw e (record {
        tunnels_stand = h.tunnels_stand;
        uploads_fit = (
          begin-IsStorable issued w.state id file_id a c body now u h.tunnels_stand b,
          h.uploads_fit,
        );
      })
  Step-WorldStands {w} {issued = issued} (finish earlier later p now progress available m e) fits
        h =
      let (before, behind) =
        append-All IsStorable earlier (p ∷ later) (subst (All IsStorable) m h.uploads_fit) in
      rw e (record {
        tunnels_stand =
            finish-AllStand issued w.state p now progress available behind.0 h.tunnels_stand;
        uploads_fit = All-append IsStorable earlier later before behind.1;
      })

  pub FitRun-WorldStands :
      (origin : Str) {w : World} {issued : Digest → Bool}
      → FitRun platform origin w issued
      → WorldStands w issued
  unfolding new_state get
  FitRun-WorldStands origin (FitRun.start e) =
      rw e
        (record { tunnels_stand = λ id t found. absurd (ground (arith, found)); uploads_fit = tt })
  FitRun-WorldStands origin (FitRun.next run st fits) =
      Step-WorldStands st fits (FitRun-WorldStands origin run)

  -- In every run of the server, with uploads overlapping other requests in any way, in which declared
  -- files have bytes and the identities of files and the tickets that are drawn are new: each tunnel of
  -- the table stands for a state that the specification reaches. Its phase (an upload under way aside),
  -- pairing secret, phone capability, active tickets and, unless it was cancelled, its declared,
  -- available and downloaded files are those of that state.
  pub server_refines_quint :
      (origin : Str) (w : World) (issued : Digest → Bool) (id : ℕ) (t : Tunnel)
      → FitRun platform origin w issued
      → get same_id id w.state.tunnels ≡ some t
      → Represented t issued
  server_refines_quint origin w issued id t run found =
      ((FitRun-WorldStands origin run).tunnels_stand id t found).1
