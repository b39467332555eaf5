-- ===== src/Server/Table/Invariant.antt =====
-- Every tunnel in the table is sound, whatever requests come and however uploads overlap.
use mathlib.Core.Path.{subst}
use ftnl_backend_api_rs.Base.{
  ℕ, List, [], ◌∷◌, Option, none, some, All, All-append, append-All, ==_iff, ◌≡◌, refl, sym, ap,
  ◌∙◌, Result, ok, err, arith, inl, inr, Bool-cases, ok_or-eq-ok, get, put, >>=-eq-ok,
}
use ftnl_backend_api_rs.Text.{Str}
use ftnl_backend_api_rs.Resumable.Range.{InBounds}
use ftnl_backend_api_rs.Server.{Platform, Tunnel, AppState, ApiError, Stamp, same_id}
use ftnl_backend_api_rs.Server.Access.{bearer_hash}
use ftnl_backend_api_rs.Server.Handlers.{CreateTunnelResponse}
use ftnl_backend_api_rs.Server.Transfers.{Upload, store_upload}
use ftnl_backend_api_rs.Server.Invariant.{IsSound}
use ftnl_backend_api_rs.Server.Invariant.Calls.{create_tunnel-IsSound}
use ftnl_backend_api_rs.Server.Invariant.Uploads.{store_upload-IsSound, receive-InBounds}
use ftnl_backend_api_rs.Server.History.{IsNumbered, Extends}
use ftnl_backend_api_rs.Server.History.Calls.{create_tunnel-IsNumbered, store_upload-Extends}
use ftnl_backend_api_rs.Server.Table.{
  Request, create, call, Response, new_state, on_found, with_tunnel, insert_created, after, serve,
  credential, handle,
}
use ftnl_backend_api_rs.Server.Table.Evolution.{serve-Extends}
use ftnl_backend_api_rs.Server.Invariant.Fresh.{
  IsFresh, create_tunnel-IsFresh, store_upload-IsFresh,
}
use ftnl_backend_api_rs.Server.Table.Soundness.{serve-IsSound, serve-IsFresh}
use ftnl_backend_api_rs.Server.Table.World.{
  Pending, World, begin_upload, finish_upload, Step, request, begin, finish, Run, start, next,
}

-- A tunnel in the table, under its identity.
pub record EntryIsSound (id : ℕ) (t : Tunnel) : Type 0 where
  pub sound : IsSound t
  pub fresh : IsFresh t
  pub numbered : IsNumbered t
  pub keyed : t.id ≡ id

abbrev pub EntriesAreSound : List (ℕ × Tunnel) → Type 0
EntriesAreSound [] = Unit
EntriesAreSound ((id, t) ∷ tunnels) = EntryIsSound id t × EntriesAreSound tunnels

pub record WorldIsSound (w : World) : Type 0 where
  pub tunnels_sound : EntriesAreSound w.state.tunnels
  pub ranges_fit : All (λ p. InBounds p.upload.range) w.pending

put-EntriesAreSound :
    (id : ℕ) (t : Tunnel) (tunnels : List (ℕ × Tunnel))
    → EntryIsSound id t
    → EntriesAreSound tunnels
    → EntriesAreSound (put same_id id t tunnels)
unfolding put
put-EntriesAreSound id t [] e h = (e, tt)
put-EntriesAreSound id t ((i, u) ∷ tunnels) e h = elim (Bool-cases (same_id i id)) [
  | inl q ↦ rw q (subst (λ j. EntryIsSound j t) (sym ((==_iff i id).0 q)) e, h.1)
  | inr q ↦ rw q (h.0, put-EntriesAreSound id t tunnels e h.1)
]

pub get-EntryIsSound :
    (id : ℕ) (t : Tunnel) (tunnels : List (ℕ × Tunnel))
    → EntriesAreSound tunnels
    → get same_id id tunnels ≡ some t
    → EntryIsSound id t
unfolding get
get-EntryIsSound id t [] h e = absurd (ground arith)
get-EntryIsSound id t ((i, u) ∷ tunnels) h e = elim (Bool-cases (same_id i id)) [
  | inl q ↦
      let same : u ≡ t = ground arith in
      subst (EntryIsSound id) same (subst (λ j. EntryIsSound j u) ((==_iff i id).0 q) h.0)
  | inr q ↦ get-EntryIsSound id t tunnels h.1 (ground arith)
]

-- A handler that keeps a sound and fresh tunnel so, and only appends to its events.
abbrev Keeps : Tunnel → Tunnel → Type 0
Keeps t t' = IsSound t' × IsFresh t' × Extends t t'

Keeps-EntryIsSound : (id : ℕ) (t t' : Tunnel) → Keeps t t' → EntryIsSound id t → EntryIsSound id t'
Keeps-EntryIsSound id t t' k e = record {
  sound = k.0;
  fresh = k.1;
  numbered = k.2.numbered e.numbered;
  keyed = ap (λ x. x.id) k.2.terms ∙ e.keyed;
}

found-EntriesAreSound :
    {A : Type 0} (s : AppState) (id : ℕ) (handler : Tunnel → Tunnel × Result A ApiError)
    (found : Option Tunnel)
    → get same_id id s.tunnels ≡ found
    → ((t : Tunnel) → IsSound t → IsFresh t → Keeps t (handler t).0)
    → EntriesAreSound s.tunnels
    → EntriesAreSound (on_found s id handler found).0.tunnels
found-EntriesAreSound s id handler none e k h = h
found-EntriesAreSound s id handler (some t) e k h =
    let entry = get-EntryIsSound id t s.tunnels h e in
    put-EntriesAreSound id (handler t).0 s.tunnels
      (Keeps-EntryIsSound id t (handler t).0 (k t entry.sound entry.fresh) entry) h

module _ (platform : Platform) where
  created-EntriesAreSound :
      (s : AppState) (id : ℕ) (r : Result (Tunnel × CreateTunnelResponse) ApiError)
      → ((x : Tunnel × CreateTunnelResponse) → r ≡ ok x → EntryIsSound id x.0)
      → EntriesAreSound s.tunnels
      → EntriesAreSound (insert_created s id r).0.tunnels
  created-EntriesAreSound s id (err e) k h = h
  created-EntriesAreSound s id (ok x) k h = put-EntriesAreSound id x.0 s.tunnels (k x refl) h

  after-EntriesAreSound :
      {B : Type 0} (s : AppState) (r : Result B ApiError)
      (rest : AppState × Result Response ApiError)
      → EntriesAreSound s.tunnels
      → EntriesAreSound rest.0.tunnels
      → EntriesAreSound (after s r rest).0.tunnels
  after-EntriesAreSound s (err e) rest h k = h
  after-EntriesAreSound s (ok b) rest h k = k

  handle-EntriesAreSound :
      (s : AppState) (r : Request)
      → EntriesAreSound s.tunnels
      → EntriesAreSound (handle platform s r).0.tunnels
  unfolding handle with_tunnel
  handle-EntriesAreSound s (create r id pairing desk) h =
      created-EntriesAreSound s id _
        (λ x e.
          let (numbered, keyed) =
            create_tunnel-IsNumbered platform s.portal_origin r id pairing desk x e in
          record {
            sound = create_tunnel-IsSound platform s.portal_origin r id pairing desk {r = x} e;
            fresh = create_tunnel-IsFresh platform s.portal_origin r id pairing desk x e;
            numbered = numbered;
            keyed = keyed;
          })
        h
  handle-EntriesAreSound s (call id c) h = after-EntriesAreSound s (credential platform c) _ h (
      found-EntriesAreSound s id (serve platform id c) _ refl
        (λ t sound fresh. (
          serve-IsSound platform id c t sound,
          serve-IsFresh platform id c t sound fresh,
          serve-Extends platform id c t,
        ))
        h)

  begin-InBounds :
      (s : AppState) (id file_id : ℕ) (a c : Option (List ℕ)) (body : List (Option (List ℕ)))
      (now : ℕ) (u : Upload)
      → EntriesAreSound s.tunnels
      → begin_upload platform s id file_id a c body now ≡ ok u
      → InBounds u.range
  unfolding begin_upload
  begin-InBounds s id file_id a c body now u h e =
      let (_, _, e1) = >>=-eq-ok (bearer_hash platform a) _ e in
      let (t, found, received) = ok_or-eq-ok (get same_id id s.tunnels) _ _ e1 in
      receive-InBounds platform t a file_id c body now u received
        (get-EntryIsSound id t s.tunnels h found).sound

  finish-EntriesAreSound :
      (s : AppState) (p : Pending) (now : ℕ) (progress available : Stamp)
      → InBounds p.upload.range
      → EntriesAreSound s.tunnels
      → EntriesAreSound (finish_upload platform s p now progress available).0.tunnels
  unfolding finish_upload with_tunnel
  finish-EntriesAreSound s p now progress available b =
      found-EntriesAreSound s p.tunnel_id
        (λ t. store_upload platform t p.file_id p.upload now progress available) _ refl
        (λ t sound fresh. (
          store_upload-IsSound platform t p.file_id p.upload now progress available b sound,
          store_upload-IsFresh platform t sound fresh p.file_id p.upload now progress available,
          store_upload-Extends platform t p.file_id p.upload now progress available,
        ))

  Step-WorldIsSound : {w w' : World} → Step platform w w' → WorldIsSound w → WorldIsSound w'
  Step-WorldIsSound {w} (request r e) s = subst WorldIsSound (sym e) (record {
    tunnels_sound = handle-EntriesAreSound w.state r s.tunnels_sound;
    ranges_fit = s.ranges_fit;
  })
  Step-WorldIsSound {w} (begin id file_id a c body now u b e) s =
      subst WorldIsSound (sym e) (record {
        tunnels_sound = s.tunnels_sound;
        ranges_fit =
            (begin-InBounds w.state id file_id a c body now u s.tunnels_sound b, s.ranges_fit);
      })
  Step-WorldIsSound {w} (finish earlier later p now progress available m e) s =
      let (before, behind) =
        append-All (λ q. InBounds q.upload.range) earlier (p ∷ later)
          (subst (All (λ q. InBounds q.upload.range)) m s.ranges_fit) in
      subst WorldIsSound (sym e) (record {
        tunnels_sound =
            finish-EntriesAreSound w.state p now progress available behind.0 s.tunnels_sound;
        ranges_fit = All-append _ earlier later before behind.1;
      })

  -- Whatever requests come, and however uploads overlap with them and with one another, each tunnel of
  -- the table is sound and stands under its own identity; while it is connected, each of its files with
  -- bytes is as it was declared; its events bear its identity and the numbers 1, 2, … (modulo 2^64) in
  -- this order; and each upload in flight has a range within bounds.
  pub Run-WorldIsSound : (origin : Str) {w : World} → Run platform origin w → WorldIsSound w
  unfolding new_state
  Run-WorldIsSound origin (start e) =
      subst WorldIsSound (sym e) (record { tunnels_sound = tt; ranges_fit = tt })
  Run-WorldIsSound origin (next run step) = Step-WorldIsSound step (Run-WorldIsSound origin run)
