-- ===== src/Server/Snapshot/Order.antt =====
-- The order of the files in a snapshot.
use ftnl_backend_api_rs.Base.{
  ℕ, ◌≤◌, ◌<◌, List, [], ◌∷◌, Option, leb, ◌==◌, if◌then◌else◌, All, Bool-cases, leb→le, ok, ◌≡◌,
  refl, ap, ◌∙◌, arith, inl, inr,
}
use mathlib.Core.Path.{subst}
use ftnl_backend_api_rs.Server.{Platform, FileDescriptor, Tunnel}
use ftnl_backend_api_rs.Server.Access.{ensure_active}
use ftnl_backend_api_rs.Server.Snapshot.{
  TunnelSnapshot, insert_by_created_at, sort_by_created_at, descriptors, get_tunnel,
}

-- Each file was created no later than those behind it.
abbrev pub IsSorted : List FileDescriptor → Type 0
IsSorted [] = Unit
IsSorted (file ∷ files) = All (λ later. file.created_at ≤ later.created_at) files × IsSorted files

-- The files that were created at an instant, in the order of the list.
abbrev pub created_then : ℕ → List FileDescriptor → List FileDescriptor
created_then instant [] = []
created_then instant (file ∷ files) =
    if file.created_at == instant
    then file ∷ created_then instant files
    else created_then instant files

All-le :
    (a b : ℕ) (files : List FileDescriptor)
    → a ≤ b
    → All (λ f. b ≤ f.created_at) files
    → All (λ f. a ≤ f.created_at) files
All-le a b [] h p = tt
All-le a b (f ∷ files) h p = (omega (arith, p.0), All-le a b files h p.1)

All-insert :
    (a : ℕ) (file : FileDescriptor) (files : List FileDescriptor)
    → a ≤ file.created_at
    → All (λ f. a ≤ f.created_at) files
    → All (λ f. a ≤ f.created_at) (insert_by_created_at file files)
unfolding insert_by_created_at
All-insert a file [] h p = (h, tt)
All-insert a file (first ∷ files) h p = elim (Bool-cases (leb file.created_at first.created_at)) [
  | inl e ↦ rw e (h, p)
  | inr e ↦ rw e (p.0, All-insert a file files h p.1)
]

insert-IsSorted :
    (file : FileDescriptor) (files : List FileDescriptor)
    → IsSorted files
    → IsSorted (insert_by_created_at file files)
unfolding insert_by_created_at
insert-IsSorted file [] s = (tt, tt)
insert-IsSorted file (first ∷ files) s = elim (Bool-cases (leb file.created_at first.created_at)) [
  | inl e ↦
      let le = leb→le file.created_at first.created_at e in
      rw e ((le, All-le file.created_at first.created_at files le s.0), s)
  | inr e ↦
      rw e
        (All-insert first.created_at file files (ground arith) s.0, insert-IsSorted file files s.1)
]

sort-IsSorted : (files : List FileDescriptor) → IsSorted (sort_by_created_at files)
unfolding sort_by_created_at
sort-IsSorted [] = tt
sort-IsSorted (file ∷ files) = insert-IsSorted file (sort_by_created_at files) (sort-IsSorted files)

created_then-insert :
    (instant : ℕ) (file : FileDescriptor) (files : List FileDescriptor)
    → created_then instant (insert_by_created_at file files) ≡ created_then instant (file ∷ files)
unfolding insert_by_created_at
created_then-insert instant file [] = refl
created_then-insert instant file (first ∷ files) =
    ground (arith, created_then-insert instant file files)

created_then-sort :
    (instant : ℕ) (files : List FileDescriptor)
    → created_then instant (sort_by_created_at files) ≡ created_then instant files
unfolding sort_by_created_at
created_then-sort instant [] = refl
created_then-sort instant (file ∷ files) =
    created_then-insert instant file (sort_by_created_at files)
    ∙ ap (λ rest. if file.created_at == instant then file ∷ rest else rest)
        (created_then-sort instant files)

get_tunnel_answer :
    (platform : Platform) (t : Tunnel) (tunnel_id : ℕ) (authorization : Option (List ℕ)) (now : ℕ)
    {s : TunnelSnapshot}
    → get_tunnel platform t tunnel_id authorization now ≡ ok s
    → (now < t.expires_at)
      × (◌≡◌ {A = TunnelSnapshot}
          (record {
            tunnel_id = tunnel_id;
            status = t.status;
            expires_at = t.expires_at;
            files = sort_by_created_at (descriptors t);
          })
          s)
unfolding get_tunnel ensure_active
get_tunnel_answer platform t tunnel_id authorization now h = ground arith

-- A snapshot shows the status and the expiry of the tunnel, and its files by the time of creation; at
-- each instant these are the files of the tunnel that were created then, in their order, so none is
-- lost, added or shown twice.
pub get_tunnel_orders :
    (platform : Platform) (t : Tunnel) (tunnel_id : ℕ) (authorization : Option (List ℕ)) (now : ℕ)
    (s : TunnelSnapshot)
    → get_tunnel platform t tunnel_id authorization now ≡ ok s
    → (s.status ≡ t.status)
      × (s.expires_at ≡ t.expires_at)
      × (now < s.expires_at)
      × IsSorted s.files
      × ((instant : ℕ) → created_then instant s.files ≡ created_then instant (descriptors t))
get_tunnel_orders platform t tunnel_id authorization now s h =
    let (live, e) = get_tunnel_answer platform t tunnel_id authorization now {s = s} h in
    subst
      (λ (x : TunnelSnapshot).
        (x.status ≡ t.status)
        × (x.expires_at ≡ t.expires_at)
        × (now < x.expires_at)
        × IsSorted x.files
        × ((instant : ℕ) → created_then instant x.files ≡ created_then instant (descriptors t)))
      e
      (
        refl,
        refl,
        live,
        sort-IsSorted (descriptors t),
        λ instant. created_then-sort instant (descriptors t),
      )
