-- ===== src/Server/History.antt =====
-- The events of a tunnel (`publish` of src/lib.rs): each call only appends to them, in the order of
-- their numbers.
pub mod Calls
use ftnl_backend_api_rs.Base.{
  ℕ, suc, ◌+◌, ◌≤◌, ◌%◌, ◌^◌, List, [], ◌∷◌, ◌++◌, append-nil, append_assoc, length, length-append,
  Option, ◌≡◌, refl, sym, ap, ◌∙◌, arith,
}
use ftnl_backend_api_rs.Protocol.{TunnelStatus}
use ftnl_backend_api_rs.Text.{Str}
use ftnl_backend_api_rs.Server.{Digest, StoredFile, Tunnel, TunnelEvent, Stamp, publish}

-- The events from the number `n` on, all of one tunnel; the counter is a `u64`.
abbrev pub Numbered : ℕ → ℕ → List TunnelEvent → Type 0
Numbered id n [] = Unit
Numbered id n (event ∷ events) =
    (event.sequence ≡ n % 2 ^ 64) × (event.tunnel_id ≡ id) × Numbered id (suc n) events

pub record IsNumbered (t : Tunnel) : Type 0 where
  pub in_order : Numbered t.id 1 t.events
  pub counted : t.sequence ≡ length t.events % 2 ^ 64

Numbered-append :
    (id n : ℕ) (events : List TunnelEvent) (event : TunnelEvent)
    → Numbered id n events
    → event.sequence ≡ (n + length events) % 2 ^ 64
    → event.tunnel_id ≡ id
    → Numbered id n (events ++ event ∷ [])
Numbered-append id n [] event h s t = (omega arith, t, tt)
Numbered-append id n (first ∷ events) event h s t =
    (h.0, h.1, Numbered-append id (suc n) events event h.2 (omega arith) t)

-- How far a tunnel has come; a complete one and a closed one are at the end.
abbrev pub rank : TunnelStatus → ℕ
rank TunnelStatus.waiting = 0
rank TunnelStatus.connected = 1
rank TunnelStatus.transferring = 2
rank TunnelStatus.complete = 3
rank TunnelStatus.cancelled = 3
rank TunnelStatus.expired = 3

pub rank-le : (status : TunnelStatus) → rank status ≤ 3
rank-le status = ground arith

-- What no handler changes.
pub record Terms : Type 0 where
  pub id : ℕ
  pub expires_at : ℕ
  pub desktop_hash : Digest
  pub max_files : ℕ
  pub max_file_bytes : ℕ
  pub accept : List Str

abbrev pub terms_of : Tunnel → Terms
terms_of t = record {
  id = t.id;
  expires_at = t.expires_at;
  desktop_hash = t.desktop_hash;
  max_files = t.max_files;
  max_file_bytes = t.max_file_bytes;
  accept = t.accept;
}

-- What a later tunnel is to an earlier one: its terms are the same, its status has not gone back, and
-- its events continue the earlier ones.
pub record Extends (t t' : Tunnel) : Type 0 where
  pub terms : terms_of t' ≡ terms_of t
  pub forward : rank t.status ≤ rank t'.status
  pub news : List TunnelEvent
  pub appended : t'.events ≡ t.events ++ news
  pub numbered : IsNumbered t → IsNumbered t'

pub Extends-refl : (t : Tunnel) → Extends t t
Extends-refl t = record {
  terms = refl;
  forward = omega arith;
  news = [];
  appended = sym (append-nil t.events);
  numbered = λ h. h;
}

pub Extends-trans : (t u v : Tunnel) → Extends t u → Extends u v → Extends t v
Extends-trans t u v h k = record {
  terms = k.terms ∙ h.terms;
  forward = omega (arith, h.forward, k.forward);
  news = h.news ++ k.news;
  appended = k.appended ∙ ap (λ es. es ++ k.news) h.appended ∙ append_assoc t.events h.news k.news;
  numbered = λ n. k.numbered (h.numbered n);
}

publish-IsNumbered :
    (t : Tunnel) (kind : Str) (file_id bytes_transferred : Option ℕ) (reason_code : Option Str)
    (stamp : Stamp)
    → IsNumbered t
    → IsNumbered (publish t kind file_id bytes_transferred reason_code stamp)
unfolding publish
publish-IsNumbered t kind file_id bytes_transferred reason_code stamp h = record {
  in_order = Numbered-append t.id 1 t.events _ h.in_order (omega (arith, h.counted)) refl;
  counted = omega (arith, h.counted, length-append t.events);
}

pub publish-Extends :
    (t : Tunnel) (kind : Str) (file_id bytes_transferred : Option ℕ) (reason_code : Option Str)
    (stamp : Stamp)
    → Extends t (publish t kind file_id bytes_transferred reason_code stamp)
unfolding publish
publish-Extends t kind file_id bytes_transferred reason_code stamp = record {
  terms = refl;
  forward = omega arith;
  news = _;
  appended = refl;
  numbered = publish-IsNumbered t kind file_id bytes_transferred reason_code stamp;
}

-- The other fields may be assigned, if the status does not go back.
pub Extends-assign :
    (t : Tunnel) (status : TunnelStatus) (pairing_hash phone_hash : Option Digest)
    (files : List (ℕ × StoredFile)) (event_tickets : List (Digest × ℕ))
    → rank t.status ≤ rank status
    → Extends t (record t {
      status = status;
      pairing_hash = pairing_hash;
      phone_hash = phone_hash;
      files = files;
      event_tickets = event_tickets;
    })
Extends-assign t status pairing_hash phone_hash files event_tickets h = record {
  terms = refl;
  forward = h;
  news = [];
  appended = sym (append-nil t.events);
  numbered = λ n. record { in_order = n.in_order; counted = n.counted };
}
