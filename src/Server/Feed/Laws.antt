-- ===== src/Server/Feed/Laws.antt =====
-- Which frames a feed sends, and in which order.
use mathlib.Core.Path.{subst}
use ftnl_backend_api_rs.Base.{
  true, ℕ, suc, ◌+◌, Bool, List, [], ◌∷◌, ◌++◌, append-nil, append_assoc, map, length, Option, none,
  some, Result, ok, err, ◌≡◌, ◌⊎◌, refl, sym, ap, ◌∙◌, inl, inr, arith, Option-cases, Bool-cases,
}
use ftnl_backend_api_rs.Text.{Str}
use ftnl_backend_api_rs.Server.{Tunnel, TunnelEvent}
use ftnl_backend_api_rs.Server.Feed.{Feed, event_socket}
use ftnl_backend_api_rs.Server.History.{Numbered, IsNumbered}

-- The events that `recv` gives before its first error.
abbrev pub delivered : {RecvError : Type 0} → List (Result TunnelEvent RecvError) → List TunnelEvent
delivered [] = []
delivered (err e ∷ received) = []
delivered (ok event ∷ received) = event ∷ delivered received

-- The texts of the events that have one.
abbrev pub payloads : (TunnelEvent → Option Str) → List TunnelEvent → List Str
payloads to_string [] = []
payloads to_string (event ∷ events) = elim (to_string event) [
  | none ↦ payloads to_string events
  | some payload ↦ payload ∷ payloads to_string events
]

module _ (to_string : TunnelEvent → Option Str) (takes : List Str → Str → Bool) where
  abbrev pub Sends : List Str → List TunnelEvent → Feed → Type 0
  Sends frames events feed =
      (sent later : List TunnelEvent) × (events ≡ sent ++ later)
      × (feed.frames ≡ frames ++ payloads to_string sent)
      × ((feed.is_closed ≡ true) ⊎ (later ≡ []))

  event_socket-Sends :
      {RecvError : Type 0} (frames : List Str) (received : List (Result TunnelEvent RecvError))
      → Sends frames (delivered received) (event_socket to_string takes frames received)
  unfolding event_socket
  event_socket-Sends frames [] = ([], [], refl, sym (append-nil frames), inr refl)
  event_socket-Sends frames (err e ∷ received) = ([], [], refl, sym (append-nil frames), inl refl)
  event_socket-Sends frames (ok event ∷ received) = elim (Option-cases (to_string event)) [
    | inl skipped ↦
        let (sent, later, split, same, all_sent) = event_socket-Sends frames received in
        (
          event ∷ sent,
          later,
          ap (λ es. event ∷ es) split,
          ground (arith, same),
          ground (arith, all_sent),
        )
    | inr (payload, encoded) ↦ elim (Bool-cases (takes frames payload)) [
      | inl taken ↦
          let (sent, later, split, same, all_sent) =
            event_socket-Sends (frames ++ payload ∷ []) received in
          (
            event ∷ sent,
            later,
            ap (λ es. event ∷ es) split,
            ground (arith, same, append_assoc frames (payload ∷ []) (payloads to_string sent)),
            ground (arith, all_sent),
          )
      | inr refused ↦ (
        [],
        event ∷ delivered received,
        refl,
        ground (arith, append-nil frames),
        inl (ground arith),
      )
    ]
  ]

Numbered-split :
    (id n : ℕ) (earlier later : List TunnelEvent)
    → Numbered id n (earlier ++ later)
    → Numbered id n earlier × Numbered id (n + length earlier) later
Numbered-split id n [] later h = (tt, subst (λ m. Numbered id m later) {y = n + 0} (ground arith) h)
Numbered-split id n (event ∷ earlier) later (s, t, h) =
    let (left, right) = Numbered-split id (suc n) earlier later h in
    (
      (s, t, left),
      subst (λ m. Numbered id m later) {y = n + suc (length earlier)} (omega arith) right,
    )

-- A feed that was opened when the tunnel was `t` sends the texts of the first of the events that were
-- published since, without a gap: their numbers follow the counter of `t`. It has sent all that `recv`
-- gave before its first error, or it is closed.
pub feed_in_order :
    {RecvError : Type 0} (to_json : TunnelEvent → Str) (takes : List Str → Str → Bool)
    (t t' : Tunnel) (received : List (Result TunnelEvent RecvError)) (unread : List TunnelEvent)
    → IsNumbered t'
    → t'.events ≡ t.events ++ delivered received ++ unread
    → let feed = event_socket (λ event. some (to_json event)) takes [] received in
      (sent later : List TunnelEvent) × (delivered received ≡ sent ++ later)
      × (feed.frames ≡ map to_json sent)
      × Numbered t'.id (1 + length t.events) sent
      × ((feed.is_closed ≡ true) ⊎ (later ≡ []))
feed_in_order to_json takes t t' received unread numbered same =
    let (sent, later, split, frames, all_sent) =
      event_socket-Sends (λ event. some (to_json event)) takes [] received in
    (
      sent,
      later,
      split,
      frames ∙ payloads-map sent,
      sent_numbered sent later (
          subst (λ es. Numbered t'.id 1 es) (same ∙ ap (λ es. t.events ++ es ++ unread) split)
            numbered.in_order),
      all_sent,
    )
  where
    payloads-map :
        (events : List TunnelEvent)
        → payloads (λ event. some (to_json event)) events ≡ map to_json events
    payloads-map [] = refl
    payloads-map (event ∷ events) = ap (λ ps. to_json event ∷ ps) (payloads-map events)

    sent_numbered :
        (sent later : List TunnelEvent)
        → Numbered t'.id 1 (t.events ++ (sent ++ later) ++ unread)
        → Numbered t'.id (1 + length t.events) sent
    sent_numbered sent later h =
        let (known, _) = Numbered-split t'.id 1 (t.events ++ (sent ++ later)) unread h in
        let (_, seen) = Numbered-split t'.id 1 t.events (sent ++ later) known in
        (Numbered-split t'.id (1 + length t.events) sent later seen).0
