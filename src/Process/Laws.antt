-- ===== src/Process/Laws.antt =====
-- What the telemetry of the service may tell (src/main.rs and the comments of src/observability.rs:
-- constant event names only, and nothing of addresses, errors or the environment).
use ftnl_backend_api_rs.Base.{
  Bool, true, false, List, [], ◌∷◌, Option, none, some, Result, ok, err, ◌≡◌, refl, sym, ap, ◌∙◌,
  if◌then◌else◌,
}
use ftnl_backend_api_rs.Text.{Str, codes}
use ftnl_backend_api_rs.Server.{AppState}
use ftnl_backend_api_rs.Server.Origin.{default_state}
use ftnl_backend_api_rs.Observability.{Logging, event, failure, metadata_free}
use ftnl_backend_api_rs.Process.{
  Host, Effect, send, close, info, panic, expected, run_address, run_listener, bind_text, main,
}

-- How far a start comes.
pub data Outcome : Type 0 where
  no_address no_listener served : Outcome

abbrev pub bind_outcome : {L F : Type 0} → Result L F → Outcome
bind_outcome (err e) = no_listener
bind_outcome (ok listener) = served

abbrev pub outcome : (h : Host) → Option Str → Outcome
outcome h bind_variable = elim (h.parse (bind_text bind_variable)) [
  | err e ↦ no_address
  | ok address ↦ bind_outcome (h.bind address)
]

abbrev pub has_address : Outcome → Bool
has_address no_address = false
has_address no_listener = true
has_address served = true

-- What the logging library is told: the events that are sent, and the close, as `none`.
abbrev pub telemetry : {E A : Type 0} → List (Effect E A) → List (Option E)
telemetry [] = []
telemetry (send e ∷ effects) = some e ∷ telemetry effects
telemetry (close ∷ effects) = none ∷ telemetry effects
telemetry (info a ∷ effects) = telemetry effects
telemetry (panic m ∷ effects) = telemetry effects

-- The moments that are told.
pub data Moment : Type 0 where
  began refused ready ended : Moment

abbrev pub name_of : Moment → Str
name_of began = codes "backend.service.starting"
name_of refused = codes "backend.service.bind_failed"
name_of ready = codes "backend.service.listening"
name_of ended = codes "backend.service.stopped"

abbrev pub trace_of : Moment → Str
trace_of began = codes "ores-trace-0aRlQysBtiGmEIw0W2W35"
trace_of refused = codes "ores-trace-iE5rEETi7wLK4iMp5Fh8V"
trace_of ready = codes "ores-trace-1ucUj3sArrJhht1ZX7Ff7"
trace_of ended = codes "ores-trace-l95512yZwUUUquRi-3RyU"

abbrev pub warns : Moment → Bool
warns refused = true
warns _ = false

module _ (l : Logging) where
  -- An event that carries nothing but constants, in the calls of the logging library.
  abbrev pub composed : Moment → l.Event
  composed m =
      l.add_routine_id
        (l.add_trace
          (l.add_tags
            (l.add_fields (if warns m then l.warn (name_of m ∷ []) else l.info (name_of m ∷ [])) (
              (codes "event.name", name_of m)
              ∷ (codes "data.classification", codes "metadata-free")
              ∷ []))
            (codes "file-tunnel" ∷ codes "backend" ∷ []))
          (trace_of m) false)
        (codes "ores-routine-DAkC2DkBDXJrWN6Xu5hzr")

  -- Each event that is sent is such an event.
  abbrev pub OnlyComposed : List (Option l.Event) → Type 0
  OnlyComposed [] = Unit
  OnlyComposed (none ∷ told) = OnlyComposed told
  OnlyComposed (some e ∷ told) = ((m : Moment) × (e ≡ composed m)) × OnlyComposed told

  -- The log was closed, once and after the last event.
  abbrev pub is_closed : List (Option l.Event) → Bool
  is_closed [] = false
  is_closed (none ∷ []) = true
  is_closed (none ∷ _ ∷ _) = false
  is_closed (some e ∷ told) = is_closed told

  abbrev transcript : Outcome → List (Option l.Event)
  transcript no_address = some (composed began) ∷ []
  transcript no_listener = some (composed began) ∷ some (composed refused) ∷ none ∷ []
  transcript served =
      some (composed began) ∷ some (composed ready) ∷ some (composed ended) ∷ none ∷ []

  transcript-OnlyComposed : (o : Outcome) → OnlyComposed (transcript o)
  transcript-OnlyComposed no_address = ((began, refl), tt)
  transcript-OnlyComposed no_listener = ((began, refl), ((refused, refl), tt))
  transcript-OnlyComposed served = ((began, refl), ((ready, refl), ((ended, refl), tt)))

  transcript-is_closed : (o : Outcome) → is_closed (transcript o) ≡ has_address o
  transcript-is_closed no_address = refl
  transcript-is_closed no_listener = refl
  transcript-is_closed served = refl

  module _ (h : Host) where
    expected-telemetry : (r : Result (Unit {0}) h.Failure) → telemetry (expected l h r) ≡ []
    expected-telemetry (ok _) = refl
    expected-telemetry (err e) = refl

    listener-telemetry :
        (s : AppState) (address : h.Address) (bound : Result h.Listener h.Failure)
        → some (composed began) ∷ telemetry (run_listener l h s address bound)
          ≡ transcript (bind_outcome bound)
    unfolding failure event metadata_free
    listener-telemetry s address (err e) = refl
    listener-telemetry s address (ok listener) =
        ap
          (λ rest.
            some (composed began) ∷ some (composed ready) ∷ some (composed ended) ∷ none ∷ rest)
          (expected-telemetry (h.serve listener s))

    address-telemetry :
        (s : AppState) (parsed : Result h.Address h.Failure)
        → some (composed began) ∷ telemetry (run_address l h s parsed)
          ≡ transcript
              (elim parsed [ err e ↦ no_address | ok address ↦ bind_outcome (h.bind address) ])
    address-telemetry s (err e) = refl
    address-telemetry s (ok address) = listener-telemetry s address (h.bind address)

    telemetry-main :
        (bind_variable origin_variable : Option Str)
        → telemetry (main l h bind_variable origin_variable) ≡ transcript (outcome h bind_variable)
    unfolding main event metadata_free
    telemetry-main bind_variable origin_variable =
        address-telemetry (default_state origin_variable) (h.parse (bind_text bind_variable))

  -- Of two runs of the process that come equally far, on whatever network and in whatever environment,
  -- the telemetry is the same, so it tells no address, no error and nothing of the environment. Each event
  -- is made of constants only: one of four names, its level and trace, the two fields of an event without
  -- metadata, the tags and the routine. The log is closed exactly if the bind address is valid, once and
  -- after the last event.
  pub telemetry_tells_constants :
      (h other : Host) (bind_variable origin_variable other_bind other_origin : Option Str)
      → outcome h bind_variable ≡ outcome other other_bind
      → (telemetry (main l h bind_variable origin_variable)
          ≡ telemetry (main l other other_bind other_origin))
        × OnlyComposed (telemetry (main l h bind_variable origin_variable))
        × (is_closed (telemetry (main l h bind_variable origin_variable))
            ≡ has_address (outcome h bind_variable))
  telemetry_tells_constants h other bind_variable origin_variable other_bind other_origin same = (
    telemetry-main h bind_variable origin_variable
        ∙ ap transcript same
        ∙ sym (telemetry-main other other_bind other_origin),
    rw (telemetry-main h bind_variable origin_variable)
        (transcript-OnlyComposed (outcome h bind_variable)),
    rw (telemetry-main h bind_variable origin_variable)
        (transcript-is_closed (outcome h bind_variable)),
  )
