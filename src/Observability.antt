-- ===== src/Observability.antt =====
-- src/observability.rs: lifecycle events that carry only constants. The logging library is a parameter.
use ftnl_backend_api_rs.Base.{Bool, List, [], ◌∷◌}
use ftnl_backend_api_rs.Text.{Str, codes}

-- What the service calls of `next_loggers`: `Logger::info` and `Logger::warn`, and the builders of an
-- event.
pub record Logging : Type 1 where
  pub Event : Type 0
  pub info : List Str → Event
  pub warn : List Str → Event
  pub add_fields : Event → List (Str × Str) → Event
  pub add_tags : Event → List Str → Event
  pub add_trace : Event → Str → Bool → Event
  pub add_routine_id : Event → Str → Event

module _ (l : Logging) where
  unfoldable pub metadata_free : l.Event → Str → l.Event
  metadata_free e name =
      l.add_tags
        (l.add_fields e
          ((codes "event.name", name) ∷ (codes "data.classification", codes "metadata-free") ∷ []))
        (codes "file-tunnel" ∷ codes "backend" ∷ [])

  -- `event`, of a name that is a constant.
  unfoldable pub event : Str → l.Event
  event name = metadata_free (l.info (name ∷ [])) name

  unfoldable pub failure : Str → l.Event
  failure name = metadata_free (l.warn (name ∷ [])) name
