-- ===== src/Process/Tests.antt =====
-- A start on a port that is taken.
use ftnl_backend_api_rs.Base.{List, Option, ◌∷◌, ◌++◌, none, some, ok, err, ◌≡◌, refl}
use ftnl_backend_api_rs.Text.{Str, codes}
use ftnl_backend_api_rs.Observability.{Logging}
use ftnl_backend_api_rs.Process.{Host, main}
use ftnl_backend_api_rs.Process.Laws.{
  telemetry, outcome, has_address, OnlyComposed, is_closed, telemetry_tells_constants,
}

abbrev words : Logging
words = record {
  Event = List Str;
  info = λ values. codes "info" ∷ values;
  warn = λ values. codes "warn" ∷ values;
  add_fields = λ e fields. e;
  add_tags = λ e tags. e ++ tags;
  add_trace = λ e trace full. trace ∷ e;
  add_routine_id = λ e routine. routine ∷ e;
}

abbrev taken_port : Host
taken_port = record {
  Address = Str;
  Listener = Unit;
  Failure = Str;
  parse = λ text. ok text;
  bind = λ address. err (codes "in use: " ++ address);
  serve = λ listener state. ok tt;
  debug = λ failure. failure;
}

abbrev other_port : Host
other_port = record taken_port { bind = λ address. err (codes "not allowed: " ++ address) }

-- Two starts that fail in two ways on two addresses.
abbrev told : List (Option words.Event)
told = telemetry (main words taken_port none (some (codes "http://a")))

telemetry_tells_constants_example :
    (told ≡ telemetry (main words other_port (some (codes "0.0.0.0:9")) none))
    × OnlyComposed words told
    × (is_closed words told ≡ has_address (outcome taken_port none))
telemetry_tells_constants_example =
    telemetry_tells_constants words taken_port other_port none (some (codes "http://a"))
      (some (codes "0.0.0.0:9")) none refl
