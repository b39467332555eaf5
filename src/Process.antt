-- ===== src/Process.antt =====
-- src/main.rs: the life of the process, as the list of what it does. The network and the environment
-- are parameters.
pub mod Laws
mod Tests
use ftnl_backend_api_rs.Base.{Bool, false, List, [], ◌∷◌, ◌++◌, Option, none, some, Result, ok, err}
use ftnl_backend_api_rs.Text.{Str, codes}
use ftnl_backend_api_rs.Server.{AppState}
use ftnl_backend_api_rs.Server.Origin.{default_state}
use ftnl_backend_api_rs.Observability.{Logging, event, failure}

-- `SocketAddr::from_str`, `TcpListener::bind` and `axum::serve` with its shutdown, and the debug text of
-- an error.
pub record Host : Type 1 where
  pub Address : Type 0
  pub Listener : Type 0
  pub Failure : Type 0
  pub parse : Str → Result Address Failure
  pub bind : Address → Result Listener Failure
  pub serve : Listener → AppState → Result (Unit {0}) Failure
  pub debug : Failure → Str

pub data Effect (Event Address : Type 0) : Type 0 where
  send : Event → Effect Event Address
  close : Effect Event Address
  info : Address → Effect Event Address
  panic : (message : Str) → Effect Event Address

-- `env::var("FTNL_BIND").unwrap_or_else(…)`
unfoldable pub bind_text : Option Str → Str
bind_text none = codes "127.0.0.1:8080"
bind_text (some text) = text

abbrev pub routine_id : Str
routine_id = codes "ores-routine-DAkC2DkBDXJrWN6Xu5hzr"

module _ (l : Logging) (h : Host) where
  abbrev pub traced : l.Event → Str → l.Event
  traced e trace = l.add_routine_id (l.add_trace e trace false) routine_id

  abbrev pub starting : l.Event
  starting =
      traced (event l (codes "backend.service.starting")) (codes "ores-trace-0aRlQysBtiGmEIw0W2W35")

  abbrev pub bind_failed : l.Event
  bind_failed =
      traced (failure l (codes "backend.service.bind_failed"))
        (codes "ores-trace-iE5rEETi7wLK4iMp5Fh8V")

  abbrev pub listening : l.Event
  listening =
      traced (event l (codes "backend.service.listening"))
        (codes "ores-trace-1ucUj3sArrJhht1ZX7Ff7")

  abbrev pub stopped : l.Event
  stopped =
      traced (event l (codes "backend.service.stopped")) (codes "ores-trace-l95512yZwUUUquRi-3RyU")

  -- `result.expect(…)`
  abbrev pub expected : Result (Unit {0}) h.Failure → List (Effect l.Event h.Address)
  expected (ok _) = []
  expected (err e) = panic (codes "server failed: " ++ h.debug e) ∷ []

  abbrev pub run_listener :
      AppState → h.Address → Result h.Listener h.Failure → List (Effect l.Event h.Address)
  run_listener state address (err e) =
      send bind_failed ∷ close ∷ panic (codes "failed to bind FTNL_BIND: " ++ h.debug e) ∷ []
  run_listener state address (ok listener) =
      info address ∷ send listening ∷ send stopped ∷ close ∷ expected (h.serve listener state)

  abbrev pub run_address : AppState → Result h.Address h.Failure → List (Effect l.Event h.Address)
  run_address state (err e) = panic (codes "FTNL_BIND must be a socket address: " ++ h.debug e) ∷ []
  run_address state (ok address) = run_listener state address (h.bind address)

  -- `main`, of what the environment holds for `FTNL_BIND` and `FTNL_PORTAL_ORIGIN`.
  unfoldable pub main : Option Str → Option Str → List (Effect l.Event h.Address)
  main bind_variable origin_variable =
      send starting
      ∷ run_address (default_state origin_variable) (h.parse (bind_text bind_variable))
