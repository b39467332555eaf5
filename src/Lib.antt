-- ===== src/Lib.antt =====
-- File Tunnel backend API: an ephemeral bridge between a desktop and a phone. A desktop creates a
-- tunnel and shows its pairing secret; a phone exchanges the secret for a capability, declares files
-- and uploads them in ranges; the desktop downloads them; event tickets open a feed of events.
--
-- Parts, and the files that model them:
--   Base         Shared names: tests on numbers, lists, results with `?`, maps as association lists.
--   Text         Rust's strings, as lists of code points, and decimal numbers.
--   Resumable    src/resumable.rs. Resumable/Number, Resumable/Range: `parse_u64` and
--                `ContentRange::parse`. Resumable/Upload: `UploadBuffer::append`, which takes the buffer
--                and returns it with the result. Resumable/Messages: the texts of the errors.
--   Declaration  src/declaration.rs: `validate_declaration` and `media_is_accepted`.
--   Protocol     src/protocol.rs. Protocol: the matrix `permits`. Protocol/State: `ProtocolState`, its
--                actions and invariants; a `u8` set is a number. Protocol/Quint: the specification
--                formal/file_tunnel_protocol.qnt as a step relation; Protocol/Unbounded, the same with
--                files and tickets of any type. Protocol/Harnesses: the Kani harnesses and
--                tests/proptest_protocol.rs, as functions of the values that they choose.
--   Server       src/lib.rs. Server: the tunnel, its files and events, `ApiError`, `publish`.
--                Server/Access: `ensure_active`, `bearer_hash` and the capability checks.
--                Server/Handlers, Server/Transfers, Server/Snapshot: the handlers, each on one tunnel.
--                Server/Table: the table of tunnels, the routes on it (`handle`, `serve`), and the
--                server with its uploads in flight (Server/Table/World). Server/Table/Arrival: any
--                request to one tunnel, an upload with its two looks included. Server/Feed:
--                `event_socket`.
--                Server/Problem: `into_response`. Server/Origin: the default origin and the CORS
--                predicate. For proofs: Server/Accepted and Server/Capability, what an accepted call
--                means; Server/Invariant, soundness of tunnels; Server/History, what later tunnels are
--                to earlier ones; Server/RoundTrip, from the upload to the download, resumed or not;
--                Server/Session, a session through the table; Server/Refinement, a tunnel
--                against the specification.
--   Observability  src/observability.rs: the builders of lifecycle events.
--   Process      src/main.rs: `main`, as the list of its effects.
--   Persistence  src/persistence.rs: the schema and its bootstrap SQL, which ftnl-lib-core compiles.
--
-- The routes call the handlers of Server on the tunnel that they look up. The handlers call Declaration
-- for the decision on a file, Resumable for ranges and buffers, and Protocol for the matrix. The state
-- machine of Protocol/State is the small model of a tunnel that the repository checks with Quint; the
-- handlers share its matrix. Against the specification over any files and tickets stands a whole
-- tunnel: Server/Refinement/Abstract says which state of it a tunnel stands for, and which calls fit (a
-- declared file has bytes; drawn identities and tickets are new). The unit tests of resumable.rs and
-- declaration.rs, and one of lib.rs, are the modules named UnitTests.
--
-- Numbers: offsets and sizes are `u64`, `usize` has 64 bits, and subtraction or increment that a release
-- build wraps is written with its `% 2 ^ 64`. Nothing runs on fuel except the printing of decimals,
-- which recurs on the number itself. Instants are nanoseconds, a `Uuid` is a number, a digest a list.
--
-- A handler is a function of the tunnel that it finds under the lock, of the clock readings and of the
-- random numbers that it draws; a request holds the lock to its end, so requests are steps that follow
-- one another. `upload_file` releases the lock while it reads the body: its two looks at the tunnel are
-- two steps, between which any others may come. A `HashMap` is an association list, whose order stands
-- for any order of iteration. `sha256`, constant-time comparison, the text of a header and of a `Uuid`
-- are the record `Platform`; its one law is that the comparison decides equality. The broadcast channel
-- is the list of events that were sent on it; a feed takes the answers of its receiver as they come.
--
-- Not modelled: the matching of paths, request identifiers, tracing, the CORS headers, JSON and the
-- upgrade to a websocket, which are calls of axum, tower-http and serde; `health`, a constant;
-- `logger` and the tracing subscriber, which set options of libraries; `shutdown_signal`, which
-- waits for a signal, and `token_ttl_hint`, a constant that nothing uses; and the other tests of lib.rs,
-- persistence.rs and observability.rs, which run those libraries. Only Server/Refinement assumes
-- that numbers drawn for a `Uuid` are new, where it says so.
pub mod Base
pub mod Text
pub mod Resumable
pub mod Declaration
pub mod Protocol
pub mod Server
pub mod Observability
pub mod Process
pub mod Persistence
