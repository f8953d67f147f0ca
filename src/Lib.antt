-- ===== src/Lib.antt =====
-- syncpond, a server that keeps rooms of key/value containers and sends their changes to clients.
--
-- A backend speaks a line protocol over a command socket: it creates rooms, writes and deletes
-- fragments (a JSON value at a key of a container, with a version), groups writes in transactions
-- and asks for tokens. Clients hold a token for one room and some containers; they read a snapshot
-- of what they may see and are then sent updates. All of this stands in syncpond-server/src:
--   * state.rs keeps the rooms: module State. `AppState` is the record of the same name with all its
--     counters and settings; an operation takes it and gives its result with the new state. The
--     body of an operation runs on one room behind that room's lock (`with_room`), which may be
--     poisoned. State.Rooms, State.Fragments, State.Transactions, State.Views, State.Settings and
--     State.Tokens hold the operations; their names are the source's (`set_fragment`, `tx_end`,
--     `room_snapshot`, `create_room_token`). What is written with several arms in one method is
--     split: `set_on`, `del_on`, `begin_on` and `end_on` are the arms on the room's `tx_buffer`, and
--     `write_fragment` is the write that the source has in four places.
--   * commands.rs reads the lines: Commands.Token is `take_token`, Commands.Arguments the readers of
--     the arguments, Commands.Handlers an arm of the `match` each, and Commands.Process the `match`
--     itself (`process_command`), whose reply holds the updates that it sends.
--   * rate_limiter.rs is Limiter: `allow` with its instant as an argument.
--   * ws.rs keeps the clients that are connected to each room: Hub, with `add_client`,
--     `remove_client`, `remove_room` and `broadcast_update`, which asks the limiter for every client
--     and drops those that it refuses or whose queue is full. Auth is `validate_jwt_claims`, the
--     check of the token that a session begins with.
--     Session is the handler of a session, `handle_ws_connection`: Session has its handshake, its first
--     message and its counts, Session.Forwarding the loop that sends events, and Session.Machine the
--     whole of it as a machine among other tasks, with the guards of the application's lock.
--   * main.rs: Config is what `main` makes of the configuration, and Config.Servers the listeners that
--     it starts, their handlers and its end; Console is `handle_command_connection`, Server any number
--     of such connections together, Reading `read_line_with_limit` and Compare `constant_time_eq`; Http
--     has the text of a response and `handle_health_connection`; Docs is `html_escape`, and Docs.Pages
--     `serve_docs_connection` and the choice between it and a session.
-- Demo.ServerCli is demo/server-cli/src/main.rs, a client of the command socket, and Demo.ClientCli is
-- demo/client-cli/src/main.rs, a client of the WebSocket that prints what it is sent.
--
-- Console uses the commands, the state, the limiters and the hub; a connection is a function from
-- what it reads, whether its writes succeed, and the clocks, to what it writes and the shared state
-- after it. There a connection is taken by itself. Server cuts the same handler at each point where it
-- waits, for a lock or for its socket (`Place`); a step (`move`) goes from one wait to the next, and a
-- schedule (`interleave`) names, step by step, the connection that moves and what it was given.
-- The command loop calls `process_command` under the application's lock, so that a run of the
-- server is a sequence of whole operations; State.Run has such sequences (`Call`, `run`), and Hub.Run
-- those of the hub.
--
-- How the source is represented. A text is the list of its code points. `u64` and `usize` have 64
-- bits, and `bump` wraps around, as in the release build of the Dockerfile; where a statement needs
-- that no counter is exhausted it says so with a bound. A `HashMap` is an association list with
-- distinct keys (Dict), a `HashSet` a list without repetition (Sets); no statement depends on the
-- order that they are walked in. Errors are `err` of `Result`; early returns by `?` are `do` blocks.
-- An instant of the limiter is a number of nanoseconds. The loop of TOKEN.GEN runs on fuel, a round
-- more than the text has characters, since every round takes at least one.
--
-- Parameters: serde_json (record Json: `from_str`, `to_string`, the constructors, and that
-- `is_null` tests for null), jsonwebtoken (record Jwt: `encode` and `decode`, with the law that a
-- token is decoded by the key, issuer and audience that signed it until it expires), the channel of a
-- client (record Channel: `try_send`), the clock, and the floating point average in the metrics. Tests
-- has an instance of each library.
--
-- The lock of the application is `RwLock` of tokio: a guard for writing is given only while there is no
-- other guard. `std::net::SocketAddr` is a type with its `parse` and `is_loopback`; the directory that
-- include_dir embeds is a record (Docs.Pages.Dir), and the lower case of Unicode, serde_yaml, clap,
-- the reading of an event at the client (serde_json), the network of the clients (World, Outside) and
-- the files are arguments too.
--
-- Not modelled: sockets, TLS and logging, which are input and output over third-party crates (what
-- comes from them is an argument); and the TypeScript client, which is in another language.
--
-- Tests runs the model on concrete inputs and applies every statement that has hypotheses.
pub mod Base
pub mod Dict
pub mod Text
pub mod Json
pub mod Sets
pub mod Jwt
pub mod State
pub mod Commands
pub mod Auth
pub mod Hub
pub mod Limiter
pub mod Docs
pub mod Compare
pub mod Reading
pub mod Console
pub mod Server
pub mod Session
pub mod Http
pub mod Config
pub mod Demo
mod Tests
