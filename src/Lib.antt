-- ===== src/Lib.antt =====
-- A verification library of seg, a submarine game with a server, a client and shared rules.
--
-- What is modelled, file by file (paths from the repository's root):
--
-- - Prelude: tests on numbers, lists, the stable sort and JavaScript's `Map` as an association list
--   in insertion order.
-- - Text: JavaScript strings as lists of UTF-16 code units, with `trim`, `replace(/\s+/g, ' ')`
--   and the classes of the regular expressions that the program uses. The full Unicode case
--   mappings are parameters, of which only the effect on ASCII is ever assumed.
-- - Lobby.JoinCode: packages/shared/src/lobby/join-code.ts (`normalizeJoinCode`,
--   `validateJoinCode`) and `defaultCodeGenerator` of packages/server/src/lobby/service.ts, with
--   the draws of `randomInt` as a parameter.
-- - Lobby.Settings: packages/shared/src/lobby/settings.ts. A number off the wire is a natural, a
--   negative integer or anything else (`Number`). Player caps that are stored are even, so
--   `team_capacity` divides exactly.
-- - Lobby.State: packages/shared/src/lobby/state.ts, the records on the wire and the seating
--   queries. Account, lobby and fleet ids are opaque strings there and numbers here.
-- - Lobby.Service: packages/server/src/lobby/service.ts. `Registry` holds the state (the four maps
--   of `LobbyService`), its results and queries; `Create`, `Seat`, `Leave`, `Modify` and `Browse`
--   hold the commands, each a function from the state to the new state and the answer. A lobby
--   object is shared through the map of lobbies alone, so a change in place is a write to that
--   map. Instants are natural numbers of milliseconds; the clock, `randomUUID` and the codes that
--   `generateCode` gives are arguments. `mintCode` makes at most 100 attempts, as the source does,
--   and then throws. `Valid` says when a lobby object is well formed, `Invariant` when the
--   registry is, and `Promises` what callers may rely on.
-- - Lobby.Wire, Lobby.Outbox, Lobby.Handler: packages/shared/src/protocol/lobby.ts and
--   packages/server/src/lobby/handler.ts. A message goes to the model of the service, and what is
--   sent or called is a list of events.
-- - Realtime.Connections, Realtime.Gateway: packages/server/src/realtime/connections.ts and
--   gateway.ts. `Gateway` composes the registry, the lobby handler and the sessions; the codec is
--   taken as done.
-- - Auth.RateLimit: packages/server/src/auth/rate-limit.ts. `Auth.Validation`:
--   packages/shared/src/auth/validation.ts.
-- - Auth.Tables, Auth.Passwords, Auth.Contract, Auth.Service: the rows and statements of
--   packages/server/src/db/repos, packages/server/src/auth/passwords.ts and
--   packages/server/src/auth/service.ts. Hashing, bcrypt's check and the tokens are parameters. A
--   command that awaits in the middle is two steps, between which other requests may run.
-- - Match.Runtime, Match.Store, Match.Handler: packages/shared/src/match/state.ts,
--   packages/server/src/match/store.ts and, of handler.ts there, the life of a connection, the
--   start, the end and the chat. `MatchRuntime` is the runtime of a match as an interface.
-- - Match.Tubes: packages/shared/src/match/tubes.ts, in exact milliseconds where the source adds
--   seconds as floating point, whose rounding can make a tube ready one tick later.
-- - Fleet: packages/shared/src/fleet/validate.ts and types.ts, the rules on boats and fleets.
-- - Chat: packages/shared/src/match/chat.ts, the rules on the text, the speaker and the listener.
--
-- The recursions are structural: the loops of the program run over lists or a fixed number of
-- rounds (6 letters of a code, 100 attempts to mint one), so no fuel is needed.
--
-- Not modelled: the orders to boats, the frames and the debug commands of the match handler, the
-- match runtime and its simulation (floating point), map generation, the SQL engine, HTTP, WebSocket
-- I/O and the client.
pub mod Prelude
pub mod Text
pub mod Auth
pub mod Lobby
pub mod Fleet
pub mod Chat
pub mod Realtime
pub mod Match
pub mod Tests
