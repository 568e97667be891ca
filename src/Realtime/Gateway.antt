-- ===== src/Realtime/Gateway.antt =====
-- packages/server/src/realtime/gateway.ts, with the closed flag of a transport out of
-- ws-transport.ts: who is let in, and what the events of the sockets do. `listening` are the connections
-- whose transport is not closed, which are those that messages are taken from. The registry that the
-- gateway shares with the handlers is the one in the lobby handler's state. A payload is given as
-- what the codec makes of it. The match handler is told of what happens by events.
pub mod IsSeated
pub mod Follows
pub mod Accepts
pub mod Closes
pub mod Seated
pub mod Admission
use seg.Prelude.{
  ℕ, String, Bool, true, false, not, Option, none, some, List, [], ◌∷◌, ◌++◌, map, filter, ◌==◌,
  if◌then◌else◌, same_text, Map, get, set, delete, number_key,
}
use seg.Text.{Text, text}
use seg.Auth.Contract.{ResolvedSession, AccountSummary}
use seg.Auth.Service.{AuthService, resolve_session}
use seg.Lobby.State.{AccountId, SelectedFleet}
use seg.Lobby.Service.Create.{Inputs}
use seg.Lobby.Wire.{LobbyClientMessage}
use seg.Lobby.Outbox.{LobbyHandler, Event, Outcome}
use seg.Lobby.Handler.{attach, detach, handle, fleet_found, fleet_read}
use seg.Realtime.Connections.{PlayerConnection, ConnectionRegistry, add, remove, is_current}

pub record Gateway : Type 0 where
  pub handler : LobbyHandler
  pub live : ConnectionRegistry
  pub listening : List PlayerConnection

pub data GatewayEvent : Type 0 where
  lobby : Event → GatewayEvent
  session_replaced : PlayerConnection → GatewayEvent
  closing : PlayerConnection → String → GatewayEvent
  match_attach : PlayerConnection → GatewayEvent
  match_detach : AccountId → GatewayEvent
  match_message : PlayerConnection → GatewayEvent

-- A payload: one that is over the transport's limit of 8192 bytes, one that the codec refuses, a
-- lobby's or a match's message, or any other.
pub data Inbound : Type 0 where
  oversized unreadable : Inbound
  lobby_message : LobbyClientMessage → Inbound
  of_match : Inbound
  other : Inbound

abbrev pub other_socket : PlayerConnection → PlayerConnection → Bool
other_socket connection c = not (c.socket == connection.socket)

-- `transport.close`, or the close of the socket: no more messages are taken from it.
unfoldable pub close_transport : PlayerConnection → Gateway → Gateway
close_transport connection g = record g { listening = filter (other_socket connection) g.listening }

unfoldable pub replace : Option PlayerConnection → Gateway → Gateway × List GatewayEvent
replace none g = (g, [])
replace (some existing) g = (
  close_transport existing g,
  session_replaced existing ∷ closing existing "replaced by a newer connection" ∷ [],
)

unfoldable pub accept : PlayerConnection → Gateway → Gateway × List GatewayEvent
accept connection g =
    let (g', events) = replace (get connection.account_id g.live) g in
    let registered = record g'.handler { connections = add connection g'.handler.connections } in
    let (handler, told) = attach connection registered in
    (
      record {
        handler = handler;
        live = set connection.account_id connection g'.live;
        listening = connection ∷ g'.listening;
      },
      events ++ map lobby told ++ match_attach connection ∷ [],
    )

abbrev pub after : Gateway → Outcome → Gateway × List GatewayEvent
after g (handler, events) = (record g { handler = handler }, map lobby events)

unfoldable pub socket_closed : PlayerConnection → Gateway → Gateway × List GatewayEvent
socket_closed connection g =
    let g' = close_transport connection g in
    let unregistered = record g'.handler {
      connections = remove connection g'.handler.connections;
    } in
    let (handler, told) = detach connection.account_id unregistered in
    if is_current connection g'.live
    then (
      record g' { handler = handler; live = delete connection.account_id g'.live },
      map lobby told ++ match_detach connection.account_id ∷ [],
    )
    else (g', [])

module _ (to_upper_case to_lower_case : Text → Text) (id_of : Text → ℕ) where
  unfoldable pub receive :
      Inputs → PlayerConnection → Inbound → Gateway → Gateway × List GatewayEvent
  receive inputs connection oversized g =
      (close_transport connection g, closing connection "oversized message" ∷ [])
  receive inputs connection unreadable g =
      (close_transport connection g, closing connection "invalid message" ∷ [])
  receive inputs connection (lobby_message message) g =
      after g (handle to_upper_case to_lower_case id_of inputs connection message g.handler)
  receive inputs connection of_match g = (g, match_message connection ∷ [])
  receive inputs connection other g = (g, [])

-- What an upgrade request comes to.
pub data UpgradeAnswer : Type 0 where
  refused : ℕ → String → UpgradeAnswer
  accepted : AccountSummary → UpgradeAnswer

abbrev pub gateway_path : Text
gateway_path = text "/ws"

-- `handleUpgrade`, for the path of the URL (none if it is malformed) and the session cookie.
module _ (to_lower_case hash_token : Text → Text) (verify : Text → Text → Option Bool) where
  unfoldable pub admit : Option ResolvedSession → UpgradeAnswer
  admit none = refused 401 "Unauthorized"
  admit (some session) = accepted session.account

  unfoldable pub with_cookie : Option Text → ℕ → AuthService → AuthService × UpgradeAnswer
  with_cookie none now s = (s, refused 401 "Unauthorized")
  with_cookie (some token) now s =
      let (s', session) = resolve_session to_lower_case hash_token verify token now s in
      (s', admit session)

  unfoldable pub handle_upgrade :
      Option Text → Option Text → ℕ → AuthService → AuthService × UpgradeAnswer
  handle_upgrade none cookie now s = (s, refused 400 "Bad Request")
  handle_upgrade (some path) cookie now s =
      if not (same_text path gateway_path)
      then (s, refused 404 "Not Found")
      else with_cookie cookie now s
