-- ===== src/Lobby/Outbox.antt =====
-- What packages/server/src/lobby/handler.ts sends: the state of the handler, what it yields, and the
-- methods under "Outcomes", which decide who is told. The callbacks and the asynchronous calls of
-- its options are the events `entered`, `departed`, `fleet_lookup`, `fleet_reread` and `starting`.
use seg.Prelude.{ℕ, Bool, Option, none, some, List, [], ◌∷◌, ◌++◌, map, String}
use seg.Text.{Text}
use seg.Lobby.State.{AccountId, LobbyState, LobbyMember, occupant_account}
use seg.Lobby.Service.Registry.{
  LobbyService, LobbyResult, ok, fail, thrown, Message, says, LobbyMutation, LobbyRosterEntry,
  view_for,
}
use seg.Lobby.Wire.{
  LobbyOp, op_leave, op_kick, left, kicked, RejectCode, service_code, LobbyServerMessage,
  lobby_state, exit, rejected,
}
use seg.Realtime.Connections.{PlayerConnection, ConnectionRegistry, tell}

pub record LobbyHandler : Type 0 where
  pub service : LobbyService
  pub connections : ConnectionRegistry
  -- Whether the options give `fleets` and `startMatch`.
  pub reads_fleets : Bool
  pub starts_matches : Bool

pub data Event : Type 0 where
  sent : PlayerConnection → LobbyServerMessage → Event
  entered : AccountId → Event
  departed : AccountId → Event
  fleet_lookup : PlayerConnection → Text → Event
  fleet_reread : AccountId → ℕ → Event
  starting : PlayerConnection → LobbyState → List LobbyRosterEntry → Event
  raised : Event

abbrev pub Outcome : Type 0
Outcome = LobbyHandler × List Event

abbrev pub serving : LobbyHandler → LobbyService → LobbyHandler
serving h s = record h { service = s }

abbrev pub as_event : PlayerConnection × LobbyServerMessage → Event
as_event (connection, message) = sent connection message

unfoldable pub tell_account : LobbyHandler → AccountId → LobbyServerMessage → List Event
tell_account h account message = map as_event (tell account message h.connections)

unfoldable pub reject : PlayerConnection → LobbyOp → RejectCode → Message → List Event
reject connection op code message = sent connection (rejected op code message) ∷ []

abbrev pub account_of : LobbyMember → AccountId
account_of member = occupant_account member.occupant

-- The loop of `broadcast`.
unfoldable pub tell_members : LobbyHandler → LobbyState → List LobbyMember → List Event
tell_members h state [] = []
tell_members h state (member ∷ members) =
    tell_account h (account_of member) (lobby_state state (view_for h.service (account_of member)))
    ++ tell_members h state members

unfoldable pub broadcast : LobbyHandler → Option LobbyState → List Event
broadcast h none = []
broadcast h (some state) = tell_members h state state.members

unfoldable pub settle :
    LobbyHandler → PlayerConnection → LobbyOp → LobbyResult LobbyState → List Event
settle h connection op (ok state) = broadcast h (some state)
settle h connection op (fail code message) = reject connection op (service_code code) message
settle h connection op thrown = raised ∷ []

-- `if (result.ok) this.onEnteredLobby?.(...)`, and then `settle`.
unfoldable pub enter :
    LobbyHandler → PlayerConnection → LobbyOp → LobbyResult LobbyState → List Event
enter h connection op (ok state) = entered connection.account_id ∷ settle h connection op (ok state)
enter h connection op (fail code message) = settle h connection op (fail code message)
enter h connection op thrown = settle h connection op thrown

-- `exit`, behind `onMatchDeparture`.
unfoldable pub exit_left : LobbyHandler → PlayerConnection → LobbyResult LobbyMutation → List Event
exit_left h connection (ok mutation) =
    departed connection.account_id ∷ sent connection (exit left) ∷ broadcast h mutation.state
exit_left h connection (fail code message) = reject connection op_leave (service_code code) message
exit_left h connection thrown = raised ∷ []

unfoldable pub kicked_out :
    LobbyHandler → PlayerConnection → AccountId → LobbyResult LobbyMutation → List Event
kicked_out h connection target (ok mutation) =
    tell_account h target (exit kicked) ++ broadcast h mutation.state
kicked_out h connection target (fail code message) =
    reject connection op_kick (service_code code) message
kicked_out h connection target thrown = raised ∷ []

unfoldable pub settled :
    LobbyHandler → PlayerConnection → LobbyOp → LobbyService × LobbyResult LobbyState → Outcome
settled h connection op (s, result) = (serving h s, settle (serving h s) connection op result)

unfoldable pub entering :
    LobbyHandler → PlayerConnection → LobbyOp → LobbyService × LobbyResult LobbyState → Outcome
entering h connection op (s, result) = (serving h s, enter (serving h s) connection op result)

abbrev pub refuse : LobbyHandler → PlayerConnection → LobbyOp → RejectCode → String → Outcome
refuse h connection op code message = (h, reject connection op code (says message))
