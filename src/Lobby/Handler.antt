-- ===== src/Lobby/Handler.antt =====
-- packages/server/src/lobby/handler.ts: a message or a change of a connection, as a step of the
-- handler's state that yields what is sent and asked for, in order. What the handler waits for (a
-- fleet, a match) it asks for, and the answer is a step of its own.
pub mod Shape
pub mod Privacy
pub mod Refusals
use seg.Prelude.{
  ℕ, Bool, true, false, not, Option, none, some, List, [], ◌∷◌, ◌++◌, map, if◌then◌else◌, String,
  same_text,
}
use seg.Text.{Text, text}
use seg.Lobby.JoinCode.{normalize_join_code, validate_join_code, describe_join_code_problem}
use seg.Lobby.Settings.{MapType, lobby_position_of}
use seg.Lobby.State.{AccountId, LobbyState, LobbyMember, occupant_account, SelectedFleet}
use seg.Lobby.Service.Registry.{
  LobbyService, LobbyResult, ok, fail, thrown, LobbyErrorCode, validation_failed, not_found,
  Message, says, LobbyMutation, LobbyRosterEntry, lobby_for, view_for, roster, is_some,
}
use seg.Lobby.Service.Create
use seg.Lobby.Service.Create.{Inputs}
use seg.Lobby.Service.Seat
use seg.Lobby.Service.Leave
use seg.Lobby.Service.Modify
use seg.Lobby.Service.Browse
use seg.Lobby.Wire.{
  Wire, undefined, null, boolean, number, string, object, Fields, read, LobbyClientMessage, create,
  join, set_position, leave, kick, modify, list, select_fleet, set_ready, start, LobbyOp, op_create,
  op_join, op_set_position, op_leave, op_kick, op_modify, op_select_fleet, op_set_ready, op_start,
  LobbyExitReason, left, kicked, RejectCode, service_code, bad_request, not_implemented,
  internal_error, LobbyServerMessage, lobby_state, list_result, exit, rejected, match_started,
  some_id, read_patch, read_filter,
}
use seg.Realtime.Connections.{PlayerConnection, ConnectionRegistry, size, add, remove_by_id, tell}
use seg.Lobby.Outbox.{
  LobbyHandler, Event, sent, entered, departed, fleet_lookup, fleet_reread, starting, raised,
  Outcome, serving, tell_account, reject, account_of, broadcast, exit_left, kicked_out, settled,
  entering, refuse,
}

unfoldable pub attach : PlayerConnection → LobbyHandler → Outcome
attach connection h =
    let h' = record h { connections = add connection h.connections } in
    (
      h',
      elim (lobby_for h'.service connection.account_id) [
        | none ↦ []
        | some state ↦
            sent connection (lobby_state state (view_for h'.service connection.account_id)) ∷ []
      ],
    )

abbrev pub state_of : Option LobbyMutation → Option LobbyState
state_of none = none
state_of (some mutation) = mutation.state

unfoldable pub detach : AccountId → LobbyHandler → Outcome
detach account h =
    let (s, mutation) = Leave.disconnect h.service account in
    let h' = record h { service = s; connections = remove_by_id account h.connections } in
    (h', broadcast h' (state_of mutation))

-- `fleetChanged`: the fleet is read again if the account is in a lobby.
unfoldable pub fleet_changed : AccountId → ℕ → LobbyHandler → List Event
fleet_changed account fleet_id h =
    if is_some (lobby_for h.service account) then fleet_reread account fleet_id ∷ [] else []

-- The rest of `fleetChanged`, once the fleet is read.
unfoldable pub fleet_read : AccountId → Option SelectedFleet → ℕ → LobbyHandler → Outcome
fleet_read account fleet fleet_id h =
    let (s, state) = Seat.resync_fleet h.service account fleet fleet_id in
    (serving h s, broadcast (serving h s) state)

-- `startMatch` has answered: the lobby is the one that was authorized.
unfoldable pub start_broadcast : LobbyHandler → LobbyState → ℕ → List LobbyMember → List Event
start_broadcast h lobby match_id [] = []
start_broadcast h lobby match_id (member ∷ members) =
    tell_account h (account_of member) (match_started match_id)
    ++ start_broadcast h lobby match_id members

-- `startMatch` has failed: whether for want of a generator, and the text for that.
unfoldable pub start_failed : PlayerConnection → Bool → String → List Event
start_failed connection true no_generator =
    reject connection op_start not_implemented (says no_generator)
start_failed connection false no_generator =
    reject connection op_start internal_error (says "Something went wrong starting the match.")

-- The fleet that `selectFleet` waited for; `none` inside for one that is missing or another's.
unfoldable pub fleet_found :
    PlayerConnection → Option (Option SelectedFleet) → LobbyHandler → Outcome
fleet_found connection none h =
    refuse h connection op_select_fleet bad_request "Could not read that fleet. Try again."
fleet_found connection (some none) h =
    refuse h connection op_select_fleet (service_code not_found) "No such fleet."
fleet_found connection (some (some fleet)) h =
    settled h connection op_select_fleet
      (Seat.select_fleet h.service connection.account_id (some fleet))

unfoldable pub select_by : PlayerConnection → Option Text → LobbyHandler → Outcome
select_by connection none h =
    refuse h connection op_select_fleet bad_request "A fleet id is required."
select_by connection (some id) h =
    if not h.reads_fleets
    then refuse h connection op_select_fleet not_implemented "This server cannot read saved fleets."
    else (h, fleet_lookup connection id ∷ [])

unfoldable pub choose_fleet : PlayerConnection → Wire → LobbyHandler → Outcome
choose_fleet connection null h =
    settled h connection op_select_fleet (Seat.select_fleet h.service connection.account_id none)
choose_fleet connection fleet_id h = select_by connection (some_id fleet_id) h

unfoldable pub start_lobby : PlayerConnection → LobbyResult LobbyState → LobbyHandler → Outcome
start_lobby connection (fail code message) h =
    (h, reject connection op_start (service_code code) message)
start_lobby connection thrown h = (h, raised ∷ [])
start_lobby connection (ok lobby) h =
    if not h.starts_matches
    then refuse h connection op_start not_implemented
        "Everyone is ready, but match start is not wired up yet."
    else (h, starting connection lobby (roster h.service lobby.id) ∷ [])

-- The full Unicode case mappings, and the number that stands for an id off the wire.
module _ (to_upper_case to_lower_case : Text → Text) (id_of : Text → ℕ) where
  unfoldable pub join_by_typed : Inputs → PlayerConnection → Text → LobbyHandler → Outcome
  join_by_typed inputs connection raw h =
      let code = normalize_join_code to_upper_case raw in
      elim (validate_join_code code) [
        | some problem ↦
            refuse h connection op_join (service_code validation_failed)
              (describe_join_code_problem problem)
        | none ↦ entering h connection op_join (
            Create.join_by_code h.service inputs.now connection.account_id connection.username code)
      ]

  unfoldable pub join_with_code : Inputs → PlayerConnection → Wire → LobbyHandler → Outcome
  join_with_code inputs connection (string raw) h = join_by_typed inputs connection raw h
  join_with_code inputs connection _ h =
      refuse h connection op_join bad_request "A join code is required."

  unfoldable pub join_with_id : Inputs → PlayerConnection → Option Text → LobbyHandler → Outcome
  join_with_id inputs connection none h =
      refuse h connection op_join bad_request "A lobby id is required."
  join_with_id inputs connection (some id) h =
      entering h connection op_join (
        Create.join_by_id h.service inputs.now connection.account_id connection.username (id_of id))

  unfoldable pub join_by : Inputs → PlayerConnection → Wire → Fields → LobbyHandler → Outcome
  join_by inputs connection (string by) target h =
      if same_text by (text "code")
      then join_with_code inputs connection (read (text "code") target) h
      else if same_text by (text "id")
      then join_with_id inputs connection (some_id (read (text "lobbyId") target)) h
      else refuse h connection op_join bad_request "A lobby code or id is required."
  join_by inputs connection _ target h =
      refuse h connection op_join bad_request "A lobby code or id is required."

  unfoldable pub join_target : Inputs → PlayerConnection → Wire → LobbyHandler → Outcome
  join_target inputs connection (object target) h =
      join_by inputs connection (read (text "by") target) target h
  join_target inputs connection _ h =
      refuse h connection op_join bad_request "A lobby code or id is required."

  unfoldable pub position_named : PlayerConnection → Wire → LobbyHandler → Outcome
  position_named connection (string position) h = elim (lobby_position_of position) [
    | none ↦ refuse h connection op_set_position bad_request "That is not a lobby position."
    | some p ↦
        settled h connection op_set_position (Seat.set_position h.service connection.account_id p)
  ]
  position_named connection _ h =
      refuse h connection op_set_position bad_request "That is not a lobby position."

  unfoldable pub kick_target : PlayerConnection → Option Text → LobbyHandler → Outcome
  kick_target connection none h = refuse h connection op_kick bad_request "A player id is required."
  kick_target connection (some id) h =
      let (s, result) = Leave.kick h.service connection.account_id (id_of id) in
      (serving h s, kicked_out (serving h s) connection (id_of id) result)

  unfoldable pub modify_by : PlayerConnection → Wire → LobbyHandler → Outcome
  modify_by connection raw h = elim (read_patch raw) [
    | none ↦ refuse h connection op_modify bad_request "Malformed settings change."
    | some patch ↦
        settled h connection op_modify (Modify.modify h.service connection.account_id patch)
  ]

  unfoldable pub ready_to : PlayerConnection → Wire → LobbyHandler → Outcome
  ready_to connection (boolean ready) h =
      settled h connection op_set_ready (Seat.set_ready h.service connection.account_id ready)
  ready_to connection _ h =
      refuse h connection op_set_ready bad_request "Ready must be true or false."

  abbrev pub name_or_empty : Wire → Text
  name_or_empty (string name) = name
  name_or_empty _ = []

  unfoldable pub handle : Inputs → PlayerConnection → LobbyClientMessage → LobbyHandler → Outcome
  handle inputs connection (create name) h = entering h connection op_create (
      Create.create h.service inputs connection.account_id connection.username (name_or_empty name))
  handle inputs connection (join target) h = join_target inputs connection target h
  handle inputs connection (set_position position) h = position_named connection position h
  handle inputs connection leave h =
      let (s, result) = Leave.leave h.service connection.account_id in
      (serving h s, exit_left (serving h s) connection result)
  handle inputs connection (kick account_id) h = kick_target connection (some_id account_id) h
  handle inputs connection (modify patch) h = modify_by connection patch h
  handle inputs connection (list wanted) h = (
    h,
    sent connection (
          list_result (Browse.list to_lower_case (read_filter wanted) h.service)
            (size h.connections))
        ∷ [],
  )
  handle inputs connection (select_fleet fleet_id) h = choose_fleet connection fleet_id h
  handle inputs connection (set_ready ready) h = ready_to connection ready h
  handle inputs connection start h =
      start_lobby connection (Seat.start h.service connection.account_id) h
