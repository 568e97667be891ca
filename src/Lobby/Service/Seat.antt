-- ===== src/Lobby/Service/Seat.antt =====
-- `setPosition`, `selectFleet`, `setReady`, `start` and `resyncFleet`.
use seg.Prelude.{
  ℕ, Bool, true, false, ◌&&◌, not, Option, none, some, ◌==◌, ltb, leb, same_text, if◌then◌else◌,
  filter, number_key,
}
use seg.Lobby.Settings.{LobbyPosition, spectator, same_position, spectator_cap, team_capacity}
use seg.Lobby.State.{
  AccountId, LobbyState, SelectedFleet, player_count, spectator_count, position_count,
  everyone_ready,
}
use seg.Lobby.Service.Registry.{
  LobbyService, LobbyResult, ok, fail, Message, says, over_budget, LobbyErrorCode, not_in_lobby,
  spectators_full, team_full, fleet_over_budget, spectator_cannot_ready, no_fleet_selected,
  not_host, not_all_ready, MutableLobby, MutableMember, position_of, is_account, is_some, snapshot,
  store, require_lobby, find_member, update_member,
}

abbrev pub not_in_a_lobby : LobbyResult LobbyState
not_in_a_lobby = fail not_in_lobby (says "You are not in a lobby.")

-- A change to the caller's own member object, answered by the new state of the lobby.
unfoldable pub change_member :
    LobbyService
    → MutableLobby
    → AccountId
    → (MutableMember → MutableMember)
    → LobbyService × LobbyResult LobbyState
change_member s lobby account f =
    let changed = record lobby { members = update_member account f lobby.members } in
    (store s changed, ok (snapshot changed))

-- The failure to return, or `none` when the position has room.
unfoldable pub capacity_for :
    MutableLobby → LobbyPosition → AccountId → Option (LobbyErrorCode × Message)
capacity_for lobby position account =
    let others = filter (λ m. not (is_account account m)) lobby.members in
    if same_position position spectator
    then (if leb spectator_cap (spectator_count position_of others)
        then some (spectators_full, says "There is no spectator slot free.")
        else none)
    else if leb (team_capacity lobby.settings.max_players)
        (position_count position_of others position)
    then some (team_full, says "That team is full.")
    else none

unfoldable pub move_to : LobbyPosition → MutableMember → MutableMember
move_to position m =
    if same_position position spectator
    then record m { position = position; ready = false }
    else record m { position = position }

unfoldable pub set_position_in :
    LobbyService → MutableLobby → AccountId → LobbyPosition → LobbyService × LobbyResult LobbyState
set_position_in s lobby account position = elim (find_member account lobby.members) [
  | none ↦ (s, not_in_a_lobby)
  | some member ↦
      if same_position member.position position
      then (s, ok (snapshot lobby))
      else elim (capacity_for lobby position account) [
        | some (code, message) ↦ (s, fail code message)
        | none ↦ change_member s lobby account (move_to position)
      ]
]

unfoldable pub set_position :
    LobbyService → AccountId → LobbyPosition → LobbyService × LobbyResult LobbyState
set_position s account position = elim (require_lobby s account) [
  | none ↦ (s, not_in_a_lobby)
  | some lobby ↦ set_position_in s lobby account position
]

abbrev pub exceeds : Option SelectedFleet → ℕ → Bool
exceeds none budget = false
exceeds (some fleet) budget = ltb budget fleet.points

abbrev pub budget_message : Option SelectedFleet → ℕ → Message
budget_message none budget = says ""
budget_message (some fleet) budget = over_budget fleet.name fleet.points budget

-- `member.fleet = fleet; member.ready = false`
unfoldable pub bring : Option SelectedFleet → MutableMember → MutableMember
bring fleet m = record m { fleet = fleet; ready = false }

unfoldable pub select_fleet_in :
    LobbyService
    → MutableLobby
    → AccountId
    → Option SelectedFleet
    → LobbyService × LobbyResult LobbyState
select_fleet_in s lobby account fleet = elim (find_member account lobby.members) [
  | none ↦ (s, not_in_a_lobby)
  | some member ↦
      if exceeds fleet lobby.settings.fleet_points
      then (s, fail fleet_over_budget (budget_message fleet lobby.settings.fleet_points))
      else change_member s lobby account (bring fleet)
]

unfoldable pub select_fleet :
    LobbyService → AccountId → Option SelectedFleet → LobbyService × LobbyResult LobbyState
select_fleet s account fleet = elim (require_lobby s account) [
  | none ↦ (s, not_in_a_lobby)
  | some lobby ↦ select_fleet_in s lobby account fleet
]

unfoldable pub mark_ready : Bool → MutableMember → MutableMember
mark_ready ready m = record m { ready = ready }

unfoldable pub set_ready_in :
    LobbyService → MutableLobby → AccountId → Bool → LobbyService × LobbyResult LobbyState
set_ready_in s lobby account ready = elim (find_member account lobby.members) [
  | none ↦ (s, not_in_a_lobby)
  | some member ↦
      if ready && same_position member.position spectator
      then (
        s,
        fail spectator_cannot_ready (says "Spectators do not field a fleet. Join a team first."),
      )
      else if ready && not (is_some member.fleet)
      then (s, fail no_fleet_selected (says "Pick a fleet before saying you are ready."))
      else change_member s lobby account (mark_ready ready)
]

unfoldable pub set_ready : LobbyService → AccountId → Bool → LobbyService × LobbyResult LobbyState
set_ready s account ready = elim (require_lobby s account) [
  | none ↦ (s, not_in_a_lobby)
  | some lobby ↦ set_ready_in s lobby account ready
]

unfoldable pub start_in : MutableLobby → AccountId → LobbyResult LobbyState
start_in lobby account =
    if not (lobby.host_account_id == account)
    then fail not_host (says "Only the host can start the match.")
    else if player_count position_of lobby.members == 0
    then fail not_all_ready (says "There is nobody on a team to start with.")
    else if not (everyone_ready position_of (λ m. m.ready) lobby.members)
    then fail not_all_ready (says "Everyone has to be ready before the match can start.")
    else ok (snapshot lobby)

-- `start` changes nothing.
unfoldable pub start : LobbyService → AccountId → LobbyResult LobbyState
start s account = elim (require_lobby s account) [
  | none ↦ not_in_a_lobby
  | some lobby ↦ start_in lobby account
]

unfoldable pub same_fleet : SelectedFleet → SelectedFleet → Bool
same_fleet a b =
    a.id == b.id && same_text a.name b.name && a.boat_count == b.boat_count && a.points == b.points

-- `fleet === null || fleet.points > budget`
abbrev pub gone_or_exceeds : Option SelectedFleet → ℕ → Bool
gone_or_exceeds none budget = true
gone_or_exceeds (some fleet) budget = ltb budget fleet.points

abbrev pub unchanged : SelectedFleet → Option SelectedFleet → Bool
unchanged held none = false
unchanged held (some fleet) = same_fleet held fleet

-- The new state, or `none` for `null`.
unfoldable pub resync_member :
    LobbyService
    → MutableLobby
    → AccountId
    → Option SelectedFleet
    → SelectedFleet
    → LobbyService × Option LobbyState
resync_member s lobby account fleet held =
    let dropped = record lobby { members = update_member account (bring none) lobby.members } in
    let renewed = record lobby { members = update_member account (bring fleet) lobby.members } in
    if gone_or_exceeds fleet lobby.settings.fleet_points
    then (store s dropped, some (snapshot dropped))
    else if unchanged held fleet
    then (s, none)
    else (store s renewed, some (snapshot renewed))

abbrev pub fleet_of : Option MutableMember → Option SelectedFleet
fleet_of none = none
fleet_of (some member) = member.fleet

unfoldable pub resync_in :
    LobbyService
    → MutableLobby
    → AccountId
    → Option SelectedFleet
    → ℕ
    → LobbyService × Option LobbyState
resync_in s lobby account fleet fleet_id = elim (fleet_of (find_member account lobby.members)) [
  | none ↦ (s, none)
  | some held ↦
      if not (held.id == fleet_id) then (s, none) else resync_member s lobby account fleet held
]

unfoldable pub resync_fleet :
    LobbyService → AccountId → Option SelectedFleet → ℕ → LobbyService × Option LobbyState
resync_fleet s account fleet fleet_id = elim (require_lobby s account) [
  | none ↦ (s, none)
  | some lobby ↦ resync_in s lobby account fleet fleet_id
]
