-- ===== src/Tests/Service.antt =====
-- The lobby registry through a short game: a host creates a lobby and another player joins.
use seg.Prelude.{
  ℕ, true, false, none, some, [], ◌∷◌, ◌≡◌, ◌≢◌, refl, get, set, has, delete, map, ◌==◌,
  if◌then◌else◌,
}
use seg.Text.{
  text, trim, collapse, trim_start, trim_end, keep_end, collapse_from, is_space, matches_class,
  is_upper, is_lower, is_digit, any_of, ascii_lower,
}
use seg.Lobby.Settings.{
  team1, team2, objective_capture, dense, medium, in_name_class, normalize_lobby_name,
  validate_lobby_name, team_capacity,
}
use seg.Lobby.State.{
  LobbyState, SelectedFleet, human, public, player_count, position_count, spectator_count,
  everyone_ready, LobbyListFilter, LobbySettingsPatch,
}
use seg.Lobby.Service.Registry.{
  LobbyService, ok, start_service, snapshot, member_view, find_member, update_member, store,
  require_lobby, MutableLobby, lobby_for, view_for, LobbyMutation,
}
use seg.Lobby.Service.Create.{
  Inputs, mint_from, mint_code, new_member, new_lobby, register, create_named, cooling, create,
  first_open_position, seat_joiner, join_lobby, join, join_by_code, join_by_id,
}
use seg.Lobby.Service.Seat.{
  change_member, select_fleet_in, select_fleet, bring, set_ready_in, set_ready, mark_ready,
  start_in, start, set_position, set_position_in, capacity_for, move_to,
}
use seg.Lobby.Service.Leave.{
  leave, remove, remove_left, without_member, next_host, heir, inherits_first, disconnect,
}
use seg.Lobby.Service.Modify.{
  modify, modify_in, patch_settings, patch_name, patch_max_players, patch_mode, patch_fleet_points,
  patch_visibility, patch_map_type, patch_map_size, patch_debug_mode, commit_settings,
  with_settings, drop_over_budget,
}
use seg.Lobby.Service.Browse.{list}
use seg.Lobby.Service.Invariant.{Inv}
use seg.Lobby.Service.Invariant.Reach.{
  Reach, started, next, creates, leaves, selects, readies, Reach-Inv,
}
use seg.Lobby.Service.Promises.Starting.{MayStart, start-MayStart}
use seg.Lobby.Service.Promises.Privacy.{disguise, fleets_stay_private, unlisted_stays_hidden}
use seg.Lobby.Service.Promises.Browser.{IsBrowsed, list-IsBrowsed}
use seg.Lobby.Service.Promises.Heirs.{Inherits, remove-Inherits}
use seg.Lobby.Service.Promises.Errors.{CommandsAreAtomic, commands_are_atomic}
use seg.Lobby.Service.Promises.Joining.{JoinsByCode, join_by_code-JoinsByCode}
use seg.Lobby.Service.Promises.Meanwhile.{at_once, later}
use seg.Lobby.Service.Promises.Leaving.{HasLeft, leave-HasLeft, CoolsDown, create-CoolsDown}

abbrev inputs : Inputs
inputs = record { now = 1000; new_id = 7; code = λ attempt. text "BCDFGH" }

abbrev created : LobbyService
created = (create (start_service none) inputs 1 (text "ann") (text "Deep Six")).0

abbrev fleet : SelectedFleet
fleet = record { id = 40; name = text "Wolf"; boat_count = 3; points = 450 }

abbrev picked : LobbyService
picked = (select_fleet created 1 (some fleet)).0

abbrev armed : LobbyService
armed = (set_ready picked 1 true).0

Reach-created : Reach created
unfolding start_service get
Reach-created = next (started none) (creates inputs 1 (text "ann") (text "Deep Six") refl)

Reach-armed : Reach armed
Reach-armed = next (next Reach-created (selects 1 (some fleet))) (readies 1 true)

abbrev armed_state : LobbyState
armed_state = record {
  id = 7;
  code = text "BCDFGH";
  host_account_id = 1;
  settings = record {
    name = text "Deep Six";
    max_players = 6;
    mode = objective_capture;
    fleet_points = 500;
    visibility = public;
    map_type = dense;
    map_size = medium;
    debug_mode = false;
  };
  members =
      record {
        occupant = human 1;
        username = text "ann";
        position = team1;
        joined_at = 1000;
        has_fleet = true;
        ready = true;
      }
      ∷ [];
  created_at = 1000;
}

-- All that the runs below compute with.
runs : ℕ
unfolding start_service get set has create cooling create_named mint_code mint_from new_lobby
    new_member register snapshot member_view normalize_lobby_name validate_lobby_name trim
    trim_start trim_end keep_end collapse collapse_from is_space matches_class in_name_class
    is_upper is_lower is_digit any_of select_fleet select_fleet_in change_member bring find_member
    update_member store require_lobby set_ready set_ready_in mark_ready start start_in player_count
    everyone_ready delete position_count spectator_count team_capacity first_open_position
    seat_joiner join_lobby join join_by_code join_by_id leave remove remove_left without_member
    next_host heir inherits_first set_position set_position_in capacity_for move_to modify modify_in
    patch_settings patch_name patch_max_players patch_mode patch_fleet_points patch_visibility
    patch_map_type patch_map_size patch_debug_mode commit_settings with_settings drop_over_budget
runs = 0

armed_start : start armed 1 ≡ ok armed_state
unfolding runs
armed_start = refl

Reach-Inv_example : Inv armed
Reach-Inv_example = Reach-Inv Reach-armed

start-MayStart_example : MayStart armed 1 armed_state
start-MayStart_example = start-MayStart 1 Reach-armed armed_start

-- A second player, with another fleet.
abbrev joined : LobbyService
joined = (join_by_code created 1500 2 (text "bob") (text "BCDFGH")).0

abbrev joined_lobby : MutableLobby
joined_lobby =
    seat_joiner (new_lobby 1 (text "ann") (text "Deep Six") (text "BCDFGH") inputs)
      (new_member 2 (text "bob") team2 1500)

abbrev anything : LobbyListFilter
anything = record { name = none; has_open_slots = some true; mode = none }

abbrev heir_state : LobbyState
heir_state = snapshot (record joined_lobby {
  host_account_id = 2;
  members = new_member 2 (text "bob") team2 1500 ∷ [];
})

abbrev left_mutation : LobbyMutation
left_mutation = record {
  state = some (snapshot (new_lobby 1 (text "ann") (text "Deep Six") (text "BCDFGH") inputs));
  removed = 2 ∷ [];
}

fleets_stay_private_example :
    (lobby_for (disguise (λ a fleet. if a == 1 then fleet else record fleet { points = 5 }) armed) 1
      ≡ lobby_for armed 1)
    × (list
          (map ascii_lower)
          anything
          (disguise (λ a fleet. if a == 1 then fleet else record fleet { points = 5 }) armed)
        ≡ list (map ascii_lower) anything armed)
    × (view_for
          (disguise (λ a fleet. if a == 1 then fleet else record fleet { points = 5 }) armed)
          1
        ≡ view_for armed 1)
fleets_stay_private_example =
    fleets_stay_private (λ a fleet. if a == 1 then fleet else record fleet { points = 5 })
      (map ascii_lower) anything armed 1 (λ fleet. refl)

unlist : LobbySettingsPatch
unlist = record {
  name = none;
  max_players = none;
  mode = none;
  fleet_points = none;
  visibility = some (text "unlisted");
  map_type = none;
  map_size = none;
  debug_mode = none;
}

abbrev hidden : LobbyService
hidden = (modify created 1 unlist).0

unlisted_stays_hidden_example :
    (join_by_id hidden 9 2 (text "bob") 7 ≡ join_by_id hidden 9 2 (text "bob") 8)
    × ((join_by_id hidden 9 2 (text "bob") 7).0 ≡ hidden)
unfolding runs unlist
unlisted_stays_hidden_example = unlisted_stays_hidden hidden 9 2 (text "bob") 7 8 refl refl refl

list-IsBrowsed_example : IsBrowsed (map ascii_lower) anything joined
list-IsBrowsed_example = list-IsBrowsed (map ascii_lower) anything joined

remove-Inherits_example :
    (joined_lobby.host_account_id ≢ 1 → heir_state.host_account_id ≡ joined_lobby.host_account_id)
    × (joined_lobby.host_account_id ≡ 1
        → Inherits (without_member 1 joined_lobby.members) heir_state.host_account_id)
unfolding runs
remove-Inherits_example = remove-Inherits joined joined_lobby 1 heir_state refl

commands_are_atomic_example : CommandsAreAtomic joined
commands_are_atomic_example = commands_are_atomic joined

join_by_code-JoinsByCode_example : JoinsByCode created 1500 2 (text "bob") (text "BCDFGH") 7
unfolding runs
join_by_code-JoinsByCode_example =
    join_by_code-JoinsByCode 1500 2 (text "bob") (text "BCDFGH") 7 Reach-created refl refl

left_by_bob : leave joined 2 ≡ ((leave joined 2).0, ok left_mutation)
unfolding runs
left_by_bob = refl

leave-HasLeft_example :
    HasLeft joined (leave joined 2).0 2 left_mutation
    × (disconnect joined 2 ≡ ((leave joined 2).0, some left_mutation))
leave-HasLeft_example = leave-HasLeft joined 2 left_by_bob

created_ok :
    create (start_service none) inputs 1 (text "ann") (text "Deep Six")
    ≡ (created, ok (snapshot (new_lobby 1 (text "ann") (text "Deep Six") (text "BCDFGH") inputs)))
unfolding runs
created_ok = refl

create-CoolsDown_example :
    CoolsDown (leave created 1).0 1000 (record inputs { now = 4000 }) 1 (text "ann") (text "Again")
unfolding runs
create-CoolsDown_example =
    create-CoolsDown (start_service none) (leave created 1).0 inputs (record inputs { now = 4000 })
      1 (text "ann") (text "Deep Six") (text "ann") (text "Again") created_ok
      (later at_once (leaves 1) tt) refl
