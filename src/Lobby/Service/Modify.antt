-- ===== src/Lobby/Service/Modify.antt =====
-- `modify`: each part of the patch is checked and written to a copy of the settings in turn.
use seg.Prelude.{
  ℕ, Bool, ◌||◌, not, Option, none, some, List, map, ◌==◌, ltb, same_text, if◌then◌else◌,
  number_key,
}
use seg.Text.{Text, text}
use seg.Lobby.Settings.{
  game_mode_of, map_type_of, map_size_of, team1, team2, Number, whole, negative, fractional,
  team_capacity, normalize_lobby_name, validate_lobby_name, validate_max_players,
  validate_fleet_points, describe_lobby_settings_problem, LobbySettingsProblem, unknown_game_mode,
  unknown_map_type, unknown_map_size,
}
use seg.Lobby.State.{
  AccountId, LobbySettings, LobbySettingsPatch, public, unlisted, LobbyState, player_count,
  position_count,
}
use seg.Lobby.Service.Registry.{
  LobbyService, LobbyResult, ok, fail, thrown, says, already_seated, allows_per_team, not_host,
  validation_failed, below_current_occupancy, MutableLobby, MutableMember, position_of, snapshot,
  store, require_lobby,
}
use seg.Lobby.Service.Seat.{bring, exceeds, not_in_a_lobby}

infixl 5 ◌>>=◌
abbrev pub ◌>>=◌ : {A B : Type 0} → LobbyResult A → (A → LobbyResult B) → LobbyResult B
ok a >>= f = f a
fail code message >>= f = fail code message
thrown >>= f = thrown

abbrev pub invalid : {A : Type 0} → LobbySettingsProblem → LobbyResult A
invalid problem = fail validation_failed (says (describe_lobby_settings_problem problem))

-- The value of a number that passed its check.
abbrev pub value_of : Number → ℕ
value_of (whole n) = n
value_of (negative n) = 0
value_of fractional = 0

unfoldable pub patch_name : Option Text → LobbySettings → LobbyResult LobbySettings
patch_name none next = ok next
patch_name (some raw) next = elim (validate_lobby_name (normalize_lobby_name raw)) [
  | some problem ↦ invalid problem
  | none ↦ ok (record next { name = normalize_lobby_name raw })
]

-- The occupancy checks on a cap that is in range and even.
unfoldable pub lower_cap : List MutableMember → ℕ → LobbySettings → LobbyResult LobbySettings
lower_cap members cap next =
    let seated = player_count position_of members in
    let per_team = team_capacity cap in
    if ltb cap seated
    then fail below_current_occupancy (already_seated seated)
    else if ltb per_team (position_count position_of members team1)
        || ltb per_team (position_count position_of members team2)
    then fail below_current_occupancy (allows_per_team per_team)
    else ok (record next { max_players = cap })

unfoldable pub patch_max_players :
    List MutableMember → Option Number → LobbySettings → LobbyResult LobbySettings
patch_max_players members none next = ok next
patch_max_players members (some number) next = elim (validate_max_players number) [
  | some problem ↦ invalid problem
  | none ↦ lower_cap members (value_of number) next
]

unfoldable pub patch_mode : Option Text → LobbySettings → LobbyResult LobbySettings
patch_mode none next = ok next
patch_mode (some mode) next = elim (game_mode_of mode) [
  | none ↦ invalid unknown_game_mode
  | some known ↦ ok (record next { mode = known })
]

unfoldable pub patch_fleet_points : Option Number → LobbySettings → LobbyResult LobbySettings
patch_fleet_points none next = ok next
patch_fleet_points (some number) next = elim (validate_fleet_points number) [
  | some problem ↦ invalid problem
  | none ↦ ok (record next { fleet_points = value_of number })
]

unfoldable pub patch_visibility : Option Text → LobbySettings → LobbyResult LobbySettings
patch_visibility none next = ok next
patch_visibility (some visibility) next =
    if same_text visibility (text "public")
    then ok (record next { visibility = public })
    else if same_text visibility (text "unlisted")
    then ok (record next { visibility = unlisted })
    else fail validation_failed (says "Visibility must be public or unlisted.")

unfoldable pub patch_map_type : Option Text → LobbySettings → LobbyResult LobbySettings
patch_map_type none next = ok next
patch_map_type (some map_type) next = elim (map_type_of map_type) [
  | none ↦ invalid unknown_map_type
  | some known ↦ ok (record next { map_type = known })
]

unfoldable pub patch_map_size : Option Text → LobbySettings → LobbyResult LobbySettings
patch_map_size none next = ok next
patch_map_size (some map_size) next = elim (map_size_of map_size) [
  | none ↦ invalid unknown_map_size
  | some known ↦ ok (record next { map_size = known })
]

unfoldable pub patch_debug_mode : Option Bool → LobbySettings → LobbySettings
patch_debug_mode none next = next
patch_debug_mode (some debug_mode) next = record next { debug_mode = debug_mode }

unfoldable pub patch_settings :
    List MutableMember → LobbySettingsPatch → LobbySettings → LobbyResult LobbySettings
patch_settings members patch settings = do
  named ← patch_name patch.name settings
  capped ← patch_max_players members patch.max_players named
  moded ← patch_mode patch.mode capped
  budgeted ← patch_fleet_points patch.fleet_points moded
  shown ← patch_visibility patch.visibility budgeted
  mapped ← patch_map_type patch.map_type shown
  sized ← patch_map_size patch.map_size mapped
  ok (patch_debug_mode patch.debug_mode sized)

-- A selection that the new budget strands is dropped.
unfoldable pub drop_over_budget : ℕ → MutableMember → MutableMember
drop_over_budget budget m = if exceeds m.fleet budget then bring none m else m

unfoldable pub with_settings : MutableLobby → LobbySettings → MutableLobby
with_settings lobby next = record lobby {
  settings = next;
  members = map (drop_over_budget next.fleet_points) lobby.members;
}

unfoldable pub commit_settings :
    LobbyService → MutableLobby → LobbyResult LobbySettings → LobbyService × LobbyResult LobbyState
commit_settings s lobby (ok next) =
    (store s (with_settings lobby next), ok (snapshot (with_settings lobby next)))
commit_settings s lobby (fail code message) = (s, fail code message)
commit_settings s lobby thrown = (s, thrown)

unfoldable pub modify_in :
    LobbyService
    → MutableLobby
    → AccountId
    → LobbySettingsPatch
    → LobbyService × LobbyResult LobbyState
modify_in s lobby host patch =
    if not (lobby.host_account_id == host)
    then (s, fail not_host (says "Only the host can change lobby settings."))
    else commit_settings s lobby (patch_settings lobby.members patch lobby.settings)

unfoldable pub modify :
    LobbyService → AccountId → LobbySettingsPatch → LobbyService × LobbyResult LobbyState
modify s host patch = elim (require_lobby s host) [
  | none ↦ (s, not_in_a_lobby)
  | some lobby ↦ modify_in s lobby host patch
]
