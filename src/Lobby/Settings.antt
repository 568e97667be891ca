-- ===== src/Lobby/Settings.antt =====
-- packages/shared/src/lobby/settings.ts. What `isGameMode`, `isMapType`, `isMapSize` and
-- `isLobbyPosition` accept is narrowed to the enumeration, so each is a function into `Option`.
pub mod Checks
use seg.Prelude.{
  ℕ, ◌+◌, ◌-◌, ◌/◌, ◌%◌, String, Bool, true, false, ◌&&◌, ◌||◌, Option, none, some, List, [], ◌∷◌,
  length, ◌==◌, ltb, leb, same_text, if◌then◌else◌, not,
}
use seg.Text.{Text, text, is_upper, is_lower, is_digit, any_of, matches_class, trim, collapse}

pub data GameMode : Type 0 where
  objective_capture deathmatch : GameMode

abbrev pub default_game_mode : GameMode
default_game_mode = objective_capture

unfoldable pub game_mode_of : Text → Option GameMode
game_mode_of value =
    if same_text value (text "objective-capture")
    then some objective_capture
    else if same_text value (text "deathmatch")
    then some deathmatch
    else none

pub describe_game_mode : GameMode → String
describe_game_mode objective_capture = "Objective Capture"
describe_game_mode deathmatch = "Deathmatch"

pub data MapType : Type 0 where
  empty sparse dense : MapType

abbrev pub default_map_type : MapType
default_map_type = dense

unfoldable pub map_type_of : Text → Option MapType
map_type_of value =
    if same_text value (text "empty")
    then some empty
    else if same_text value (text "sparse")
    then some sparse
    else if same_text value (text "dense")
    then some dense
    else none

pub data MapSize : Type 0 where
  small medium large : MapSize

abbrev pub default_map_size : MapSize
default_map_size = medium

unfoldable pub map_size_of : Text → Option MapSize
map_size_of value =
    if same_text value (text "small")
    then some small
    else if same_text value (text "medium")
    then some medium
    else if same_text value (text "large")
    then some large
    else none

pub data LobbyPosition : Type 0 where
  team1 team2 spectator : LobbyPosition

-- `===` on positions.
abbrev pub same_position : LobbyPosition → LobbyPosition → Bool
same_position team1 team1 = true
same_position team2 team2 = true
same_position spectator spectator = true
same_position _ _ = false

unfoldable pub lobby_position_of : Text → Option LobbyPosition
lobby_position_of value =
    if same_text value (text "team1")
    then some team1
    else if same_text value (text "team2")
    then some team2
    else if same_text value (text "spectator")
    then some spectator
    else none

abbrev pub lobby_name_min_length : ℕ
lobby_name_min_length = 3

abbrev pub lobby_name_max_length : ℕ
lobby_name_max_length = 32

abbrev pub max_players_min : ℕ
max_players_min = 2

abbrev pub max_players_max : ℕ
max_players_max = 16

abbrev pub max_players_default : ℕ
max_players_default = 6

abbrev pub fleet_points_min : ℕ
fleet_points_min = 200

abbrev pub fleet_points_max : ℕ
fleet_points_max = 1500

abbrev pub fleet_points_default : ℕ
fleet_points_default = 500

abbrev pub default_debug_mode : Bool
default_debug_mode = false

abbrev pub spectator_cap : ℕ
spectator_cap = 16

-- `maxPlayers / 2`. Every cap that is stored is even, so the division is exact.
unfoldable pub team_capacity : ℕ → ℕ
team_capacity max_players = max_players / 2

-- A number off the wire. `negative n` is -(n + 1); `fractional` stands for all that
-- `Number.isInteger` refuses.
pub data Number : Type 0 where
  whole negative : ℕ → Number
  fractional : Number

pub data LobbySettingsProblem : Type 0 where
  name_too_short name_too_long name_invalid_characters : LobbySettingsProblem
  max_players_out_of_range max_players_odd fleet_points_out_of_range : LobbySettingsProblem
  unknown_game_mode unknown_map_type unknown_map_size : LobbySettingsProblem

-- The class `[A-Za-z0-9 '\-_.!?]`.
unfoldable pub in_name_class : ℕ → Bool
in_name_class c = is_upper c || is_lower c || is_digit c || any_of (text " '-_.!?") c

unfoldable pub normalize_lobby_name : Text → Text
normalize_lobby_name name = collapse (trim name)

unfoldable pub validate_lobby_name : Text → Option LobbySettingsProblem
validate_lobby_name name =
    if ltb (length name) lobby_name_min_length
    then some name_too_short
    else if ltb lobby_name_max_length (length name)
    then some name_too_long
    else if not (matches_class in_name_class name)
    then some name_invalid_characters
    else none

unfoldable pub validate_max_players : Number → Option LobbySettingsProblem
validate_max_players fractional = some max_players_out_of_range
validate_max_players (negative n) = some max_players_out_of_range
validate_max_players (whole n) =
    if ltb n max_players_min || ltb max_players_max n
    then some max_players_out_of_range
    else if not (n % 2 == 0)
    then some max_players_odd
    else none

unfoldable pub validate_fleet_points : Number → Option LobbySettingsProblem
validate_fleet_points fractional = some fleet_points_out_of_range
validate_fleet_points (negative n) = some fleet_points_out_of_range
validate_fleet_points (whole n) =
    if ltb n fleet_points_min || ltb fleet_points_max n
    then some fleet_points_out_of_range
    else none

pub describe_lobby_settings_problem : LobbySettingsProblem → String
describe_lobby_settings_problem name_too_short = "Lobby name must be at least 3 characters."
describe_lobby_settings_problem name_too_long = "Lobby name must be at most 32 characters."
describe_lobby_settings_problem name_invalid_characters =
    "Lobby name may contain only letters, numbers, spaces, and the punctuation ' - _ . ! ?"
describe_lobby_settings_problem max_players_out_of_range = "Player cap must be between 2 and 16."
describe_lobby_settings_problem max_players_odd =
    "Player cap must be an even number, so both teams are the same size."
describe_lobby_settings_problem fleet_points_out_of_range =
    "Fleet point budget must be between 200 and 1500."
describe_lobby_settings_problem unknown_game_mode = "That is not a game mode."
describe_lobby_settings_problem unknown_map_type = "That is not a map type."
describe_lobby_settings_problem unknown_map_size = "That is not a map size."

pub describe_map_type : MapType → String
describe_map_type empty = "Empty"
describe_map_type sparse = "Sparse"
describe_map_type dense = "Dense"

pub describe_map_size : MapSize → String
describe_map_size small = "Small"
describe_map_size medium = "Medium"
describe_map_size large = "Large"
