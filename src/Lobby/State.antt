-- ===== src/Lobby/State.antt =====
-- packages/shared/src/lobby/state.ts. Account, lobby and fleet ids are opaque strings that are
-- only compared, and numbers here.
pub mod Seating
use seg.Prelude.{
  ℕ, ◌+◌, Bool, true, false, ◌&&◌, not, Option, none, some, List, [], ◌∷◌, length, filter, all, ltb,
}
use seg.Text.{Text}
use seg.Lobby.Settings.{
  GameMode, MapType, MapSize, LobbyPosition, team1, team2, spectator, same_position, Number,
}

abbrev pub LobbyId : Type 0
LobbyId = ℕ

abbrev pub AccountId : Type 0
AccountId = ℕ

pub data LobbyVisibility : Type 0 where
  public unlisted : LobbyVisibility

pub record LobbySettings : Type 0 where
  pub name : Text
  pub max_players : ℕ
  pub mode : GameMode
  pub fleet_points : ℕ
  pub visibility : LobbyVisibility
  pub map_type : MapType
  pub map_size : MapSize
  pub debug_mode : Bool

-- As it comes off the wire: enumerations are texts and numbers any numbers.
pub record LobbySettingsPatch : Type 0 where
  pub name : Option Text
  pub max_players : Option Number
  pub mode : Option Text
  pub fleet_points : Option Number
  pub visibility : Option Text
  pub map_type : Option Text
  pub map_size : Option Text
  pub debug_mode : Option Bool

-- The one kind of occupant is `human`.
pub data LobbyOccupant : Type 0 where
  human : AccountId → LobbyOccupant

abbrev pub occupant_account : LobbyOccupant → AccountId
occupant_account (human account) = account

pub record LobbyMember : Type 0 where
  pub occupant : LobbyOccupant
  pub username : Text
  pub position : LobbyPosition
  pub joined_at : ℕ
  pub has_fleet : Bool
  pub ready : Bool

pub record SelectedFleet : Type 0 where
  pub id : ℕ
  pub name : Text
  pub boat_count : ℕ
  pub points : ℕ

pub record LobbySelfView : Type 0 where
  pub fleet : Option SelectedFleet

abbrev pub no_self_view : LobbySelfView
no_self_view = record { fleet = none }

pub record LobbyState : Type 0 where
  pub id : LobbyId
  pub code : Text
  pub host_account_id : AccountId
  pub settings : LobbySettings
  pub members : List LobbyMember
  pub created_at : ℕ

pub record LobbySummary : Type 0 where
  pub id : LobbyId
  pub name : Text
  pub player_count : ℕ
  pub max_players : ℕ
  pub mode : GameMode
  pub fleet_points : ℕ

pub record LobbyListFilter : Type 0 where
  pub name : Option Text
  pub has_open_slots : Option Bool
  pub mode : Option GameMode

-- The seating queries read a member's position only, here handed over as a function.
module _ {M : Type 0} (position : M → LobbyPosition) where
  abbrev pub is_playing : M → Bool
  is_playing m = not (same_position (position m) spectator)

  unfoldable pub player_count : List M → ℕ
  player_count members = length (filter is_playing members)

  unfoldable pub spectator_count : List M → ℕ
  spectator_count members = length (filter (λ m. same_position (position m) spectator) members)

  unfoldable pub position_count : List M → LobbyPosition → ℕ
  position_count members p = length (filter (λ m. same_position (position m) p) members)

  module _ (ready : M → Bool) where
    unfoldable pub everyone_ready : List M → Bool
    everyone_ready members =
        let players = filter is_playing members in ltb 0 (length players) && all ready players

    unfoldable pub ready_count : List M → ℕ
    ready_count members = length (filter (λ m. is_playing m && ready m) members)

unfoldable pub to_summary : LobbyState → LobbySummary
to_summary state = record {
  id = state.id;
  name = state.settings.name;
  player_count = player_count (λ m. m.position) state.members;
  max_players = state.settings.max_players;
  mode = state.settings.mode;
  fleet_points = state.settings.fleet_points;
}
