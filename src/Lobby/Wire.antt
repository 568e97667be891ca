-- ===== src/Lobby/Wire.antt =====
-- Values off the wire (`unknown`), the messages of packages/shared/src/protocol/lobby.ts, and the
-- readers of packages/server/src/lobby/handler.ts for settings and filters. An array is an object
-- to those readers. An id off the wire is a text; `id_of` gives the number that stands for it.
use seg.Prelude.{ℕ, Bool, ◌||◌, Option, none, some, List, ◌∷◌, if◌then◌else◌, same_text}
use seg.Text.{Text, text}
use seg.Lobby.Settings.{GameMode, Number, game_mode_of, map_type_of, map_size_of}
use seg.Lobby.State.{LobbySettingsPatch, LobbyListFilter, LobbyState, LobbySelfView, LobbySummary}
use seg.Lobby.Service.Registry.{LobbyErrorCode, Message}

mutual
  pub data Wire : Type 0 where
    undefined : Wire
    null : Wire
    boolean : Bool → Wire
    number : Number → Wire
    string : Text → Wire
    object : Fields → Wire

  pub data Fields : Type 0 where
    end : Fields
    field : Text → Wire → Fields → Fields

-- `input[key]`
unfoldable pub read : Text → Fields → Wire
read key end = undefined
read key (field name value fields) = if same_text name key then value else read key fields

pub data LobbyClientMessage : Type 0 where
  create : Wire → LobbyClientMessage
  join : Wire → LobbyClientMessage
  set_position : Wire → LobbyClientMessage
  leave : LobbyClientMessage
  kick : Wire → LobbyClientMessage
  modify : Wire → LobbyClientMessage
  list : Wire → LobbyClientMessage
  select_fleet : Wire → LobbyClientMessage
  set_ready : Wire → LobbyClientMessage
  start : LobbyClientMessage

pub data LobbyOp : Type 0 where
  op_create op_join op_set_position op_leave op_kick : LobbyOp
  op_modify op_list op_select_fleet op_set_ready op_start : LobbyOp

pub data LobbyExitReason : Type 0 where
  left kicked : LobbyExitReason

-- The codes of the service, and those that the handler adds.
pub data RejectCode : Type 0 where
  service_code : LobbyErrorCode → RejectCode
  bad_request not_implemented internal_error : RejectCode

pub data LobbyServerMessage : Type 0 where
  lobby_state : LobbyState → LobbySelfView → LobbyServerMessage
  list_result : List LobbySummary → ℕ → LobbyServerMessage
  exit : LobbyExitReason → LobbyServerMessage
  rejected : LobbyOp → RejectCode → Message → LobbyServerMessage
  match_started : ℕ → LobbyServerMessage

-- `typeof value === 'string' && value.length > 0`
unfoldable pub some_id : Wire → Option Text
some_id (string (c ∷ s)) = some (c ∷ s)
some_id _ = none

abbrev pub as_text : Wire → Option Text
as_text (string s) = some s
as_text _ = none

abbrev pub as_number : Wire → Option Number
as_number (number n) = some n
as_number _ = none

abbrev pub as_boolean : Wire → Option Bool
as_boolean (boolean b) = some b
as_boolean _ = none

-- A text that names a member of an enumeration.
abbrev pub named_by {ℓ} : {A : Type ℓ} → (Text → Option A) → Wire → Option Text
named_by of_text (string s) = elim (of_text s) [ none ↦ none | some _ ↦ some s ]
named_by of_text _ = none

abbrev pub as_mode : Wire → Option GameMode
as_mode (string s) = game_mode_of s
as_mode _ = none

-- `=== 'public'` or `=== 'unlisted'`
unfoldable pub as_visibility : Wire → Option Text
as_visibility (string s) =
    if same_text s (text "public") || same_text s (text "unlisted") then some s else none
as_visibility _ = none

unfoldable pub read_patch : Wire → Option LobbySettingsPatch
read_patch (object input) = some (record {
  name = as_text (read (text "name") input);
  max_players = as_number (read (text "maxPlayers") input);
  mode = named_by game_mode_of (read (text "mode") input);
  fleet_points = as_number (read (text "fleetPoints") input);
  visibility = as_visibility (read (text "visibility") input);
  map_type = named_by map_type_of (read (text "mapType") input);
  map_size = named_by map_size_of (read (text "mapSize") input);
  debug_mode = as_boolean (read (text "debugMode") input);
})
read_patch _ = none

abbrev pub no_filter : LobbyListFilter
no_filter = record { name = none; has_open_slots = none; mode = none }

unfoldable pub read_filter : Wire → LobbyListFilter
read_filter (object input) = record {
  name = as_text (read (text "name") input);
  has_open_slots = as_boolean (read (text "hasOpenSlots") input);
  mode = as_mode (read (text "mode") input);
}
read_filter _ = no_filter
