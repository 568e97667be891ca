-- ===== src/Lobby/Service/Registry.antt =====
-- The state of the service, its results and its plain queries. A lobby object is shared through
-- the map of lobbies alone, so a change to it is a write to that map (`store`).
use seg.Prelude.{
  ℕ, Bool, true, false, String, Option, none, some, List, [], ◌∷◌, map, find, ◌==◌, if◌then◌else◌,
  Map, get, set, number_key, text_key,
}
use seg.Text.{Text}
use seg.Lobby.Settings.{LobbyPosition}
use seg.Lobby.State.{
  LobbyId, AccountId, LobbySettings, LobbyOccupant, occupant_account, LobbyMember, SelectedFleet,
  LobbySelfView, no_self_view, LobbyState,
}

-- The codes of `LobbyErrorCode` that the service returns.
pub data LobbyErrorCode : Type 0 where
  not_found already_in_lobby rate_limited validation_failed lobby_full : LobbyErrorCode
  not_in_lobby spectators_full team_full fleet_over_budget : LobbyErrorCode
  spectator_cannot_ready no_fleet_selected not_host not_all_ready : LobbyErrorCode
  cannot_kick_host below_current_occupancy : LobbyErrorCode

-- The text of a failure. Those with a number or a name in them are constructors of their own.
pub data Message : Type 0 where
  says : String → Message
  wait_seconds : ℕ → Message
  over_budget : Text → ℕ → ℕ → Message
  already_seated : ℕ → Message
  allows_per_team : ℕ → Message

-- `thrown` is an exception.
pub data LobbyResult (A : Type 0) : Type 0 where
  ok : A → LobbyResult A
  fail : LobbyErrorCode → Message → LobbyResult A
  thrown : LobbyResult A

pub record LobbyMutation : Type 0 where
  pub state : Option LobbyState
  pub removed : List AccountId

pub record LobbyRosterEntry : Type 0 where
  pub account_id : AccountId
  pub username : Text
  pub position : LobbyPosition
  pub fleet_id : Option ℕ

pub record MutableMember : Type 0 where
  pub occupant : LobbyOccupant
  pub username : Text
  pub position : LobbyPosition
  pub joined_at : ℕ
  pub fleet : Option SelectedFleet
  pub ready : Bool

abbrev pub account_of : MutableMember → AccountId
account_of m = occupant_account m.occupant

abbrev pub position_of : MutableMember → LobbyPosition
position_of m = m.position

pub record MutableLobby : Type 0 where
  pub id : LobbyId
  pub code : Text
  pub host_account_id : AccountId
  pub settings : LobbySettings
  pub members : List MutableMember
  pub created_at : ℕ

pub record LobbyService : Type 0 where
  pub lobbies : Map LobbyId MutableLobby
  pub by_code : Map Text LobbyId
  pub membership : Map AccountId LobbyId
  pub last_created_at : Map AccountId ℕ
  pub create_cooldown_ms : ℕ

abbrev pub default_create_cooldown_ms : ℕ
default_create_cooldown_ms = 10000

-- A fresh service, with the cooldown of its options.
unfoldable pub start_service : Option ℕ → LobbyService
start_service cooldown = record {
  lobbies = [];
  by_code = [];
  membership = [];
  last_created_at = [];
  create_cooldown_ms = elim cooldown [ none ↦ default_create_cooldown_ms | some ms ↦ ms ];
}

abbrev pub is_some {ℓ} : {A : Type ℓ} → Option A → Bool
is_some none = false
is_some (some a) = true

unfoldable pub member_view : MutableMember → LobbyMember
member_view m = record {
  occupant = m.occupant;
  username = m.username;
  position = m.position;
  joined_at = m.joined_at;
  has_fleet = is_some m.fleet;
  ready = m.ready;
}

unfoldable pub snapshot : MutableLobby → LobbyState
snapshot lobby = record {
  id = lobby.id;
  code = lobby.code;
  host_account_id = lobby.host_account_id;
  settings = lobby.settings;
  members = map member_view lobby.members;
  created_at = lobby.created_at;
}

abbrev pub is_account : AccountId → MutableMember → Bool
is_account account m = account_of m == account

-- `members.find((m) => m.occupant.accountId === accountId)`
unfoldable pub find_member : AccountId → List MutableMember → Option MutableMember
find_member account members = find (is_account account) members

-- A change to the member that `find` returns, in place.
unfoldable pub update_member :
    AccountId → (MutableMember → MutableMember) → List MutableMember → List MutableMember
update_member account f [] = []
update_member account f (m ∷ ms) =
    if is_account account m then f m ∷ ms else m ∷ update_member account f ms

-- The lobby object after a change.
unfoldable pub store : LobbyService → MutableLobby → LobbyService
store s lobby = record s { lobbies = set lobby.id lobby s.lobbies }

unfoldable pub require_lobby : LobbyService → AccountId → Option MutableLobby
require_lobby s account = elim (get account s.membership) [
  | none ↦ none
  | some id ↦ get id s.lobbies
]

unfoldable pub lobby_for : LobbyService → AccountId → Option LobbyState
lobby_for s account = elim (get account s.membership) [
  | none ↦ none
  | some id ↦ elim (get id s.lobbies) [ none ↦ none | some lobby ↦ some (snapshot lobby) ]
]

unfoldable pub member_for : LobbyService → AccountId → Option MutableMember
member_for s account = elim (require_lobby s account) [
  | none ↦ none
  | some lobby ↦ find_member account lobby.members
]

unfoldable pub fleet_view : Option SelectedFleet → LobbySelfView
fleet_view none = no_self_view
fleet_view (some fleet) = record { fleet = some fleet }

unfoldable pub view_for : LobbyService → AccountId → LobbySelfView
view_for s account = elim (member_for s account) [
  | none ↦ no_self_view
  | some member ↦ fleet_view member.fleet
]

abbrev pub fleet_id_of : Option SelectedFleet → Option ℕ
fleet_id_of none = none
fleet_id_of (some fleet) = some fleet.id

unfoldable pub roster_entry : MutableMember → LobbyRosterEntry
roster_entry m = record {
  account_id = account_of m;
  username = m.username;
  position = m.position;
  fleet_id = fleet_id_of m.fleet;
}

unfoldable pub roster : LobbyService → LobbyId → List LobbyRosterEntry
roster s id = elim (get id s.lobbies) [ none ↦ [] | some lobby ↦ map roster_entry lobby.members ]
