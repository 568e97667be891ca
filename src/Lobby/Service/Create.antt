-- ===== src/Lobby/Service/Create.antt =====
-- `create`, `joinByCode`, `joinById` and what they call.
use seg.Prelude.{
  ℕ, zero, suc, ◌+◌, ◌-◌, ◌/◌, Bool, true, false, ◌&&◌, not, Option, none, some, [], ◌∷◌, ◌++◌,
  ◌==◌, ltb, leb, if◌then◌else◌, get, set, has, number_key, text_key,
}
use seg.Text.{Text}
use seg.Lobby.Settings.{
  LobbyPosition, team1, team2, spectator, default_game_mode, default_map_type, default_map_size,
  default_debug_mode, max_players_default, fleet_points_default, spectator_cap, team_capacity,
  normalize_lobby_name, validate_lobby_name, describe_lobby_settings_problem,
}
use seg.Lobby.State.{
  LobbyId, AccountId, public, unlisted, LobbyVisibility, human, LobbyState, spectator_count,
  position_count,
}
use seg.Lobby.Service.Registry.{
  LobbyService, LobbyResult, ok, fail, thrown, says, wait_seconds, already_in_lobby, rate_limited,
  validation_failed, not_found, lobby_full, MutableLobby, MutableMember, position_of, snapshot,
  store,
}

-- What a call takes from outside: the clock, `randomUUID` and the codes that `generateCode` gives,
-- attempt by attempt.
pub record Inputs : Type 0 where
  pub now : ℕ
  pub new_id : LobbyId
  pub code : ℕ → Text

-- The loop of `mintCode` from an attempt on; `none` is the exception after the last.
unfoldable pub mint_from : LobbyService → (ℕ → Text) → ℕ → ℕ → Option Text
mint_from s generate attempt zero = none
mint_from s generate attempt (suc left) =
    let later = mint_from s generate (attempt + 1) left in
    if not (has (generate attempt) s.by_code) then some (generate attempt) else later

unfoldable pub mint_code : LobbyService → (ℕ → Text) → Option Text
mint_code s generate = mint_from s generate 0 100

unfoldable pub new_member : AccountId → Text → LobbyPosition → ℕ → MutableMember
new_member account username position now = record {
  occupant = human account;
  username = username;
  position = position;
  joined_at = now;
  fleet = none;
  ready = false;
}

unfoldable pub new_lobby : AccountId → Text → Text → Text → Inputs → MutableLobby
new_lobby account username name code inputs = record {
  id = inputs.new_id;
  code = code;
  host_account_id = account;
  settings = record {
    name = name;
    max_players = max_players_default;
    mode = default_game_mode;
    fleet_points = fleet_points_default;
    visibility = public;
    map_type = default_map_type;
    map_size = default_map_size;
    debug_mode = default_debug_mode;
  };
  members = new_member account username team1 inputs.now ∷ [];
  created_at = inputs.now;
}

-- The four writes at the end of `create`.
unfoldable pub register : LobbyService → MutableLobby → AccountId → ℕ → LobbyService
register s lobby account now = record s {
  lobbies = set lobby.id lobby s.lobbies;
  by_code = set lobby.code lobby.id s.by_code;
  membership = set account lobby.id s.membership;
  last_created_at = set account now s.last_created_at;
}

unfoldable pub create_named :
    LobbyService → Inputs → AccountId → Text → Text → LobbyService × LobbyResult LobbyState
create_named s inputs account username name = elim (validate_lobby_name name) [
  | some problem ↦ (s, fail validation_failed (says (describe_lobby_settings_problem problem)))
  | none ↦ elim (mint_code s inputs.code) [
    | none ↦ (s, thrown)
    | some code ↦ (
      register s (new_lobby account username name code inputs) account inputs.now,
      ok (snapshot (new_lobby account username name code inputs)),
    )
  ]
]

-- `now - last < cooldown` for the last creation, if there was one.
unfoldable pub cooling : LobbyService → ℕ → Option ℕ → Bool
cooling s now none = false
cooling s now (some last) = ltb now (last + s.create_cooldown_ms)

-- `Math.ceil((cooldown - (now - last)) / 1000)`, of a positive number.
unfoldable pub seconds_left : LobbyService → ℕ → Option ℕ → ℕ
seconds_left s now none = 0
seconds_left s now (some last) = (last + s.create_cooldown_ms - now + 999) / 1000

unfoldable pub create :
    LobbyService → Inputs → AccountId → Text → Text → LobbyService × LobbyResult LobbyState
create s inputs account username raw_name =
    if has account s.membership
    then (s, fail already_in_lobby (says "Leave your current lobby before creating another."))
    else if cooling s inputs.now (get account s.last_created_at)
    then (
      s,
      fail rate_limited (wait_seconds (seconds_left s inputs.now (get account s.last_created_at))),
    )
    else create_named s inputs account username (normalize_lobby_name raw_name)

unfoldable pub first_open_position : MutableLobby → Option LobbyPosition
first_open_position lobby =
    let per_team = team_capacity lobby.settings.max_players in
    let one = position_count position_of lobby.members team1 in
    let two = position_count position_of lobby.members team2 in
    if leb one two && ltb one per_team
    then some team1
    else if ltb two per_team
    then some team2
    else if ltb one per_team
    then some team1
    else if ltb (spectator_count position_of lobby.members) spectator_cap
    then some spectator
    else none

unfoldable pub seat_joiner : MutableLobby → MutableMember → MutableLobby
seat_joiner lobby member = record lobby { members = lobby.members ++ member ∷ [] }

unfoldable pub join_lobby :
    LobbyService
    → ℕ
    → AccountId
    → Text
    → LobbyId
    → MutableLobby
    → LobbyService × LobbyResult LobbyState
join_lobby s now account username id lobby = elim (first_open_position lobby) [
  | none ↦ (s, fail lobby_full (says "That lobby is full, including its spectator slots."))
  | some position ↦
      let joined = seat_joiner lobby (new_member account username position now) in
      (record (store s joined) { membership = set account id s.membership }, ok (snapshot joined))
]

unfoldable pub join :
    LobbyService → ℕ → AccountId → Text → LobbyId → LobbyService × LobbyResult LobbyState
join s now account username id = elim (get account s.membership) [
  | some existing ↦ (
    s,
    fail already_in_lobby (
        if existing == id
        then says "You are already in this lobby."
        else says "Leave your current lobby first."),
  )
  | none ↦ elim (get id s.lobbies) [
    | none ↦ (s, fail not_found (says "That lobby no longer exists."))
    | some lobby ↦ join_lobby s now account username id lobby
  ]
]

unfoldable pub join_by_code :
    LobbyService → ℕ → AccountId → Text → Text → LobbyService × LobbyResult LobbyState
join_by_code s now account username normalized_code = elim (get normalized_code s.by_code) [
  | none ↦ (s, fail not_found (says "No lobby has that code."))
  | some id ↦ join s now account username id
]

abbrev pub is_public : LobbyVisibility → Bool
is_public public = true
is_public unlisted = false

unfoldable pub join_by_id :
    LobbyService → ℕ → AccountId → Text → LobbyId → LobbyService × LobbyResult LobbyState
join_by_id s now account username id = elim (get id s.lobbies) [
  | none ↦ (s, fail not_found (says "That lobby is not open, or does not exist."))
  | some lobby ↦
      if not (is_public lobby.settings.visibility)
      then (s, fail not_found (says "That lobby is not open, or does not exist."))
      else join s now account username id
]
