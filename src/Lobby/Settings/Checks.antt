-- ===== src/Lobby/Settings/Checks.antt =====
-- What the checks on settings accept.
use seg.Prelude.{
  ℕ, ◌+◌, ◌%◌, ◌≤◌, true, none, [], ◌∷◌, length, ◌≡◌, ◌↔◌, All, all-All, All-all, arith,
}
use seg.Text.{Text, matches_class}
use seg.Text.Laws.{is_tidy, collapse-trim-is_tidy, is_tidy-stable}
use seg.Lobby.Settings.{
  whole, in_name_class, normalize_lobby_name, validate_lobby_name, validate_max_players,
  validate_fleet_points, team_capacity,
}

-- A name of 3 to 32 code units out of the class.
pub record IsLobbyName (name : Text) : Type 0 where
  pub long_enough : 3 ≤ length name
  pub short_enough : length name ≤ 32
  pub plain : All (λ c. in_name_class c ≡ true) name

validate_lobby_name_sound : (name : Text) → validate_lobby_name name ≡ none → IsLobbyName name
unfolding validate_lobby_name matches_class
validate_lobby_name_sound [] h = ground arith
validate_lobby_name_sound (c ∷ s) h = record {
  long_enough = ground arith;
  short_enough = ground arith;
  plain = ground (arith, all-All in_name_class s);
}

validate_lobby_name_complete : (name : Text) → IsLobbyName name → validate_lobby_name name ≡ none
unfolding validate_lobby_name matches_class
validate_lobby_name_complete [] h = absurd (omega (arith, h.long_enough))
validate_lobby_name_complete (c ∷ s) h =
    ground (arith, h.long_enough, h.short_enough, All-all in_name_class s h.plain.1)

-- Once normalised, a name holds no white space but single blanks inside, a second normalisation
-- leaves it, and it passes the check exactly when it has 3 to 32 code units, all of the class.
pub validate-normalize_lobby_name :
    (raw : Text)
    → (is_tidy (normalize_lobby_name raw) ≡ true)
      × (normalize_lobby_name (normalize_lobby_name raw) ≡ normalize_lobby_name raw)
      × ((validate_lobby_name (normalize_lobby_name raw) ≡ none)
          ↔ IsLobbyName (normalize_lobby_name raw))
unfolding normalize_lobby_name
validate-normalize_lobby_name raw =
    let tidy = collapse-trim-is_tidy raw in
    (tidy, is_tidy-stable _ tidy, (validate_lobby_name_sound _, validate_lobby_name_complete _))

pub validate_lobby_name_iff : (name : Text) → (validate_lobby_name name ≡ none) ↔ IsLobbyName name
validate_lobby_name_iff name = (validate_lobby_name_sound name, validate_lobby_name_complete name)

-- The caps that the check accepts: even, and from 2 to 16.
pub record IsMaxPlayers (n : ℕ) : Type 0 where
  pub at_least : 2 ≤ n
  pub at_most : n ≤ 16
  pub even : n % 2 ≡ 0

pub validate_max_players-IsMaxPlayers :
    (n : ℕ) → validate_max_players (whole n) ≡ none → IsMaxPlayers n
unfolding validate_max_players
validate_max_players-IsMaxPlayers n h = ground arith

abbrev pub IsFleetPoints : ℕ → Type 0
IsFleetPoints n = (200 ≤ n) × (n ≤ 1500)

pub validate_fleet_points-IsFleetPoints :
    (n : ℕ) → validate_fleet_points (whole n) ≡ none → IsFleetPoints n
unfolding validate_fleet_points
validate_fleet_points-IsFleetPoints n h = ground arith

-- A cap that was accepted splits into two teams with nothing left over.
pub team_capacity-exact : (n : ℕ) → IsMaxPlayers n → team_capacity n + team_capacity n ≡ n
unfolding team_capacity
team_capacity-exact n h = omega (arith, h.even)
