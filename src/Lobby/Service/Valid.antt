-- ===== src/Lobby/Service/Valid.antt =====
-- When one lobby object is well formed.
pub mod Update
pub mod Seats
pub mod Settings
pub mod Budget
pub mod Departure
use seg.Prelude.{ℕ, ◌≤◌, Bool, true, false, ◌&&◌, not, List, [], ◌∷◌, ◌≡◌, any, All}
use seg.Lobby.Settings.{team1, team2, spectator, same_position, team_capacity}
use seg.Lobby.Settings.Checks.{IsLobbyName, IsMaxPlayers, IsFleetPoints}
use seg.Lobby.State.{AccountId, spectator_count, position_count}
use seg.Lobby.Service.Registry.{
  MutableMember, MutableLobby, account_of, position_of, is_account, is_some,
}
use seg.Lobby.Service.Seat.{exceeds}

-- Whoever is ready sits on a team and brought a fleet, and no fleet costs more than the budget.
pub record IsHonest (budget : ℕ) (m : MutableMember) : Type 0 where
  pub playing : (m.ready && same_position m.position spectator) ≡ false
  pub armed : (m.ready && not (is_some m.fleet)) ≡ false
  pub affordable : exceeds m.fleet budget ≡ false

abbrev pub has_account : AccountId → List MutableMember → Bool
has_account account members = any (is_account account) members

-- No account sits twice.
abbrev pub Distinct : List MutableMember → Type 0
Distinct [] = Unit
Distinct (m ∷ ms) = (has_account (account_of m) ms ≡ false) × Distinct ms

-- Nobody sits beyond the capacities.
pub record IsSeated (cap : ℕ) (members : List MutableMember) : Type 0 where
  pub first_team : position_count position_of members team1 ≤ team_capacity cap
  pub second_team : position_count position_of members team2 ≤ team_capacity cap
  pub watchers : spectator_count position_of members ≤ 16

pub record IsValid (lobby : MutableLobby) : Type 0 where
  pub name : IsLobbyName lobby.settings.name
  pub cap : IsMaxPlayers lobby.settings.max_players
  pub budget : IsFleetPoints lobby.settings.fleet_points
  pub seated : IsSeated lobby.settings.max_players lobby.members
  pub distinct : Distinct lobby.members
  pub hosted : has_account lobby.host_account_id lobby.members ≡ true
  pub honest : All (IsHonest lobby.settings.fleet_points) lobby.members
