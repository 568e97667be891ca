-- ===== src/Lobby/Service/Promises/Starting.antt =====
-- When a match may begin.
use seg.Prelude.{
  ℕ, ◌≤◌, true, some, List, [], ◌∷◌, ◌≡◌, All, all, filter, arith, Option-cases, inl, inr,
}
use seg.Lobby.State.{AccountId, LobbyState, SelectedFleet, is_playing, player_count, everyone_ready}
use seg.Lobby.Service.Registry.{
  LobbyService, MutableLobby, MutableMember, position_of, snapshot, require_lobby, ok,
}
use seg.Lobby.Service.Seat.{start_in, start}
use seg.Lobby.Service.Valid.{IsHonest}
use seg.Lobby.Service.Invariant.Commands.{require_lobby-held}
use seg.Lobby.Service.Invariant.Reach.{Reach, Reach-Inv}

-- Someone on a team who said ready and holds a fleet that fits the budget.
abbrev pub IsReadyToFight : ℕ → MutableMember → Type 0
IsReadyToFight budget m =
    (m.ready ≡ true) × ((fleet : SelectedFleet) × (m.fleet ≡ some fleet) × (fleet.points ≤ budget))

ready_to_fight :
    (budget : ℕ) (m : MutableMember) → IsHonest budget m → m.ready ≡ true → IsReadyToFight budget m
ready_to_fight budget m h r = elim (Option-cases m.fleet) [
  | inl e ↦ absurd (ground (arith, h.armed))
  | inr (fleet, e) ↦ (r, (fleet, e, ground (arith, h.affordable)))
]

all_ready_to_fight :
    (budget : ℕ) (ms : List MutableMember)
    → All (IsHonest budget) ms
    → all (λ m. m.ready) (filter (is_playing position_of) ms) ≡ true
    → All (λ m. is_playing position_of m ≡ true → IsReadyToFight budget m) ms
all_ready_to_fight budget [] h r = tt
all_ready_to_fight budget (m ∷ ms) h r = (
  λ plays. ready_to_fight budget m h.0 (ground arith),
  all_ready_to_fight budget ms h.1 (ground arith),
)

pub record MayStart (s : LobbyService) (account : AccountId) (state : LobbyState) : Type 0 where
  pub lobby : MutableLobby
  pub mine : require_lobby s account ≡ some lobby
  pub answer : state ≡ snapshot lobby
  pub host : lobby.host_account_id ≡ account
  pub players : 1 ≤ player_count position_of lobby.members
  pub armed :
      All
        (λ m. is_playing position_of m ≡ true → IsReadyToFight lobby.settings.fleet_points m)
        lobby.members

start_in-players :
    (lobby : MutableLobby) (account : AccountId) (state : LobbyState)
    → start_in lobby account ≡ ok state
    → (lobby.host_account_id ≡ account)
      × (state ≡ snapshot lobby)
      × (1 ≤ player_count position_of lobby.members)
      × (everyone_ready position_of (λ m. m.ready) lobby.members ≡ true)
unfolding start_in
start_in-players lobby account state h = (ground arith, ground arith, ground arith, ground arith)

everyone_ready-all :
    (ms : List MutableMember)
    → everyone_ready position_of (λ m. m.ready) ms ≡ true
    → all (λ m. m.ready) (filter (is_playing position_of) ms) ≡ true
unfolding everyone_ready
everyone_ready-all ms h = ground arith

-- Whatever happened before, `start` lets only the host through, with somebody on a team, and only
-- if everyone on a team is ready with a fleet that costs no more than the lobby's budget.
pub start-MayStart :
    {s : LobbyService} (account : AccountId) {state : LobbyState}
    → Reach s
    → start s account ≡ ok state
    → MayStart s account state
unfolding start
start-MayStart {s} account {state} r h = elim (Option-cases (require_lobby s account)) [
  | inl e ↦ absurd (ground arith)
  | inr (lobby, e) ↦
      let (id, seat, held) = require_lobby-held s account e in
      let (host, answer, players, ready) =
        start_in-players lobby account state (ground (arith, e)) in
      record {
        lobby = lobby;
        mine = e;
        answer = answer;
        host = host;
        players = players;
        armed =
            all_ready_to_fight lobby.settings.fleet_points lobby.members
              ((Reach-Inv r).home id lobby held).valid.honest
              (everyone_ready-all lobby.members ready);
      }
]
