-- ===== src/Lobby/Service/Promises/Joining.antt =====
-- Where a joiner lands.
use seg.Prelude.{
  ℕ, ◌≤◌, ◌<◌, true, Option, none, some, ◌≡◌, refl, ◌∙◌, arith, get, set, get-set, number_key,
  text_key, ==_refl,
}
use seg.Text.{Text}
use seg.Lobby.Settings.{LobbyPosition, team1, team2, spectator}
use seg.Lobby.Settings.Checks.{team_capacity-exact}
use seg.Lobby.State.{AccountId, LobbyId, LobbyState, position_count, spectator_count, player_count}
use seg.Lobby.State.Seating.{player_count-teams}
use seg.Lobby.Service.Registry.{
  LobbyService, MutableLobby, MutableMember, Message, lobby_full, LobbyResult, ok, fail, snapshot,
  store, lobby_for, position_of,
}
use seg.Lobby.Service.Create.{
  first_open_position, new_member, seat_joiner, join_lobby, join, join_by_code, join_by_id,
  is_public,
}
use seg.Lobby.Service.Valid.{IsValid}
use seg.Lobby.Service.Invariant.Reach.{Reach, Reach-Inv}

-- The seat that a joiner gets: on a team while the lobby has a player slot, on the smaller team
-- (the first, if they are equal), then in the stands, and none only when all is full.
abbrev pub Lands : MutableLobby → Option LobbyPosition → Type 0
Lands lobby (some team1) =
    (player_count position_of lobby.members < lobby.settings.max_players)
    × (position_count position_of lobby.members team1
        ≤ position_count position_of lobby.members team2)
Lands lobby (some team2) =
    (player_count position_of lobby.members < lobby.settings.max_players)
    × (position_count position_of lobby.members team2
        < position_count position_of lobby.members team1)
Lands lobby (some spectator) =
    (player_count position_of lobby.members ≡ lobby.settings.max_players)
    × (spectator_count position_of lobby.members < 16)
Lands lobby none =
    (player_count position_of lobby.members ≡ lobby.settings.max_players)
    × (spectator_count position_of lobby.members ≡ 16)

first_open_position-cases :
    (lobby : MutableLobby) (p : Option LobbyPosition)
    → IsValid lobby
    → first_open_position lobby ≡ p
    → Lands lobby p
unfolding first_open_position
first_open_position-cases lobby none v e =
    let exact = team_capacity-exact lobby.settings.max_players v.cap in
    let teams = player_count-teams position_of lobby.members in
    (ground (arith, v.seated), ground (arith, v.seated))
first_open_position-cases lobby (some team1) v e =
    let exact = team_capacity-exact lobby.settings.max_players v.cap in
    let teams = player_count-teams position_of lobby.members in
    (ground (arith, v.seated), ground (arith, v.seated))
first_open_position-cases lobby (some team2) v e =
    let exact = team_capacity-exact lobby.settings.max_players v.cap in
    let teams = player_count-teams position_of lobby.members in
    (ground (arith, v.seated), ground (arith, v.seated))
first_open_position-cases lobby (some spectator) v e =
    let exact = team_capacity-exact lobby.settings.max_players v.cap in
    let teams = player_count-teams position_of lobby.members in
    (ground (arith, v.seated), ground (arith, v.seated))

-- What a call that finds the lobby answers, for the seat there is.
abbrev pub Welcomed :
    LobbyService × LobbyResult LobbyState
    → AccountId
    → MutableLobby
    → Text
    → ℕ
    → Option LobbyPosition
    → Type 0
Welcomed r account lobby username now none = (m : Message) × (r.1 ≡ fail lobby_full m)
Welcomed r account lobby username now (some p) =
    (r.1 ≡ ok (snapshot (seat_joiner lobby (new_member account username p now))))
    × (lobby_for r.0 account
        ≡ some (snapshot (seat_joiner lobby (new_member account username p now))))

seat_joiner-id : (lobby : MutableLobby) (m : MutableMember) → (seat_joiner lobby m).id ≡ lobby.id
unfolding seat_joiner
seat_joiner-id lobby m = refl

joined-lobby_for :
    (s : LobbyService) (account : AccountId) (id : LobbyId) (lobby : MutableLobby)
    → lobby.id ≡ id
    → lobby_for (record (store s lobby) { membership = set account id s.membership }) account
      ≡ some (snapshot lobby)
unfolding lobby_for store
joined-lobby_for s account id lobby own =
    let seat = get-set account account id s.membership in
    let place = get-set lobby.id id lobby s.lobbies in
    ground (arith, seat, place, own, ==_refl account, ==_refl id)

join_lobby-Welcomed :
    (s : LobbyService) (now : ℕ) (account : AccountId) (username : Text) (id : LobbyId)
    (lobby : MutableLobby) (p : Option LobbyPosition)
    → lobby.id ≡ id
    → first_open_position lobby ≡ p
    → Welcomed (join_lobby s now account username id lobby) account lobby username now p
unfolding join_lobby
join_lobby-Welcomed s now account username id lobby none own e = rw (e, join_lobby) (_, refl)
join_lobby-Welcomed s now account username id lobby (some p) own e =
    rw (e, join_lobby)
      (
        refl,
        joined-lobby_for s account id (seat_joiner lobby (new_member account username p now))
            (seat_joiner-id lobby (new_member account username p now) ∙ own),
      )

join-found :
    (s : LobbyService) (now : ℕ) (account : AccountId) (username : Text) (id : LobbyId)
    (lobby : MutableLobby)
    → get account s.membership ≡ none
    → get id s.lobbies ≡ some lobby
    → join s now account username id ≡ join_lobby s now account username id lobby
unfolding join
join-found s now account username id lobby outside held = rw (outside, join) (rw (held, join) refl)

pub record JoinsByCode (s : LobbyService) (now : ℕ) (account : AccountId) (username code : Text)
    (id : LobbyId) : Type 0 where
  pub lobby : MutableLobby
  pub held : get id s.lobbies ≡ some lobby
  pub same_code : lobby.code ≡ code
  pub seat : Lands lobby (first_open_position lobby)
  pub welcomed :
      Welcomed
        (join_by_code s now account username code)
        account
        lobby
        username
        now
        (first_open_position lobby)
  pub by_id :
      is_public lobby.settings.visibility ≡ true
      → join_by_id s now account username id ≡ join_by_code s now account username code

-- Someone in no lobby who gives the code of a lobby lands in that lobby: on the smaller team while
-- a player slot is free (the first team, if the two are equal), then in the stands, and is refused
-- only when both teams and the stands are full. The answer is the lobby with the joiner at the end
-- of its members, and so is what the registry then holds for the joiner. By the id of a public
-- lobby the answer is the same as by its code.
pub join_by_code-JoinsByCode :
    {s : LobbyService} (now : ℕ) (account : AccountId) (username code : Text) (id : LobbyId)
    → Reach s
    → get code s.by_code ≡ some id
    → get account s.membership ≡ none
    → JoinsByCode s now account username code id
unfolding join_by_code join_by_id
join_by_code-JoinsByCode {s} now account username code id r known outside =
    let v = Reach-Inv r in
    let (lobby, held, same) = v.coded code id known in
    let home = v.home id lobby held in
    let found = join-found s now account username id lobby outside held in
    record {
      lobby = lobby;
      held = held;
      same_code = same;
      seat = first_open_position-cases lobby (first_open_position lobby) home.valid refl;
      welcomed =
          rw (known, join_by_code)
            (rw found (
              join_lobby-Welcomed s now account username id lobby (first_open_position lobby)
                home.own_id refl));
      by_id = λ visible. ground (arith, held, known, visible);
    }
