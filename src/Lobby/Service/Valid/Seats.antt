-- ===== src/Lobby/Service/Valid/Seats.antt =====
-- Members who come and go keep a lobby well formed.
use seg.Prelude.{
  ℕ, ◌+◌, false, ◌||◌, none, some, List, [], ◌∷◌, ◌++◌, ◌≡◌, refl, All-append, arith, if◌then◌else◌,
  ==_iff,
}
use seg.Text.{Text}
use seg.Lobby.Settings.{
  LobbyPosition, team1, team2, spectator, same_position, team_capacity, validate_lobby_name,
}
use seg.Lobby.Settings.Checks.{validate_lobby_name_iff}
use seg.Lobby.State.{AccountId, spectator_count, position_count}
use seg.Lobby.Service.Registry.{MutableMember, MutableLobby, account_of, position_of}
use seg.Lobby.Service.Create.{Inputs, new_member, new_lobby, first_open_position, seat_joiner}
use seg.Lobby.Service.Valid.{IsHonest, has_account, Distinct, IsSeated, IsValid}
use seg.Lobby.Service.Valid.Update.{spectator_count-position_count}

new_member-IsHonest :
    (budget : ℕ) (account : AccountId) (username : Text) (p : LobbyPosition) (now : ℕ)
    → IsHonest budget (new_member account username p now)
unfolding new_member
new_member-IsHonest budget account username p now = record {
  playing = refl;
  armed = refl;
  affordable = refl;
}

pub new_lobby-IsValid :
    (account : AccountId) (username name code : Text) (inputs : Inputs)
    → validate_lobby_name name ≡ none
    → IsValid (new_lobby account username name code inputs)
unfolding new_lobby new_member position_count spectator_count team_capacity
new_lobby-IsValid account username name code inputs h = record {
  name = (validate_lobby_name_iff name).0 h;
  cap = omega arith;
  budget = omega arith;
  seated = omega arith;
  distinct = (refl, tt);
  hosted = ground arith;
  honest = (record { playing = refl; armed = refl; affordable = refl }, tt);
}

pub has_account-append :
    (a : AccountId) (ms ns : List MutableMember)
    → has_account a (ms ++ ns) ≡ (has_account a ms || has_account a ns)
has_account-append a [] ns = refl
has_account-append a (m ∷ ms) ns = ground (arith, has_account-append a ms ns)

append-Distinct :
    (ms : List MutableMember) (m : MutableMember)
    → Distinct ms
    → has_account (account_of m) ms ≡ false
    → Distinct (ms ++ m ∷ [])
append-Distinct [] m d h = (refl, tt)
append-Distinct (n ∷ ms) m d h = ground (
  arith,
  ==_iff (account_of n) (account_of m),
  ==_iff (account_of m) (account_of n),
  has_account-append (account_of n) ms (m ∷ []),
  append-Distinct ms m d.1,
)

position_count-append :
    (ms : List MutableMember) (m : MutableMember) (p : LobbyPosition)
    → position_count position_of (ms ++ m ∷ []) p
      ≡ position_count position_of ms p + (if same_position m.position p then 1 else 0)
unfolding position_count
position_count-append [] m p = ground arith
position_count-append (n ∷ ms) m p = ground (arith, position_count-append ms m p)

joiner-IsSeated :
    (lobby : MutableLobby) (m : MutableMember)
    → first_open_position lobby ≡ some m.position
    → IsSeated lobby.settings.max_players lobby.members
    → IsSeated lobby.settings.max_players (lobby.members ++ m ∷ [])
unfolding first_open_position
joiner-IsSeated lobby m h s = ground (
  arith,
  position_count-append lobby.members m team1,
  position_count-append lobby.members m team2,
  position_count-append lobby.members m spectator,
  spectator_count-position_count lobby.members,
  spectator_count-position_count (lobby.members ++ m ∷ []),
)

pub seat_joiner-IsValid :
    (lobby : MutableLobby) (account : AccountId) (username : Text) (p : LobbyPosition) (now : ℕ)
    → IsValid lobby
    → first_open_position lobby ≡ some p
    → has_account account lobby.members ≡ false
    → IsValid (seat_joiner lobby (new_member account username p now))
unfolding seat_joiner new_member
seat_joiner-IsValid lobby account username p now v free absent =
    let m = new_member account username p now in
    record {
      name = v.name;
      cap = v.cap;
      budget = v.budget;
      seated = joiner-IsSeated lobby m free v.seated;
      distinct = append-Distinct lobby.members m v.distinct absent;
      hosted =
          ground (arith, has_account-append lobby.host_account_id lobby.members (m ∷ []), v.hosted);
      honest =
          All-append _ lobby.members (m ∷ []) v.honest
            (new_member-IsHonest lobby.settings.fleet_points account username p now, tt);
    }
