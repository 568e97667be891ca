-- ===== src/Lobby/Service/Valid/Update.antt =====
-- A change to one member keeps a lobby well formed.
use seg.Prelude.{
  ℕ, ◌+◌, ◌≤◌, Bool, true, false, ◌&&◌, not, Option, none, some, List, [], ◌∷◌, ◌≡◌, refl, inl, inr,
  filter, All, arith, ==_iff, Bool-cases, if◌then◌else◌,
}
use seg.Lobby.Settings.{LobbyPosition, team1, team2, spectator, same_position, team_capacity}
use seg.Lobby.State.{AccountId, spectator_count, position_count, SelectedFleet}
use seg.Lobby.Service.Registry.{
  MutableMember, MutableLobby, account_of, position_of, is_account, is_some, update_member,
  find_member,
}
use seg.Lobby.Service.Seat.{exceeds, move_to, bring, mark_ready, capacity_for}
use seg.Lobby.Service.Valid.{IsHonest, has_account, Distinct, IsSeated, IsValid}

module _ (account : AccountId) (f : MutableMember → MutableMember)
    (same : (m : MutableMember) → account_of (f m) ≡ account_of m) where
  pub has_account-update_member :
      (a : AccountId) (ms : List MutableMember)
      → has_account a (update_member account f ms) ≡ has_account a ms
  unfolding update_member
  has_account-update_member a [] = refl
  has_account-update_member a (m ∷ ms) = ground (arith, same m, has_account-update_member a ms)

  pub update_member-Distinct :
      (ms : List MutableMember) → Distinct ms → Distinct (update_member account f ms)
  unfolding update_member
  update_member-Distinct [] d = tt
  update_member-Distinct (m ∷ ms) d =
      ground
        (arith, same m, has_account-update_member (account_of m) ms, update_member-Distinct ms d.1)

-- What a change does to the member that it finds is all that matters.
pub update_member-All :
    {P : MutableMember → Type 0} (account : AccountId) (f : MutableMember → MutableMember)
    (ms : List MutableMember)
    → ((m : MutableMember) → find_member account ms ≡ some m → P m → P (f m))
    → All P ms
    → All P (update_member account f ms)
unfolding update_member find_member
update_member-All account f [] step h = tt
update_member-All {P} account f (m ∷ ms) step h = elim (Bool-cases (is_account account m)) [
  | inl e ↦ rw e (step m (rw e refl) h.0, h.1)
  | inr e ↦ rw e (h.0, update_member-All account f ms (λ x q. step x (rw e q)) h.1)
]

pub spectator_count-position_count :
    (ms : List MutableMember)
    → spectator_count position_of ms ≡ position_count position_of ms spectator
unfolding spectator_count position_count
spectator_count-position_count ms = refl

module _ (account : AccountId) (f : MutableMember → MutableMember)
    (still : (m : MutableMember) → position_of (f m) ≡ position_of m) where
  position_count-update_member :
      (ms : List MutableMember) (p : LobbyPosition)
      → position_count position_of (update_member account f ms) p ≡ position_count position_of ms p
  unfolding position_count update_member
  position_count-update_member [] p = refl
  position_count-update_member (m ∷ ms) p =
      ground (arith, still m, position_count-update_member ms p)

  update_member-IsSeated :
      (cap : ℕ) (ms : List MutableMember)
      → IsSeated cap ms
      → IsSeated cap (update_member account f ms)
  update_member-IsSeated cap ms h = record {
    first_team = rw (position_count-update_member ms team1) h.first_team;
    second_team = rw (position_count-update_member ms team2) h.second_team;
    watchers = omega (
      arith,
      h.watchers,
      position_count-update_member ms spectator,
      spectator_count-position_count ms,
      spectator_count-position_count (update_member account f ms),
    );
  }

abbrev others : AccountId → List MutableMember → List MutableMember
others account ms = filter (λ m. not (is_account account m)) ms

others-absent :
    (account : AccountId) (ms : List MutableMember) (p : LobbyPosition)
    → has_account account ms ≡ false
    → position_count position_of (others account ms) p ≡ position_count position_of ms p
unfolding position_count
others-absent account [] p h = refl
others-absent account (m ∷ ms) p h = ground (arith, others-absent account ms p)

module _ (account : AccountId) (to : LobbyPosition) where
  move_to-position : (m : MutableMember) → position_of (move_to to m) ≡ to
  unfolding move_to
  move_to-position m = ground arith

  pub move_to-account : (m : MutableMember) → account_of (move_to to m) ≡ account_of m
  unfolding move_to
  move_to-account m = ground arith

  -- The seat that the mover takes.
  position_count-arrive :
      (ms : List MutableMember)
      → Distinct ms
      → position_count position_of (update_member account (move_to to) ms) to
        ≤ position_count position_of (others account ms) to + 1
  unfolding position_count update_member
  position_count-arrive [] d = omega arith
  position_count-arrive (m ∷ ms) d = ground (
    arith,
    move_to-position m,
    ==_iff (account_of m) account,
    others-absent account ms to,
    position_count-arrive ms d.1,
  )

  -- The other seats lose the mover at most.
  position_count-depart :
      (ms : List MutableMember) (p : LobbyPosition)
      → same_position to p ≡ false
      → position_count position_of (update_member account (move_to to) ms) p
        ≤ position_count position_of ms p
  unfolding position_count update_member
  position_count-depart [] p h = omega arith
  position_count-depart (m ∷ ms) p h =
      ground (arith, move_to-position m, position_count-depart ms p h)

  capacity_for-free :
      (lobby : MutableLobby) (p : LobbyPosition)
      → capacity_for lobby to account ≡ none
      → IsSeated lobby.settings.max_players lobby.members
      → Distinct lobby.members
      → same_position to p ≡ true
      → position_count position_of (update_member account (move_to to) lobby.members) p
        ≤ (if same_position p spectator then 16 else team_capacity lobby.settings.max_players)
  unfolding capacity_for
  capacity_for-free lobby team1 free h d e = ground (arith, position_count-arrive lobby.members d)
  capacity_for-free lobby team2 free h d e = ground (arith, position_count-arrive lobby.members d)
  capacity_for-free lobby spectator free h d e = ground (
    arith,
    position_count-arrive lobby.members d,
    spectator_count-position_count (others account lobby.members),
  )

  seat_after-move :
      (lobby : MutableLobby) (p : LobbyPosition)
      → capacity_for lobby to account ≡ none
      → IsSeated lobby.settings.max_players lobby.members
      → Distinct lobby.members
      → position_count position_of lobby.members p
        ≤ (if same_position p spectator then 16 else team_capacity lobby.settings.max_players)
      → position_count position_of (update_member account (move_to to) lobby.members) p
        ≤ (if same_position p spectator then 16 else team_capacity lobby.settings.max_players)
  seat_after-move lobby p free h d before = elim (Bool-cases (same_position to p)) [
    | inl e ↦ capacity_for-free lobby p free h d e
    | inr e ↦ omega (arith, position_count-depart lobby.members p e, before)
  ]

  move-IsSeated :
      (lobby : MutableLobby)
      → capacity_for lobby to account ≡ none
      → IsValid lobby
      → IsSeated lobby.settings.max_players (update_member account (move_to to) lobby.members)
  move-IsSeated lobby free v =
      let h = v.seated in
      let watch : position_count position_of lobby.members spectator ≤ 16 =
        omega (arith, h.watchers, spectator_count-position_count lobby.members) in
      record {
        first_team = seat_after-move lobby team1 free h v.distinct h.first_team;
        second_team = seat_after-move lobby team2 free h v.distinct h.second_team;
        watchers = omega (
          arith,
          seat_after-move lobby spectator free h v.distinct watch,
          spectator_count-position_count (update_member account (move_to to) lobby.members),
        );
      }

-- A change that keeps accounts, seats within the capacities and honest members honest keeps the
-- lobby well formed.
update-IsValid :
    (lobby : MutableLobby) (account : AccountId) (f : MutableMember → MutableMember)
    → IsValid lobby
    → ((m : MutableMember) → account_of (f m) ≡ account_of m)
    → IsSeated lobby.settings.max_players (update_member account f lobby.members)
    → ((m : MutableMember)
        → find_member account lobby.members ≡ some m
        → IsHonest lobby.settings.fleet_points m
        → IsHonest lobby.settings.fleet_points (f m))
    → IsValid (record lobby { members = update_member account f lobby.members })
update-IsValid lobby account f v same seats honest = record {
  name = v.name;
  cap = v.cap;
  budget = v.budget;
  seated = seats;
  distinct = update_member-Distinct account f same lobby.members v.distinct;
  hosted =
      rw (has_account-update_member account f same lobby.host_account_id lobby.members) v.hosted;
  honest = update_member-All account f lobby.members honest v.honest;
}

pub move-IsValid :
    (lobby : MutableLobby) (account : AccountId) (to : LobbyPosition)
    → IsValid lobby
    → capacity_for lobby to account ≡ none
    → IsValid (record lobby { members = update_member account (move_to to) lobby.members })
unfolding move_to
move-IsValid lobby account to v free =
    update-IsValid lobby account (move_to to) v (move_to-account account to)
      (move-IsSeated account to lobby free v)
      λ m _ h. record {
        playing = ground (arith, h.playing);
        armed = ground (arith, h.armed);
        affordable = ground (arith, h.affordable);
      }

pub bring-IsValid :
    (lobby : MutableLobby) (account : AccountId) (fleet : Option SelectedFleet)
    → IsValid lobby
    → exceeds fleet lobby.settings.fleet_points ≡ false
    → IsValid (record lobby { members = update_member account (bring fleet) lobby.members })
unfolding bring
bring-IsValid lobby account fleet v cheap =
    update-IsValid lobby account (bring fleet) v (λ m. refl)
      (update_member-IsSeated account (bring fleet) (λ m. refl) _ lobby.members v.seated)
      λ m _ h. record { playing = refl; armed = refl; affordable = cheap }

pub mark_ready-IsValid :
    (lobby : MutableLobby) (account : AccountId) (ready : Bool) (m : MutableMember)
    → IsValid lobby
    → find_member account lobby.members ≡ some m
    → (ready && same_position m.position spectator) ≡ false
    → (ready && not (is_some m.fleet)) ≡ false
    → IsValid (record lobby { members = update_member account (mark_ready ready) lobby.members })
unfolding mark_ready
mark_ready-IsValid lobby account ready m v found plays armed =
    update-IsValid lobby account (mark_ready ready) v (λ m. refl)
      (update_member-IsSeated account (mark_ready ready) (λ m. refl) _ lobby.members v.seated)
      λ x e h. record {
        playing = ground (arith, e, found);
        armed = ground (arith, e, found);
        affordable = h.affordable;
      }
