-- ===== src/Lobby/Service/Valid/Departure.antt =====
-- A member who goes, and the host who follows, keep a lobby well formed.
use seg.Prelude.{
  ℕ, ◌≤◌, Bool, true, false, ◌||◌, List, [], ◌∷◌, ◌≡◌, ◌≢◌, refl, All, All-filter, arith, insert_by,
  sort_by, if◌then◌else◌, ◌==◌, ==_iff, ==_refl, Bool-cases, inl, inr, sym, ◌∙◌, ap, subst,
}
use seg.Lobby.Settings.{LobbyPosition, team1, team2, spectator}
use seg.Lobby.State.{AccountId, position_count}
use seg.Lobby.Service.Registry.{MutableMember, MutableLobby, account_of, position_of, is_account}
use seg.Lobby.Service.Leave.{inherits_first, heir, next_host, without_member}
use seg.Lobby.Service.Valid.{IsHonest, has_account, Distinct, IsSeated, IsValid}
use seg.Lobby.Service.Valid.Update.{spectator_count-position_count}

-- Who is left: everyone but the account that goes.
pub has_account-without_member :
    (a account : AccountId) (ms : List MutableMember)
    → has_account a (without_member account ms) ≡ (if account == a then false else has_account a ms)
unfolding without_member
has_account-without_member a account [] = ground arith
has_account-without_member a account (m ∷ ms) = ground (
  arith,
  ==_iff (account_of m) a,
  ==_iff (account_of m) account,
  ==_iff account a,
  has_account-without_member a account ms,
)

without_member-Distinct :
    (account : AccountId) (ms : List MutableMember)
    → Distinct ms
    → Distinct (without_member account ms)
unfolding without_member
without_member-Distinct account [] d = tt
without_member-Distinct account (m ∷ ms) d = ground (
  arith,
  has_account-without_member (account_of m) account ms,
  without_member-Distinct account ms d.1,
)

position_count-without_member :
    (account : AccountId) (ms : List MutableMember) (p : LobbyPosition)
    → position_count position_of (without_member account ms) p ≤ position_count position_of ms p
unfolding position_count without_member
position_count-without_member account [] p = omega arith
position_count-without_member account (m ∷ ms) p =
    ground (arith, position_count-without_member account ms p)

without_member-IsSeated :
    (account : AccountId) (cap : ℕ) (ms : List MutableMember)
    → IsSeated cap ms
    → IsSeated cap (without_member account ms)
without_member-IsSeated account cap ms h = omega (
  arith,
  position_count-without_member account ms team1,
  position_count-without_member account ms team2,
  position_count-without_member account ms spectator,
  spectator_count-position_count ms,
  spectator_count-position_count (without_member account ms),
  h.first_team,
  h.second_team,
  h.watchers,
)

has_account-insert_by :
    (first : MutableMember → MutableMember → Bool) (a : AccountId) (m : MutableMember)
    (ms : List MutableMember)
    → has_account a (insert_by first m ms) ≡ (is_account a m || has_account a ms)
has_account-insert_by first a m [] = refl
has_account-insert_by first a m (n ∷ ms) = ground (arith, has_account-insert_by first a m ms)

pub has_account-sort_by :
    (first : MutableMember → MutableMember → Bool) (a : AccountId) (ms : List MutableMember)
    → has_account a (sort_by first ms) ≡ has_account a ms
has_account-sort_by first a [] = refl
has_account-sort_by first a (m ∷ ms) =
    ground
      (arith, has_account-insert_by first a m (sort_by first ms), has_account-sort_by first a ms)

insert_by-ne-nil :
    (first : MutableMember → MutableMember → Bool) (m : MutableMember) (ms : List MutableMember)
    → insert_by first m ms ≢ []
insert_by-ne-nil first m [] e = cc
insert_by-ne-nil first m (n ∷ ms) e = ground arith

pub sort_by-ne-nil : (ms : List MutableMember) → ms ≢ [] → sort_by inherits_first ms ≢ []
sort_by-ne-nil [] h e = h refl
sort_by-ne-nil (m ∷ ms) h e = insert_by-ne-nil inherits_first m (sort_by inherits_first ms) e

without_member-All :
    (P : MutableMember → Type 0) (account : AccountId) (ms : List MutableMember)
    → All P ms
    → All P (without_member account ms)
unfolding without_member
without_member-All P account ms h = All-filter P _ ms h

host_stays :
    (lobby : MutableLobby) (account : AccountId)
    → IsValid lobby
    → lobby.host_account_id ≢ account
    → (if account == lobby.host_account_id
        then false
        else has_account lobby.host_account_id lobby.members)
      ≡ true
host_stays lobby account v other =
    ground (arith, ==_iff account lobby.host_account_id, v.hosted, other)

heir-present :
    (host : AccountId) (ms : List MutableMember) → ms ≢ [] → has_account (heir host ms) ms ≡ true
unfolding heir
heir-present host [] h = absurd (h refl)
heir-present host (m ∷ ms) h = ground (arith, ==_refl (account_of m))

next_host-present :
    (host account : AccountId) (ms : List MutableMember)
    → ms ≢ []
    → (host ≢ account → has_account host ms ≡ true)
    → has_account (next_host host account ms) ms ≡ true
unfolding next_host
next_host-present host account ms some_left stays = elim (Bool-cases (host == account)) [
  | inl e ↦ rw e (
      sym (has_account-sort_by inherits_first _ ms)
      ∙ heir-present host (sort_by inherits_first ms) (sort_by-ne-nil ms some_left))
  | inr e ↦ rw e (stays (λ same. ground arith))
]

-- The lobby after a departure, where somebody is left.
pub departure-IsValid :
    (lobby : MutableLobby) (account : AccountId) (m : MutableMember) (ms : List MutableMember)
    → IsValid lobby
    → without_member account lobby.members ≡ m ∷ ms
    → IsValid (record lobby {
      members = m ∷ ms;
      host_account_id = next_host lobby.host_account_id account (m ∷ ms);
    })
departure-IsValid lobby account m ms v left = record {
  name = v.name;
  cap = v.cap;
  budget = v.budget;
  seated =
      subst (IsSeated lobby.settings.max_players) left
        (without_member-IsSeated account _ lobby.members v.seated);
  distinct = subst Distinct left (without_member-Distinct account lobby.members v.distinct);
  hosted =
      next_host-present lobby.host_account_id account (m ∷ ms) (λ e. cc)
        λ other.
          let seen = has_account-without_member lobby.host_account_id account lobby.members in
          ap (has_account lobby.host_account_id) (sym left)
          ∙ (seen ∙ host_stays lobby account v other);
  honest =
      subst (All (IsHonest lobby.settings.fleet_points)) left
        (without_member-All _ account lobby.members v.honest);
}
