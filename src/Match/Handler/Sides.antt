-- ===== src/Match/Handler/Sides.antt =====
-- The sides of the players of a match, which what the store does to a match leaves as they are.
use seg.Prelude.{
  ℕ, Bool, false, Option, none, some, List, [], ◌∷◌, map, find, ◌==◌, All, get, number_key, ◌≡◌,
  refl, arith, Option-cases, inl, inr, ap, subst, sym, ◌∙◌, ==_refl,
}
use seg.Lobby.State.{AccountId}
use seg.Realtime.Connections.{PlayerConnection, ConnectionRegistry}
use seg.Match.Store.{
  MatchRuntime, MatchRecord, MatchStore, MatchPlayer, MatchState, is_player, team_of, team_for,
  find_by_account, find_match, state_in, connect, connecting, forgetting, frame_of, view_for,
  set_connected, reset_vision,
}
use seg.Match.Store.Fields.{reads, reads-write, reads-modify_seated}

abbrev pub Keyed : ConnectionRegistry → Type 0
Keyed connections =
    (account : AccountId) (connection : PlayerConnection)
    → get account connections ≡ some connection
    → connection.account_id ≡ account

-- No two players have the same account.
abbrev pub Distinct : List MatchPlayer → Type 0
Distinct [] = Unit
Distinct (player ∷ players) =
    All (λ p. (player.account_id == p.account_id) ≡ false) players × Distinct players

pub team_of-connect :
    (account a : AccountId) (connected : Bool) (players : List MatchPlayer)
    → team_of (find (is_player a) (map (connect account connected) players))
      ≡ team_of (find (is_player a) players)
team_of-connect account a connected [] = refl
team_of-connect account a connected (player ∷ players) =
    ground (arith, team_of-connect account a connected players)

pub skips :
    (player : MatchPlayer) (players listed : List MatchPlayer)
    → All (λ p. (player.account_id == p.account_id) ≡ false) listed
    → All (λ p. team_of (find (is_player p.account_id) players) ≡ p.team) listed
    → All (λ p. team_of (find (is_player p.account_id) (player ∷ players)) ≡ p.team) listed
skips player players [] apart own = tt
skips player players (p ∷ listed) apart own =
    (rw apart.0 own.0, skips player players listed apart.1 own.1)

pub own_team :
    (players : List MatchPlayer)
    → Distinct players
    → All (λ p. team_of (find (is_player p.account_id) players) ≡ p.team) players
own_team [] h = tt
own_team (player ∷ players) (apart, h) =
    (rw (==_refl player.account_id) refl, skips player players players apart (own_team players h))

module _ (rt : MatchRuntime) where
  abbrev pub side_in : AccountId → Option (MatchRecord rt) → Option ℕ
  side_in account none = none
  side_in account (some r) = team_for rt (rt.state r.runtime) account

  module _ (id : ℕ) (account : AccountId) where
    abbrev pub side_at : MatchStore rt → Option ℕ
    side_at = reads rt (side_in account) id

    pub side_at-set_connected :
        (a : AccountId) (connected : Bool) (s : MatchStore rt)
        → side_at (set_connected rt a connected s) ≡ side_at s
    unfolding set_connected team_for
    side_at-set_connected a connected s =
        reads-modify_seated rt (side_in account) id a (connecting rt a connected) s (λ r.
          rw
            (rt.state-replace
              (record (rt.state r.runtime) {
                players = map (connect a connected) (rt.state r.runtime).players;
              })
              r.runtime)
            (team_of-connect a account connected (rt.state r.runtime).players))

    pub side_at-reset_vision :
        (a : AccountId) (s : MatchStore rt) → side_at (reset_vision rt a s) ≡ side_at s
    unfolding reset_vision
    side_at-reset_vision a s =
        reads-modify_seated rt (side_in account) id a (forgetting rt a) s
          (λ r. ap (λ state. team_for rt state account) (rt.state-forget a r.runtime))

    pub side_at-view_for :
        (j : ℕ) (a : AccountId) (s : MatchStore rt) → side_at (view_for rt j a s).0 ≡ side_at s
    unfolding view_for frame_of
    side_at-view_for j a s = elim (Option-cases (get j s.matches)) [
      | inl e ↦ rw (e, view_for) refl
      | inr (r, e) ↦
          rw (e, view_for)
            (reads-write rt (side_in account) id j r (frame_of rt a r).0 s e (
              ap (λ state. team_for rt state account)
                (rt.state-vision_for a (team_for rt (rt.state r.runtime) a) r.runtime)))
    ]

  -- The store has the match that the state is of, with the sides of the players in that state.
  abbrev pub Sides : MatchState rt.World → MatchStore rt → Type 0
  Sides state s =
      (account : AccountId) → side_at state.match_id account s ≡ team_for rt state account

  -- Each match stands under its own id.
  abbrev pub AtHome : MatchStore rt → Type 0
  AtHome s =
      (id : ℕ) (r : MatchRecord rt) → get id s.matches ≡ some r → (rt.state r.runtime).match_id ≡ id

  pub find_match-Sides :
      (id : ℕ) (state : MatchState rt.World) (s : MatchStore rt)
      → AtHome s
      → find_match rt id s ≡ some state
      → Sides state s
  unfolding find_match
  find_match-Sides id state s home found account = elim (Option-cases (get id s.matches)) [
    | inl e ↦ ground (arith, rw (e, find_match) at found)
    | inr (r, e) ↦
        let it : rt.state r.runtime ≡ state = ground (arith, ap (state_in rt) e, found) in
        let own : id ≡ state.match_id = sym (home id r e) ∙ ap (λ x. x.match_id) it in
        let here : get state.match_id s.matches ≡ some r =
          subst (λ k. get k s.matches ≡ some r) own e in
        ap (side_in account) here ∙ ap (λ x. team_for rt x account) it
  ]

  pub find_by_account-Sides :
      (a : AccountId) (state : MatchState rt.World) (s : MatchStore rt)
      → AtHome s
      → find_by_account rt a s ≡ some state
      → Sides state s
  unfolding find_by_account
  find_by_account-Sides a state s home found = elim (Option-cases (get a s.by_account)) [
    | inl e ↦ ground (arith, rw (e, find_by_account) at found)
    | inr (id, e) ↦ find_match-Sides id state s home (rw (e, find_by_account) at found)
  ]
