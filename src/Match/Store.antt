-- ===== src/Match/Store.antt =====
-- packages/server/src/match/store.ts, over the runtime of a match as an interface. A match id is a
-- number.
pub mod Fields
pub mod Chats
pub mod Operations
pub mod Endings
pub mod Logs
pub mod Frames
pub mod Orders
use seg.Prelude.{
  ℕ, zero, suc, ◌+◌, ◌-◌, Bool, true, false, Option, none, some, List, [], ◌∷◌, ◌++◌, map, filter,
  find, length, ◌==◌, ltb, ◌≡◌, if◌then◌else◌, Map, get, set, delete, number_key,
}
use seg.Text.{Text}
use seg.Lobby.State.{AccountId}
use seg.Chat.{ChatScope, ChatEntry, can_hear}
pub use seg.Match.Runtime.{MatchPlayer, MatchState, MatchResults, MatchRuntime}

abbrev pub chat_backlog : ℕ
chat_backlog = 50

abbrev pub is_player : AccountId → MatchPlayer → Bool
is_player account player = player.account_id == account

abbrev pub team_of : Option MatchPlayer → Option ℕ
team_of none = none
team_of (some player) = player.team

abbrev pub is_running : {A : Type 0} → Option A → Bool
is_running none = true
is_running (some _) = false

-- A chat line that the store has not numbered yet.
pub record Spoken : Type 0 where
  pub from : AccountId
  pub username : Text
  pub side : Option ℕ
  pub scope : ChatScope
  pub line : Text
  pub at : ℕ

unfoldable pub dropped_lines : ℕ → List ChatEntry → List ChatEntry
dropped_lines zero entries = entries
dropped_lines (suc n) [] = []
dropped_lines (suc n) (entry ∷ entries) = dropped_lines n entries

-- `chat.push(full)`, and the `splice` of what is more than the backlog.
unfoldable pub remember : ChatEntry → List ChatEntry → List ChatEntry
remember entry chat =
    let longer = chat ++ entry ∷ [] in
    if ltb chat_backlog (length longer)
    then dropped_lines (length longer - chat_backlog) longer
    else longer

abbrev pub numbered : ℕ → Spoken → ChatEntry
numbered id spoken = record {
  id = id;
  from = spoken.from;
  username = spoken.username;
  side = spoken.side;
  scope = spoken.scope;
  line = spoken.line;
  at = spoken.at;
}

abbrev pub connect : AccountId → Bool → MatchPlayer → MatchPlayer
connect account connected player =
    if player.account_id == account then record player { connected = connected } else player

abbrev pub count_of : Option ℕ → ℕ
count_of none = 0
count_of (some n) = n

module _ (rt : MatchRuntime) where
  abbrev pub State : Type 0
  State = MatchState rt.World

  unfoldable pub team_for : State → AccountId → Option ℕ
  team_for state account = team_of (find (is_player account) state.players)

  pub record MatchRecord : Type 0 where
    pub runtime : rt.Runtime
    pub results : Option (MatchResults rt.Report)
    pub lobby_name : Text
    pub next_chat_id : ℕ
    pub chat : List ChatEntry
    pub view_seq : Map AccountId ℕ

  pub record MatchStore : Type 0 where
    pub matches : Map ℕ MatchRecord
    pub by_account : Map AccountId ℕ

  abbrev pub fresh : State → Text → MatchRecord
  fresh state lobby_name = record {
    runtime = rt.build state;
    results = none;
    lobby_name = lobby_name;
    next_chat_id = 1;
    chat = [];
    view_seq = [];
  }

  unfoldable pub seat_all : ℕ → List MatchPlayer → Map AccountId ℕ → Map AccountId ℕ
  seat_all id [] by_account = by_account
  seat_all id (player ∷ players) by_account =
      seat_all id players (set player.account_id id by_account)

  unfoldable pub store : State → Text → MatchStore → MatchStore
  store state lobby_name s = record {
    matches = set state.match_id (fresh state lobby_name) s.matches;
    by_account = seat_all state.match_id state.players s.by_account;
  }

  abbrev pub state_in : Option MatchRecord → Option State
  state_in none = none
  state_in (some r) = some (rt.state r.runtime)

  unfoldable pub find_match : ℕ → MatchStore → Option State
  find_match id s = state_in (get id s.matches)

  unfoldable pub running : MatchStore → List (ℕ × rt.Runtime)
  running s = map (λ (id, r). (id, r.runtime)) (filter (λ (id, r). is_running r.results) s.matches)

  abbrev pub write : ℕ → MatchRecord → MatchStore → MatchStore
  write id r s = record s { matches = set id r s.matches }

  -- `conclude` on a record that is still running.
  unfoldable pub settle :
      ℕ
      → MatchRecord
      → Option (MatchResults rt.Report)
      → MatchStore
      → MatchStore × Option (MatchResults rt.Report)
  settle id r none s = (s, none)
  settle id r (some results) s = (write id (record r { results = some results }) s, some results)

  unfoldable pub conclude : ℕ → MatchStore → MatchStore × Option (MatchResults rt.Report)
  conclude id s = elim (get id s.matches) [
    | none ↦ (s, none)
    | some r ↦ elim (is_running r.results) [
      | false ↦ (s, none)
      | true ↦ settle id r (rt.results r.runtime) s
    ]
  ]

  abbrev pub results_in : Option MatchRecord → Option (MatchResults rt.Report)
  results_in none = none
  results_in (some r) = r.results

  unfoldable pub results_for : ℕ → MatchStore → Option (MatchResults rt.Report)
  results_for id s = results_in (get id s.matches)

  -- An update of the record of a match, if there is one.
  unfoldable pub modify_record : ℕ → (MatchRecord → MatchRecord) → MatchStore → MatchStore
  modify_record id f s = elim (get id s.matches) [ none ↦ s | some r ↦ write id (f r) s ]

  abbrev pub with_state : State → MatchRecord → MatchRecord
  with_state state r = record r { runtime = rt.replace state r.runtime }

  unfoldable pub update : State → MatchStore → MatchStore
  update state = modify_record state.match_id (with_state state)

  unfoldable pub find_by_account : AccountId → MatchStore → Option State
  find_by_account account s = elim (get account s.by_account) [
    | none ↦ none
    | some id ↦ find_match id s
  ]

  abbrev pub name_in : Option MatchRecord → Option Text
  name_in none = none
  name_in (some r) = some r.lobby_name

  unfoldable pub lobby_name_for : ℕ → MatchStore → Option Text
  lobby_name_for id s = name_in (get id s.matches)

  unfoldable pub release : AccountId → MatchStore → MatchStore
  release account s = record s { by_account = delete account s.by_account }

  -- The record after a frame for the account, and the frame with its number.
  unfoldable pub frame_of : AccountId → MatchRecord → MatchRecord × ℕ × rt.View
  frame_of account r =
      let state = rt.state r.runtime in
      let seq = count_of (get account r.view_seq) + 1 in
      let (runtime, vision) = rt.vision_for account (team_for state account) r.runtime in
      (
        record r { runtime = runtime; view_seq = set account seq r.view_seq },
        seq,
        rt.view_for state account vision (rt.has_debug_vision account runtime),
      )

  unfoldable pub view_for : ℕ → AccountId → MatchStore → MatchStore × Option (ℕ × rt.View)
  view_for id account s = elim (get id s.matches) [
    | none ↦ (s, none)
    | some r ↦ let (r', seq, view) = frame_of account r in (write id r' s, some (seq, view))
  ]

  abbrev pub forgetting : AccountId → MatchRecord → MatchRecord
  forgetting account r = record r { runtime = rt.forget account r.runtime }

  -- An update of the record of the account's match.
  unfoldable pub modify_seated : AccountId → (MatchRecord → MatchRecord) → MatchStore → MatchStore
  modify_seated account f s = elim (get account s.by_account) [
    | none ↦ s
    | some id ↦ modify_record id f s
  ]

  unfoldable pub reset_vision : AccountId → MatchStore → MatchStore
  reset_vision account = modify_seated account (forgetting account)

  abbrev pub connecting : AccountId → Bool → MatchRecord → MatchRecord
  connecting account connected r =
      let state = rt.state r.runtime in
      with_state (record state { players = map (connect account connected) state.players }) r

  unfoldable pub set_connected : AccountId → Bool → MatchStore → MatchStore
  set_connected account connected = modify_seated account (connecting account connected)

  abbrev pub saying : Spoken → MatchRecord → MatchRecord
  saying spoken r = record r {
    next_chat_id = r.next_chat_id + 1;
    chat = remember (numbered r.next_chat_id spoken) r.chat;
  }

  unfoldable pub add_chat : ℕ → Spoken → MatchStore → MatchStore × Option ChatEntry
  add_chat id spoken s = elim (get id s.matches) [
    | none ↦ (s, none)
    | some r ↦ (write id (saying spoken r) s, some (numbered r.next_chat_id spoken))
  ]

  unfoldable pub chat_for : ℕ → AccountId → MatchStore → List ChatEntry
  chat_for id account s = elim (get id s.matches) [
    | none ↦ []
    | some r ↦
        let team = team_for (rt.state r.runtime) account in
        filter (λ entry. can_hear entry team) r.chat
  ]

  unfoldable pub remove_match : ℕ → MatchStore → MatchStore
  remove_match id s = record s { matches = delete id s.matches }

  abbrev setup_in : AccountId → Option MatchRecord → Option rt.Setup
  setup_in account none = none
  setup_in account (some r) =
      some (rt.setup_for (rt.state r.runtime) account (rt.has_debug_vision account r.runtime))

  unfoldable pub setup_for : ℕ → AccountId → MatchStore → Option rt.Setup
  setup_for id account s = setup_in account (get id s.matches)

  -- What an order comes to that the runtime of the account's match carries out, if it has one.
  abbrev obeyed : {A : Type 0} → ℕ → MatchRecord → rt.Runtime × A → MatchStore → MatchStore × A
  obeyed id r (runtime, answer) s = (write id (record r { runtime = runtime }) s, answer)

  unfoldable pub order :
      {A : Type 0} → AccountId → A → (rt.Runtime → rt.Runtime × A) → MatchStore → MatchStore × A
  order account refused carry_out s = elim (get account s.by_account) [
    | none ↦ (s, refused)
    | some id ↦ elim (get id s.matches) [
      | none ↦ (s, refused)
      | some r ↦ obeyed id r (carry_out r.runtime) s
    ]
  ]

  unfoldable pub set_active_sonar : AccountId → ℕ → Bool → MatchStore → MatchStore × Bool
  set_active_sonar account boat active =
      order account false (rt.set_active_sonar account boat active)

  unfoldable pub fire : AccountId → ℕ → List ℕ → rt.Point → MatchStore → MatchStore × ℕ
  fire account boat tubes to = order account 0 (rt.fire account boat tubes to)

  unfoldable pub drop : AccountId → ℕ → MatchStore → MatchStore × Bool
  drop account boat = order account false (rt.drop account boat)

  unfoldable pub load : AccountId → ℕ → ℕ → ℕ → Bool → MatchStore → MatchStore × Bool
  load account boat tube weapon swap = order account false (rt.load account boat tube weapon swap)
