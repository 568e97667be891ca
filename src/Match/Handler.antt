-- ===== src/Match/Handler.antt =====
-- packages/server/src/match/handler.ts: the life of a connection, the start and the end of a match, and
-- the chat. The orders to boats and the debug commands are left out, and so is `publish`. A message
-- is a value with the connection that it goes to.
pub mod ChatWindow
pub mod ChatRate
pub mod Sides
pub mod Lines
pub mod Audience
use seg.Prelude.{
  ℕ, ◌+◌, ◌-◌, Bool, true, false, not, ◌&&◌, Option, none, some, List, [], ◌∷◌, ◌++◌, map, filter,
  find, length, ◌==◌, ltb, leb, if◌then◌else◌, Map, get, set, delete, number_key,
}
use seg.Text.{Text}
use seg.Lobby.State.{AccountId}
use seg.Chat.{
  ChatScope, ChatEntry, ChatProblem, wrong_scope, rate_limited, can_hear, can_speak_on,
  chat_scope_of, normalize_chat_text, validate_chat_text,
}
use seg.Realtime.Connections.{PlayerConnection, ConnectionRegistry, tell}
use seg.Match.Store.{
  MatchRuntime, MatchPlayer, MatchState, MatchResults, is_player, team_for, MatchStore, find_match,
  find_by_account, results_for, lobby_name_for, set_connected, reset_vision, release, view_for,
  chat_for, add_chat, Spoken, conclude,
}

abbrev pub chat_burst : ℕ
chat_burst = 3

abbrev pub chat_window_ms : ℕ
chat_window_ms = 5000

abbrev pub ChatTimes : Type 0
ChatTimes = Map AccountId (List ℕ)

abbrev pub times_in : Option (List ℕ) → List ℕ
times_in none = []
times_in (some times) = times

abbrev pub is_recent : ℕ → ℕ → Bool
is_recent now at = ltb (now - at) chat_window_ms

-- `this.chatTimes.delete(accountId)`
unfoldable pub forget_times : AccountId → ChatTimes → ChatTimes
forget_times account times = delete account times

-- `allowChat`, at the time that the clock gives.
unfoldable pub allow_chat : AccountId → ℕ → ChatTimes → ChatTimes × Bool
allow_chat account now times =
    let recent = filter (is_recent now) (times_in (get account times)) in
    if leb chat_burst (length recent)
    then (set account recent times, false)
    else (set account (recent ++ now ∷ []) times, true)

-- `!isChatScope(rawScope) || typeof rawText !== 'string'`, where `none` is no string.
unfoldable pub well_formed : Option Text → Option Text → Option (ChatScope × Text)
well_formed none raw_text = none
well_formed (some raw_scope) none = none
well_formed (some raw_scope) (some raw) = elim (chat_scope_of raw_scope) [
  | none ↦ none
  | some scope ↦ some (scope, raw)
]

module _ (rt : MatchRuntime) where
  pub data MatchServerMessage : Type 0 where
    match_state : rt.Setup → MatchServerMessage
    match_view : ℕ → ℕ → rt.View → MatchServerMessage
    chat_message : ChatEntry → MatchServerMessage
    chat_rejected : ChatProblem → MatchServerMessage
    match_results : MatchResults rt.Report → MatchServerMessage
    match_rejoinable : ℕ → Text → MatchServerMessage

  abbrev pub Sent : Type 0
  Sent = PlayerConnection × MatchServerMessage

  pub record MatchHandler : Type 0 where
    pub store : MatchStore rt
    pub connections : ConnectionRegistry
    pub chat_times : ChatTimes

  abbrev pub storing : MatchHandler → MatchStore rt → MatchHandler
  storing h s = record h { store = s }

  unfoldable pub god_mode : ℕ → AccountId → MatchStore rt → Bool
  god_mode id account s = elim (get id s.matches) [
    | none ↦ false
    | some r ↦ rt.has_debug_vision account r.runtime
  ]

  abbrev pub frame_message : PlayerConnection → ℕ → Option (ℕ × rt.View) → List Sent
  frame_message connection id none = []
  frame_message connection id (some (seq, view)) = (connection, match_view id seq view) ∷ []

  abbrev pub chat_line : PlayerConnection → ChatEntry → Sent
  chat_line connection entry = (connection, chat_message entry)

  unfoldable pub send_match :
      PlayerConnection → MatchState rt.World → MatchStore rt → MatchStore rt × List Sent
  send_match connection state s =
      let account = connection.account_id in
      let god = god_mode state.match_id account s in
      let (s', frame) = view_for rt state.match_id account s in
      (
        s',
        (connection, match_state (rt.setup_for state account god))
              ∷ frame_message connection state.match_id frame
            ++ map (chat_line connection) (chat_for rt state.match_id account s'),
      )

  abbrev pub is_connected : Option MatchPlayer → Bool
  is_connected none = false
  is_connected (some player) = player.connected

  unfoldable pub offer : PlayerConnection → ℕ → Option Text → List Sent
  offer connection id none = []
  offer connection id (some lobby_name) = (connection, match_rejoinable id lobby_name) ∷ []

  abbrev pub is_over : Option (MatchResults rt.Report) → Bool
  is_over none = false
  is_over (some _) = true

  abbrev pub ending : PlayerConnection → Option (MatchResults rt.Report) → List Sent
  ending connection none = []
  ending connection (some results) = (connection, match_results results) ∷ []

  -- `setConnected`, `resetVision` and `sendMatch`: the account is back in the match.
  unfoldable pub resume :
      PlayerConnection → MatchState rt.World → MatchStore rt → MatchStore rt × List Sent
  resume connection state s =
      let account = connection.account_id in
      send_match connection state (reset_vision rt account (set_connected rt account true s))

  unfoldable pub attach : PlayerConnection → MatchHandler → MatchHandler × List Sent
  attach connection h = elim (find_by_account rt connection.account_id h.store) [
    | none ↦ (h, [])
    | some state ↦
        let results = results_for rt state.match_id h.store in
        let player = find (is_player connection.account_id) state.players in
        if not (is_over results) && not (is_connected player)
        then (h, offer connection state.match_id (lobby_name_for rt state.match_id h.store))
        else let (s, sent) = resume connection state h.store in
          (storing h s, sent ++ ending connection results)
  ]

  unfoldable pub detach : AccountId → MatchHandler → MatchHandler
  detach account h = record h {
    store = set_connected rt account false h.store;
    chat_times = forget_times account h.chat_times;
  }

  -- `this.connections.tell(accountId, createMatchRejoinable(...))`
  abbrev pub offer_to : AccountId → ℕ → Option Text → ConnectionRegistry → List Sent
  offer_to account id none connections = []
  offer_to account id (some lobby_name) connections =
      tell account (match_rejoinable id lobby_name) connections

  unfoldable pub departed : AccountId → MatchHandler → MatchHandler × List Sent
  departed account h = elim (find_by_account rt account h.store) [
    | none ↦ (h, [])
    | some state ↦
        let s = set_connected rt account false h.store in
        (
          storing h s,
          (if is_over (results_for rt state.match_id s)
              then []
              else offer_to account state.match_id (lobby_name_for rt state.match_id s)
                  h.connections),
        )
  ]

  unfoldable pub abandon : AccountId → MatchHandler → MatchHandler
  abandon account h = storing h (release rt account h.store)

  unfoldable pub rejoin : PlayerConnection → MatchHandler → MatchHandler × List Sent
  rejoin connection h = elim (find_by_account rt connection.account_id h.store) [
    | none ↦ (h, [])
    | some state ↦
        if is_over (results_for rt state.match_id h.store)
        then (h, [])
        else let (s, sent) = resume connection state h.store in (storing h s, sent)
  ]

  -- The loop of `begin`.
  unfoldable pub begin_for :
      ConnectionRegistry
      → MatchState rt.World
      → List MatchPlayer
      → MatchStore rt
      → MatchStore rt × List Sent
  begin_for connections state [] s = (s, [])
  begin_for connections state (player ∷ players) s = elim (get player.account_id connections) [
    | none ↦ begin_for connections state players s
    | some connection ↦
        let (s', sent) = send_match connection state s in
        let (s'', more) = begin_for connections state players s' in (s'', sent ++ more)
  ]

  unfoldable pub begin : ℕ → MatchHandler → MatchHandler × List Sent
  begin id h = elim (find_match rt id h.store) [
    | none ↦ (h, [])
    | some state ↦
        let (s, sent) = begin_for h.connections state state.players h.store in (storing h s, sent)
  ]

  unfoldable pub tell_all : List AccountId → MatchServerMessage → ConnectionRegistry → List Sent
  tell_all [] message connections = []
  tell_all (account ∷ accounts) message connections =
      tell account message connections ++ tell_all accounts message connections

  abbrev pub announce : ConnectionRegistry → Option (MatchResults rt.Report) → List Sent
  announce connections none = []
  announce connections (some results) = tell_all results.players (match_results results) connections

  unfoldable pub conclude_match : ℕ → MatchHandler → MatchHandler × List Sent
  conclude_match id h =
      let (s, results) = conclude rt id h.store in (storing h s, announce h.connections results)

  -- The loop at the end of `chat`.
  unfoldable pub fan_out : ChatEntry → List MatchPlayer → ConnectionRegistry → List Sent
  fan_out entry [] connections = []
  fan_out entry (player ∷ players) connections =
      let rest = fan_out entry players connections in
      if can_hear entry player.team
      then tell player.account_id (chat_message entry) connections ++ rest
      else rest

  abbrev pub heard : Option ChatEntry → List MatchPlayer → ConnectionRegistry → List Sent
  heard none players connections = []
  heard (some entry) players connections = fan_out entry players connections

  abbrev pub spoken : PlayerConnection → Option ℕ → ChatScope → Text → ℕ → Spoken
  spoken connection side scope line now = record {
    from = connection.account_id;
    username = connection.username;
    side = side;
    scope = scope;
    line = line;
    at = now;
  }

  abbrev pub reject_chat : PlayerConnection → ChatProblem → List Sent
  reject_chat connection problem = (connection, chat_rejected problem) ∷ []

  -- The rest of `chat`, for a line that is well formed on a channel of the speaker's.
  unfoldable pub say :
      PlayerConnection
      → MatchState rt.World
      → ChatScope
      → Text
      → ℕ
      → MatchHandler
      → MatchHandler × List Sent
  say connection state scope line now h =
      let (times, allowed) = allow_chat connection.account_id now h.chat_times in
      let h' = record h { chat_times = times } in
      if not allowed
      then (h', reject_chat connection rate_limited)
      else let side = team_for rt state connection.account_id in
        let (s, entry) =
          add_chat rt state.match_id (spoken connection side scope line now) h'.store in
        (storing h' s, heard entry state.players h'.connections)

  unfoldable pub speak :
      PlayerConnection
      → MatchState rt.World
      → ChatScope
      → Text
      → ℕ
      → MatchHandler
      → MatchHandler × List Sent
  speak connection state scope raw now h =
      if not (can_speak_on scope (team_for rt state connection.account_id))
      then (h, reject_chat connection wrong_scope)
      else let line = normalize_chat_text raw in
        elim (validate_chat_text line) [
          | some problem ↦ (h, reject_chat connection problem)
          | none ↦ say connection state scope line now h
        ]

  unfoldable pub chat :
      PlayerConnection → Option Text → Option Text → ℕ → MatchHandler → MatchHandler × List Sent
  chat connection raw_scope raw_text now h =
      elim (find_by_account rt connection.account_id h.store) [
        | none ↦ (h, [])
        | some state ↦ elim (well_formed raw_scope raw_text) [
          | none ↦ (h, reject_chat connection wrong_scope)
          | some (scope, raw) ↦ speak connection state scope raw now h
        ]
      ]
