-- ===== src/Match/Handler/Audience.antt =====
-- Who is sent a chat line.
use seg.Prelude.{
  ℕ, not, ◌&&◌, Option, none, some, List, find, All, All-append, number_key, ◌≡◌, Bool-cases,
  Option-cases, inl, inr,
}
use seg.Text.{Text}
use seg.Chat.{ChatScope, ChatEntry, can_speak_on, normalize_chat_text, validate_chat_text}
use seg.Realtime.Connections.{PlayerConnection}
use seg.Match.Store.{
  MatchRuntime, MatchState, is_player, team_for, find_by_account, find_match, add_chat, results_for,
  lobby_name_for,
}
use seg.Match.Handler.{
  Sent, resume, MatchHandler, attach, rejoin, begin, chat, ending, heard, say, speak, spoken,
  allow_chat, well_formed, is_over, is_connected,
}
use seg.Match.Handler.Sides.{
  Keyed, Distinct, own_team, AtHome, find_match-Sides, find_by_account-Sides,
}
use seg.Match.Handler.Lines.{
  Hears, resume-Hears, begin_for-Hears, fan_out-Hears, ending-Hears, offer-Hears,
}

-- What the handler is told that it may answer with chat.
pub data Happening : Type 0 where
  attaches rejoins : PlayerConnection → Happening
  begins : ℕ → Happening
  chats : PlayerConnection → Option Text → Option Text → ℕ → Happening

module _ (rt : MatchRuntime) where
  unfoldable pub answer : Happening → MatchHandler rt → MatchHandler rt × List (Sent rt)
  answer (attaches connection) h = attach rt connection h
  answer (rejoins connection) h = rejoin rt connection h
  answer (begins id) h = begin rt id h
  answer (chats connection scope line now) h = chat rt connection scope line now h

  -- The match that it is about.
  unfoldable pub match_of : Happening → MatchHandler rt → Option (MatchState rt.World)
  match_of (attaches connection) h = find_by_account rt connection.account_id h.store
  match_of (rejoins connection) h = find_by_account rt connection.account_id h.store
  match_of (begins id) h = find_match rt id h.store
  match_of (chats connection scope line now) h = find_by_account rt connection.account_id h.store

  module _ (h : MatchHandler rt) (state : MatchState rt.World) (home : AtHome rt h.store)
      (distinct : Distinct state.players) (keyed : Keyed h.connections) where
    abbrev Ok : List (Sent rt) → Type 0
    Ok = All (Hears rt (team_for rt state))

    heard-Hears : (entry : Option ChatEntry) → Ok (heard rt entry state.players h.connections)
    unfolding team_for
    heard-Hears none = tt
    heard-Hears (some entry) =
        fan_out-Hears rt (team_for rt state) h.connections entry state.players keyed
          (own_team state.players distinct)

    say-Hears :
        (connection : PlayerConnection) (scope : ChatScope) (line : Text) (now : ℕ)
        → Ok (say rt connection state scope line now h).1
    unfolding say
    say-Hears connection scope line now =
        elim (Bool-cases (allow_chat connection.account_id now h.chat_times).1) [
          | inl e ↦
              rw (e, say)
                (heard-Hears
                  (add_chat rt state.match_id
                    (spoken rt connection (team_for rt state connection.account_id) scope line now)
                    h.store).1)
          | inr e ↦ rw (e, say) (tt, tt)
        ]

    speak-Hears :
        (connection : PlayerConnection) (scope : ChatScope) (raw : Text) (now : ℕ)
        → Ok (speak rt connection state scope raw now h).1
    unfolding speak
    speak-Hears connection scope raw now =
        elim (Bool-cases (can_speak_on scope (team_for rt state connection.account_id))) [
          | inr e ↦ rw (e, speak) (tt, tt)
          | inl e ↦ elim (Option-cases (validate_chat_text (normalize_chat_text raw))) [
            | inl f ↦ rw (e, f, speak) (say-Hears connection scope (normalize_chat_text raw) now)
            | inr (problem, f) ↦ rw (e, f, speak) (tt, tt)
          ]
        ]

    chat-Hears :
        (connection : PlayerConnection) (scope line : Option Text) (now : ℕ)
        → find_by_account rt connection.account_id h.store ≡ some state
        → Ok (chat rt connection scope line now h).1
    unfolding chat
    chat-Hears connection scope line now found = elim (Option-cases (well_formed scope line)) [
      | inl e ↦ rw (found, e, chat) (tt, tt)
      | inr ((channel, raw), e) ↦ rw (found, e, chat) (speak-Hears connection channel raw now)
    ]

    attach-Hears :
        (connection : PlayerConnection)
        → find_by_account rt connection.account_id h.store ≡ some state
        → Ok (attach rt connection h).1
    unfolding attach
    attach-Hears connection found =
        let results = results_for rt state.match_id h.store in
        let player = find (is_player connection.account_id) state.players in
        let sides = find_by_account-Sides rt connection.account_id state h.store home found in
        elim (Bool-cases (not (is_over rt results) && not (is_connected rt player))) [
          | inl e ↦
              rw (found, e, attach)
                (offer-Hears rt (team_for rt state) connection state.match_id
                  (lobby_name_for rt state.match_id h.store))
          | inr e ↦
              rw (found, e, attach)
                (All-append (Hears rt (team_for rt state)) (resume rt connection state h.store).1
                  (ending rt connection results) (resume-Hears rt connection state h.store sides)
                  (ending-Hears rt (team_for rt state) connection results))
        ]

    rejoin-Hears :
        (connection : PlayerConnection)
        → find_by_account rt connection.account_id h.store ≡ some state
        → Ok (rejoin rt connection h).1
    unfolding rejoin
    rejoin-Hears connection found =
        let sides = find_by_account-Sides rt connection.account_id state h.store home found in
        elim (Bool-cases (is_over rt (results_for rt state.match_id h.store))) [
          | inl e ↦ rw (found, e, rejoin) tt
          | inr e ↦ rw (found, e, rejoin) (resume-Hears rt connection state h.store sides)
        ]

    begin-Hears : (id : ℕ) → find_match rt id h.store ≡ some state → Ok (begin rt id h).1
    unfolding begin
    begin-Hears id found =
        rw (found, begin)
          (begin_for-Hears rt h.connections state state.players h.store
            (find_match-Sides rt id state h.store home found))

  -- Whenever an account connects or rejoins, a match begins or a player speaks, each chat line that
  -- is sent, new or from the backlog, goes to an account whose side in that match may hear it. Each
  -- match stands under its own id, no two of its players have one account, and the connections
  -- stand under their accounts.
  pub answer-Hears :
      (happening : Happening) (h : MatchHandler rt) (state : MatchState rt.World)
      → match_of happening h ≡ some state
      → AtHome rt h.store
      → Distinct state.players
      → Keyed h.connections
      → All (Hears rt (team_for rt state)) (answer happening h).1
  unfolding answer match_of
  answer-Hears (attaches connection) h state found home distinct keyed =
      attach-Hears h state home distinct keyed connection found
  answer-Hears (rejoins connection) h state found home distinct keyed =
      rejoin-Hears h state home distinct keyed connection found
  answer-Hears (begins id) h state found home distinct keyed =
      begin-Hears h state home distinct keyed id found
  answer-Hears (chats connection scope line now) h state found home distinct keyed =
      chat-Hears h state home distinct keyed connection scope line now found
