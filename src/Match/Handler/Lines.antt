-- ===== src/Match/Handler/Lines.antt =====
-- The messages that the handler sends, and whose side may hear the chat among them.
use seg.Prelude.{
  ℕ, true, Option, none, some, List, [], ◌∷◌, map, filter, All, All-append, get, number_key, ◌≡◌,
  Bool-cases, Option-cases, inl, inr, ap, subst, sym, ◌∙◌,
}
use seg.Text.{Text}
use seg.Lobby.State.{AccountId}
use seg.Chat.{ChatEntry, can_hear}
use seg.Realtime.Connections.{PlayerConnection, ConnectionRegistry, tell}
use seg.Match.Store.{
  MatchRuntime, MatchStore, MatchPlayer, MatchState, MatchResults, team_for, view_for,
  set_connected, reset_vision, chat_for,
}
use seg.Match.Handler.{
  chat_message, Sent, chat_line, send_match, fan_out, frame_message, resume, begin_for, ending,
  offer,
}
use seg.Match.Handler.Sides.{
  Keyed, side_in, side_at, side_at-set_connected, side_at-reset_vision, side_at-view_for, Sides,
}

module _ (rt : MatchRuntime) where
  abbrev pub Hears : (AccountId → Option ℕ) → Sent rt → Type 0
  Hears side (connection, chat_message entry) = can_hear entry (side connection.account_id) ≡ true
  Hears side _ = Unit

  pub chat_lines-Hears :
      (side : AccountId → Option ℕ) (connection : PlayerConnection) (entries : List ChatEntry)
      → All (Hears side) (
          map
            (chat_line rt connection)
            (filter (λ entry. can_hear entry (side connection.account_id)) entries))
  chat_lines-Hears side connection [] = tt
  chat_lines-Hears side connection (entry ∷ entries) =
      elim (Bool-cases (can_hear entry (side connection.account_id))) [
        | inl e ↦ rw e (e, chat_lines-Hears side connection entries)
        | inr e ↦ rw e (chat_lines-Hears side connection entries)
      ]

  pub chat_for-Hears :
      (side : AccountId → Option ℕ) (id : ℕ) (connection : PlayerConnection) (s : MatchStore rt)
      → side_at rt id connection.account_id s ≡ side connection.account_id
      → All (Hears side) (map (chat_line rt connection) (chat_for rt id connection.account_id s))
  unfolding chat_for
  chat_for-Hears side id connection s same = elim (Option-cases (get id s.matches)) [
    | inl e ↦ rw (e, chat_for) tt
    | inr (r, e) ↦
        let here : team_for rt (rt.state r.runtime) connection.account_id
            ≡ side connection.account_id =
          sym (ap (side_in rt connection.account_id) e) ∙ same in
        rw (e, here, chat_for) (chat_lines-Hears side connection r.chat)
  ]

  pub frame_message-Hears :
      (side : AccountId → Option ℕ) (connection : PlayerConnection) (id : ℕ)
      (frame : Option (ℕ × rt.View))
      → All (Hears side) (frame_message rt connection id frame)
  frame_message-Hears side connection id none = tt
  frame_message-Hears side connection id (some (seq, view)) = (tt, tt)

  pub send_match-Hears :
      (connection : PlayerConnection) (state : MatchState rt.World) (s : MatchStore rt)
      → Sides rt state s
      → All (Hears (team_for rt state)) (send_match rt connection state s).1
        × Sides rt state (send_match rt connection state s).0
  unfolding send_match
  send_match-Hears connection state s sides =
      let account = connection.account_id in
      let s' = (view_for rt state.match_id account s).0 in
      let sides' : Sides rt state s' =
        λ a. side_at-view_for rt state.match_id a state.match_id account s ∙ sides a in
      (
        (
          tt,
          All-append (Hears (team_for rt state))
              (frame_message rt connection state.match_id (view_for rt state.match_id account s).1)
              (map (chat_line rt connection) (chat_for rt state.match_id account s'))
              (frame_message-Hears (team_for rt state) connection state.match_id
                (view_for rt state.match_id account s).1)
              (chat_for-Hears (team_for rt state) state.match_id connection s' (sides' account)),
        ),
        sides',
      )

  pub resume-Hears :
      (connection : PlayerConnection) (state : MatchState rt.World) (s : MatchStore rt)
      → Sides rt state s
      → All (Hears (team_for rt state)) (resume rt connection state s).1
  unfolding resume
  resume-Hears connection state s sides =
      let account = connection.account_id in
      let connected = set_connected rt account true s in
      (send_match-Hears connection state (reset_vision rt account connected) (λ a.
        side_at-reset_vision rt state.match_id a account connected
        ∙ side_at-set_connected rt state.match_id a account true s
        ∙ sides a)).0

  pub begin_for-Hears :
      (connections : ConnectionRegistry) (state : MatchState rt.World) (players : List MatchPlayer)
      (s : MatchStore rt)
      → Sides rt state s
      → All (Hears (team_for rt state)) (begin_for rt connections state players s).1
  unfolding begin_for
  begin_for-Hears connections state [] s sides = tt
  begin_for-Hears connections state (player ∷ players) s sides =
      elim (Option-cases (get player.account_id connections)) [
        | inl e ↦ rw (e, begin_for) (begin_for-Hears connections state players s sides)
        | inr (connection, e) ↦
            let sent = send_match-Hears connection state s sides in
            let s' = (send_match rt connection state s).0 in
            rw (e, begin_for)
              (All-append (Hears (team_for rt state)) (send_match rt connection state s).1
                (begin_for rt connections state players s').1 sent.0
                (begin_for-Hears connections state players s' sent.1))
      ]

  pub tell-Hears :
      (side : AccountId → Option ℕ) (connections : ConnectionRegistry) (account : AccountId)
      (entry : ChatEntry)
      → Keyed connections
      → can_hear entry (side account) ≡ true
      → All (Hears side) (tell account (chat_message entry) connections)
  unfolding tell
  tell-Hears side connections account entry keyed h =
      elim (Option-cases (get account connections)) [
        | inl e ↦ rw (e, tell) tt
        | inr (connection, e) ↦
            let own : connection.account_id ≡ account = keyed account connection e in
            rw (e, tell) (subst (λ a. can_hear entry (side a) ≡ true) (sym own) h, tt)
      ]

  pub fan_out-Hears :
      (side : AccountId → Option ℕ) (connections : ConnectionRegistry) (entry : ChatEntry)
      (players : List MatchPlayer)
      → Keyed connections
      → All (λ p. side p.account_id ≡ p.team) players
      → All (Hears side) (fan_out rt entry players connections)
  unfolding fan_out
  fan_out-Hears side connections entry [] keyed own = tt
  fan_out-Hears side connections entry (player ∷ players) keyed own =
      let rest = fan_out-Hears side connections entry players keyed own.1 in
      elim (Bool-cases (can_hear entry player.team)) [
        | inr e ↦ rw (e, fan_out) rest
        | inl e ↦
            rw (e, fan_out)
              (All-append (Hears side) (tell player.account_id (chat_message entry) connections)
                (fan_out rt entry players connections)
                (tell-Hears side connections player.account_id entry keyed (rw own.0 e)) rest)
      ]

  pub ending-Hears :
      (side : AccountId → Option ℕ) (connection : PlayerConnection)
      (results : Option (MatchResults rt.Report))
      → All (Hears side) (ending rt connection results)
  ending-Hears side connection none = tt
  ending-Hears side connection (some results) = (tt, tt)

  pub offer-Hears :
      (side : AccountId → Option ℕ) (connection : PlayerConnection) (id : ℕ) (name : Option Text)
      → All (Hears side) (offer rt connection id name)
  unfolding offer
  offer-Hears side connection id none = tt
  offer-Hears side connection id (some lobby_name) = (tt, tt)
