-- ===== src/Lobby/Handler/Privacy.antt =====
-- A player's own view goes to that player alone, and the state of a lobby to its members alone.
use seg.Prelude.{
  ℕ, Option, none, some, List, [], ◌∷◌, map, ◌≡◌, inl, inr, refl, subst, sym, All, All-append, In,
  Option-cases, get, number_key,
}
use seg.Text.{Text}
use seg.Lobby.State.{AccountId, LobbyState, LobbyMember, SelectedFleet}
use seg.Lobby.Service.Registry.{
  LobbyService, LobbyResult, LobbyMutation, ok, fail, thrown, view_for,
}
use seg.Lobby.Service.Create.{Inputs}
use seg.Lobby.Wire.{
  LobbyClientMessage, lobby_state, list_result, exit, rejected, match_started, kicked, LobbyOp,
}
use seg.Realtime.Connections.{PlayerConnection, ConnectionRegistry, tell}
use seg.Lobby.Outbox.{
  LobbyHandler, Event, sent, entered, departed, fleet_lookup, fleet_reread, starting, raised,
  Outcome, serving, tell_account, reject, account_of, tell_members, broadcast, settle, enter,
  exit_left, kicked_out, settled, entering,
}
use seg.Lobby.Handler.Shape.{
  Shape, refused, settles, enters, exits, kicked_by, quiet, IsQuiet, handle-Shape,
}
use seg.Lobby.Handler.{handle, fleet_found}

-- Connections stand under the account that they belong to.
abbrev pub Keyed : ConnectionRegistry → Type 0
Keyed connections =
    (account : AccountId) (connection : PlayerConnection)
    → get account connections ≡ some connection
    → connection.account_id ≡ account

-- A lobby that is sent comes with the view of the one whom it is sent to, who is a member of it.
abbrev pub IsPrivate : LobbyService → Event → Type 0
IsPrivate s (sent to (lobby_state state you)) =
    (you ≡ view_for s to.account_id) × In to.account_id (map account_of state.members)
IsPrivate s (sent to _) = Unit {0}
IsPrivate s _ = Unit {0}

weaken-In :
    (members : List LobbyMember) (member : LobbyMember) (rest : List LobbyMember)
    → All (λ m. In (account_of m) (map account_of members)) rest
    → All (λ m. In (account_of m) (map account_of (member ∷ members))) rest
weaken-In members member [] k = tt
weaken-In members member (m ∷ rest) k = (inr k.0, weaken-In members member rest k.1)

members-In :
    (members : List LobbyMember) → All (λ m. In (account_of m) (map account_of members)) members
members-In [] = tt
members-In (member ∷ members) = (inl refl, weaken-In members member members (members-In members))

module _ (h : LobbyHandler) (keyed : Keyed h.connections) where
  tell_account-IsPrivate :
      (account : AccountId) (state : LobbyState)
      → In account (map account_of state.members)
      → All
          (IsPrivate h.service)
          (tell_account h account (lobby_state state (view_for h.service account)))
  unfolding tell_account tell
  tell_account-IsPrivate account state member = elim (Option-cases (get account h.connections)) [
    | inl e ↦ rw (e, tell_account, tell) tt
    | inr (connection, e) ↦
        rw (e, tell_account, tell) (rw (keyed account connection e) ((refl, member), tt))
  ]

  tell_members-IsPrivate :
      (state : LobbyState) (members : List LobbyMember)
      → All (λ member. In (account_of member) (map account_of state.members)) members
      → All (IsPrivate h.service) (tell_members h state members)
  unfolding tell_members
  tell_members-IsPrivate state [] k = tt
  tell_members-IsPrivate state (member ∷ members) k =
      All-append _ (tell_account h _ _) _ (tell_account-IsPrivate (account_of member) state k.0)
        (tell_members-IsPrivate state members k.1)

  told_exit :
      (account : AccountId) → All (IsPrivate h.service) (tell_account h account (exit kicked))
  unfolding tell_account tell
  told_exit account = elim (Option-cases (get account h.connections)) [
    | inl e ↦ rw (e, tell_account, tell) tt
    | inr (connection, e) ↦ rw (e, tell_account, tell) (tt, tt)
  ]

  broadcast-IsPrivate : (state : Option LobbyState) → All (IsPrivate h.service) (broadcast h state)
  unfolding broadcast
  broadcast-IsPrivate none = tt
  broadcast-IsPrivate (some state) =
      tell_members-IsPrivate state state.members (members-In state.members)

  settle-IsPrivate :
      (connection : PlayerConnection) (op : LobbyOp) (result : LobbyResult LobbyState)
      → All (IsPrivate h.service) (settle h connection op result)
  unfolding settle reject
  settle-IsPrivate connection op (ok state) = broadcast-IsPrivate (some state)
  settle-IsPrivate connection op (fail code message) = (tt, tt)
  settle-IsPrivate connection op thrown = (tt, tt)

  enter-IsPrivate :
      (connection : PlayerConnection) (op : LobbyOp) (result : LobbyResult LobbyState)
      → All (IsPrivate h.service) (enter h connection op result)
  unfolding enter
  enter-IsPrivate connection op (ok state) = (tt, settle-IsPrivate connection op (ok state))
  enter-IsPrivate connection op (fail code message) =
      settle-IsPrivate connection op (fail code message)
  enter-IsPrivate connection op thrown = settle-IsPrivate connection op thrown

  exit_left-IsPrivate :
      (connection : PlayerConnection) (result : LobbyResult LobbyMutation)
      → All (IsPrivate h.service) (exit_left h connection result)
  unfolding exit_left reject
  exit_left-IsPrivate connection (ok mutation) = (tt, (tt, broadcast-IsPrivate mutation.state))
  exit_left-IsPrivate connection (fail code message) = (tt, tt)
  exit_left-IsPrivate connection thrown = (tt, tt)

  kicked_out-IsPrivate :
      (connection : PlayerConnection) (target : AccountId) (result : LobbyResult LobbyMutation)
      → All (IsPrivate h.service) (kicked_out h connection target result)
  unfolding kicked_out reject
  kicked_out-IsPrivate connection target (ok mutation) =
      All-append _ (tell_account h target (exit kicked)) _ (told_exit target)
        (broadcast-IsPrivate mutation.state)
  kicked_out-IsPrivate connection target (fail code message) = (tt, tt)
  kicked_out-IsPrivate connection target thrown = (tt, tt)

abbrev AllPrivate : Outcome → Type 0
AllPrivate out = All (IsPrivate out.0.service) out.1

quiet_event : (s : LobbyService) (event : Event) → IsQuiet event → IsPrivate s event
quiet_event s (sent to (list_result lobbies online)) q = tt
quiet_event s (sent to (lobby_state state you)) q = absurd q
quiet_event s (sent to (exit reason)) q = tt
quiet_event s (sent to (rejected op code message)) q = tt
quiet_event s (sent to (match_started id)) q = tt
quiet_event s (entered account) q = tt
quiet_event s (departed account) q = tt
quiet_event s (fleet_lookup connection id) q = tt
quiet_event s (fleet_reread account id) q = tt
quiet_event s (starting connection lobby entries) q = tt
quiet_event s raised q = tt

quiet-IsPrivate :
    (s : LobbyService) (events : List Event) → All IsQuiet events → All (IsPrivate s) events
quiet-IsPrivate s [] q = tt
quiet-IsPrivate s (event ∷ events) q = (quiet_event s event q.0, quiet-IsPrivate s events q.1)

module _ (h : LobbyHandler) (keyed : Keyed h.connections) (connection : PlayerConnection) where
  settled-IsPrivate :
      (op : LobbyOp) (r : LobbyService × LobbyResult LobbyState)
      → AllPrivate (settled h connection op r)
  unfolding settled
  settled-IsPrivate op (s, result) = settle-IsPrivate (serving h s) keyed connection op result

  entering-IsPrivate :
      (op : LobbyOp) (r : LobbyService × LobbyResult LobbyState)
      → AllPrivate (entering h connection op r)
  unfolding entering
  entering-IsPrivate op (s, result) = enter-IsPrivate (serving h s) keyed connection op result

  Shape-IsPrivate : (new_id : ℕ) (out : Outcome) → Shape new_id h connection out → AllPrivate out
  unfolding reject
  Shape-IsPrivate new_id out (refused op code message e) = subst AllPrivate (sym e) (tt, tt)
  Shape-IsPrivate new_id out (settles op r atomic seats st e) =
      subst AllPrivate (sym e) (settled-IsPrivate op r)
  Shape-IsPrivate new_id out (enters op r atomic seats st e) =
      subst AllPrivate (sym e) (entering-IsPrivate op r)
  Shape-IsPrivate new_id out (exits r atomic seats st e) =
      subst AllPrivate (sym e) (exit_left-IsPrivate (serving h r.0) keyed connection r.1)
  Shape-IsPrivate new_id out (kicked_by target r atomic seats st e) =
      subst AllPrivate (sym e) (kicked_out-IsPrivate (serving h r.0) keyed connection target r.1)
  Shape-IsPrivate new_id out (quiet events q e) =
      subst AllPrivate (sym e) (quiet-IsPrivate h.service events q)

  -- Where connections stand under their own accounts: whatever a message makes the handler send, a
  -- lobby goes only to its members, each with the view of its own after the message.
  pub handle-IsPrivate :
      (to_upper_case to_lower_case : Text → Text) (id_of : Text → ℕ) (inputs : Inputs)
      (message : LobbyClientMessage)
      → All
          (IsPrivate
            (handle to_upper_case to_lower_case id_of inputs connection message h).0.service)
          (handle to_upper_case to_lower_case id_of inputs connection message h).1
  handle-IsPrivate to_upper_case to_lower_case id_of inputs message =
      Shape-IsPrivate inputs.new_id _
        (handle-Shape h connection to_upper_case to_lower_case id_of inputs message)

  -- So it is when a fleet has been read, and when a connection goes.
  pub fleet_found-IsPrivate :
      (answer : Option (Option SelectedFleet)) → AllPrivate (fleet_found connection answer h)
  unfolding fleet_found reject
  fleet_found-IsPrivate none = (tt, tt)
  fleet_found-IsPrivate (some none) = (tt, tt)
  fleet_found-IsPrivate (some (some fleet)) = settled-IsPrivate _ _
