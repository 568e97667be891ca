-- ===== src/Lobby/Handler/Refusals.antt =====
-- A rejection goes to the sender alone and comes with nothing else.
use seg.Prelude.{
  ℕ, Option, none, some, List, [], ◌∷◌, ◌≡◌, ◌⊎◌, inl, inr, refl, subst, sym, All, All-append,
  Option-cases, get, number_key,
}
use seg.Text.{Text}
use seg.Lobby.State.{AccountId, LobbyState, LobbyMember}
use seg.Lobby.Service.Registry.{LobbyService, LobbyResult, LobbyMutation, Message, ok, fail, thrown}
use seg.Lobby.Service.Create.{Inputs}
use seg.Lobby.Service.Promises.Errors.{IsAtomic}
use seg.Lobby.Wire.{
  LobbyClientMessage, LobbyServerMessage, lobby_state, list_result, exit, rejected, match_started,
  kicked, LobbyOp, op_leave, op_kick, RejectCode, service_code,
}
use seg.Realtime.Connections.{PlayerConnection, tell}
use seg.Lobby.Outbox.{
  LobbyHandler, Event, sent, entered, departed, fleet_lookup, fleet_reread, starting, raised,
  Outcome, serving, tell_account, reject, account_of, tell_members, broadcast, settle, enter,
  exit_left, kicked_out, settled, entering,
}
use seg.Lobby.Handler.{handle}
use seg.Lobby.Handler.Shape.{
  Shape, refused, settles, enters, exits, kicked_by, quiet, IsQuiet, handle-Shape,
}

-- The handler is as it was, and the sender is told of one rejection, and nobody of anything else.
abbrev pub IsRefusal : LobbyHandler → PlayerConnection → Outcome → Type 0
IsRefusal h connection out =
    (op : LobbyOp) × (code : RejectCode) × (message : Message) × (out
      ≡ (h, sent connection (rejected op code message) ∷ []))

abbrev pub NoRejection : Event → Type 0
NoRejection (sent to (rejected op code message)) = ⊥
NoRejection (sent to _) = Unit {0}
NoRejection _ = Unit {0}

abbrev RefusedOrNot : LobbyHandler → PlayerConnection → Outcome → Type 0
RefusedOrNot h connection out = IsRefusal h connection out ⊎ All NoRejection out.1

tell_account-clean :
    (h : LobbyHandler) (account : AccountId) (message : LobbyServerMessage)
    → ((connection : PlayerConnection) → NoRejection (sent connection message))
    → All NoRejection (tell_account h account message)
unfolding tell_account tell
tell_account-clean h account message clean = elim (Option-cases (get account h.connections)) [
  | inl e ↦ rw (e, tell_account, tell) tt
  | inr (connection, e) ↦ rw (e, tell_account, tell) (clean connection, tt)
]

tell_members-clean :
    (h : LobbyHandler) (state : LobbyState) (members : List LobbyMember)
    → All NoRejection (tell_members h state members)
unfolding tell_members
tell_members-clean h state [] = tt
tell_members-clean h state (member ∷ members) =
    All-append _ (tell_account h _ _) _ (tell_account-clean h (account_of member) _ (λ c. tt))
      (tell_members-clean h state members)

broadcast-clean :
    (h : LobbyHandler) (state : Option LobbyState) → All NoRejection (broadcast h state)
unfolding broadcast
broadcast-clean h none = tt
broadcast-clean h (some state) = tell_members-clean h state state.members

quiet_clean : (event : Event) → IsQuiet event → NoRejection event
quiet_clean (sent to (list_result lobbies online)) q = tt
quiet_clean (sent to (lobby_state state you)) q = tt
quiet_clean (sent to (exit reason)) q = tt
quiet_clean (sent to (rejected op code message)) q = absurd q
quiet_clean (sent to (match_started id)) q = tt
quiet_clean (entered account) q = tt
quiet_clean (departed account) q = tt
quiet_clean (fleet_lookup connection id) q = tt
quiet_clean (fleet_reread account id) q = tt
quiet_clean (starting connection lobby entries) q = tt
quiet_clean raised q = tt

quiet-clean : (events : List Event) → All IsQuiet events → All NoRejection events
quiet-clean [] q = tt
quiet-clean (event ∷ events) q = (quiet_clean event q.0, quiet-clean events q.1)

module _ (h : LobbyHandler) (connection : PlayerConnection) where
  settled-clean :
      (op : LobbyOp) (r : LobbyService × LobbyResult LobbyState)
      → IsAtomic h.service r
      → RefusedOrNot h connection (settled h connection op r)
  unfolding settled settle reject
  settled-clean op (s, ok state) atomic = inr (broadcast-clean (serving h s) (some state))
  settled-clean op (s, fail code message) atomic =
      inl (op, service_code code, message, rw atomic refl)
  settled-clean op (s, thrown) atomic = inr (tt, tt)

  entering-clean :
      (op : LobbyOp) (r : LobbyService × LobbyResult LobbyState)
      → IsAtomic h.service r
      → RefusedOrNot h connection (entering h connection op r)
  unfolding entering enter settle reject
  entering-clean op (s, ok state) atomic = inr (tt, broadcast-clean (serving h s) (some state))
  entering-clean op (s, fail code message) atomic =
      inl (op, service_code code, message, rw atomic refl)
  entering-clean op (s, thrown) atomic = inr (tt, tt)

  exit_left-clean :
      (r : LobbyService × LobbyResult LobbyMutation)
      → IsAtomic h.service r
      → RefusedOrNot h connection (serving h r.0, exit_left (serving h r.0) connection r.1)
  unfolding exit_left reject
  exit_left-clean (s, ok mutation) atomic =
      inr (tt, (tt, broadcast-clean (serving h s) mutation.state))
  exit_left-clean (s, fail code message) atomic =
      inl (op_leave, service_code code, message, rw atomic refl)
  exit_left-clean (s, thrown) atomic = inr (tt, tt)

  kicked_out-clean :
      (target : AccountId) (r : LobbyService × LobbyResult LobbyMutation)
      → IsAtomic h.service r
      → RefusedOrNot h connection (serving h r.0, kicked_out (serving h r.0) connection target r.1)
  unfolding kicked_out reject
  kicked_out-clean target (s, ok mutation) atomic = inr (
      All-append NoRejection (tell_account (serving h s) target (exit kicked)) _
        (tell_account-clean (serving h s) target (exit kicked) (λ c. tt))
        (broadcast-clean (serving h s) mutation.state))
  kicked_out-clean target (s, fail code message) atomic =
      inl (op_kick, service_code code, message, rw atomic refl)
  kicked_out-clean target (s, thrown) atomic = inr (tt, tt)

  Shape-clean :
      (new_id : ℕ) (out : Outcome) → Shape new_id h connection out → RefusedOrNot h connection out
  unfolding reject
  Shape-clean new_id out (refused op code message e) = inl (op, code, message, e)
  Shape-clean new_id out (settles op r atomic seats st e) =
      subst (RefusedOrNot h connection) (sym e) (settled-clean op r atomic)
  Shape-clean new_id out (enters op r atomic seats st e) =
      subst (RefusedOrNot h connection) (sym e) (entering-clean op r atomic)
  Shape-clean new_id out (exits r atomic seats st e) =
      subst (RefusedOrNot h connection) (sym e) (exit_left-clean r atomic)
  Shape-clean new_id out (kicked_by target r atomic seats st e) =
      subst (RefusedOrNot h connection) (sym e) (kicked_out-clean target r atomic)
  Shape-clean new_id out (quiet events q e) =
      subst (RefusedOrNot h connection) (sym e) (inr (quiet-clean events q))

  -- A message either is refused, which leaves the handler and its service as they were and tells
  -- the sender alone, one rejection and nothing else; or makes no rejection go to anyone.
  pub handle-refuses :
      (to_upper_case to_lower_case : Text → Text) (id_of : Text → ℕ) (inputs : Inputs)
      (message : LobbyClientMessage)
      → IsRefusal h connection
          (handle to_upper_case to_lower_case id_of inputs connection message h)
        ⊎ All NoRejection (handle to_upper_case to_lower_case id_of inputs connection message h).1
  handle-refuses to_upper_case to_lower_case id_of inputs message =
      Shape-clean inputs.new_id _
        (handle-Shape h connection to_upper_case to_lower_case id_of inputs message)
