-- ===== src/Lobby/Handler/Shape.antt =====
-- What a message can come to: a refusal, the outcome of one command of the service, or a question
-- to the outside.
use seg.Prelude.{
  ℕ, true, Option, none, some, List, [], ◌∷◌, ◌≡◌, inl, inr, refl, All, Bool-cases, Option-cases,
  get, number_key, same_text,
}
use seg.Text.{Text, text}
use seg.Lobby.JoinCode.{validate_join_code, normalize_join_code}
use seg.Lobby.Settings.{team1, lobby_position_of}
use seg.Lobby.State.{AccountId, LobbyState}
use seg.Lobby.Service.Registry.{
  LobbyService, LobbyResult, LobbyMutation, Message, ok, fail, thrown, roster,
}
use seg.Lobby.Service.Create.{Inputs}
use seg.Lobby.Service.Leave
use seg.Lobby.Service.Promises.Errors.{IsAtomic, commands_are_atomic}
use seg.Lobby.Service.Promises.Seats.{
  SeatsOnly, SeatsNobody, create-SeatsOnly, join_by_code-SeatsOnly, join_by_id-SeatsOnly,
  set_position-SeatsOnly, select_fleet-SeatsOnly, set_ready-SeatsOnly, modify-SeatsOnly,
  leave-SeatsNobody, kick-SeatsNobody,
}
use seg.Lobby.Service.Invariant.Reach.{
  Step, creates, joins_by_code, joins_by_id, positions, selects, readies, leaves, kicks, modifies,
}
use seg.Lobby.Wire.{
  Wire, null, boolean, string, object, Fields, LobbyClientMessage, create, join, set_position,
  leave, kick, modify, list, select_fleet, set_ready, start, list_result, some_id, LobbyOp,
  RejectCode, op_create, op_join, op_set_position, op_modify, op_select_fleet, op_set_ready,
  read_patch,
}
use seg.Realtime.Connections.{PlayerConnection}
use seg.Lobby.Outbox.{
  LobbyHandler, Event, sent, fleet_lookup, starting, raised, Outcome, serving, reject, exit_left,
  kicked_out, settled, entering,
}
use seg.Lobby.Handler.{
  join_by_typed, join_with_code, join_with_id, join_by, join_target, position_named, kick_target,
  modify_by, ready_to, choose_fleet, select_by, start_lobby, handle,
}

-- Neither a lobby nor a rejection is sent.
abbrev pub IsQuiet : Event → Type 0
IsQuiet (sent to (list_result lobbies online)) = Unit {0}
IsQuiet (sent to _) = ⊥
IsQuiet _ = Unit {0}

pub data Shape (new_id : ℕ) (h : LobbyHandler) (connection : PlayerConnection) (out : Outcome)
    : Type 0 where
  refused :
      (op : LobbyOp) (code : RejectCode) (message : Message)
      → out ≡ (h, reject connection op code message)
      → Shape new_id h connection out
  settles :
      (op : LobbyOp) (r : LobbyService × LobbyResult LobbyState)
      → IsAtomic h.service r
      → SeatsOnly connection.account_id h.service r.0
      → Step h.service r.0
      → out ≡ settled h connection op r
      → Shape new_id h connection out
  enters :
      (op : LobbyOp) (r : LobbyService × LobbyResult LobbyState)
      → IsAtomic h.service r
      → SeatsOnly connection.account_id h.service r.0
      → (get new_id h.service.lobbies ≡ none → Step h.service r.0)
      → out ≡ entering h connection op r
      → Shape new_id h connection out
  exits :
      (r : LobbyService × LobbyResult LobbyMutation)
      → IsAtomic h.service r
      → SeatsNobody h.service r.0
      → Step h.service r.0
      → out ≡ (serving h r.0, exit_left (serving h r.0) connection r.1)
      → Shape new_id h connection out
  kicked_by :
      (target : AccountId) (r : LobbyService × LobbyResult LobbyMutation)
      → IsAtomic h.service r
      → SeatsNobody h.service r.0
      → Step h.service r.0
      → out ≡ (serving h r.0, kicked_out (serving h r.0) connection target r.1)
      → Shape new_id h connection out
  quiet :
      (events : List Event) → All IsQuiet events → out ≡ (h, events) → Shape new_id h connection out

module _ (h : LobbyHandler) (connection : PlayerConnection) where
  select_by-Shape :
      (new_id : ℕ) (id : Option Text) → Shape new_id h connection (select_by connection id h)
  unfolding select_by
  select_by-Shape new_id none = refused _ _ _ refl
  select_by-Shape new_id (some id) = elim (Bool-cases h.reads_fleets) [
    | inl e ↦ rw (e, select_by) (quiet (fleet_lookup connection id ∷ []) (tt, tt) refl)
    | inr e ↦ rw (e, select_by) (refused _ _ _ refl)
  ]

  choose_fleet-Shape :
      (new_id : ℕ) (fleet_id : Wire)
      → Shape new_id h connection (choose_fleet connection fleet_id h)
  unfolding choose_fleet
  choose_fleet-Shape new_id null =
      settles op_select_fleet _
        ((commands_are_atomic h.service).seating connection.account_id team1 none true).1
        (select_fleet-SeatsOnly h.service connection.account_id none)
        (selects connection.account_id none) refl
  choose_fleet-Shape new_id fleet_id = select_by-Shape new_id _

  start_lobby-Shape :
      (new_id : ℕ) (result : LobbyResult LobbyState)
      → Shape new_id h connection (start_lobby connection result h)
  unfolding start_lobby
  start_lobby-Shape new_id (ok lobby) = elim (Bool-cases h.starts_matches) [
    | inl e ↦
        rw (e, start_lobby)
          (quiet (starting connection lobby (roster h.service lobby.id) ∷ []) (tt, tt) refl)
    | inr e ↦ rw (e, start_lobby) (refused _ _ _ refl)
  ]
  start_lobby-Shape new_id (fail code message) = refused _ _ _ refl
  start_lobby-Shape new_id thrown = quiet (raised ∷ []) (tt, tt) refl

  module _ (to_upper_case to_lower_case : Text → Text) (id_of : Text → ℕ) (inputs : Inputs) where
    join_by_typed-Shape :
        (raw : Text)
        → Shape inputs.new_id h connection
            (join_by_typed to_upper_case to_lower_case id_of inputs connection raw h)
    unfolding join_by_typed
    join_by_typed-Shape raw =
        elim (Option-cases (validate_join_code (normalize_join_code to_upper_case raw))) [
          | inl e ↦
              rw (e, join_by_typed)
                (enters op_join _
                  ((commands_are_atomic h.service).joining inputs.now connection.account_id
                    connection.username _ 0).0
                  (join_by_code-SeatsOnly h.service connection.account_id inputs.now
                    connection.username _)
                  (λ _. joins_by_code inputs.now connection.account_id connection.username _) refl)
          | inr (problem, e) ↦ rw (e, join_by_typed) (refused _ _ _ refl)
        ]

    join_with_code-Shape :
        (code : Wire)
        → Shape inputs.new_id h connection
            (join_with_code to_upper_case to_lower_case id_of inputs connection code h)
    unfolding join_with_code
    join_with_code-Shape (string raw) = join_by_typed-Shape raw
    join_with_code-Shape _ = refused _ _ _ refl

    join_with_id-Shape :
        (id : Option Text)
        → Shape inputs.new_id h connection
            (join_with_id to_upper_case to_lower_case id_of inputs connection id h)
    unfolding join_with_id
    join_with_id-Shape none = refused _ _ _ refl
    join_with_id-Shape (some id) =
        enters op_join _
          ((commands_are_atomic h.service).joining inputs.now connection.account_id
            connection.username [] (id_of id)).1
          (join_by_id-SeatsOnly h.service connection.account_id inputs.now connection.username
            (id_of id))
          (λ _. joins_by_id inputs.now connection.account_id connection.username (id_of id)) refl

    join_by-Shape :
        (by : Wire) (target : Fields)
        → Shape inputs.new_id h connection
            (join_by to_upper_case to_lower_case id_of inputs connection by target h)
    unfolding join_by
    join_by-Shape (string by) target = elim (Bool-cases (same_text by (text "code"))) [
      | inl e ↦ rw (e, join_by) (join_with_code-Shape _)
      | inr e ↦ elim (Bool-cases (same_text by (text "id"))) [
        | inl f ↦ rw (e, f, join_by) (join_with_id-Shape _)
        | inr f ↦ rw (e, f, join_by) (refused _ _ _ refl)
      ]
    ]
    join_by-Shape _ target = refused _ _ _ refl

    join_target-Shape :
        (target : Wire)
        → Shape inputs.new_id h connection
            (join_target to_upper_case to_lower_case id_of inputs connection target h)
    unfolding join_target
    join_target-Shape (object target) = join_by-Shape _ target
    join_target-Shape _ = refused _ _ _ refl

    position_named-Shape :
        (position : Wire)
        → Shape inputs.new_id h connection
            (position_named to_upper_case to_lower_case id_of connection position h)
    unfolding position_named
    position_named-Shape (string position) = elim (Option-cases (lobby_position_of position)) [
      | inl e ↦ rw (e, position_named) (refused _ _ _ refl)
      | inr (p, e) ↦
          rw (e, position_named)
            (settles op_set_position _
              ((commands_are_atomic h.service).seating connection.account_id p none true).0
              (set_position-SeatsOnly h.service connection.account_id p)
              (positions connection.account_id p) refl)
    ]
    position_named-Shape _ = refused _ _ _ refl

    kick_target-Shape :
        (id : Option Text)
        → Shape inputs.new_id h connection
            (kick_target to_upper_case to_lower_case id_of connection id h)
    unfolding kick_target
    kick_target-Shape none = refused _ _ _ refl
    kick_target-Shape (some id) =
        kicked_by (id_of id) (Leave.kick h.service connection.account_id (id_of id))
          ((commands_are_atomic h.service).leaving connection.account_id (id_of id)).1
          (kick-SeatsNobody h.service connection.account_id (id_of id))
          (kicks connection.account_id (id_of id)) refl

    modify_by-Shape :
        (patch : Wire)
        → Shape inputs.new_id h connection
            (modify_by to_upper_case to_lower_case id_of connection patch h)
    unfolding modify_by
    modify_by-Shape patch = elim (Option-cases (read_patch patch)) [
      | inl e ↦ rw (e, modify_by) (refused _ _ _ refl)
      | inr (p, e) ↦
          rw (e, modify_by)
            (settles op_modify _ ((commands_are_atomic h.service).modifying connection.account_id p)
              (modify-SeatsOnly h.service connection.account_id p)
              (modifies connection.account_id p) refl)
    ]

    ready_to-Shape :
        (ready : Wire)
        → Shape inputs.new_id h connection
            (ready_to to_upper_case to_lower_case id_of connection ready h)
    unfolding ready_to
    ready_to-Shape (boolean ready) =
        settles op_set_ready _
          ((commands_are_atomic h.service).seating connection.account_id team1 none ready).2
          (set_ready-SeatsOnly h.service connection.account_id ready)
          (readies connection.account_id ready) refl
    ready_to-Shape _ = refused _ _ _ refl

    pub handle-Shape :
        (message : LobbyClientMessage)
        → Shape inputs.new_id h connection
            (handle to_upper_case to_lower_case id_of inputs connection message h)
    unfolding handle
    handle-Shape (create name) =
        enters op_create _
          ((commands_are_atomic h.service).creating inputs connection.account_id connection.username
            _)
          (create-SeatsOnly h.service connection.account_id inputs connection.username _)
          (λ fresh. creates inputs connection.account_id connection.username _ fresh) refl
    handle-Shape (join target) = join_target-Shape target
    handle-Shape (set_position position) = position_named-Shape position
    handle-Shape leave =
        exits (Leave.leave h.service connection.account_id)
          ((commands_are_atomic h.service).leaving connection.account_id 0).0
          (leave-SeatsNobody h.service connection.account_id) (leaves connection.account_id) refl
    handle-Shape (kick account_id) = kick_target-Shape (some_id account_id)
    handle-Shape (modify patch) = modify_by-Shape patch
    handle-Shape (list wanted) = quiet _ (tt, tt) refl
    handle-Shape (select_fleet fleet_id) = choose_fleet-Shape inputs.new_id fleet_id
    handle-Shape (set_ready ready) = ready_to-Shape ready
    handle-Shape start = start_lobby-Shape inputs.new_id _
