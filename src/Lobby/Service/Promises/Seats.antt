-- ===== src/Lobby/Service/Promises/Seats.antt =====
-- Whom a command can seat.
use seg.Prelude.{
  ℕ, Bool, Option, none, some, ◌≡◌, ◌≢◌, ◌∙◌, ap, inl, inr, arith, get, has, ◌==◌, get-set,
  get-delete, Option-cases, number_key, text_key, ==_iff, Bool-cases,
}
use seg.Text.{Text}
use seg.Lobby.Settings.{LobbyPosition, validate_lobby_name, normalize_lobby_name}
use seg.Lobby.State.{AccountId, LobbyId, LobbySettings, SelectedFleet, LobbySettingsPatch}
use seg.Lobby.Service.Registry.{
  LobbyService, LobbyResult, ok, fail, thrown, MutableLobby, store, require_lobby,
}
use seg.Lobby.Service.Create.{
  Inputs, mint_code, new_lobby, cooling, create_named, create, register, join_lobby, join,
  join_by_code, join_by_id,
}
use seg.Lobby.Service.Seat.{
  change_member, set_position_in, set_position, select_fleet_in, select_fleet, set_ready_in,
  set_ready, resync_member, resync_in, resync_fleet,
}
use seg.Lobby.Service.Leave.{without_member, remove, leave, kick_from, kick, disconnect}
use seg.Lobby.Service.Promises.Leaving.{remove_left-membership}
use seg.Lobby.Service.Modify.{commit_settings, modify_in, modify}

-- Nobody but this account can have come to sit in a lobby.
abbrev pub SeatsOnly : AccountId → LobbyService → LobbyService → Type 0
SeatsOnly account s t =
    (a : AccountId) → a ≢ account → get a s.membership ≡ none → get a t.membership ≡ none

-- Nobody can.
abbrev pub SeatsNobody : LobbyService → LobbyService → Type 0
SeatsNobody s t = (a : AccountId) → get a s.membership ≡ none → get a t.membership ≡ none

module _ (s : LobbyService) (account : AccountId) where
  register-SeatsOnly :
      (lobby : MutableLobby) (now : ℕ) → SeatsOnly account s (register s lobby account now)
  unfolding register
  register-SeatsOnly lobby now a other e =
      get-set account a lobby.id s.membership ∙ ground (arith, ==_iff account a)

  create_named-SeatsOnly :
      (inputs : Inputs) (username name : Text)
      → SeatsOnly account s (create_named s inputs account username name).0
  unfolding create_named
  create_named-SeatsOnly inputs username name a other e =
      elim (Option-cases (validate_lobby_name name)) [
        | inr (problem, f) ↦ rw (f, create_named) e
        | inl f ↦ elim (Option-cases (mint_code s inputs.code)) [
          | inl g ↦ rw (f, g, create_named) e
          | inr (code, g) ↦
              rw (f, g, create_named)
                (register-SeatsOnly (new_lobby account username name code inputs) inputs.now a other
                  e)
        ]
      ]

  pub create-SeatsOnly :
      (inputs : Inputs) (username raw : Text)
      → SeatsOnly account s (create s inputs account username raw).0
  unfolding create
  create-SeatsOnly inputs username raw a other e = elim (Bool-cases (has account s.membership)) [
    | inl f ↦ rw (f, create) e
    | inr f ↦ elim (Bool-cases (cooling s inputs.now (get account s.last_created_at))) [
      | inl g ↦ rw (f, g, create) e
      | inr g ↦
          rw (f, g, create)
            (create_named-SeatsOnly inputs username (normalize_lobby_name raw) a other e)
    ]
  ]

  join-SeatsOnly :
      (now : ℕ) (username : Text) (id : LobbyId)
      → SeatsOnly account s (join s now account username id).0
  unfolding join join_lobby store
  join-SeatsOnly now username id a other e =
      ground (arith, ==_iff account a, get-set account a id s.membership)

  pub join_by_code-SeatsOnly :
      (now : ℕ) (username code : Text)
      → SeatsOnly account s (join_by_code s now account username code).0
  unfolding join_by_code
  join_by_code-SeatsOnly now username code a other e = elim (Option-cases (get code s.by_code)) [
    | inl f ↦ rw (f, join_by_code) e
    | inr (id, f) ↦ rw (f, join_by_code) (join-SeatsOnly now username id a other e)
  ]

  pub join_by_id-SeatsOnly :
      (now : ℕ) (username : Text) (id : LobbyId)
      → SeatsOnly account s (join_by_id s now account username id).0
  unfolding join_by_id
  join_by_id-SeatsOnly now username id a other e =
      ground (arith, join-SeatsOnly now username id a other e)

  pub set_position-SeatsOnly :
      (p : LobbyPosition) → SeatsOnly account s (set_position s account p).0
  unfolding set_position set_position_in change_member store
  set_position-SeatsOnly p a other e = ground arith

  pub select_fleet-SeatsNobody :
      (fleet : Option SelectedFleet) → SeatsNobody s (select_fleet s account fleet).0
  unfolding select_fleet select_fleet_in change_member store
  select_fleet-SeatsNobody fleet a e = ground arith

  pub resync_fleet-SeatsNobody :
      (fleet : Option SelectedFleet) (id : ℕ) → SeatsNobody s (resync_fleet s account fleet id).0
  unfolding resync_fleet resync_in resync_member store
  resync_fleet-SeatsNobody fleet id a e = ground arith

  pub select_fleet-SeatsOnly :
      (fleet : Option SelectedFleet) → SeatsOnly account s (select_fleet s account fleet).0
  select_fleet-SeatsOnly fleet a other e = select_fleet-SeatsNobody fleet a e

  pub set_ready-SeatsOnly : (ready : Bool) → SeatsOnly account s (set_ready s account ready).0
  unfolding set_ready set_ready_in change_member store
  set_ready-SeatsOnly ready a other e = ground arith

  commit_settings-SeatsOnly :
      (lobby : MutableLobby) (result : LobbyResult LobbySettings)
      → SeatsOnly account s (commit_settings s lobby result).0
  unfolding commit_settings store
  commit_settings-SeatsOnly lobby (ok next) a other e = e
  commit_settings-SeatsOnly lobby (fail code message) a other e = e
  commit_settings-SeatsOnly lobby thrown a other e = e

  pub modify-SeatsOnly :
      (patch : LobbySettingsPatch) → SeatsOnly account s (modify s account patch).0
  unfolding modify modify_in
  modify-SeatsOnly patch a other e = elim (Option-cases (require_lobby s account)) [
    | inl f ↦ rw (f, modify) e
    | inr (lobby, f) ↦ elim (Bool-cases (lobby.host_account_id == account)) [
      | inl g ↦ rw (f, modify) (rw (g, modify_in) (commit_settings-SeatsOnly lobby _ a other e))
      | inr g ↦ rw (f, modify) (rw (g, modify_in) e)
    ]
  ]

module _ (s : LobbyService) where
  remove-SeatsNobody :
      (lobby : MutableLobby) (account : AccountId) → SeatsNobody s (remove s lobby account).0
  unfolding remove
  remove-SeatsNobody lobby account a e =
      ap (get a) (remove_left-membership s lobby account (without_member account lobby.members))
      ∙ (get-delete account a s.membership ∙ ground arith)

  remove-unseats :
      (lobby : MutableLobby) (account : AccountId)
      → get account (remove s lobby account).0.membership ≡ none
  unfolding remove
  remove-unseats lobby account =
      ap (get account)
        (remove_left-membership s lobby account (without_member account lobby.members))
      ∙ (get-delete account account s.membership ∙ ground (arith, ==_iff account account))

  pub leave-SeatsNobody : (account : AccountId) → SeatsNobody s (leave s account).0
  unfolding leave
  leave-SeatsNobody account a e = elim (Option-cases (require_lobby s account)) [
    | inl f ↦ rw (f, leave) e
    | inr (lobby, f) ↦ rw (f, leave) (remove-SeatsNobody lobby account a e)
  ]

  pub kick-SeatsNobody : (host target : AccountId) → SeatsNobody s (kick s host target).0
  unfolding kick
  kick-SeatsNobody host target a e = elim (Option-cases (require_lobby s host)) [
    | inl f ↦ rw (f, kick) e
    | inr (lobby, f) ↦
        rw (f, kick) (unfold kick_from in ground (arith, remove-SeatsNobody lobby target a e))
  ]

  pub disconnect-SeatsNobody : (account : AccountId) → SeatsNobody s (disconnect s account).0
  unfolding disconnect
  disconnect-SeatsNobody account a e = elim (Option-cases (require_lobby s account)) [
    | inl f ↦ rw (f, disconnect) e
    | inr (lobby, f) ↦ rw (f, disconnect) (remove-SeatsNobody lobby account a e)
  ]

  -- Where the lobby of everyone who is seated is there, the one who goes is seated no more.
  pub disconnect-unseats :
      (account : AccountId)
      → ((id : LobbyId)
          → get account s.membership ≡ some id
          → (lobby : MutableLobby) × (get id s.lobbies ≡ some lobby))
      → get account (disconnect s account).0.membership ≡ none
  unfolding require_lobby disconnect
  disconnect-unseats account there = elim (Option-cases (get account s.membership)) [
    | inl e ↦ disconnect-SeatsNobody account account e
    | inr (id, e) ↦
        let (lobby, f) = there id e in
        let mine : require_lobby s account ≡ some lobby = rw (e, require_lobby) f in
        rw (mine, disconnect) (remove-unseats lobby account)
  ]
