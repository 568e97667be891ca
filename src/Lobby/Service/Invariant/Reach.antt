-- ===== src/Lobby/Service/Invariant/Reach.antt =====
-- The registry over time: each command is a step, and what can be reached keeps the invariant.
use seg.Prelude.{
  ℕ, Bool, false, Option, none, some, ◌≡◌, arith, get, has, has-eq_false, number_key, text_key,
  ◌==◌, inl, inr, Bool-cases, Option-cases,
}
use seg.Text.{Text}
use seg.Lobby.Settings.{LobbyPosition, normalize_lobby_name, validate_lobby_name}
use seg.Lobby.State.{AccountId, LobbyId, SelectedFleet, LobbySettingsPatch}
use seg.Lobby.Service.Registry.{LobbyService, MutableLobby, require_lobby, start_service}
use seg.Lobby.Service.Create.{
  Inputs, mint_code, new_lobby, new_member, create_named, create, first_open_position, join_lobby,
  join, join_by_code, join_by_id,
}
use seg.Lobby.Service.Seat.{set_position, select_fleet, set_ready, resync_fleet}
use seg.Lobby.Service.Leave.{leave, kick, disconnect}
use seg.Lobby.Service.Modify.{modify}
use seg.Lobby.Service.Valid.{has_account}
use seg.Lobby.Service.Valid.Seats.{new_lobby-IsValid}
use seg.Lobby.Service.Invariant.{Inv}
use seg.Lobby.Service.Invariant.Arrivals.{register-Inv, join-Inv}
use seg.Lobby.Service.Invariant.Commands.{
  start_service-Inv, mint_from-free, set_position_in-Inv, select_fleet_in-Inv, set_ready_in-Inv,
  resync_in-Inv, modify_in-Inv, kick_from-Inv, remove_mine-Inv,
}

new_lobby_accounts :
    (account : AccountId) (username name code : Text) (inputs : Inputs) (a : AccountId)
    → has_account a (new_lobby account username name code inputs).members ≡ (account == a)
unfolding new_lobby new_member
new_lobby_accounts account username name code inputs a = ground arith

module _ (s : LobbyService) (v : Inv s) where
  minted_free :
      (inputs : Inputs) (code : Text)
      → mint_code s inputs.code ≡ some code
      → has code s.by_code ≡ false
  unfolding mint_code
  minted_free inputs code h = mint_from-free s inputs.code 0 100 code h

  create_named-Inv :
      (inputs : Inputs) (account : AccountId) (username name : Text)
      → get inputs.new_id s.lobbies ≡ none
      → get account s.membership ≡ none
      → Inv (create_named s inputs account username name).0
  unfolding create_named new_lobby
  create_named-Inv inputs account username name fresh outside =
      elim (Option-cases (validate_lobby_name name)) [
        | inr (problem, e) ↦ rw (e, create_named) v
        | inl e ↦ elim (Option-cases (mint_code s inputs.code)) [
          | inl none_left ↦ rw (e, none_left, create_named) v
          | inr (code, minted) ↦
              rw (e, minted, create_named)
                (register-Inv s (new_lobby account username name code inputs) account inputs.now v
                  outside fresh (has-eq_false code s.by_code (minted_free inputs code minted))
                  (new_lobby_accounts account username name code inputs)
                  (new_lobby-IsValid account username name code inputs e))
        ]
      ]

  create-Inv :
      (inputs : Inputs) (account : AccountId) (username raw : Text)
      → get inputs.new_id s.lobbies ≡ none
      → Inv (create s inputs account username raw).0
  unfolding create
  create-Inv inputs account username raw fresh = elim (Bool-cases (has account s.membership)) [
    | inl e ↦ rw e v
    | inr e ↦ ground (
      arith,
      v,
      create_named-Inv inputs account username (normalize_lobby_name raw) fresh
          (has-eq_false account s.membership e),
    )
  ]

  join_lobby-Inv :
      (now : ℕ) (account : AccountId) (username : Text) (id : LobbyId) (lobby : MutableLobby)
      → get id s.lobbies ≡ some lobby
      → get account s.membership ≡ none
      → Inv (join_lobby s now account username id lobby).0
  unfolding join_lobby
  join_lobby-Inv now account username id lobby held outside =
      elim (Option-cases (first_open_position lobby)) [
        | inl e ↦ rw (e, join_lobby) v
        | inr (p, e) ↦
            rw (e, join_lobby) (join-Inv s id lobby account username p now v held outside e)
      ]

  join-command-Inv :
      (now : ℕ) (account : AccountId) (username : Text) (id : LobbyId)
      → Inv (join s now account username id).0
  unfolding join
  join-command-Inv now account username id = elim (Option-cases (get account s.membership)) [
    | inr (existing, e) ↦ rw (e, join) v
    | inl outside ↦ elim (Option-cases (get id s.lobbies)) [
      | inl e ↦ rw (outside, join) (rw (e, join) v)
      | inr (lobby, e) ↦
          rw (outside, join) (rw (e, join) (join_lobby-Inv now account username id lobby e outside))
    ]
  ]

  set_position-Inv : (account : AccountId) (p : LobbyPosition) → Inv (set_position s account p).0
  unfolding set_position
  set_position-Inv account p = elim (Option-cases (require_lobby s account)) [
    | inl e ↦ rw (e, set_position) v
    | inr (lobby, e) ↦ rw (e, set_position) (set_position_in-Inv s account lobby v e p)
  ]

  select_fleet-Inv :
      (account : AccountId) (fleet : Option SelectedFleet) → Inv (select_fleet s account fleet).0
  unfolding select_fleet
  select_fleet-Inv account fleet = elim (Option-cases (require_lobby s account)) [
    | inl e ↦ rw (e, select_fleet) v
    | inr (lobby, e) ↦ rw (e, select_fleet) (select_fleet_in-Inv s account lobby v e fleet)
  ]

  set_ready-Inv : (account : AccountId) (ready : Bool) → Inv (set_ready s account ready).0
  unfolding set_ready
  set_ready-Inv account ready = elim (Option-cases (require_lobby s account)) [
    | inl e ↦ rw (e, set_ready) v
    | inr (lobby, e) ↦ rw (e, set_ready) (set_ready_in-Inv s account lobby v e ready)
  ]

  resync_fleet-Inv :
      (account : AccountId) (fleet : Option SelectedFleet) (fleet_id : ℕ)
      → Inv (resync_fleet s account fleet fleet_id).0
  unfolding resync_fleet
  resync_fleet-Inv account fleet fleet_id = elim (Option-cases (require_lobby s account)) [
    | inl e ↦ rw (e, resync_fleet) v
    | inr (lobby, e) ↦ rw (e, resync_fleet) (resync_in-Inv s account lobby v e fleet fleet_id)
  ]

  leave-Inv : (account : AccountId) → Inv (leave s account).0
  unfolding leave
  leave-Inv account = elim (Option-cases (require_lobby s account)) [
    | inl e ↦ rw (e, leave) v
    | inr (lobby, e) ↦ rw (e, leave) (remove_mine-Inv s account lobby v e)
  ]

  kick-Inv : (account : AccountId) (target : AccountId) → Inv (kick s account target).0
  unfolding kick
  kick-Inv account target = elim (Option-cases (require_lobby s account)) [
    | inl e ↦ rw (e, kick) v
    | inr (lobby, e) ↦ rw (e, kick) (kick_from-Inv s account lobby v e target)
  ]

  modify-Inv : (account : AccountId) (patch : LobbySettingsPatch) → Inv (modify s account patch).0
  unfolding modify
  modify-Inv account patch = elim (Option-cases (require_lobby s account)) [
    | inl e ↦ rw (e, modify) v
    | inr (lobby, e) ↦ rw (e, modify) (modify_in-Inv s account lobby v e patch)
  ]

  disconnect-Inv : (account : AccountId) → Inv (disconnect s account).0
  unfolding disconnect
  disconnect-Inv account = elim (Option-cases (require_lobby s account)) [
    | inl e ↦ rw (e, disconnect) v
    | inr (lobby, e) ↦ rw (e, disconnect) (remove_mine-Inv s account lobby v e)
  ]

  join_by_code-Inv :
      (now : ℕ) (account : AccountId) (username code : Text)
      → Inv (join_by_code s now account username code).0
  unfolding join_by_code
  join_by_code-Inv now account username code = elim (Option-cases (get code s.by_code)) [
    | inl e ↦ rw (e, join_by_code) v
    | inr (id, e) ↦ rw (e, join_by_code) (join-command-Inv now account username id)
  ]

  join_by_id-Inv :
      (now : ℕ) (account : AccountId) (username : Text) (id : LobbyId)
      → Inv (join_by_id s now account username id).0
  unfolding join_by_id
  join_by_id-Inv now account username id = elim (Option-cases (get id s.lobbies)) [
    | inl e ↦ rw (e, join_by_id) v
    | inr (lobby, e) ↦
        rw (e, join_by_id) (ground (arith, v, join-command-Inv now account username id))
  ]

-- A command of some client, or a fleet write that reports to the lobby. An id that `randomUUID`
-- gives is not that of a lobby.
pub data Step (s : LobbyService) : LobbyService → Type 0 where
  creates :
      (inputs : Inputs) (account : AccountId) (username raw : Text)
      → get inputs.new_id s.lobbies ≡ none
      → Step s (create s inputs account username raw).0
  joins_by_code :
      (now : ℕ) (account : AccountId) (username code : Text)
      → Step s (join_by_code s now account username code).0
  joins_by_id :
      (now : ℕ) (account : AccountId) (username : Text) (id : LobbyId)
      → Step s (join_by_id s now account username id).0
  positions : (account : AccountId) (p : LobbyPosition) → Step s (set_position s account p).0
  selects :
      (account : AccountId) (fleet : Option SelectedFleet) → Step s (select_fleet s account fleet).0
  readies : (account : AccountId) (ready : Bool) → Step s (set_ready s account ready).0
  resyncs :
      (account : AccountId) (fleet : Option SelectedFleet) (fleet_id : ℕ)
      → Step s (resync_fleet s account fleet fleet_id).0
  leaves : (account : AccountId) → Step s (leave s account).0
  kicks : (host target : AccountId) → Step s (kick s host target).0
  modifies : (host : AccountId) (patch : LobbySettingsPatch) → Step s (modify s host patch).0
  disconnects : (account : AccountId) → Step s (disconnect s account).0

-- What a service can come to.
pub data Reach : LobbyService → Type 0 where
  started : (cooldown : Option ℕ) → Reach (start_service cooldown)
  next : {s t : LobbyService} → Reach s → Step s t → Reach t

pub Step-Inv : {s t : LobbyService} → Inv s → Step s t → Inv t
Step-Inv {s} v (creates inputs account username raw fresh) =
    create-Inv s v inputs account username raw fresh
Step-Inv {s} v (joins_by_code now account username code) =
    join_by_code-Inv s v now account username code
Step-Inv {s} v (joins_by_id now account username id) = join_by_id-Inv s v now account username id
Step-Inv {s} v (positions account p) = set_position-Inv s v account p
Step-Inv {s} v (selects account fleet) = select_fleet-Inv s v account fleet
Step-Inv {s} v (readies account ready) = set_ready-Inv s v account ready
Step-Inv {s} v (resyncs account fleet fleet_id) = resync_fleet-Inv s v account fleet fleet_id
Step-Inv {s} v (leaves account) = leave-Inv s v account
Step-Inv {s} v (kicks host target) = kick-Inv s v host target
Step-Inv {s} v (modifies host patch) = modify-Inv s v host patch
Step-Inv {s} v (disconnects account) = disconnect-Inv s v account

-- After any commands, in any order and whether they succeed or fail, the three maps of the registry
-- agree and every lobby is well formed, as long as the ids of new lobbies are fresh.
pub Reach-Inv : {s : LobbyService} → Reach s → Inv s
Reach-Inv (started cooldown) = start_service-Inv cooldown
Reach-Inv (next r step) = Step-Inv (Reach-Inv r) step
