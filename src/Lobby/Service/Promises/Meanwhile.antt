-- ===== src/Lobby/Service/Promises/Meanwhile.antt =====
-- What happens between two creations of an account: whatever anyone does, the registry remembers the
-- time of the first.
use seg.Prelude.{
  ℕ, Bool, false, Option, List, [], ◌∷◌, ◌≡◌, refl, ◌∙◌, ap, inl, inr, arith, get, get-set,
  Bool-cases, Option-cases, number_key, text_key, ==_iff, ◌==◌, has,
}
use seg.Text.{Text}
use seg.Lobby.Settings.{LobbyPosition, validate_lobby_name, normalize_lobby_name}
use seg.Lobby.State.{AccountId, LobbyId, SelectedFleet, LobbySettings, LobbySettingsPatch}
use seg.Lobby.Service.Registry.{
  LobbyService, LobbyResult, ok, fail, thrown, MutableLobby, MutableMember, store, require_lobby,
}
use seg.Lobby.Service.Create.{
  Inputs, mint_code, register, cooling, create_named, create, join_lobby, join, join_by_code,
  join_by_id,
}
use seg.Lobby.Service.Seat.{
  change_member, set_position_in, set_position, select_fleet_in, select_fleet, set_ready_in,
  set_ready, resync_member, resync_in, resync_fleet,
}
use seg.Lobby.Service.Leave.{
  without_member, remove_left, remove, leave, kick_from, kick, disconnect,
}
use seg.Lobby.Service.Modify.{modify, modify_in, commit_settings, patch_settings}
use seg.Lobby.Service.Invariant.Reach.{
  Step, creates, joins_by_code, joins_by_id, positions, selects, readies, resyncs, leaves, kicks,
  modifies, disconnects,
}

-- The times of the last creations, and the cooldown.
abbrev pub SameTimes : LobbyService → LobbyService → Type 0
SameTimes s t =
    (t.last_created_at ≡ s.last_created_at) × (t.create_cooldown_ms ≡ s.create_cooldown_ms)

remove_left-SameTimes :
    (s : LobbyService) (lobby : MutableLobby) (account : AccountId) (left : List MutableMember)
    → SameTimes s (remove_left s lobby account left).0
unfolding remove_left store
remove_left-SameTimes s lobby account [] = (refl, refl)
remove_left-SameTimes s lobby account (m ∷ ms) = (refl, refl)

module _ (s : LobbyService) where
  join-SameTimes :
      (now : ℕ) (account : AccountId) (username : Text) (id : LobbyId)
      → SameTimes s (join s now account username id).0
  unfolding join join_lobby store
  join-SameTimes now account username id = ground arith

  join_by_code-SameTimes :
      (now : ℕ) (account : AccountId) (username code : Text)
      → SameTimes s (join_by_code s now account username code).0
  unfolding join_by_code
  join_by_code-SameTimes now account username code = elim (Option-cases (get code s.by_code)) [
    | inl e ↦ rw (e, join_by_code) (refl, refl)
    | inr (id, e) ↦ rw (e, join_by_code) (join-SameTimes now account username id)
  ]

  join_by_id-SameTimes :
      (now : ℕ) (account : AccountId) (username : Text) (id : LobbyId)
      → SameTimes s (join_by_id s now account username id).0
  unfolding join_by_id
  join_by_id-SameTimes now account username id =
      ground (arith, join-SameTimes now account username id)

  set_position-SameTimes :
      (account : AccountId) (p : LobbyPosition) → SameTimes s (set_position s account p).0
  unfolding set_position set_position_in change_member store
  set_position-SameTimes account p = ground arith

  select_fleet-SameTimes :
      (account : AccountId) (fleet : Option SelectedFleet)
      → SameTimes s (select_fleet s account fleet).0
  unfolding select_fleet select_fleet_in change_member store
  select_fleet-SameTimes account fleet = ground arith

  set_ready-SameTimes :
      (account : AccountId) (ready : Bool) → SameTimes s (set_ready s account ready).0
  unfolding set_ready set_ready_in change_member store
  set_ready-SameTimes account ready = ground arith

  resync_fleet-SameTimes :
      (account : AccountId) (fleet : Option SelectedFleet) (fleet_id : ℕ)
      → SameTimes s (resync_fleet s account fleet fleet_id).0
  unfolding resync_fleet resync_in resync_member store
  resync_fleet-SameTimes account fleet fleet_id = ground arith

  remove-SameTimes :
      (lobby : MutableLobby) (account : AccountId) → SameTimes s (remove s lobby account).0
  unfolding remove
  remove-SameTimes lobby account =
      remove_left-SameTimes s lobby account (without_member account lobby.members)

  leave-SameTimes : (account : AccountId) → SameTimes s (leave s account).0
  unfolding leave
  leave-SameTimes account = elim (Option-cases (require_lobby s account)) [
    | inl e ↦ rw (e, leave) (refl, refl)
    | inr (lobby, e) ↦ rw (e, leave) (remove-SameTimes lobby account)
  ]

  disconnect-SameTimes : (account : AccountId) → SameTimes s (disconnect s account).0
  unfolding disconnect
  disconnect-SameTimes account = elim (Option-cases (require_lobby s account)) [
    | inl e ↦ rw (e, disconnect) (refl, refl)
    | inr (lobby, e) ↦ rw (e, disconnect) (remove-SameTimes lobby account)
  ]

  kick-SameTimes : (host target : AccountId) → SameTimes s (kick s host target).0
  unfolding kick kick_from
  kick-SameTimes host target = elim (Option-cases (require_lobby s host)) [
    | inl e ↦ rw (e, kick) (refl, refl)
    | inr (lobby, e) ↦ rw (e, kick) (ground (arith, remove-SameTimes lobby target))
  ]

  commit-SameTimes :
      (lobby : MutableLobby) (result : LobbyResult LobbySettings)
      → SameTimes s (commit_settings s lobby result).0
  unfolding commit_settings store
  commit-SameTimes lobby (ok next) = (refl, refl)
  commit-SameTimes lobby (fail code message) = (refl, refl)
  commit-SameTimes lobby thrown = (refl, refl)

  modify-SameTimes :
      (host : AccountId) (patch : LobbySettingsPatch) → SameTimes s (modify s host patch).0
  unfolding modify modify_in
  modify-SameTimes host patch = elim (Option-cases (require_lobby s host)) [
    | inl e ↦ rw (e, modify) (refl, refl)
    | inr (lobby, e) ↦
        rw (e, modify)
          (ground
            (arith, commit-SameTimes lobby (patch_settings lobby.members patch lobby.settings)))
  ]

-- What the registry remembers of one account.
abbrev pub SameTime : AccountId → LobbyService → LobbyService → Type 0
SameTime account s t =
    (get account t.last_created_at ≡ get account s.last_created_at)
    × (t.create_cooldown_ms ≡ s.create_cooldown_ms)

abbrev pub IsRefused : {A : Type 0} → LobbyResult A → Type 0
IsRefused (ok _) = ⊥
IsRefused _ = Unit

create_named-refused :
    (s : LobbyService) (inputs : Inputs) (account : AccountId) (username name : Text)
    → IsRefused (create_named s inputs account username name).1
    → (create_named s inputs account username name).0 ≡ s
unfolding create_named
create_named-refused s inputs account username name refused =
    elim (Option-cases (validate_lobby_name name)) [
      | inr (problem, e) ↦ rw (e, create_named) refl
      | inl e ↦ elim (Option-cases (mint_code s inputs.code)) [
        | inl f ↦ rw (e, f, create_named) refl
        | inr (code, f) ↦ absurd (rw (e, f, create_named) at refused)
      ]
    ]

create-refused :
    (s : LobbyService) (inputs : Inputs) (account : AccountId) (username raw : Text)
    → IsRefused (create s inputs account username raw).1
    → (create s inputs account username raw).0 ≡ s
unfolding create
create-refused s inputs account username raw refused =
    elim (Bool-cases (has account s.membership)) [
      | inl e ↦ rw (e, create) refl
      | inr e ↦ elim (Bool-cases (cooling s inputs.now (get account s.last_created_at))) [
        | inl f ↦ rw (e, f, create) refl
        | inr f ↦
            rw (e, f, create)
              (create_named-refused s inputs account username (normalize_lobby_name raw)
                (rw (e, f, create) at refused))
      ]
    ]

create-other :
    (s : LobbyService) (inputs : Inputs) (a account : AccountId) (username raw : Text)
    → (a == account) ≡ false
    → SameTime account s (create s inputs a username raw).0
unfolding create create_named register
create-other s inputs a account username raw apart =
    ground (arith, get-set a account inputs.now s.last_created_at)

create-SameTime :
    (s : LobbyService) (inputs : Inputs) (a account : AccountId) (username raw : Text)
    → (a ≡ account → IsRefused (create s inputs a username raw).1)
    → SameTime account s (create s inputs a username raw).0
create-SameTime s inputs a account username raw refused = elim (Bool-cases (a == account)) [
  | inl e ↦
      let same = create-refused s inputs a username raw (refused ((==_iff a account).0 e)) in
      (ap (λ u. get account u.last_created_at) same, ap (λ u. u.create_cooldown_ms) same)
  | inr e ↦ create-other s inputs a account username raw e
]

-- No creation of the account succeeds in the step.
abbrev pub Spares : AccountId → {s t : LobbyService} → Step s t → Type 0
Spares account {s} (creates inputs a username raw fresh) =
    a ≡ account → IsRefused (create s inputs a username raw).1
Spares account _ = Unit

-- The registry after any steps of anyone in which no creation of the account succeeds.
pub data Meanwhile (account : AccountId) (t : LobbyService) : LobbyService → Type 0 where
  at_once : Meanwhile account t t
  later :
      {s u : LobbyService}
      → Meanwhile account t s
      → (step : Step s u) → Spares account step
      → Meanwhile account t u

one_of : (account : AccountId) (s t : LobbyService) → SameTimes s t → SameTime account s t
one_of account s t (times, cooldown) = (ap (get account) times, cooldown)

Step-SameTime :
    (account : AccountId) {s t : LobbyService} (step : Step s t)
    → Spares account step
    → SameTime account s t
Step-SameTime account {s} (creates inputs a username raw fresh) spares =
    create-SameTime s inputs a account username raw spares
Step-SameTime account {s} (joins_by_code now a username code) spares =
    one_of account s (join_by_code s now a username code).0
      (join_by_code-SameTimes s now a username code)
Step-SameTime account {s} (joins_by_id now a username id) spares =
    one_of account s (join_by_id s now a username id).0 (join_by_id-SameTimes s now a username id)
Step-SameTime account {s} (positions a p) spares =
    one_of account s (set_position s a p).0 (set_position-SameTimes s a p)
Step-SameTime account {s} (selects a fleet) spares =
    one_of account s (select_fleet s a fleet).0 (select_fleet-SameTimes s a fleet)
Step-SameTime account {s} (readies a ready) spares =
    one_of account s (set_ready s a ready).0 (set_ready-SameTimes s a ready)
Step-SameTime account {s} (resyncs a fleet fleet_id) spares =
    one_of account s (resync_fleet s a fleet fleet_id).0 (resync_fleet-SameTimes s a fleet fleet_id)
Step-SameTime account {s} (leaves a) spares = one_of account s (leave s a).0 (leave-SameTimes s a)
Step-SameTime account {s} (kicks host target) spares =
    one_of account s (kick s host target).0 (kick-SameTimes s host target)
Step-SameTime account {s} (modifies host patch) spares =
    one_of account s (modify s host patch).0 (modify-SameTimes s host patch)
Step-SameTime account {s} (disconnects a) spares =
    one_of account s (disconnect s a).0 (disconnect-SameTimes s a)

pub Meanwhile-SameTime :
    (account : AccountId) {t u : LobbyService} → Meanwhile account t u → SameTime account t u
Meanwhile-SameTime account at_once = (refl, refl)
Meanwhile-SameTime account (later before step spares) =
    let (time, cooldown) = Meanwhile-SameTime account before in
    let (time', cooldown') = Step-SameTime account step spares in
    (time' ∙ time, cooldown' ∙ cooldown)
