-- ===== src/Lobby/Service/Promises/Errors.antt =====
-- A command that fails leaves the registry as it was.
use seg.Prelude.{
  ℕ, Bool, Option, ◌≡◌, refl, arith, get, inl, inr, Option-cases, number_key, text_key,
}
use seg.Text.{Text}
use seg.Lobby.Settings.{LobbyPosition}
use seg.Lobby.State.{AccountId, LobbyId, SelectedFleet, LobbySettings, LobbySettingsPatch}
use seg.Lobby.Service.Registry.{
  LobbyService, MutableLobby, LobbyResult, ok, fail, thrown, require_lobby,
}
use seg.Lobby.Service.Create.{
  Inputs, create_named, create, join_lobby, join, join_by_code, join_by_id,
}
use seg.Lobby.Service.Seat.{
  change_member, set_position_in, set_position, select_fleet_in, select_fleet, set_ready_in,
  set_ready,
}
use seg.Lobby.Service.Leave.{leave, kick_from, kick}
use seg.Lobby.Service.Modify.{patch_settings, commit_settings, modify_in, modify}

-- Only a success may have changed the registry.
abbrev Settled : {A : Type 0} → LobbyService → LobbyService → LobbyResult A → Type 0
Settled s t (ok a) = Unit {0}
Settled s t (fail code message) = t ≡ s
Settled s t thrown = t ≡ s

abbrev pub IsAtomic : {A : Type 0} → LobbyService → LobbyService × LobbyResult A → Type 0
IsAtomic s r = Settled s r.0 r.1

module _ (s : LobbyService) where
  join-IsAtomic :
      (now : ℕ) (account : AccountId) (username : Text) (id : LobbyId)
      → IsAtomic s (join s now account username id)
  unfolding join join_lobby
  join-IsAtomic now account username id = ground arith

  join_by_code-IsAtomic :
      (now : ℕ) (account : AccountId) (username code : Text)
      → IsAtomic s (join_by_code s now account username code)
  unfolding join_by_code
  join_by_code-IsAtomic now account username code = elim (Option-cases (get code s.by_code)) [
    | inl e ↦ rw (e, join_by_code) refl
    | inr (id, e) ↦ rw (e, join_by_code) (join-IsAtomic now account username id)
  ]

  join_by_id-IsAtomic :
      (now : ℕ) (account : AccountId) (username : Text) (id : LobbyId)
      → IsAtomic s (join_by_id s now account username id)
  unfolding join_by_id
  join_by_id-IsAtomic now account username id =
      ground (arith, join-IsAtomic now account username id)

  create-IsAtomic :
      (inputs : Inputs) (account : AccountId) (username raw : Text)
      → IsAtomic s (create s inputs account username raw)
  unfolding create create_named
  create-IsAtomic inputs account username raw = ground arith

  set_position-IsAtomic :
      (account : AccountId) (p : LobbyPosition) → IsAtomic s (set_position s account p)
  unfolding set_position set_position_in change_member
  set_position-IsAtomic account p = ground arith

  select_fleet-IsAtomic :
      (account : AccountId) (fleet : Option SelectedFleet)
      → IsAtomic s (select_fleet s account fleet)
  unfolding select_fleet select_fleet_in change_member
  select_fleet-IsAtomic account fleet = ground arith

  set_ready-IsAtomic : (account : AccountId) (ready : Bool) → IsAtomic s (set_ready s account ready)
  unfolding set_ready set_ready_in change_member
  set_ready-IsAtomic account ready = ground arith

  leave-IsAtomic : (account : AccountId) → IsAtomic s (leave s account)
  unfolding leave
  leave-IsAtomic account = ground arith

  kick-IsAtomic : (host target : AccountId) → IsAtomic s (kick s host target)
  unfolding kick kick_from
  kick-IsAtomic host target = ground arith

  commit_settings-IsAtomic :
      (lobby : MutableLobby) (r : LobbyResult LobbySettings)
      → IsAtomic s (commit_settings s lobby r)
  unfolding commit_settings
  commit_settings-IsAtomic lobby (ok next) = tt
  commit_settings-IsAtomic lobby (fail code message) = refl
  commit_settings-IsAtomic lobby thrown = refl

  modify-IsAtomic :
      (host : AccountId) (patch : LobbySettingsPatch) → IsAtomic s (modify s host patch)
  unfolding modify modify_in
  modify-IsAtomic host patch = elim (Option-cases (require_lobby s host)) [
    | inl e ↦ rw (e, modify) refl
    | inr (lobby, e) ↦
        rw (e, modify)
          (ground (
            arith,
            commit_settings-IsAtomic lobby (patch_settings lobby.members patch lobby.settings),
          ))
  ]

-- Each command that answers with a failure, or throws, has left the whole registry unchanged; a
-- patch of the settings of which one part is refused changes no setting.
pub record CommandsAreAtomic (s : LobbyService) : Type 0 where
  pub creating :
      (inputs : Inputs) (account : AccountId) (username raw : Text)
      → IsAtomic s (create s inputs account username raw)
  pub joining :
      (now : ℕ) (account : AccountId) (username code : Text) (id : LobbyId)
      → IsAtomic s (join_by_code s now account username code)
        × IsAtomic s (join_by_id s now account username id)
  pub seating :
      (account : AccountId) (p : LobbyPosition) (fleet : Option SelectedFleet) (ready : Bool)
      → IsAtomic s (set_position s account p)
        × IsAtomic s (select_fleet s account fleet)
        × IsAtomic s (set_ready s account ready)
  pub leaving :
      (account target : AccountId)
      → IsAtomic s (leave s account) × IsAtomic s (kick s account target)
  pub modifying : (host : AccountId) (patch : LobbySettingsPatch) → IsAtomic s (modify s host patch)

-- Each command that answers with a failure, or throws, has left the whole registry unchanged.
pub commands_are_atomic : (s : LobbyService) → CommandsAreAtomic s
commands_are_atomic s = record {
  creating = create-IsAtomic s;
  joining = λ now account username code id. (
    join_by_code-IsAtomic s now account username code,
    join_by_id-IsAtomic s now account username id,
  );
  seating = λ account p fleet ready. (
    set_position-IsAtomic s account p,
    select_fleet-IsAtomic s account fleet,
    set_ready-IsAtomic s account ready,
  );
  leaving = λ account target. (leave-IsAtomic s account, kick-IsAtomic s account target);
  modifying = modify-IsAtomic s;
}
