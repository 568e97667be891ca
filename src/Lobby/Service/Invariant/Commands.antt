-- ===== src/Lobby/Service/Invariant/Commands.antt =====
-- Every command keeps the invariant.
use seg.Prelude.{
  ℕ, zero, suc, ◌+◌, Bool, false, ◌&&◌, not, Option, none, some, ◌≡◌, refl, arith, get, has,
  number_key, text_key, ◌==◌, inl, inr, Bool-cases, Option-cases,
}
use seg.Text.{Text}
use seg.Lobby.Settings.{LobbyPosition, spectator, same_position}
use seg.Lobby.State.{AccountId, LobbyId, SelectedFleet, LobbySettings, LobbySettingsPatch}
use seg.Lobby.Service.Registry.{
  LobbyService, MutableLobby, MutableMember, account_of, store, require_lobby, find_member,
  update_member, is_some, start_service, LobbyResult, ok, fail, thrown,
}
use seg.Lobby.Service.Create.{mint_from}
use seg.Lobby.Service.Seat.{
  change_member, move_to, capacity_for, set_position_in, exceeds, bring, select_fleet_in,
  mark_ready, set_ready_in, resync_member, resync_in, fleet_of,
}
use seg.Lobby.Service.Leave.{remove, kick_from}
use seg.Lobby.Service.Modify.{patch_settings, with_settings, commit_settings, modify_in}
use seg.Lobby.Service.Valid.{IsValid, has_account}
use seg.Lobby.Service.Valid.Update.{
  has_account-update_member, move-IsValid, move_to-account, bring-IsValid, mark_ready-IsValid,
}
use seg.Lobby.Service.Valid.Budget.{has_account-drop, patch-IsValid}
use seg.Lobby.Service.Invariant.{Inv}
use seg.Lobby.Service.Invariant.Changes.{store-Inv}
use seg.Lobby.Service.Invariant.Departures.{remove-Inv}

pub start_service-Inv : (cooldown : Option ℕ) → Inv (start_service cooldown)
unfolding start_service get
start_service-Inv cooldown = record {
  seated = λ a id h. cc;
  home = λ id lobby h. cc;
  coded = λ code id h. cc;
}

pub require_lobby-held :
    (s : LobbyService) (account : AccountId) {lobby : MutableLobby}
    → require_lobby s account ≡ some lobby
    → (id : LobbyId) × (get account s.membership ≡ some id) × (get id s.lobbies ≡ some lobby)
unfolding require_lobby
require_lobby-held s account h = elim (Option-cases (get account s.membership)) [
  | inl e ↦ absurd (ground arith)
  | inr (id, e) ↦ (id, e, ground (arith, e))
]

-- A code that is minted is not in use.
pub mint_from-free :
    (s : LobbyService) (generate : ℕ → Text) (attempt left : ℕ) (code : Text)
    → mint_from s generate attempt left ≡ some code
    → has code s.by_code ≡ false
unfolding mint_from
mint_from-free s generate attempt zero code h = cc
mint_from-free s generate attempt (suc left) code h =
    ground (arith, mint_from-free s generate (attempt + 1) left code)

bring-account :
    (fleet : Option SelectedFleet) (m : MutableMember) → account_of (bring fleet m) ≡ account_of m
unfolding bring
bring-account fleet m = refl

mark_ready-account :
    (ready : Bool) (m : MutableMember) → account_of (mark_ready ready m) ≡ account_of m
unfolding mark_ready
mark_ready-account ready m = refl

module _ (s : LobbyService) (account : AccountId) (lobby : MutableLobby) (v : Inv s)
    (mine : require_lobby s account ≡ some lobby) where
  mine-IsValid : IsValid lobby
  mine-IsValid =
      let (id, seat, held) = require_lobby-held s account mine in (v.home id lobby held).valid

  change-Inv :
      (f : MutableMember → MutableMember)
      → ((m : MutableMember) → account_of (f m) ≡ account_of m)
      → IsValid (record lobby { members = update_member account f lobby.members })
      → Inv (store s (record lobby { members = update_member account f lobby.members }))
  change-Inv f same valid =
      let (id, seat, held) = require_lobby-held s account mine in
      store-Inv s id lobby _ v held refl refl
        (λ a. has_account-update_member account f same a lobby.members) valid

  pub set_position_in-Inv : (p : LobbyPosition) → Inv (set_position_in s lobby account p).0
  unfolding set_position_in change_member
  set_position_in-Inv p = ground (
    arith,
    v,
    λ (free : capacity_for lobby p account ≡ none).
        change-Inv (move_to p) (move_to-account account p)
          (move-IsValid lobby account p mine-IsValid free),
  )

  pub select_fleet_in-Inv :
      (fleet : Option SelectedFleet) → Inv (select_fleet_in s lobby account fleet).0
  unfolding select_fleet_in change_member
  select_fleet_in-Inv fleet = ground (
    arith,
    v,
    λ (cheap : exceeds fleet lobby.settings.fleet_points ≡ false).
        change-Inv (bring fleet) (bring-account fleet)
          (bring-IsValid lobby account fleet mine-IsValid cheap),
  )

  pub set_ready_in-Inv : (ready : Bool) → Inv (set_ready_in s lobby account ready).0
  unfolding set_ready_in change_member
  set_ready_in-Inv ready = elim (Option-cases (find_member account lobby.members)) [
    | inl e ↦ rw (e, set_ready_in) v
    | inr (m, e) ↦ ground (
      arith,
      v,
      λ (plays : (ready && same_position m.position spectator) ≡ false)
            (armed : (ready && not (is_some m.fleet)) ≡ false).
          change-Inv (mark_ready ready) (mark_ready-account ready)
            (mark_ready-IsValid lobby account ready m mine-IsValid e plays armed),
    )
  ]

  resync_member-Inv :
      (fleet : Option SelectedFleet) (held : SelectedFleet)
      → Inv (resync_member s lobby account fleet held).0
  unfolding resync_member
  resync_member-Inv fleet held = ground (
    arith,
    v,
    change-Inv (bring none) (bring-account none)
        (bring-IsValid lobby account none mine-IsValid refl),
    λ (cheap : exceeds fleet lobby.settings.fleet_points ≡ false).
        change-Inv (bring fleet) (bring-account fleet)
          (bring-IsValid lobby account fleet mine-IsValid cheap),
  )

  pub resync_in-Inv :
      (fleet : Option SelectedFleet) (fleet_id : ℕ)
      → Inv (resync_in s lobby account fleet fleet_id).0
  unfolding resync_in
  resync_in-Inv fleet fleet_id =
      elim (Option-cases (fleet_of (find_member account lobby.members))) [
        | inl e ↦ ground (arith, v)
        | inr (held, e) ↦ ground (arith, v, resync_member-Inv fleet held)
      ]

  commit_settings-Inv :
      (patch : LobbySettingsPatch) (r : LobbyResult LobbySettings)
      → patch_settings lobby.members patch lobby.settings ≡ r
      → Inv (commit_settings s lobby r).0
  unfolding commit_settings with_settings
  commit_settings-Inv patch (ok next) e =
      let (id, seat, held) = require_lobby-held s account mine in
      store-Inv s id lobby _ v held refl refl
        (λ a. has_account-drop next.fleet_points a lobby.members)
        (patch-IsValid lobby patch mine-IsValid e)
  commit_settings-Inv patch (fail code message) e = v
  commit_settings-Inv patch thrown e = v

  pub modify_in-Inv : (patch : LobbySettingsPatch) → Inv (modify_in s lobby account patch).0
  unfolding modify_in
  modify_in-Inv patch = elim (Bool-cases (lobby.host_account_id == account)) [
    | inl e ↦
        rw e (commit_settings-Inv patch (patch_settings lobby.members patch lobby.settings) refl)
    | inr e ↦ rw e v
  ]

  -- The target of a kick sits in the lobby, so its membership leads there.
  pub kick_from-Inv : (target : AccountId) → Inv (kick_from s lobby account target).0
  unfolding kick_from
  kick_from-Inv target = elim (Bool-cases (has_account target lobby.members)) [
    | inl e ↦
        let (id, seat, held) = require_lobby-held s account mine in
        ground
          (arith, v, remove-Inv s id lobby target v held ((v.home id lobby held).members target e))
    | inr e ↦ ground (arith, v)
  ]

  pub remove_mine-Inv : Inv (remove s lobby account).0
  remove_mine-Inv =
      let (id, seat, held) = require_lobby-held s account mine in
      remove-Inv s id lobby account v held seat
