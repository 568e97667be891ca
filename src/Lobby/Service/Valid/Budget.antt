-- ===== src/Lobby/Service/Valid/Budget.antt =====
-- A new budget drops the fleets that it strands, and a patch keeps a lobby well formed.
use seg.Prelude.{ℕ, List, [], ◌∷◌, map, ◌≡◌, refl, All, arith}
use seg.Lobby.Settings.{LobbyPosition, spectator}
use seg.Lobby.State.{AccountId, LobbySettings, LobbySettingsPatch, position_count}
use seg.Lobby.Service.Registry.{MutableMember, MutableLobby, account_of, position_of, ok}
use seg.Lobby.Service.Seat.{bring}
use seg.Lobby.Service.Modify.{patch_settings, drop_over_budget, with_settings}
use seg.Lobby.Service.Valid.{IsHonest, has_account, Distinct, IsSeated, IsValid}
use seg.Lobby.Service.Valid.Settings.{patch_settings-Fits}
use seg.Lobby.Service.Valid.Update.{spectator_count-position_count}

module _ (budget : ℕ) where
  abbrev drop : MutableMember → MutableMember
  drop = drop_over_budget budget

  drop-account : (m : MutableMember) → account_of (drop m) ≡ account_of m
  unfolding drop_over_budget bring
  drop-account m = ground arith

  drop-position : (m : MutableMember) → position_of (drop m) ≡ position_of m
  unfolding drop_over_budget bring
  drop-position m = ground arith

  pub has_account-drop :
      (a : AccountId) (ms : List MutableMember) → has_account a (map drop ms) ≡ has_account a ms
  has_account-drop a [] = refl
  has_account-drop a (m ∷ ms) = ground (arith, drop-account m, has_account-drop a ms)

  drop-Distinct : (ms : List MutableMember) → Distinct ms → Distinct (map drop ms)
  drop-Distinct [] d = tt
  drop-Distinct (m ∷ ms) d =
      ground (arith, drop-account m, has_account-drop (account_of m) ms, drop-Distinct ms d.1)

  position_count-drop :
      (ms : List MutableMember) (p : LobbyPosition)
      → position_count position_of (map drop ms) p ≡ position_count position_of ms p
  unfolding position_count
  position_count-drop [] p = refl
  position_count-drop (m ∷ ms) p = ground (arith, drop-position m, position_count-drop ms p)

  drop-IsSeated : (cap : ℕ) (ms : List MutableMember) → IsSeated cap ms → IsSeated cap (map drop ms)
  drop-IsSeated cap ms h = record {
    first_team = rw (position_count-drop ms _) h.first_team;
    second_team = rw (position_count-drop ms _) h.second_team;
    watchers =
        rw
          (
            spectator_count-position_count (map drop ms),
            position_count-drop ms spectator,
            ← spectator_count-position_count ms,
          )
          h.watchers;
  }

  -- Whatever the old budget, the members who are left in the selection fit the new one.
  drop-IsHonest : {old : ℕ} (m : MutableMember) → IsHonest old m → IsHonest budget (drop m)
  unfolding drop_over_budget bring
  drop-IsHonest m h = record {
    playing = ground (arith, h.playing);
    armed = ground (arith, h.armed);
    affordable = ground arith;
  }

  drop-All :
      (old : ℕ) (ms : List MutableMember)
      → All (IsHonest old) ms
      → All (IsHonest budget) (map drop ms)
  drop-All old [] h = tt
  drop-All old (m ∷ ms) h = (drop-IsHonest m h.0, drop-All old ms h.1)

pub patch-IsValid :
    (lobby : MutableLobby) (patch : LobbySettingsPatch) {next : LobbySettings}
    → IsValid lobby
    → patch_settings lobby.members patch lobby.settings ≡ ok next
    → IsValid (with_settings lobby next)
unfolding with_settings
patch-IsValid lobby patch {next} v h =
    let fits =
      patch_settings-Fits lobby.members patch lobby.settings
        (record { name = v.name; cap = v.cap; budget = v.budget; seated = v.seated }) h in
    record {
      name = fits.name;
      cap = fits.cap;
      budget = fits.budget;
      seated = drop-IsSeated next.fleet_points next.max_players lobby.members fits.seated;
      distinct = drop-Distinct next.fleet_points lobby.members v.distinct;
      hosted = rw (has_account-drop next.fleet_points lobby.host_account_id lobby.members) v.hosted;
      honest = drop-All next.fleet_points _ lobby.members v.honest;
    }
