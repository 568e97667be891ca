-- ===== src/Lobby/Service/Valid/Settings.antt =====
-- A patch of the settings keeps a lobby well formed.
use seg.Prelude.{
  ℕ, Bool, Option, none, some, List, ◌≡◌, refl, arith, Option-cases, inl, inr, ◌≢◌, subst,
}
use seg.Text.{Text}
use seg.Lobby.Settings.{
  Number, whole, negative, fractional, validate_lobby_name, normalize_lobby_name,
  validate_max_players, validate_fleet_points,
}
use seg.Lobby.Settings.Checks.{
  IsLobbyName, IsMaxPlayers, IsFleetPoints, validate_lobby_name_iff,
  validate_max_players-IsMaxPlayers, validate_fleet_points-IsFleetPoints,
}
use seg.Lobby.State.{LobbySettings, LobbySettingsPatch}
use seg.Lobby.Service.Registry.{MutableMember, LobbyResult, ok, fail, thrown}
use seg.Lobby.Service.Modify.{
  ◌>>=◌, patch_name, lower_cap, patch_max_players, patch_mode, patch_fleet_points, patch_visibility,
  patch_map_type, patch_map_size, patch_debug_mode, patch_settings,
}
use seg.Lobby.Service.Valid.{IsSeated}

-- Settings that fit the members.
pub record Fits (members : List MutableMember) (next : LobbySettings) : Type 0 where
  pub name : IsLobbyName next.name
  pub cap : IsMaxPlayers next.max_players
  pub budget : IsFleetPoints next.fleet_points
  pub seated : IsSeated next.max_players members

-- The check that came before a success has passed.
passed_before :
    {A B : Type 0} (check : LobbyResult A) (later : A → LobbyResult B) {out : B}
    → (check >>= later) ≡ ok out
    → (next : A) × (later next ≡ ok out) × (check ≡ ok next)
passed_before thrown later h = cc
passed_before (fail code message) later h = cc
passed_before (ok next) later h = (next, h, refl)

validate_fleet_points-refuses :
    (n : ℕ)
    → (validate_fleet_points (negative n) ≢ none) × (validate_fleet_points fractional ≢ none)
unfolding validate_fleet_points
validate_fleet_points-refuses n = (λ e. cc, λ e. cc)

validate_max_players-refuses :
    (n : ℕ) → (validate_max_players (negative n) ≢ none) × (validate_max_players fractional ≢ none)
unfolding validate_max_players
validate_max_players-refuses n = (λ e. cc, λ e. cc)

ok-injective : {A : Type 0} {a b : A} → ok a ≡ ok b → a ≡ b
ok-injective h = cc

module _ (members : List MutableMember) (next : LobbySettings) {after : LobbySettings}
    (fits : Fits members next) where
  patch_name-Fits : (p : Option Text) → patch_name p next ≡ ok after → Fits members after
  unfolding patch_name
  patch_name-Fits none h = ground arith
  patch_name-Fits (some raw) h =
      elim (Option-cases (validate_lobby_name (normalize_lobby_name raw))) [
        | inl e ↦ record {
          name = ground (arith, (validate_lobby_name_iff (normalize_lobby_name raw)).0 e);
          cap = ground (arith, fits.cap);
          budget = ground (arith, fits.budget);
          seated = ground (arith, fits.seated);
        }
        | inr (problem, e) ↦ ground arith
      ]

  patch_fleet_points-Fits :
      (p : Option Number) → patch_fleet_points p next ≡ ok after → Fits members after
  unfolding patch_fleet_points
  patch_fleet_points-Fits none h = ground arith
  patch_fleet_points-Fits (some (whole n)) h = ground (arith, validate_fleet_points-IsFleetPoints n)
  patch_fleet_points-Fits (some (negative n)) h = ground (arith, validate_fleet_points-refuses n)
  patch_fleet_points-Fits (some fractional) h = ground (arith, validate_fleet_points-refuses 0)

  patch_mode-Fits : (p : Option Text) → patch_mode p next ≡ ok after → Fits members after
  unfolding patch_mode
  patch_mode-Fits none h = ground arith
  patch_mode-Fits (some mode) h = ground arith

  patch_visibility-Fits :
      (p : Option Text) → patch_visibility p next ≡ ok after → Fits members after
  unfolding patch_visibility
  patch_visibility-Fits none h = ground arith
  patch_visibility-Fits (some visibility) h = ground arith

  patch_map_type-Fits : (p : Option Text) → patch_map_type p next ≡ ok after → Fits members after
  unfolding patch_map_type
  patch_map_type-Fits none h = ground arith
  patch_map_type-Fits (some map_type) h = ground arith

  patch_map_size-Fits : (p : Option Text) → patch_map_size p next ≡ ok after → Fits members after
  unfolding patch_map_size
  patch_map_size-Fits none h = ground arith
  patch_map_size-Fits (some map_size) h = ground arith

  lower_cap-Fits :
      (cap : ℕ) → IsMaxPlayers cap → lower_cap members cap next ≡ ok after → Fits members after
  unfolding lower_cap
  lower_cap-Fits cap even h = ground (arith, even)

  patch_max_players-Fits :
      (p : Option Number) → patch_max_players members p next ≡ ok after → Fits members after
  unfolding patch_max_players
  patch_max_players-Fits none h = ground arith
  patch_max_players-Fits (some (whole n)) h =
      ground (arith, validate_max_players-IsMaxPlayers n, lower_cap-Fits n)
  patch_max_players-Fits (some (negative n)) h = ground (arith, validate_max_players-refuses n)
  patch_max_players-Fits (some fractional) h = ground (arith, validate_max_players-refuses 0)

patch_debug_mode-Fits :
    (members : List MutableMember) (next : LobbySettings) (p : Option Bool)
    → Fits members next
    → Fits members (patch_debug_mode p next)
unfolding patch_debug_mode
patch_debug_mode-Fits members next none fits = fits
patch_debug_mode-Fits members next (some debug_mode) fits = record {
  name = fits.name;
  cap = fits.cap;
  budget = fits.budget;
  seated = fits.seated;
}

pub patch_settings-Fits :
    (members : List MutableMember) (patch : LobbySettingsPatch) (settings : LobbySettings)
    {after : LobbySettings}
    → Fits members settings
    → patch_settings members patch settings ≡ ok after
    → Fits members after
unfolding patch_settings
patch_settings-Fits members patch settings fits h =
    let (a, ha, ea) = passed_before (patch_name patch.name settings) _ h in
    let (b, hb, eb) = passed_before (patch_max_players members patch.max_players a) _ ha in
    let (c, hc, ec) = passed_before (patch_mode patch.mode b) _ hb in
    let (d, hd, ed) = passed_before (patch_fleet_points patch.fleet_points c) _ hc in
    let (e, he, ee) = passed_before (patch_visibility patch.visibility d) _ hd in
    let (g, hg, eg) = passed_before (patch_map_type patch.map_type e) _ he in
    let (k, hk, ek) = passed_before (patch_map_size patch.map_size g) _ hg in
    let fa = patch_name-Fits members settings fits patch.name ea in
    let fb = patch_max_players-Fits members a fa patch.max_players eb in
    let fc = patch_mode-Fits members b fb patch.mode ec in
    let fd = patch_fleet_points-Fits members c fc patch.fleet_points ed in
    let fe = patch_visibility-Fits members d fd patch.visibility ee in
    let fg = patch_map_type-Fits members e fe patch.map_type eg in
    let fk = patch_map_size-Fits members g fg patch.map_size ek in
    subst (Fits members) (ok-injective hk) (patch_debug_mode-Fits members k patch.debug_mode fk)
