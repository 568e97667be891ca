-- ===== src/Lobby/Service/Promises/Browser.antt =====
-- What the server browser shows.
use mathlib.Core.List.{Perm}
use seg.Prelude.{
  ℕ, ◌<◌, ◌≤◌, true, false, none, some, List, [], ◌∷◌, map, ◌≡◌, refl, ◌↔◌, ◌∙◌, inl, inr,
  Option-cases, filter, arith, ltb, sort_by, InOrder, InOrder-map, ◌⊎◌, sort_by-perm,
  sort_by-Ordered, length,
}
use seg.Text.{Text, trim}
use seg.Lobby.Settings.{GameMode, objective_capture, deathmatch}
use seg.Lobby.State.{LobbyListFilter, public, player_count, to_summary}
use seg.Lobby.Service.Registry.{LobbyService, MutableLobby, position_of, snapshot}
use seg.Lobby.Service.Browse.{
  starts_with, includes, same_mode, mode_wanted, name_wanted, slots_wanted, is_listed, matches,
  fuller_first, list,
}

same_mode_refl : (m : GameMode) → same_mode m m ≡ true
same_mode_refl objective_capture = refl
same_mode_refl deathmatch = refl

abbrev in_lobby : MutableLobby → ℕ
in_lobby lobby = player_count position_of lobby.members

fuller_first_total : (a b : MutableLobby) → fuller_first a b ≡ false → fuller_first b a ≡ true
unfolding fuller_first
fuller_first_total a b h = ground arith

fuller_first_trans :
    (a b c : MutableLobby)
    → fuller_first a b ≡ true
    → fuller_first b c ≡ true
    → fuller_first a c ≡ true
unfolding fuller_first
fuller_first_trans a b c h k = ground arith

-- Fuller, or as full and not younger.
abbrev pub IsBefore : MutableLobby → MutableLobby → Type 0
IsBefore a b =
    (in_lobby b < in_lobby a) ⊎ ((in_lobby a ≡ in_lobby b) × (a.created_at ≤ b.created_at))

fuller_first-IsBefore : (a b : MutableLobby) → fuller_first a b ≡ true → IsBefore a b
unfolding fuller_first
fuller_first-IsBefore a b h = ground arith

-- What the filter asks of a lobby that is shown.
pub record IsWanted (to_lower_case : Text → Text) (wanted : LobbyListFilter) (lobby : MutableLobby)
    : Type 0 where
  pub open_to_all : lobby.settings.visibility ≡ public
  pub mode : (m : GameMode) → wanted.mode ≡ some m → lobby.settings.mode ≡ m
  pub name :
      (raw : Text)
      → wanted.name ≡ some raw
      → includes (to_lower_case (trim raw)) (to_lower_case lobby.settings.name) ≡ true
  pub slots : wanted.has_open_slots ≡ some true → in_lobby lobby < lobby.settings.max_players

pub record IsBrowsed (to_lower_case : Text → Text) (wanted : LobbyListFilter) (s : LobbyService)
    : Type 0 where
  pub shown : List MutableLobby
  pub rows : list to_lower_case wanted s ≡ map (λ l. to_summary (snapshot l)) shown
  pub ordered : InOrder IsBefore shown
  pub chosen :
      Perm shown (filter (is_listed to_lower_case wanted) (map (λ entry. entry.1) s.lobbies))
  pub decides :
      (l : MutableLobby)
      → (is_listed to_lower_case wanted l ≡ true) ↔ IsWanted to_lower_case wanted l

includes-empty : (w s : Text) → ltb 0 (length w) ≡ false → includes w s ≡ true
unfolding includes starts_with
includes-empty [] [] h = refl
includes-empty [] (c ∷ s) h = refl
includes-empty (d ∷ w) s h = ground arith

module _ (to_lower_case : Text → Text) where
  name_wanted-includes :
      (raw name : Text)
      → name_wanted to_lower_case (some raw) name
        ≡ includes (to_lower_case (trim raw)) (to_lower_case name)
  unfolding name_wanted
  name_wanted-includes raw name =
      ground (arith, includes-empty (to_lower_case (trim raw)) (to_lower_case name))

  name_wanted-none : (name : Text) → name_wanted to_lower_case none name ≡ true
  unfolding name_wanted
  name_wanted-none name = refl

  is_listed-IsWanted :
      (wanted : LobbyListFilter) (lobby : MutableLobby)
      → is_listed to_lower_case wanted lobby ≡ true
      → IsWanted to_lower_case wanted lobby
  unfolding is_listed
  is_listed-IsWanted wanted lobby h = record {
    open_to_all = ground arith;
    mode = λ m e. ground arith;
    name = λ raw e. ground (arith, name_wanted-includes raw lobby.settings.name);
    slots = λ e. ground arith;
  }

  IsWanted-is_listed :
      (wanted : LobbyListFilter) (lobby : MutableLobby)
      → IsWanted to_lower_case wanted lobby
      → is_listed to_lower_case wanted lobby ≡ true
  unfolding is_listed
  IsWanted-is_listed wanted lobby h =
      let visible = h.open_to_all in
      let moded : mode_wanted wanted.mode lobby.settings.mode ≡ true =
        elim (Option-cases wanted.mode) [
          | inl e ↦ rw e refl
          | inr (m, e) ↦ rw e (rw (h.mode m e) (same_mode_refl m))
        ] in
      let named : name_wanted to_lower_case wanted.name lobby.settings.name ≡ true =
        elim (Option-cases wanted.name) [
          | inl e ↦ rw e (name_wanted-none lobby.settings.name)
          | inr (raw, e) ↦ rw e (name_wanted-includes raw lobby.settings.name ∙ h.name raw e)
        ] in
      let free : slots_wanted wanted.has_open_slots lobby ≡ true = ground (arith, h.slots) in
      ground (arith, visible, moded, named, free)

  -- The browser shows exactly the public lobbies that meet the filter, each once: those of the
  -- mode, whose lower-cased name includes the trimmed and lower-cased text, and with a free player
  -- slot where that is asked. The fullest come first, and among equals the oldest.
  pub list-IsBrowsed :
      (wanted : LobbyListFilter) (s : LobbyService) → IsBrowsed to_lower_case wanted s
  unfolding list matches
  list-IsBrowsed wanted s =
      let found = filter (is_listed to_lower_case wanted) (map (λ entry. entry.1) s.lobbies) in
      record {
        shown = sort_by fuller_first found;
        rows = refl;
        ordered =
            InOrder-map (λ a b. fuller_first a b ≡ true) IsBefore fuller_first-IsBefore
              (sort_by fuller_first found)
              (sort_by-Ordered fuller_first fuller_first_total fuller_first_trans found);
        chosen = sort_by-perm fuller_first found;
        decides = λ l. (is_listed-IsWanted wanted l, IsWanted-is_listed wanted l);
      }
