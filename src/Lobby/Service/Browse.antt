-- ===== src/Lobby/Service/Browse.antt =====
-- `list`, the server browser. `toLowerCase` of all of Unicode is a parameter.
use seg.Prelude.{
  Bool, true, false, ◌&&◌, ◌||◌, not, Option, none, some, List, [], ◌∷◌, map, ◌==◌, leb, ltb,
  if◌then◌else◌, length, filter, sort_by,
}
use seg.Text.{Text, trim}
use seg.Lobby.Settings.{GameMode, objective_capture, deathmatch}
use seg.Lobby.State.{LobbyListFilter, LobbySummary, player_count, to_summary}
use seg.Lobby.Service.Registry.{LobbyService, MutableLobby, position_of, snapshot}
use seg.Lobby.Service.Create.{is_public}

unfoldable pub starts_with : Text → Text → Bool
starts_with [] s = true
starts_with (c ∷ p) [] = false
starts_with (c ∷ p) (d ∷ s) = let rest = starts_with p s in if c == d then rest else false

-- `s.includes(p)`
unfoldable pub includes : Text → Text → Bool
includes p [] = starts_with p []
includes p (c ∷ s) = starts_with p (c ∷ s) || includes p s

abbrev pub same_mode : GameMode → GameMode → Bool
same_mode objective_capture objective_capture = true
same_mode deathmatch deathmatch = true
same_mode _ _ = false

abbrev pub mode_wanted : Option GameMode → GameMode → Bool
mode_wanted none mode = true
mode_wanted (some wanted) mode = same_mode mode wanted

abbrev pub slots_wanted : Option Bool → MutableLobby → Bool
slots_wanted (some true) lobby =
    not (leb lobby.settings.max_players (player_count position_of lobby.members))
slots_wanted _ lobby = true

module _ (to_lower_case : Text → Text) where
  unfoldable pub name_wanted : Option Text → Text → Bool
  name_wanted none name = true
  name_wanted (some raw) name =
      let wanted = to_lower_case (trim raw) in
      if ltb 0 (length wanted) then includes wanted (to_lower_case name) else true

  -- The lobbies that the loop of `list` does not skip.
  unfoldable pub is_listed : LobbyListFilter → MutableLobby → Bool
  is_listed wanted lobby =
      is_public lobby.settings.visibility
      && mode_wanted wanted.mode lobby.settings.mode
      && name_wanted wanted.name lobby.settings.name
      && slots_wanted wanted.has_open_slots lobby

  unfoldable pub matches : LobbyListFilter → LobbyService → List MutableLobby
  matches wanted s = filter (is_listed wanted) (map (λ entry. entry.1) s.lobbies)

-- The comparator, as "not after".
unfoldable pub fuller_first : MutableLobby → MutableLobby → Bool
fuller_first a b =
    let in_a = player_count position_of a.members in
    let in_b = player_count position_of b.members in
    if not (in_a == in_b) then ltb in_b in_a else leb a.created_at b.created_at

unfoldable pub list : (Text → Text) → LobbyListFilter → LobbyService → List LobbySummary
list to_lower_case wanted s =
    map (λ lobby. to_summary (snapshot lobby))
      (sort_by fuller_first (matches to_lower_case wanted s))
