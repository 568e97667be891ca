-- ===== src/Tests/Lobby.antt =====
-- Join codes, settings and seats at concrete inputs.
use seg.Prelude.{◌≤◌, Bool, true, false, none, some, List, [], ◌∷◌, map, ◌≡◌, refl, ◌↔◌, All, arith}
use seg.Text.{
  text, is_space, is_upper, ascii_upper, trim, collapse, trim_start, trim_end, collapse_from,
  keep_end, any_of,
}
use seg.Text.Laws.{is_tidy}
use seg.Lobby.Settings.{
  LobbyPosition, team1, team2, spectator, whole, normalize_lobby_name, validate_lobby_name,
  validate_max_players, max_players_odd,
}
use seg.Lobby.Settings.Checks.{IsLobbyName, validate-normalize_lobby_name}
use seg.Lobby.State.{everyone_ready, ready_count, player_count}
use seg.Lobby.State.Seating.{everyone_ready_iff}
use seg.Lobby.JoinCode.{
  is_separator, in_alphabet, normalize_join_code, validate_join_code, default_code_generator,
}
use seg.Lobby.JoinCode.Laws.{
  IsJoinCode, Typed, done, separator, plain, lowered, validate_join_code_iff,
  default_code_generator-valid, normalize_join_code-Typed,
}

validate_join_code_iff_example :
    (validate_join_code (text "BCDFGH") ≡ none) ↔ IsJoinCode (text "BCDFGH")
validate_join_code_iff_example = validate_join_code_iff (text "BCDFGH")

default_code_generator-valid_example : validate_join_code (default_code_generator (λ i. 3)) ≡ none
default_code_generator-valid_example = default_code_generator-valid (λ i. 3) (λ i. omega arith)

code_letters : All (λ c. in_alphabet c ≡ true) (text "BC2346")
unfolding in_alphabet any_of
code_letters = (refl, (refl, (refl, (refl, (refl, (refl, tt))))))

dash : is_separator 45 ≡ true
unfolding is_separator is_space
dash = refl

blank : is_separator 32 ≡ true
unfolding is_separator is_space
blank = refl

Typed-code : Typed (text "bC-2 346") (text "BC2346")
unfolding is_upper
Typed-code =
    lowered refl refl
      (plain (separator dash (plain (separator blank (plain (plain (plain done)))))))

normalize_join_code-Typed_example :
    (normalize_join_code (map ascii_upper) (text "bC-2 346") ≡ text "BC2346")
    × (validate_join_code (normalize_join_code (map ascii_upper) (text "bC-2 346")) ≡ none)
normalize_join_code-Typed_example =
    normalize_join_code-Typed (map ascii_upper) (λ s h. refl) Typed-code
      (record { six = refl; letters = code_letters })

validate-normalize_lobby_name_example :
    (is_tidy (normalize_lobby_name (text "  Deep   Six ")) ≡ true)
    × (normalize_lobby_name (normalize_lobby_name (text "  Deep   Six "))
        ≡ normalize_lobby_name (text "  Deep   Six "))
    × ((validate_lobby_name (normalize_lobby_name (text "  Deep   Six ")) ≡ none)
        ↔ IsLobbyName (normalize_lobby_name (text "  Deep   Six ")))
validate-normalize_lobby_name_example = validate-normalize_lobby_name (text "  Deep   Six ")

deep_six : normalize_lobby_name (text "  Deep   Six ") ≡ text "Deep Six"
unfolding normalize_lobby_name trim collapse trim_start trim_end collapse_from is_space keep_end
deep_six = refl

odd_cap : validate_max_players (whole 7) ≡ some max_players_odd
unfolding validate_max_players
odd_cap = refl

abbrev seats : List (LobbyPosition × Bool)
seats = (team1, true) ∷ (spectator, false) ∷ (team2, true) ∷ []

everyone_ready_iff_example :
    (everyone_ready (λ (m : LobbyPosition × Bool). m.0) (λ m. m.1) seats ≡ true) ↔ (
      (1 ≤ player_count (λ (m : LobbyPosition × Bool). m.0) seats)
      × (ready_count (λ (m : LobbyPosition × Bool). m.0) (λ m. m.1) seats
          ≡ player_count (λ (m : LobbyPosition × Bool). m.0) seats))
everyone_ready_iff_example = everyone_ready_iff (λ (m : LobbyPosition × Bool). m.0) (λ m. m.1) seats
