-- ===== src/Tests/Fleet.antt =====
-- Fleets and chat at concrete inputs.
use seg.Prelude.{ℕ, true, none, some, Option, [], ◌∷◌, ◌≡◌, ◌≢◌, refl, ◌↔◌, arith}
use seg.Text.{
  Text, text, trim, trim_start, trim_end, keep_end, collapse, collapse_from, is_space,
  matches_class, is_upper, is_lower,
}
use seg.Lobby.Settings.{whole, in_name_class}
use seg.Fleet.{
  SlotKind, weapon, BoatTemplate, FittedModule, normalize_name, validate_boat_name, validate_boat,
  repair_boat,
}
use seg.Fleet.Repair.{validate-repair_boat}
use seg.Chat.{ChatEntry, team, all, can_speak_on, can_hear, can_hear-can_speak_on}

abbrev tube : FittedModule
tube = record { slot = text "weapon"; index = whole 0; module_id = text "loader" }

abbrev boat : BoatTemplate
boat = record { name = text "Kilo"; hull = text "light"; modules = tube ∷ tube ∷ [] }

abbrev hull_slots : Text → Option (SlotKind → ℕ)
hull_slots hull = some (λ kind. 1)

abbrev module_slot : Text → Option SlotKind
module_slot module_id = some weapon

kilo : validate_boat_name (normalize_name (text "Kilo")) ≡ none
unfolding validate_boat_name normalize_name trim trim_start trim_end keep_end collapse collapse_from
    is_space matches_class in_name_class is_upper is_lower
kilo = refl

validate-repair_boat_example :
    (validate_boat hull_slots module_slot (repair_boat hull_slots module_slot boat) ≡ none)
    × (validate_boat hull_slots module_slot boat ≡ none
        → repair_boat hull_slots module_slot boat ≡ boat)
validate-repair_boat_example =
    validate-repair_boat hull_slots module_slot boat (λ kind. 1) refl kilo

abbrev hello : ChatEntry
hello = record {
  id = 1;
  from = 4;
  username = text "ann";
  side = some 0;
  scope = team;
  line = text "hello";
  at = 9;
}

team_speaks : can_speak_on hello.scope hello.side ≡ true
unfolding can_speak_on
team_speaks = refl

zero_ne_one : hello.side ≢ some 1
zero_ne_one e = ground arith

can_hear-can_speak_on_example :
    (can_hear hello hello.side ≡ true)
    × (can_hear hello none ≡ true)
    × ((can_hear hello (some 1) ≡ true) ↔ (hello.scope ≡ all))
can_hear-can_speak_on_example = can_hear-can_speak_on hello 1 team_speaks zero_ne_one
