-- ===== src/Fleet.antt =====
-- packages/shared/src/fleet/types.ts and validate.ts. The hull and module tables of
-- packages/shared/src/content are parameters: `hull_slots` gives the slot counts of a known hull,
-- `module_slot` the kind of a known module. Slot kinds off the wire are texts.
pub mod Repair
use seg.Prelude.{
  ℕ, ◌+◌, Bool, true, false, ◌&&◌, ◌||◌, not, String, Option, none, some, List, [], ◌∷◌, length,
  ◌==◌, ltb, leb, same_text, if◌then◌else◌,
}
use seg.Text.{Text, text, matches_class, trim, collapse}
use seg.Lobby.Settings.{Number, whole, negative, fractional, in_name_class}

pub data SlotKind : Type 0 where
  equipment weapon : SlotKind

pub data FleetProblem : Type 0 where
  fleet_name_too_short fleet_name_too_long fleet_name_invalid_characters : FleetProblem
  no_boats too_many_boats boat_name_too_short boat_name_too_long : FleetProblem
  boat_name_invalid_characters unknown_hull unknown_module wrong_slot_kind : FleetProblem
  no_such_slot slot_occupied_twice : FleetProblem

pub record FittedModule : Type 0 where
  pub slot : Text
  pub index : Number
  pub module_id : Text

pub record BoatTemplate : Type 0 where
  pub name : Text
  pub hull : Text
  pub modules : List FittedModule

pub record FleetValidation : Type 0 where
  pub problem : Option FleetProblem
  pub boat_index : Option ℕ

unfoldable pub normalize_name : Text → Text
normalize_name name = collapse (trim name)

unfoldable pub validate_fleet_name : Text → Option FleetProblem
validate_fleet_name name =
    if ltb (length name) 1
    then some fleet_name_too_short
    else if ltb 32 (length name)
    then some fleet_name_too_long
    else if not (matches_class in_name_class name)
    then some fleet_name_invalid_characters
    else none

unfoldable pub validate_boat_name : Text → Option FleetProblem
validate_boat_name name =
    if ltb (length name) 1
    then some boat_name_too_short
    else if ltb 20 (length name)
    then some boat_name_too_long
    else if not (matches_class in_name_class name)
    then some boat_name_invalid_characters
    else none

unfoldable pub slot_kind_of : Text → Option SlotKind
slot_kind_of value =
    if same_text value (text "equipment")
    then some equipment
    else if same_text value (text "weapon")
    then some weapon
    else none

abbrev pub same_kind : SlotKind → SlotKind → Bool
same_kind equipment equipment = true
same_kind weapon weapon = true
same_kind _ _ = false

-- `seen.has(key)`, for keys `kind:index`.
unfoldable pub is_seen : SlotKind → ℕ → List (SlotKind × ℕ) → Bool
is_seen kind index [] = false
is_seen kind index ((k, i) ∷ seen) = (same_kind k kind && i == index) || is_seen kind index seen

-- A module that fits a slot by itself, or what is wrong with it.
pub data Fit : Type 0 where
  fits : SlotKind → ℕ → Fit
  bad : FleetProblem → Fit

module _ (hull_slots : Text → Option (SlotKind → ℕ)) (module_slot : Text → Option SlotKind) where
  unfoldable pub fit_index : (SlotKind → ℕ) → SlotKind → Number → Fit
  fit_index slots kind fractional = bad no_such_slot
  fit_index slots kind (negative n) = bad no_such_slot
  fit_index slots kind (whole n) = if leb (slots kind) n then bad no_such_slot else fits kind n

  unfoldable pub fit_kind : (SlotKind → ℕ) → SlotKind → Option SlotKind → Number → Fit
  fit_kind slots own none index = bad wrong_slot_kind
  fit_kind slots own (some kind) index =
      if not (same_kind own kind) then bad wrong_slot_kind else fit_index slots kind index

  unfoldable pub check_fitted : (SlotKind → ℕ) → FittedModule → Fit
  check_fitted slots m = elim (module_slot m.module_id) [
    | none ↦ bad unknown_module
    | some own ↦ fit_kind slots own (slot_kind_of m.slot) m.index
  ]

  -- The loop of `validateBoat`.
  unfoldable pub validate_modules :
      (SlotKind → ℕ) → List (SlotKind × ℕ) → List FittedModule → Option FleetProblem
  validate_modules slots seen [] = none
  validate_modules slots seen (m ∷ ms) = elim (check_fitted slots m) [
    | bad problem ↦ some problem
    | fits kind index ↦ elim (is_seen kind index seen) [
      | true ↦ some slot_occupied_twice
      | false ↦ validate_modules slots ((kind, index) ∷ seen) ms
    ]
  ]

  unfoldable pub validate_boat : BoatTemplate → Option FleetProblem
  validate_boat boat = elim (validate_boat_name (normalize_name boat.name)) [
    | some problem ↦ some problem
    | none ↦ elim (hull_slots boat.hull) [
      | none ↦ some unknown_hull
      | some slots ↦ validate_modules slots [] boat.modules
    ]
  ]

  -- The loop of `validateFleet` from a boat on.
  unfoldable pub validate_boats : ℕ → List BoatTemplate → FleetValidation
  validate_boats index [] = record { problem = none; boat_index = none }
  validate_boats index (boat ∷ boats) = elim (validate_boat boat) [
    | some problem ↦ record { problem = some problem; boat_index = some index }
    | none ↦ validate_boats (index + 1) boats
  ]

  unfoldable pub validate_fleet : Text → List BoatTemplate → FleetValidation
  validate_fleet name boats = elim (validate_fleet_name (normalize_name name)) [
    | some problem ↦ record { problem = some problem; boat_index = none }
    | none ↦
        if ltb (length boats) 1
        then record { problem = some no_boats; boat_index = none }
        else if ltb 10 (length boats)
        then record { problem = some too_many_boats; boat_index = none }
        else validate_boats 0 boats
  ]

  -- The tests of one round of `repairBoat`, in its order: the slot of a module that they let
  -- through, `none` where the loop goes on to the next.
  unfoldable pub kept_index : SlotKind → Number → ℕ → Option (SlotKind × ℕ)
  kept_index kind fractional slots = none
  kept_index kind (negative n) slots = none
  kept_index kind (whole n) slots = if leb slots n then none else some (kind, n)

  unfoldable pub kept_slot : (SlotKind → ℕ) → FittedModule → Option (SlotKind × ℕ)
  kept_slot slots fitted = elim (module_slot fitted.module_id) [
    | none ↦ none
    | some own ↦ elim (slot_kind_of fitted.slot) [
      | none ↦ none
      | some kind ↦
          if not (same_kind own kind) then none else kept_index kind fitted.index (slots kind)
    ]
  ]

  -- The loop of `repairBoat`.
  unfoldable pub repair_modules :
      (SlotKind → ℕ) → List (SlotKind × ℕ) → List FittedModule → List FittedModule
  repair_modules slots seen [] = []
  repair_modules slots seen (fitted ∷ modules) = elim (kept_slot slots fitted) [
    | none ↦ repair_modules slots seen modules
    | some (kind, index) ↦
        if is_seen kind index seen
        then repair_modules slots seen modules
        else fitted ∷ repair_modules slots ((kind, index) ∷ seen) modules
  ]

  unfoldable pub repair_boat : BoatTemplate → BoatTemplate
  repair_boat boat = elim (hull_slots boat.hull) [
    | none ↦ boat
    | some slots ↦ record boat { modules = repair_modules slots [] boat.modules }
  ]

pub describe_fleet_problem : FleetProblem → String
describe_fleet_problem fleet_name_too_short = "Give the fleet a name."
describe_fleet_problem fleet_name_too_long = "A fleet name is at most 32 characters."
describe_fleet_problem fleet_name_invalid_characters =
    "A fleet name may use letters, numbers, spaces, and ' - _ . ! ?"
describe_fleet_problem no_boats = "A fleet needs at least one boat."
describe_fleet_problem too_many_boats = "A fleet can hold at most 10 boats."
describe_fleet_problem boat_name_too_short = "Every boat needs a name."
describe_fleet_problem boat_name_too_long = "A boat name is at most 20 characters."
describe_fleet_problem boat_name_invalid_characters =
    "A boat name may use letters, numbers, spaces, and ' - _ . ! ?"
describe_fleet_problem unknown_hull = "That hull no longer exists."
describe_fleet_problem unknown_module = "That module no longer exists."
describe_fleet_problem wrong_slot_kind = "That module does not fit that kind of slot."
describe_fleet_problem no_such_slot = "That hull does not have that slot."
describe_fleet_problem slot_occupied_twice = "Two modules are fitted to the same slot."
