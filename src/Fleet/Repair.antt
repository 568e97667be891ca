-- ===== src/Fleet/Repair.antt =====
-- A repaired boat passes, and a boat that passes needs no repair.
use seg.Prelude.{
  ℕ, Option, none, some, List, [], ◌∷◌, ◌≡◌, refl, arith, inl, inr, ◌⊎◌, Bool-cases, Option-cases,
}
use seg.Text.{Text}
use seg.Lobby.Settings.{Number, whole, negative, fractional}
use seg.Fleet.{
  SlotKind, same_kind, slot_kind_of, kept_index, kept_slot, fit_index, fit_kind, FittedModule,
  BoatTemplate, FleetProblem, Fit, fits, bad, check_fitted, normalize_name, validate_boat_name,
  validate_modules, validate_boat, repair_modules, repair_boat,
}

module _ (hull_slots : Text → Option (SlotKind → ℕ)) (module_slot : Text → Option SlotKind) where
  Fit-cases :
      (f : Fit) → ((p : FleetProblem) × (f ≡ bad p)) ⊎ ((k : SlotKind) × (i : ℕ) × (f ≡ fits k i))
  Fit-cases (fits k i) = inr (k, i, refl)
  Fit-cases (bad p) = inl (p, refl)

  abbrev slot_in : Fit → Option (SlotKind × ℕ)
  slot_in (fits kind index) = some (kind, index)
  slot_in (bad problem) = none

  -- The tests of the repair let through what the check has nothing against.
  kept_index_agrees :
      (slots : SlotKind → ℕ) (kind : SlotKind) (index : Number)
      → kept_index hull_slots module_slot kind index (slots kind)
        ≡ slot_in (fit_index hull_slots module_slot slots kind index)
  unfolding kept_index fit_index
  kept_index_agrees slots kind (whole n) = ground arith
  kept_index_agrees slots kind (negative n) = refl
  kept_index_agrees slots kind fractional = refl

  kept_slot_agrees :
      (slots : SlotKind → ℕ) (m : FittedModule)
      → kept_slot hull_slots module_slot slots m
        ≡ slot_in (check_fitted hull_slots module_slot slots m)
  unfolding kept_slot check_fitted fit_kind
  kept_slot_agrees slots m = elim (Option-cases (module_slot m.module_id)) [
    | inl e ↦ rw (e, kept_slot, check_fitted) refl
    | inr (own, e) ↦ elim (Option-cases (slot_kind_of m.slot)) [
      | inl f ↦ rw (e, f, kept_slot, check_fitted, fit_kind) refl
      | inr (kind, f) ↦ elim (Bool-cases (same_kind own kind)) [
        | inl g ↦
            rw (e, f, g, kept_slot, check_fitted, fit_kind) (kept_index_agrees slots kind m.index)
        | inr g ↦ rw (e, f, g, kept_slot, check_fitted, fit_kind) refl
      ]
    ]
  ]

  validate-repair_modules :
      (slots : SlotKind → ℕ) (seen : List (SlotKind × ℕ)) (ms : List FittedModule)
      → validate_modules hull_slots module_slot slots seen
          (repair_modules hull_slots module_slot slots seen ms)
        ≡ none
  unfolding validate_modules repair_modules
  validate-repair_modules slots seen [] = refl
  validate-repair_modules slots seen (m ∷ ms) =
      let same = kept_slot_agrees slots m in
      elim (Fit-cases (check_fitted hull_slots module_slot slots m)) [
        | inl (p, e) ↦ ground (arith, e, same, validate-repair_modules slots seen ms)
        | inr (k, i, e) ↦ ground (
          arith,
          e,
          same,
          validate-repair_modules slots seen ms,
          validate-repair_modules slots ((k, i) ∷ seen) ms,
        )
      ]

  repair-validated_modules :
      (slots : SlotKind → ℕ) (seen : List (SlotKind × ℕ)) (ms : List FittedModule)
      → validate_modules hull_slots module_slot slots seen ms ≡ none
      → repair_modules hull_slots module_slot slots seen ms ≡ ms
  unfolding validate_modules repair_modules
  repair-validated_modules slots seen [] h = refl
  repair-validated_modules slots seen (m ∷ ms) h =
      let same = kept_slot_agrees slots m in
      elim (Fit-cases (check_fitted hull_slots module_slot slots m)) [
        | inl (p, e) ↦ ground (arith, e, same)
        | inr (k, i, e) ↦ ground (arith, e, same, repair-validated_modules slots ((k, i) ∷ seen) ms)
      ]

  -- For a boat of a known hull with an acceptable name, the repaired boat passes the whole check,
  -- and a boat that passes is left as it is by the repair.
  pub validate-repair_boat :
      (boat : BoatTemplate) (slots : SlotKind → ℕ)
      → hull_slots boat.hull ≡ some slots
      → validate_boat_name (normalize_name boat.name) ≡ none
      → (validate_boat hull_slots module_slot (repair_boat hull_slots module_slot boat) ≡ none)
        × (validate_boat hull_slots module_slot boat ≡ none
            → repair_boat hull_slots module_slot boat ≡ boat)
  unfolding validate_boat repair_boat
  validate-repair_boat boat slots known named = (
    ground (arith, known, named, validate-repair_modules slots [] boat.modules),
    λ h. ground (arith, known, named, repair-validated_modules slots [] boat.modules),
  )
