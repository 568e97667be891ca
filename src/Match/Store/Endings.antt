-- ===== src/Match/Store/Endings.antt =====
-- A match ends once.
use seg.Prelude.{
  ℕ, false, none, some, List, [], ◌∷◌, ◌==◌, All, get, set, delete, get-set, get-delete, number_key,
  ◌≡◌, refl, arith, Bool-cases, Option-cases, inl, inr, ap, sym, ◌∙◌, ==_refl, ==_refl,
}
use seg.Match.Store.{
  MatchRuntime, MatchResults, MatchStore, is_running, store, conclude, settle, results_in,
  results_for, with_state, update, release, frame_of, view_for, forgetting, reset_vision,
  connecting, set_connected, saying, add_chat, remove_match, fresh,
}
use seg.Match.Store.Operations.{
  StoreOp, stores, concludes, updates, releases, views, resets, connects, says, removes, moves,
  moving, run, run_all,
}
use seg.Match.Store.Fields.{
  reads-at, reads-write, reads-write_other, reads-modify_record, reads-modify_seated,
}

module _ (rt : MatchRuntime) where
  -- The operation neither begins a match with the id nor drops it.
  abbrev pub Spares : ℕ → StoreOp rt → Type 0
  Spares id (stores state lobby_name) = (state.match_id == id) ≡ false
  Spares id (removes j) = (j == id) ≡ false
  Spares id _ = Unit

  module _ (id : ℕ) where
    module _ (results : MatchResults rt.Report) where
      abbrev HasEnded : MatchStore rt → Type 0
      HasEnded s = results_for rt id s ≡ some results

      conclude-ended : (s : MatchStore rt) → HasEnded s → conclude rt id s ≡ (s, none)
      unfolding conclude results_for
      conclude-ended s h = elim (Option-cases (get id s.matches)) [
        | inl e ↦ rw (e, conclude) refl
        | inr (r, e) ↦
            let over : r.results ≡ some results = sym (ap (results_in rt) e) ∙ h in
            rw (e, over, conclude) refl
      ]

      conclude-HasEnded : (j : ℕ) (s : MatchStore rt) → HasEnded s → HasEnded (conclude rt j s).0
      unfolding conclude settle results_for
      conclude-HasEnded j s h = elim (Option-cases (get j s.matches)) [
        | inl e ↦ rw (e, conclude) h
        | inr (r, e) ↦ elim (Bool-cases (is_running r.results)) [
          | inr f ↦ rw (e, f, conclude) h
          | inl f ↦ elim (Option-cases (rt.results r.runtime)) [
            | inl g ↦ rw (e, f, g, conclude, settle) h
            | inr (found, g) ↦ elim (Bool-cases (j == id)) [
              | inl k ↦
                  let over : r.results ≡ some results =
                    sym (reads-at rt (results_in rt) id j r s k e) ∙ h in
                  ground (arith, over, f)
              | inr k ↦
                  let r' = record r { results = some found } in
                  rw (e, f, g, conclude, settle)
                    (reads-write_other rt (results_in rt) id j r' s k ∙ h)
            ]
          ]
        ]
      ]

      run-HasEnded :
          (op : StoreOp rt) (s : MatchStore rt) → Spares id op → HasEnded s → HasEnded (run rt op s)
      unfolding run store update release view_for reset_vision set_connected add_chat remove_match
          results_for frame_of
      run-HasEnded (stores state lobby_name) s spares h =
          reads-write_other rt (results_in rt) id state.match_id (fresh rt state lobby_name) s
            spares
          ∙ h
      run-HasEnded (concludes j) s spares h = conclude-HasEnded j s h
      run-HasEnded (updates state) s spares h =
          reads-modify_record rt (results_in rt) id state.match_id (with_state rt state) s
            (λ r. refl)
          ∙ h
      run-HasEnded (releases account) s spares h = h
      run-HasEnded (views j account) s spares h = elim (Option-cases (get j s.matches)) [
        | inl e ↦ rw (e, run, view_for) h
        | inr (r, e) ↦
            rw (e, run, view_for)
              (reads-write rt (results_in rt) id j r (frame_of rt account r).0 s e refl ∙ h)
      ]
      run-HasEnded (resets account) s spares h =
          reads-modify_seated rt (results_in rt) id account (forgetting rt account) s (λ r. refl)
          ∙ h
      run-HasEnded (connects account connected) s spares h =
          reads-modify_seated rt (results_in rt) id account (connecting rt account connected) s
            (λ r. refl)
          ∙ h
      run-HasEnded (says j spoken) s spares h = elim (Option-cases (get j s.matches)) [
        | inl e ↦ rw (e, run, add_chat) h
        | inr (r, e) ↦
            rw (e, run, add_chat)
              (reads-write rt (results_in rt) id j r (saying rt spoken r) s e refl ∙ h)
      ]
      run-HasEnded (removes j) s spares h =
          let same : get id (delete j s.matches) ≡ get id s.matches =
            ground (arith, get-delete j id s.matches) in
          ap (results_in rt) same ∙ h
      run-HasEnded (moves j f) s spares h =
          reads-modify_record rt (results_in rt) id j (moving rt f) s (λ r. refl) ∙ h

      run_all-HasEnded :
          (ops : List (StoreOp rt)) (s : MatchStore rt)
          → All (Spares id) ops
          → HasEnded s
          → HasEnded (run_all rt ops s)
      unfolding run_all
      run_all-HasEnded [] s spares h = h
      run_all-HasEnded (op ∷ ops) s spares h =
          run_all-HasEnded ops (run rt op s) spares.1 (run-HasEnded op s spares.0 h)

      conclude-done :
          (s : MatchStore rt) → (conclude rt id s).1 ≡ some results → HasEnded (conclude rt id s).0
      unfolding conclude settle results_for
      conclude-done s h = elim (Option-cases (get id s.matches)) [
        | inl e ↦ ground (arith, rw (e, conclude) at h)
        | inr (r, e) ↦ elim (Bool-cases (is_running r.results)) [
          | inr f ↦ ground (arith, rw (e, f, conclude) at h)
          | inl f ↦ elim (Option-cases (rt.results r.runtime)) [
            | inl g ↦ ground (arith, rw (e, f, g, conclude, settle) at h)
            | inr (found, g) ↦
                let r' = record r { results = some found } in
                let stored : get id (set id r' s.matches) ≡ some r' =
                  ground (arith, get-set id id r' s.matches, ==_refl id) in
                rw (e, f, g, conclude, settle)
                  (ap (results_in rt) stored ∙ rw (e, f, g, conclude, settle) at h)
          ]
        ]
      ]

  -- A match whose end the store announces is never announced again, whatever is done to the store
  -- meanwhile that neither begins a match with the id nor drops it, and the results that were
  -- announced are those that a player who comes later is given.
  pub conclude-once :
      (id : ℕ) (results : MatchResults rt.Report) (ops : List (StoreOp rt)) (s : MatchStore rt)
      → (conclude rt id s).1 ≡ some results
      → All (Spares id) ops
      → (conclude rt id (run_all rt ops (conclude rt id s).0)
          ≡ (run_all rt ops (conclude rt id s).0, none))
        × (results_for rt id (run_all rt ops (conclude rt id s).0) ≡ some results)
  conclude-once id results ops s h spares =
      let ended =
        run_all-HasEnded id results ops (conclude rt id s).0 spares
          (conclude-done id results s h) in
      (conclude-ended id results (run_all rt ops (conclude rt id s).0) ended, ended)
