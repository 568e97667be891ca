-- ===== src/Match/Store/Frames.antt =====
-- How the frames to one account are numbered.
use seg.Prelude.{
  ℕ, ◌+◌, Bool, false, ◌&&◌, Option, none, some, List, [], ◌∷◌, ◌==◌, if◌then◌else◌, All, get, set,
  delete, get-set, get-delete, number_key, ◌≡◌, refl, arith, Bool-cases, Option-cases, inl, inr, ap,
  sym, ◌∙◌, ==_iff,
}
use seg.Lobby.State.{AccountId}
use seg.Match.Store.{
  MatchRuntime, MatchRecord, MatchStore, is_running, store, conclude, settle, with_state, update,
  release, frame_of, view_for, forgetting, reset_vision, connecting, set_connected, saying,
  add_chat, remove_match, fresh, count_of,
}
use seg.Match.Store.Operations.{
  StoreOp, stores, concludes, updates, releases, views, resets, connects, says, removes, moves,
  moving, run, run_all,
}
use seg.Match.Store.Fields.{
  reads, reads-at, reads-write, reads-write_other, reads-modify_record, reads-modify_seated,
}
use seg.Match.Store.Endings.{Spares}

module _ (rt : MatchRuntime) (id : ℕ) (account : AccountId) where
  abbrev sent_in : Option (MatchRecord rt) → Option ℕ
  sent_in none = none
  sent_in (some r) = some (count_of (get account r.view_seq))

  -- The number of the last frame of the match to the account, 0 before the first.
  abbrev pub last_frame : MatchStore rt → Option ℕ
  last_frame = reads rt sent_in id

  abbrev is_frame : StoreOp rt → Bool
  is_frame (views j a) = j == id && a == account
  is_frame _ = false

  abbrev pub frames : List (StoreOp rt) → ℕ
  frames [] = 0
  frames (op ∷ ops) = if is_frame op then 1 + frames ops else frames ops

  sent-frame_of :
      (a : AccountId) (r : MatchRecord rt)
      → sent_in (some (frame_of rt a r).0)
        ≡ some (count_of (get account r.view_seq) + (if a == account then 1 else 0))
  unfolding frame_of
  sent-frame_of a r =
      let seq = count_of (get a r.view_seq) + 1 in
      let stored = get-set a account seq r.view_seq in
      elim (Bool-cases (a == account)) [
        | inl e ↦
            let same = ap (λ k. get k r.view_seq) ((==_iff a account).0 e) in
            ground (arith, e, stored, same)
        | inr e ↦ ground (arith, e, stored)
      ]

  -- The record of a match that has one is there after an operation that spares it.
  module _ (n : ℕ) where
    abbrev At : MatchStore rt → Type 0
    At s = last_frame s ≡ some n

    run-frame :
        (op : StoreOp rt) (s : MatchStore rt)
        → Spares rt id op
        → At s
        → last_frame (run rt op s) ≡ some (if is_frame op then n + 1 else n)
    unfolding run store conclude settle update release reset_vision set_connected add_chat
        remove_match view_for
    run-frame (stores state lobby_name) s spares h =
        reads-write_other rt sent_in id state.match_id (fresh rt state lobby_name) s spares ∙ h
    run-frame (concludes j) s spares h = elim (Option-cases (get j s.matches)) [
      | inl e ↦ rw (e, run, conclude) h
      | inr (r, e) ↦ elim (Bool-cases (is_running r.results)) [
        | inr f ↦ rw (e, f, run, conclude) h
        | inl f ↦ elim (Option-cases (rt.results r.runtime)) [
          | inl g ↦ rw (e, f, g, run, conclude, settle) h
          | inr (results, g) ↦
              let r' = record r { results = some results } in
              rw (e, f, g, run, conclude, settle) (reads-write rt sent_in id j r r' s e refl ∙ h)
        ]
      ]
    ]
    run-frame (updates state) s spares h =
        reads-modify_record rt sent_in id state.match_id (with_state rt state) s (λ r. refl) ∙ h
    run-frame (releases a) s spares h = h
    run-frame (views j a) s spares h = elim (Option-cases (get j s.matches)) [
      | inl e ↦ elim (Bool-cases (j == id)) [
        | inl f ↦
            let absent = ap (λ k. sent_in (get k s.matches)) ((==_iff j id).0 f) in
            ground (arith, absent, ap sent_in e, h)
        | inr f ↦ rw (e, f, run, view_for) h
      ]
      | inr (r, e) ↦ elim (Bool-cases (j == id)) [
        | inl f ↦
            let r' = (frame_of rt a r).0 in
            let stored : get id (set j r' s.matches) ≡ some r' =
              ground (arith, get-set j id r' s.matches) in
            let before = sym (reads-at rt sent_in id j r s f e) ∙ h in
            rw (e, f, run, view_for)
              (ap sent_in stored ∙ sent-frame_of a r ∙ ground (arith, before))
        | inr f ↦
            rw (e, f, run, view_for) (reads-write_other rt sent_in id j (frame_of rt a r).0 s f ∙ h)
      ]
    ]
    run-frame (resets a) s spares h =
        reads-modify_seated rt sent_in id a (forgetting rt a) s (λ r. refl) ∙ h
    run-frame (connects a connected) s spares h =
        reads-modify_seated rt sent_in id a (connecting rt a connected) s (λ r. refl) ∙ h
    run-frame (says j spoken) s spares h = elim (Option-cases (get j s.matches)) [
      | inl e ↦ rw (e, run, add_chat) h
      | inr (r, e) ↦
          rw (e, run, add_chat) (reads-write rt sent_in id j r (saying rt spoken r) s e refl ∙ h)
    ]
    run-frame (removes j) s spares h =
        let same : get id (delete j s.matches) ≡ get id s.matches =
          ground (arith, get-delete j id s.matches) in
        ap sent_in same ∙ h
    run-frame (moves j f) s spares h =
        reads-modify_record rt sent_in id j (moving rt f) s (λ r. refl) ∙ h

  run_all-frames :
      (ops : List (StoreOp rt)) (s : MatchStore rt) (n : ℕ)
      → All (Spares rt id) ops
      → last_frame s ≡ some n
      → last_frame (run_all rt ops s) ≡ some (n + frames ops)
  unfolding run_all
  run_all-frames [] s n spares h = h ∙ ground arith
  run_all-frames (op ∷ ops) s n spares h = elim (Bool-cases (is_frame op)) [
    | inl e ↦
        let next : last_frame (run rt op s) ≡ some (n + 1) =
          run-frame n op s spares.0 h ∙ rw e refl in
        let total : n + 1 + frames ops ≡ n + frames (op ∷ ops) = ground (arith, e) in
        run_all-frames ops (run rt op s) (n + 1) spares.1 next ∙ ap some total
    | inr e ↦
        let next : last_frame (run rt op s) ≡ some n = run-frame n op s spares.0 h ∙ rw e refl in
        let total : n + frames ops ≡ n + frames (op ∷ ops) = ground (arith, e) in
        run_all-frames ops (run rt op s) n spares.1 next ∙ ap some total
  ]

  abbrev pub frame_number : Option (ℕ × rt.View) → Option ℕ
  frame_number none = none
  frame_number (some (seq, view)) = some seq

  -- The frames of a match to an account are numbered one after another: whatever is done to the
  -- store since frame `n` that neither begins a match with the id nor drops it, the next frame has
  -- the number after `n` and after as many as were sent to that account meanwhile.
  pub view_for-next :
      (ops : List (StoreOp rt)) (s : MatchStore rt) (n : ℕ)
      → All (Spares rt id) ops
      → last_frame s ≡ some n
      → frame_number (view_for rt id account (run_all rt ops s)).1 ≡ some (n + frames ops + 1)
  unfolding view_for frame_of
  view_for-next ops s n spares h =
      let s' = run_all rt ops s in
      let last = run_all-frames ops s n spares h in
      elim (Option-cases (get id s'.matches)) [
        | inl e ↦ ground (arith, ap sent_in e, last)
        | inr (r, e) ↦
            let counted = sym (ap sent_in e) ∙ last in
            rw (e, view_for, frame_of) (ground (arith, counted))
      ]
