-- ===== src/Match/Store/Logs.antt =====
-- The backlog of a match against the log of all that was said in it.
use seg.Prelude.{
  ℕ, ◌+◌, false, Option, none, some, List, [], ◌∷◌, ◌++◌, length, length-append, true, ◌==◌,
  if◌then◌else◌, get, set, delete, get-set, get-delete, number_key, ◌≡◌, refl, arith, Bool-cases,
  Option-cases, inl, inr, ap, sym, ◌∙◌, ==_iff,
}
use seg.Match.Store.{
  MatchRuntime, MatchRecord, MatchStore, is_running, store, conclude, settle, with_state, update,
  release, frame_of, view_for, forgetting, reset_vision, connecting, set_connected, saying,
  add_chat, remove_match, fresh, write,
}
use seg.Match.Store.Operations.{
  StoreOp, stores, concludes, updates, releases, views, resets, connects, says, removes, moves,
  moving, run, run_all, no_matches,
}
use seg.Match.Store.Fields.{
  reads, reads-at, reads-write, reads-write_other, reads-modify_record, reads-modify_seated,
}
use seg.Chat.{ChatEntry}
use seg.Match.Store.{Spoken, remember, numbered}
use seg.Match.Store.Chats.{backlog, remember-backlog}

module _ (rt : MatchRuntime) (id : ℕ) where
  abbrev said_after : Spoken → Option (List Spoken) → Option (List Spoken)
  said_after said none = none
  said_after said (some log) = some (log ++ said ∷ [])

  -- The log of the match, which only its beginning, its end and what is said in it change.
  abbrev pub log_step : StoreOp rt → Option (List Spoken) → Option (List Spoken)
  log_step (stores state lobby_name) log = if state.match_id == id then some [] else log
  log_step (removes j) log = if j == id then none else log
  log_step (says j said) log = if j == id then said_after said log else log
  log_step _ log = log

  abbrev pub logged : List (StoreOp rt) → Option (List Spoken) → Option (List Spoken)
  logged [] log = log
  logged (op ∷ ops) log = logged ops (log_step op log)

  -- The next id and the backlog that a match with the log has.
  abbrev pub kept_of : Option (List Spoken) → Option (ℕ × List ChatEntry)
  kept_of none = none
  kept_of (some log) = some (length log + 1, backlog log)

  abbrev kept_in : Option (MatchRecord rt) → Option (ℕ × List ChatEntry)
  kept_in none = none
  kept_in (some r) = some (r.next_chat_id, r.chat)

  abbrev pub kept : MatchStore rt → Option (ℕ × List ChatEntry)
  kept = reads rt kept_in id

  kept-write :
      (r : MatchRecord rt) (s : MatchStore rt) (j : ℕ)
      → (j == id) ≡ true
      → kept (write rt j r s) ≡ some (r.next_chat_id, r.chat)
  kept-write r s j e =
      let stored : get id (set j r s.matches) ≡ some r = ground (arith, get-set j id r s.matches) in
      ap kept_in stored

  says-kept :
      (j : ℕ) (said : Spoken) (s : MatchStore rt) (log : Option (List Spoken))
      → (j == id) ≡ true
      → kept s ≡ kept_of log
      → kept (add_chat rt j said s).0 ≡ kept_of (said_after said log)
  unfolding add_chat
  says-kept j said s none f h = elim (Option-cases (get j s.matches)) [
    | inl e ↦ rw (e, add_chat) h
    | inr (r, e) ↦ let there = sym (reads-at rt kept_in id j r s f e) ∙ h in ground (arith, there)
  ]
  says-kept j said s (some log) f h = elim (Option-cases (get j s.matches)) [
    | inl e ↦
        let absent = ap (λ k. kept_in (get k s.matches)) ((==_iff j id).0 f) in
        ground (arith, absent, ap kept_in e, h)
    | inr (r, e) ↦
        let there : some (r.next_chat_id, r.chat) ≡ some (length log + 1, backlog log) =
          sym (reads-at rt kept_in id j r s f e) ∙ h in
        let next : r.next_chat_id ≡ length log + 1 = ground (arith, there) in
        let chat : r.chat ≡ backlog log = ground (arith, there) in
        let ids : r.next_chat_id + 1 ≡ length (log ++ said ∷ []) + 1 =
          ground (arith, next, length-append log (said ∷ [])) in
        let lines : (saying rt said r).chat ≡ backlog (log ++ said ∷ []) =
          ap (λ n. remember (numbered n said) r.chat) next
          ∙ ap (remember (numbered (length log + 1) said)) chat
          ∙ remember-backlog log said in
        rw (e, add_chat)
          (kept-write (saying rt said r) s j f
            ∙ ap (λ n. some (n, (saying rt said r).chat)) ids
            ∙ ap (λ c. some (length (log ++ said ∷ []) + 1, c)) lines)
  ]

  says-elsewhere :
      (j : ℕ) (said : Spoken) (s : MatchStore rt)
      → (j == id) ≡ false
      → kept (add_chat rt j said s).0 ≡ kept s
  unfolding add_chat
  says-elsewhere j said s f = elim (Option-cases (get j s.matches)) [
    | inl e ↦ rw (e, add_chat) refl
    | inr (r, e) ↦ rw (e, add_chat) (reads-write_other rt kept_in id j (saying rt said r) s f)
  ]

  run-kept :
      (op : StoreOp rt) (s : MatchStore rt) (log : Option (List Spoken))
      → kept s ≡ kept_of log
      → kept (run rt op s) ≡ kept_of (log_step op log)
  unfolding run store conclude settle update release reset_vision set_connected add_chat
      remove_match view_for frame_of
  run-kept (stores state lobby_name) s log h = elim (Bool-cases (state.match_id == id)) [
    | inl e ↦ rw e (kept-write (fresh rt state lobby_name) s state.match_id e)
    | inr e ↦
        rw e (reads-write_other rt kept_in id state.match_id (fresh rt state lobby_name) s e ∙ h)
  ]
  run-kept (concludes j) s log h = elim (Option-cases (get j s.matches)) [
    | inl e ↦ rw (e, run, conclude) h
    | inr (r, e) ↦ elim (Bool-cases (is_running r.results)) [
      | inr f ↦ rw (e, f, run, conclude) h
      | inl f ↦ elim (Option-cases (rt.results r.runtime)) [
        | inl g ↦ rw (e, f, g, run, conclude, settle) h
        | inr (results, g) ↦
            let r' = record r { results = some results } in
            rw (e, f, g, run, conclude, settle) (reads-write rt kept_in id j r r' s e refl ∙ h)
      ]
    ]
  ]
  run-kept (updates state) s log h =
      reads-modify_record rt kept_in id state.match_id (with_state rt state) s (λ r. refl) ∙ h
  run-kept (releases a) s log h = h
  run-kept (views j a) s log h = elim (Option-cases (get j s.matches)) [
    | inl e ↦ rw (e, run, view_for) h
    | inr (r, e) ↦
        rw (e, run, view_for) (reads-write rt kept_in id j r (frame_of rt a r).0 s e refl ∙ h)
  ]
  run-kept (resets a) s log h =
      reads-modify_seated rt kept_in id a (forgetting rt a) s (λ r. refl) ∙ h
  run-kept (connects a connected) s log h =
      reads-modify_seated rt kept_in id a (connecting rt a connected) s (λ r. refl) ∙ h
  run-kept (says j said) s log h = elim (Bool-cases (j == id)) [
    | inl e ↦ rw e (says-kept j said s log e h)
    | inr e ↦ rw e (says-elsewhere j said s e ∙ h)
  ]
  run-kept (removes j) s log h = elim (Bool-cases (j == id)) [
    | inl e ↦
        let gone : get id (delete j s.matches) ≡ none = ground (arith, get-delete j id s.matches) in
        rw e (ap kept_in gone)
    | inr e ↦
        let same : get id (delete j s.matches) ≡ get id s.matches =
          ground (arith, get-delete j id s.matches) in
        rw e (ap kept_in same ∙ h)
  ]
  run-kept (moves j f) s log h = reads-modify_record rt kept_in id j (moving rt f) s (λ r. refl) ∙ h

  run_all-kept :
      (ops : List (StoreOp rt)) (s : MatchStore rt) (log : Option (List Spoken))
      → kept s ≡ kept_of log
      → kept (run_all rt ops s) ≡ kept_of (logged ops log)
  unfolding run_all
  run_all-kept [] s log h = h
  run_all-kept (op ∷ ops) s log h =
      run_all-kept ops (run rt op s) (log_step op log) (run-kept op s log h)

  -- After any operations on an empty store, a match is there just when its log is, its next chat id
  -- is one more than the lines of the log, and its backlog is the newest fifty of them as they were
  -- said, with their places in the log for ids.
  pub run_all_refines :
      (ops : List (StoreOp rt)) → kept (run_all rt ops (no_matches rt)) ≡ kept_of (logged ops none)
  unfolding get
  run_all_refines ops = run_all-kept ops (no_matches rt) none refl
