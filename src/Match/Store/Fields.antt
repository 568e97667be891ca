-- ===== src/Match/Store/Fields.antt =====
-- What a part of the record of a match is, after the store is written.
use seg.Prelude.{
  ℕ, true, false, Option, some, ◌==◌, get, set, get-set, number_key, ◌≡◌, refl, arith, Bool-cases,
  Option-cases, inl, inr, ap, subst, sym, ◌∙◌, ==_iff,
}
use seg.Lobby.State.{AccountId}
use seg.Match.Store.{MatchRuntime, MatchRecord, MatchStore, modify_record, modify_seated, write}

module _ (rt : MatchRuntime) where
  -- Of the record of a match, `read` sees what an update leaves as it is.
  module _ {X : Type 0} (read : Option (MatchRecord rt) → X) (id : ℕ) where
    abbrev pub reads : MatchStore rt → X
    reads s = read (get id s.matches)

    pub reads-write_other :
        (j : ℕ) (r : MatchRecord rt) (s : MatchStore rt)
        → (j == id) ≡ false
        → reads (write rt j r s) ≡ reads s
    reads-write_other j r s f =
        let stored : get id (set j r s.matches) ≡ get id s.matches =
          ground (arith, get-set j id r s.matches) in
        ap read stored

    pub reads-at :
        (j : ℕ) (r : MatchRecord rt) (s : MatchStore rt)
        → (j == id) ≡ true
        → get j s.matches ≡ some r
        → reads s ≡ read (some r)
    reads-at j r s f e =
        let here : get id s.matches ≡ some r =
          subst (λ k. get k s.matches ≡ some r) ((==_iff j id).0 f) e in
        ap read here

    pub reads-write :
        (j : ℕ) (r r' : MatchRecord rt) (s : MatchStore rt)
        → get j s.matches ≡ some r
        → read (some r') ≡ read (some r)
        → reads (write rt j r' s) ≡ reads s
    reads-write j r r' s e same = elim (Bool-cases (j == id)) [
      | inl f ↦
          let stored : get id (set j r' s.matches) ≡ some r' =
            ground (arith, get-set j id r' s.matches) in
          ap read stored ∙ same ∙ sym (reads-at j r s f e)
      | inr f ↦ reads-write_other j r' s f
    ]

    pub reads-modify_record :
        (j : ℕ) (f : MatchRecord rt → MatchRecord rt) (s : MatchStore rt)
        → ((r : MatchRecord rt) → read (some (f r)) ≡ read (some r))
        → reads (modify_record rt j f s) ≡ reads s
    unfolding modify_record
    reads-modify_record j f s keeps = elim (Option-cases (get j s.matches)) [
      | inl e ↦ rw (e, modify_record) refl
      | inr (r, e) ↦ rw (e, modify_record) (reads-write j r (f r) s e (keeps r))
    ]

    pub reads-modify_seated :
        (account : AccountId) (f : MatchRecord rt → MatchRecord rt) (s : MatchStore rt)
        → ((r : MatchRecord rt) → read (some (f r)) ≡ read (some r))
        → reads (modify_seated rt account f s) ≡ reads s
    unfolding modify_seated
    reads-modify_seated account f s keeps = elim (Option-cases (get account s.by_account)) [
      | inl e ↦ rw (e, modify_seated) refl
      | inr (j, e) ↦ rw (e, modify_seated) (reads-modify_record j f s keeps)
    ]
