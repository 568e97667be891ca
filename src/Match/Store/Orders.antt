-- ===== src/Match/Store/Orders.antt =====
-- What an order can reach.
use seg.Prelude.{
  ℕ, Bool, false, some, List, ◌==◌, get, set, get-set, number_key, ◌≡◌, ◌≢◌, refl, arith,
  Bool-cases, Option-cases, inl, inr, ap, ◌∙◌, ==_iff,
}
use seg.Lobby.State.{AccountId}
use seg.Match.Store.{MatchRuntime, MatchStore, order, set_active_sonar, fire, drop, load}

module _ (rt : MatchRuntime) where
  order-elsewhere :
      {A : Type 0} (account : AccountId) (id : ℕ) (refused : A)
      (carry_out : rt.Runtime → rt.Runtime × A) (s : MatchStore rt)
      → get account s.by_account ≢ some id
      → get id (order rt account refused carry_out s).0.matches ≡ get id s.matches
  unfolding order
  order-elsewhere account id refused carry_out s apart =
      elim (Option-cases (get account s.by_account)) [
        | inl e ↦ rw (e, order) refl
        | inr (j, e) ↦ elim (Option-cases (get j s.matches)) [
          | inl f ↦ rw (e, f, order) refl
          | inr (r, f) ↦ elim (Bool-cases (j == id)) [
            | inl k ↦ absurd (apart (e ∙ ap some ((==_iff j id).0 k)))
            | inr k ↦
                let r' = record r { runtime = (carry_out r.runtime).0 } in
                let same : get id (set j r' s.matches) ≡ get id s.matches =
                  ground (arith, get-set j id r' s.matches) in
                rw (e, f, order) same
          ]
        ]
      ]

  -- No order of an account, to its sonar, its tubes, its launcher or its loads, changes a match that
  -- the account is not seated in.
  pub orders-elsewhere :
      (account : AccountId) (id : ℕ) (s : MatchStore rt)
      → get account s.by_account ≢ some id
      → (boat : ℕ) (tubes : List ℕ) (to : rt.Point) (active : Bool) (tube weapon : ℕ) (swap : Bool)
      → (get id (set_active_sonar rt account boat active s).0.matches ≡ get id s.matches)
        × (get id (fire rt account boat tubes to s).0.matches ≡ get id s.matches)
        × (get id (drop rt account boat s).0.matches ≡ get id s.matches)
        × (get id (load rt account boat tube weapon swap s).0.matches ≡ get id s.matches)
  unfolding set_active_sonar fire drop load
  orders-elsewhere account id s apart boat tubes to active tube weapon swap = (
    order-elsewhere account id false (rt.set_active_sonar account boat active) s apart,
    order-elsewhere account id 0 (rt.fire account boat tubes to) s apart,
    order-elsewhere account id false (rt.drop account boat) s apart,
    order-elsewhere account id false (rt.load account boat tube weapon swap) s apart,
  )
