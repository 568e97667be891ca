-- ===== src/Auth/Service/Sessions.antt =====
-- How long a session lives: from the login that issues it, through its uses, to its end.
use seg.Prelude.{
  ℕ, ◌+◌, ◌≤◌, Bool, true, false, not, Option, none, some, List, [], ◌∷◌, ◌==◌, leb, ◌≡◌, ◌≢◌, ◌⊎◌,
  inl, inr, refl, ◌∙◌, arith, All-map, InOrder, Bool-cases, Option-cases, if◌then◌else◌,
  find-filter-none, find-filter,
}
use seg.Text.{Text}
use seg.Auth.Tables.{
  AccountRow, SessionRow, find_by_id, find_by_token_hash, has_token, touch, delete_where,
  delete_by_token_hash, delete_all_for_account,
}
use seg.Auth.Service.Invariant.{OtherToken, the_row}
use seg.Auth.Contract.{ResolvedSession, touch_interval_ms, sliding_refresh_interval_ms}
use seg.Auth.Service.{AuthService, resolve_session, resolve_live, slides, idle_for, logout_all}

found-touch :
    (token_hash : Text) (now expires_at : ℕ) (session : SessionRow) (rows : List SessionRow)
    → find_by_token_hash token_hash rows ≡ some session
    → find_by_token_hash token_hash (touch token_hash now expires_at rows)
      ≡ some (record session { last_used_at = now; expires_at = expires_at })
unfolding find_by_token_hash touch
found-touch token_hash now expires_at session [] e = ground arith
found-touch token_hash now expires_at session (row ∷ rows) e =
    ground (arith, found-touch token_hash now expires_at session rows)

pub not_found-delete :
    (token_hash : Text) (rows : List SessionRow)
    → find_by_token_hash token_hash (delete_by_token_hash token_hash rows).0 ≡ none
unfolding find_by_token_hash delete_by_token_hash delete_where
not_found-delete token_hash [] = refl
not_found-delete token_hash (row ∷ rows) = ground (arith, not_found-delete token_hash rows)

module _ (to_lower_case hash_token : Text → Text) (verify : Text → Text → Option Bool) where
  -- The session that a token opens, as it is stored.
  abbrev pub session_of : Text → AuthService → Option SessionRow
  session_of token s = find_by_token_hash (hash_token token) s.sessions

  abbrev pub resolved : Text → ℕ → AuthService → Option ResolvedSession
  resolved token now s = (resolve_session to_lower_case hash_token verify token now s).1

  -- A use of each instant of the list, in turn.
  unfoldable pub visits : Text → List ℕ → AuthService → AuthService
  visits token [] s = s
  visits token (now ∷ nows) s =
      visits token nows (resolve_session to_lower_case hash_token verify token now s).0

  -- Each use comes at most 23 hours and 55 minutes after the one before.
  abbrev pub Busy : ℕ → List ℕ → Type 0
  Busy last [] = Unit
  Busy last (now ∷ nows) =
      (last ≤ now) × (now + touch_interval_ms ≤ last + sliding_refresh_interval_ms) × Busy now nows

  -- The session is gone, or stored with this expiry and with a last use at most five minutes before
  -- `last`.
  abbrev Kept : Text → ℕ → ℕ → AuthService → Type 0
  Kept token expires_at last s =
      (session_of token s ≡ none)
      ⊎ ((session : SessionRow) × (session_of token s ≡ some session)
          × (session.expires_at ≡ expires_at)
          × (session.last_used_at ≤ last)
          × (last ≤ session.last_used_at + touch_interval_ms))

  not_sliding :
      (last now : ℕ) (session : SessionRow)
      → last ≤ session.last_used_at + touch_interval_ms
      → now + touch_interval_ms ≤ last + sliding_refresh_interval_ms
      → slides to_lower_case hash_token verify now session ≡ false
  not_sliding last now session after soon = ground arith

  resolve_live-Kept :
      (token : Text) (expires_at last now : ℕ) (session : SessionRow) (account : AccountRow)
      (s : AuthService)
      → session_of token s ≡ some session
      → session.expires_at ≡ expires_at
      → session.last_used_at ≤ last
      → last ≤ session.last_used_at + touch_interval_ms
      → last ≤ now
      → now + touch_interval_ms ≤ last + sliding_refresh_interval_ms
      → Kept token expires_at now
          (resolve_live to_lower_case hash_token verify (hash_token token) now session account s).0
  unfolding resolve_live
  resolve_live-Kept token expires_at last now session account s e same before after later soon =
      elim (Bool-cases (idle_for to_lower_case hash_token verify touch_interval_ms now session)) [
        | inl t ↦
            rw (not_sliding last now session after soon, t, resolve_live)
              (inr (
                record session { last_used_at = now },
                found-touch (hash_token token) now session.expires_at session s.sessions e,
                same,
                omega arith,
                omega arith,
              ))
        | inr f ↦
            rw (not_sliding last now session after soon, f, resolve_live)
              (inr (session, e, same, omega arith, ground arith))
      ]

  resolve-Kept :
      (token : Text) (expires_at last now : ℕ) (s : AuthService)
      → last ≤ now
      → now + touch_interval_ms ≤ last + sliding_refresh_interval_ms
      → Kept token expires_at last s
      → Kept token expires_at now (resolve_session to_lower_case hash_token verify token now s).0
  unfolding resolve_session
  resolve-Kept token expires_at last now s later soon (inl e) = rw (e, resolve_session) (inl e)
  resolve-Kept token expires_at last now s later soon (inr (session, e, same, before, after)) =
      elim (Bool-cases (leb session.expires_at now)) [
        | inl t ↦ rw (e, t, resolve_session) (inl (not_found-delete (hash_token token) s.sessions))
        | inr f ↦ elim (Option-cases (find_by_id session.account_id s.accounts)) [
          | inl g ↦
              rw (e, f, g, resolve_session) (inl (not_found-delete (hash_token token) s.sessions))
          | inr (account, g) ↦
              rw (e, f, g, resolve_session)
                (resolve_live-Kept token expires_at last now session account s e same before after
                  later soon)
        ]
      ]

  Kept-ends :
      (token : Text) (expires_at last now : ℕ) (s : AuthService)
      → expires_at ≤ now
      → Kept token expires_at last s
      → resolved token now s ≡ none
  unfolding resolve_session
  Kept-ends token expires_at last now s late (inl e) = ground arith
  Kept-ends token expires_at last now s late (inr (session, e, same, before, after)) = ground arith

  visits-Kept :
      (token : Text) (expires_at last : ℕ) (nows : List ℕ) (s : AuthService)
      → Busy last nows
      → Kept token expires_at last s
      → (end : ℕ) × Kept token expires_at end (visits token nows s)
  unfolding visits
  visits-Kept token expires_at last [] s busy k = (last, k)
  visits-Kept token expires_at last (now ∷ nows) s busy k =
      visits-Kept token expires_at now nows _ busy.2
        (resolve-Kept token expires_at last now s busy.0 busy.1 k)

  -- A session in steady use, each use at most 23 hours and 55 minutes after the one before, never
  -- slides, remembered or not: at the expiry that it has at the first use it is over.
  pub steady_session_ends :
      (token : Text) (session : SessionRow) (nows : List ℕ) (now : ℕ) (s : AuthService)
      → session_of token s ≡ some session
      → Busy session.last_used_at nows
      → session.expires_at ≤ now
      → resolved token now (visits token nows s) ≡ none
  steady_session_ends token session nows now s e busy late =
      let (end, k) =
        visits-Kept token session.expires_at session.last_used_at nows s busy
          (inr (session, e, refl, omega arith, omega arith)) in
      Kept-ends token session.expires_at end now _ late k

  kept_row :
      (token_hash : Text) (id : ℕ) (session row : SessionRow)
      → session.account_id ≢ id
      → (has_token token_hash row ≡ true → row ≡ session)
      → has_token token_hash row ≡ true
      → not (row.account_id == id) ≡ true
  kept_row token_hash id session row other h t = rw (h t) (ground arith)

  dropped_row :
      (token_hash : Text) (id : ℕ) (session row : SessionRow)
      → session.account_id ≡ id
      → (has_token token_hash row ≡ true → row ≡ session)
      → has_token token_hash row ≡ true
      → not (row.account_id == id) ≡ false
  dropped_row token_hash id session row mine h t = rw (h t) (ground arith)

  found-logout_all :
      (token_hash : Text) (id : ℕ) (session : SessionRow) (rows : List SessionRow)
      → InOrder OtherToken rows
      → find_by_token_hash token_hash rows ≡ some session
      → find_by_token_hash token_hash (delete_all_for_account id rows).0
        ≡ (if session.account_id == id then none else some session)
  unfolding delete_all_for_account delete_where
  found-logout_all token_hash id session rows h e =
      let only = the_row token_hash rows session h e in
      elim (Bool-cases (session.account_id == id)) [
        | inl t ↦ rw t (
            unfold find_by_token_hash in
            find-filter-none (has_token token_hash) _ rows
              (All-map (λ row. dropped_row token_hash id session row (ground arith)) rows only))
        | inr f ↦ rw f (
            unfold find_by_token_hash in
            (find-filter (has_token token_hash) _ rows
                (All-map (λ row. kept_row token_hash id session row (ground arith)) rows only)
              ∙ e))
      ]

  -- Where no two sessions share a token: after an account's sessions are all ended, a token of its
  -- own resolves to nothing, and that of another account to what it resolved to before.
  pub logout_all-resolved :
      (token : Text) (id now : ℕ) (session : SessionRow) (s : AuthService)
      → InOrder OtherToken s.sessions
      → session_of token s ≡ some session
      → resolved token now (logout_all id s).0
        ≡ (if session.account_id == id then none else resolved token now s)
  unfolding logout_all resolve_session resolve_live
  logout_all-resolved token id now session s h e =
      ground (arith, found-logout_all (hash_token token) id session s.sessions h e)
