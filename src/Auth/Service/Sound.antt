-- ===== src/Auth/Service/Sound.antt =====
-- When the tables are sound, and that each phase of a request keeps them so.
use seg.Prelude.{
  ℕ, Bool, true, false, ◌||◌, Option, none, some, List, ◌≡◌, inl, inr, refl, subst, sym, arith,
  Bool-cases, Option-cases, leb,
}
use seg.Text.{Text}
use seg.Auth.Validation.{validate_username, validate_username_iff}
use seg.Auth.Passwords.{verify_password}
use seg.Auth.Tables.{
  AccountRow, SessionRow, session_row, create_account, find_by_id, find_by_token_hash,
  create_session, delete_by_token_hash, delete_all_for_account, delete_expired,
}
use seg.Auth.Contract.{
  touch_interval_ms, AuthContext, IssuedSession, AuthAnswer, done, failed, thrown,
}
use seg.Auth.Service.{
  AuthService, begin_signup, finish_signup, begin_login, finish_login, log_in, issue_session,
  session_input, signup_input, with_account, resolve_session, resolve_live, slides, idle_for,
  new_expiry, assert_not_rate_limited, invalid_credentials_of,
}
use seg.Auth.Service.Invariant.{
  AccountsSound, SessionsSound, LivesRight, create_account_sound, touch_last_seen_sound,
  create_session_sound, touch_sound, found-LivesRight, delete_where_sound,
}

module _ (to_lower_case hash_token : Text → Text) (verify : Text → Text → Option Bool) where
  pub record Sound (s : AuthService) : Type 0 where
    pub accounts : AccountsSound to_lower_case s.accounts
    pub sessions : SessionsSound s.sessions

  abbrev pub SameTables : AuthService → AuthService → Type 0
  SameTables s t = (s.accounts ≡ t.accounts) × (s.sessions ≡ t.sessions)

  pub SameTables-Sound : (s t : AuthService) → SameTables s t → Sound s → Sound t
  SameTables-Sound s t e h = record {
    accounts = subst (AccountsSound to_lower_case) e.0 h.accounts;
    sessions = subst SessionsSound e.1 h.sessions;
  }

  pub begin_signup-tables :
      (username password : Text) (ctx : AuthContext) (s : AuthService)
      → SameTables s (begin_signup to_lower_case hash_token verify username password ctx s).0
  unfolding begin_signup assert_not_rate_limited
  begin_signup-tables username password ctx s = ground arith

  pub begin_login-tables :
      (username password : Text) (ctx : AuthContext) (s : AuthService)
      → SameTables s (begin_login to_lower_case hash_token verify username password ctx s).0
  unfolding begin_login invalid_credentials_of assert_not_rate_limited
  begin_login-tables username password ctx s = ground arith

  pub begin_signup-name :
      (username password : Text) (ctx : AuthContext) (s : AuthService) (name : Text)
      → (begin_signup to_lower_case hash_token verify username password ctx s).1 ≡ done name
      → validate_username name ≡ none
  unfolding begin_signup
  begin_signup-name username password ctx s name h = ground arith

  pub session_input-LivesRight :
      (account_id : ℕ) (remember : Bool) (ctx : AuthContext) (token : Text)
      → LivesRight (
          session_row (session_input to_lower_case hash_token verify account_id remember ctx token))
  session_input-LivesRight account_id true ctx token = omega arith
  session_input-LivesRight account_id false ctx token = omega arith

  pub issue_session-Sound :
      (account_id : ℕ) (remember : Bool) (ctx : AuthContext) (token : Text) (s : AuthService)
      → Sound s
      → Sound (issue_session to_lower_case hash_token verify account_id remember ctx token s).0
  unfolding issue_session
  issue_session-Sound account_id remember ctx token s h =
      let input = session_input to_lower_case hash_token verify account_id remember ctx token in
      elim (Option-cases (create_session input s.sessions)) [
        | inl e ↦ rw (e, issue_session) h
        | inr (sessions, e) ↦
            rw (e, issue_session)
              (record {
                accounts = h.accounts;
                sessions =
                    create_session_sound input s.sessions sessions
                      (session_input-LivesRight account_id remember ctx token) e h.sessions;
              })
      ]

  pub with_account-state :
      (row : AccountRow) (r : AuthService × AuthAnswer IssuedSession)
      → (with_account to_lower_case hash_token verify row r).0 ≡ r.0
  with_account-state row (s, done session) = refl
  with_account-state row (s, failed e) = refl
  with_account-state row (s, thrown) = refl

  pub finish_signup-Sound :
      (name : Text) (id : ℕ) (password_hash token : Text) (remember : Bool) (ctx : AuthContext)
      (s : AuthService)
      → validate_username name ≡ none
      → Sound s
      → Sound
          (finish_signup to_lower_case hash_token verify name id password_hash token remember ctx
            s).0
  unfolding finish_signup
  finish_signup-Sound name id password_hash token remember ctx s named h =
      let input = signup_input to_lower_case hash_token verify name id password_hash ctx in
      elim (Option-cases (create_account input s.accounts)) [
        | inl e ↦ rw (e, finish_signup) h
        | inr (accounts, e) ↦
            let made : Sound (record s { accounts = accounts }) = record {
              accounts =
                  create_account_sound to_lower_case input s.accounts accounts
                    ((validate_username_iff name).0 named, refl) e h.accounts;
              sessions = h.sessions;
            } in
            elim (Option-cases (find_by_id id accounts)) [
              | inl f ↦ rw (e, f, finish_signup) made
              | inr (row, f) ↦
                  rw (e, f, finish_signup)
                    (subst Sound (sym (with_account-state row _))
                      (issue_session-Sound id remember ctx token _ made))
            ]
      ]

  pub log_in-Sound :
      (account : AccountRow) (key token : Text) (remember : Bool) (ctx : AuthContext)
      (s : AuthService)
      → Sound s
      → Sound (log_in to_lower_case hash_token verify account key token remember ctx s).0
  unfolding log_in
  log_in-Sound account key token remember ctx s h =
      subst Sound (sym (with_account-state account _)) (
        issue_session-Sound account.id remember ctx token _ (record {
          accounts = touch_last_seen_sound to_lower_case account.id ctx.now s.accounts h.accounts;
          sessions = h.sessions;
        }))

  pub finish_login-Sound :
      (key password : Text) (found : Option AccountRow) (token : Text) (remember : Bool)
      (ctx : AuthContext) (s : AuthService)
      → Sound s
      → Sound
          (finish_login to_lower_case hash_token verify key password found token remember ctx s).0
  unfolding finish_login invalid_credentials_of
  finish_login-Sound key password none token remember ctx s h =
      elim (Bool-cases (verify_password verify none password)) [
        | inl e ↦ rw (e, finish_login) (SameTables-Sound s _ (refl, refl) h)
        | inr e ↦ rw (e, finish_login) (SameTables-Sound s _ (refl, refl) h)
      ]
  finish_login-Sound key password (some account) token remember ctx s h =
      elim (Bool-cases (verify_password verify (some account.password_hash) password)) [
        | inl e ↦ rw (e, finish_login) (log_in-Sound account key token remember ctx s h)
        | inr e ↦ rw (e, finish_login) (SameTables-Sound s _ (refl, refl) h)
      ]

  pub delete_by_token_hash_sound :
      (token_hash : Text) (rows : List SessionRow)
      → SessionsSound rows
      → SessionsSound (delete_by_token_hash token_hash rows).0
  unfolding delete_by_token_hash
  delete_by_token_hash_sound token_hash rows h = delete_where_sound _ rows h

  pub delete_all_for_account_sound :
      (account_id : ℕ) (rows : List SessionRow)
      → SessionsSound rows
      → SessionsSound (delete_all_for_account account_id rows).0
  unfolding delete_all_for_account
  delete_all_for_account_sound account_id rows h = delete_where_sound _ rows h

  pub delete_expired_sound :
      (now : ℕ) (rows : List SessionRow)
      → SessionsSound rows
      → SessionsSound (delete_expired now rows).0
  unfolding delete_expired
  delete_expired_sound now rows h = delete_where_sound _ rows h

  pub with_sessions-Sound :
      (s : AuthService) (rows : List SessionRow)
      → Sound s
      → SessionsSound rows
      → Sound (record s { sessions = rows })
  with_sessions-Sound s rows h k = record { accounts = h.accounts; sessions = k }

  pub extended-LivesRight :
      (now : ℕ) (session : SessionRow)
      → (slides to_lower_case hash_token verify now session
          || idle_for to_lower_case hash_token verify touch_interval_ms now session)
        ≡ true
      → LivesRight session
      → LivesRight (record session {
        last_used_at = now;
        expires_at = new_expiry to_lower_case hash_token verify now session;
      })
  extended-LivesRight now session e h = ground arith

  pub resolve_live-Sound :
      (token_hash : Text) (now : ℕ) (session : SessionRow) (account : AccountRow) (s : AuthService)
      → find_by_token_hash token_hash s.sessions ≡ some session
      → Sound s
      → Sound (resolve_live to_lower_case hash_token verify token_hash now session account s).0
  unfolding resolve_live
  resolve_live-Sound token_hash now session account s e h =
      elim (Bool-cases (
        slides to_lower_case hash_token verify now session
        || idle_for to_lower_case hash_token verify touch_interval_ms now session)) [
          | inl t ↦
              rw (t, resolve_live)
                (with_sessions-Sound s _ h (
                  touch_sound token_hash now _ session s.sessions e
                    (extended-LivesRight now session t
                      (found-LivesRight token_hash s.sessions session e h.sessions))
                    h.sessions))
          | inr f ↦ rw (f, resolve_live) h
        ]

  pub resolve_session-Sound :
      (token : Text) (now : ℕ) (s : AuthService)
      → Sound s
      → Sound (resolve_session to_lower_case hash_token verify token now s).0
  unfolding resolve_session
  resolve_session-Sound token now s h =
      let gone : Sound
          (record s { sessions = (delete_by_token_hash (hash_token token) s.sessions).0 }) =
        with_sessions-Sound s _ h
          (delete_by_token_hash_sound (hash_token token) s.sessions h.sessions) in
      elim (Option-cases (find_by_token_hash (hash_token token) s.sessions)) [
        | inl e ↦ rw (e, resolve_session) h
        | inr (session, e) ↦ elim (Bool-cases (leb session.expires_at now)) [
          | inl t ↦ rw (e, t, resolve_session) gone
          | inr f ↦ elim (Option-cases (find_by_id session.account_id s.accounts)) [
            | inl g ↦ rw (e, f, g, resolve_session) gone
            | inr (account, g) ↦
                rw (e, f, g, resolve_session)
                  (resolve_live-Sound (hash_token token) now session account s e h)
          ]
        ]
      ]
