-- ===== src/Auth/Service/Opens.antt =====
-- What a login opens, and what closes it.
use seg.Prelude.{
  ℕ, Bool, false, ◌&&◌, Option, none, some, List, [], ◌∷◌, ◌++◌, leb, ◌≡◌, inl, inr, refl, subst,
  arith, InOrder, Bool-cases, same_text, same_text_refl, if◌then◌else◌, any, All-find,
  find-append_new,
}
use seg.Text.{Text}
use seg.Auth.RateLimit.{clear}
use seg.Auth.Passwords.{verify_password}
use seg.Auth.Tables.{
  AccountRow, find_by_username_key, find_by_id, find_by_token_hash, has_token, session_row,
  create_session, touch_last_seen, see, is_null,
}
use seg.Auth.Contract.{
  AuthContext, AuthAnswer, AuthResult, AccountSummary, ResolvedSession, done, failed, thrown,
  to_summary, user_key, ip_key,
}
use seg.Auth.Service.{
  AuthService, finish_login, login, resume_login, log_in, issue_session, issued, session_input,
  resolve_session, resolve_live, logout,
}
use seg.Auth.Service.Invariant.{Apart, AccountsSound}
use seg.Auth.Service.Sound.{begin_login-tables}
use seg.Auth.Service.Sessions.{not_found-delete, session_of, resolved}

find_by_id-touch :
    (id seen now : ℕ) (row : AccountRow) (rows : List AccountRow)
    → find_by_id id rows ≡ some row
    → find_by_id id (touch_last_seen seen now rows) ≡ some (see seen now row)
unfolding find_by_id touch_last_seen
find_by_id-touch id seen now row [] e = ground arith
find_by_id-touch id seen now row (r ∷ rows) e =
    ground (arith, find_by_id-touch id seen now row rows)

-- Who is found by name is found by id.
find_by_id-key :
    (key : Text) (row : AccountRow) (rows : List AccountRow)
    → InOrder Apart rows
    → find_by_username_key key rows ≡ some row
    → find_by_id row.id rows ≡ some row
unfolding find_by_id find_by_username_key
find_by_id-key key row [] h e = ground arith
find_by_id-key key row (r ∷ rows) h e =
    elim (Bool-cases (same_text r.username_lower key && is_null r.deleted_at)) [
      | inl t ↦ ground arith
      | inr f ↦
          let later : find_by_username_key key rows ≡ some row = ground arith in
          let apart : Apart r row = All-find (Apart r) _ rows row h.0 later in
          ground (arith, apart.0, find_by_id-key key row rows h.1 later)
    ]

module _ (to_lower_case hash_token : Text → Text) (verify : Text → Text → Option Bool) where
  -- The account of `row` is open to the token.
  record Opened (token : Text) (remember : Bool) (ctx : AuthContext) (row : AccountRow)
      (r : AuthResult) (t : AuthService) : Type 0 where
    answer : r ≡ record {
      account = to_summary row;
      session = issued to_lower_case hash_token verify remember ctx token;
    }
    stored :
        session_of to_lower_case hash_token verify token t
        ≡ some
            (session_row (session_input to_lower_case hash_token verify row.id remember ctx token))
    held :
        (x : AccountRow) × (find_by_id row.id t.accounts ≡ some x) × (to_summary x ≡ to_summary row)

  abbrev opened_state : AccountRow → Text → Text → Bool → AuthContext → AuthService → AuthService
  opened_state row key token remember ctx s = record {
    accounts = touch_last_seen row.id ctx.now s.accounts;
    sessions =
        s.sessions
        ++ session_row (session_input to_lower_case hash_token verify row.id remember ctx token)
          ∷ [];
    by_username = clear s.by_username (user_key key);
    by_ip = clear s.by_ip (ip_key ctx.ip);
  }

  abbrev opened_answer : AccountRow → Text → Bool → AuthContext → AuthResult
  opened_answer row token remember ctx = record {
    account = to_summary row;
    session = issued to_lower_case hash_token verify remember ctx token;
  }

  log_in-fresh :
      (row : AccountRow) (key token : Text) (remember : Bool) (ctx : AuthContext) (s : AuthService)
      → any (has_token (hash_token token)) s.sessions ≡ false
      → log_in to_lower_case hash_token verify row key token remember ctx s
        ≡ (opened_state row key token remember ctx s, done (opened_answer row token remember ctx))
  unfolding log_in issue_session create_session
  log_in-fresh row key token remember ctx s f = rw (f, log_in, issue_session, create_session)

  log_in-done :
      (row : AccountRow) (key token : Text) (remember : Bool) (ctx : AuthContext) (s : AuthService)
      (r : AuthResult)
      → (log_in to_lower_case hash_token verify row key token remember ctx s).1 ≡ done r
      → any (has_token (hash_token token)) s.sessions ≡ false
  unfolding log_in issue_session create_session
  log_in-done row key token remember ctx s r e =
      elim (Bool-cases (any (has_token (hash_token token)) s.sessions)) [
        | inl t ↦ absurd (ground arith)
        | inr f ↦ f
      ]

  log_in-Opened :
      (row : AccountRow) (key token : Text) (remember : Bool) (ctx : AuthContext) (s : AuthService)
      (r : AuthResult)
      → find_by_id row.id s.accounts ≡ some row
      → (log_in to_lower_case hash_token verify row key token remember ctx s).1 ≡ done r
      → Opened token remember ctx row r
          (log_in to_lower_case hash_token verify row key token remember ctx s).0
  unfolding find_by_token_hash
  log_in-Opened row key token remember ctx s r found e =
      let f = log_in-done row key token remember ctx s r e in
      let same = log_in-fresh row key token remember ctx s f in
      rw same (record {
        answer = ground arith;
        stored =
            find-append_new (has_token (hash_token token)) s.sessions _ f
              (same_text_refl (hash_token token));
        held = (
          see row.id ctx.now row,
          find_by_id-touch row.id row.id ctx.now row s.accounts found,
          ground arith,
        );
      })

  finish_login-Opened :
      (key password token : Text) (remember : Bool) (ctx : AuthContext) (s : AuthService)
      (found : Option AccountRow) (r : AuthResult)
      → ((row : AccountRow) → found ≡ some row → find_by_id row.id s.accounts ≡ some row)
      → (finish_login to_lower_case hash_token verify key password found token remember ctx s).1
        ≡ done r
      → (row : AccountRow) × Opened token remember ctx row r
          (finish_login to_lower_case hash_token verify key password found token remember ctx s).0
  unfolding finish_login
  finish_login-Opened key password token remember ctx s none r held e = absurd (ground arith)
  finish_login-Opened key password token remember ctx s (some row) r held e =
      elim (Bool-cases (verify_password verify (some row.password_hash) password)) [
        | inl t ↦ (
          row,
          rw (t, finish_login)
              (log_in-Opened row key token remember ctx s r (held row refl)
                (rw (t, finish_login) at e)),
        )
        | inr f ↦ absurd (ground arith)
      ]

  resume_login-Opened :
      (password token : Text) (remember : Bool) (ctx : AuthContext) (s : AuthService)
      (begun : AuthAnswer Text) (r : AuthResult)
      → InOrder Apart s.accounts
      → (resume_login to_lower_case hash_token verify password remember ctx token s begun).1
        ≡ done r
      → (row : AccountRow) × Opened token remember ctx row r
          (resume_login to_lower_case hash_token verify password remember ctx token s begun).0
  unfolding resume_login
  resume_login-Opened password token remember ctx s (failed g) r apart e = absurd (ground arith)
  resume_login-Opened password token remember ctx s thrown r apart e = absurd (ground arith)
  resume_login-Opened password token remember ctx s (done key) r apart e =
      finish_login-Opened key password token remember ctx s (find_by_username_key key s.accounts) r
        (λ row found. find_by_id-key key row s.accounts apart found) e

  abbrev pub account_of : Option ResolvedSession → Option AccountSummary
  account_of none = none
  account_of (some x) = some x.account

  Opened-resolved :
      (token : Text) (remember : Bool) (ctx : AuthContext) (row : AccountRow) (r : AuthResult)
      (t : AuthService) (now : ℕ)
      → Opened token remember ctx row r t
      → account_of (resolved to_lower_case hash_token verify token now t)
        ≡ (if leb r.session.expires_at now then none else some r.account)
  unfolding resolve_session resolve_live
  Opened-resolved token remember ctx row r t now o =
      let (x, held, same) = o.held in rw (o.answer) (ground (arith, o.stored, held, same))

  logout-resolved :
      (token : Text) (now : ℕ) (s : AuthService)
      → resolved to_lower_case hash_token verify token now
          (logout to_lower_case hash_token verify token s).0
        ≡ none
  unfolding resolve_session logout
  logout-resolved token now s = ground (arith, not_found-delete (hash_token token) s.sessions)

  -- Where no two accounts share an id or a key: the token of a login that succeeds resolves to the
  -- account of its answer until the expiry of its answer, and to nothing from then on; and to
  -- nothing after a logout.
  pub login-opens :
      (username password token : Text) (remember : Bool) (ctx : AuthContext) (s : AuthService)
      (r : AuthResult) (now : ℕ)
      → AccountsSound to_lower_case s.accounts
      → (login to_lower_case hash_token verify username password remember ctx token s).1 ≡ done r
      → (account_of (
            resolved to_lower_case hash_token verify token now
              (login to_lower_case hash_token verify username password remember ctx token s).0)
          ≡ (if leb r.session.expires_at now then none else some r.account))
        × (resolved to_lower_case hash_token verify token now
              (logout to_lower_case hash_token verify token
                (login to_lower_case hash_token verify username password remember ctx token s).0).0
            ≡ none)
  unfolding login
  login-opens username password token remember ctx s r now sound e =
      let tables = begin_login-tables to_lower_case hash_token verify username password ctx s in
      let (row, opened) =
        resume_login-Opened password token remember ctx _ _ r
          (subst (InOrder Apart) tables.0 sound.apart) e in
      (Opened-resolved token remember ctx row r _ now opened, logout-resolved token now _)
