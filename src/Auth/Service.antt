-- ===== src/Auth/Service.antt =====
-- packages/server/src/auth/service.ts. Its tables and limiters are one state. Random values
-- (`newAccountId`, `generateSessionToken`, and the salted hash that argon2 gives) are arguments;
-- `sha256` and argon2's `verify` are parameters. `signup` and `login` wait for argon2, and other
-- requests may run in that time: each is two phases, where the second runs in any later state.
-- The statements of one phase run with no other request between them.
pub mod Invariant
pub mod Sound
pub mod Reach
pub mod Logins
pub mod Sessions
pub mod Opens
use seg.Prelude.{
  ℕ, ◌+◌, ◌-◌, ◌*◌, String, Bool, true, false, ◌&&◌, ◌||◌, not, Option, none, some, List, [], ◌∷◌,
  ◌++◌, ltb, leb, ◌==◌, if◌then◌else◌,
}
use seg.Text.{Text, text}
use seg.Auth.RateLimit.{RateLimiter, RateLimitDecision, check, record_failure, clear}
use seg.Auth.RateLimit as Limiter
use seg.Auth.Validation.{
  CredentialProblem, username_too_short, username_too_long, username_invalid_characters,
  password_too_short, password_too_long, normalize_username, username_key, validate_username,
  validate_password,
}
use seg.Auth.Passwords.{verify_password, is_common_password}
use seg.Auth.Tables.{
  AccountRow, SessionRow, CreateAccountInput, CreateSessionInput, create_account,
  find_by_username_key, find_by_id, username_exists, touch_last_seen, create_session,
  find_by_token_hash, touch, delete_by_token_hash, delete_all_for_account, delete_expired,
}
use seg.Auth.Contract.{
  remember_ttl_ms, session_ttl_ms, sliding_refresh_interval_ms, touch_interval_ms, AuthErrorCode,
  CredentialField, AuthError, AuthAnswer, AuthContext, AccountSummary, IssuedSession, AuthResult,
  ResolvedSession, to_summary, ip_key, user_key, invalid, too_common, taken, vanished, incorrect,
  too_many, on_username, on_password, done, failed, thrown,
}

pub record AuthService : Type 0 where
  pub accounts : List AccountRow
  pub sessions : List SessionRow
  pub by_username : RateLimiter
  pub by_ip : RateLimiter

-- `assertNotRateLimited`: the limiter after the check, and the error that is thrown.
unfoldable pub assert_not_rate_limited : Text → RateLimiter → ℕ → RateLimiter × Option AuthError
assert_not_rate_limited key limiter now =
    let (limiter', decision) = check limiter key now in
    (limiter', if decision.allowed then none else some (too_many decision.retry_after_seconds))

unfoldable pub invalid_credentials_of : Text → AuthContext → AuthService → AuthService
invalid_credentials_of key ctx s = record s {
  by_username = record_failure s.by_username (user_key key) ctx.now;
  by_ip = record_failure s.by_ip (ip_key ctx.ip) ctx.now;
}

-- The outside: the Unicode lower case, sha256 in hexadecimal, and argon2's check.
module _ (to_lower_case hash_token : Text → Text) (verify : Text → Text → Option Bool) where
  abbrev pub session_expiry : Bool → AuthContext → ℕ
  session_expiry remember ctx = ctx.now + (if remember then remember_ttl_ms else session_ttl_ms)

  abbrev pub session_input : ℕ → Bool → AuthContext → Text → CreateSessionInput
  session_input account_id remember ctx token = record {
    token_hash = hash_token token;
    account_id = account_id;
    now = ctx.now;
    expires_at = session_expiry remember ctx;
    remember = remember;
    user_agent = ctx.user_agent;
  }

  abbrev pub issued : Bool → AuthContext → Text → IssuedSession
  issued remember ctx token = record {
    token = token;
    expires_at = session_expiry remember ctx;
    remember = remember;
  }

  unfoldable pub issue_session :
      ℕ → Bool → AuthContext → Text → AuthService → AuthService × AuthAnswer IssuedSession
  issue_session account_id remember ctx token s =
      elim (create_session (session_input account_id remember ctx token) s.sessions) [
        | none ↦ (s, thrown)
        | some sessions ↦ (record s { sessions = sessions }, done (issued remember ctx token))
      ]

  abbrev pub with_account :
      AccountRow → AuthService × AuthAnswer IssuedSession → AuthService × AuthAnswer AuthResult
  with_account row (s, done session) =
      (s, done (record { account = to_summary row; session = session }))
  with_account row (s, failed e) = (s, failed e)
  with_account row (s, thrown) = (s, thrown)

  -- `signup` up to the hashing of the password: the name that it goes on with.
  unfoldable pub begin_signup :
      Text → Text → AuthContext → AuthService → AuthService × AuthAnswer Text
  begin_signup username password ctx s =
      let (by_ip, refused) = assert_not_rate_limited (ip_key ctx.ip) s.by_ip ctx.now in
      let s' = record s { by_ip = by_ip } in
      elim refused [
        | some e ↦ (s', failed e)
        | none ↦
            let name = normalize_username username in
            elim (validate_username name) [
              | some problem ↦ (s', failed (invalid problem on_username))
              | none ↦ elim (validate_password password) [
                | some problem ↦ (s', failed (invalid problem on_password))
                | none ↦
                    if is_common_password to_lower_case password
                    then (s', failed too_common)
                    else if username_exists (username_key to_lower_case name) s'.accounts
                    then (s', failed taken)
                    else (s', done name)
              ]
            ]
      ]

  abbrev pub signup_input : Text → ℕ → Text → AuthContext → CreateAccountInput
  signup_input name id password_hash ctx = record {
    id = id;
    username = name;
    username_lower = username_key to_lower_case name;
    password_hash = password_hash;
    now = ctx.now;
  }

  -- The rest of `signup`, for a new account id, a password hash and a token.
  unfoldable pub finish_signup :
      Text
      → ℕ
      → Text
      → Text
      → Bool
      → AuthContext
      → AuthService
      → AuthService × AuthAnswer AuthResult
  finish_signup name id password_hash token remember ctx s =
      elim (create_account (signup_input name id password_hash ctx) s.accounts) [
        | none ↦ (s, failed taken)
        | some accounts ↦
            let s' = record s { accounts = accounts } in
            elim (find_by_id id accounts) [
              | none ↦ (s', failed vanished)
              | some row ↦ with_account row (issue_session id remember ctx token s')
            ]
      ]

  -- `login` up to the query for the account: the key that it looks for.
  unfoldable pub begin_login :
      Text → Text → AuthContext → AuthService → AuthService × AuthAnswer Text
  begin_login username password ctx s =
      let key = username_key to_lower_case (normalize_username username) in
      let (by_ip, ip_refused) = assert_not_rate_limited (ip_key ctx.ip) s.by_ip ctx.now in
      let s' = record s { by_ip = by_ip } in
      elim ip_refused [
        | some e ↦ (s', failed e)
        | none ↦
            let (by_username, user_refused) =
              assert_not_rate_limited (user_key key) s'.by_username ctx.now in
            let s'' = record s' { by_username = by_username } in
            elim user_refused [
              | some e ↦ (s'', failed e)
              | none ↦ elim (validate_password password) [
                | some password_too_long ↦ (invalid_credentials_of key ctx s'', failed incorrect)
                | _ ↦ (s'', done key)
              ]
            ]
      ]

  -- What follows the check of the password.
  unfoldable pub log_in :
      AccountRow
      → Text
      → Text
      → Bool
      → AuthContext
      → AuthService
      → AuthService × AuthAnswer AuthResult
  log_in account key token remember ctx s =
      let s' = record s {
        accounts = touch_last_seen account.id ctx.now s.accounts;
        by_username = clear s.by_username (user_key key);
        by_ip = clear s.by_ip (ip_key ctx.ip);
      } in
      with_account account (issue_session account.id remember ctx token s')

  abbrev pub stored_hash : Option AccountRow → Option Text
  stored_hash none = none
  stored_hash (some row) = some row.password_hash

  -- The rest of `login`, for the account that was found and a token.
  unfoldable pub finish_login :
      Text
      → Text
      → Option AccountRow
      → Text
      → Bool
      → AuthContext
      → AuthService
      → AuthService × AuthAnswer AuthResult
  finish_login key password found token remember ctx s =
      elim (verify_password verify (stored_hash found) password) [
        | false ↦ (invalid_credentials_of key ctx s, failed incorrect)
        | true ↦ elim found [
          | none ↦ (invalid_credentials_of key ctx s, failed incorrect)
          | some account ↦ log_in account key token remember ctx s
        ]
      ]

  -- `login` where no other request comes between its phases.
  unfoldable pub resume_login :
      Text
      → Bool
      → AuthContext
      → Text
      → AuthService
      → AuthAnswer Text
      → AuthService × AuthAnswer AuthResult
  resume_login password remember ctx token s (failed e) = (s, failed e)
  resume_login password remember ctx token s thrown = (s, thrown)
  resume_login password remember ctx token s (done key) =
      finish_login key password (find_by_username_key key s.accounts) token remember ctx s

  unfoldable pub login :
      Text → Text → Bool → AuthContext → Text → AuthService → AuthService × AuthAnswer AuthResult
  login username password remember ctx token s =
      let (s', begun) = begin_login username password ctx s in
      resume_login password remember ctx token s' begun

  -- `now - session.last_used_at > interval`
  abbrev pub idle_for : ℕ → ℕ → SessionRow → Bool
  idle_for interval now session = ltb (session.last_used_at + interval) now

  abbrev pub slides : ℕ → SessionRow → Bool
  slides now session = session.remember == 1 && idle_for sliding_refresh_interval_ms now session

  abbrev pub new_expiry : ℕ → SessionRow → ℕ
  new_expiry now session = if slides now session then now + remember_ttl_ms else session.expires_at

  unfoldable pub resolve_live :
      Text → ℕ → SessionRow → AccountRow → AuthService → AuthService × Option ResolvedSession
  resolve_live token_hash now session account s = (
    (if slides now session || idle_for touch_interval_ms now session
        then record s { sessions = touch token_hash now (new_expiry now session) s.sessions }
        else s),
    some (record {
      account = to_summary account;
      expires_at = new_expiry now session;
      remember = session.remember == 1;
    }),
  )

  unfoldable pub resolve_session : Text → ℕ → AuthService → AuthService × Option ResolvedSession
  resolve_session token now s =
      let token_hash = hash_token token in
      let gone = record s { sessions = (delete_by_token_hash token_hash s.sessions).0 } in
      elim (find_by_token_hash token_hash s.sessions) [
        | none ↦ (s, none)
        | some session ↦ elim (leb session.expires_at now) [
          | true ↦ (gone, none)
          | false ↦ elim (find_by_id session.account_id s.accounts) [
            | none ↦ (gone, none)
            | some account ↦ resolve_live token_hash now session account s
          ]
        ]
      ]

  unfoldable pub logout : Text → AuthService → AuthService × ℕ
  logout token s =
      let (sessions, changes) = delete_by_token_hash (hash_token token) s.sessions in
      (record s { sessions = sessions }, changes)

unfoldable pub logout_all : ℕ → AuthService → AuthService × ℕ
logout_all account_id s =
    let (sessions, changes) = delete_all_for_account account_id s.sessions in
    (record s { sessions = sessions }, changes)

unfoldable pub sweep : ℕ → AuthService → AuthService × ℕ
sweep now s =
    let (sessions, changes) = delete_expired now s.sessions in
    (
      record s {
        sessions = sessions;
        by_username = Limiter.sweep s.by_username now;
        by_ip = Limiter.sweep s.by_ip now;
      },
      changes,
    )
