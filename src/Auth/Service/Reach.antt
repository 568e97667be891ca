-- ===== src/Auth/Service/Reach.antt =====
-- The requests in any order and interleaving, and what holds after them.
use seg.Prelude.{ℕ, Bool, Option, ◌≡◌}
use seg.Text.{Text}
use seg.Auth.Tables.{AccountRow}
use seg.Auth.Contract.{AuthContext, done}
use seg.Auth.Service.{
  AuthService, begin_signup, finish_signup, begin_login, finish_login, resolve_session, logout,
  logout_all, sweep,
}
use seg.Auth.Service.Sound.{
  Sound, SameTables-Sound, begin_signup-tables, begin_login-tables, begin_signup-name,
  finish_signup-Sound, finish_login-Sound, delete_by_token_hash_sound, delete_all_for_account_sound,
  delete_expired_sound, with_sessions-Sound, resolve_session-Sound,
}

module _ (to_lower_case hash_token : Text → Text) (verify : Text → Text → Option Bool) where
  -- One phase of a request. A phase that ends a sign-up goes on with a name that a phase before has
  -- let through, in some earlier state.
  pub data Step : AuthService → AuthService → Type 0 where
    signup_begins :
        (username password : Text) (ctx : AuthContext) (s : AuthService)
        → Step s (begin_signup to_lower_case hash_token verify username password ctx s).0
    signup_ends :
        (username password : Text) (ctx : AuthContext) (earlier : AuthService) (name : Text)
        → (begin_signup to_lower_case hash_token verify username password ctx earlier).1 ≡ done name
        → (id : ℕ) (password_hash token : Text) (remember : Bool) (s : AuthService)
        → Step s
            (finish_signup to_lower_case hash_token verify name id password_hash token remember ctx
              s).0
    login_begins :
        (username password : Text) (ctx : AuthContext) (s : AuthService)
        → Step s (begin_login to_lower_case hash_token verify username password ctx s).0
    login_ends :
        (key password : Text) (found : Option AccountRow) (token : Text) (remember : Bool)
        (ctx : AuthContext) (s : AuthService)
        → Step s
            (finish_login to_lower_case hash_token verify key password found token remember ctx s).0
    resolves :
        (token : Text) (now : ℕ) (s : AuthService)
        → Step s (resolve_session to_lower_case hash_token verify token now s).0
    logs_out :
        (token : Text) (s : AuthService) → Step s (logout to_lower_case hash_token verify token s).0
    logs_out_all : (account_id : ℕ) (s : AuthService) → Step s (logout_all account_id s).0
    sweeps : (now : ℕ) (s : AuthService) → Step s (sweep now s).0

  pub data Reach (s : AuthService) : AuthService → Type 0 where
    start : Reach s s
    step : {t u : AuthService} → Reach s t → Step t u → Reach s u

  Step-Sound :
      {s t : AuthService}
      → Step s t
      → Sound to_lower_case hash_token verify s
      → Sound to_lower_case hash_token verify t
  unfolding logout logout_all sweep
  Step-Sound (signup_begins username password ctx s) h =
      SameTables-Sound to_lower_case hash_token verify s _
        (begin_signup-tables to_lower_case hash_token verify username password ctx s) h
  Step-Sound (signup_ends username password ctx earlier name e id password_hash token remember s)
        h =
      finish_signup-Sound to_lower_case hash_token verify name id password_hash token remember ctx s
        (begin_signup-name to_lower_case hash_token verify username password ctx earlier name e) h
  Step-Sound (login_begins username password ctx s) h =
      SameTables-Sound to_lower_case hash_token verify s _
        (begin_login-tables to_lower_case hash_token verify username password ctx s) h
  Step-Sound (login_ends key password found token remember ctx s) h =
      finish_login-Sound to_lower_case hash_token verify key password found token remember ctx s h
  Step-Sound (resolves token now s) h =
      resolve_session-Sound to_lower_case hash_token verify token now s h
  Step-Sound (logs_out token s) h = with_sessions-Sound to_lower_case hash_token verify s _ h (
      delete_by_token_hash_sound to_lower_case hash_token verify (hash_token token) s.sessions
        h.sessions)
  Step-Sound (logs_out_all account_id s) h =
      with_sessions-Sound to_lower_case hash_token verify s _ h (
        delete_all_for_account_sound to_lower_case hash_token verify account_id s.sessions
          h.sessions)
  Step-Sound (sweeps now s) h = record {
    accounts = h.accounts;
    sessions = delete_expired_sound to_lower_case hash_token verify now s.sessions h.sessions;
  }

  -- Whatever requests come and however their phases interleave: no two accounts share an id or a
  -- name up to case and blanks around it, every name is acceptable, no two sessions share a token, a
  -- session that is not remembered ends 12 hours after its creation, however it is used, and a
  -- remembered one ends at most 30 days after the last use that was recorded.
  pub Reach-Sound :
      {s t : AuthService}
      → Sound to_lower_case hash_token verify s
      → Reach s t
      → Sound to_lower_case hash_token verify t
  Reach-Sound h start = h
  Reach-Sound h (step r st) = Step-Sound st (Reach-Sound h r)
