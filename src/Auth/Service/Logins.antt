-- ===== src/Auth/Service/Logins.antt =====
-- What a refused login gives away, and how long a session lives.
use seg.Prelude.{Bool, Option, none, some, ◌≡◌, ◌≢◌, arith}
use seg.Text.{Text}
use seg.Auth.Tables.{AccountRow, find_by_username_key}
use seg.Auth.Contract.{AuthContext, AuthError, AuthAnswer, done, failed, thrown, incorrect}
use seg.Auth.Service.{
  AuthService, begin_login, finish_login, log_in, login, resume_login, issue_session,
  invalid_credentials_of,
}

module _ (to_lower_case hash_token : Text → Text) (verify : Text → Text → Option Bool) where
  abbrev pub SameLimiters : AuthService → AuthService → Type 0
  SameLimiters s t = (s.by_username ≡ t.by_username) × (s.by_ip ≡ t.by_ip)

  begin_login-alike :
      (username password : Text) (ctx : AuthContext) (s t : AuthService)
      → SameLimiters s t
      → ((begin_login to_lower_case hash_token verify username password ctx s).1
          ≡ (begin_login to_lower_case hash_token verify username password ctx t).1)
        × SameLimiters
            (begin_login to_lower_case hash_token verify username password ctx s).0
            (begin_login to_lower_case hash_token verify username password ctx t).0
  unfolding begin_login invalid_credentials_of
  begin_login-alike username password ctx s t h = ground arith

  log_in-not_failed :
      (account : AccountRow) (key token : Text) (remember : Bool) (ctx : AuthContext)
      (s : AuthService) (e : AuthError)
      → (log_in to_lower_case hash_token verify account key token remember ctx s).1 ≢ failed e
  unfolding log_in issue_session
  log_in-not_failed account key token remember ctx s e h = ground arith

  -- A phase that ends in a refusal is the same whoever was looked for.
  finish_login-failed :
      (key password : Text) (found : Option AccountRow) (token : Text) (remember : Bool)
      (ctx : AuthContext) (s : AuthService) (e : AuthError)
      → (finish_login to_lower_case hash_token verify key password found token remember ctx s).1
        ≡ failed e
      → (finish_login to_lower_case hash_token verify key password found token remember ctx s
          ≡ (invalid_credentials_of key ctx s, failed incorrect))
  unfolding finish_login
  finish_login-failed key password none token remember ctx s e h = ground arith
  finish_login-failed key password (some account) token remember ctx s e h =
      ground (arith, log_in-not_failed account key token remember ctx s e)

  resume_login-alike :
      (password : Text) (remember : Bool) (ctx : AuthContext) (token : Text) (s t : AuthService)
      (begun : AuthAnswer Text) (e f : AuthError)
      → SameLimiters s t
      → (resume_login to_lower_case hash_token verify password remember ctx token s begun).1
        ≡ failed e
      → (resume_login to_lower_case hash_token verify password remember ctx token t begun).1
        ≡ failed f
      → (e ≡ f)
        × SameLimiters
            (resume_login to_lower_case hash_token verify password remember ctx token s begun).0
            (resume_login to_lower_case hash_token verify password remember ctx token t begun).0
  unfolding resume_login invalid_credentials_of
  resume_login-alike password remember ctx token s t (failed g) e f h p q = ground arith
  resume_login-alike password remember ctx token s t thrown e f h p q = ground arith
  resume_login-alike password remember ctx token s t (done key) e f h p q = ground (
    arith,
    finish_login-failed key password (find_by_username_key key s.accounts) token remember ctx s e p,
    finish_login-failed key password (find_by_username_key key t.accounts) token remember ctx t f q,
  )

  resume_login-keeps :
      (password : Text) (remember : Bool) (ctx : AuthContext) (token : Text) (s t : AuthService)
      (a b : AuthAnswer Text) (e f : AuthError)
      → a ≡ b
      → SameLimiters s t
      → (resume_login to_lower_case hash_token verify password remember ctx token s a).1 ≡ failed e
      → (resume_login to_lower_case hash_token verify password remember ctx token t b).1 ≡ failed f
      → (e ≡ f)
        × SameLimiters
            (resume_login to_lower_case hash_token verify password remember ctx token s a).0
            (resume_login to_lower_case hash_token verify password remember ctx token t b).0
  resume_login-keeps password remember ctx token s t a b e f same h p q =
      rw same (resume_login-alike password remember ctx token s t b e f h (rw same at p) q)

  -- Whether or not there is such an account, whatever is stored of it and whatever sessions there
  -- are: two services whose limiters are alike refuse a login in the same words, and are alike in
  -- their limiters afterwards.
  pub login-keeps_secret :
      (username password : Text) (remember : Bool) (ctx : AuthContext) (token : Text)
      (s t : AuthService) (e f : AuthError)
      → SameLimiters s t
      → (login to_lower_case hash_token verify username password remember ctx token s).1 ≡ failed e
      → (login to_lower_case hash_token verify username password remember ctx token t).1 ≡ failed f
      → (e ≡ f)
        × SameLimiters
            (login to_lower_case hash_token verify username password remember ctx token s).0
            (login to_lower_case hash_token verify username password remember ctx token t).0
  unfolding login
  login-keeps_secret username password remember ctx token s t e f h p q =
      let alike = begin_login-alike username password ctx s t h in
      resume_login-keeps password remember ctx token _ _ _ _ e f alike.0 alike.1 p q
