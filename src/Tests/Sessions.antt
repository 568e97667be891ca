-- ===== src/Tests/Sessions.antt =====
-- Accounts and sessions at concrete inputs. Passwords and tokens stand for themselves.
use seg.Prelude.{
  ℕ, Bool, true, false, Option, none, some, [], ◌∷◌, ◌≡◌, refl, arith, get, map, same_text,
}
use seg.Text.{
  Text, text, ascii_lower, is_upper, is_lower, is_digit, is_space, trim, trim_start, trim_end,
  keep_end, matches_class,
}
use seg.Auth.RateLimit.{username_limits, ip_limits, check}
use seg.Auth.Validation.{
  validate_username, validate_username_iff, normalize_username, check_username, username_key,
  in_username_class, validate_password, password_length, count_from,
}
use seg.Auth.Passwords.{verify_password, is_common_password, common}
use seg.Auth.Tables.{
  AccountRow, SessionRow, find_by_username_key, username_exists, create_session, find_by_token_hash,
}
use seg.Auth.Contract.{AuthContext, AuthResult, done, failed, incorrect}
use seg.Auth.Service.{
  AuthService, begin_signup, finish_signup, begin_login, finish_login, login, resume_login, log_in,
  issue_session, assert_not_rate_limited, logout, logout_all,
}
use seg.Auth.Service.Invariant.{NamedRight}
use seg.Auth.Service.Sound.{Sound}
use seg.Auth.Service.Reach.{start, step, signup_ends, Reach-Sound}
use seg.Auth.Service.Logins.{SameLimiters, login-keeps_secret}
use seg.Auth.Service.Sessions.{
  session_of, resolved, visits, steady_session_ends, logout_all-resolved,
}
use seg.Auth.Service.Opens.{account_of, login-opens}

abbrev lower : Text → Text
lower s = map ascii_lower s

abbrev plain : Text → Text
plain t = t

abbrev matches : Text → Text → Option Bool
matches stored password = some (same_text stored password)

abbrev empty : AuthService
empty = record {
  accounts = [];
  sessions = [];
  by_username = record { entries = []; options = username_limits };
  by_ip = record { entries = []; options = ip_limits };
}

abbrev at_home : ℕ → AuthContext
at_home now = record { ip = text "1"; user_agent = none; now = now }

abbrev secret : Text
secret = text "deep blue sea"

begun :
    (begin_signup lower plain matches (text "Ann") secret (at_home 5) empty).1 ≡ done (text "Ann")
unfolding begin_signup assert_not_rate_limited check validate_username normalize_username
    check_username validate_password password_length count_from is_common_password common
    username_exists username_key trim trim_start trim_end keep_end is_space matches_class
    in_username_class is_upper is_lower is_digit ascii_lower get
begun = refl

abbrev joined : AuthService
joined =
    (finish_signup lower plain matches (text "Ann") 7 secret (text "t1") true (at_home 5) empty).0

Reach-Sound_example : Sound lower plain matches joined
Reach-Sound_example =
    Reach-Sound lower plain matches
      (record {
        accounts = record { named = tt; apart = tt };
        sessions = record { tokens = tt; lives = tt };
      })
      (step start (
        signup_ends (text "Ann") secret (at_home 5) empty (text "Ann") begun 7 secret (text "t1")
          true empty))

abbrev ann : AccountRow
ann = record {
  id = 7;
  username = text "Ann";
  username_lower = text "ann";
  password_hash = secret;
  recovery_hash = none;
  created_at = 5;
  last_seen_at = 5;
  deleted_at = none;
}

abbrev session : SessionRow
session = record {
  token_hash = text "t1";
  account_id = 7;
  created_at = 5;
  expires_at = 2592000005;
  last_used_at = 5;
  remember = 1;
  user_agent = none;
}

abbrev home : AuthService
home = record empty { accounts = ann ∷ []; sessions = session ∷ [] }

abbrev wrong : Text
wrong = text "shallow red lake"

refused_home :
    (login lower plain matches (text "ann") wrong false (at_home 9) (text "t2") home).1
    ≡ failed incorrect
unfolding login resume_login begin_login finish_login assert_not_rate_limited check verify_password
    find_by_username_key validate_password password_length count_from username_key
    normalize_username trim trim_start trim_end keep_end is_space is_upper ascii_lower get
refused_home = refl

refused_empty :
    (login lower plain matches (text "ann") wrong false (at_home 9) (text "t2") empty).1
    ≡ failed incorrect
unfolding login resume_login begin_login finish_login assert_not_rate_limited check verify_password
    find_by_username_key validate_password password_length count_from username_key
    normalize_username trim trim_start trim_end keep_end is_space is_upper ascii_lower get
refused_empty = refl

login-keeps_secret_example :
    (incorrect ≡ incorrect)
    × SameLimiters lower plain matches
        (login lower plain matches (text "ann") wrong false (at_home 9) (text "t2") home).0
        (login lower plain matches (text "ann") wrong false (at_home 9) (text "t2") empty).0
login-keeps_secret_example =
    login-keeps_secret lower plain matches (text "ann") wrong false (at_home 9) (text "t2") home
      empty incorrect incorrect (refl, refl) refused_home refused_empty

abbrev welcome : AuthResult
welcome = record {
  account = record { id = 7; username = text "Ann"; created_at = 5 };
  session = record { token = text "t2"; expires_at = 43200009; remember = false };
}

let_in :
    (login lower plain matches (text "ann") secret false (at_home 9) (text "t2") home).1
    ≡ done welcome
unfolding login resume_login begin_login finish_login log_in issue_session assert_not_rate_limited
    check verify_password find_by_username_key validate_password password_length count_from
    username_key normalize_username create_session trim trim_start trim_end keep_end is_space
    is_upper ascii_lower get
let_in = refl

passes : validate_username (text "Ann") ≡ none
unfolding validate_username normalize_username check_username trim trim_start trim_end keep_end
    is_space matches_class in_username_class is_upper is_lower is_digit
passes = refl

named_ann : NamedRight lower ann
unfolding username_key trim trim_start trim_end keep_end is_space is_upper ascii_lower
named_ann = ((validate_username_iff (text "Ann")).0 passes, refl)

login-opens_example :
    (account_of lower plain matches (
        resolved lower plain matches
          (text "t2")
          100
          (login lower plain matches (text "ann") secret false (at_home 9) (text "t2") home).0)
      ≡ some welcome.account)
    × (resolved lower plain matches
          (text "t2")
          100
          (logout lower plain matches
            (text "t2")
            (login lower plain matches (text "ann") secret false (at_home 9) (text "t2") home).0).0
        ≡ none)
login-opens_example =
    login-opens lower plain matches (text "ann") secret (text "t2") false (at_home 9) home welcome
      100 (record { named = (named_ann, tt); apart = (tt, tt) }) let_in

found_t1 : session_of lower plain matches (text "t1") home ≡ some session
unfolding find_by_token_hash
found_t1 = refl

steady_session_ends_example :
    resolved lower plain matches
      (text "t1")
      2592000005
      (visits lower plain matches (text "t1") (80000000 ∷ 160000000 ∷ []) home)
    ≡ none
steady_session_ends_example =
    steady_session_ends lower plain matches (text "t1") session (80000000 ∷ 160000000 ∷ [])
      2592000005 home found_t1 (omega arith) (omega arith)

logout_all-resolved_example :
    resolved lower plain matches (text "t1") 100 (logout_all 7 home).0 ≡ none
logout_all-resolved_example =
    logout_all-resolved lower plain matches (text "t1") 7 100 session home (tt, tt) found_t1
