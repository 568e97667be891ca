-- ===== src/Auth/Contract.antt =====
-- The values of packages/server/src/auth/service.ts: times to live, answers and errors, whose codes
-- stand in packages/shared/src/auth/contract.ts.
use seg.Prelude.{ℕ, ◌*◌, ◌++◌, String, Bool, Option, none, some}
use seg.Text.{Text, text}
use seg.Auth.Validation.{CredentialProblem, describe_problem}
use seg.Auth.Tables.{AccountRow}

abbrev pub remember_ttl_ms : ℕ
remember_ttl_ms = 30 * 24 * 60 * 60000

abbrev pub session_ttl_ms : ℕ
session_ttl_ms = 12 * 60 * 60000

abbrev pub sliding_refresh_interval_ms : ℕ
sliding_refresh_interval_ms = 24 * 60 * 60000

abbrev pub touch_interval_ms : ℕ
touch_interval_ms = 5 * 60000

pub data AuthErrorCode : Type 0 where
  bad_request validation_failed username_taken password_too_common : AuthErrorCode
  invalid_credentials rate_limited unauthenticated payload_too_large : AuthErrorCode
  internal_error : AuthErrorCode

pub data CredentialField : Type 0 where
  on_username on_password : CredentialField

pub record AuthError : Type 0 where
  pub code : AuthErrorCode
  pub message : String
  pub status : ℕ
  pub field : Option CredentialField
  pub retry_after_seconds : Option ℕ

-- `thrown` is an error of the database that is passed on.
pub data AuthAnswer (A : Type 0) : Type 0 where
  done : A → AuthAnswer A
  failed : AuthError → AuthAnswer A
  thrown : AuthAnswer A

pub record AuthContext : Type 0 where
  pub ip : Text
  pub user_agent : Option Text
  pub now : ℕ

pub record AccountSummary : Type 0 where
  pub id : ℕ
  pub username : Text
  pub created_at : ℕ

pub record IssuedSession : Type 0 where
  pub token : Text
  pub expires_at : ℕ
  pub remember : Bool

pub record AuthResult : Type 0 where
  pub account : AccountSummary
  pub session : IssuedSession

pub record ResolvedSession : Type 0 where
  pub account : AccountSummary
  pub expires_at : ℕ
  pub remember : Bool

abbrev pub to_summary : AccountRow → AccountSummary
to_summary row = record { id = row.id; username = row.username; created_at = row.created_at }

abbrev pub ip_key : Text → Text
ip_key ip = text "ip:" ++ ip

abbrev pub user_key : Text → Text
user_key key = text "user:" ++ key

abbrev pub invalid : CredentialProblem → CredentialField → AuthError
invalid problem field = record {
  code = validation_failed;
  message = describe_problem problem;
  status = 400;
  field = some field;
  retry_after_seconds = none;
}

abbrev pub too_common : AuthError
too_common = record {
  code = password_too_common;
  message = "That password is too common. Choose something less guessable.";
  status = 400;
  field = some on_password;
  retry_after_seconds = none;
}

abbrev pub taken : AuthError
taken = record {
  code = username_taken;
  message = "That username is already taken.";
  status = 409;
  field = some on_username;
  retry_after_seconds = none;
}

abbrev pub vanished : AuthError
vanished = record {
  code = internal_error;
  message = "Account vanished.";
  status = 500;
  field = none;
  retry_after_seconds = none;
}

abbrev pub incorrect : AuthError
incorrect = record {
  code = invalid_credentials;
  message = "Incorrect username or password.";
  status = 401;
  field = none;
  retry_after_seconds = none;
}

abbrev pub too_many : ℕ → AuthError
too_many seconds = record {
  code = rate_limited;
  message = "Too many attempts. Try again later.";
  status = 429;
  field = none;
  retry_after_seconds = some seconds;
}
