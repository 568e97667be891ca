-- ===== src/Auth/Tables.antt =====
-- The tables of packages/server/src/db/migrations/001_auth.sql as lists of rows in insertion order,
-- and the statements that packages/server/src/db/repos/accounts.ts and sessions.ts run on them. The
-- SQL engine is not modelled further: an insert that breaks a UNIQUE column or a primary key is
-- refused (`none`), and the other statements do to the rows what they say.
use seg.Prelude.{
  ℕ, Bool, true, false, ◌&&◌, ◌||◌, not, Option, none, some, List, [], ◌∷◌, ◌++◌, ◌==◌, leb,
  if◌then◌else◌, find, any, filter, map, length, same_text,
}
use seg.Text.{Text}

pub record AccountRow : Type 0 where
  pub id : ℕ
  pub username : Text
  pub username_lower : Text
  pub password_hash : Text
  pub recovery_hash : Option Text
  pub created_at : ℕ
  pub last_seen_at : ℕ
  pub deleted_at : Option ℕ

pub record CreateAccountInput : Type 0 where
  pub id : ℕ
  pub username : Text
  pub username_lower : Text
  pub password_hash : Text
  pub now : ℕ

pub record SessionRow : Type 0 where
  pub token_hash : Text
  pub account_id : ℕ
  pub created_at : ℕ
  pub expires_at : ℕ
  pub last_used_at : ℕ
  pub remember : ℕ
  pub user_agent : Option Text

pub record CreateSessionInput : Type 0 where
  pub token_hash : Text
  pub account_id : ℕ
  pub now : ℕ
  pub expires_at : ℕ
  pub remember : Bool
  pub user_agent : Option Text

-- `deleted_at IS NULL`
abbrev pub is_null : Option ℕ → Bool
is_null none = true
is_null (some _) = false

-- Two rows that the constraints of `account` forbid to stand together.
abbrev pub clashes : CreateAccountInput → AccountRow → Bool
clashes input row = row.id == input.id || same_text row.username_lower input.username_lower

abbrev pub account_row : CreateAccountInput → AccountRow
account_row input = record {
  id = input.id;
  username = input.username;
  username_lower = input.username_lower;
  password_hash = input.password_hash;
  recovery_hash = none;
  created_at = input.now;
  last_seen_at = input.now;
  deleted_at = none;
}

unfoldable pub create_account : CreateAccountInput → List AccountRow → Option (List AccountRow)
create_account input rows =
    if any (clashes input) rows then none else some (rows ++ account_row input ∷ [])

unfoldable pub find_by_username_key : Text → List AccountRow → Option AccountRow
find_by_username_key key = find (λ row. same_text row.username_lower key && is_null row.deleted_at)

unfoldable pub find_by_id : ℕ → List AccountRow → Option AccountRow
find_by_id id = find (λ row. row.id == id && is_null row.deleted_at)

unfoldable pub username_exists : Text → List AccountRow → Bool
username_exists key = any (λ row. same_text row.username_lower key)

abbrev pub see : ℕ → ℕ → AccountRow → AccountRow
see id now row = if row.id == id then record row { last_seen_at = now } else row

unfoldable pub touch_last_seen : ℕ → ℕ → List AccountRow → List AccountRow
touch_last_seen id now = map (see id now)

abbrev pub session_row : CreateSessionInput → SessionRow
session_row input = record {
  token_hash = input.token_hash;
  account_id = input.account_id;
  created_at = input.now;
  expires_at = input.expires_at;
  last_used_at = input.now;
  remember = if input.remember then 1 else 0;
  user_agent = input.user_agent;
}

-- `WHERE token_hash = ?`
abbrev pub has_token : Text → SessionRow → Bool
has_token token_hash row = same_text row.token_hash token_hash

unfoldable pub create_session : CreateSessionInput → List SessionRow → Option (List SessionRow)
create_session input rows =
    if any (has_token input.token_hash) rows then none else some (rows ++ session_row input ∷ [])

unfoldable pub find_by_token_hash : Text → List SessionRow → Option SessionRow
find_by_token_hash token_hash = find (has_token token_hash)

abbrev pub touch_row : Text → ℕ → ℕ → SessionRow → SessionRow
touch_row token_hash last_used_at expires_at row =
    if has_token token_hash row
    then record row { last_used_at = last_used_at; expires_at = expires_at }
    else row

unfoldable pub touch : Text → ℕ → ℕ → List SessionRow → List SessionRow
touch token_hash last_used_at expires_at = map (touch_row token_hash last_used_at expires_at)

-- A DELETE: the rows that stay, and the number of those that went.
unfoldable pub delete_where : (SessionRow → Bool) → List SessionRow → List SessionRow × ℕ
delete_where p rows = (filter (λ row. not (p row)) rows, length (filter p rows))

unfoldable pub delete_by_token_hash : Text → List SessionRow → List SessionRow × ℕ
delete_by_token_hash token_hash = delete_where (has_token token_hash)

unfoldable pub delete_all_for_account : ℕ → List SessionRow → List SessionRow × ℕ
delete_all_for_account account_id = delete_where (λ row. row.account_id == account_id)

unfoldable pub delete_expired : ℕ → List SessionRow → List SessionRow × ℕ
delete_expired now = delete_where (λ row. leb row.expires_at now)
