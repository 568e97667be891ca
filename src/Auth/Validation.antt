-- ===== src/Auth/Validation.antt =====
-- packages/shared/src/auth/validation.ts. The full Unicode lower case is a parameter.
use seg.Prelude.{
  String, ◌+◌, ℕ, ◌≤◌, Bool, true, false, ◌&&◌, ◌||◌, not, Option, none, some, [], ◌∷◌, length,
  ◌==◌, ltb, leb, if◌then◌else◌, ◌≡◌, ◌↔◌, All, all-All, All-all, arith,
}
use seg.Text.{Text, is_upper, is_lower, is_digit, matches_class, trim}

abbrev pub username_min_length : ℕ
username_min_length = 3

abbrev pub username_max_length : ℕ
username_max_length = 20

abbrev pub password_min_length : ℕ
password_min_length = 10

abbrev pub password_max_length : ℕ
password_max_length = 200

pub data CredentialProblem : Type 0 where
  username_too_short username_too_long username_invalid_characters : CredentialProblem
  password_too_short password_too_long : CredentialProblem

-- The class `[A-Za-z0-9_-]`.
unfoldable pub in_username_class : ℕ → Bool
in_username_class c = is_upper c || is_lower c || is_digit c || c == b'_' || c == b'-'

unfoldable pub username_key : (Text → Text) → Text → Text
username_key to_lower_case username = to_lower_case (trim username)

unfoldable pub normalize_username : Text → Text
normalize_username username = trim username

unfoldable pub check_username : Text → Option CredentialProblem
check_username trimmed =
    if ltb (length trimmed) username_min_length
    then some username_too_short
    else if ltb username_max_length (length trimmed)
    then some username_too_long
    else if not (matches_class in_username_class trimmed)
    then some username_invalid_characters
    else none

unfoldable pub validate_username : Text → Option CredentialProblem
validate_username username = check_username (normalize_username username)

abbrev pub is_high : ℕ → Bool
is_high c = leb 0xD800 c && leb c 0xDBFF

abbrev pub is_low : ℕ → Bool
is_low c = leb 0xDC00 c && leb c 0xDFFF

-- `[...password].length`: a high surrogate and the low one behind it are one code point. The flag
-- says that a high one stands just before.
unfoldable pub count_from : Bool → Text → ℕ
count_from after [] = 0
count_from after (c ∷ s) =
    let paired = count_from false s in
    let alone = count_from (is_high c) s in if after && is_low c then paired else 1 + alone

unfoldable pub password_length : Text → ℕ
password_length password = count_from false password

unfoldable pub validate_password : Text → Option CredentialProblem
validate_password password =
    if ltb (password_length password) password_min_length
    then some password_too_short
    else if ltb password_max_length (password_length password)
    then some password_too_long
    else none

-- A user name of 3 to 20 code units out of the class.
pub record IsUsername (name : Text) : Type 0 where
  pub long_enough : 3 ≤ length name
  pub short_enough : length name ≤ 20
  pub plain : All (λ c. in_username_class c ≡ true) name

check_username_sound : (name : Text) → check_username name ≡ none → IsUsername name
unfolding check_username matches_class
check_username_sound [] h = ground arith
check_username_sound (c ∷ s) h = record {
  long_enough = ground arith;
  short_enough = ground arith;
  plain = ground (arith, all-All in_username_class s);
}

check_username_complete : (name : Text) → IsUsername name → check_username name ≡ none
unfolding check_username matches_class
check_username_complete [] h = absurd (omega (arith, h.long_enough))
check_username_complete (c ∷ s) h =
    ground (arith, h.long_enough, h.short_enough, All-all in_username_class s h.plain.1)

-- A user name passes exactly when, trimmed, it has 3 to 20 code units, all letters, digits, `_` or
-- `-`.
pub validate_username_iff :
    (username : Text)
    → (validate_username username ≡ none) ↔ IsUsername (normalize_username username)
unfolding validate_username
validate_username_iff username = (check_username_sound _, check_username_complete _)

pub describe_problem : CredentialProblem → String
describe_problem username_too_short = "Username must be at least 3 characters."
describe_problem username_too_long = "Username must be at most 20 characters."
describe_problem username_invalid_characters =
    "Username may contain only letters, numbers, hyphens, and underscores."
describe_problem password_too_short = "Password must be at least 10 characters."
describe_problem password_too_long = "Password must be at most 200 characters."
