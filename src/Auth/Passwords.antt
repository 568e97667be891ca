-- ===== src/Auth/Passwords.antt =====
-- packages/server/src/auth/password.ts and common-passwords.ts. argon2's `verify` is a parameter,
-- which throws (`none`) on a malformed hash.
use seg.Prelude.{Bool, false, Option, none, some, List, [], ◌∷◌, map, any, same_text}
use seg.Text.{Text, text}

-- Without an account the work is done on a dummy hash, and its answer is thrown away.
unfoldable pub verify_password : (Text → Text → Option Bool) → Option Text → Text → Bool
verify_password verify none password = false
verify_password verify (some stored_hash) password = elim (verify stored_hash password) [
  | none ↦ false
  | some matches ↦ matches
]

unfoldable pub common : (Text → Text) → List Text
common to_lower_case = map to_lower_case (
    text "password"
    ∷ text "password1"
    ∷ text "password12"
    ∷ text "password123"
    ∷ text "password1234"
    ∷ text "1234567890"
    ∷ text "12345678901"
    ∷ text "123456789012"
    ∷ text "qwertyuiop"
    ∷ text "qwerty12345"
    ∷ text "letmein123"
    ∷ text "iloveyou123"
    ∷ text "welcome123"
    ∷ text "admin12345"
    ∷ text "administrator"
    ∷ text "football123"
    ∷ text "baseball123"
    ∷ text "trustno1234"
    ∷ text "passw0rd123"
    ∷ text "p@ssw0rd123"
    ∷ text "changeme123"
    ∷ text "sunshine123"
    ∷ text "princess123"
    ∷ text "superman123"
    ∷ text "monkey12345"
    ∷ text "dragon12345"
    ∷ text "starwars123"
    ∷ text "whatever123"
    ∷ text "qazwsxedc123"
    ∷ text "zaq12wsxcde3"
    ∷ text "abcd1234567"
    ∷ text "aaaaaaaaaa"
    ∷ text "0000000000"
    ∷ text "1111111111"
    ∷ text "submarine1"
    ∷ text "submarine123"
    ∷ [])

unfoldable pub is_common_password : (Text → Text) → Text → Bool
is_common_password to_lower_case password =
    any (same_text (to_lower_case password)) (common to_lower_case)
