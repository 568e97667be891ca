-- ===== src/Lobby/JoinCode.antt =====
-- packages/shared/src/lobby/join-code.ts, and `defaultCodeGenerator` of
-- packages/server/src/lobby/service.ts. `toUpperCase` of all of Unicode is a parameter.
pub mod Laws
use seg.Prelude.{
  String, ℕ, zero, suc, ◌+◌, Bool, true, false, ◌||◌, Option, none, some, List, [], ◌∷◌, ◌++◌,
  length, ◌==◌, if◌then◌else◌, get_elem?, not,
}
use seg.Text.{Text, text, is_space, any_of, matches_class, strip_class}

abbrev pub join_code_length : ℕ
join_code_length = 6

abbrev pub join_code_alphabet : Text
join_code_alphabet = text "BCDFGHJKMNPQRTVWXYZ2346789"

pub data JoinCodeProblem : Type 0 where
  join_code_empty join_code_wrong_length join_code_invalid_characters : JoinCodeProblem

-- The class `[\s-]`.
unfoldable pub is_separator : ℕ → Bool
is_separator c = is_space c || c == b'-'

unfoldable pub normalize_join_code : (Text → Text) → Text → Text
normalize_join_code to_upper_case input = to_upper_case (strip_class is_separator input)

unfoldable pub in_alphabet : ℕ → Bool
in_alphabet c = any_of join_code_alphabet c

unfoldable pub validate_join_code : Text → Option JoinCodeProblem
validate_join_code code =
    if length code == 0
    then some join_code_empty
    else if not (length code == join_code_length)
    then some join_code_wrong_length
    else if not (matches_class in_alphabet code)
    then some join_code_invalid_characters
    else none

-- `code += JOIN_CODE_ALPHABET[n]`, which appends "undefined" out of range.
unfoldable pub letter : Option ℕ → Text
letter none = text "undefined"
letter (some c) = c ∷ []

-- The loop of `defaultCodeGenerator`; `random_int i` is the draw of round `i`.
unfoldable pub generate_from : (ℕ → ℕ) → ℕ → ℕ → Text → Text
generate_from random_int i zero code = code
generate_from random_int i (suc rounds) code =
    generate_from random_int (i + 1) rounds
      (code ++ letter (get_elem? join_code_alphabet (random_int i)))

unfoldable pub default_code_generator : (ℕ → ℕ) → Text
default_code_generator random_int = generate_from random_int 0 join_code_length []

pub describe_join_code_problem : JoinCodeProblem → String
describe_join_code_problem join_code_empty = "Enter the code the host gave you."
describe_join_code_problem join_code_wrong_length = "A join code is 6 characters."
describe_join_code_problem join_code_invalid_characters =
    "That is not a valid code. Join codes never contain vowels, or the characters 0, 1, 5, I, L, O, or S."
