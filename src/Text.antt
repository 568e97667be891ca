-- ===== src/Text.antt =====
-- The JavaScript strings that the program takes apart, as lists of UTF-16 code units, with the
-- parts of `String.prototype` and of regular expressions that it uses.
pub mod Laws
use Prim.Native.Char.{code}
use Prim.Native.String
use seg.Prelude.{
  ℕ, String, Bool, true, false, ◌&&◌, ◌||◌, ◌+◌, ◌-◌, List, [], ◌∷◌, leb, ◌==◌, if◌then◌else◌, all,
  filter, not,
}

abbrev pub Text : Type 0
Text = List ℕ

-- A literal of the source. All of them are ASCII, so a character is a code unit.
abbrev pub text : String → Text
text String.[] = []
text (String.◌∷◌ c s) = code c ∷ text s

-- The class `\s`, which is also what `trim` removes.
unfoldable pub is_space : ℕ → Bool
is_space c =
    c == 32
    || (leb 9 c && leb c 13)
    || c == 0xA0
    || c == 0x1680
    || (leb 0x2000 c && leb c 0x200A)
    || c == 0x2028
    || c == 0x2029
    || c == 0x202F
    || c == 0x205F
    || c == 0x3000
    || c == 0xFEFF

unfoldable pub is_upper : ℕ → Bool
is_upper c = leb b'A' c && leb c b'Z'

unfoldable pub is_lower : ℕ → Bool
is_lower c = leb b'a' c && leb c b'z'

unfoldable pub is_digit : ℕ → Bool
is_digit c = leb b'0' c && leb c b'9'

-- What `toUpperCase` and `toLowerCase` do to an ASCII code unit.
unfoldable pub ascii_upper : ℕ → ℕ
ascii_upper c = if is_lower c then c - 32 else c

unfoldable pub ascii_lower : ℕ → ℕ
ascii_lower c = if is_upper c then c + 32 else c

unfoldable pub trim_start : Text → Text
trim_start [] = []
trim_start (c ∷ s) = let rest = trim_start s in if is_space c then rest else c ∷ s

unfoldable pub keep_end : ℕ → Text → Text
keep_end c [] = if is_space c then [] else c ∷ []
keep_end c (d ∷ s) = c ∷ d ∷ s

unfoldable pub trim_end : Text → Text
trim_end [] = []
trim_end (c ∷ s) = keep_end c (trim_end s)

unfoldable pub trim : Text → Text
trim s = trim_end (trim_start s)

-- `replace(/\s+/g, ' ')`; the flag says that the run of white space has begun.
unfoldable pub collapse_from : Bool → Text → Text
collapse_from in_run [] = []
collapse_from in_run (c ∷ s) =
    let inside = collapse_from true s in
    let outside = collapse_from false s in
    if is_space c then (if in_run then inside else 32 ∷ inside) else c ∷ outside

unfoldable pub collapse : Text → Text
collapse s = collapse_from false s

-- `/^[...]+$/.test(s)` for a class of code units.
unfoldable pub matches_class : (ℕ → Bool) → Text → Bool
matches_class p [] = false
matches_class p (c ∷ s) = p c && all p s

-- `includes` of an array of one-letter strings.
unfoldable pub any_of : Text → ℕ → Bool
any_of [] c = false
any_of (d ∷ s) c = d == c || any_of s c

-- `replace(/[...]+/g, '')` for a class of code units.
unfoldable pub strip_class : (ℕ → Bool) → Text → Text
strip_class p s = filter (λ c. not (p c)) s
