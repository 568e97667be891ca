-- ===== src/Lobby/JoinCode/Laws.antt =====
-- What a join code is, what is minted, and what a player may type for it.
use seg.Prelude.{
  ℕ, zero, suc, ◌+◌, ◌<◌, Bool, true, false, ◌&&◌, not, none, [], ◌∷◌, ◌++◌, length, length-append,
  ◌≡◌, refl, ◌∙◌, ◌↔◌, All, All-append, all-All, All-all, all, map, arith, get_elem?, ◌==◌,
  if◌then◌else◌,
}
use seg.Text.{Text, is_space, is_upper, is_lower, ascii_upper, any_of, matches_class, strip_class}
use seg.Lobby.JoinCode.{
  join_code_alphabet, is_separator, in_alphabet, normalize_join_code, validate_join_code, letter,
  generate_from, default_code_generator,
}

-- Six code units of the alphabet.
pub record IsJoinCode (code : Text) : Type 0 where
  pub six : length code ≡ 6
  pub letters : All (λ c. in_alphabet c ≡ true) code

validate_join_code_sound : (code : Text) → validate_join_code code ≡ none → IsJoinCode code
unfolding validate_join_code matches_class
validate_join_code_sound [] h = ground arith
validate_join_code_sound (c ∷ s) h = record {
  six = ground arith;
  letters = ground (arith, all-All in_alphabet s);
}

validate_join_code_complete : (code : Text) → IsJoinCode code → validate_join_code code ≡ none
unfolding validate_join_code matches_class
validate_join_code_complete [] h = absurd (omega (arith, h.six))
validate_join_code_complete (c ∷ s) h = ground (arith, h.six, All-all in_alphabet s h.letters.1)

-- A code passes the check exactly when it is six code units of the alphabet.
pub validate_join_code_iff : (code : Text) → (validate_join_code code ≡ none) ↔ IsJoinCode code
validate_join_code_iff code = (validate_join_code_sound code, validate_join_code_complete code)

-- A test that passes at every code unit under a bound, by evaluation.
every_code : (ℕ → Bool) → ℕ → Bool
every_code test zero = true
every_code test (suc top) = every_code test top && test top

every_code_at : (test : ℕ → Bool) (c top : ℕ) → c < top → every_code test top ≡ true → test c ≡ true
unfolding every_code
every_code_at test c zero small passed = absurd (omega arith)
every_code_at test c (suc top) small passed = ground (arith, every_code_at test c top)

letter_at : ℕ → Text
letter_at n = letter (get_elem? join_code_alphabet n)

letter_table :
    every_code (λ n. length (letter_at n) == 1 && all in_alphabet (letter_at n)) 26 ≡ true
unfolding every_code letter_at letter in_alphabet any_of
letter_table = refl

letter_at-letters :
    (n : ℕ) → n < 26 → (length (letter_at n) ≡ 1) × All (λ c. in_alphabet c ≡ true) (letter_at n)
letter_at-letters n h =
    let found = every_code_at _ n 26 h letter_table in
    (ground arith, all-All in_alphabet (letter_at n) (ground arith))

module _ (random_int : ℕ → ℕ) (in_range : (i : ℕ) → random_int i < 26) where
  generate_from-letters :
      (i rounds : ℕ) (code : Text)
      → All (λ c. in_alphabet c ≡ true) code
      → (length (generate_from random_int i rounds code) ≡ length code + rounds)
        × All (λ c. in_alphabet c ≡ true) (generate_from random_int i rounds code)
  unfolding generate_from letter_at
  generate_from-letters i zero code h = (omega arith, h)
  generate_from-letters i (suc rounds) code h =
      let (one, drawn) = letter_at-letters (random_int i) (in_range i) in
      let (len, rest) =
        generate_from-letters (i + 1) rounds (code ++ letter_at (random_int i))
          (All-append _ code (letter_at (random_int i)) h drawn) in
      (omega (arith, len, one, length-append code (letter_at (random_int i))), rest)

  -- If each draw is below the length of the alphabet, then what the default generator mints passes
  -- the check on join codes.
  pub default_code_generator-valid : validate_join_code (default_code_generator random_int) ≡ none
  unfolding default_code_generator
  default_code_generator-valid =
      let (len, letters) = generate_from-letters 0 6 [] tt in
      validate_join_code_complete _ (record { six = len; letters = letters })

-- What a player may type for a code: its letters in either case, with separators anywhere.
pub data Typed : Text → Text → Type 0 where
  done : Typed [] []
  separator : {d : ℕ} {t c : Text} → is_separator d ≡ true → Typed t c → Typed (d ∷ t) c
  plain : {d : ℕ} {t c : Text} → Typed t c → Typed (d ∷ t) (d ∷ c)
  lowered :
      {d e : ℕ} {t c : Text} → is_upper d ≡ true → e ≡ d + 32 → Typed t c → Typed (e ∷ t) (d ∷ c)

letter_facts : ℕ → Bool
letter_facts c =
    if in_alphabet c
    then (not (is_separator c))
      && ascii_upper c == c
      && (if is_upper c then not (is_separator (c + 32)) && ascii_upper (c + 32) == c else true)
    else true

letter_facts_table : every_code letter_facts 96 ≡ true
unfolding every_code letter_facts in_alphabet any_of is_separator is_space ascii_upper is_upper
    is_lower
letter_facts_table = refl

any_of-lt : (n : ℕ) (s : Text) (c : ℕ) → All (λ d. d < n) s → any_of s c ≡ true → c < n
unfolding any_of
any_of-lt n [] c h e = ground arith
any_of-lt n (d ∷ s) c h e = ground (arith, any_of-lt n s c h.1)

in_alphabet-lt : (c : ℕ) → in_alphabet c ≡ true → c < 96
unfolding in_alphabet
in_alphabet-lt c h = any_of-lt 96 join_code_alphabet c (omega arith) h

in_alphabet-facts : (c : ℕ) → in_alphabet c ≡ true → letter_facts c ≡ true
in_alphabet-facts c h = every_code_at letter_facts c 96 (in_alphabet-lt c h) letter_facts_table

kept_letter :
    (c : ℕ) → in_alphabet c ≡ true → (is_separator c ≡ false) × (ascii_upper c ≡ c) × (c < 128)
unfolding letter_facts
kept_letter c h =
    let facts = in_alphabet-facts c h in
    let small = in_alphabet-lt c h in (ground arith, ground arith, omega arith)

kept_lowered :
    (c : ℕ)
    → in_alphabet c ≡ true
    → is_upper c ≡ true
    → (is_separator (c + 32) ≡ false) × (ascii_upper (c + 32) ≡ c) × (c + 32 < 128)
unfolding letter_facts
kept_lowered c h u =
    let facts = in_alphabet-facts c h in
    let small = in_alphabet-lt c h in (ground arith, ground arith, omega arith)

stripped :
    {t c : Text}
    → Typed t c
    → All (λ d. in_alphabet d ≡ true) c
    → All (λ d. d < 128) (strip_class is_separator t)
      × (map ascii_upper (strip_class is_separator t) ≡ c)
unfolding strip_class
stripped done h = (tt, refl)
stripped (separator s r) h = rw s (stripped r h)
stripped (plain {d} r) h =
    let (s, u, small) = kept_letter d h.0 in
    let (ascii, same) = stripped r h.1 in rw s ((small, ascii), cc)
stripped (lowered {d} {e} u eq r) h =
    let (s, up, small) = kept_lowered d h.0 u in
    let (ascii, same) = stripped r h.1 in rw (eq, s) ((small, ascii), cc)

-- `toUpperCase`, of which only the effect on ASCII text is relied on.
module _ (to_upper_case : Text → Text)
    (upper_ascii : (s : Text) → All (λ c. c < 128) s → to_upper_case s ≡ map ascii_upper s) where
  -- However a well-formed code is typed, in either case and with separators anywhere, the
  -- normalised input is that code and passes the check, if `to_upper_case` acts on ASCII text
  -- letter by letter.
  pub normalize_join_code-Typed :
      {t c : Text}
      → Typed t c
      → IsJoinCode c
      → (normalize_join_code to_upper_case t ≡ c)
        × (validate_join_code (normalize_join_code to_upper_case t) ≡ none)
  unfolding normalize_join_code
  normalize_join_code-Typed {t} {c} r w =
      let (ascii, same) = stripped r w.letters in
      let found = upper_ascii (strip_class is_separator t) ascii ∙ same in
      (found, rw found (validate_join_code_complete c w))
