-- ===== src/Text/Laws.antt =====
-- What trimming and collapsing leave.
use seg.Prelude.{
  ℕ, Bool, true, false, ◌&&◌, not, [], ◌∷◌, ◌≡◌, refl, ◌⊎◌, inl, inr, arith, ◌==◌, if◌then◌else◌,
  Bool-cases,
}
use seg.Text.{Text, is_space, keep_end, trim_start, trim_end, trim, collapse_from, collapse}

-- White space is single blanks, and never the last code unit. The flag says that what came before
-- was white space.
tidy_from : Bool → Text → Bool
tidy_from after [] = not after
tidy_from after (c ∷ s) =
    if is_space c then c == 32 && not after && tidy_from true s else tidy_from false s

-- Neither begins nor ends with white space, and holds none but single blanks.
pub is_tidy : Text → Bool
is_tidy [] = true
is_tidy (c ∷ s) = tidy_from true (c ∷ s)

-- The last code unit is no white space.
solid : Bool → Text → Bool
solid after [] = not after
solid after (c ∷ s) = solid (is_space c) s

keep_end-solid :
    (c : ℕ) (t : Text)
    → ((t ≡ []) ⊎ ((b : Bool) → solid b t ≡ true))
    → (keep_end c t ≡ []) ⊎ ((b : Bool) → solid b (keep_end c t) ≡ true)
unfolding keep_end solid
keep_end-solid c [] h = elim (Bool-cases (is_space c)) [
  | inl e ↦ inl (ground arith)
  | inr e ↦ inr λ b. ground arith
]
keep_end-solid c (d ∷ t) (inl e) = inr λ b. ground arith
keep_end-solid c (d ∷ t) (inr h) = inr λ b. h (is_space c)

trim_end-solid : (s : Text) → (trim_end s ≡ []) ⊎ ((b : Bool) → solid b (trim_end s) ≡ true)
unfolding trim_end
trim_end-solid [] = inl refl
trim_end-solid (c ∷ s) = keep_end-solid c (trim_end s) (trim_end-solid s)

is_space-blank : is_space 32 ≡ true
unfolding is_space
is_space-blank = refl

collapse_from-tidy :
    (b : Bool) (s : Text) → solid b s ≡ true → tidy_from b (collapse_from b s) ≡ true
unfolding collapse_from tidy_from solid
collapse_from-tidy b [] h = h
collapse_from-tidy b (c ∷ s) h =
    ground (arith, is_space-blank, collapse_from-tidy true s, collapse_from-tidy false s)

-- What `trim_start` leaves does not begin with white space.
abbrev Starts : Text → Type 0
Starts [] = Unit {0}
Starts (c ∷ s) = is_space c ≡ false

trim_start-Starts : (s : Text) → Starts (trim_start s)
unfolding trim_start
trim_start-Starts [] = tt
trim_start-Starts (c ∷ s) = elim (Bool-cases (is_space c)) [
  | inl e ↦ rw e (trim_start-Starts s)
  | inr e ↦ rw e e
]

keep_end-Starts : (c : ℕ) (t : Text) → is_space c ≡ false → Starts (keep_end c t)
unfolding keep_end
keep_end-Starts c [] e = rw e e
keep_end-Starts c (d ∷ t) e = e

trim_end-Starts : (s : Text) → Starts s → Starts (trim_end s)
unfolding trim_end
trim_end-Starts [] h = tt
trim_end-Starts (c ∷ s) h = keep_end-Starts c (trim_end s) h

collapse-is_tidy :
    (s : Text)
    → Starts s
    → ((s ≡ []) ⊎ ((b : Bool) → solid b s ≡ true))
    → is_tidy (collapse s) ≡ true
unfolding collapse collapse_from is_tidy tidy_from solid
collapse-is_tidy [] h k = refl
collapse-is_tidy (c ∷ s) h (inl e) = cc
collapse-is_tidy (c ∷ s) h (inr k) = ground (arith, k false, collapse_from-tidy false s)

-- A name that has been trimmed and collapsed holds no white space but single blanks inside.
pub collapse-trim-is_tidy : (s : Text) → is_tidy (collapse (trim s)) ≡ true
unfolding trim
collapse-trim-is_tidy s =
    collapse-is_tidy (trim_end (trim_start s))
      (trim_end-Starts (trim_start s) (trim_start-Starts s)) (trim_end-solid (trim_start s))

-- Such a text is left as it is.
tidy_from-collapse : (b : Bool) (s : Text) → tidy_from b s ≡ true → collapse_from b s ≡ s
unfolding collapse_from tidy_from
tidy_from-collapse b [] h = refl
tidy_from-collapse b (c ∷ s) h =
    ground (arith, tidy_from-collapse true s, tidy_from-collapse false s)

tidy_from-trim_start : (s : Text) → tidy_from true s ≡ true → trim_start s ≡ s
unfolding trim_start tidy_from
tidy_from-trim_start [] h = refl
tidy_from-trim_start (c ∷ s) h = ground arith

tidy_from-tail :
    (b : Bool) (c : ℕ) (s : Text) → tidy_from b (c ∷ s) ≡ true → tidy_from (is_space c) s ≡ true
unfolding tidy_from
tidy_from-tail b c s h = ground arith

tidy_from-keep_end :
    (b : Bool) (c : ℕ) (s : Text) → tidy_from b (c ∷ s) ≡ true → keep_end c s ≡ c ∷ s
unfolding keep_end tidy_from
tidy_from-keep_end b c [] h = ground arith
tidy_from-keep_end b c (d ∷ s) h = refl

tidy_from-trim_end : (b : Bool) (s : Text) → tidy_from b s ≡ true → trim_end s ≡ s
unfolding trim_end
tidy_from-trim_end b [] h = refl
tidy_from-trim_end b (c ∷ s) h =
    rw (tidy_from-trim_end (is_space c) s (tidy_from-tail b c s h)) (tidy_from-keep_end b c s h)

tidy_from-started :
    (c : ℕ) (s : Text) → tidy_from true (c ∷ s) ≡ true → tidy_from false (c ∷ s) ≡ true
unfolding tidy_from
tidy_from-started c s h = ground arith

pub is_tidy-stable : (s : Text) → is_tidy s ≡ true → collapse (trim s) ≡ s
unfolding is_tidy trim collapse collapse_from trim_end trim_start
is_tidy-stable [] h = refl
is_tidy-stable (c ∷ s) h =
    rw (tidy_from-trim_start (c ∷ s) h, tidy_from-trim_end true (c ∷ s) h)
      (tidy_from-collapse false (c ∷ s) (tidy_from-started c s h))
