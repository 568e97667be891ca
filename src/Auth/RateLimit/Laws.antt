-- ===== src/Auth/RateLimit/Laws.antt =====
-- What the limiter decides.
use seg.Prelude.{
  ℕ, ◌+◌, ◌-◌, ◌*◌, ◌/◌, leb, ◌≤◌, ◌<◌, true, false, none, some, ◌≡◌, refl, ◌∙◌, List, [], ◌∷◌,
  length, arith, get, get-set, text_key, same_text_refl, if◌then◌else◌,
}
use seg.Text.{Text}
use seg.Auth.RateLimit.{
  RateLimiter, RateLimiterOptions, Entry, rolled_over, check_entry, check, fail_again, next_entry,
  record_failure,
}

-- A key is refused exactly while its lockout lasts, and the wait that is told is the least number
-- of seconds that reaches the end of the lockout. A refusal changes nothing.
pub record Decides (l : RateLimiter) (key : Text) (now : ℕ) (entry : Entry) : Type 0 where
  pub locked :
      now < entry.locked_until
      → (w : ℕ) × (check l key now ≡ (l, record { allowed = false; retry_after_seconds = w }))
        × (entry.locked_until ≤ now + 1000 * w)
        × (now + 1000 * w < entry.locked_until + 1000)
  pub free : entry.locked_until ≤ now → (check l key now).1.allowed ≡ true

-- For a key with an entry, `check` refuses exactly while the lockout lasts, changing nothing, and
-- the seconds that it tells are the fewest that reach the end of the lockout.
pub check-Decides :
    (l : RateLimiter) (key : Text) (now : ℕ) (entry : Entry)
    → get key l.entries ≡ some entry
    → Decides l key now entry
unfolding check check_entry
check-Decides l key now entry held = record {
  locked = λ h.
      ((entry.locked_until - now + 999) / 1000, ground (arith, held), omega arith, omega arith);
  free = λ h. ground (arith, held);
}

record-get :
    (l : RateLimiter) (key : Text) (now : ℕ)
    → get key (record_failure l key now).entries
      ≡ some (next_entry l.options (get key l.entries) now)
unfolding record_failure
record-get l key now =
    get-set key key (next_entry l.options (get key l.entries) now) l.entries
    ∙ rw (same_text_refl key) refl

unfoldable pub record_all : RateLimiter → Text → List ℕ → RateLimiter
record_all l key [] = l
record_all l key (now ∷ later) = record_all (record_failure l key now) key later

-- Failures within the window, so that none of them starts a new count.
abbrev pub InWindow : RateLimiterOptions → ℕ → List ℕ → Type 0
InWindow options start [] = Unit
InWindow options start (now ∷ later) =
    (now ≤ start + options.window_ms) × InWindow options start later

-- The instant of the last failure.
abbrev pub last_of : ℕ → List ℕ → ℕ
last_of now [] = now
last_of now (next ∷ later) = last_of next later

counted :
    (l : RateLimiter) (key : Text) (start n now : ℕ) (locked : ℕ) (times : List ℕ)
    → get key l.entries
      ≡ some (record { failures = n; first_failure_at = start; locked_until = locked })
    → InWindow l.options start times
    → l.options.max_failures ≤ n + length times
    → (l.options.max_failures ≤ n → locked ≡ now + l.options.lockout_ms)
    → (entry : Entry) × (get key (record_all l key times).entries ≡ some entry)
      × (entry.locked_until ≡ last_of now times + l.options.lockout_ms)
unfolding record_all record_failure next_entry fail_again rolled_over
counted l key start n now locked [] held w enough until = (_, held, until (omega arith))
counted l key start n now locked (next ∷ times) held w enough until =
    let again =
      if leb l.options.max_failures (n + 1) then next + l.options.lockout_ms else locked in
    counted (record_failure l key next) key start (n + 1) next again times
      (record-get l key next ∙ ground (arith, held, w.0)) w.1 (omega arith) (λ h. ground arith)

-- From the first failure of a key that has no entry on, once as many failures as the limit, all
-- within the window of the first, have been recorded, and possibly more, `check` refuses the key
-- until the lockout counted from the last of them is over, and allows it from then on.
pub record_all-locks :
    (l : RateLimiter) (key : Text) (first now : ℕ) (times : List ℕ)
    → get key l.entries ≡ none
    → 2 ≤ l.options.max_failures
    → InWindow l.options first times
    → l.options.max_failures ≤ 1 + length times
    → (now < last_of first times + l.options.lockout_ms
        → (check (record_all l key (first ∷ times)) key now).1.allowed ≡ false)
      × (last_of first times + l.options.lockout_ms ≤ now
          → (check (record_all l key (first ∷ times)) key now).1.allowed ≡ true)
unfolding check check_entry record_all record_failure next_entry
record_all-locks l key first now times free several w enough =
    let start = record-get l key first in
    let (entry, held, until) =
      counted (record_failure l key first) key first 1 first 0 times (start ∙ ground (arith, free))
        w enough (λ h. absurd (omega arith)) in
    (λ h. ground (arith, held, until), λ h. ground (arith, held, until))
