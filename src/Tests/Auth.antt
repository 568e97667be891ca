-- ===== src/Tests/Auth.antt =====
-- The limiter and the credential rules at concrete inputs.
use seg.Prelude.{◌+◌, ◌≤◌, ◌<◌, true, false, none, [], ◌∷◌, ◌≡◌, refl, ◌↔◌, get, arith}
use seg.Text.{text}
use seg.Auth.RateLimit.{RateLimiter, RateLimiterOptions, Entry, check}
use seg.Auth.RateLimit.Laws.{Decides, check-Decides, record_all, record_all-locks}
use seg.Auth.Validation.{validate_username, normalize_username, IsUsername, validate_username_iff}

abbrev strict : RateLimiterOptions
strict = record { max_failures = 3; lockout_ms = 500; window_ms = 100 }

abbrev locked_entry : Entry
locked_entry = record { failures = 3; first_failure_at = 10; locked_until = 2530 }

abbrev limiter : RateLimiter
limiter = record { entries = (text "user:ann", locked_entry) ∷ []; options = strict }

abbrev fresh_limiter : RateLimiter
fresh_limiter = record { entries = []; options = strict }

check-Decides_example : Decides limiter (text "user:ann") 40 locked_entry
unfolding get
check-Decides_example = check-Decides limiter (text "user:ann") 40 locked_entry refl

record_all-locks_example :
    (100 < 30 + 500
      → (check
          (record_all fresh_limiter (text "ip:1") (10 ∷ 20 ∷ 30 ∷ []))
          (text "ip:1")
          100).1.allowed
        ≡ false)
    × (30 + 500 ≤ 100
        → (check
            (record_all fresh_limiter (text "ip:1") (10 ∷ 20 ∷ 30 ∷ []))
            (text "ip:1")
            100).1.allowed
          ≡ true)
unfolding get
record_all-locks_example =
    record_all-locks fresh_limiter (text "ip:1") 10 100 (20 ∷ 30 ∷ []) refl (omega arith)
      (omega arith) (omega arith)

validate_username_iff_example :
    (validate_username (text " ann ") ≡ none) ↔ IsUsername (normalize_username (text " ann "))
validate_username_iff_example = validate_username_iff (text " ann ")
