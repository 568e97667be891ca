-- ===== src/Auth/RateLimit.antt =====
-- packages/server/src/auth/rate-limit.ts. Instants are milliseconds.
pub mod Laws
use seg.Prelude.{
  ℕ, ◌+◌, ◌-◌, ◌*◌, ◌/◌, Bool, true, false, ◌&&◌, ◌||◌, not, Option, none, some, List, [], ◌∷◌,
  ◌==◌, ltb, leb, if◌then◌else◌, Map, get, set, delete, length, text_key,
}
use seg.Text.{Text}

pub record RateLimitDecision : Type 0 where
  pub allowed : Bool
  pub retry_after_seconds : ℕ

abbrev pub allowed_now : RateLimitDecision
allowed_now = record { allowed = true; retry_after_seconds = 0 }

pub record RateLimiterOptions : Type 0 where
  pub max_failures : ℕ
  pub lockout_ms : ℕ
  pub window_ms : ℕ

pub record Entry : Type 0 where
  pub failures : ℕ
  pub first_failure_at : ℕ
  pub locked_until : ℕ

pub record RateLimiter : Type 0 where
  pub entries : Map Text Entry
  pub options : RateLimiterOptions

-- `now - entry.firstFailureAt > windowMs`
unfoldable pub rolled_over : RateLimiterOptions → Entry → ℕ → Bool
rolled_over options entry now = ltb (entry.first_failure_at + options.window_ms) now

unfoldable pub check_entry : RateLimiter → Text → ℕ → Entry → RateLimiter × RateLimitDecision
check_entry l key now entry =
    if ltb now entry.locked_until
    then (
      l,
      record { allowed = false; retry_after_seconds = (entry.locked_until - now + 999) / 1000 },
    )
    else if not (entry.locked_until == 0) || rolled_over l.options entry now
    then (record l { entries = delete key l.entries }, allowed_now)
    else (l, allowed_now)

unfoldable pub check : RateLimiter → Text → ℕ → RateLimiter × RateLimitDecision
check l key now = elim (get key l.entries) [
  | none ↦ (l, allowed_now)
  | some entry ↦ check_entry l key now entry
]

abbrev pub first_entry : ℕ → Entry
first_entry now = record { failures = 1; first_failure_at = now; locked_until = 0 }

unfoldable pub fail_again : RateLimiterOptions → Entry → ℕ → Entry
fail_again options entry now =
    if rolled_over options entry now
    then first_entry now
    else if leb options.max_failures (entry.failures + 1)
    then record entry { failures = entry.failures + 1; locked_until = now + options.lockout_ms }
    else record entry { failures = entry.failures + 1 }

unfoldable pub next_entry : RateLimiterOptions → Option Entry → ℕ → Entry
next_entry options none now = first_entry now
next_entry options (some entry) now = fail_again options entry now

unfoldable pub record_failure : RateLimiter → Text → ℕ → RateLimiter
record_failure l key now = record l {
  entries = set key (next_entry l.options (get key l.entries) now) l.entries;
}

unfoldable pub clear : RateLimiter → Text → RateLimiter
clear l key = record l { entries = delete key l.entries }

unfoldable pub expired : RateLimiterOptions → ℕ → Entry → Bool
expired options now entry = leb entry.locked_until now && rolled_over options entry now

-- The loop of `sweep`: the entries are those of a `Map`, so each key stands once and a deletion
-- takes out the entry that is visited.
unfoldable pub sweep_entries : RateLimiterOptions → ℕ → Map Text Entry → Map Text Entry
sweep_entries options now [] = []
sweep_entries options now ((key, entry) ∷ rest) =
    let kept = sweep_entries options now rest in
    if expired options now entry then kept else (key, entry) ∷ kept

unfoldable pub sweep : RateLimiter → ℕ → RateLimiter
sweep l now = record l { entries = sweep_entries l.options now l.entries }

abbrev pub username_limits : RateLimiterOptions
username_limits = record { max_failures = 10; lockout_ms = 15 * 60000; window_ms = 15 * 60000 }

abbrev pub ip_limits : RateLimiterOptions
ip_limits = record { max_failures = 30; lockout_ms = 15 * 60000; window_ms = 15 * 60000 }
