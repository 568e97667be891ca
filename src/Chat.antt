-- ===== src/Chat.antt =====
-- packages/shared/src/match/chat.ts. A team is `none` for a spectator.
use seg.Prelude.{
  ℕ, Bool, true, false, ◌&&◌, ◌||◌, not, Option, none, some, map, length, ◌==◌, ltb, leb,
  if◌then◌else◌, same_text, ◌≡◌, ◌≢◌, ◌↔◌, arith, String,
}
use seg.Text.{Text, text, trim, collapse}

pub data ChatScope : Type 0 where
  team all spectator : ChatScope

unfoldable pub chat_scope_of : Text → Option ChatScope
chat_scope_of value =
    if same_text value (text "team")
    then some team
    else if same_text value (text "all")
    then some all
    else if same_text value (text "spectator")
    then some spectator
    else none

abbrev pub chat_max_length : ℕ
chat_max_length = 200

pub record ChatEntry : Type 0 where
  pub id : ℕ
  pub from : ℕ
  pub username : Text
  pub side : Option ℕ
  pub scope : ChatScope
  pub line : Text
  pub at : ℕ

pub data ChatProblem : Type 0 where
  no_text too_long wrong_scope rate_limited : ChatProblem

pub describe_chat_problem : ChatProblem → String
describe_chat_problem no_text = "Say something first."
describe_chat_problem too_long = "Keep it under 200 characters."
describe_chat_problem wrong_scope = "You cannot speak on that channel."
describe_chat_problem rate_limited = "Slow down."

unfoldable pub is_hostile : ℕ → Bool
is_hostile c =
    leb c 0x1F
    || (leb 0x7F c && leb c 0x9F)
    || c == 0x200E
    || c == 0x200F
    || (leb 0x202A c && leb c 0x202E)
    || (leb 0x2066 c && leb c 0x2069)

unfoldable pub normalize_chat_text : Text → Text
normalize_chat_text line = trim (collapse (map (λ c. if is_hostile c then 32 else c) line))

unfoldable pub validate_chat_text : Text → Option ChatProblem
validate_chat_text line =
    if length line == 0
    then some no_text
    else if ltb chat_max_length (length line)
    then some too_long
    else none

abbrev pub is_spectator_scope : ChatScope → Bool
is_spectator_scope spectator = true
is_spectator_scope _ = false

unfoldable pub can_speak_on : ChatScope → Option ℕ → Bool
can_speak_on scope none = is_spectator_scope scope
can_speak_on scope (some side) = not (is_spectator_scope scope)

abbrev pub same_side : Option ℕ → Option ℕ → Bool
same_side none none = true
same_side (some a) (some b) = a == b
same_side _ _ = false

abbrev pub watches : Option ℕ → Bool
watches none = true
watches (some side) = false

abbrev pub hears_scope : ChatScope → Option ℕ → Option ℕ → Bool
hears_scope all side listener = true
hears_scope spectator side listener = watches listener
hears_scope team side listener = watches listener || same_side listener side

unfoldable pub can_hear : ChatEntry → Option ℕ → Bool
can_hear entry listener = hears_scope entry.scope entry.side listener

-- For a line that its speaker was allowed to send: the speaker hears it, every spectator hears it,
-- and a player of the other team hears it exactly when a player sent it to all.
pub can_hear-can_speak_on :
    (entry : ChatEntry) (other : ℕ)
    → can_speak_on entry.scope entry.side ≡ true
    → entry.side ≢ some other
    → (can_hear entry entry.side ≡ true)
      × (can_hear entry none ≡ true)
      × ((can_hear entry (some other) ≡ true) ↔ (entry.scope ≡ all))
unfolding can_speak_on can_hear
can_hear-can_speak_on entry other spoke apart =
    (ground arith, ground arith, (λ h. ground arith, λ h. ground arith))
