-- ===== src/Match/Handler/ChatWindow.antt =====
-- The send times that the chat limit remembers, and those of them that stand in five seconds.
use seg.Prelude.{
  ℕ, ◌+◌, ◌≤◌, ◌<◌, Bool, ◌&&◌, List, [], ◌∷◌, ◌++◌, filter, length, ltb, leb, number_key, ◌≡◌,
  refl, arith,
}
use seg.Match.Handler.{is_recent, chat_window_ms}

abbrev pub within : ℕ → ℕ → Bool
within start at = leb start at && ltb at (start + chat_window_ms)

abbrev pub in_window : ℕ → List ℕ → ℕ
in_window start times = length (filter (within start) times)

-- What is forgotten is out of every window that is still open.
pub in_window-recent :
    (start now : ℕ) (times : List ℕ)
    → now < start + chat_window_ms
    → in_window start (filter (is_recent now) times) ≡ in_window start times
in_window-recent start now [] h = refl
in_window-recent start now (at ∷ times) h = ground (arith, in_window-recent start now times h)

pub in_window-length : (start : ℕ) (times : List ℕ) → in_window start times ≤ length times
in_window-length start [] = ground arith
in_window-length start (at ∷ times) = ground (arith, in_window-length start times)

pub recent-length :
    (now : ℕ) (times : List ℕ) → length (filter (is_recent now) times) ≤ length times
recent-length now [] = ground arith
recent-length now (at ∷ times) = ground (arith, recent-length now times)

pub in_window-append :
    (start now : ℕ) (times : List ℕ)
    → in_window start (times ++ now ∷ []) ≡ in_window start times + in_window start (now ∷ [])
in_window-append start now [] = ground arith
in_window-append start now (at ∷ times) = ground (arith, in_window-append start now times)

-- No remembered time is later than the clock.
abbrev pub Past : ℕ → List ℕ → Type 0
Past last [] = Unit
Past last (at ∷ times) = (at ≤ last) × Past last times

pub Past-later : (last now : ℕ) (times : List ℕ) → last ≤ now → Past last times → Past now times
Past-later last now [] h p = tt
Past-later last now (at ∷ times) h p = (omega (arith, p.0), Past-later last now times h p.1)

pub Past-recent :
    (last now : ℕ) (times : List ℕ) → Past last times → Past last (filter (is_recent now) times)
Past-recent last now [] p = tt
Past-recent last now (at ∷ times) p = ground (arith, Past-recent last now times p.1)

pub Past-append : (now : ℕ) (times : List ℕ) → Past now times → Past now (times ++ now ∷ [])
Past-append now [] p = (omega arith, tt)
Past-append now (at ∷ times) p = (p.0, Past-append now times p.1)

pub in_window-Past :
    (start last : ℕ) (times : List ℕ) → last < start → Past last times → in_window start times ≡ 0
in_window-Past start last [] h p = refl
in_window-Past start last (at ∷ times) h p =
    ground (arith, p.0, in_window-Past start last times h p.1)
