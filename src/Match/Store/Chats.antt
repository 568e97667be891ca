-- ===== src/Match/Store/Chats.antt =====
-- The chat that was said in a match as a log, and the backlog as its newest lines.
use seg.Prelude.{
  ℕ, zero, suc, ◌+◌, ◌-◌, ◌≤◌, ◌<◌, List, [], ◌∷◌, ◌++◌, length, length-append, ltb, leb,
  if◌then◌else◌, ◌≡◌, refl, arith, Bool-cases, inl, inr, ap, sym, ◌∙◌,
}
use seg.Chat.{ChatEntry}
use seg.Match.Store.{Spoken, chat_backlog, dropped_lines, remember, numbered}

-- What was said, as the numbered lines that players read.
abbrev pub entry_of : ℕ → Spoken → ChatEntry
entry_of id said = record {
  id = id;
  from = said.from;
  username = said.username;
  side = said.side;
  scope = said.scope;
  line = said.line;
  at = said.at;
}

abbrev pub entries_from : ℕ → List Spoken → List ChatEntry
entries_from n [] = []
entries_from n (said ∷ log) = entry_of n said ∷ entries_from (n + 1) log

-- The last so many of a list, in their order.
abbrev pub newest : ℕ → List ChatEntry → List ChatEntry
newest count [] = []
newest count (entry ∷ entries) =
    let rest = newest count entries in if leb count (length entries) then rest else entry ∷ rest

-- The backlog of a match in which the log was said.
abbrev pub backlog : List Spoken → List ChatEntry
backlog log = newest 50 (entries_from 1 log)

entries_from-append :
    (n : ℕ) (log : List Spoken) (said : Spoken)
    → entries_from n (log ++ said ∷ []) ≡ entries_from n log ++ entry_of (n + length log) said ∷ []
entries_from-append n [] said = ap (λ m. entry_of m said ∷ []) (omega arith)
entries_from-append n (first ∷ log) said =
    ap (λ entries. entry_of n first ∷ entries)
      (entries_from-append (n + 1) log said
        ∙ ap (λ m. entries_from (n + 1) log ++ entry_of m said ∷ []) (ground arith))

length-entries_from : (n : ℕ) (log : List Spoken) → length (entries_from n log) ≡ length log
length-entries_from n [] = refl
length-entries_from n (said ∷ log) = ground (arith, length-entries_from (n + 1) log)

length-dropped_lines :
    (k : ℕ) (entries : List ChatEntry) → length (dropped_lines k entries) ≡ length entries - k
unfolding dropped_lines
length-dropped_lines zero entries = omega arith
length-dropped_lines (suc k) [] = omega arith
length-dropped_lines (suc k) (entry ∷ entries) = length-dropped_lines k entries ∙ ground arith

dropped_lines-append :
    (k : ℕ) (entries more : List ChatEntry)
    → k ≤ length entries
    → dropped_lines k entries ++ more ≡ dropped_lines k (entries ++ more)
unfolding dropped_lines
dropped_lines-append zero entries more h = refl
dropped_lines-append (suc k) [] more h = absurd (omega arith)
dropped_lines-append (suc k) (entry ∷ entries) more h =
    dropped_lines-append k entries more (omega arith)

dropped_lines_twice :
    (k : ℕ) (entries : List ChatEntry)
    → dropped_lines 1 (dropped_lines k entries) ≡ dropped_lines (suc k) entries
unfolding dropped_lines
dropped_lines_twice zero entries = refl
dropped_lines_twice (suc k) [] = refl
dropped_lines_twice (suc k) (entry ∷ entries) = dropped_lines_twice k entries

newest-eq-dropped_lines :
    (count : ℕ) (entries : List ChatEntry)
    → newest count entries ≡ dropped_lines (length entries - count) entries
unfolding dropped_lines
newest-eq-dropped_lines count [] = let zero_left : 0 - count ≡ 0 = omega arith in rw zero_left refl
newest-eq-dropped_lines count (entry ∷ entries) = elim (Bool-cases (leb count (length entries))) [
  | inl e ↦
      let one_more : length (entry ∷ entries) - count ≡ suc (length entries - count) =
        ground arith in
      rw (e, one_more) (newest-eq-dropped_lines count entries)
  | inr e ↦
      let none_more : length (entry ∷ entries) - count ≡ 0 = ground arith in
      let none_less : length entries - count ≡ 0 = ground arith in
      let rest : newest count entries ≡ entries =
        newest-eq-dropped_lines count entries ∙ ap (λ k. dropped_lines k entries) none_less in
      rw (e, none_more) (ap (λ tail. entry ∷ tail) rest)
]

remember-fits :
    (entry : ChatEntry) (chat : List ChatEntry)
    → length chat < chat_backlog
    → remember entry chat ≡ chat ++ entry ∷ []
unfolding remember
remember-fits entry chat h = ground (arith, length-append chat (entry ∷ []))

remember-full :
    (entry : ChatEntry) (chat : List ChatEntry)
    → length chat ≡ chat_backlog
    → remember entry chat ≡ dropped_lines 1 (chat ++ entry ∷ [])
unfolding remember
remember-full entry chat h =
    let longer = length-append chat (entry ∷ []) in
    let over : length (chat ++ entry ∷ []) - chat_backlog ≡ 1 = omega arith in
    ground (arith, longer, ap (λ k. dropped_lines k (chat ++ entry ∷ [])) over)

-- The code keeps the newest lines by dropping the oldest one.
remember-newest :
    (entry : ChatEntry) (entries : List ChatEntry)
    → remember entry (newest 50 entries) ≡ newest 50 (entries ++ entry ∷ [])
unfolding dropped_lines
remember-newest entry entries =
    let k = length entries - 50 in
    let longer = length-append entries (entry ∷ []) in
    let kept = newest-eq-dropped_lines 50 entries in
    let goal = newest-eq-dropped_lines 50 (entries ++ entry ∷ []) in
    let size = length-dropped_lines k entries in
    ap (remember entry) kept ∙ elim (Bool-cases (ltb (length entries) 50)) [
      | inl e ↦
          let old : k ≡ 0 = ground arith in
          let new : length (entries ++ entry ∷ []) - 50 ≡ 0 = ground arith in
          remember-fits entry (dropped_lines k entries) (ground arith)
          ∙ ap (λ j. dropped_lines j entries ++ entry ∷ []) old
          ∙ sym (goal ∙ ap (λ j. dropped_lines j (entries ++ entry ∷ [])) new)
      | inr e ↦
          let new : length (entries ++ entry ∷ []) - 50 ≡ suc k = ground arith in
          remember-full entry (dropped_lines k entries) (ground arith)
          ∙ ap (dropped_lines 1) (dropped_lines-append k entries (entry ∷ []) (omega arith))
          ∙ dropped_lines_twice k (entries ++ entry ∷ [])
          ∙ sym (goal ∙ ap (λ j. dropped_lines j (entries ++ entry ∷ [])) new)
    ]

-- A line that is said, after the log.
pub remember-backlog :
    (log : List Spoken) (said : Spoken)
    → remember (numbered (length log + 1) said) (backlog log) ≡ backlog (log ++ said ∷ [])
remember-backlog log said =
    remember-newest (numbered (length log + 1) said) (entries_from 1 log)
    ∙ ap (newest 50) (
        ap (λ m. entries_from 1 log ++ entry_of m said ∷ []) (omega arith)
        ∙ sym (entries_from-append 1 log said))
