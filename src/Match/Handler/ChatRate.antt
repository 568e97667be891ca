-- ===== src/Match/Handler/ChatRate.antt =====
-- How many chat lines the limit lets through.
use seg.Prelude.{
  ℕ, ◌+◌, ◌*◌, ◌≤◌, ◌<◌, true, false, ◌&&◌, List, [], ◌∷◌, ◌++◌, ◌∙◌, filter, length, length-append,
  ◌==◌, ltb, leb, if◌then◌else◌, get, get-set, get-delete, number_key, ◌≡◌, refl, arith, ==_refl,
  ==_iff, ap, subst, sym, Bool-cases, inl, inr, ◌⊎◌,
}
use seg.Lobby.State.{AccountId}
use seg.Match.Handler.{
  ChatTimes, times_in, is_recent, allow_chat, forget_times, chat_burst, chat_window_ms,
}
use seg.Match.Handler.ChatWindow.{
  within, in_window, in_window-recent, in_window-length, recent-length, in_window-append, Past,
  Past-later, Past-recent, Past-append, in_window-Past,
}

-- What changes the send times: a line that is tried, or a socket that goes.
pub data ChatMoment : Type 0 where
  speaks detaches : AccountId → ℕ → ChatMoment

abbrev pub time_of : ChatMoment → ℕ
time_of (speaks account now) = now
time_of (detaches account now) = now

-- The lines that are let through, each with its account and its time.
unfoldable pub admitted : ChatTimes → List ChatMoment → List (AccountId × ℕ)
admitted times [] = []
admitted times (speaks account now ∷ moments) =
    let (times', allowed) = allow_chat account now times in
    let rest = admitted times' moments in if allowed then (account, now) ∷ rest else rest
admitted times (detaches account now ∷ moments) = admitted (forget_times account times) moments

-- The clock does not go back.
abbrev pub Forward : ℕ → List ChatMoment → Type 0
Forward last [] = Unit
Forward last (moment ∷ moments) = (last ≤ time_of moment) × Forward (time_of moment) moments

abbrev pub lines_in : ℕ → AccountId → List (AccountId × ℕ) → ℕ
lines_in start account [] = 0
lines_in start account ((speaker, at) ∷ lines) =
    let rest = lines_in start account lines in
    if speaker == account && within start at then 1 + rest else rest

-- How often the account's socket goes in the five seconds.
abbrev pub detaches_in : ℕ → AccountId → List ChatMoment → ℕ
detaches_in start account [] = 0
detaches_in start account (speaks speaker at ∷ moments) = detaches_in start account moments
detaches_in start account (detaches leaver at ∷ moments) =
    let rest = detaches_in start account moments in
    if leaver == account && within start at then 1 + rest else rest

-- A window that is closed takes no more lines.
lines_in-closed :
    (start : ℕ) (account : AccountId) (times : ChatTimes) (last : ℕ) (moments : List ChatMoment)
    → start + chat_window_ms ≤ last
    → Forward last moments
    → lines_in start account (admitted times moments) ≡ 0
unfolding admitted
lines_in-closed start account times last [] closed forward = refl
lines_in-closed start account times last (speaks speaker now ∷ moments) closed (later, forward) =
    ground (
      arith,
      lines_in-closed start account (allow_chat speaker now times).0 now moments (omega arith)
          forward,
    )
lines_in-closed start account times last (detaches leaver now ∷ moments) closed (later, forward) =
    lines_in-closed start account (forget_times leaver times) now moments (omega arith) forward

module _ (start : ℕ) (account : AccountId) where
  abbrev kept : ChatTimes → List ℕ
  kept times = times_in (get account times)

  -- What the limit remembers after a try, and that the lines of others change nothing.
  module _ (times : ChatTimes) (now : ℕ) where
    abbrev left : List ℕ
    left = filter (is_recent now) (kept times)

    kept-other :
        (speaker : AccountId)
        → (speaker == account) ≡ false
        → kept (allow_chat speaker now times).0 ≡ kept times
    unfolding allow_chat
    kept-other speaker e = ground (
      arith,
      get-set speaker account (filter (is_recent now) (times_in (get speaker times))) times,
      get-set speaker account (filter (is_recent now) (times_in (get speaker times)) ++ now ∷ [])
          times,
    )

    allow_chat-cases :
        ((kept (allow_chat account now times).0 ≡ left)
          × ((allow_chat account now times).1 ≡ false))
        ⊎ ((kept (allow_chat account now times).0 ≡ left ++ now ∷ [])
            × ((allow_chat account now times).1 ≡ true)
            × (length left < chat_burst))
    unfolding allow_chat
    allow_chat-cases = elim (Bool-cases (leb chat_burst (length left))) [
      | inl e ↦
          inl (ground (arith, get-set account account left times, ==_refl account), ground arith)
      | inr e ↦ inr (
        ground (arith, get-set account account (left ++ now ∷ []) times, ==_refl account),
        ground arith,
        ground arith,
      )
    ]

  -- What a closed window still gets.
  closed-bound :
      (times : ChatTimes) (now : ℕ) (moments : List ChatMoment)
      → length (kept times) ≤ chat_burst
      → ltb now (start + chat_window_ms) ≡ false
      → Forward now moments
      → (times' : ChatTimes)
      → in_window start (kept times) + lines_in start account (admitted times' moments) ≤ chat_burst
  closed-bound times now moments few e forward times' =
      let over = lines_in-closed start account times' now moments (ground arith) forward in
      let whole = in_window-length start (kept times) in ground (arith, over, whole)

  -- The lines that are remembered and those to come fit into any window, `more` of them besides.
  abbrev Fits : ℕ → ChatTimes → List ChatMoment → Type 0
  Fits more times moments =
      in_window start (kept times) + lines_in start account (admitted times moments)
      ≤ chat_burst + more

  -- A try of the account itself, where the claim holds for what follows.
  room-own :
      (more : ℕ) (times : ChatTimes) (now : ℕ) (moments : List ChatMoment)
      → length (kept times) ≤ chat_burst
      → Past now (kept times)
      → Forward now moments
      → (length (kept (allow_chat account now times).0) ≤ chat_burst
          → Past now (kept (allow_chat account now times).0)
          → Fits more (allow_chat account now times).0 moments)
      → Fits more times (speaks account now ∷ moments)
  unfolding admitted
  room-own more times now moments few past forward next =
      let times' = (allow_chat account now times).0 in
      let seen = in_window-recent start now (kept times) in
      let fewer = recent-length now (kept times) in
      let self = ==_refl account in
      let past_left = Past-recent now now (kept times) past in
      elim (Bool-cases (ltb now (start + chat_window_ms))) [
        | inr e ↦
            let over = closed-bound times now moments few e forward times' in
            ground (arith, over, self, e)
        | inl e ↦
            let here = seen (ground arith) in
            elim (allow_chat-cases times now) [
              | inl (kept_eq, refused) ↦
                  let rest = next (rw kept_eq (omega arith)) (rw kept_eq past_left) in
                  ground (arith, here, refused, ap (in_window start) kept_eq, rest)
              | inr (kept_eq, allowed, some_left) ↦
                  let longer = length-append (left times now) (now ∷ []) in
                  let rest =
                    next (rw kept_eq (ground arith))
                      (rw kept_eq (Past-append now (left times now) past_left)) in
                  let split = in_window-append start now (left times now) in
                  ground (arith, here, allowed, self, split, ap (in_window start) kept_eq, rest)
            ]
      ]

  kept-forget_times :
      (leaver : AccountId) (times : ChatTimes)
      → kept (forget_times leaver times) ≡ (if leaver == account then [] else kept times)
  unfolding forget_times
  kept-forget_times leaver times = ground (arith, get-delete leaver account times)

  -- A socket that goes, where the claim holds for what follows.
  room-gone :
      (more : ℕ) (times : ChatTimes) (leaver : AccountId) (last now : ℕ) (moments : List ChatMoment)
      → length (kept times) ≤ chat_burst
      → Past last (kept times)
      → last ≤ now
      → Forward now moments
      → more ≡ 3 * detaches_in start account moments
      → Fits more (forget_times leaver times) moments
      → Fits
          (3 * detaches_in start account (detaches leaver now ∷ moments))
          times
          (detaches leaver now ∷ moments)
  unfolding admitted
  room-gone more times leaver last now moments few past later forward more_is rest =
      let whole = in_window-length start (kept times) in
      let left = kept-forget_times leaver times in
      elim (Bool-cases (leaver == account)) [
        | inr e ↦
            let same : kept (forget_times leaver times) ≡ kept times = left ∙ rw e refl in
            ground (arith, rest, ap (in_window start) same, more_is)
        | inl e ↦
            let emptied : kept (forget_times leaver times) ≡ [] = left ∙ rw e refl in
            elim (Bool-cases (ltb now start)) [
              | inl f ↦
                  let none_yet = in_window-Past start last (kept times) (ground arith) past in
                  ground (arith, rest, none_yet, more_is)
              | inr f ↦ elim (Bool-cases (ltb now (start + chat_window_ms))) [
                | inl g ↦ ground (arith, rest, whole, more_is)
                | inr g ↦
                    let over =
                      closed-bound times now moments few g forward (forget_times leaver times) in
                    ground (arith, over)
              ]
            ]
      ]

  room :
      (times : ChatTimes) (last : ℕ) (moments : List ChatMoment)
      → length (kept times) ≤ chat_burst
      → Past last (kept times)
      → Forward last moments
      → Fits (3 * detaches_in start account moments) times moments
  unfolding admitted
  room times last [] few past forward = ground (arith, in_window-length start (kept times))
  room times last (speaks speaker now ∷ moments) few past (later, forward) =
      let times' = (allow_chat speaker now times).0 in
      let past_now = Past-later last now (kept times) later past in
      elim (Bool-cases (speaker == account)) [
        | inr e ↦
            let same = kept-other times now speaker e in
            ground (arith, same, room times' now moments (rw same few) (rw same past_now) forward)
        | inl e ↦
            let own =
              room-own (3 * detaches_in start account moments) times now moments few past_now
                forward (λ h p. room (allow_chat account now times).0 now moments h p forward) in
            subst (λ a. Fits (3 * detaches_in start account moments) times (speaks a now ∷ moments))
              (sym ((==_iff speaker account).0 e)) own
      ]
  room times last (detaches leaver now ∷ moments) few past (later, forward) =
      let times' = forget_times leaver times in
      let left = kept-forget_times leaver times in
      let past_now = Past-later last now (kept times) later past in
      let rest : Fits (3 * detaches_in start account moments) times' moments =
        elim (Bool-cases (leaver == account)) [
          | inl e ↦
              let emptied : kept times' ≡ [] = left ∙ rw e refl in
              room times' now moments (rw emptied (omega arith)) (rw emptied tt) forward
          | inr e ↦
              let same : kept times' ≡ kept times = left ∙ rw e refl in
              room times' now moments (rw same few) (rw same past_now) forward
        ] in
      room-gone (3 * detaches_in start account moments) times leaver last now moments few past later
        forward refl rest

-- While the clock does not go back, any five seconds from any start have at most three chat
-- lines of an account that are let through, and three more for each time that its socket goes in
-- them, whoever else speaks, out of a limit that remembers nothing.
pub admitted-few :
    (moments : List ChatMoment) (start : ℕ) (account : AccountId)
    → Forward 0 moments
    → lines_in start account (admitted [] moments)
      ≤ chat_burst + chat_burst * detaches_in start account moments
unfolding get
admitted-few moments start account forward =
    let bound = room start account [] 0 moments (ground arith) tt forward in omega (arith, bound)
