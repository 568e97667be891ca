-- ===== src/Auth/Service/Invariant.antt =====
-- What holds of the tables of accounts and sessions whatever requests come, in any interleaving of
-- their phases.
use seg.Prelude.{
  ℕ, ◌+◌, ◌≤◌, Bool, true, false, some, List, [], ◌∷◌, ◌++◌, ◌==◌, ◌≡◌, ◌≢◌, inl, inr, subst, sym,
  arith, All, InOrder, All-append, All-filter, All-update, any-All, InOrder-filter, InOrder-append,
  InOrder-update, Bool-cases, All-map, same_text_iff, ==_iff, any, All-find,
}
use seg.Text.{Text}
use seg.Auth.Validation.{IsUsername, username_key, normalize_username}
use seg.Auth.Tables.{
  AccountRow, SessionRow, CreateAccountInput, CreateSessionInput, account_row, clashes, see,
  has_token, touch_row, session_row, create_account, touch_last_seen, create_session, touch,
  delete_where, find_by_token_hash,
}
use seg.Auth.Contract.{remember_ttl_ms, session_ttl_ms}

-- Two accounts whose names differ in more than case.
abbrev pub Apart : AccountRow → AccountRow → Type 0
Apart a b = (a.id ≢ b.id) × (a.username_lower ≢ b.username_lower)

abbrev pub OtherToken : SessionRow → SessionRow → Type 0
OtherToken a b = a.token_hash ≢ b.token_hash

-- A session that is not remembered lives 12 hours from its creation and no longer; one that is
-- remembered lives 30 days at most from its last use.
pub record LivesRight (row : SessionRow) : Type 0 where
  pub flag : row.remember ≤ 1
  pub absolute : row.remember ≡ 0 → row.expires_at ≡ row.created_at + session_ttl_ms
  pub sliding : row.remember ≡ 1 → row.expires_at ≤ row.last_used_at + remember_ttl_ms

module _ (to_lower_case : Text → Text) where
  -- An account's name is acceptable, and its key is that of its name.
  abbrev pub NamedRight : AccountRow → Type 0
  NamedRight row =
      IsUsername (normalize_username row.username)
      × (row.username_lower ≡ username_key to_lower_case row.username)

  pub record AccountsSound (rows : List AccountRow) : Type 0 where
    pub named : All NamedRight rows
    pub apart : InOrder Apart rows

  clashes-Apart :
      (input : CreateAccountInput) (row : AccountRow)
      → clashes input row ≡ false
      → Apart row (account_row input)
  clashes-Apart input row h =
      ground (arith, ==_iff row.id input.id, same_text_iff row.username_lower input.username_lower)

  pub create_account_sound :
      (input : CreateAccountInput) (rows rows' : List AccountRow)
      → NamedRight (account_row input)
      → create_account input rows ≡ some rows'
      → AccountsSound rows
      → AccountsSound rows'
  unfolding create_account
  create_account_sound input rows rows' named e s = elim (Bool-cases (any (clashes input) rows)) [
    | inl t ↦ absurd (ground arith)
    | inr f ↦ subst AccountsSound {x = rows ++ account_row input ∷ []} (ground arith) (record {
      named = All-append NamedRight rows _ s.named (named, tt);
      apart =
          InOrder-append Apart rows _ s.apart
            (All-map (clashes-Apart input) rows (any-All (clashes input) rows f));
    })
  ]

  see-NamedRight : (id now : ℕ) (row : AccountRow) → NamedRight row → NamedRight (see id now row)
  see-NamedRight id now row h = elim (Bool-cases (row.id == id)) [ inl e ↦ rw e h | inr e ↦ rw e h ]

  see-Apart : (id now : ℕ) (a b : AccountRow) → Apart a b → Apart (see id now a) (see id now b)
  see-Apart id now a b h = ground arith

  pub touch_last_seen_sound :
      (id now : ℕ) (rows : List AccountRow)
      → AccountsSound rows
      → AccountsSound (touch_last_seen id now rows)
  unfolding touch_last_seen
  touch_last_seen_sound id now rows s = record {
    named = All-update NamedRight (see id now) (see-NamedRight id now) rows s.named;
    apart = InOrder-update Apart (see id now) (λ a b h. see-Apart id now a b h) rows s.apart;
  }

pub record SessionsSound (rows : List SessionRow) : Type 0 where
  pub tokens : InOrder OtherToken rows
  pub lives : All LivesRight rows

pub delete_where_sound :
    (p : SessionRow → Bool) (rows : List SessionRow)
    → SessionsSound rows
    → SessionsSound (delete_where p rows).0
unfolding delete_where
delete_where_sound p rows s = record {
  tokens = InOrder-filter OtherToken _ rows s.tokens;
  lives = All-filter LivesRight _ rows s.lives;
}

has_token-other :
    (input : CreateSessionInput) (row : SessionRow)
    → has_token input.token_hash row ≡ false
    → OtherToken row (session_row input)
has_token-other input row h = ground (arith, same_text_iff row.token_hash input.token_hash)

pub create_session_sound :
    (input : CreateSessionInput) (rows rows' : List SessionRow)
    → LivesRight (session_row input)
    → create_session input rows ≡ some rows'
    → SessionsSound rows
    → SessionsSound rows'
unfolding create_session
create_session_sound input rows rows' lives e s =
    elim (Bool-cases (any (has_token input.token_hash) rows)) [
      | inl t ↦ absurd (ground arith)
      | inr f ↦ subst SessionsSound {x = rows ++ session_row input ∷ []} (ground arith) (record {
        tokens =
            InOrder-append OtherToken rows _ s.tokens
              (All-map (has_token-other input) rows (any-All _ rows f));
        lives = All-append LivesRight rows _ s.lives (lives, tt);
      })
    ]

-- Only one row has the token that a search found.
other_row :
    (token_hash : Text) (row : SessionRow)
    → has_token token_hash row ≡ true
    → (session other : SessionRow) → OtherToken row other
    → has_token token_hash other ≡ true
    → other ≡ session
other_row token_hash row t session other h k = absurd (
    ground
      (arith, same_text_iff row.token_hash token_hash, same_text_iff other.token_hash token_hash))

pub the_row :
    (token_hash : Text) (rows : List SessionRow) (session : SessionRow)
    → InOrder OtherToken rows
    → find_by_token_hash token_hash rows ≡ some session
    → All (λ row. has_token token_hash row ≡ true → row ≡ session) rows
unfolding find_by_token_hash
the_row token_hash [] session h e = tt
the_row token_hash (row ∷ rows) session h e = elim (Bool-cases (has_token token_hash row)) [
  | inl t ↦ (λ _. ground arith, All-map (other_row token_hash row t session) rows h.0)
  | inr f ↦ (λ t. ground arith, the_row token_hash rows session h.1 (ground arith))
]

touch-LivesRight :
    (token_hash : Text) (now expires_at : ℕ) (session : SessionRow) (rows : List SessionRow)
    → LivesRight (record session { last_used_at = now; expires_at = expires_at })
    → All LivesRight rows
    → All (λ row. has_token token_hash row ≡ true → row ≡ session) rows
    → All LivesRight (touch token_hash now expires_at rows)
unfolding touch
touch-LivesRight token_hash now expires_at session [] new h k = tt
touch-LivesRight token_hash now expires_at session (row ∷ rows) new h k = (
  elim (Bool-cases (has_token token_hash row)) [
    | inl t ↦ rw t (
        subst (λ r. LivesRight (record r { last_used_at = now; expires_at = expires_at }))
          (sym (k.0 t)) new)
    | inr f ↦ rw f h.0
  ],
  touch-LivesRight token_hash now expires_at session rows new h.1 k.1,
)

touch_row-OtherToken :
    (token_hash : Text) (now expires_at : ℕ) (a b : SessionRow)
    → OtherToken a b
    → OtherToken (touch_row token_hash now expires_at a) (touch_row token_hash now expires_at b)
touch_row-OtherToken token_hash now expires_at a b h = ground arith

touch-tokens :
    (token_hash : Text) (now expires_at : ℕ) (rows : List SessionRow)
    → InOrder OtherToken rows
    → InOrder OtherToken (touch token_hash now expires_at rows)
unfolding touch
touch-tokens token_hash now expires_at rows h =
    InOrder-update OtherToken _ (touch_row-OtherToken token_hash now expires_at) rows h

pub touch_sound :
    (token_hash : Text) (now expires_at : ℕ) (session : SessionRow) (rows : List SessionRow)
    → find_by_token_hash token_hash rows ≡ some session
    → LivesRight (record session { last_used_at = now; expires_at = expires_at })
    → SessionsSound rows
    → SessionsSound (touch token_hash now expires_at rows)
touch_sound token_hash now expires_at session rows e new s = record {
  tokens = touch-tokens token_hash now expires_at rows s.tokens;
  lives =
      touch-LivesRight token_hash now expires_at session rows new s.lives
        (the_row token_hash rows session s.tokens e);
}

pub found-LivesRight :
    (token_hash : Text) (rows : List SessionRow) (session : SessionRow)
    → find_by_token_hash token_hash rows ≡ some session
    → SessionsSound rows
    → LivesRight session
unfolding find_by_token_hash
found-LivesRight token_hash rows session e h = All-find LivesRight _ rows session h.lives e
