-- ===== src/Lobby/Service/Promises/Heirs.antt =====
-- Who inherits a lobby.
use seg.Prelude.{
  ◌≤◌, Bool, true, false, some, List, [], ◌∷◌, ◌≡◌, ◌≢◌, refl, sym, ◌∙◌, ap, subst, ◌⊎◌, inl, inr,
  All, All-map, In, arith, ==_refl, sort_by, insert_by, Ordered, sort_by-Ordered, Bool-cases,
}
use seg.Lobby.State.{AccountId, LobbyState, is_playing}
use seg.Lobby.Service.Registry.{
  LobbyService, MutableLobby, MutableMember, account_of, position_of, snapshot,
}
use seg.Lobby.Service.Valid.Departure.{sort_by-ne-nil}
use seg.Lobby.Service.Leave.{inherits_first, heir, next_host, without_member, remove_left, remove}

-- `a` inherits rather than `b`: a player before a spectator, and else who joined no later.
pub record Outranks (a b : MutableMember) : Type 0 where
  pub plays : is_playing position_of b ≡ true → is_playing position_of a ≡ true
  pub earlier : is_playing position_of a ≡ is_playing position_of b → a.joined_at ≤ b.joined_at

inherits_first-Outranks : (a b : MutableMember) → inherits_first a b ≡ true → Outranks a b
unfolding inherits_first
inherits_first-Outranks a b h = record { plays = λ p. ground arith; earlier = λ e. ground arith }

inherits_first_total :
    (a b : MutableMember) → inherits_first a b ≡ false → inherits_first b a ≡ true
unfolding inherits_first
inherits_first_total a b h = ground arith

inherits_first_trans :
    (a b c : MutableMember)
    → inherits_first a b ≡ true
    → inherits_first b c ≡ true
    → inherits_first a c ≡ true
unfolding inherits_first
inherits_first_trans a b c h k = ground arith

inherits_first_refl : (a : MutableMember) → inherits_first a a ≡ true
unfolding inherits_first
inherits_first_refl a = ground arith

module _ (P : MutableMember → Type 0) where
  All-of-insert_by :
      (first : MutableMember → MutableMember → Bool) (x : MutableMember) (ys : List MutableMember)
      → All P (insert_by first x ys)
      → P x × All P ys
  All-of-insert_by first x [] h = h
  All-of-insert_by first x (y ∷ ys) h = elim (Bool-cases (first x y)) [
    | inl e ↦ let k = rw e at h in (k.0, k.1)
    | inr e ↦
        let k = rw e at h in let (p, rest) = All-of-insert_by first x ys k.1 in (p, (k.0, rest))
  ]

  All-of-sort_by :
      (first : MutableMember → MutableMember → Bool) (xs : List MutableMember)
      → All P (sort_by first xs)
      → All P xs
  All-of-sort_by first [] h = tt
  All-of-sort_by first (x ∷ xs) h =
      let (p, rest) = All-of-insert_by first x (sort_by first xs) h in
      (p, All-of-sort_by first xs rest)

In-insert_by :
    (first : MutableMember → MutableMember → Bool) (m x : MutableMember) (ys : List MutableMember)
    → In m (insert_by first x ys)
    → (m ≡ x) ⊎ In m ys
In-insert_by first m x [] h = h
In-insert_by first m x (y ∷ ys) h = elim (Bool-cases (first x y)) [
  | inl e ↦ rw e at h
  | inr e ↦ elim (rw e at h) [
    | inl same ↦ inr (inl same)
    | inr later ↦ elim (In-insert_by first m x ys later) [
      | inl same ↦ inl same
      | inr there ↦ inr (inr there)
    ]
  ]
]

In-sort_by :
    (first : MutableMember → MutableMember → Bool) (m : MutableMember) (xs : List MutableMember)
    → In m (sort_by first xs)
    → In m xs
In-sort_by first m [] h = h
In-sort_by first m (x ∷ xs) h = elim (In-insert_by first m x (sort_by first xs) h) [
  | inl same ↦ inl same
  | inr there ↦ inr (In-sort_by first m xs there)
]

-- The account of a member who outranks everyone.
pub record Inherits (members : List MutableMember) (account : AccountId) : Type 0 where
  pub member : MutableMember
  pub present : In member members
  pub owner : account_of member ≡ account
  pub first : All (Outranks member) members

heir-sorted :
    (host : AccountId) (members sorted : List MutableMember)
    → sort_by inherits_first members ≡ sorted
    → sorted ≢ []
    → Ordered inherits_first sorted
    → Inherits members (heir host sorted)
unfolding heir
heir-sorted host members [] e some_left o = absurd (some_left refl)
heir-sorted host members (m ∷ rest) e some_left o = record {
  member = m;
  present = In-sort_by inherits_first m members (rw e (inl refl));
  owner = refl;
  first =
      All-map (inherits_first-Outranks m) members
        (All-of-sort_by _ inherits_first members (rw e (inherits_first_refl m, o.0)));
}

next_host-Inherits :
    (account : AccountId) (members : List MutableMember)
    → members ≢ []
    → Inherits members (next_host account account members)
unfolding next_host
next_host-Inherits account members some_left = rw (==_refl account) (
    heir-sorted account members (sort_by inherits_first members) refl
      (sort_by-ne-nil members some_left)
      (sort_by-Ordered inherits_first inherits_first_total inherits_first_trans members))

next_host-stays :
    (host account : AccountId) (members : List MutableMember)
    → host ≢ account
    → next_host host account members ≡ host
unfolding next_host
next_host-stays host account members other = ground arith

remove_left-heir :
    (s : LobbyService) (lobby : MutableLobby) (account : AccountId) (left : List MutableMember)
    (state : LobbyState)
    → (remove_left s lobby account left).1.state ≡ some state
    → (left ≢ []) × (state.host_account_id ≡ next_host lobby.host_account_id account left)
unfolding remove_left snapshot
remove_left-heir s lobby account [] state h = cc
remove_left-heir s lobby account (m ∷ ms) state h = (λ e. cc, ground arith)

-- When a member goes and others are left, the host stays unless it is the host who goes: then
-- one who is left inherits, a player if any plays, and of these the one who joined first.
pub remove-Inherits :
    (s : LobbyService) (lobby : MutableLobby) (account : AccountId) (state : LobbyState)
    → (remove s lobby account).1.state ≡ some state
    → (lobby.host_account_id ≢ account → state.host_account_id ≡ lobby.host_account_id)
      × (lobby.host_account_id ≡ account
          → Inherits (without_member account lobby.members) state.host_account_id)
unfolding remove
remove-Inherits s lobby account state h =
    let left = without_member account lobby.members in
    let (some_left, found) = remove_left-heir s lobby account left state h in
    (
      λ other. found ∙ next_host-stays lobby.host_account_id account left other,
      λ same.
          subst (Inherits left) (sym (found ∙ ap (λ host. next_host host account left) same))
            (next_host-Inherits account left some_left),
    )
