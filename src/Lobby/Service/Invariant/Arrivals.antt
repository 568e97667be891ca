-- ===== src/Lobby/Service/Invariant/Arrivals.antt =====
-- A lobby that is registered, and a member who joins.
use seg.Prelude.{
  ℕ, Bool, true, false, ◌||◌, none, some, [], ◌∷◌, ◌≡◌, refl, ◌∙◌, ap, arith, get, set, get-set,
  number_key, text_key, ◌==◌, ==_iff, same_text, same_text_iff, same_text_refl, if◌then◌else◌, inl,
  inr, Bool-cases,
}
use seg.Text.{Text}
use seg.Lobby.Settings.{LobbyPosition}
use seg.Lobby.State.{AccountId, LobbyId}
use seg.Lobby.Service.Registry.{LobbyService, MutableLobby, store}
use seg.Lobby.Service.Create.{register, first_open_position, new_member, seat_joiner}
use seg.Lobby.Service.Valid.{IsValid, has_account}
use seg.Lobby.Service.Valid.Seats.{seat_joiner-IsValid, has_account-append}
use seg.Lobby.Service.Invariant.{IsHome, Inv}

module _ (s : LobbyService) (new : MutableLobby) (account : AccountId) (now : ℕ) (v : Inv s)
    (outside : get account s.membership ≡ none) (fresh : get new.id s.lobbies ≡ none)
    (minted : get new.code s.by_code ≡ none)
    (alone : (a : AccountId) → has_account a new.members ≡ (account == a))
    (valid : IsValid new) where
  abbrev after : LobbyService
  after = register s new account now

  get-lobbies :
      (j : LobbyId) → get j after.lobbies ≡ (if new.id == j then some new else get j s.lobbies)
  unfolding register
  get-lobbies j = get-set new.id j new s.lobbies

  get-by_code :
      (code : Text)
      → get code after.by_code
        ≡ (if same_text new.code code then some new.id else get code s.by_code)
  unfolding register
  get-by_code code = get-set new.code code new.id s.by_code

  get-membership :
      (a : AccountId)
      → get a after.membership ≡ (if account == a then some new.id else get a s.membership)
  unfolding register
  get-membership a = get-set account a new.id s.membership

  register-kept :
      (j : LobbyId) (lobby : MutableLobby)
      → get j s.lobbies ≡ some lobby
      → get j after.lobbies ≡ some lobby
  register-kept j lobby h = ground (arith, get-lobbies j, ==_iff new.id j, fresh)

  register-seated :
      (a : AccountId) (j : LobbyId) (e : Bool)
      → (account == a) ≡ e
      → get a after.membership ≡ some j
      → (lobby : MutableLobby) × (get j after.lobbies ≡ some lobby)
        × (has_account a lobby.members ≡ true)
  register-seated a j true e h =
      (new, ground (arith, get-lobbies j, get-membership a, ==_iff new.id j), alone a ∙ e)
  register-seated a j false e h =
      let (lobby, there, sits) = v.seated a j (ground (arith, get-membership a)) in
      (lobby, register-kept j lobby there, sits)

  register-IsHome :
      (j : LobbyId) (lobby : MutableLobby) (e : Bool)
      → (new.id == j) ≡ e
      → get j after.lobbies ≡ some lobby
      → IsHome after j lobby
  register-IsHome j lobby true e h =
      let same : lobby ≡ new = ground (arith, get-lobbies j) in
      let here : j ≡ new.id = ground arith in
      rw (same, here)
        (record {
          own_id = refl;
          own_code = get-by_code new.code ∙ rw (same_text_refl new.code) refl;
          valid = valid;
          members = λ a sits. ground (arith, get-membership a, alone a, sits);
        })
  register-IsHome j lobby false e h =
      let there = v.home j lobby (ground (arith, get-lobbies j)) in
      record {
        own_id = there.own_id;
        own_code = ground (
          arith,
          get-by_code lobby.code,
          same_text_iff new.code lobby.code,
          there.own_code,
          minted,
        );
        valid = there.valid;
        members = λ a sits.
            ground (arith, get-membership a, there.members a sits, outside, ==_iff account a);
      }

  register-coded :
      (code : Text) (j : LobbyId) (e : Bool)
      → same_text new.code code ≡ e
      → get code after.by_code ≡ some j
      → (lobby : MutableLobby) × (get j after.lobbies ≡ some lobby) × (lobby.code ≡ code)
  register-coded code j true e h = (
    new,
    ground (arith, get-lobbies j, get-by_code code, ==_iff new.id j),
    (same_text_iff new.code code).0 e,
  )
  register-coded code j false e h =
      let (lobby, there, known) = v.coded code j (ground (arith, get-by_code code)) in
      (lobby, register-kept j lobby there, known)

  -- A new lobby with a free code and a free id, whose one member was in no lobby.
  pub register-Inv : Inv (register s new account now)
  register-Inv = record {
    seated = λ a j h. register-seated a j (account == a) refl h;
    home = λ j lobby h. register-IsHome j lobby (new.id == j) refl h;
    coded = λ code j h. register-coded code j (same_text new.code code) refl h;
  }

module _ (s : LobbyService) (id : LobbyId) (lobby : MutableLobby) (account : AccountId)
    (username : Text) (position : LobbyPosition) (now : ℕ) (v : Inv s)
    (held : get id s.lobbies ≡ some lobby) (outside : get account s.membership ≡ none)
    (free : first_open_position lobby ≡ some position) where
  abbrev joined : MutableLobby
  joined = seat_joiner lobby (new_member account username position now)

  abbrev welcomed : LobbyService
  welcomed = record (store s joined) { membership = set account id s.membership }

  absent : has_account account lobby.members ≡ false
  absent = elim (Bool-cases (has_account account lobby.members)) [
    | inl e ↦ cc ((v.home id lobby held).members account e)
    | inr e ↦ e
  ]

  joined_id : joined.id ≡ id
  unfolding seat_joiner
  joined_id = (v.home id lobby held).own_id

  joined_code : joined.code ≡ lobby.code
  unfolding seat_joiner
  joined_code = refl

  joined_accounts :
      (a : AccountId) → has_account a joined.members ≡ (has_account a lobby.members || account == a)
  unfolding seat_joiner new_member
  joined_accounts a =
      ground
        (arith, has_account-append a lobby.members (new_member account username position now ∷ []))

  get-joined :
      (j : LobbyId) → get j welcomed.lobbies ≡ (if id == j then some joined else get j s.lobbies)
  unfolding store
  get-joined j =
      get-set joined.id j joined s.lobbies
      ∙ ap (λ k. if k == j then some joined else get j s.lobbies) joined_id

  get-welcomed :
      (a : AccountId)
      → get a welcomed.membership ≡ (if account == a then some id else get a s.membership)
  get-welcomed a = get-set account a id s.membership

  joined-sits :
      (a : AccountId) (j : LobbyId)
      → (id == j) ≡ true
      → get a welcomed.membership ≡ some j
      → has_account a joined.members ≡ true
  joined-sits a j e h = elim (Bool-cases (account == a)) [
    | inl new ↦ ground (arith, joined_accounts a, new)
    | inr old ↦
        let (there, found, sits) = v.seated a j (ground (arith, get-welcomed a)) in
        ground (arith, joined_accounts a, sits, found, held, ==_iff id j)
  ]

  joined-member :
      (a : AccountId) → has_account a joined.members ≡ true → get a welcomed.membership ≡ some id
  joined-member a sits = elim (Bool-cases (account == a)) [
    | inl new ↦ ground (arith, get-welcomed a, new)
    | inr old ↦
        let member = (v.home id lobby held).members a (ground (arith, joined_accounts a)) in
        ground (arith, get-welcomed a, member)
  ]

  join-seated :
      (a : AccountId) (j : LobbyId) (e : Bool)
      → (id == j) ≡ e
      → get a welcomed.membership ≡ some j
      → (there : MutableLobby) × (get j welcomed.lobbies ≡ some there)
        × (has_account a there.members ≡ true)
  join-seated a j true e h = (joined, get-joined j ∙ rw e refl, joined-sits a j e h)
  join-seated a j false e h =
      let (there, found, sits) = v.seated a j (ground (arith, get-welcomed a, ==_iff id j)) in
      (there, get-joined j ∙ rw e found, sits)

  join-IsHome :
      (j : LobbyId) (there : MutableLobby) (e : Bool)
      → (id == j) ≡ e
      → get j welcomed.lobbies ≡ some there
      → IsHome welcomed j there
  unfolding store
  join-IsHome j there true e h =
      let same : there ≡ joined = ground (arith, get-joined j) in
      let here : j ≡ id = ground arith in
      let at_home = v.home id lobby held in
      rw (same, here)
        (record {
          own_id = joined_id;
          own_code = rw joined_code at_home.own_code;
          valid = seat_joiner-IsValid lobby account username position now at_home.valid free absent;
          members = joined-member;
        })
  join-IsHome j there false e h =
      let kept = v.home j there (ground (arith, get-joined j)) in
      record {
        own_id = kept.own_id;
        own_code = kept.own_code;
        valid = kept.valid;
        members = λ a sits.
            ground (arith, get-welcomed a, kept.members a sits, outside, ==_iff account a);
      }

  join-coded :
      (code : Text) (j : LobbyId) (e : Bool)
      → (id == j) ≡ e
      → get code s.by_code ≡ some j
      → (there : MutableLobby) × (get j welcomed.lobbies ≡ some there) × (there.code ≡ code)
  join-coded code j true e h =
      let (there, found, known) = v.coded code j h in
      (joined, get-joined j ∙ rw e refl, joined_code ∙ ground (arith, ==_iff id j))
  join-coded code j false e h =
      let (there, found, known) = v.coded code j h in (there, get-joined j ∙ rw e found, known)

  -- Someone who was in no lobby takes a free seat.
  pub join-Inv : Inv welcomed
  unfolding store
  join-Inv = record {
    seated = λ a j h. join-seated a j (id == j) refl h;
    home = λ j there h. join-IsHome j there (id == j) refl h;
    coded = λ code j h. join-coded code j (id == j) refl h;
  }
