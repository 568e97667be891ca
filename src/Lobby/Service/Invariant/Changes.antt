-- ===== src/Lobby/Service/Invariant/Changes.antt =====
-- What a write to the registry does to the invariant: a lobby changed in place.
use seg.Prelude.{
  Bool, true, false, some, ◌≡◌, refl, sym, ◌∙◌, ap, arith, get, get-set, number_key, text_key, ◌==◌,
  ==_iff, if◌then◌else◌,
}
use seg.Text.{Text}
use seg.Lobby.State.{AccountId, LobbyId}
use seg.Lobby.Service.Registry.{LobbyService, MutableLobby, store}
use seg.Lobby.Service.Valid.{IsValid, has_account}
use seg.Lobby.Service.Invariant.{IsHome, Inv}

module _ (s : LobbyService) (id : LobbyId) (old new : MutableLobby) (v : Inv s)
    (held : get id s.lobbies ≡ some old) (same_id : new.id ≡ old.id)
    (same_code : new.code ≡ old.code)
    (same_accounts : (a : AccountId) → has_account a new.members ≡ has_account a old.members)
    (valid : IsValid new) where
  new_id : new.id ≡ id
  new_id = same_id ∙ (v.home id old held).own_id

  get-store :
      (j : LobbyId) → get j (store s new).lobbies ≡ (if id == j then some new else get j s.lobbies)
  unfolding store
  get-store j =
      get-set new.id j new s.lobbies ∙ ap (λ k. if k == j then some new else get j s.lobbies) new_id

  store-seated :
      (a : AccountId) (j : LobbyId) (e : Bool)
      → (id == j) ≡ e
      → get a s.membership ≡ some j
      → (lobby : MutableLobby) × (get j (store s new).lobbies ≡ some lobby)
        × (has_account a lobby.members ≡ true)
  store-seated a j true e h =
      let (lobby, there, sits) = v.seated a j h in
      (new, get-store j ∙ rw e refl, ground (arith, same_accounts a, ==_iff id j))
  store-seated a j false e h =
      let (lobby, there, sits) = v.seated a j h in (lobby, get-store j ∙ rw e there, sits)

  store-IsHome :
      (j : LobbyId) (lobby : MutableLobby) (e : Bool)
      → (id == j) ≡ e
      → get j (store s new).lobbies ≡ some lobby
      → IsHome (store s new) j lobby
  unfolding store
  store-IsHome j lobby true e h =
      let at_home = v.home id old held in
      let same : lobby ≡ new = ground (arith, get-store j) in
      let here : j ≡ id = ground arith in
      rw (same, here)
        (record {
          own_id = new_id;
          own_code = rw same_code at_home.own_code;
          valid = valid;
          members = λ a sits. at_home.members a (sym (same_accounts a) ∙ sits);
        })
  store-IsHome j lobby false e h =
      let there = v.home j lobby (ground (arith, get-store j)) in
      record {
        own_id = there.own_id;
        own_code = there.own_code;
        valid = there.valid;
        members = there.members;
      }

  store-coded :
      (code : Text) (j : LobbyId) (e : Bool)
      → (id == j) ≡ e
      → get code s.by_code ≡ some j
      → (lobby : MutableLobby) × (get j (store s new).lobbies ≡ some lobby) × (lobby.code ≡ code)
  store-coded code j true e h =
      let (lobby, there, known) = v.coded code j h in
      (new, get-store j ∙ rw e refl, same_code ∙ ground (arith, ==_iff id j))
  store-coded code j false e h =
      let (lobby, there, known) = v.coded code j h in (lobby, get-store j ∙ rw e there, known)

  -- A lobby that is replaced by a well-formed one with the same id, code and accounts.
  pub store-Inv : Inv (store s new)
  unfolding store
  store-Inv = record {
    seated = λ a j h. store-seated a j (id == j) refl h;
    home = λ j lobby h. store-IsHome j lobby (id == j) refl h;
    coded = λ code j h. store-coded code j (id == j) refl h;
  }
