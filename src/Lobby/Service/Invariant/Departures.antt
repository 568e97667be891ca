-- ===== src/Lobby/Service/Invariant/Departures.antt =====
-- A member who goes: the lobby shrinks, or goes with the last of them.
use seg.Prelude.{
  Bool, true, false, none, some, List, [], ◌∷◌, ◌≡◌, refl, sym, ◌∙◌, ap, arith, get, get-set,
  delete, get-delete, number_key, text_key, ◌==◌, ==_iff, same_text_iff, if◌then◌else◌,
}
use seg.Text.{Text}
use seg.Lobby.State.{AccountId, LobbyId}
use seg.Lobby.Service.Registry.{LobbyService, MutableLobby, MutableMember, store}
use seg.Lobby.Service.Leave.{without_member, next_host, remove_left, remove}
use seg.Lobby.Service.Valid.{has_account}
use seg.Lobby.Service.Valid.Departure.{has_account-without_member, departure-IsValid}
use seg.Lobby.Service.Invariant.{IsHome, Inv}

module _ (s : LobbyService) (id : LobbyId) (lobby : MutableLobby) (account : AccountId) (v : Inv s)
    (held : get id s.lobbies ≡ some lobby) (seat : get account s.membership ≡ some id) where
  left_accounts :
      (a : AccountId) (ms : List MutableMember)
      → without_member account lobby.members ≡ ms
      → has_account a ms ≡ (if account == a then false else has_account a lobby.members)
  left_accounts a ms e =
      ap (has_account a) (sym e) ∙ has_account-without_member a account lobby.members

  abbrev gone : LobbyService
  gone = record s {
    lobbies = delete lobby.id s.lobbies;
    by_code = delete lobby.code s.by_code;
    membership = delete account s.membership;
  }

  own_id : lobby.id ≡ id
  own_id = (v.home id lobby held).own_id

  module _ (empty : without_member account lobby.members ≡ []) where
    get-gone : (j : LobbyId) → get j gone.lobbies ≡ (if id == j then none else get j s.lobbies)
    get-gone j =
        get-delete lobby.id j s.lobbies ∙ ap (λ k. if k == j then none else get j s.lobbies) own_id

    gone-seated :
        (a : AccountId) (j : LobbyId)
        → get a gone.membership ≡ some j
        → (there : MutableLobby) × (get j gone.lobbies ≡ some there)
          × (has_account a there.members ≡ true)
    gone-seated a j h =
        let (there, found, sits) =
          v.seated a j (ground (arith, get-delete account a s.membership)) in
        (
          there,
          ground (
            arith,
            get-gone j,
            found,
            sits,
            held,
            left_accounts a [] empty,
            get-delete account a s.membership,
            ==_iff id j,
          ),
          sits,
        )

    gone-IsHome :
        (j : LobbyId) (there : MutableLobby) → get j gone.lobbies ≡ some there → IsHome gone j there
    gone-IsHome j there h =
        let kept = v.home j there (ground (arith, get-gone j)) in
        record {
          own_id = kept.own_id;
          own_code = ground (
            arith,
            get-delete lobby.code there.code s.by_code,
            same_text_iff lobby.code there.code,
            kept.own_code,
            (v.home id lobby held).own_code,
            get-gone j,
            ==_iff id j,
          );
          valid = kept.valid;
          members = λ a sits. ground (
            arith,
            get-delete account a s.membership,
            kept.members a sits,
            seat,
            get-gone j,
            ==_iff id j,
            ==_iff account a,
          );
        }

    gone-coded :
        (code : Text) (j : LobbyId)
        → get code gone.by_code ≡ some j
        → (there : MutableLobby) × (get j gone.lobbies ≡ some there) × (there.code ≡ code)
    gone-coded code j h =
        let (there, found, known) =
          v.coded code j (ground (arith, get-delete lobby.code code s.by_code)) in
        (
          there,
          ground (
            arith,
            get-gone j,
            found,
            known,
            held,
            get-delete lobby.code code s.by_code,
            same_text_iff lobby.code code,
            ==_iff id j,
          ),
          known,
        )

    gone-Inv : Inv gone
    gone-Inv = record { seated = gone-seated; home = gone-IsHome; coded = gone-coded }

  module _ (m : MutableMember) (ms : List MutableMember)
      (left : without_member account lobby.members ≡ m ∷ ms) where
    abbrev smaller : MutableLobby
    smaller = record lobby {
      members = m ∷ ms;
      host_account_id = next_host lobby.host_account_id account (m ∷ ms);
    }

    abbrev parted : LobbyService
    parted = record (store s smaller) { membership = delete account s.membership }

    get-parted :
        (j : LobbyId) → get j parted.lobbies ≡ (if id == j then some smaller else get j s.lobbies)
    unfolding store
    get-parted j =
        get-set lobby.id j smaller s.lobbies
        ∙ ap (λ k. if k == j then some smaller else get j s.lobbies) own_id

    parted-member :
        (a : AccountId) → has_account a (m ∷ ms) ≡ true → get a parted.membership ≡ some id
    parted-member a sits =
        let seen = left_accounts a (m ∷ ms) left in
        let others : (account == a) ≡ false = ground arith in
        ground (
          arith,
          get-delete account a s.membership,
          others,
          (v.home id lobby held).members a (ground (arith, others)),
        )

    parted-seated :
        (a : AccountId) (j : LobbyId) (e : Bool)
        → (id == j) ≡ e
        → get a parted.membership ≡ some j
        → (there : MutableLobby) × (get j parted.lobbies ≡ some there)
          × (has_account a there.members ≡ true)
    parted-seated a j true e h =
        let (there, found, sits) =
          v.seated a j (ground (arith, get-delete account a s.membership)) in
        (
          smaller,
          get-parted j ∙ rw e refl,
          ground (
            arith,
            left_accounts a (m ∷ ms) left,
            get-delete account a s.membership,
            found,
            sits,
            held,
            ==_iff id j,
          ),
        )
    parted-seated a j false e h =
        let (there, found, sits) =
          v.seated a j (ground (arith, get-delete account a s.membership)) in
        (there, get-parted j ∙ rw e found, sits)

    parted-IsHome :
        (j : LobbyId) (there : MutableLobby) (e : Bool)
        → (id == j) ≡ e
        → get j parted.lobbies ≡ some there
        → IsHome parted j there
    unfolding store
    parted-IsHome j there true e h =
        let same : there ≡ smaller = ground (arith, get-parted j) in
        let here : j ≡ id = ground arith in
        let at_home = v.home id lobby held in
        rw (same, here)
          (record {
            own_id = own_id;
            own_code = at_home.own_code;
            valid = departure-IsValid lobby account m ms at_home.valid left;
            members = λ a sits. parted-member a sits;
          })
    parted-IsHome j there false e h =
        let kept = v.home j there (ground (arith, get-parted j)) in
        record {
          own_id = kept.own_id;
          own_code = kept.own_code;
          valid = kept.valid;
          members = λ a sits. ground (
            arith,
            get-delete account a s.membership,
            kept.members a sits,
            seat,
            ==_iff id j,
            ==_iff account a,
          );
        }

    parted-coded :
        (code : Text) (j : LobbyId) (e : Bool)
        → (id == j) ≡ e
        → get code s.by_code ≡ some j
        → (there : MutableLobby) × (get j parted.lobbies ≡ some there) × (there.code ≡ code)
    parted-coded code j true e h =
        let (there, found, known) = v.coded code j h in
        (smaller, get-parted j ∙ rw e refl, ground (arith, found, held, known, ==_iff id j))
    parted-coded code j false e h =
        let (there, found, known) = v.coded code j h in (there, get-parted j ∙ rw e found, known)

    parted-Inv : Inv parted
    unfolding store
    parted-Inv = record {
      seated = λ a j h. parted-seated a j (id == j) refl h;
      home = λ j there h. parted-IsHome j there (id == j) refl h;
      coded = λ code j h. parted-coded code j (id == j) refl h;
    }

  remove_left-Inv :
      (ms : List MutableMember)
      → without_member account lobby.members ≡ ms
      → Inv (remove_left s lobby account ms).0
  unfolding remove_left
  remove_left-Inv [] e = gone-Inv e
  remove_left-Inv (m ∷ ms) e = parted-Inv m ms e

  -- Taking out someone who sits in the lobby.
  pub remove-Inv : Inv (remove s lobby account).0
  unfolding remove
  remove-Inv = remove_left-Inv (without_member account lobby.members) refl
