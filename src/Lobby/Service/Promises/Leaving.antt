-- ===== src/Lobby/Service/Promises/Leaving.antt =====
-- What a departure leaves behind, and what a creation brings.
use seg.Prelude.{
  ℕ, ◌+◌, ◌*◌, ◌≤◌, ◌<◌, not, filter, ◌==◌, Option, none, some, List, [], ◌∷◌, ◌≡◌, ◌≢◌, refl, ◌∙◌,
  ap, inl, inr, arith, get, get-set, delete, get-delete, has, Option-cases, number_key, text_key,
  ==_iff, ==_refl, same_text_refl, subst,
}
use seg.Text.{Text}
use seg.Lobby.Settings.{normalize_lobby_name}
use seg.Lobby.State.{AccountId, LobbyId, LobbyState}
use seg.Lobby.Service.Registry.{
  LobbyService, MutableLobby, MutableMember, LobbyMutation, account_of, snapshot, ok, fail,
  rate_limited, wait_seconds, store, require_lobby, lobby_for,
}
use seg.Lobby.Service.Create.{Inputs, register, create_named, cooling, seconds_left, create}
use seg.Lobby.Service.Promises.Meanwhile.{Meanwhile, Meanwhile-SameTime}
use seg.Lobby.Service.Leave.{without_member, next_host, remove_left, remove, leave, disconnect}

pub remove_left-membership :
    (s : LobbyService) (lobby : MutableLobby) (account : AccountId) (left : List MutableMember)
    → (remove_left s lobby account left).0.membership ≡ delete account s.membership
unfolding remove_left store
remove_left-membership s lobby account [] = refl
remove_left-membership s lobby account (m ∷ ms) = refl

remove_left-others :
    (s : LobbyService) (lobby : MutableLobby) (account : AccountId) (left : List MutableMember)
    (id : LobbyId)
    → lobby.id ≢ id
    → get id (remove_left s lobby account left).0.lobbies ≡ get id s.lobbies
unfolding remove_left store
remove_left-others s lobby account [] id other = ground (arith, get-delete lobby.id id s.lobbies)
remove_left-others s lobby account (m ∷ ms) id other = ground (
  arith,
  get-set lobby.id id
      (record lobby {
        members = m ∷ ms;
        host_account_id = next_host lobby.host_account_id account (m ∷ ms);
      })
      s.lobbies,
)

-- Those of the members who are not the account.
abbrev pub all_but : AccountId → List MutableMember → List MutableMember
all_but account = filter (λ m. not (account_of m == account))

-- The lobby that is left: it is gone if nobody is in it, and else it is stored, with just those
-- who are left, and reported.
abbrev pub LobbyLeft : LobbyService → MutableLobby → List MutableMember → Option LobbyState → Type 0
LobbyLeft t lobby [] told =
    (get lobby.id t.lobbies ≡ none) × (get lobby.code t.by_code ≡ none) × (told ≡ none)
LobbyLeft t lobby (m ∷ ms) told =
    (smaller : MutableLobby) × (get lobby.id t.lobbies ≡ some smaller)
    × (smaller.members ≡ m ∷ ms)
    × (smaller.settings ≡ lobby.settings)
    × (told ≡ some (snapshot smaller))

remove_left-LobbyLeft :
    (s : LobbyService) (lobby : MutableLobby) (account : AccountId) (left : List MutableMember)
    → LobbyLeft
        (remove_left s lobby account left).0
        lobby
        left
        (remove_left s lobby account left).1.state
unfolding remove_left store
remove_left-LobbyLeft s lobby account [] = (
  ground (arith, get-delete lobby.id lobby.id s.lobbies),
  ground (arith, get-delete lobby.code lobby.code s.by_code, same_text_refl lobby.code),
  refl,
)
remove_left-LobbyLeft s lobby account (m ∷ ms) =
    let smaller = record lobby {
      members = m ∷ ms;
      host_account_id = next_host lobby.host_account_id account (m ∷ ms);
    } in
    (
      smaller,
      ground (arith, get-set lobby.id lobby.id smaller s.lobbies, ==_refl lobby.id),
      refl,
      refl,
      refl,
    )

-- What is left of the registry when an account has gone.
pub record HasLeft (s t : LobbyService) (account : AccountId) (mutation : LobbyMutation)
    : Type 0 where
  pub lobby : MutableLobby
  pub was : require_lobby s account ≡ some lobby
  pub out : lobby_for t account ≡ none
  pub told : mutation.removed ≡ account ∷ []
  pub others_stay : (a : AccountId) → a ≢ account → get a t.membership ≡ get a s.membership
  pub other_lobbies : (id : LobbyId) → lobby.id ≢ id → get id t.lobbies ≡ get id s.lobbies
  pub members_left : LobbyLeft t lobby (all_but account lobby.members) mutation.state

remove_left-told :
    (s : LobbyService) (lobby : MutableLobby) (account : AccountId) (left : List MutableMember)
    → (remove_left s lobby account left).1.removed ≡ account ∷ []
unfolding remove_left
remove_left-told s lobby account [] = refl
remove_left-told s lobby account (m ∷ ms) = refl

lobby_for-outside :
    (t : LobbyService) (account : AccountId)
    → get account t.membership ≡ none
    → lobby_for t account ≡ none
unfolding lobby_for
lobby_for-outside t account h = rw (h, lobby_for) refl

remove-HasLeft :
    (s : LobbyService) (lobby : MutableLobby) (account : AccountId)
    → require_lobby s account ≡ some lobby
    → HasLeft s (remove s lobby account).0 account (remove s lobby account).1
unfolding remove without_member
remove-HasLeft s lobby account mine =
    let left = without_member account lobby.members in
    let seats = remove_left-membership s lobby account left in
    record {
      lobby = lobby;
      was = mine;
      out = lobby_for-outside _ account (
          ap (get account) seats
          ∙ (get-delete account account s.membership ∙ rw (==_refl account) refl));
      told = remove_left-told s lobby account left;
      others_stay = λ a other.
          ap (get a) seats
          ∙ (get-delete account a s.membership ∙ ground (arith, ==_iff account a, other));
      other_lobbies = λ id other. remove_left-others s lobby account left id other;
      members_left = remove_left-LobbyLeft s lobby account left;
    }

-- A successful `leave` takes the account out of the members of its lobby and out of the registry's
-- answers, and reports that account alone as removed. The other members stay as they were, in the
-- lobby that is stored and in the one that is reported, and where nobody is left the lobby is gone,
-- its id and its code with it. Everybody else's membership and every other lobby stay as they
-- were. `disconnect` does the same.
pub leave-HasLeft :
    (s : LobbyService) (account : AccountId) {t : LobbyService} {mutation : LobbyMutation}
    → leave s account ≡ (t, ok mutation)
    → HasLeft s t account mutation × (disconnect s account ≡ (t, some mutation))
unfolding leave disconnect
leave-HasLeft s account {t} {mutation} h = elim (Option-cases (require_lobby s account)) [
  | inl e ↦ absurd (ground arith)
  | inr (lobby, e) ↦
      let same : (remove s lobby account) ≡ (t, mutation) = ground (arith, e) in
      (
        subst (λ r. HasLeft s r.0 account r.1) same (remove-HasLeft s lobby account e),
        ground (arith, e, same),
      )
]

created_at :
    (s : LobbyService) (inputs : Inputs) (account : AccountId) (username name : Text)
    {t : LobbyService} {state : LobbyState}
    → create_named s inputs account username name ≡ (t, ok state)
    → (get account t.last_created_at ≡ some inputs.now)
      × (t.create_cooldown_ms ≡ s.create_cooldown_ms)
unfolding create_named register
created_at s inputs account username name h =
    (ground (arith, get-set account account inputs.now s.last_created_at), ground arith)

create-created_at :
    (s : LobbyService) (inputs : Inputs) (account : AccountId) (username raw : Text)
    {t : LobbyService} {state : LobbyState}
    → create s inputs account username raw ≡ (t, ok state)
    → (get account t.last_created_at ≡ some inputs.now)
      × (t.create_cooldown_ms ≡ s.create_cooldown_ms)
unfolding create
create-created_at s inputs account username raw {t} {state} h =
    let named : create_named s inputs account username (normalize_lobby_name raw) ≡ (t, ok state) =
      ground arith in
    created_at s inputs account username (normalize_lobby_name raw) named

-- What a second creation meets: the refusal says how many seconds to wait, no fewer and no more
-- than bring the end of the cooldown.
pub record CoolsDown (u : LobbyService) (since : ℕ) (later : Inputs) (account : AccountId)
    (username raw : Text) : Type 0 where
  pub early :
      later.now < since + u.create_cooldown_ms
      → (w : ℕ) × (create u later account username raw ≡ (u, fail rate_limited (wait_seconds w)))
        × (since + u.create_cooldown_ms ≤ later.now + 1000 * w)
        × (later.now + 1000 * w < since + u.create_cooldown_ms + 1000)
  pub late :
      since + u.create_cooldown_ms ≤ later.now
      → create u later account username raw
        ≡ create_named u later account username (normalize_lobby_name raw)

cools_down :
    (u : LobbyService) (since : ℕ) (later : Inputs) (account : AccountId) (username raw : Text)
    → get account u.membership ≡ none
    → get account u.last_created_at ≡ some since
    → CoolsDown u since later account username raw
unfolding create cooling seconds_left has
cools_down u since later account username raw outside last = record {
  early = λ h. (
    seconds_left u later.now (some since),
    ground (arith, outside, last),
    omega arith,
    omega arith,
  );
  late = λ h. ground (arith, outside, last);
}

-- After a creation, and any commands of anyone since in which no creation of the account succeeds,
-- the next one of the account, once it is out of every lobby, is refused for the whole cooldown,
-- with a number of seconds after which it is over and not a second more; from then on the cooldown
-- does not stop it.
pub create-CoolsDown :
    (s u : LobbyService) (inputs later : Inputs) (account : AccountId)
    (username raw username' raw' : Text) {t : LobbyService} {state : LobbyState}
    → create s inputs account username raw ≡ (t, ok state)
    → Meanwhile account t u
    → get account u.membership ≡ none
    → CoolsDown u inputs.now later account username' raw'
create-CoolsDown s u inputs later account username raw username' raw' h between outside =
    let (since, _) = create-created_at s inputs account username raw h in
    let (same, _) = Meanwhile-SameTime account between in
    cools_down u inputs.now later account username' raw' outside (same ∙ since)
