-- ===== src/Lobby/Service/Leave.antt =====
-- `leave`, `kick`, `disconnect` and the `remove` behind them.
use seg.Prelude.{
  Bool, not, Option, none, some, List, [], ◌∷◌, ◌==◌, leb, ltb, if◌then◌else◌, filter, any, sort_by,
  delete, number_key, text_key,
}
use seg.Lobby.Settings.{spectator, same_position}
use seg.Lobby.State.{AccountId}
use seg.Lobby.Service.Registry.{
  LobbyService, LobbyResult, ok, fail, says, not_in_lobby, not_host, cannot_kick_host, not_found,
  LobbyMutation, MutableLobby, MutableMember, account_of, is_account, snapshot, store,
  require_lobby,
}

-- The comparator of host migration, as "not after".
unfoldable pub inherits_first : MutableMember → MutableMember → Bool
inherits_first a b =
    let a_spec = if same_position a.position spectator then 1 else 0 in
    let b_spec = if same_position b.position spectator then 1 else 0 in
    if not (a_spec == b_spec) then ltb a_spec b_spec else leb a.joined_at b.joined_at

-- `candidates[0]`, and the host who stays where there is none.
unfoldable pub heir : AccountId → List MutableMember → AccountId
heir host [] = host
heir host (m ∷ ms) = account_of m

unfoldable pub next_host : AccountId → AccountId → List MutableMember → AccountId
next_host host account members =
    if host == account then heir host (sort_by inherits_first members) else host

unfoldable pub without_member : AccountId → List MutableMember → List MutableMember
without_member account members = filter (λ m. not (is_account account m)) members

-- The end of `remove`, on the members who are left.
unfoldable pub remove_left :
    LobbyService → MutableLobby → AccountId → List MutableMember → LobbyService × LobbyMutation
remove_left s lobby account [] = (
  record s {
    lobbies = delete lobby.id s.lobbies;
    by_code = delete lobby.code s.by_code;
    membership = delete account s.membership;
  },
  record { state = none; removed = account ∷ [] },
)
remove_left s lobby account (m ∷ ms) =
    let smaller = record lobby {
      members = m ∷ ms;
      host_account_id = next_host lobby.host_account_id account (m ∷ ms);
    } in
    (
      record (store s smaller) { membership = delete account s.membership },
      record { state = some (snapshot smaller); removed = account ∷ [] },
    )

unfoldable pub remove : LobbyService → MutableLobby → AccountId → LobbyService × LobbyMutation
remove s lobby account = remove_left s lobby account (without_member account lobby.members)

abbrev pub succeed : LobbyService × LobbyMutation → LobbyService × LobbyResult LobbyMutation
succeed (s, mutation) = (s, ok mutation)

unfoldable pub leave : LobbyService → AccountId → LobbyService × LobbyResult LobbyMutation
leave s account = elim (require_lobby s account) [
  | none ↦ (s, fail not_in_lobby (says "You are not in a lobby."))
  | some lobby ↦ succeed (remove s lobby account)
]

unfoldable pub kick_from :
    LobbyService → MutableLobby → AccountId → AccountId → LobbyService × LobbyResult LobbyMutation
kick_from s lobby host target =
    if not (lobby.host_account_id == host)
    then (s, fail not_host (says "Only the host can kick players."))
    else if target == host
    then (s, fail cannot_kick_host (says "The host cannot kick themselves. Leave instead."))
    else if not (any (is_account target) lobby.members)
    then (s, fail not_found (says "That player is not in this lobby."))
    else succeed (remove s lobby target)

unfoldable pub kick :
    LobbyService → AccountId → AccountId → LobbyService × LobbyResult LobbyMutation
kick s host target = elim (require_lobby s host) [
  | none ↦ (s, fail not_in_lobby (says "You are not in a lobby."))
  | some lobby ↦ kick_from s lobby host target
]

-- `null` is `none`.
unfoldable pub disconnect : LobbyService → AccountId → LobbyService × Option LobbyMutation
disconnect s account = elim (require_lobby s account) [
  | none ↦ (s, none)
  | some lobby ↦ ((remove s lobby account).0, some (remove s lobby account).1)
]
