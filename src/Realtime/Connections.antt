-- ===== src/Realtime/Connections.antt =====
-- packages/server/src/realtime/connections.ts. A connection is an object that is compared by
-- identity: `socket` is a number of its own for each.
use seg.Prelude.{
  ℕ, Bool, false, none, some, List, [], ◌∷◌, ◌==◌, if◌then◌else◌, Map, get, set, delete, length,
  number_key,
}
use seg.Text.{Text}
use seg.Lobby.State.{AccountId}

pub record PlayerConnection : Type 0 where
  pub socket : ℕ
  pub account_id : AccountId
  pub username : Text

abbrev pub ConnectionRegistry : Type 0
ConnectionRegistry = Map AccountId PlayerConnection

abbrev pub size : ConnectionRegistry → ℕ
size by_account = length by_account

unfoldable pub add : PlayerConnection → ConnectionRegistry → ConnectionRegistry
add connection by_account = set connection.account_id connection by_account

-- `this.byAccount.get(connection.accountId) === connection`
unfoldable pub is_current : PlayerConnection → ConnectionRegistry → Bool
is_current connection by_account = elim (get connection.account_id by_account) [
  | none ↦ false
  | some current ↦ current.socket == connection.socket
]

unfoldable pub remove : PlayerConnection → ConnectionRegistry → ConnectionRegistry
remove connection by_account =
    if is_current connection by_account then delete connection.account_id by_account else by_account

unfoldable pub remove_by_id : AccountId → ConnectionRegistry → ConnectionRegistry
remove_by_id account by_account = delete account by_account

-- What `tell` sends: the message, to the socket of the account if it is connected.
unfoldable pub tell {ℓ} :
    {M : Type ℓ} → AccountId → M → ConnectionRegistry → List (PlayerConnection × M)
tell account message by_account = elim (get account by_account) [
  | none ↦ []
  | some connection ↦ (connection, message) ∷ []
]
