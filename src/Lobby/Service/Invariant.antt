-- ===== src/Lobby/Service/Invariant.antt =====
-- The three maps of the registry agree, and every lobby in it is well formed.
pub mod Changes
pub mod Arrivals
pub mod Departures
pub mod Commands
pub mod Reach
use seg.Prelude.{ℕ, Bool, true, Option, some, List, ◌≡◌, get, number_key, text_key}
use seg.Text.{Text}
use seg.Lobby.State.{AccountId, LobbyId}
use seg.Lobby.Service.Registry.{LobbyService, MutableLobby}
use seg.Lobby.Service.Valid.{IsValid, has_account}

-- A lobby stands under its own id, its code leads to it, and so does the membership of everyone
-- who sits in it.
pub record IsHome (s : LobbyService) (id : LobbyId) (lobby : MutableLobby) : Type 0 where
  pub own_id : lobby.id ≡ id
  pub own_code : get lobby.code s.by_code ≡ some id
  pub valid : IsValid lobby
  pub members : (a : AccountId) → has_account a lobby.members ≡ true → get a s.membership ≡ some id

pub record Inv (s : LobbyService) : Type 0 where
  pub seated :
      (a : AccountId) (id : LobbyId)
      → get a s.membership ≡ some id
      → (lobby : MutableLobby) × (get id s.lobbies ≡ some lobby)
        × (has_account a lobby.members ≡ true)
  pub home :
      (id : LobbyId) (lobby : MutableLobby) → get id s.lobbies ≡ some lobby → IsHome s id lobby
  pub coded :
      (code : Text) (id : LobbyId)
      → get code s.by_code ≡ some id
      → (lobby : MutableLobby) × (get id s.lobbies ≡ some lobby) × (lobby.code ≡ code)
