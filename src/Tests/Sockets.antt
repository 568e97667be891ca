-- ===== src/Tests/Sockets.antt =====
-- The lobby handler and the gateway at concrete inputs: ann makes a lobby, bob joins it by its code.
use seg.Prelude.{
  ℕ, true, none, [], ◌∷◌, ◌≡◌, refl, inl, arith, get, map, ◌⊎◌, All, In, ==_iff, number_key,
}
use seg.Text.{Text, text, ascii_upper, ascii_lower}
use seg.Lobby.Service.Registry.{start_service}
use seg.Lobby.Service.Create.{Inputs}
use seg.Lobby.Service.Create
use seg.Lobby.Service.Invariant.Commands.{start_service-Inv}
use seg.Lobby.Wire.{string, object, field, end, LobbyClientMessage, create, join, start}
use seg.Lobby.Outbox.{LobbyHandler}
use seg.Lobby.Handler.{handle, attach}
use seg.Lobby.Handler.Privacy.{IsPrivate, Keyed, handle-IsPrivate}
use seg.Lobby.Handler.Refusals.{IsRefusal, NoRejection, handle-refuses}
use seg.Realtime.Connections.{PlayerConnection, add}
use seg.Realtime.Gateway.{Gateway, lobby_message, accept, replace, receive, socket_closed}
use seg.Realtime.Gateway.IsSeated.{IsSeated}
use seg.Realtime.Gateway.Seated.{here, next, accepts, receives, closes, Reach-IsSeated}

abbrev upper : Text → Text
upper s = map ascii_upper s

abbrev lower : Text → Text
lower s = map ascii_lower s

abbrev no_id : Text → ℕ
no_id s = 99

abbrev inputs : Inputs
inputs = record { now = 1000; new_id = 7; code = λ attempt. text "BCDFGH" }

abbrev ann : PlayerConnection
ann = record { socket = 1; account_id = 1; username = text "ann" }

abbrev ann_again : PlayerConnection
ann_again = record { socket = 3; account_id = 1; username = text "ann" }

abbrev bob : PlayerConnection
bob = record { socket = 2; account_id = 2; username = text "bob" }

abbrev both : LobbyHandler
both = record {
  service = (Create.create (start_service none) inputs 1 (text "ann") (text "Deep Six")).0;
  connections = (1, ann) ∷ (2, bob) ∷ [];
  reads_fleets = true;
  starts_matches = true;
}

both-Keyed : Keyed both.connections
unfolding get
both-Keyed account connection e = ground (arith, ==_iff 1 account, ==_iff 2 account)

abbrev by_code : LobbyClientMessage
by_code = join (
    object (
      field (text "by") (string (text "code")) (field (text "code") (string (text "bcd-fgh")) end)))

handle-IsPrivate_example :
    All
      (IsPrivate (handle upper lower no_id inputs bob by_code both).0.service)
      (handle upper lower no_id inputs bob by_code both).1
handle-IsPrivate_example = handle-IsPrivate both both-Keyed bob upper lower no_id inputs by_code

handle-refuses_example :
    IsRefusal both bob (handle upper lower no_id inputs bob start both)
    ⊎ All NoRejection (handle upper lower no_id inputs bob start both).1
handle-refuses_example = handle-refuses both bob upper lower no_id inputs start

abbrev quiet_sea : Gateway
quiet_sea = record {
  handler = record {
    service = start_service none;
    connections = [];
    reads_fleets = true;
    starts_matches = true;
  };
  live = [];
  listening = [];
}

quiet_sea-IsSeated : IsSeated quiet_sea
unfolding get start_service
quiet_sea-IsSeated = record {
  service = start_service-Inv none;
  shared = λ a. refl;
  keyed = λ a c e. ground arith;
  current = λ c i. absurd i;
  seated = λ a e. refl;
}

abbrev come : Gateway
come = (accept ann quiet_sea).0

abbrev hosting : Gateway
hosting =
    (receive upper lower no_id inputs ann (lobby_message (create (string (text "Deep Six"))))
      come).0

abbrev replaced : Gateway
replaced = (accept ann_again hosting).0

no_lobby : get 7 come.handler.service.lobbies ≡ none
unfolding accept replace attach add get start_service
no_lobby = refl

listened : In ann come.listening
unfolding accept replace attach get
listened = inl refl

Reach-IsSeated_example : IsSeated (socket_closed ann replaced).0
Reach-IsSeated_example = Reach-IsSeated upper lower no_id quiet_sea-IsSeated (
    next
      (next
        (next (next here (accepts ann)) (
          receives inputs ann (lobby_message (create (string (text "Deep Six")))) listened
            no_lobby))
        (accepts ann_again))
      (closes ann))
