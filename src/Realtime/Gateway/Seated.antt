-- ===== src/Realtime/Gateway/Seated.antt =====
-- Whoever sits in a lobby is connected, whatever the sockets do.
use seg.Prelude.{ℕ, Option, none, some, ◌≡◌, In, get, number_key}
use seg.Text.{Text}
use seg.Lobby.State.{AccountId, SelectedFleet}
use seg.Lobby.Service.Create.{Inputs}
use seg.Lobby.Service.Invariant.Reach.{Step-Inv, resyncs, selects}
use seg.Lobby.Service.Promises.Seats.{resync_fleet-SeatsNobody, select_fleet-SeatsNobody}
use seg.Lobby.Outbox.{settled}
use seg.Lobby.Handler.{handle, fleet_found, fleet_read}
use seg.Lobby.Handler.Shape.{handle-Shape}
use seg.Realtime.Connections.{PlayerConnection}
use seg.Realtime.Gateway.{
  Gateway, Inbound, oversized, unreadable, lobby_message, of_match, other, accept, after,
  socket_closed, receive,
}
use seg.Realtime.Gateway.IsSeated.{IsSeated, close_transport-IsSeated}
use seg.Realtime.Gateway.Follows.{Shape-Follows, after-IsSeated}
use seg.Realtime.Gateway.Accepts.{accept-IsSeated}
use seg.Realtime.Gateway.Closes.{socket_closed-IsSeated}

module _ (to_upper_case to_lower_case : Text → Text) (id_of : Text → ℕ) where
  -- What the sockets and the answers that the lobby handler waits for do. A message comes only from
  -- a transport that is not closed, and the id that `randomUUID` would give a lobby is a new one.
  -- The fleet of a player who has gone meanwhile is dealt with as any other.
  pub data Step (g : Gateway) : Gateway → Type 0 where
    accepts : (connection : PlayerConnection) → Step g (accept connection g).0
    receives :
        (inputs : Inputs) (connection : PlayerConnection) (inbound : Inbound)
        → In connection g.listening
        → get inputs.new_id g.handler.service.lobbies ≡ none
        → Step g (receive to_upper_case to_lower_case id_of inputs connection inbound g).0
    finds_fleet :
        (connection : PlayerConnection) (answer : Option (Option SelectedFleet))
        → Step g (after g (fleet_found connection answer g.handler)).0
    reads_fleet :
        (account : AccountId) (fleet : Option SelectedFleet) (id : ℕ)
        → Step g (after g (fleet_read account fleet id g.handler)).0
    closes : (connection : PlayerConnection) → Step g (socket_closed connection g).0

  pub data Reach (g : Gateway) : Gateway → Type 0 where
    here : Reach g g
    next : {t u : Gateway} → Reach g t → Step t u → Reach g u

  receive-IsSeated :
      (g : Gateway) (inputs : Inputs) (connection : PlayerConnection) (inbound : Inbound)
      → IsSeated g
      → In connection g.listening
      → get inputs.new_id g.handler.service.lobbies ≡ none
      → IsSeated (receive to_upper_case to_lower_case id_of inputs connection inbound g).0
  unfolding receive
  receive-IsSeated g inputs connection oversized v i fresh = close_transport-IsSeated connection g v
  receive-IsSeated g inputs connection unreadable v i fresh =
      close_transport-IsSeated connection g v
  receive-IsSeated g inputs connection (lobby_message message) v i fresh =
      after-IsSeated g connection.account_id connection
        (handle to_upper_case to_lower_case id_of inputs connection message g.handler) v
        (v.current connection i)
        (Shape-Follows inputs.new_id g.handler connection _ fresh v.service
          (handle-Shape g.handler connection to_upper_case to_lower_case id_of inputs message))
  receive-IsSeated g inputs connection of_match v i fresh = v
  receive-IsSeated g inputs connection other v i fresh = v

  fleet_found-IsSeated :
      (g : Gateway) (connection : PlayerConnection) (answer : Option (Option SelectedFleet))
      → IsSeated g
      → IsSeated (after g (fleet_found connection answer g.handler)).0
  unfolding fleet_found settled
  fleet_found-IsSeated g connection none v = v
  fleet_found-IsSeated g connection (some none) v = v
  fleet_found-IsSeated g connection (some (some fleet)) v = record {
    service = Step-Inv v.service (selects connection.account_id (some fleet));
    shared = v.shared;
    keyed = v.keyed;
    current = v.current;
    seated = λ a e.
        select_fleet-SeatsNobody g.handler.service connection.account_id (some fleet) a
          (v.seated a e);
  }

  fleet_read-IsSeated :
      (g : Gateway) (account : AccountId) (fleet : Option SelectedFleet) (id : ℕ)
      → IsSeated g
      → IsSeated (after g (fleet_read account fleet id g.handler)).0
  unfolding fleet_read
  fleet_read-IsSeated g account fleet id v = record {
    service = Step-Inv v.service (resyncs account fleet id);
    shared = v.shared;
    keyed = v.keyed;
    current = v.current;
    seated = λ a e. resync_fleet-SeatsNobody g.handler.service account fleet id a (v.seated a e);
  }

  Step-IsSeated : {g t : Gateway} → IsSeated g → Step g t → IsSeated t
  Step-IsSeated {g} v (accepts connection) = accept-IsSeated connection g v
  Step-IsSeated {g} v (receives inputs connection inbound i fresh) =
      receive-IsSeated g inputs connection inbound v i fresh
  Step-IsSeated {g} v (finds_fleet connection answer) = fleet_found-IsSeated g connection answer v
  Step-IsSeated {g} v (reads_fleet account fleet id) = fleet_read-IsSeated g account fleet id v
  Step-IsSeated {g} v (closes connection) = socket_closed-IsSeated connection g v

  -- Whatever sockets come, speak and go, in any order, replaced ones included, and whatever fleets
  -- are read meanwhile: whoever sits in a lobby has a connection, each account has one transport at
  -- most that is listened to, the gateway and the registry of the handlers know the same
  -- connections, and the lobbies stay well formed. Ids of new lobbies are fresh.
  pub Reach-IsSeated : {g t : Gateway} → IsSeated g → Reach g t → IsSeated t
  Reach-IsSeated v here = v
  Reach-IsSeated v (next r st) = Step-IsSeated (Reach-IsSeated v r) st
