-- ===== src/Realtime/Gateway/Closes.antt =====
-- A socket that closes.
use seg.Prelude.{
  true, none, some, ◌≡◌, inl, inr, sym, subst, ◌∙◌, arith, In, Bool-cases, filter, get, delete,
  get-delete, number_key, ==_iff, ◌==◌,
}
use seg.Lobby.State.{AccountId}
use seg.Lobby.Service.Leave
use seg.Lobby.Service.Invariant.Reach.{Step-Inv, disconnects}
use seg.Lobby.Service.Promises.Seats.{disconnect-SeatsNobody, disconnect-unseats}
use seg.Lobby.Handler.{detach}
use seg.Realtime.Connections.{
  PlayerConnection, ConnectionRegistry, remove, remove_by_id, is_current,
}
use seg.Realtime.Gateway.{Gateway, other_socket, close_transport, socket_closed}
use seg.Realtime.Gateway.IsSeated.{IsSeated, In-filter, close_transport-IsSeated}

pub get-remove :
    (connection : PlayerConnection) (a : AccountId) (known live : ConnectionRegistry)
    → ((b : AccountId) → get b known ≡ get b live)
    → get a (remove_by_id connection.account_id (remove connection known))
      ≡ get a (delete connection.account_id live)
unfolding remove remove_by_id
get-remove connection a known live same =
    get-delete connection.account_id a _
    ∙ (ground (
      arith,
      get-delete connection.account_id a known,
      get-delete connection.account_id a live,
      same a,
    )
        ∙ sym (get-delete connection.account_id a live))

pub current_close :
    (connection c : PlayerConnection) (g : Gateway)
    → IsSeated g
    → is_current connection g.live ≡ true
    → In c (filter (other_socket connection) g.listening)
    → get c.account_id (delete connection.account_id g.live) ≡ some c
unfolding is_current
current_close connection c g v now i =
    let (held, apart) = In-filter connection c g.listening i in
    get-delete connection.account_id c.account_id g.live
    ∙ (elim (Bool-cases (connection.account_id == c.account_id)) [
      | inr f ↦ rw f (v.current c held)
      | inl f ↦
          let p = (==_iff connection.account_id c.account_id).0 f in
          let q : get connection.account_id g.live ≡ some c =
            subst (λ x. get x g.live ≡ some c) (sym p) (v.current c held) in
          absurd (ground (arith, q, now, apart))
    ])

pub seated_close :
    (connection : PlayerConnection) (a : AccountId) (g : Gateway)
    → IsSeated g
    → get a (delete connection.account_id g.live) ≡ none
    → get a (Leave.disconnect g.handler.service connection.account_id).0.membership ≡ none
seated_close connection a g v e = elim (Bool-cases (connection.account_id == a)) [
  | inl same ↦
      let p : connection.account_id ≡ a = (==_iff connection.account_id a).0 same in
      subst
        (λ x. get x (Leave.disconnect g.handler.service connection.account_id).0.membership ≡ none)
        p
        (disconnect-unseats g.handler.service connection.account_id (λ id f.
          let (lobby, there, rest) = v.service.seated connection.account_id id f in (lobby, there)))
  | inr apart ↦
      disconnect-SeatsNobody g.handler.service connection.account_id a
        (v.seated a (ground (arith, get-delete connection.account_id a g.live, e, apart)))
]

pub socket_closed-IsSeated :
    (connection : PlayerConnection) (g : Gateway)
    → IsSeated g
    → IsSeated (socket_closed connection g).0
unfolding socket_closed detach close_transport
socket_closed-IsSeated connection g v = elim (Bool-cases (is_current connection g.live)) [
  | inr e ↦ rw (e, socket_closed) (close_transport-IsSeated connection g v)
  | inl e ↦
      rw (e, socket_closed)
        (record {
          service = Step-Inv v.service (disconnects connection.account_id);
          shared = λ a. get-remove connection a g.handler.connections g.live v.shared;
          keyed =
              λ a c f. v.keyed a c (ground (arith, get-delete connection.account_id a g.live, f));
          current = λ c i. current_close connection c g v e i;
          seated = λ a f. seated_close connection a g v f;
        })
]
