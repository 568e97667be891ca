-- ===== src/Realtime/Gateway/IsSeated.antt =====
-- When a gateway is well formed, and that closing a transport keeps it so.
use seg.Prelude.{
  true, none, some, List, [], ◌∷◌, ◌≡◌, inl, inr, In, Bool-cases, filter, get, number_key,
}
use seg.Lobby.State.{AccountId}
use seg.Lobby.Service.Invariant.{Inv}
use seg.Realtime.Connections.{PlayerConnection}
use seg.Realtime.Gateway.{Gateway, other_socket, close_transport}

pub record IsSeated (g : Gateway) : Type 0 where
  -- The lobby registry is well formed.
  pub service : Inv g.handler.service
  -- The gateway and the registry that it shares know the same connections, under their accounts.
  pub shared : (a : AccountId) → get a g.handler.connections ≡ get a g.live
  pub keyed : (a : AccountId) (c : PlayerConnection) → get a g.live ≡ some c → c.account_id ≡ a
  -- A transport that messages are taken from is the one of its account.
  pub current : (c : PlayerConnection) → In c g.listening → get c.account_id g.live ≡ some c
  -- Nobody sits in a lobby without a connection.
  pub seated : (a : AccountId) → get a g.live ≡ none → get a g.handler.service.membership ≡ none

pub In-filter_head :
    (connection c d : PlayerConnection) (listening : List PlayerConnection)
    → other_socket connection d ≡ true
    → (In c (filter (other_socket connection) listening)
        → In c listening × (other_socket connection c ≡ true))
    → In c (d ∷ filter (other_socket connection) listening)
    → In c (d ∷ listening) × (other_socket connection c ≡ true)
In-filter_head connection c d listening e rec (inl p) = (inl p, rw p e)
In-filter_head connection c d listening e rec (inr k) = (inr (rec k).0, (rec k).1)

pub In-filter :
    (connection c : PlayerConnection) (listening : List PlayerConnection)
    → In c (filter (other_socket connection) listening)
    → In c listening × (other_socket connection c ≡ true)
In-filter connection c [] i = absurd i
In-filter connection c (d ∷ listening) i = elim (Bool-cases (other_socket connection d)) [
  | inl e ↦ In-filter_head connection c d listening e (In-filter connection c listening) (rw e at i)
  | inr e ↦ let rest = In-filter connection c listening (rw e at i) in (inr rest.0, rest.1)
]

pub close_transport-IsSeated :
    (connection : PlayerConnection) (g : Gateway)
    → IsSeated g
    → IsSeated (close_transport connection g)
unfolding close_transport
close_transport-IsSeated connection g v = record {
  service = v.service;
  shared = v.shared;
  keyed = v.keyed;
  current = λ c i. v.current c (In-filter connection c g.listening i).0;
  seated = v.seated;
}
