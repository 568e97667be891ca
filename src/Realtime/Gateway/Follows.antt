-- ===== src/Realtime/Gateway/Follows.antt =====
-- What a message does to the seats, and so to the gateway.
use seg.Prelude.{ℕ, none, some, ◌≡◌, ◌≢◌, refl, sym, subst, ap, ◌∙◌, arith, get, number_key}
use seg.Lobby.State.{AccountId, LobbyState}
use seg.Lobby.Service.Registry.{LobbyService, LobbyResult}
use seg.Lobby.Service.Invariant.{Inv}
use seg.Lobby.Service.Invariant.Reach.{Step-Inv}
use seg.Lobby.Service.Promises.Seats.{SeatsOnly}
use seg.Lobby.Wire.{LobbyOp}
use seg.Lobby.Outbox.{LobbyHandler, Outcome, serving, settled, entering}
use seg.Lobby.Handler.Shape.{Shape, refused, settles, enters, exits, kicked_by, quiet}
use seg.Realtime.Connections.{PlayerConnection, ConnectionRegistry}
use seg.Realtime.Gateway.{Gateway, after}
use seg.Realtime.Gateway.IsSeated.{IsSeated}

pub unlike :
    (a b : AccountId) (live : ConnectionRegistry) (c : PlayerConnection)
    → get a live ≡ none
    → get b live ≡ some c
    → a ≢ b
unlike a b live c e here p = ground (arith, subst (λ x. get x live ≡ none) p e)

abbrev pub Follows : AccountId → LobbyHandler → LobbyHandler → Type 0
Follows account h t =
    (t.connections ≡ h.connections) × Inv t.service × SeatsOnly account h.service t.service

pub stays-Follows : (account : AccountId) (h : LobbyHandler) → Inv h.service → Follows account h h
stays-Follows account h v = (refl, v, λ a other e. e)

pub settled-state :
    (h : LobbyHandler) (c : PlayerConnection) (op : LobbyOp)
    (r : LobbyService × LobbyResult LobbyState)
    → (settled h c op r).0 ≡ serving h r.0
unfolding settled
settled-state h c op (s, result) = refl

pub entering-state :
    (h : LobbyHandler) (c : PlayerConnection) (op : LobbyOp)
    (r : LobbyService × LobbyResult LobbyState)
    → (entering h c op r).0 ≡ serving h r.0
unfolding entering
entering-state h c op (s, result) = refl

pub Shape-Follows :
    (new_id : ℕ) (h : LobbyHandler) (c : PlayerConnection) (out : Outcome)
    → get new_id h.service.lobbies ≡ none
    → Inv h.service
    → Shape new_id h c out
    → Follows c.account_id h out.0
Shape-Follows new_id h c out fresh v (refused op code message e) =
    subst (Follows c.account_id h) (sym (ap (λ o. o.0) e)) (stays-Follows c.account_id h v)
Shape-Follows new_id h c out fresh v (settles op r atomic seats st e) =
    subst (Follows c.account_id h) (sym (ap (λ o. o.0) e ∙ settled-state h c op r))
      (refl, Step-Inv v st, seats)
Shape-Follows new_id h c out fresh v (enters op r atomic seats st e) =
    subst (Follows c.account_id h) (sym (ap (λ o. o.0) e ∙ entering-state h c op r))
      (refl, Step-Inv v (st fresh), seats)
Shape-Follows new_id h c out fresh v (exits r atomic seats st e) =
    subst (Follows c.account_id h) (sym (ap (λ o. o.0) e)) (refl, Step-Inv v st, λ a other. seats a)
Shape-Follows new_id h c out fresh v (kicked_by target r atomic seats st e) =
    subst (Follows c.account_id h) (sym (ap (λ o. o.0) e)) (refl, Step-Inv v st, λ a other. seats a)
Shape-Follows new_id h c out fresh v (quiet events q e) =
    subst (Follows c.account_id h) (sym (ap (λ o. o.0) e)) (stays-Follows c.account_id h v)

-- The account of the connection, if it is connected, may have been seated, and no other.
pub after-IsSeated :
    (g : Gateway) (account : AccountId) (c : PlayerConnection) (out : Outcome)
    → IsSeated g
    → get account g.live ≡ some c
    → Follows account g.handler out.0
    → IsSeated (after g out).0
after-IsSeated g account c out v here (same, inv, seats) = record {
  service = inv;
  shared = λ a. ap (get a) same ∙ v.shared a;
  keyed = v.keyed;
  current = v.current;
  seated = λ a e. seats a (unlike a account g.live c e here) (v.seated a e);
}
