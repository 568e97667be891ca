-- ===== src/Realtime/Gateway/Accepts.antt =====
-- A connection that is accepted.
use seg.Prelude.{
  false, Option, none, some, ◌∷◌, ◌≡◌, ◌≢◌, inl, inr, refl, sym, subst, ◌∙◌, arith, In, get, set,
  get-set, number_key, ==_iff,
}
use seg.Lobby.State.{AccountId}
use seg.Lobby.Handler.{attach}
use seg.Realtime.Connections.{PlayerConnection, add}
use seg.Realtime.Gateway.{Gateway, other_socket, close_transport, replace, accept}
use seg.Realtime.Gateway.IsSeated.{IsSeated, In-filter, close_transport-IsSeated}

pub closed_same : (c : PlayerConnection) → other_socket c c ≡ false
closed_same c = ground (arith, ==_iff c.socket c.socket)

-- After the one before is closed, no other transport of the account is listened to.
pub replace-IsSeated :
    (existing : Option PlayerConnection) (g : Gateway)
    → IsSeated g
    → IsSeated (replace existing g).0
unfolding replace
replace-IsSeated none g v = v
replace-IsSeated (some existing) g v = close_transport-IsSeated existing g v

pub replace_live :
    (existing : Option PlayerConnection) (g : Gateway) → (replace existing g).0.live ≡ g.live
unfolding replace close_transport
replace_live none g = refl
replace_live (some existing) g = refl

pub replace_apart :
    (a : AccountId) (c : PlayerConnection) (existing : Option PlayerConnection) (g : Gateway)
    → IsSeated g
    → get a g.live ≡ existing
    → In c (replace existing g).0.listening
    → c.account_id ≢ a
unfolding replace close_transport
replace_apart a c none g v e i p =
    ground (arith, v.current c i, subst (λ x. get x g.live ≡ none) (sym p) e)
replace_apart a c (some existing) g v e i p =
    let (held, apart) = In-filter existing c g.listening i in
    let same : some c ≡ some existing =
      sym (v.current c held) ∙ subst (λ x. get x g.live ≡ some existing) (sym p) e in
    ground (arith, same, apart, closed_same c)

pub current_accept :
    (connection c : PlayerConnection) (g : Gateway)
    → IsSeated g
    → In c (connection ∷ (replace (get connection.account_id g.live) g).0.listening)
    → get c.account_id
        (set connection.account_id connection (replace (get connection.account_id g.live) g).0.live)
      ≡ some c
current_accept connection c g v (inl p) = rw p (
    get-set connection.account_id connection.account_id connection _
    ∙ ground (arith, ==_iff connection.account_id connection.account_id))
current_accept connection c g v (inr i) =
    let existing = get connection.account_id g.live in
    let apart = replace_apart connection.account_id c existing g v refl i in
    get-set connection.account_id c.account_id connection (replace existing g).0.live
    ∙ ground (
      arith,
      ==_iff connection.account_id c.account_id,
      apart,
      (replace-IsSeated existing g v).current c i,
    )

pub accept-IsSeated :
    (connection : PlayerConnection) (g : Gateway) → IsSeated g → IsSeated (accept connection g).0
unfolding accept attach add
accept-IsSeated connection g v =
    let existing = get connection.account_id g.live in
    let closed = replace-IsSeated existing g v in
    let live = (replace existing g).0.live in
    let known = (replace existing g).0.handler.connections in
    record {
      service = closed.service;
      shared = λ a.
          get-set connection.account_id a connection (set connection.account_id connection known)
          ∙ ground (
            arith,
            get-set connection.account_id a connection known,
            get-set connection.account_id a connection live,
            closed.shared a,
          );
      keyed = λ a c e. ground (
        arith,
        get-set connection.account_id a connection live,
        closed.keyed a c,
        ==_iff connection.account_id a,
        e,
      );
      current = λ c i. current_accept connection c g v i;
      seated = λ a e.
          closed.seated a (ground (arith, get-set connection.account_id a connection live, e));
    }
