-- ===== src/Peers.antt =====
-- pkg/sfu/peer.go: `Peer`, and `newSubscriber`, `Subscribe` and `Close` of pkg/sfu/subscriber.go. The address 0
-- stands for nil; no object stands there.
pub mod Closing
pub mod Leaving
pub mod Joining
use choice.Base.{
  if◌then◌else◌, ◌==◌, nat_eq, string_eq, include, ℕ, suc, String, true, false, Option, none, some,
  List, [], ◌∷◌, map,
}
use choice.Negotiation.{new_negotiation, close_negotiation}
use choice.Store.{
  Store, Env, Result, ok, err, Peer, Subscriber, Effect, close_pc, close_conn, update, note,
}
use choice.Forwarder.{close_each}
use choice.Router.{router_subscribe, unsubscribe}
use choice.Messages.{send_candidate}
use choice.Subscriber.{negotiate_subscriber, handle_answer, set_layer, get_layers}
use choice.Publisher.{
  ConnectionState, failed, closed_down, other_state, new_publisher, handle_offer, close_publisher,
}

unfoldable pub with_channel : Store → ℕ → ℕ → Result ℕ → Store × Result ℕ
unfolding new_negotiation
with_channel w p pc (err e) = (w, err e)
with_channel w p pc (ok dc) =
    let a = w.next in
    let subscriber : Subscriber = record {
      peer = p;
      pc = pc;
      down_tracks = [];
      routers = [];
      data_channel = dc;
      negotiation = new_negotiation;
    } in
    (record w { subscribers = update w.subscribers a subscriber; next = suc a }, ok a)

unfoldable pub made_subscriber : Env → Store → ℕ → Result ℕ → Store × Result ℕ
unfolding with_channel
made_subscriber env w p (err e) = (w, err e)
made_subscriber env w p (ok pc) = with_channel w p pc (env.create_data_channel pc)

-- `newSubscriber`: the address of the subscriber.
unfoldable pub new_subscriber : Env → Store → ℕ → Store × Result ℕ
unfolding made_subscriber
new_subscriber env w p = made_subscriber env w p (env.new_peer_connection w.next)

unfoldable pub then_negotiate : Env → ℕ → Store × Option String → Store × Option String
then_negotiate env s (w, some e) = (w, some e)
then_negotiate env s (w, none) = negotiate_subscriber env w s

-- `Subscriber.Subscribe`
unfoldable pub subscribe : Env → Store → ℕ → ℕ → Store × Option String
unfolding then_negotiate
subscribe env w s r =
    let sub = w.subscribers s in
    let w₁ : Store = record w {
      subscribers = update w.subscribers s (record sub { routers = include r sub.routers });
    } in
    then_negotiate env s (router_subscribe env w₁ r s)

unfoldable pub unsubscribe_each : Store → ℕ → List ℕ → Store
unsubscribe_each w s [] = w
unsubscribe_each w s (r ∷ rs) = unsubscribe_each (unsubscribe w r s) s rs

-- The values of a map.
abbrev pub values : List (String × ℕ) → List ℕ
values m = map (λ e. e.1) m

-- `Subscriber.Close`
unfoldable pub close_subscriber : Env → Store → ℕ → Store × Option String
unfolding close_negotiation
close_subscriber env w s =
    let sub = w.subscribers s in
    if sub.negotiation.closed
    then (w, none)
    else (let sub' : Subscriber = record sub {
      routers = [];
      negotiation = close_negotiation sub.negotiation;
    } in
        let w₁ : Store = record w { subscribers = update w.subscribers s sub' } in
        let w₂ = close_each (unsubscribe_each w₁ s sub.routers) (values sub.down_tracks) in
        (note w₂ (close_pc sub.pc), env.close_pc_result sub.pc))

unfoldable pub with_subscriber : Env → ℕ → ℕ → Store × Result ℕ → Store × Result ℕ
with_subscriber env p publisher (w, err e) = ((close_publisher env w publisher).0, err e)
with_subscriber env p publisher (w, ok s) =
    (record w { peers = update w.peers p (record (w.peers p) { subscriber = s }) }, ok p)

unfoldable pub with_publisher : Env → ℕ → Store × Result ℕ → Store × Result ℕ
unfolding with_subscriber
with_publisher env p (w, err e) = (w, err e)
with_publisher env p (w, ok publisher) =
    let w₁ : Store = record w {
      peers = update w.peers p (record (w.peers p) { publisher = publisher });
    } in
    with_subscriber env p publisher (new_subscriber env w₁ p)

-- `newPeer`: the address of the peer.
unfoldable pub new_peer : Env → Store → String → ℕ → ℕ → Store × Result ℕ
unfolding with_publisher
new_peer env w id session conn =
    let p = w.next in
    let peer : Peer = record {
      id = id;
      session = session;
      publisher = 0;
      subscriber = 0;
      conn = conn;
      closed = false;
    } in
    let w₁ : Store = record w { peers = update w.peers p peer; next = suc p } in
    with_publisher env p (new_publisher env w₁ p)

-- The callback of `OnConnectionStateChange` in `newSubscriber`.
unfoldable pub on_subscriber_state : Env → Store → ℕ → ConnectionState → Store
on_subscriber_state env w s failed = (close_subscriber env w s).0
on_subscriber_state env w s closed_down = (close_subscriber env w s).0
on_subscriber_state env w s other_state = w

-- The callback of `OnICECandidate` in `newSubscriber`.
unfoldable pub on_subscriber_candidate : Env → Store → ℕ → Option String → Store
on_subscriber_candidate env w s candidate =
    (send_candidate env w (w.subscribers s).peer candidate "subscriber").0

-- `HandleOffer`, `HandleAnswer`, `Subscribe`, `SetLayer` and `GetLayer` of a peer are those of its publisher and
-- of its subscriber.
abbrev pub peer_handle_offer : Env → Store → ℕ → String → Result String
peer_handle_offer env w p offer = handle_offer env w (w.peers p).publisher offer

abbrev pub peer_handle_answer : Env → Store → ℕ → String → Store × Option String
peer_handle_answer env w p answer = handle_answer env w (w.peers p).subscriber answer

abbrev pub peer_subscribe : Env → Store → ℕ → ℕ → Store × Option String
peer_subscribe env w p r = subscribe env w (w.peers p).subscriber r

abbrev pub peer_set_layer : Store → ℕ → String → String → Store
peer_set_layer w p track_id layer = set_layer w (w.peers p).subscriber track_id layer

abbrev pub peer_get_layer : Store → ℕ → String → Option (String × String)
peer_get_layer w p track_id = get_layers w (w.peers p).subscriber track_id

abbrev pub subscriber_add_ice_candidate : Env → Store → ℕ → String → Option String
subscriber_add_ice_candidate env w s candidate =
    env.add_ice_candidate (w.subscribers s).pc candidate

abbrev pub publisher_add_ice_candidate : Env → Store → ℕ → String → Option String
publisher_add_ice_candidate env w p candidate = env.add_ice_candidate (w.publishers p).pc candidate

-- `AddICECandidate`
unfoldable pub add_ice_candidate : Env → Store → ℕ → String → String → Option String
add_ice_candidate env w p candidate target =
    let peer = w.peers p in
    if target == "subscriber"
    then subscriber_add_ice_candidate env w peer.subscriber candidate
    else publisher_add_ice_candidate env w peer.publisher candidate

-- `Peer.Close`, for a peer that `newPeer` has returned; errors are logged and passed over.
unfoldable pub close_peer : Env → Store → ℕ → Store
close_peer env w p =
    let peer = w.peers p in
    if peer.closed
    then w
    else (let w₁ : Store = record w { peers = update w.peers p (record peer { closed = true }) } in
        let w₂ = (close_publisher env w₁ peer.publisher).0 in
        note (close_subscriber env w₂ peer.subscriber).0 (close_conn peer.conn))
