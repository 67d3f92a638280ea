-- ===== src/Publisher.antt =====
-- pkg/sfu/publisher.go: `Publisher`, the upstream connection of a peer; and `AddRouter` of
-- pkg/sfu/session.go, which `onTrack` calls. The callbacks that are registered with the connection are
-- operations of their own.
use choice.Base.{
  if◌then◌else◌, ◌==◌, nat_eq, string_eq, lookup, insert, ℕ, suc, String, inl, inr, Bool, true,
  false, Option, none, some, List, [], ◌∷◌,
}
use choice.Layer.{default}
use choice.Messages.{send_candidate, broadcast_data}
use choice.Receiver.{
  Reading, read_packet, RemoteTrack, new_layer_receiver, set_peer_connection, close_receiver,
}
use choice.Track.{new_track_receiver, add_layer}
use choice.Store.{Store, Env, Result, ok, err, Publisher, close_pc, update, note}
use choice.Router.{new_router, router_add_track, router_forward, close_tracks, close_router}

unfoldable pub made_publisher : Store → ℕ → Result ℕ → Store × Result ℕ
unfolding new_router
made_publisher w p (err e) = (w, err e)
made_publisher w p (ok pc) =
    let peer = w.peers p in
    let a = w.next in
    let publisher : Publisher = record {
      peer = p;
      pc = pc;
      router = suc a;
      tracks = [];
      closed = false;
    } in
    (
      record w {
        publishers = update w.publishers a publisher;
        routers = update w.routers (suc a) (new_router peer.id peer.session);
        next = suc (suc a);
      },
      ok a,
    )

-- `newPublisher`: the address of the publisher; its router is at the next one.
unfoldable pub new_publisher : Env → Store → ℕ → Store × Result ℕ
unfolding made_publisher
new_publisher env w p = made_publisher w p (env.new_peer_connection w.next)

-- `Session.AddRouter`
unfoldable pub add_router : Store → ℕ → String → ℕ → Store
add_router w s peer_id r =
    let session = w.session_table s in
    record w {
      session_table =
          update w.session_table s (record session { routers = insert peer_id r session.routers });
    }

-- `TrackReceiver.AddLayer` with a new `LayerReceiver`, on the store.
unfoldable pub attach_layer : Store → ℕ → ℕ → RemoteTrack → String → Store
unfolding new_layer_receiver set_peer_connection add_layer
attach_layer w t pc remote layer_name =
    let a = w.next in
    let receiver = set_peer_connection (new_layer_receiver remote layer_name) pc in
    record w {
      receivers = update w.receivers a receiver;
      tracks = update w.tracks t (add_layer (w.tracks t) layer_name a remote.ssrc);
      next = suc a;
    }

-- The branch of `onTrack` for a track id that is not in the publisher's map.
unfoldable pub on_new_track : Env → Store → ℕ → RemoteTrack → String → Store
unfolding attach_layer new_track_receiver add_router
on_new_track env w p remote layer_name =
    let pub' = w.publishers p in
    let t = w.next in
    let w₁ : Store = record w {
      tracks = update w.tracks t (new_track_receiver remote.id remote.stream_id remote.kind);
      publishers = update w.publishers p (record pub' { tracks = insert remote.id t pub'.tracks });
      next = suc t;
    } in
    let w₂ = router_add_track env (attach_layer w₁ t pub'.pc remote layer_name) pub'.router t in
    let peer = w₂.peers pub'.peer in add_router w₂ peer.session peer.id pub'.router

-- `onTrack`; the goroutine that it starts is `read_rtp`.
unfoldable pub on_track : Env → Store → ℕ → RemoteTrack → Store
unfolding on_new_track attach_layer
on_track env w p remote =
    let pub' = w.publishers p in
    let layer_name = if remote.rid == "" then default else remote.rid in
    if pub'.closed then w else elim (lookup remote.id pub'.tracks) [
      | some t ↦ attach_layer w t pub'.pc remote layer_name
      | none ↦ on_new_track env w p remote layer_name
    ]

-- `Publisher.Close`
unfoldable pub close_publisher : Env → Store → ℕ → Store × Option String
close_publisher env w p =
    let pub' = w.publishers p in
    if pub'.closed
    then (w, none)
    else (let w₁ : Store = record w {
      publishers = update w.publishers p (record pub' { closed = true });
    } in
        let w₂ = close_tracks w₁ pub'.tracks in
        (note (close_router w₂ pub'.router) (close_pc pub'.pc), env.close_pc_result pub'.pc))

-- `readRTP`, over what the calls of `ReadRTP` find, each with what the libraries answer then. The flag says
-- whether the loop has ended, with an error; then the receiver is closed.
unfoldable pub read_rtp : ℕ → ℕ → String → ℕ → Store → List (Env × Reading) → Store × Bool
unfolding read_packet close_receiver
read_rtp r receiver layer_name t w [] = (w, false)
read_rtp r receiver layer_name t w ((env, x) ∷ xs) = elim (read_packet (w.receivers receiver) x) [
  | inl e ↦ (
    record w { receivers = update w.receivers receiver (close_receiver (w.receivers receiver)) },
    true,
  )
  | inr packet ↦
      read_rtp r receiver layer_name t
        (router_forward env w r (w.tracks t).track_id packet layer_name) xs
]

-- The state of a connection, as far as the callbacks tell the states apart.
pub data ConnectionState : Type 0 where
  failed : ConnectionState
  closed_down : ConnectionState
  other_state : ConnectionState

-- The callback of `OnConnectionStateChange` in `newPublisher`.
unfoldable pub on_publisher_state : Env → Store → ℕ → ConnectionState → Store
on_publisher_state env w p failed = (close_publisher env w p).0
on_publisher_state env w p closed_down = (close_publisher env w p).0
on_publisher_state env w p other_state = w

-- The callback of `OnICECandidate` in `newPublisher`.
unfoldable pub on_publisher_candidate : Env → Store → ℕ → Option String → Store
on_publisher_candidate env w p candidate =
    (send_candidate env w (w.publishers p).peer candidate "publisher").0

-- The callback of `OnMessage` in `onDataChannel`.
unfoldable pub on_data_message : Env → Store → ℕ → List ℕ → Store
on_data_message env w p message =
    let peer = w.peers (w.publishers p).peer in broadcast_data env w peer.session peer.id message

unfoldable pub answered : Env → ℕ → Result String → Result String
answered env pc (err e) = err e
answered env pc (ok answer) = elim (env.set_local_description pc answer) [
  | some e ↦ err e
  | none ↦ ok answer
]

-- `Publisher.HandleOffer`
unfoldable pub handle_offer : Env → Store → ℕ → String → Result String
unfolding answered
handle_offer env w p offer =
    let pc = (w.publishers p).pc in
    elim (env.set_remote_description pc offer) [
      | some e ↦ err e
      | none ↦ answered env pc (env.create_answer pc)
    ]
