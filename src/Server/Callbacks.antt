-- ===== src/Server/Callbacks.antt =====
-- pkg/sfu/publisher.go, pkg/sfu/subscriber.go and pkg/sfu/session.go: the callbacks send nothing on a downtrack, and
-- leave the peers and the members of the sessions alone.
use choice.Base.{
  if◌then◌else◌, ◌/=◌, nat_eq, string_eq, Bool-cases, Option-cases, lookup, insert, ℕ, suc, String,
  refl, inl, inr, Option, none, some, List, [], ◌∷◌, arith,
}
use choice.Receiver.{RemoteTrack}
use choice.Track.{new_track_receiver}
use choice.Store.{Store, Env, data_message, close_conn, update, note}
use choice.Store.Rooms.{Quiet, Quiet-trans, Quiet-refl, either-Quiet, grows, note-Quiet, packet_to}
use choice.Forwarder.{request_initial_keyframe}
use choice.Messages.{send_candidate, send_channel_data, send_peer_data, data_each, broadcast_data}
use choice.Router.{router_add_track}
use choice.Publisher.{
  ConnectionState, failed, closed_down, other_state, attach_layer, on_new_track, on_track,
  on_publisher_state, on_publisher_candidate, on_data_message,
}
use choice.Peers.{on_subscriber_state, on_subscriber_candidate}
use choice.Peers.Closing.{close_publisher-Quiet, close_subscriber-Quiet}
use choice.Roster.{SameMembers, Quiet-SameMembers}
use choice.Roster.Changes.{add_router-SameMembers, SameMembers-trans}
use choice.Roster.Media.{ask_keyframe-Quiet, send_notification-Quiet}
use choice.Roster.Subscriptions.{router_add_track-Quiet}

pub hang_up-Quiet : (w : Store) (conn : ℕ) → Quiet w (note w (close_conn conn))
unfolding packet_to
hang_up-Quiet w conn = note-Quiet w (close_conn conn) (λ dt. refl)

pub request_initial_keyframe-Quiet : (w : Store) (dt : ℕ) → Quiet w (request_initial_keyframe w dt)
unfolding request_initial_keyframe
request_initial_keyframe-Quiet w dt =
    either-Quiet (w.down_tracks dt).closed (Quiet-refl w) (ask_keyframe-Quiet w _)

send_candidate-Quiet :
    (env : Env) (w : Store) (p : ℕ) (candidate : Option String) (target : String)
    → Quiet w (send_candidate env w p candidate target).0
unfolding send_candidate
send_candidate-Quiet env w p none target = Quiet-refl w
send_candidate-Quiet env w p (some c) target = send_notification-Quiet env w p "candidate" _

send_channel_data-Quiet :
    (env : Env) (w : Store) (s : ℕ) (message : List ℕ)
    → Quiet w (send_channel_data env w s message).0
unfolding send_channel_data packet_to
send_channel_data-Quiet env w s message =
    let sub = w.subscribers s in
    elim (Bool-cases sub.negotiation.closed) [
      | inl c ↦ rw c (Quiet-refl w)
      | inr o ↦ rw o (elim (Bool-cases (env.channel_open sub.data_channel)) [
        | inl c ↦ rw c (note-Quiet w (data_message sub.data_channel message) (λ dt. refl))
        | inr n ↦ rw n (Quiet-refl w)
      ])
    ]

send_peer_data-Quiet :
    (env : Env) (w : Store) (p : ℕ) (message : List ℕ) → Quiet w (send_peer_data env w p message).0
unfolding send_peer_data
send_peer_data-Quiet env w p message = elim (Bool-cases (w.peers p).closed) [
  | inl c ↦ rw c (Quiet-refl w)
  | inr o ↦ rw o (send_channel_data-Quiet env w (w.peers p).subscriber message)
]

data_each-Quiet :
    (env : Env) (w : Store) (sender : String) (message : List ℕ) (peers : List (String × ℕ))
    → Quiet w (data_each env w sender message peers)
unfolding data_each
data_each-Quiet env w sender message [] = Quiet-refl w
data_each-Quiet env w sender message ((id, p) ∷ peers) =
    let w₁ = if id /= sender then (send_peer_data env w p message).0 else w in
    let first : Quiet w w₁ =
      either-Quiet (id /= sender) (send_peer_data-Quiet env w p message) (Quiet-refl w) in
    Quiet-trans first (data_each-Quiet env w₁ sender message peers)

pub on_data_message-Quiet :
    (env : Env) (w : Store) (p : ℕ) (message : List ℕ) → Quiet w (on_data_message env w p message)
unfolding on_data_message broadcast_data
on_data_message-Quiet env w p message = data_each-Quiet env w _ message _

pub on_publisher_candidate-Quiet :
    (env : Env) (w : Store) (p : ℕ) (candidate : Option String)
    → Quiet w (on_publisher_candidate env w p candidate)
unfolding on_publisher_candidate
on_publisher_candidate-Quiet env w p candidate = send_candidate-Quiet env w _ candidate "publisher"

pub on_subscriber_candidate-Quiet :
    (env : Env) (w : Store) (s : ℕ) (candidate : Option String)
    → Quiet w (on_subscriber_candidate env w s candidate)
unfolding on_subscriber_candidate
on_subscriber_candidate-Quiet env w s candidate =
    send_candidate-Quiet env w _ candidate "subscriber"

pub on_publisher_state-Quiet :
    (env : Env) (w : Store) (p : ℕ) (state : ConnectionState)
    → Quiet w (on_publisher_state env w p state)
unfolding on_publisher_state
on_publisher_state-Quiet env w p failed = close_publisher-Quiet env w p
on_publisher_state-Quiet env w p closed_down = close_publisher-Quiet env w p
on_publisher_state-Quiet env w p other_state = Quiet-refl w

pub on_subscriber_state-Quiet :
    (env : Env) (w : Store) (s : ℕ) (state : ConnectionState)
    → Quiet w (on_subscriber_state env w s state)
unfolding on_subscriber_state
on_subscriber_state-Quiet env w s failed = close_subscriber-Quiet env w s
on_subscriber_state-Quiet env w s closed_down = close_subscriber-Quiet env w s
on_subscriber_state-Quiet env w s other_state = Quiet-refl w

attach_layer-Quiet :
    (w : Store) (t pc : ℕ) (remote : RemoteTrack) (layer_name : String)
    → Quiet w (attach_layer w t pc remote layer_name)
unfolding attach_layer
attach_layer-Quiet w t pc remote layer_name =
    grows refl refl refl (omega arith) (λ dt l. refl) refl refl

on_new_track-SameMembers :
    (env : Env) (w : Store) (p : ℕ) (remote : RemoteTrack) (layer_name : String)
    → SameMembers w (on_new_track env w p remote layer_name)
unfolding on_new_track
on_new_track-SameMembers env w p remote layer_name =
    let pub' = w.publishers p in
    let t = w.next in
    let w₁ : Store = record w {
      tracks = update w.tracks t (new_track_receiver remote.id remote.stream_id remote.kind);
      publishers = update w.publishers p (record pub' { tracks = insert remote.id t pub'.tracks });
      next = suc t;
    } in
    let w₂ = attach_layer w₁ t pub'.pc remote layer_name in
    let w₃ = router_add_track env w₂ pub'.router t in
    let h : Quiet w w₁ = grows refl refl refl (omega arith) (λ dt l. refl) refl refl in
    let peer = w₃.peers pub'.peer in
    SameMembers-trans
      (Quiet-SameMembers (
        Quiet-trans h (
          Quiet-trans (attach_layer-Quiet w₁ t pub'.pc remote layer_name)
            (router_add_track-Quiet env w₂ pub'.router t))))
      (add_router-SameMembers w₃ peer.session peer.id pub'.router)

SameMembers-refl : (w : Store) → SameMembers w w
SameMembers-refl w = Quiet-SameMembers (Quiet-refl w)

pub on_track-SameMembers :
    (env : Env) (w : Store) (p : ℕ) (remote : RemoteTrack) → SameMembers w (on_track env w p remote)
unfolding on_track
on_track-SameMembers env w p remote =
    let pub' = w.publishers p in
    elim (Bool-cases pub'.closed) [
      | inl c ↦ rw c (SameMembers-refl w)
      | inr o ↦ rw o (elim (Option-cases (lookup remote.id pub'.tracks)) [
        | inl n ↦ rw (n, on_track) (on_new_track-SameMembers env w p remote _)
        | inr (t, n) ↦
            rw (n, on_track) (Quiet-SameMembers (attach_layer-Quiet w t pub'.pc remote _))
      ])
    ]
