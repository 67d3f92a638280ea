-- ===== src/Roster/Media.antt =====
-- pkg/sfu/forwarder.go, pkg/sfu/router.go and pkg/sfu/subscriber.go: media, layers, subscriptions and negotiations
-- leave the peers and the sessions alone.
use choice.Base.{
  if◌then◌else◌, ◌/=◌, nat_eq, string_eq, beq→eq, Bool-cases, Option-cases, lookup, ℕ, String, refl,
  ap, inl, inr, Option, none, some, List, [], ◌∷◌, arith,
}
use choice.Receiver.{send_pli}
use choice.DownTrack.{set_down_track_target}
use choice.Track.{TrackReceiver, get_best_layer}
use choice.Store.{Store, Env, Result, ok, err, pli, notify, update}
use choice.Store.Rooms.{
  Quiet, Quiet-trans, Quiet-refl, either-Quiet, keeps, grows, note-Quiet, packet_to,
}
use choice.Forwarder.{ask_keyframe, on_layer_switch, set_target}
use choice.Messages.{send_notification, notify_each, broadcast}
use choice.Subscriber.{placed, create_down_track, registered, subscriber_add_down_track}

pub ask_keyframe-Quiet : (w : Store) (o : Option ℕ) → Quiet w (ask_keyframe w o)
unfolding ask_keyframe packet_to
ask_keyframe-Quiet w none = Quiet-refl w
ask_keyframe-Quiet w (some r) = elim (Option-cases (send_pli (w.receivers r))) [
  | inl h ↦ rw (h, ask_keyframe) (Quiet-refl w)
  | inr ((pc, ssrc), h) ↦ rw (h, ask_keyframe) (note-Quiet w (pli pc ssrc) (λ dt. refl))
]

pub on_layer_switch-Quiet :
    (w : Store) (t : TrackReceiver) (o : Option String) → Quiet w (on_layer_switch w t o)
unfolding on_layer_switch
on_layer_switch-Quiet w t none = Quiet-refl w
on_layer_switch-Quiet w t (some layer) = ask_keyframe-Quiet w _

target_set-Quiet :
    (w : Store) (dt : ℕ) (layer : String)
    → let d = w.down_tracks dt in
      let d' = (set_down_track_target d (w.tracks d.track_receiver) layer).0 in
      Quiet w (record w { down_tracks = update w.down_tracks dt d' })
unfolding set_down_track_target
target_set-Quiet w dt layer = record {
  session_table = refl;
  sessions = refl;
  peers = refl;
  next = omega arith;
  silent = (
    λ k l. (
      ground (arith, beq→eq dt k, ap (λ x. (w.down_tracks x).sequencer) {x = dt} {y = k}),
      ground (arith, beq→eq dt k, ap (λ x. (w.down_tracks x).sender_ssrc) {x = dt} {y = k}),
      refl,
    ),
    λ h. h,
  );
}

pub set_target-Quiet : (w : Store) (dt : ℕ) (layer : String) → Quiet w (set_target w dt layer)
unfolding set_target
set_target-Quiet w dt layer =
    let d = w.down_tracks dt in
    let (d', asked) = set_down_track_target d (w.tracks d.track_receiver) layer in
    let w₁ : Store = record w { down_tracks = update w.down_tracks dt d' } in
    Quiet-trans (target_set-Quiet w dt layer) (ask_keyframe-Quiet w₁ asked)

-- A notification changes the log alone.
pub send_notification-Quiet :
    (env : Env) (w : Store) (p : ℕ) (method : String) (params : List (String × String))
    → Quiet w (send_notification env w p method params).0
unfolding send_notification packet_to
send_notification-Quiet env w p method params = elim (Bool-cases (w.peers p).closed) [
  | inl h ↦ rw h (Quiet-refl w)
  | inr h ↦ rw h (
      note-Quiet w (notify (w.peers p).conn (record { method = method; params = params }))
        (λ dt. refl))
]

notify_one-Quiet :
    (env : Env) (w : Store) (ex method : String) (params : List (String × String)) (id : String)
    (p : ℕ)
    → Quiet w (if id /= ex then (send_notification env w p method params).0 else w)
notify_one-Quiet env w ex method params id p =
    either-Quiet (id /= ex) (send_notification-Quiet env w p method params) (Quiet-refl w)

notify_each-Quiet :
    (env : Env) (w : Store) (ex method : String) (params : List (String × String))
    (peers : List (String × ℕ))
    → Quiet w (notify_each env w ex method params peers)
unfolding notify_each
notify_each-Quiet env w ex method params [] = Quiet-refl w
notify_each-Quiet env w ex method params ((id, p) ∷ peers) =
    let w₁ = if id /= ex then (send_notification env w p method params).0 else w in
    Quiet-trans (notify_one-Quiet env w ex method params id p)
      (notify_each-Quiet env w₁ ex method params peers)

pub broadcast-Quiet :
    (env : Env) (w : Store) (s : ℕ) (ex method : String) (params : List (String × String))
    → Quiet w (broadcast env w s ex method params)
unfolding broadcast
broadcast-Quiet env w s ex method params = notify_each-Quiet env w ex method params _

placed-Quiet :
    (w : Store) (s t : ℕ) (codec : String) (r : Result ℕ) → Quiet w (placed w s t codec r).0
unfolding placed
placed-Quiet w s t codec (err e) = Quiet-refl w
placed-Quiet w s t codec (ok ssrc) =
    grows refl refl refl (omega arith) (λ dt l. ground (arith, l)) refl refl

pub create_down_track-Quiet :
    (env : Env) (w : Store) (s t : ℕ) (codec : String)
    → Quiet w (create_down_track env w s t codec).0
unfolding create_down_track
create_down_track-Quiet env w s t codec =
    elim (Option-cases (env.new_local_track s (w.tracks t).track_id)) [
      | inl h ↦ rw (h, create_down_track) (placed-Quiet w s t codec _)
      | inr (e, h) ↦ rw (h, create_down_track) (Quiet-refl w)
    ]

registered-Quiet : (s t : ℕ) (w : Store) (r : Result ℕ) → Quiet w (registered s t (w, r)).0
unfolding registered
registered-Quiet s t w (err e) = Quiet-refl w
registered-Quiet s t w (ok dt) = keeps refl refl refl refl refl refl refl

pub subscriber_add_down_track-Quiet :
    (env : Env) (w : Store) (s t : ℕ) → Quiet w (subscriber_add_down_track env w s t).0
unfolding subscriber_add_down_track
subscriber_add_down_track-Quiet env w s t = elim (Bool-cases (w.subscribers s).negotiation.closed) [
  | inl c ↦ rw c (Quiet-refl w)
  | inr o ↦ elim (Option-cases (lookup (w.tracks t).track_id (w.subscribers s).down_tracks)) [
    | inr (dt, h) ↦ rw o (rw (h, subscriber_add_down_track) (Quiet-refl w))
    | inl h ↦ elim (Option-cases (get_best_layer (w.tracks t))) [
      | inl b ↦
          rw o
            (rw (h, subscriber_add_down_track) (rw (b, subscriber_add_down_track) (Quiet-refl w)))
      | inr (l, b) ↦
          let codec = (w.receivers l.receiver).codec in
          let (w₁, r) = create_down_track env w s t codec in
          rw o (
            rw (h, subscriber_add_down_track)
              (rw (b, subscriber_add_down_track)
                (Quiet-trans (create_down_track-Quiet env w s t codec)
                  (registered-Quiet s t w₁ r))))
    ]
  ]
]
