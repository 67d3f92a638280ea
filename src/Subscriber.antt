-- ===== src/Subscriber.antt =====
-- pkg/sfu/subscriber.go: the downtracks of a subscriber, its layers and its negotiation, on the store; and
-- `NewDownTrack` of pkg/sfu/downtrack.go. Subscribing and closing reach the routers and stand in Peers.
pub mod Negotiating
pub mod DownTracks
use choice.Base.{
  if◌then◌else◌, nat_eq, string_eq, lookup, insert, ℕ, suc, String, Option, none, some,
}
use choice.Layer.{Layer}
use choice.Receiver.{LayerReceiver}
use choice.Track.{TrackReceiver, get_best_layer, add_down_track}
use choice.DownTrack.{DownTrack, new_down_track}
use choice.Negotiation.{Negotiation, negotiate, do_negotiate, finish_answer}
use choice.Store.{Store, Env, Result, ok, err, Subscriber, update}
use choice.Forwarder.{set_target}
use choice.Messages.{send_offer}

unfoldable pub placed : Store → ℕ → ℕ → String → Result ℕ → Store × Result ℕ
unfolding new_down_track
placed w s t codec (err e) = (w, err e)
placed w s t codec (ok ssrc) =
    let dt = w.next in
    (
      record w {
        down_tracks = update w.down_tracks dt (new_down_track s t (w.tracks t) ssrc codec);
        next = suc dt;
      },
      ok dt,
    )

-- `NewDownTrack`: the address of the downtrack.
unfoldable pub create_down_track : Env → Store → ℕ → ℕ → String → Store × Result ℕ
unfolding placed
create_down_track env w s t codec =
    let id = (w.tracks t).track_id in
    elim (env.new_local_track s id) [
      | some e ↦ (w, err e)
      | none ↦ placed w s t codec (env.add_track (w.subscribers s).pc id)
    ]

unfoldable pub registered : ℕ → ℕ → Store × Result ℕ → Store × Option String
unfolding add_down_track
registered s t (w, err e) = (w, some e)
registered s t (w, ok dt) =
    let sub = w.subscribers s in
    let track = w.tracks t in
    (
      record w {
        subscribers =
            update w.subscribers s
              (record sub { down_tracks = insert track.track_id dt sub.down_tracks });
        tracks = update w.tracks t (add_down_track track dt);
      },
      none,
    )

-- `Subscriber.AddDownTrack`
unfoldable pub subscriber_add_down_track : Env → Store → ℕ → ℕ → Store × Option String
unfolding registered
subscriber_add_down_track env w s t =
    let sub = w.subscribers s in
    let track = w.tracks t in
    if sub.negotiation.closed then (w, none) else elim (lookup track.track_id sub.down_tracks) [
      | some dt ↦ (w, none)
      | none ↦ elim (get_best_layer track) [
        | none ↦ (w, none)
        | some layer ↦
            registered s t (create_down_track env w s t (w.receivers layer.receiver).codec)
      ]
    ]

unfoldable pub get_down_track : Store → ℕ → String → Option ℕ
get_down_track w s track_id = lookup track_id (w.subscribers s).down_tracks

-- `Subscriber.SetLayer`
unfoldable pub set_layer : Store → ℕ → String → String → Store
set_layer w s track_id layer = elim (lookup track_id (w.subscribers s).down_tracks) [
  | none ↦ w
  | some dt ↦ set_target w dt layer
]

-- `Subscriber.GetLayer`: the current and the target layer.
unfoldable pub get_layers : Store → ℕ → String → Option (String × String)
get_layers w s track_id = elim (lookup track_id (w.subscribers s).down_tracks) [
  | none ↦ none
  | some dt ↦
      let selector = (w.down_tracks dt).selector in
      some (selector.current_layer, selector.target_layer)
]

abbrev pub set_negotiation : Store → ℕ → Negotiation → Store
set_negotiation w s n = record w {
  subscribers = update w.subscribers s (record (w.subscribers s) { negotiation = n });
}

unfoldable pub offered : Env → Store → ℕ → Result String → Store × Option String
offered env w s (err e) =
    (set_negotiation w s (do_negotiate (some e) none none (w.subscribers s).negotiation).0, some e)
offered env w s (ok offer) =
    let sub = w.subscribers s in
    elim (env.set_local_description sub.pc offer) [
      | some e ↦ (set_negotiation w s (do_negotiate none (some e) none sub.negotiation).0, some e)
      | none ↦
          let (w', result) = send_offer env w sub.peer offer in
          (
            set_negotiation w' s (do_negotiate none none result (w'.subscribers s).negotiation).0,
            result,
          )
    ]

-- `Subscriber.Negotiate`
unfoldable pub negotiate_subscriber : Env → Store → ℕ → Store × Option String
unfolding offered negotiate do_negotiate
negotiate_subscriber env w s =
    let (n, goes_on) = negotiate (w.subscribers s).negotiation in
    let w' = set_negotiation w s n in
    if goes_on then offered env w' s (env.create_offer (w.subscribers s).pc) else (w', none)

-- `Subscriber.HandleAnswer`; the renegotiation that it may start runs at once.
unfoldable pub handle_answer : Env → Store → ℕ → String → Store × Option String
unfolding finish_answer
handle_answer env w s answer = elim (env.set_remote_description (w.subscribers s).pc answer) [
  | some e ↦ (w, some e)
  | none ↦
      let (n, again) = finish_answer (w.subscribers s).negotiation in
      let w' = set_negotiation w s n in
      (if again then (negotiate_subscriber env w' s).0 else w', none)
]
