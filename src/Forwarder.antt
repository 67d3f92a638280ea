-- ===== src/Forwarder.antt =====
-- pkg/sfu/forwarder.go, and the methods of pkg/sfu/downtrack.go and pkg/sfu/track.go that reach other objects.
-- The effects of a goroutine that a method starts are logged where it is started; the two keyframe requests
-- that a new downtrack makes after a delay are an operation of their own.
pub mod Delivery
pub mod Closing
use choice.Base.{
  if◌then◌else◌, nat_eq, string_eq, include, exclude, ℕ, String, true, false, Option, none, some,
  List, [], ◌∷◌,
}
use choice.Rtp.{Packet}
use choice.Receiver.{LayerReceiver, send_pli, close_receiver}
use choice.Layer.{Layer}
use choice.Track.{TrackReceiver, remove_down_track}
use choice.Selector.{get_current_layer}
use choice.DownTrack.{
  DownTrack, Written, write_rtp, request_keyframe, set_down_track_target, close_down_track,
}
use choice.Store.{Store, Env, Forwarder, Effect, pli, rtp, update, note}

-- LayerReceiver.SendPLI, for the receiver that is asked, if there is one.
unfoldable pub ask_keyframe : Store → Option ℕ → Store
ask_keyframe w none = w
ask_keyframe w (some receiver) = elim (send_pli (w.receivers receiver)) [
  | none ↦ w
  | some (pc, ssrc) ↦ note w (pli pc ssrc)
]

-- `onLayerSwitch`
unfoldable pub on_layer_switch : Store → TrackReceiver → Option String → Store
unfolding ask_keyframe
on_layer_switch w track none = w
on_layer_switch w track (some layer) = ask_keyframe w (request_keyframe track layer)

unfoldable pub note_sent : Store → ℕ → Option Packet → Store
note_sent w dt none = w
note_sent w dt (some packet) = note w (rtp dt packet)

-- `DownTrack.WriteRTP` on the store, with its error.
unfoldable pub write_down_track : Env → Store → ℕ → Packet → String → Store × Option String
unfolding on_layer_switch note_sent
write_down_track env w dt packet from_layer =
    let d = w.down_tracks dt in
    let track = w.tracks d.track_receiver in
    let r = write_rtp (env.transmit dt) d track (env.clock dt) packet from_layer in
    let w' : Store = record w { down_tracks = update w.down_tracks dt r.down_track } in
    (note_sent (on_layer_switch w' track r.request) dt r.sent, r.error)

-- `DownTrack.SetTargetLayer` on the store.
unfoldable pub set_target : Store → ℕ → String → Store
set_target w dt layer =
    let d = w.down_tracks dt in
    let (d', asked) = set_down_track_target d (w.tracks d.track_receiver) layer in
    ask_keyframe (record w { down_tracks = update w.down_tracks dt d' }) asked

-- One of the two attempts of `requestInitialKeyframe`, after its delay.
unfoldable pub request_initial_keyframe : Store → ℕ → Store
unfolding ask_keyframe
request_initial_keyframe w dt =
    let d = w.down_tracks dt in
    if d.closed
    then w
    else ask_keyframe w
        (request_keyframe (w.tracks d.track_receiver) (get_current_layer d.selector))

-- `DownTrack.Close` on the store.
unfoldable pub close_dt : Store → ℕ → Store
unfolding close_down_track remove_down_track
close_dt w dt =
    let d = w.down_tracks dt in
    let (d', first) = close_down_track d in
    let t = d.track_receiver in
    if first
    then record w {
      down_tracks = update w.down_tracks dt d';
      tracks = update w.tracks t (remove_down_track (w.tracks t) dt);
    }
    else w

unfoldable pub close_each : Store → List ℕ → Store
close_each w [] = w
close_each w (dt ∷ dts) = close_each (close_dt w dt) dts

-- The receivers of a track's layers.
unfoldable pub close_layers : Store → List (String × Layer) → Store
unfolding close_receiver
close_layers w [] = w
close_layers w ((name, layer) ∷ layers) =
    let r = layer.receiver in
    close_layers (record w { receivers = update w.receivers r (close_receiver (w.receivers r)) })
      layers

-- `TrackReceiver.Close`
unfoldable pub close_track : Store → ℕ → Store
unfolding close_layers
close_track w t =
    let track = w.tracks t in
    if track.closed
    then w
    else close_layers (record w { tracks = update w.tracks t (record track { closed = true }) })
        track.layers

unfoldable pub new_forwarder : ℕ → Forwarder
new_forwarder track = record { track_receiver = track; down_tracks = []; closed = false }

unfoldable pub add_to_forwarder : Store → ℕ → ℕ → Store
add_to_forwarder w f dt =
    let fwd = w.forwarders f in
    if fwd.closed then w else record w {
      forwarders = update w.forwarders f (record fwd { down_tracks = include dt fwd.down_tracks });
    }

unfoldable pub remove_from_forwarder : Store → ℕ → ℕ → Store
remove_from_forwarder w f dt =
    let fwd = w.forwarders f in
    record w {
      forwarders = update w.forwarders f (record fwd { down_tracks = exclude dt fwd.down_tracks });
    }

unfoldable pub drop_failed : Store → ℕ → ℕ → Option String → Store
drop_failed w f dt none = w
drop_failed w f dt (some err) = remove_from_forwarder w f dt

-- The loop of `Forward` over the downtracks that it has copied out.
unfoldable pub forward_each : Env → Store → ℕ → Packet → String → List ℕ → Store
unfolding drop_failed
forward_each env w f packet from_layer [] = w
forward_each env w f packet from_layer (dt ∷ dts) =
    let (w', err) = write_down_track env w dt packet from_layer in
    forward_each env (drop_failed w' f dt err) f packet from_layer dts

unfoldable pub forward : Env → Store → ℕ → Packet → String → Store
forward env w f packet from_layer =
    forward_each env w f packet from_layer (w.forwarders f).down_tracks

-- `Forwarder.Close`
unfoldable pub close_forwarder : Store → ℕ → Store
close_forwarder w f =
    let fwd = w.forwarders f in
    if fwd.closed
    then w
    else close_each (record w { forwarders = update w.forwarders f (record fwd { closed = true }) })
        fwd.down_tracks
