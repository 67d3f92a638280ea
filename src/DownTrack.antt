-- ===== src/DownTrack.antt =====
-- pkg/sfu/downtrack.go: `DownTrack`, which sends one track to one subscriber and switches between its
-- layers. `WriteRTP` and `Close` run under the downtrack's lock; the selector has a lock of its own. What
-- `DownTrack.track.WriteRTP` of github.com/pion/webrtc returns for a packet is the parameter `transmit`.
pub mod Switching
pub mod Stream
pub mod Race
pub mod Reading
use choice.Base.{
  if◌then◌else◌, ◌==◌, nat_eq, string_eq, ℕ, String, Bool, true, false, not, ◌||◌, Option, none,
  some, List, [], ◌∷◌,
}
use choice.Layer.{Layer, is_active, mid}
use choice.Rtp.{Packet, RtpSequencer, new_rtp_sequencer, rewrite, is_keyframe}
use choice.Selector.{
  LayerSelector, new_layer_selector, set_target_layer, get_current_layer, get_target_layer,
  needs_switch, can_switch, switch_to_target, force_switch,
}
use choice.Track.{TrackReceiver, get_layer, get_best_layer}

-- `sender_ssrc` is the SSRC of the sender's first encoding.
pub record DownTrack : Type 0 where
  pub subscriber : ℕ
  pub track_receiver : ℕ
  pub sender_ssrc : ℕ
  pub sequencer : RtpSequencer
  pub selector : LayerSelector
  pub codec : String
  pub closed : Bool

-- `mid`, or the best layer at hand if there is no such layer.
initial_layer : TrackReceiver → String
initial_layer track = elim (get_layer track mid) [
  | some layer ↦ mid
  | none ↦ elim (get_best_layer track) [ some layer ↦ layer.name | none ↦ mid ]
]

unfoldable pub new_down_track : ℕ → ℕ → TrackReceiver → ℕ → String → DownTrack
unfolding initial_layer new_rtp_sequencer new_layer_selector
new_down_track subscriber address track ssrc codec = record {
  subscriber = subscriber;
  track_receiver = address;
  sender_ssrc = ssrc;
  sequencer = new_rtp_sequencer;
  selector = new_layer_selector track.track_id (initial_layer track);
  codec = codec;
  closed = false;
}

-- The readings of the clock in one call of `WriteRTP`, in the order in which they are made.
pub record Clock : Type 0 where
  pub check : ℕ  -- in CanSwitch
  pub recheck : ℕ  -- in SwitchToTarget
  pub stamp : ℕ  -- in SwitchToTarget
  pub force : ℕ  -- in ForceSwitch

-- The downtrack, the layer that is current now, and the layer that `onLayerSwitch` is started with.
unfoldable pub try_layer_switch :
    DownTrack → Clock → Packet → String → DownTrack × String × Option String
unfolding get_current_layer get_target_layer
try_layer_switch d clock packet from_layer =
    let current_layer = get_current_layer d.selector in
    let target_layer = get_target_layer d.selector in
    if not (needs_switch d.selector) || not (can_switch d.selector clock.check)
    then (d, current_layer, none)
    else if not (is_keyframe packet.payload d.codec)
    then (d, current_layer, none)
    else if from_layer == target_layer
    then (let (selector, done) = switch_to_target d.selector clock.recheck clock.stamp in
        (
          record d { selector = selector },
          target_layer,
          if done then some selector.current_layer else none,
        ))
    else (d, current_layer, none)

unfoldable pub is_current_layer_active : TrackReceiver → String → Bool
is_current_layer_active track current_layer = elim (get_layer track current_layer) [
  | none ↦ false
  | some layer ↦ is_active layer
]

try_fallback_switch : DownTrack → Clock → Packet → String → DownTrack
try_fallback_switch d clock packet from_layer =
    if not (is_keyframe packet.payload d.codec)
    then d
    else record d { selector = force_switch d.selector from_layer clock.force }

unfoldable pub should_forward_packet :
    DownTrack → TrackReceiver → Clock → Packet → String → String → DownTrack × Bool
unfolding try_fallback_switch
should_forward_packet d track clock packet from_layer current_layer =
    if is_current_layer_active track current_layer
    then (d, from_layer == current_layer)
    else (try_fallback_switch d clock packet from_layer, true)

-- What a call of `WriteRTP` leaves: the downtrack, the packet that was handed to the local track, the
-- layer that a keyframe is asked of, and the error returned.
pub record Written : Type 0 where
  pub down_track : DownTrack
  pub sent : Option Packet
  pub request : Option String
  pub error : Option String

send : (Packet → Option String) → DownTrack → Packet → Option String → Written
send transmit d packet request =
    let (sequencer, rewritten) = rewrite d.sequencer packet d.sender_ssrc in
    record {
      down_track = record d { sequencer = sequencer };
      sent = some rewritten;
      request = request;
      error = transmit rewritten;
    }

abbrev quiet : DownTrack → Option String → Written
quiet d request = record { down_track = d; sent = none; request = request; error = none }

unfoldable pub write_rtp :
    (Packet → Option String) → DownTrack → TrackReceiver → Clock → Packet → String → Written
unfolding send
write_rtp transmit d track clock packet from_layer =
    if d.closed
    then quiet d none
    else let (d₁, current_layer, request) = try_layer_switch d clock packet from_layer in
      let (d₂, forward) = should_forward_packet d₁ track clock packet from_layer current_layer in
      if forward then send transmit d₂ packet request else quiet d₂ request

-- The receiver that is asked for a keyframe of the layer.
unfoldable pub request_keyframe : TrackReceiver → String → Option ℕ
request_keyframe track layer_name = elim (get_layer track layer_name) [
  | none ↦ none
  | some layer ↦ some layer.receiver
]

-- With the receiver that is asked for a keyframe of the new target.
unfoldable pub set_down_track_target : DownTrack → TrackReceiver → String → DownTrack × Option ℕ
set_down_track_target d track layer =
    (record d { selector = set_target_layer d.selector layer }, request_keyframe track layer)

-- The flag says whether this call closed it; then the downtrack is removed from its track's list.
unfoldable pub close_down_track : DownTrack → DownTrack × Bool
close_down_track d = if d.closed then (d, false) else (record d { closed = true }, true)

-- `readRTCP`, over the errors that its reads return, each with the downtrack as it stands before the read: whether the
-- loop has ended.
unfoldable pub read_rtcp : List (DownTrack × Option String) → Bool
read_rtcp [] = false
read_rtcp ((d, error) ∷ reads) =
    let rest = read_rtcp reads in
    if d.closed then true else elim error [ some e ↦ true | none ↦ rest ]
