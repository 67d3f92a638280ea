-- ===== src/Examples/Switching.antt =====
-- The downtrack of a subscriber that moves up from one layer of the track of Media to the other.
use choice.Base.{
  nat_eq, string_eq, lookup, String, ◌≡◌, refl, true, false, Option, none, some, List, [], ◌∷◌,
  arith, eq_iff,
}
use choice.Layer.{high, mid, low}
use choice.Rtp.{Packet, settle, rewrite, is_keyframe}
use choice.Rtp.Keyframe.Bits.{vp8}
use choice.Selector.{set_target_layer, needs_switch, can_switch, switch_to_target}
use choice.Track.{TrackReceiver, get_layer}
use choice.DownTrack.{DownTrack, Clock, write_rtp, is_current_layer_active}
use choice.DownTrack.Switching.{write_rtp_available, write_rtp_fallback, layer_change-is_keyframe}
use choice.DownTrack.Stream.{Event, write, target, deliver, given}
use choice.DownTrack.Race.{interleaved_switch, interleaved_switch_stray}
use choice.Examples.Media.{packet, running, waiting, low_layer, high_layer, camera}

abbrev subscribed : DownTrack
subscribed = record {
  subscriber = 1;
  track_receiver = 1;
  sender_ssrc = 99;
  sequencer = running;
  selector = waiting;
  codec = vp8;
  closed = false;
}

abbrev late : Clock
late = record {
  check = 2_000_001_000;
  recheck = 2_000_001_000;
  stamp = 2_000_001_001;
  force = 2_000_001_002;
}

abbrev accept : Packet → Option String
accept p = none

abbrev key : Packet
key = packet 40 700 22 0x10

abbrev delta : Packet
delta = packet 12 5_000 11 0x11

write_rtp_available_example :
    (write_rtp accept subscribed camera late delta low).sent ≡ some (rewrite running delta 99).1
unfolding is_current_layer_active get_layer is_keyframe needs_switch can_switch lookup
write_rtp_available_example =
    ((write_rtp_available accept subscribed camera late delta low refl (omega arith) refl).1)

-- The track has lost the layer that the subscriber gets.
abbrev low_lost : TrackReceiver
low_lost = record camera { layers = (high, high_layer) ∷ [] }

write_rtp_fallback_example :
    ((write_rtp accept subscribed low_lost late delta low).sent ≡ some (rewrite running delta 99).1)
    × ((write_rtp accept subscribed low_lost late delta low).down_track.selector.current_layer
        ≡ low)
unfolding is_current_layer_active get_layer is_keyframe needs_switch can_switch lookup
write_rtp_fallback_example =
    write_rtp_fallback accept subscribed low_lost late delta low refl (omega arith) refl

becomes_high :
    (write_rtp accept subscribed camera late key high).down_track.selector.current_layer ≡ high
unfolding write_rtp is_current_layer_active get_layer is_keyframe needs_switch can_switch lookup
    choice.DownTrack.try_layer_switch choice.DownTrack.should_forward_packet switch_to_target
    rewrite settle
becomes_high = refl

layer_change-is_keyframe_example :
    let r = write_rtp accept subscribed camera late key high in
    (is_keyframe key.payload vp8 ≡ true)
    × (high ≡ r.down_track.selector.current_layer)
    × (r.sent ≡ some (rewrite running key 99).1)
layer_change-is_keyframe_example =
    layer_change-is_keyframe accept subscribed camera late key high refl (omega arith)
      (λ e. ground (arith, e, becomes_high, eq_iff low high))

abbrev life : List Event
life =
    write camera late delta low
    ∷ target camera low
    ∷ target camera high
    ∷ write camera late (packet 39 650 22 0x11) high
    ∷ write camera late key high
    ∷ write camera late (packet 41 3_700 22 0x11) high
    ∷ []

life-given : given (deliver accept subscribed life) ≡ delta ∷ key ∷ packet 41 3_700 22 0x11 ∷ []
unfolding deliver write_rtp is_current_layer_active get_layer is_keyframe needs_switch can_switch
    lookup choice.DownTrack.try_layer_switch choice.DownTrack.should_forward_packet switch_to_target
    rewrite settle choice.DownTrack.set_down_track_target set_target_layer
life-given = refl

-- A third layer, and a request for it while the switch to the high one is made.
abbrev three_layers : TrackReceiver
three_layers = record camera {
  layers =
      (low, low_layer)
      ∷ (high, high_layer)
      ∷ (mid, record { name = mid; receiver = 3; ssrc = 33; active = true })
      ∷ [];
}

interleaved_switch_stray_example :
    (interleaved_switch subscribed late key high (mid ∷ [])).0.selector.current_layer ≡ mid
unfolding is_current_layer_active get_layer is_keyframe needs_switch can_switch lookup
interleaved_switch_stray_example =
    (interleaved_switch_stray subscribed late late key (packet 9 9 33 0x11) high mid three_layers
      accept refl refl (omega arith) (omega arith) (ground (arith, eq_iff mid high))
      (ground (arith, eq_iff mid low)) refl refl).0
