-- ===== src/DownTrack/Stream.antt =====
-- pkg/sfu/downtrack.go: the stream that a subscriber gets over the life of a downtrack.
use choice.Base.{
  if◌then◌else◌, nat_eq, string_eq, Bool-cases, All, String, ◌≡◌, refl, inl, inr, Bool, not, ◌&&◌,
  Option, none, some, List, [], ◌∷◌, ◌++◌, map, arith,
}
use choice.Rtp.{Packet, rewrite}
use choice.Rtp.Sequencer.Continuity.{rewrite_all, steps, source_steps, InRange, steps-rewrite_all}
use choice.Track.{TrackReceiver}
use choice.DownTrack.{
  DownTrack, Clock, try_layer_switch, should_forward_packet, write_rtp, set_down_track_target,
  close_down_track,
}

-- Calls of the methods. The track's layers may differ from call to call.
pub data Event : Type 0 where
  write : TrackReceiver → Clock → Packet → String → Event
  target : TrackReceiver → String → Event
  close : Event

unfoldable pub after : (Packet → Option String) → DownTrack → Event → DownTrack
after transmit d (write track clock packet from_layer) =
    (write_rtp transmit d track clock packet from_layer).down_track
after transmit d (target track layer) = (set_down_track_target d track layer).0
after transmit d close = (close_down_track d).0

forwarded : Option Packet → Packet → List (Packet × Packet)
forwarded none packet = []
forwarded (some sent) packet = (packet, sent) ∷ []

-- The packets that an event forwards: as given, and as sent.
delivered : (Packet → Option String) → DownTrack → Event → List (Packet × Packet)
unfolding forwarded
delivered transmit d (write track clock packet from_layer) =
    forwarded (write_rtp transmit d track clock packet from_layer).sent packet
delivered transmit d (target track layer) = []
delivered transmit d close = []

unfoldable pub deliver : (Packet → Option String) → DownTrack → List Event → List (Packet × Packet)
unfolding delivered after
deliver transmit d [] = []
deliver transmit d (e ∷ es) = delivered transmit d e ++ deliver transmit (after transmit d e) es

abbrev pub given : List (Packet × Packet) → List Packet
given = map (λ x. x.0)

abbrev pub sent : List (Packet × Packet) → List Packet
sent = map (λ x. x.1)

-- A call either sends the rewritten packet and advances the sequencer, or does neither.
pub record Sends (d d' : DownTrack) (packet : Packet) (out : Option Packet) : Type 0 where
  pub passes : Bool
  pub out_lem : out ≡ (if passes then some (rewrite d.sequencer packet d.sender_ssrc).1 else none)
  pub sequencer :
      d'.sequencer ≡ (if passes then (rewrite d.sequencer packet d.sender_ssrc).0 else d.sequencer)
  pub ssrc : d'.sender_ssrc ≡ d.sender_ssrc

attempt_keeps :
    (d : DownTrack) (clock : Clock) (packet : Packet) (from_layer : String)
    → let t = try_layer_switch d clock packet from_layer in
      (t.0.sequencer ≡ d.sequencer) × (t.0.sender_ssrc ≡ d.sender_ssrc)
unfolding try_layer_switch
attempt_keeps d clock packet from_layer = (ground arith, ground arith)

forward_keeps :
    (d : DownTrack) (track : TrackReceiver) (clock : Clock) (packet : Packet)
    (from_layer layer : String)
    → let t = should_forward_packet d track clock packet from_layer layer in
      (t.0.sequencer ≡ d.sequencer) × (t.0.sender_ssrc ≡ d.sender_ssrc)
unfolding should_forward_packet
forward_keeps d track clock packet from_layer layer = (ground arith, ground arith)

module _ (transmit : Packet → Option String) where
  pub write_rtp-Sends :
      (d : DownTrack) (track : TrackReceiver) (clock : Clock) (packet : Packet)
      (from_layer : String)
      → let r = write_rtp transmit d track clock packet from_layer in
        Sends d r.down_track packet r.sent
  unfolding write_rtp
  write_rtp-Sends d track clock packet from_layer =
      let (d₁, layer, request) = try_layer_switch d clock packet from_layer in
      let (d₂, forward) = should_forward_packet d₁ track clock packet from_layer layer in
      let kept = attempt_keeps d clock packet from_layer in
      let kept' = forward_keeps d₁ track clock packet from_layer layer in
      record {
        passes = not d.closed && forward;
        out_lem = ground (arith, kept, kept');
        sequencer = ground (arith, kept, kept');
        ssrc = ground (arith, kept, kept');
      }

  sent-given :
      (d : DownTrack) (es : List Event)
      → sent (deliver transmit d es)
        ≡ rewrite_all d.sequencer (given (deliver transmit d es)) d.sender_ssrc
  unfolding deliver rewrite_all set_down_track_target close_down_track
  sent-given d [] = refl
  sent-given d (write track clock packet from_layer ∷ es) =
      let v = write_rtp-Sends d track clock packet from_layer in
      let r = write_rtp transmit d track clock packet from_layer in
      elim (Bool-cases v.passes) [
        | inl p ↦ ground (arith, v.out_lem, v.sequencer, v.ssrc, sent-given r.down_track es)
        | inr n ↦ ground (arith, v.out_lem, v.sequencer, v.ssrc, sent-given r.down_track es)
      ]
  sent-given d (target track layer ∷ es) = sent-given (set_down_track_target d track layer).0 es
  sent-given d (close ∷ es) = ground (arith, sent-given (close_down_track d).0 es)

  -- Whatever packets of whatever layers arrive, and however the target changes meanwhile, the sequence
  -- numbers and timestamps of the packets that a downtrack sends advance by what the forwarded packets
  -- advance within one source, and by one at each change of source; so a subscriber sees no gap and no
  -- jump at a layer switch. (The fields of the packets are in range.)
  pub steps-deliver :
      (d : DownTrack) (es : List Event)
      → All InRange (given (deliver transmit d es))
      → steps (sent (deliver transmit d es)) ≡ source_steps (given (deliver transmit d es))
  steps-deliver d es h =
      rw (sent-given d es)
        (steps-rewrite_all d.sequencer (given (deliver transmit d es)) d.sender_ssrc h)
