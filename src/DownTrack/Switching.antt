-- ===== src/DownTrack/Switching.antt =====
-- pkg/sfu/downtrack.go: when `WriteRTP` changes the layer, and which packets it lets through.
use choice.Base.{
  if◌then◌else◌, ◌==◌, nat_eq, string_eq, ◌≤◌, String, ◌≡◌, refl, ◌≢◌, Bool, true, false, not, ◌&&◌,
  ◌||◌, Option, none, some, arith, eq_iff,
}
use choice.Rtp.{Packet, rewrite, is_keyframe}
use choice.Selector.{needs_switch, can_switch, switch_to_target, force_switch}
use choice.Track.{TrackReceiver}
use choice.DownTrack.{
  DownTrack, Clock, Written, try_layer_switch, is_current_layer_active, should_forward_packet,
  write_rtp,
}

-- A wanted switch is due: its cooldown is over, and this packet is a keyframe of the target layer.
abbrev pub is_due : DownTrack → Clock → Packet → String → Bool
is_due d clock packet from_layer =
    needs_switch d.selector
    && can_switch d.selector clock.check
    && is_keyframe packet.payload d.codec
    && from_layer == d.selector.target_layer

-- The layer that is current when the packet's fate is decided.
abbrev pub decided_layer : DownTrack → Clock → Packet → String → String
decided_layer d clock packet from_layer =
    if is_due d clock packet from_layer then d.selector.target_layer else d.selector.current_layer

-- On a clock that does not go back between the two tests of the cooldown, the attempt reports the layer
-- that the selector then has; it asks for a keyframe of that layer when it switches, and only then; and
-- it changes nothing of the downtrack but its selector.
pub try_layer_switch_lem :
    (d : DownTrack) (clock : Clock) (packet : Packet) (from_layer : String)
    → clock.check ≤ clock.recheck
    → let (d', layer, request) = try_layer_switch d clock packet from_layer in
      (layer ≡ decided_layer d clock packet from_layer)
      × (d'.selector.current_layer ≡ layer)
      × (request
          ≡ (if is_due d clock packet from_layer then some d.selector.target_layer else none))
      × (d' ≡ record d { selector = d'.selector })
unfolding try_layer_switch needs_switch can_switch switch_to_target
try_layer_switch_lem d clock packet from_layer h =
    (ground arith, ground arith, ground arith, ground arith)

-- What an open downtrack does with a packet.
pub record Outcome (transmit : Packet → Option String) (d : DownTrack) (track : TrackReceiver)
    (clock : Clock) (packet : Packet) (from_layer : String) (r : Written) : Type 0 where
  pub passes : Bool
  pub layer : String
  pub layer_lem : layer ≡ decided_layer d clock packet from_layer
  pub passes_lem : passes ≡ (not (is_current_layer_active track layer) || from_layer == layer)
  pub current : r.down_track.selector.current_layer ≡ (
      if is_current_layer_active track layer
      then layer
      else if is_keyframe packet.payload d.codec
      then from_layer
      else layer)
  pub sent : r.sent ≡ (if passes then some (rewrite d.sequencer packet d.sender_ssrc).1 else none)
  pub sequencer :
      r.down_track.sequencer
      ≡ (if passes then (rewrite d.sequencer packet d.sender_ssrc).0 else d.sequencer)
  pub error :
      r.error ≡ (if passes then transmit (rewrite d.sequencer packet d.sender_ssrc).1 else none)
  pub ssrc : r.down_track.sender_ssrc ≡ d.sender_ssrc
  pub opened : r.down_track.closed ≡ d.closed

pub write_rtp-Outcome :
    (transmit : Packet → Option String) (d : DownTrack) (track : TrackReceiver) (clock : Clock)
    (packet : Packet) (from_layer : String)
    → d.closed ≡ false
    → clock.check ≤ clock.recheck
    → Outcome transmit d track clock packet from_layer
        (write_rtp transmit d track clock packet from_layer)
unfolding write_rtp should_forward_packet force_switch
write_rtp-Outcome transmit d track clock packet from_layer o h =
    let t = try_layer_switch d clock packet from_layer in
    let facts = try_layer_switch_lem d clock packet from_layer h in
    record {
      passes = not (is_current_layer_active track t.1) || from_layer == t.1;
      layer = t.1;
      layer_lem = facts.0;
      passes_lem = refl;
      current = ground (arith, facts);
      sent = ground (arith, facts);
      sequencer = ground (arith, facts);
      error = ground (arith, facts);
      ssrc = ground (arith, facts);
      opened = ground (arith, facts);
    }

module _ (transmit : Packet → Option String) (d : DownTrack) (track : TrackReceiver) (clock : Clock)
    (packet : Packet) (from_layer : String) (opened : d.closed ≡ false)
    (steady : clock.check ≤ clock.recheck) where
  -- While the layer that is decided on is available, an open downtrack forwards exactly that layer's
  -- packets, and the layer stays current; `WriteRTP` returns the error of the local track for a
  -- packet that it forwards, and none for one that it holds back, which leaves the sequencer as it was. (The
  -- clock does not go back between the tests of the cooldown.)
  pub write_rtp_available :
      is_current_layer_active track (decided_layer d clock packet from_layer) ≡ true
      → let layer = decided_layer d clock packet from_layer in
        let r = write_rtp transmit d track clock packet from_layer in
        let (next, packet') = rewrite d.sequencer packet d.sender_ssrc in
        (r.down_track.selector.current_layer ≡ layer)
        × (r.sent ≡ (if from_layer == layer then some packet' else none))
        × (r.error ≡ (if from_layer == layer then transmit packet' else none))
        × (r.down_track.sequencer ≡ (if from_layer == layer then next else d.sequencer))
  write_rtp_available a =
      let o = write_rtp-Outcome transmit d track clock packet from_layer opened steady in
      (
        ground (arith, o.layer_lem, o.current),
        ground (arith, o.layer_lem, o.passes_lem, o.sent),
        ground (arith, o.layer_lem, o.passes_lem, o.error),
        ground (arith, o.layer_lem, o.passes_lem, o.sequencer),
      )

  -- While the layer that an open downtrack decides on is not available, every packet is forwarded, whatever
  -- its layer, and a keyframe makes its own layer current. (The clock does not go back between the tests
  -- of the cooldown.)
  pub write_rtp_fallback :
      let layer = decided_layer d clock packet from_layer in
      let r = write_rtp transmit d track clock packet from_layer in
      is_current_layer_active track layer ≡ false
      → (r.sent ≡ some (rewrite d.sequencer packet d.sender_ssrc).1)
        × (r.down_track.selector.current_layer
            ≡ (if is_keyframe packet.payload d.codec then from_layer else layer))
  write_rtp_fallback a =
      let o = write_rtp-Outcome transmit d track clock packet from_layer opened steady in
      (ground (arith, o.layer_lem, o.passes_lem, o.sent), ground (arith, o.layer_lem, o.current))

  -- The current layer of an open downtrack changes only at a keyframe of the new layer, and that keyframe is
  -- forwarded: what a subscriber gets of a layer starts with a keyframe. (The clock does not go back
  -- between the tests of the cooldown.)
  pub layer_change-is_keyframe :
      let r = write_rtp transmit d track clock packet from_layer in
      r.down_track.selector.current_layer ≢ d.selector.current_layer
      → (is_keyframe packet.payload d.codec ≡ true)
        × (from_layer ≡ r.down_track.selector.current_layer)
        × (r.sent ≡ some (rewrite d.sequencer packet d.sender_ssrc).1)
  layer_change-is_keyframe n =
      let o = write_rtp-Outcome transmit d track clock packet from_layer opened steady in
      let same = eq_iff from_layer d.selector.target_layer in
      (
        ground (arith, o.layer_lem, o.current),
        ground (arith, o.layer_lem, o.current, same),
        ground
            (arith, o.layer_lem, o.current, o.passes_lem, o.sent, same, eq_iff from_layer o.layer),
      )
