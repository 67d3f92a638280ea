-- ===== src/DownTrack/Race.antt =====
-- pkg/sfu/downtrack.go: `tryLayerSwitch` reads the target layer, tests, and switches by separate calls of the
-- selector, and `SetTargetLayer`, which another goroutine may call, does not take the downtrack's lock.
use choice.Base.{
  if◌then◌else◌, ◌==◌, nat_eq, string_eq, ◌≤◌, String, ◌≡◌, ◌≢◌, true, false, not, ◌&&◌, Option,
  none, List, [], ◌∷◌, arith, eq_iff,
}
use choice.Rtp.{Packet, is_keyframe}
use choice.Selector.{
  LayerSelector, set_target_layer, get_current_layer, get_target_layer, needs_switch, can_switch,
  switch_to_target,
}
use choice.Track.{TrackReceiver}
use choice.DownTrack.{DownTrack, Clock, try_layer_switch, is_current_layer_active, write_rtp}
use choice.DownTrack.Switching.{is_due, decided_layer, write_rtp_available}

set_targets : LayerSelector → List String → LayerSelector
set_targets ls [] = ls
set_targets ls (layer ∷ layers) = set_targets (set_target_layer ls layer) layers

-- `tryLayerSwitch` where calls of `SetTargetLayer` come in between the tests and `SwitchToTarget`: the
-- downtrack, and the layer that is reported as current.
unfoldable pub interleaved_switch :
    DownTrack → Clock → Packet → String → List String → DownTrack × String
unfolding get_current_layer get_target_layer set_targets
interleaved_switch d clock packet from_layer others =
    let current_layer = get_current_layer d.selector in
    let target_layer = get_target_layer d.selector in
    let due = needs_switch d.selector && can_switch d.selector clock.check in
    let meanwhile = set_targets d.selector others in
    if not due
    then (record d { selector = meanwhile }, current_layer)
    else if not (is_keyframe packet.payload d.codec)
    then (record d { selector = meanwhile }, current_layer)
    else if from_layer == target_layer
    then (
      record d { selector = (switch_to_target meanwhile clock.recheck clock.stamp).0 },
      target_layer,
    )
    else (record d { selector = meanwhile }, current_layer)

-- With nothing in between it is the sequential attempt.
interleaved_switch-nil :
    (d : DownTrack) (clock : Clock) (packet : Packet) (from_layer : String)
    → let t = try_layer_switch d clock packet from_layer in
      interleaved_switch d clock packet from_layer [] ≡ (t.0, t.1)
unfolding interleaved_switch try_layer_switch
interleaved_switch-nil d clock packet from_layer = ground arith

-- A packet of the current layer, no keyframe, is forwarded.
stale_forwarded :
    (transmit : Packet → Option String) (d : DownTrack) (track : TrackReceiver) (clock : Clock)
    (packet : Packet) (layer : String)
    → d.closed ≡ false
    → clock.check ≤ clock.recheck
    → d.selector.current_layer ≡ layer
    → is_current_layer_active track layer ≡ true
    → is_keyframe packet.payload d.codec ≡ false
    → (write_rtp transmit d track clock packet layer).sent ≢ none
stale_forwarded transmit d track clock packet layer o h cur a f s =
    let same : decided_layer d clock packet layer ≡ layer = ground arith in
    let r = write_rtp_available transmit d track clock packet layer o h (rw same a) in
    let at = eq_iff layer (decided_layer d clock packet layer) in ground (arith, s, r.1, same, at)

-- If the target is set to a third layer between the tests and the switch, at a keyframe for which a
-- switch is due, then that layer becomes current although the keyframe is of another; the layer
-- reported is not the current one; and a packet of the new layer that is no keyframe is forwarded.
pub interleaved_switch_stray :
    (d : DownTrack) (clock next : Clock) (packet delta : Packet) (from_layer other : String)
    (track : TrackReceiver) (transmit : Packet → Option String)
    → d.closed ≡ false
    → is_due d clock packet from_layer ≡ true
    → clock.check ≤ clock.recheck
    → next.check ≤ next.recheck
    → other ≢ d.selector.target_layer
    → other ≢ d.selector.current_layer
    → is_current_layer_active track other ≡ true
    → is_keyframe delta.payload d.codec ≡ false
    → let (d', reported) = interleaved_switch d clock packet from_layer (other ∷ []) in
      (d'.selector.current_layer ≡ other)
      × (from_layer ≢ other)
      × (reported ≢ other)
      × ((write_rtp transmit d' track next delta other).sent ≢ none)
unfolding interleaved_switch set_target_layer needs_switch can_switch switch_to_target
interleaved_switch_stray d clock next packet delta from_layer other track transmit o due h k n₁ n₂ a
      f =
    let t = interleaved_switch d clock packet from_layer (other ∷ []) in
    let e₁ = eq_iff from_layer d.selector.target_layer in
    let e₂ = eq_iff other d.selector.target_layer in
    let e₃ = eq_iff d.selector.current_layer other in
    let moved : t.0.selector.current_layer ≡ other = ground (arith, e₁, e₂, e₃) in
    let same : t.0.codec ≡ d.codec = ground arith in
    let shown : t.0.closed ≡ false = ground arith in
    (
      moved,
      ground (arith, e₁),
      ground (arith, e₁),
      stale_forwarded transmit t.0 track next delta other shown k moved a (ground (arith, same)),
    )
