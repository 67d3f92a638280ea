-- ===== src/Examples/Media.antt =====
-- Packets of a video track with two layers of VP8, its selector and its layers.
use choice.Base.{nat_eq, string_eq, All, ℕ, ◌≡◌, refl, ◌≢◌, ◌↔◌, true, false, List, [], ◌∷◌, arith}
use choice.Layer.{Layer, high, mid, low}
use choice.Rtp.{Packet, RtpSequencer, new_rtp_sequencer, settle, rewrite}
use choice.Rtp.Sequencer.Continuity.{
  rewrite_all, steps, source_steps, InRange, steps-rewrite_all, SameContent,
  rewrite_all-SameContent,
}
use choice.Rtp.Sequencer.Reordering.{rewrite_duplicate}
use choice.Selector.{LayerSelector, new_layer_selector, needs_switch}
use choice.Selector.Invariant.{set_target, switch, force, run, needs_switch_iff}
use choice.Selector.Cooldown.{changes, IsSpaced, changes-IsSpaced}
use choice.Track.{TrackReceiver, get_best_layer}
use choice.Track.Layers.{IsBest, get_best_layer-IsBest}

abbrev pub packet : ℕ → ℕ → ℕ → ℕ → Packet
packet seq ts ssrc first = record {
  sequence_number = seq;
  timestamp = ts;
  ssrc = ssrc;
  payload = first ∷ 0 ∷ [];
  rest = 128 ∷ [];
}

-- Two packets of one source over the end of the numbers, and two of another.
abbrev pub mixed_packets : List Packet
mixed_packets =
    packet 65535 100 11 0x10
    ∷ packet 0 3100 11 0x11
    ∷ packet 500 7 22 0x10
    ∷ packet 501 3007 22 0x11
    ∷ []

mixed-InRange : All InRange mixed_packets
mixed-InRange = omega arith

mixed_steps :
    steps (rewrite_all new_rtp_sequencer mixed_packets 99) ≡ (1, 3000) ∷ (1, 1) ∷ (1, 3000) ∷ []
unfolding rewrite_all rewrite new_rtp_sequencer settle
mixed_steps = refl

steps-rewrite_all_example :
    steps (rewrite_all new_rtp_sequencer mixed_packets 99) ≡ source_steps mixed_packets
steps-rewrite_all_example = steps-rewrite_all new_rtp_sequencer mixed_packets 99 mixed-InRange

rewrite_all-SameContent_example :
    SameContent 99 mixed_packets (rewrite_all new_rtp_sequencer mixed_packets 99)
    × All InRange (rewrite_all new_rtp_sequencer mixed_packets 99)
rewrite_all-SameContent_example = rewrite_all-SameContent new_rtp_sequencer mixed_packets 99

abbrev pub running : RtpSequencer
running = record {
  last_seq = 10;
  seq_offset = 1;
  last_ts = 100;
  ts_offset = 1;
  last_ssrc = 11;
  inited = true;
}

rewrite_duplicate_example :
    let (s₁, out₁) = rewrite running (packet 11 0 11 0) 99 in
    let (s₂, out₂) = rewrite s₁ (packet 10 0 11 0) 99 in
    let (s₃, out₃) = rewrite s₂ (packet 700 0 22 0) 99 in
    (out₃.sequence_number ≡ out₁.sequence_number) × (out₃.ssrc ≡ out₁.ssrc)
rewrite_duplicate_example =
    rewrite_duplicate running (packet 11 0 11 0) (packet 10 0 11 0) (packet 700 0 22 0) 99 refl refl
      (omega arith) (omega arith) (omega arith) refl

needs_switch_iff_example :
    let ls = run (new_layer_selector "cam" low) (set_target high ∷ force mid 5 ∷ []) in
    (needs_switch ls ≡ true) ↔ (ls.current_layer ≢ ls.target_layer)
needs_switch_iff_example = needs_switch_iff "cam" low (set_target high ∷ force mid 5 ∷ [])

-- The subscriber has the low layer and waits for the high one.
abbrev pub waiting : LayerSelector
waiting = record {
  track_id = "cam";
  current_layer = low;
  target_layer = high;
  pending_switch = true;
  last_switch_time = 1_000;
  has_callback = false;
  switch_cooldown = 2_000_000_000;
}

changes-IsSpaced_example :
    IsSpaced 1_000
      (changes waiting (switch 5_000_000_000 5_000_000_001 ∷ force low 5_000_000_009 ∷ []))
changes-IsSpaced_example =
    changes-IsSpaced waiting (switch 5_000_000_000 5_000_000_001 ∷ force low 5_000_000_009 ∷ [])
      refl

abbrev pub low_layer : Layer
low_layer = record { name = low; receiver = 1; ssrc = 11; active = true }

abbrev pub high_layer : Layer
high_layer = record { name = high; receiver = 2; ssrc = 22; active = true }

abbrev pub camera : TrackReceiver
camera = record {
  track_id = "cam";
  stream_id = "s";
  kind = "video";
  layers = (low, low_layer) ∷ (high, high_layer) ∷ [];
  down_tracks = 5 ∷ 6 ∷ [];
  closed = false;
}

get_best_layer-IsBest_example : IsBest camera (get_best_layer camera)
get_best_layer-IsBest_example = get_best_layer-IsBest camera
