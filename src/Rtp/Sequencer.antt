-- ===== src/Rtp/Sequencer.antt =====
-- pkg/sfu/rtp.go: `rtpSequencer`, which makes one stream of the packets of several layers.
pub mod Continuity
pub mod Reordering
use choice.Base.{
  if◌then◌else◌, ◌/=◌, nat_eq, string_eq, u16, u32, sub16, sub32, ℕ, ◌+◌, Bool, true, false, not,
  List,
}

pub record Packet : Type 0 where
  pub sequence_number : ℕ  -- uint16
  pub timestamp : ℕ  -- uint32
  pub ssrc : ℕ  -- uint32
  pub payload : List ℕ
  pub rest : List ℕ

pub record RtpSequencer : Type 0 where
  pub last_seq : ℕ  -- uint16
  pub seq_offset : ℕ  -- uint16
  pub last_ts : ℕ  -- uint32
  pub ts_offset : ℕ  -- uint32
  pub last_ssrc : ℕ  -- uint32
  pub inited : Bool

unfoldable pub new_rtp_sequencer : RtpSequencer
new_rtp_sequencer = record {
  last_seq = 0;
  seq_offset = 0;
  last_ts = 0;
  ts_offset = 0;
  last_ssrc = 0;
  inited = false;
}

-- The first packet sets the starting point.
init_step : RtpSequencer → Packet → ℕ → RtpSequencer
init_step s packet ssrc =
    if not s.inited
    then record s {
      last_seq = packet.sequence_number;
      last_ts = packet.timestamp;
      last_ssrc = ssrc;
      inited = true;
    }
    else s

-- A packet of another source restarts the numbering one above the last packet sent.
switch_step : RtpSequencer → Packet → RtpSequencer
switch_step s packet =
    if packet.ssrc /= s.last_ssrc
    then record s {
      seq_offset = u16 (sub16 s.last_seq packet.sequence_number + 1);
      ts_offset = u32 (sub32 s.last_ts packet.timestamp + 1);
      last_ssrc = packet.ssrc;
    }
    else s

-- The two tests at the head of `Rewrite`.
unfoldable pub settle : RtpSequencer → Packet → ℕ → RtpSequencer
unfolding init_step switch_step
settle s packet ssrc = switch_step (init_step s packet ssrc) packet

unfoldable pub rewrite : RtpSequencer → Packet → ℕ → RtpSequencer × Packet
rewrite s packet ssrc =
    let t = settle s packet ssrc in
    let seq = u16 (packet.sequence_number + t.seq_offset) in
    let ts = u32 (packet.timestamp + t.ts_offset) in
    (
      record t { last_seq = seq; last_ts = ts },
      record packet { sequence_number = seq; timestamp = ts; ssrc = ssrc },
    )
