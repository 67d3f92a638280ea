-- ===== src/Twcc/Sender.antt =====
-- pkg/sfu/twcc.go: `TWCCSender`, which reports the packets recorded since its last report. `Feedback` has the
-- fields of rtcp.TransportLayerCC that the code fills in.
pub mod Reports
pub mod Feedbacks
use choice.Base.{
  ltb, if◌then◌else◌, ◌==◌, nat_eq, string_eq, length, u8, u16, u32, ℕ, ◌+◌, ◌-◌, ◌*◌, ◌/◌, Bool,
  true, false, not, ◌||◌, Option, none, some, List, [], ◌∷◌, ◌++◌, map,
}
use choice.Twcc.{TwccConfig, PacketInfo}

pub record TwccSender : Type 0 where
  pub config : TwccConfig
  pub reference_time : ℕ
  pub packets : List PacketInfo
  pub feedback_count : ℕ  -- uint8
  pub has_callback : Bool
  pub closed : Bool

pub record Feedback : Type 0 where
  pub base_sequence_number : ℕ  -- uint16
  pub packet_status_count : ℕ  -- uint16
  pub reference_time : ℕ  -- uint32
  pub fb_pkt_count : ℕ  -- uint8
  pub recv_deltas : List ℕ

unfoldable pub new_twcc_sender : TwccConfig → ℕ → TwccSender
new_twcc_sender config now = record {
  config = config;
  reference_time = now;
  packets = [];
  feedback_count = 0;
  has_callback = false;
  closed = false;
}

unfoldable pub on_feedback : TwccSender → TwccSender
on_feedback t = record t { has_callback = true }

unfoldable pub record_packet : TwccSender → ℕ → ℕ → ℕ → TwccSender
record_packet t seq_num size now = if t.closed then t else record t {
  packets =
      t.packets ++ (record { sequence_number = seq_num; arrival_time = now; size = size }) ∷ [];
}

-- The loop that finds the base sequence number.
unfoldable pub lowest : ℕ → List PacketInfo → ℕ
lowest base [] = base
lowest base (p ∷ ps) = lowest (if ltb p.sequence_number base then p.sequence_number else base) ps

-- Arrival times do not lie before the reference time.
abbrev pub recv_delta : ℕ → PacketInfo → ℕ
recv_delta reference_time p = (p.arrival_time - reference_time) / 1000 * 250

unfoldable pub build_feedback : TwccSender → List PacketInfo → Option Feedback
unfolding lowest
build_feedback t [] = none
build_feedback t (p ∷ ps) = some (record {
  base_sequence_number = lowest p.sequence_number (p ∷ ps);
  packet_status_count = u16 (length (p ∷ ps));
  reference_time = u32 (t.reference_time / 64000);
  fb_pkt_count = t.feedback_count;
  recv_deltas = map (recv_delta t.reference_time) (p ∷ ps);
})

-- The feedback is what the callback gets.
unfoldable pub send_feedback : TwccSender → TwccSender × Option Feedback
unfolding build_feedback
send_feedback t =
    if t.closed || length t.packets == 0
    then (t, none)
    else let packets = t.packets in
      let t' : TwccSender = record t { packets = []; feedback_count = u8 (t.feedback_count + 1) } in
      if not t.has_callback then (t', none) else (t', build_feedback t' packets)

unfoldable pub close_sender : TwccSender → TwccSender
close_sender t = if t.closed then t else record t { closed = true }
