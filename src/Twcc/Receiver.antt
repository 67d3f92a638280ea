-- ===== src/Twcc/Receiver.antt =====
-- pkg/sfu/twcc.go: `TWCCReceiver`, the record of the packets that have arrived. Its loss rate, a float64 that is
-- never written, is left out; its callback is set and never called.
pub mod Retention
use choice.Base.{
  ltb, if◌then◌else◌, nat_eq, string_eq, length, insert, ℕ, ◌+◌, Bool, true, false, List, [], ◌∷◌,
}
use choice.Twcc.{TwccConfig, PacketInfo}

pub record TwccReceiver : Type 0 where
  pub config : TwccConfig
  pub packets : List (ℕ × PacketInfo)
  pub estimated_bitrate : ℕ
  pub rtt : ℕ
  pub has_callback : Bool  -- whether `onBitrateChange` is set
  pub closed : Bool

unfoldable pub new_twcc_receiver : TwccConfig → TwccReceiver
new_twcc_receiver config = record {
  config = config;
  packets = [];
  estimated_bitrate = config.initial_bitrate;
  rtt = 0;
  has_callback = false;
  closed = false;
}

-- 5 seconds.
abbrev pub keep_time : ℕ
keep_time = 5_000_000_000

-- `pkt.ArrivalTime.Before(threshold)`, with the clock's reading for the threshold.
abbrev pub is_old : ℕ → PacketInfo → Bool
is_old now pkt = ltb (pkt.arrival_time + keep_time) now

-- The loop that deletes from the map.
unfoldable pub drop_old : ℕ → List (ℕ × PacketInfo) → List (ℕ × PacketInfo)
drop_old now [] = []
drop_old now ((seq, pkt) ∷ packets) =
    let rest = drop_old now packets in if is_old now pkt then rest else (seq, pkt) ∷ rest

cleanup_old_packets : TwccReceiver → ℕ → TwccReceiver
unfolding drop_old
cleanup_old_packets t now = record t { packets = drop_old now t.packets }

-- `now` is the arrival time, `later` the reading for the clean-up.
unfoldable pub record_packet : TwccReceiver → ℕ → ℕ → ℕ → ℕ → TwccReceiver
unfolding cleanup_old_packets
record_packet t seq_num size now later =
    if t.closed
    then t
    else let pkt : PacketInfo = record {
      sequence_number = seq_num;
      arrival_time = now;
      size = size;
    } in
      let packets = insert seq_num pkt t.packets in
      if ltb 1000 (length packets)
      then cleanup_old_packets (record t { packets = packets }) later
      else record t { packets = packets }

abbrev pub on_bitrate_change : TwccReceiver → TwccReceiver
on_bitrate_change t = record t { has_callback = true }

abbrev pub get_rtt : TwccReceiver → ℕ
get_rtt t = t.rtt

abbrev pub get_estimated_bitrate : TwccReceiver → ℕ
get_estimated_bitrate t = t.estimated_bitrate

unfoldable pub close_receiver : TwccReceiver → TwccReceiver
close_receiver t = if t.closed then t else record t { closed = true }
