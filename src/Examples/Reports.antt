-- ===== src/Examples/Reports.antt =====
-- Packets that arrive at a transport-wide receiver and sender.
use choice.Base.{
  ltb, if◌then◌else◌, nat_eq, string_eq, length, lookup, insert, ℕ, ◌≡◌, refl, true, false, some,
  List, [], ◌∷◌, ◌++◌, map, arith,
}
use choice.Twcc.{TwccConfig, PacketInfo}
use choice.Twcc.Receiver
use choice.Twcc.Receiver.{TwccReceiver, is_old, keep_time}
use choice.Twcc.Receiver.Retention.{record_packet_retention, unless_old}
use choice.Ticker.{Round, calls, ticker_loop}
use choice.Twcc.Sender.{
  TwccSender, Feedback, recv_delta, send_feedback, record_packet, close_sender,
}
use choice.Twcc.Sender.Feedbacks.{
  Call, record_call, close_call, call, on_tick, feedback_loop, events_of, feedback_loop_lem,
  has_exit, closes,
}
use choice.Twcc.Sender.Reports.{
  Event, arrive, tick, stop, reports, end, arrivals, all_deltas, reports_conserve,
}

abbrev config : TwccConfig
config = record {
  initial_bitrate = 1_000_000;
  min_bitrate = 100_000;
  max_bitrate = 5_000_000;
  feedback_interval = 100_000_000;
}

abbrev pkt : ℕ → ℕ → PacketInfo
pkt seq time = record { sequence_number = seq; arrival_time = time; size = 1200 }

abbrev receiver : TwccReceiver
receiver = record {
  config = config;
  packets = (1, pkt 1 10) ∷ (2, pkt 2 20) ∷ [];
  estimated_bitrate = 1_000_000;
  rtt = 0;
  has_callback = false;
  closed = false;
}

record_packet_retention_example :
    let t' = Receiver.record_packet receiver 3 1200 30 31 in
    lookup 2 t'.packets ≡ (
      if ltb 1000 (length (insert 3 (pkt 3 30) receiver.packets))
      then unless_old 31 (some (pkt 2 20))
      else some (pkt 2 20))
unfolding lookup
record_packet_retention_example =
    (record_packet_retention receiver 3 1200 30 31 2 refl (omega arith)).1

abbrev sender : TwccSender
sender = record {
  config = config;
  reference_time = 5_000;
  packets = pkt 65535 8_000 ∷ [];
  feedback_count = 255;
  has_callback = true;
  closed = false;
}

abbrev events : List Event
events = arrive 0 1200 9_000 ∷ tick ∷ arrive 1 1200 12_000 ∷ stop ∷ arrive 2 1200 13_000 ∷ tick ∷ []

reports_conserve_example :
    all_deltas (reports sender events) ++ map (recv_delta 5_000) (end sender events).packets
    ≡ map (recv_delta 5_000) (pkt 65535 8_000 ∷ []) ++ map (recv_delta 5_000) (arrivals events)
reports_conserve_example = reports_conserve sender events refl refl

abbrev report : Feedback
report = record {
  base_sequence_number = 0;
  packet_status_count = 2;
  reference_time = 0;
  fb_pkt_count = 255;
  recv_deltas = 750 ∷ 1000 ∷ [];
}

-- A packet arrives and is reported, and then the sender is closed and the loop ends.
abbrev rounds : List (Round Call)
rounds =
    (record { before = record_call 0 1200 9_000 ∷ []; ticked = true })
    ∷ (record { before = close_call ∷ []; ticked = false })
    ∷ (record { before = record_call 2 1200 13_000 ∷ []; ticked = true })
    ∷ []

loop_ended : (feedback_loop sender rounds).ended ≡ true
unfolding feedback_loop ticker_loop calls call on_tick send_feedback record_packet close_sender
loop_ended = refl

feedback_loop_lem_example :
    let l = feedback_loop sender rounds in
    let delta = map (recv_delta 5_000) in
    (l.out ≡ reports sender (arrive 0 1200 9_000 ∷ tick ∷ stop ∷ arrive 2 1200 13_000 ∷ tick ∷ []))
    × (all_deltas l.out ++ delta l.state.packets
        ≡ delta (pkt 65535 8_000 ∷ []) ++ delta (pkt 0 9_000 ∷ []))
    × (l.ended ≡ true)
unfolding events_of arrivals has_exit closes
feedback_loop_lem_example = feedback_loop_lem sender rounds refl refl
