-- ===== src/Twcc.antt =====
-- pkg/sfu/twcc.go: the configuration and the packet records that its parts share. A time is a number of
-- nanoseconds on one clock.
pub mod Receiver
pub mod Sender
pub mod Estimator
pub mod Congestion
use choice.Base.{nat_eq, string_eq, ℕ}

pub record TwccConfig : Type 0 where
  pub initial_bitrate : ℕ  -- uint64
  pub min_bitrate : ℕ  -- uint64
  pub max_bitrate : ℕ  -- uint64
  pub feedback_interval : ℕ

unfoldable pub default_twcc_config : TwccConfig
default_twcc_config = record {
  initial_bitrate = 1_000_000;
  min_bitrate = 100_000;
  max_bitrate = 5_000_000;
  feedback_interval = 100_000_000;
}

pub record PacketInfo : Type 0 where
  pub sequence_number : ℕ  -- uint16
  pub arrival_time : ℕ
  pub size : ℕ
