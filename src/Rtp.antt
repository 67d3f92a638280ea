-- ===== src/Rtp.antt =====
-- pkg/sfu/rtp.go: the part of an RTP packet that the program reads or writes, and the test for a keyframe.
-- A packet is the record of github.com/pion/rtp; `rest` stands for the header fields that are only copied.
pub mod Sequencer
pub mod Keyframe
pub use Sequencer.{Packet, RtpSequencer}
unfoldable pub use Sequencer.{new_rtp_sequencer, rewrite, settle}
unfoldable pub use Keyframe.{is_keyframe}
