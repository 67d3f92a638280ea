-- ===== src/Receiver.antt =====
-- pkg/sfu/receiver.go: the receiver of one layer. `RemoteTrack` is what the program asks of a
-- webrtc.TrackRemote; a peer connection is an address. The deadlines that
-- ReadRTP sets, and what the track then reads, are a `Reading`.
use choice.Base.{
  if◌then◌else◌, nat_eq, string_eq, ℕ, String, ◌⊎◌, inl, Bool, true, false, Option, none, some,
}
use choice.Rtp.{Packet}

pub record RemoteTrack : Type 0 where
  pub id : String
  pub stream_id : String
  pub kind : String
  pub codec : String  -- the MIME type
  pub ssrc : ℕ
  pub rid : String

pub record LayerReceiver : Type 0 where
  pub track : RemoteTrack
  pub pc : Option ℕ
  pub codec : String
  pub layer_name : String
  pub closed : Bool

unfoldable pub new_layer_receiver : RemoteTrack → String → LayerReceiver
new_layer_receiver track layer_name = record {
  track = track;
  pc = none;
  codec = track.codec;
  layer_name = layer_name;
  closed = false;
}

unfoldable pub set_peer_connection : LayerReceiver → ℕ → LayerReceiver
set_peer_connection r pc = record r { pc = some pc }

-- The connection that a picture loss indication goes to, and the source that it names.
unfoldable pub send_pli : LayerReceiver → Option (ℕ × ℕ)
send_pli r = elim r.pc [ none ↦ none | some pc ↦ some (pc, r.track.ssrc) ]

unfoldable pub close_receiver : LayerReceiver → LayerReceiver
close_receiver r = if r.closed then r else record r { closed = true }

-- What one call of `ReadRTP` finds: the error of `SetReadDeadline`, and the error or the packet that the track
-- reads then.
pub record Reading : Type 0 where
  pub deadline : Option String
  pub read : String ⊎ Packet

-- `ReadRTP`; the channel `closeCh` is closed exactly when `closed` is set.
unfoldable pub read_packet : LayerReceiver → Reading → String ⊎ Packet
read_packet r x = if r.closed then inl "EOF" else elim x.deadline [ some e ↦ inl e | none ↦ x.read ]
