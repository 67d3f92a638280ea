-- ===== src/Examples/World.antt =====
-- A room with a publisher "ann", whose camera has two layers, and a subscriber "bob".
use choice.Base.{if◌then◌else◌, ◌==◌, nat_eq, string_eq, ◌+◌, true, false, none, some, [], ◌∷◌}
use choice.Layer.{Layer, low}
use choice.Selector.{LayerSelector}
use choice.Receiver.{RemoteTrack, LayerReceiver}
use choice.Track.{TrackReceiver}
use choice.DownTrack.{DownTrack, Clock}
use choice.Negotiation.{Negotiation}
use choice.Store.{Store, Env, ok, Subscriber, Session}

abbrev pub clock : Clock
clock = record { check = 1; recheck = 2; stamp = 3; force = 4 }

-- Libraries that grant everything.
abbrev pub granting : Env
granting = record {
  clock = λ _. clock;
  transmit = λ _ _. none;
  new_local_track = λ _ _. none;
  add_track = λ _ _. ok 77;
  new_peer_connection = λ a. ok (100 + a);
  create_data_channel = λ a. ok (200 + a);
  create_offer = λ _. ok "offer";
  create_answer = λ _. ok "answer";
  set_local_description = λ _ _. none;
  set_remote_description = λ _ _. none;
  add_ice_candidate = λ _ _. none;
  write_message = λ _. none;
  channel_open = λ _. true;
  send_data = λ _. none;
  close_pc_result = λ _. none;
}

-- Libraries that take no remote description.
abbrev pub refusing : Env
refusing = record granting { set_remote_description = λ _ _. some "bad sdp" }

abbrev pub camera : RemoteTrack
camera = record {
  id = "cam";
  stream_id = "s";
  kind = "video";
  codec = "video/VP8";
  ssrc = 11;
  rid = low;
}

abbrev pub receiver : LayerReceiver
receiver = record {
  track = camera;
  pc = some 90;
  codec = "video/VP8";
  layer_name = low;
  closed = false;
}

abbrev pub low_layer : Layer
low_layer = record { name = low; receiver = 1; ssrc = 11; active = true }

abbrev pub track : TrackReceiver
track = record {
  track_id = "cam";
  stream_id = "s";
  kind = "video";
  layers = (low, low_layer) ∷ [];
  down_tracks = 4 ∷ [];
  closed = false;
}

abbrev pub selector : LayerSelector
selector = record {
  track_id = "cam";
  current_layer = low;
  target_layer = low;
  pending_switch = false;
  last_switch_time = 0;
  has_callback = false;
  switch_cooldown = 2_000_000_000;
}

abbrev pub down_track : DownTrack
down_track = record {
  subscriber = 2;
  track_receiver = 1;
  sender_ssrc = 99;
  sequencer = record {
    last_seq = 10;
    seq_offset = 1;
    last_ts = 100;
    ts_offset = 1;
    last_ssrc = 11;
    inited = true;
  };
  selector = selector;
  codec = "video/VP8";
  closed = false;
}

abbrev pub idle : Negotiation
idle = record { closed = false; negotiating = false; needs_offer = false }

abbrev pub bob : Subscriber
bob = record {
  peer = 7;
  pc = 91;
  down_tracks = ("cam", 4) ∷ [];
  routers = 5 ∷ [];
  data_channel = 92;
  negotiation = idle;
}

abbrev pub room : Session
room = record { id = "room"; peers = ("ann", 6) ∷ ("bob", 7) ∷ []; routers = ("ann", 5) ∷ [] }

-- The addresses below 20 are in use.
abbrev pub world : Store
world = record {
  receivers = λ _. receiver;
  tracks = λ _. track;
  down_tracks = λ _. down_track;
  forwarders = λ _. record { track_receiver = 1; down_tracks = 4 ∷ 3 ∷ []; closed = false };
  routers = λ _. record {
    id = "ann";
    session = 8;
    tracks = ("cam", 1) ∷ [];
    forwarders = ("cam", 3) ∷ [];
    subscribers = 2 ∷ [];
    closed = false;
  };
  subscribers = λ _. bob;
  publishers =
      λ _. record { peer = 6; pc = 90; router = 5; tracks = ("cam", 1) ∷ []; closed = false };
  peers = λ p. record {
    id = if p == 6 then "ann" else "bob";
    session = 8;
    publisher = 9;
    subscriber = 2;
    conn = p;
    closed = false;
  };
  session_table = λ _. room;
  sessions = ("room", 8) ∷ [];
  next = 20;
  log = [];
}
