-- ===== src/Store.antt =====
-- The objects of pkg/sfu on an explicit store. A pointer is an address; each kind of object has a table of its
-- own, and `alloc` hands out addresses that are not in use. Effects outside the program are logged in order.
-- What the libraries (github.com/pion, github.com/gorilla/websocket) answer is the record `Env`, read anew at
-- each call of an operation.
pub mod Rooms
use choice.Base.{
  if◌then◌else◌, ◌==◌, nat_eq, string_eq, ℕ, String, Bool, Option, List, [], ◌∷◌, ◌++◌,
}
use choice.Rtp.{Packet}
use choice.Receiver.{LayerReceiver}
use choice.Track.{TrackReceiver}
use choice.DownTrack.{DownTrack, Clock}
use choice.Negotiation.{Negotiation}

pub data Result {ℓ} (A : Type ℓ) : Type ℓ where
  ok : A → Result A
  err : String → Result A

-- pkg/sfu/forwarder.go
pub record Forwarder : Type 0 where
  pub track_receiver : ℕ
  pub down_tracks : List ℕ
  pub closed : Bool

-- pkg/sfu/router.go
pub record Router : Type 0 where
  pub id : String
  pub session : ℕ
  pub tracks : List (String × ℕ)
  pub forwarders : List (String × ℕ)
  pub subscribers : List ℕ
  pub closed : Bool

-- pkg/sfu/subscriber.go; `negotiation` has the fields closed, negotiating and needsOffer.
pub record Subscriber : Type 0 where
  pub peer : ℕ
  pub pc : ℕ
  pub down_tracks : List (String × ℕ)
  pub routers : List ℕ
  pub data_channel : ℕ
  pub negotiation : Negotiation

-- pkg/sfu/publisher.go
pub record Publisher : Type 0 where
  pub peer : ℕ
  pub pc : ℕ
  pub router : ℕ
  pub tracks : List (String × ℕ)
  pub closed : Bool

-- pkg/sfu/peer.go
pub record Peer : Type 0 where
  pub id : String
  pub session : ℕ
  pub publisher : ℕ
  pub subscriber : ℕ
  pub conn : ℕ
  pub closed : Bool

-- pkg/sfu/session.go
pub record Session : Type 0 where
  pub id : String
  pub peers : List (String × ℕ)
  pub routers : List (String × ℕ)

-- rpcNotification of pkg/sfu/signaling.go, with the texts of its parameters.
pub record Notification : Type 0 where
  pub method : String
  pub params : List (String × String)

pub data Effect : Type 0 where
  pli : ℕ → ℕ → Effect  -- WriteRTCP on a connection, for a source
  rtp : ℕ → Packet → Effect  -- a packet handed to the local track of a downtrack
  notify : ℕ → Notification → Effect  -- a message on a WebSocket
  data_message : ℕ → List ℕ → Effect  -- a message on a data channel
  close_pc : ℕ → Effect
  close_conn : ℕ → Effect

pub record Store : Type 0 where
  pub receivers : ℕ → LayerReceiver
  pub tracks : ℕ → TrackReceiver
  pub down_tracks : ℕ → DownTrack
  pub forwarders : ℕ → Forwarder
  pub routers : ℕ → Router
  pub subscribers : ℕ → Subscriber
  pub publishers : ℕ → Publisher
  pub peers : ℕ → Peer
  pub session_table : ℕ → Session
  pub sessions : List (String × ℕ)  -- SFU.sessions of pkg/sfu/sfu.go
  pub next : ℕ
  pub log : List Effect

-- A table with one entry changed.
abbrev pub update {ℓ} : {A : Type ℓ} → (ℕ → A) → ℕ → A → ℕ → A
update f a v b = if a == b then v else f b

pub record Env : Type 0 where
  pub clock : ℕ → Clock  -- by downtrack
  pub transmit : ℕ → Packet → Option String  -- TrackLocalStaticRTP.WriteRTP, by downtrack
  pub new_local_track : ℕ → String → Option String  -- by subscriber and track
  pub add_track : ℕ → String → Result ℕ  -- the SSRC of the new sender, by connection and track
  pub new_peer_connection : ℕ → Result ℕ  -- by the publisher or subscriber that it is for
  pub create_data_channel : ℕ → Result ℕ
  pub create_offer : ℕ → Result String
  pub create_answer : ℕ → Result String
  pub set_local_description : ℕ → String → Option String
  pub set_remote_description : ℕ → String → Option String
  pub add_ice_candidate : ℕ → String → Option String
  pub write_message : ℕ → Option String  -- by WebSocket
  pub channel_open : ℕ → Bool  -- the ready state of a data channel
  pub send_data : ℕ → Option String
  pub close_pc_result : ℕ → Option String

abbrev pub note : Store → Effect → Store
note w e = record w { log = w.log ++ e ∷ [] }
