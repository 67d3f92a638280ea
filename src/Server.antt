-- ===== src/Server.antt =====
-- The whole server: the messages and callbacks that reach the objects of pkg/sfu, in any order. Each is one step;
-- it gets what the libraries answer while it runs.
pub mod Streams
pub mod Writing
pub mod Forwarding
pub mod Callbacks
pub mod Feeding
pub mod Rooms
pub mod Continuity
use choice.Base.{nat_eq, string_eq, ℕ, String, Option, none, some, List, [], ◌∷◌}
use choice.Rtp.{Packet}
use choice.Receiver.{RemoteTrack, Reading}
use choice.Rpc.{Decode}
use choice.Store.{Store, Env, Effect, Result, ok, err, close_conn, note}
use choice.Forwarder.{request_initial_keyframe}
use choice.Publisher.{
  ConnectionState, on_track, read_rtp, on_publisher_state, on_publisher_candidate, on_data_message,
}
use choice.Peers.{on_subscriber_state, on_subscriber_candidate}
use choice.Signaling.{handle_message, run_handler}
use choice.Rpc.{Outcome}

-- `NewSFU`, among the objects that exist; none if the codecs cannot be registered, when it panics.
unfoldable pub new_sfu : Option String → Store → Option Store
new_sfu (some error) w = none
new_sfu none w = some (record w { sessions = [] })

pub data Event : Type 0 where
  message : ℕ → Decode → String → Event  -- a message that `run` reads from a WebSocket
  hang_up : ℕ → Event  -- the end of `HandleWebSocket`
  track : ℕ → RemoteTrack → Event  -- OnTrack of a publisher
  reading : ℕ → ℕ → String → ℕ → Reading → Event  -- a round of `readRTP`: router, receiver, layer, track
  keyframe_due : ℕ → Event  -- a delay of `requestInitialKeyframe` is over
  data_message : ℕ → List ℕ → Event  -- OnMessage of a publisher's data channel
  publisher_candidate : ℕ → Option String → Event
  subscriber_candidate : ℕ → Option String → Event
  publisher_state : ℕ → ConnectionState → Event
  subscriber_state : ℕ → ConnectionState → Event

unfoldable pub serve : Env → Store → Event → Store
serve env w (message conn decode text) = (handle_message env decode conn w text).0
serve env w (hang_up conn) = note w (close_conn conn)
serve env w (track p remote) = on_track env w p remote
serve env w (reading r receiver layer_name t x) =
    (read_rtp r receiver layer_name t w ((env, x) ∷ [])).0
serve env w (keyframe_due dt) = request_initial_keyframe w dt
serve env w (data_message p content) = on_data_message env w p content
serve env w (publisher_candidate p candidate) = on_publisher_candidate env w p candidate
serve env w (subscriber_candidate s candidate) = on_subscriber_candidate env w s candidate
serve env w (publisher_state p state) = on_publisher_state env w p state
serve env w (subscriber_state s state) = on_subscriber_state env w s state

unfoldable pub serve_all : Store → List (Env × Event) → Store
unfolding serve
serve_all w [] = w
serve_all w ((env, e) ∷ es) = serve_all (serve env w e) es

-- `HandleWebSocket` on its own: the upgrade, the loop of `run`, and the deferred closing.
unfoldable pub handle_web_socket :
    Decode → Store → Result ℕ → List (Env × String) → Store × List (Option String × Outcome)
handle_web_socket decode w (err e) messages = (w, [])
handle_web_socket decode w (ok conn) messages =
    let (w', responses) = run_handler decode conn w messages in
    (note w' (close_conn conn), responses)
