-- ===== src/Lib.antt =====
-- choice: a selective forwarding unit for WebRTC (pkg/sfu). A client joins a session over a WebSocket; it is
-- a peer with a publisher (upstream connection) and a subscriber (downstream connection). The publisher's
-- tracks, each with up to three quality layers, go to its router; the router has a forwarder for each track,
-- which copies a packet to the downtracks of the subscribers; a downtrack chooses the layer that it sends
-- and renumbers the packets, so that the subscriber sees one stream.
--
-- Files, and the code that they model:
-- - Base: shared names; tests and maps (a Go map is a list of entries with one entry for a key), machine
--   words (`u16`, `sub16` and the like write the wrap-around out), the signed integers.
-- - Layer: pkg/sfu/layer.go. Receiver: pkg/sfu/receiver.go. Track: pkg/sfu/track.go.
-- - Rtp: pkg/sfu/rtp.go. Sequencer is `RTPSequencer`, Keyframe is `IsKeyframe`; the children are about the continuity
--   of the stream, what reordering does, and what the tests read of the payload.
-- - Selector and Bandwidth: the types `LayerSelector` and `BandwidthController` of pkg/sfu/bandwidth.go.
-- - Twcc: pkg/sfu/twcc.go, one child for each type. Floating point is a parameter.
-- - Ticker: `feedbackLoop` of pkg/sfu/twcc.go and `allocationLoop` of pkg/sfu/bandwidth.go, which Twcc/Sender/Feedbacks and
--   Bandwidth/Allocating are about.
-- - DownTrack: the methods of `DownTrack` (pkg/sfu/downtrack.go) that touch one downtrack: Switching is one
--   packet, Stream is any sequence of events, Race is `tryLayerSwitch` with the target set in between.
-- - Negotiation: the negotiation state of pkg/sfu/subscriber.go; System is every interleaving of the goroutines of
--   one subscriber, as a step relation, in which a change of the tracks and the call of `Negotiate` are separate steps;
--   Settling is how they come to an end, over the runs of Runs and the steps at hand of Progress.
-- - Store: the objects of pkg/sfu by address, the log of effects, and `Env`, what the libraries answer. Rooms says what
--   an operation leaves alone in the peers, the sessions and the streams.
-- - Forwarder: pkg/sfu/forwarder.go, and the methods of downtracks and tracks that reach other objects.
-- - Messages: what is sent to clients (pkg/sfu/peer.go, pkg/sfu/subscriber.go, pkg/sfu/session.go). Unordered is about
--   broadcasts in any order of the map of peers, which Tallies takes as a quotient of lists.
-- - Transport: `WriteMessage` of pkg/sfu/transport.go, by goroutines that run in any order; Mutex is the invariant, Serial
--   what follows for the network.
-- - Subscriber: pkg/sfu/subscriber.go. Router: pkg/sfu/router.go; Concurrent is `AddTrack` and `Subscribe` in two
--   goroutines. Publisher: pkg/sfu/publisher.go.
-- - Peers: pkg/sfu/peer.go, and the making and closing of subscribers. Sessions: pkg/sfu/session.go and the sessions of
--   pkg/sfu/sfu.go. Rpc and Signaling: the types
--   and the handlers of pkg/sfu/signaling.go.
-- - Roster: who is in which session, by id, as an abstract state with its changes; its children are about what each
--   operation and each request does to it.
-- - Server: the messages, packets and callbacks that reach the objects, as events in any order: `HandleWebSocket`, `run`,
--   `onTrack`, `readRTP`, the callbacks of the connections. Rooms is the state of the sessions over all events, and
--   Continuity the stream of one downtrack.
-- - Examples: the theorems at concrete inputs.
--
-- A method that runs under a lock is one step. Where methods of several objects are composed, as in Forwarder,
-- Router, Peers, Sessions, Signaling and Server, a model is one run without other goroutines in between, and a goroutine
-- that the code starts is run at once (Negotiation, Transport, Router.Concurrent and DownTrack.Race
-- are about interleavings). The order in which
-- a Go map is visited is that of the list, which is arbitrary. A length of time is in nanoseconds, and readings
-- of the clock are arguments. There is no fuel: every loop is over a list.
--
-- Not modelled: the libraries (github.com/pion, github.com/gorilla/websocket, encoding/json), which are the parameters
-- `Env`, `Decode` and the floats of Twcc; logging; `ReadMessage` and `Close` of
-- pkg/sfu/transport.go and all of cmd/server/main.go, which only call libraries.
mod Base
pub mod Twcc
pub mod Layer
pub mod Ticker
pub mod Transport
pub mod Rtp
pub mod Selector
pub mod Bandwidth
pub mod Receiver
pub mod Track
pub mod DownTrack
pub mod Negotiation
pub mod Store
pub mod Forwarder
pub mod Messages
pub mod Subscriber
pub mod Router
pub mod Publisher
pub mod Peers
pub mod Sessions
pub mod Rpc
pub mod Signaling
pub mod Roster
pub mod Server
mod Examples
