-- ===== src/Messages.antt =====
-- What reaches the clients: `Peer.SendNotification`, `SendOffer`, `SendCandidate` and `SendData` of
-- pkg/sfu/peer.go, `Subscriber.SendData` of pkg/sfu/subscriber.go, and the broadcasts of
-- pkg/sfu/session.go. Marshalling a notification does not fail, and the write on the WebSocket is logged
-- whether or not it returns an error.
pub mod Broadcast
pub mod Tallies
pub mod Unordered
use choice.Base.{
  if◌then◌else◌, ◌/=◌, nat_eq, string_eq, exclude, ℕ, String, not, Option, none, some, List, [],
  ◌∷◌,
}
use choice.Negotiation.{Negotiation}
use choice.Store.{
  Store, Env, Peer, Subscriber, Session, Notification, Effect, notify, data_message, note,
}

unfoldable pub send_notification :
    Env → Store → ℕ → String → List (String × String) → Store × Option String
send_notification env w p method params =
    let peer = w.peers p in
    if peer.closed then (w, none) else (
      note w (notify peer.conn (record { method = method; params = params })),
      env.write_message peer.conn,
    )

unfoldable pub send_offer : Env → Store → ℕ → String → Store × Option String
send_offer env w p offer = send_notification env w p "offer" (("offer", offer) ∷ [])

-- There is no candidate at the end of the gathering.
unfoldable pub send_candidate : Env → Store → ℕ → Option String → String → Store × Option String
send_candidate env w p none target = (w, none)
send_candidate env w p (some candidate) target =
    send_notification env w p "candidate" (("candidate", candidate) ∷ ("target", target) ∷ [])

-- `Subscriber.SendData`
unfoldable pub send_channel_data : Env → Store → ℕ → List ℕ → Store × Option String
send_channel_data env w s message =
    let sub = w.subscribers s in
    if sub.negotiation.closed
    then (w, none)
    else if not (env.channel_open sub.data_channel)
    then (w, none)
    else (note w (data_message sub.data_channel message), env.send_data sub.data_channel)

-- `Peer.SendData`
unfoldable pub send_peer_data : Env → Store → ℕ → List ℕ → Store × Option String
unfolding send_channel_data
send_peer_data env w p message =
    let peer = w.peers p in
    if peer.closed then (w, none) else send_channel_data env w peer.subscriber message

-- The loops of the broadcasts over the peers of a session; errors are logged and passed over.
unfoldable pub notify_each :
    Env → Store → String → String → List (String × String) → List (String × ℕ) → Store
notify_each env w exclude method params [] = w
notify_each env w exclude method params ((id, p) ∷ peers) =
    let w' = if id /= exclude then (send_notification env w p method params).0 else w in
    notify_each env w' exclude method params peers

unfoldable pub broadcast : Env → Store → ℕ → String → String → List (String × String) → Store
broadcast env w s exclude method params =
    notify_each env w exclude method params (w.session_table s).peers

unfoldable pub data_each : Env → Store → String → List ℕ → List (String × ℕ) → Store
data_each env w sender message [] = w
data_each env w sender message ((id, p) ∷ peers) =
    let w' = if id /= sender then (send_peer_data env w p message).0 else w in
    data_each env w' sender message peers

unfoldable pub broadcast_data : Env → Store → ℕ → String → List ℕ → Store
broadcast_data env w s sender message = data_each env w sender message (w.session_table s).peers
