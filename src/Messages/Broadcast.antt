-- ===== src/Messages/Broadcast.antt =====
-- pkg/sfu/session.go: whom `Broadcast` and `BroadcastData` reach.
use mathlib.Core.List.{append-nil, append_assoc}
use choice.Base.{
  if◌then◌else◌, ◌==◌, ◌/=◌, nat_eq, string_eq, exclude, ℕ, String, ◌≡◌, ap, ◌∙◌, not, ◌||◌, Option,
  none, some, List, [], ◌∷◌, ◌++◌, arith,
}
use choice.Store.{Store, Env, Peer, Subscriber, Notification, Effect, notify, data_message}
use choice.Messages.{
  send_notification, send_channel_data, send_peer_data, notify_each, broadcast, data_each,
  broadcast_data,
}

-- One message for each open peer but the excluded one.
unfoldable pub notices : (ℕ → Peer) → String → Notification → List (String × ℕ) → List Effect
notices table exclude n [] = []
notices table exclude n ((id, p) ∷ peers) =
    let rest = notices table exclude n peers in
    if id == exclude || (table p).closed then rest else notify (table p).conn n ∷ rest

-- The channel that a peer has open, if the peer and its subscriber are open.
unfoldable pub channel : Env → (ℕ → Peer) → (ℕ → Subscriber) → ℕ → Option ℕ
channel env peers subscribers p =
    let sub = subscribers (peers p).subscriber in
    if (peers p).closed || sub.negotiation.closed || not (env.channel_open sub.data_channel)
    then none
    else some sub.data_channel

unfoldable pub sent_on : Option ℕ → List ℕ → List Effect
sent_on none message = []
sent_on (some c) message = data_message c message ∷ []

-- One message for each peer but the sender that has a channel open.
unfoldable pub data_notices :
    Env → (ℕ → Peer) → (ℕ → Subscriber) → String → List ℕ → List (String × ℕ) → List Effect
unfolding channel sent_on
data_notices env table subscribers sender message [] = []
data_notices env table subscribers sender message ((id, p) ∷ peers) =
    let rest = data_notices env table subscribers sender message peers in
    if id == sender then rest else sent_on (channel env table subscribers p) message ++ rest

abbrev pub logged : Store → List Effect → Store
logged w effects = record w { log = w.log ++ effects }

module _ (env : Env) (exclude method : String) (params : List (String × String)) where
  abbrev body : Notification
  body = record { method = method; params = params }

  notify_one :
      (w : Store) (id : String) (p : ℕ)
      → (if id /= exclude then (send_notification env w p method params).0 else w)
        ≡ logged w (notices w.peers exclude body ((id, p) ∷ []))
  unfolding send_notification notices
  notify_one w id p = ground (arith, append-nil w.log)

  notices-cons :
      (table : ℕ → Peer) (id : String) (p : ℕ) (peers : List (String × ℕ))
      → notices table exclude body ((id, p) ∷ peers)
        ≡ notices table exclude body ((id, p) ∷ []) ++ notices table exclude body peers
  unfolding notices
  notices-cons table id p peers = ground arith

  notify_each-logged :
      (w : Store) (peers : List (String × ℕ))
      → notify_each env w exclude method params peers
        ≡ logged w (notices w.peers exclude body peers)
  unfolding notify_each
  notify_each-logged w [] = unfold notices in ground (arith, append-nil w.log)
  notify_each-logged w ((id, p) ∷ peers) =
      let first = notices w.peers exclude body ((id, p) ∷ []) in
      rw (notify_one w id p) (
        notify_each-logged (logged w first) peers
        ∙ rw (notices-cons w.peers id p peers)
            (ap (λ l. record w { log = l }) (append_assoc w.log first _)))

-- A broadcast sends each open peer of the session one message, but the excluded peer none, in the order in
-- which the map is visited and whatever the writes return; it changes nothing else.
pub broadcast_reaches :
    (env : Env) (w : Store) (s : ℕ) (exclude method : String) (params : List (String × String))
    → broadcast env w s exclude method params
      ≡ logged w (
          notices w.peers exclude
            (record { method = method; params = params })
            (w.session_table s).peers)
unfolding broadcast
broadcast_reaches env w s exclude method params =
    notify_each-logged env exclude method params w (w.session_table s).peers

module _ (env : Env) (sender : String) (message : List ℕ) where
  data_one :
      (w : Store) (id : String) (p : ℕ)
      → (if id /= sender then (send_peer_data env w p message).0 else w)
        ≡ logged w (data_notices env w.peers w.subscribers sender message ((id, p) ∷ []))
  unfolding send_peer_data send_channel_data data_notices
  data_one w id p = ground (arith, append-nil w.log)

  data_notices-cons :
      (table : ℕ → Peer) (subs : ℕ → Subscriber) (id : String) (p : ℕ) (peers : List (String × ℕ))
      → data_notices env table subs sender message ((id, p) ∷ peers)
        ≡ data_notices env table subs sender message ((id, p) ∷ [])
          ++ data_notices env table subs sender message peers
  unfolding data_notices
  data_notices-cons table subs id p peers = ground arith

  data_each-logged :
      (w : Store) (peers : List (String × ℕ))
      → data_each env w sender message peers
        ≡ logged w (data_notices env w.peers w.subscribers sender message peers)
  unfolding data_each
  data_each-logged w [] = unfold data_notices in ground (arith, append-nil w.log)
  data_each-logged w ((id, p) ∷ peers) =
      let first = data_notices env w.peers w.subscribers sender message ((id, p) ∷ []) in
      rw (data_one w id p) (
        data_each-logged (logged w first) peers
        ∙ rw (data_notices-cons w.peers w.subscribers id p peers)
            (ap (λ l. record w { log = l }) (append_assoc w.log first _)))

-- A broadcast of data sends one message on the data channel of each open peer of the session but the
-- sender, if that peer's subscriber is open and the channel ready; it changes nothing else.
pub broadcast_data_reaches :
    (env : Env) (w : Store) (s : ℕ) (sender : String) (message : List ℕ)
    → broadcast_data env w s sender message
      ≡ logged w (data_notices env w.peers w.subscribers sender message (w.session_table s).peers)
unfolding broadcast_data
broadcast_data_reaches env w s sender message =
    data_each-logged env sender message w (w.session_table s).peers
