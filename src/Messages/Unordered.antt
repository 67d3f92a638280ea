-- ===== src/Messages/Unordered.antt =====
-- pkg/sfu/session.go: the broadcasts go over a Go map, which visits its entries in any order. The peers of a
-- session are here an unordered collection.
use mathlib.Core.List.{append-nil}
use mathlib.Core.Quot
use choice.Base.{
  if◌then◌else◌, ◌==◌, nat_eq, string_eq, ℕ, String, ◌≡◌, refl, sym, ap, ◌∙◌, subst, Bool, true,
  false, ◌||◌, Option, none, some, List, [], ◌∷◌, ◌++◌, arith,
}
use choice.Store.{Store, Env, Peer, Subscriber, Notification, Effect, notify}
use choice.Messages.{broadcast, broadcast_data}
use choice.Messages.Broadcast.{
  notices, logged, channel, sent_on, data_notices, broadcast_reaches, broadcast_data_reaches,
}
use choice.Messages.Tallies.{
  Peers, count, sum_over, reached, is_on, data_reached, each, message_on, data_on, no_message,
  no_data, times, each-append, times-add,
}

messages-notice :
    (c : ℕ) (out : Bool) (conn : ℕ) (n : Notification) (rest : List Effect)
    → each (message_on c) (if out then rest else notify conn n ∷ rest)
      ≡ times (if out then 0 else if conn == c then 1 else 0) n ++ each (message_on c) rest
unfolding each
messages-notice c true conn n rest = refl
messages-notice c false conn n rest = ground arith

messages-notices :
    (table : ℕ → Peer) (left_out : String) (n : Notification) (c : ℕ) (peers : List (String × ℕ))
    → each (message_on c) (notices table left_out n peers)
      ≡ times (count (reached table left_out c) peers) n
unfolding notices count
messages-notices table left_out n c [] = unfold each in refl
messages-notices table left_out n c ((id, p) ∷ peers) =
    let rest = notices table left_out n peers in
    let k = reached table left_out c (id, p) in
    messages-notice c (id == left_out || (table p).closed) (table p).conn n rest
    ∙ ap (λ l. times k n ++ l) (messages-notices table left_out n c peers)
    ∙ sym (times-add k (count (reached table left_out c) peers) n)

no_message-notice :
    (out : Bool) (conn : ℕ) (n : Notification) (rest : List Effect)
    → each no_message (if out then rest else notify conn n ∷ rest) ≡ each no_message rest
unfolding each
no_message-notice true conn n rest = refl
no_message-notice false conn n rest = refl

no_message-notices :
    (table : ℕ → Peer) (left_out : String) (n : Notification) (peers : List (String × ℕ))
    → each no_message (notices table left_out n peers) ≡ []
unfolding notices
no_message-notices table left_out n [] = unfold each in refl
no_message-notices table left_out n ((id, p) ∷ peers) =
    no_message-notice (id == left_out || (table p).closed) (table p).conn n
      (notices table left_out n peers)
    ∙ no_message-notices table left_out n peers

data-sent_on :
    (c : ℕ) (o : Option ℕ) (content : List ℕ)
    → each (data_on c) (sent_on o content) ≡ times (is_on c o) content
unfolding each sent_on
data-sent_on c none content = refl
data-sent_on c (some d) content = ground arith

no_data-sent_on : (o : Option ℕ) (content : List ℕ) → each no_data (sent_on o content) ≡ []
unfolding each sent_on
no_data-sent_on none content = refl
no_data-sent_on (some d) content = refl

data-data_notices :
    (env : Env) (table : ℕ → Peer) (subs : ℕ → Subscriber) (sender : String) (content : List ℕ)
    (c : ℕ) (peers : List (String × ℕ))
    → each (data_on c) (data_notices env table subs sender content peers)
      ≡ times (count (data_reached env table subs sender c) peers) content
unfolding data_notices count
data-data_notices env table subs sender content c [] = unfold each in refl
data-data_notices env table subs sender content c ((id, p) ∷ peers) =
    let o = channel env table subs p in
    let rest = data_notices env table subs sender content peers in
    let n = count (data_reached env table subs sender c) peers in
    let tail = data-data_notices env table subs sender content c peers in
    let first =
      each-append (data_on c) (sent_on o content) rest
      ∙ ap (λ l. l ++ each (data_on c) rest) (data-sent_on c o content)
      ∙ ap (λ l. times (is_on c o) content ++ l) tail
      ∙ sym (times-add (is_on c o) n content) in
    ground (arith, first, tail)

no_data-data_notices :
    (env : Env) (table : ℕ → Peer) (subs : ℕ → Subscriber) (sender : String) (content : List ℕ)
    (peers : List (String × ℕ))
    → each no_data (data_notices env table subs sender content peers) ≡ []
unfolding data_notices
no_data-data_notices env table subs sender content [] = unfold each in refl
no_data-data_notices env table subs sender content ((id, p) ∷ peers) =
    let o = channel env table subs p in
    let rest = data_notices env table subs sender content peers in
    let tail = no_data-data_notices env table subs sender content peers in
    let first =
      each-append no_data (sent_on o content) rest
      ∙ ap (λ l. l ++ each no_data rest) (no_data-sent_on o content) in
    ground (arith, first, tail)

-- What a broadcast of `content` over the peers `all` leaves behind: each receiver (`on` reads its messages from
-- an effect) gets it as often as the entries reach it, and what `rest` reads stays.
pub record Spreads {ℓ} {A : Type ℓ} (w w' : Store) (on : ℕ → Effect → List A)
    (rest : Effect → List Effect) (hits : ℕ → String × ℕ → ℕ) (content : A) (all : Peers)
    : Type ℓ where
  pub store : w' ≡ record w { log = w'.log }
  pub messages :
      (c : ℕ) → each (on c) w'.log ≡ each (on c) w.log ++ times (sum_over (hits c) all) content
  pub others : each rest w'.log ≡ each rest w.log

logged-Spreads {ℓ} :
    {A : Type ℓ} (w : Store) (added : List Effect) (on : ℕ → Effect → List A)
    (rest : Effect → List Effect) (hits : ℕ → String × ℕ → ℕ) (content : A)
    (peers : List (String × ℕ)) (all : Peers)
    → ((c : ℕ) → each (on c) added ≡ times (count (hits c) peers) content)
    → each rest added ≡ []
    → Quot.mk peers ≡ all
    → Spreads w (logged w added) on rest hits content all
unfolding sum_over
logged-Spreads w added on rest hits content peers all m r e = record {
  store = refl;
  messages = λ c.
      each-append (on c) w.log added
      ∙ ap (λ l. each (on c) w.log ++ l) (m c ∙ ap (λ q. times (sum_over (hits c) q) content) e);
  others =
      each-append rest w.log added
      ∙ ap (λ l. each rest w.log ++ l) r
      ∙ append-nil (each rest w.log);
}

-- In whatever order `Broadcast` goes over the map of the session's peers, each WebSocket gets the message once
-- for each open peer that it serves, the excluded peer apart, and nothing else happens.
pub broadcast_unordered :
    (env : Env) (w : Store) (s : ℕ) (left_out method : String) (params : List (String × String))
    (all : Peers)
    → Quot.mk (w.session_table s).peers ≡ all
    → Spreads w
        (broadcast env w s left_out method params)
        message_on
        no_message
        (reached w.peers left_out)
        (record { method = method; params = params })
        all
broadcast_unordered env w s left_out method params all e =
    let n : Notification = record { method = method; params = params } in
    let peers = (w.session_table s).peers in
    let hits = reached w.peers left_out in
    subst (λ w'. Spreads w w' message_on no_message hits n all)
      (sym (broadcast_reaches env w s left_out method params))
      (logged-Spreads w (notices w.peers left_out n peers) message_on no_message hits n peers all
        (λ c. messages-notices w.peers left_out n c peers)
        (no_message-notices w.peers left_out n peers) e)

-- In whatever order `BroadcastData` goes over the map of the session's peers, each data channel gets the content
-- once for each open peer of which the open subscriber has it, ready, the sender apart, and nothing else happens.
pub broadcast_data_unordered :
    (env : Env) (w : Store) (s : ℕ) (sender : String) (content : List ℕ) (all : Peers)
    → Quot.mk (w.session_table s).peers ≡ all
    → Spreads w
        (broadcast_data env w s sender content)
        data_on
        no_data
        (data_reached env w.peers w.subscribers sender)
        content
        all
broadcast_data_unordered env w s sender content all e =
    let peers = (w.session_table s).peers in
    let hits = data_reached env w.peers w.subscribers sender in
    subst (λ w'. Spreads w w' data_on no_data hits content all)
      (sym (broadcast_data_reaches env w s sender content))
      (logged-Spreads w (data_notices env w.peers w.subscribers sender content peers) data_on
        no_data hits content peers all
        (λ c. data-data_notices env w.peers w.subscribers sender content c peers)
        (no_data-data_notices env w.peers w.subscribers sender content peers) e)
