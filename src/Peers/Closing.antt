-- ===== src/Peers/Closing.antt =====
-- pkg/sfu/peer.go and pkg/sfu/subscriber.go: what closing reaches, and what it leaves alone.
use choice.Base.{
  nat_eq, string_eq, beq_self, beq→eq, Bool-cases, ℕ, ◌≤◌, String, ◌≡◌, refl, ap, ◌∙◌, ◌≢◌, inl,
  inr, true, false, List, [], ◌∷◌, arith,
}
use choice.Layer.{Layer}
use choice.Receiver.{close_receiver}
use choice.DownTrack.{close_down_track}
use choice.Store.{Store, Env, Subscriber, close_pc, close_conn, update}
use choice.Store.Rooms.{
  Quiet, Quiet-trans, Quiet-refl, either-Quiet, set_forwarder-Quiet, keeps_then, note-Quiet,
  packet_to, Silent, Silent-refl,
}
use choice.Forwarder.{close_dt, close_each, close_layers, close_track, close_forwarder}
use choice.Router.{unsubscribe, close_tracks, close_forwarders, close_router}
use choice.Publisher.{close_publisher}
use choice.Negotiation.{close_negotiation}
use choice.Peers.{values, unsubscribe_each, close_subscriber, close_peer}

close_dt-Quiet : (w : Store) (dt : ℕ) → Quiet w (close_dt w dt)
unfolding close_dt close_down_track
close_dt-Quiet w dt = record {
  session_table = ground arith;
  sessions = ground arith;
  peers = ground arith;
  next = ground arith;
  silent = (
    λ k l. (
      ground (arith, beq→eq dt k, ap (λ x. (w.down_tracks x).sequencer) {x = dt} {y = k}),
      ground (arith, beq→eq dt k, ap (λ x. (w.down_tracks x).sender_ssrc) {x = dt} {y = k}),
      ground arith,
    ),
    λ h. ground (arith, h),
  );
}

close_each-Quiet : (w : Store) (dts : List ℕ) → Quiet w (close_each w dts)
unfolding close_each
close_each-Quiet w [] = Quiet-refl w
close_each-Quiet w (dt ∷ dts) =
    let w' = close_dt w dt in Quiet-trans (close_dt-Quiet w dt) (close_each-Quiet w' dts)

close_layers-Quiet : (w : Store) (layers : List (String × Layer)) → Quiet w (close_layers w layers)
unfolding close_layers
close_layers-Quiet w [] = Quiet-refl w
close_layers-Quiet w ((name, layer) ∷ layers) =
    let r = layer.receiver in
    let w' : Store = record w {
      receivers = update w.receivers r (close_receiver (w.receivers r));
    } in
    let s = close_layers-Quiet w' layers in keeps_then s refl refl refl refl refl refl refl

close_track-Quiet : (w : Store) (t : ℕ) → Quiet w (close_track w t)
unfolding close_track
close_track-Quiet w t = elim (Bool-cases (w.tracks t).closed) [
  | inl c ↦ rw c (Quiet-refl w)
  | inr o ↦ rw o (
      let s = close_layers-Quiet _ (w.tracks t).layers in
      keeps_then s refl refl refl refl refl refl refl)
]

close_tracks-Quiet : (w : Store) (tracks : List (String × ℕ)) → Quiet w (close_tracks w tracks)
unfolding close_tracks
close_tracks-Quiet w [] = Quiet-refl w
close_tracks-Quiet w ((id, t) ∷ tracks) =
    let w' = close_track w t in Quiet-trans (close_track-Quiet w t) (close_tracks-Quiet w' tracks)

close_forwarder-Quiet : (w : Store) (f : ℕ) → Quiet w (close_forwarder w f)
unfolding close_forwarder
close_forwarder-Quiet w f =
    let fwd = w.forwarders f in
    let w₁ : Store = record w {
      forwarders = update w.forwarders f (record fwd { closed = true });
    } in
    either-Quiet fwd.closed (Quiet-refl w) (
      Quiet-trans (set_forwarder-Quiet w f (record fwd { closed = true }) (λ h. h))
        (close_each-Quiet w₁ fwd.down_tracks))

close_forwarders-Quiet : (w : Store) (fwds : List (String × ℕ)) → Quiet w (close_forwarders w fwds)
unfolding close_forwarders
close_forwarders-Quiet w [] = Quiet-refl w
close_forwarders-Quiet w ((id, f) ∷ fwds) =
    let w' = close_forwarder w f in
    Quiet-trans (close_forwarder-Quiet w f) (close_forwarders-Quiet w' fwds)

pub close_router-Quiet : (w : Store) (r : ℕ) → Quiet w (close_router w r)
unfolding close_router
close_router-Quiet w r = elim (Bool-cases (w.routers r).closed) [
  | inl c ↦ rw c (Quiet-refl w)
  | inr o ↦ rw o (
      let router = w.routers r in
      let w₁ : Store = record w {
        routers = update w.routers r (record router { closed = true });
      } in
      let w₂ = close_tracks w₁ router.tracks in
      let s =
        Quiet-trans (close_tracks-Quiet w₁ router.tracks)
          (close_forwarders-Quiet w₂ router.forwarders) in
      keeps_then s refl refl refl refl refl refl refl)
]

pub close_publisher-Quiet : (env : Env) (w : Store) (p : ℕ) → Quiet w (close_publisher env w p).0
unfolding close_publisher packet_to
close_publisher-Quiet env w p = elim (Bool-cases (w.publishers p).closed) [
  | inl c ↦ rw c (Quiet-refl w)
  | inr o ↦ rw o (
      let publisher = w.publishers p in
      let w₁ : Store = record w {
        publishers = update w.publishers p (record publisher { closed = true });
      } in
      let w₂ = close_tracks w₁ publisher.tracks in
      let s =
        Quiet-trans (close_tracks-Quiet w₁ publisher.tracks)
          (close_router-Quiet w₂ publisher.router) in
      let s =
        Quiet-trans s
          (note-Quiet (close_router w₂ publisher.router) (close_pc publisher.pc) (λ k. refl)) in
      keeps_then s refl refl refl refl refl refl refl)
]

unsubscribe_each-Quiet : (w : Store) (s : ℕ) (rs : List ℕ) → Quiet w (unsubscribe_each w s rs)
unfolding unsubscribe_each unsubscribe
unsubscribe_each-Quiet w s [] = Quiet-refl w
unsubscribe_each-Quiet w s (r ∷ rs) =
    let h = unsubscribe_each-Quiet (unsubscribe w r s) s rs in
    keeps_then h refl refl refl refl refl refl refl

pub close_subscriber-Quiet : (env : Env) (w : Store) (s : ℕ) → Quiet w (close_subscriber env w s).0
unfolding close_subscriber packet_to
close_subscriber-Quiet env w s = elim (Bool-cases (w.subscribers s).negotiation.closed) [
  | inl c ↦ rw c (Quiet-refl w)
  | inr o ↦
      let sub = w.subscribers s in
      let sub' : Subscriber = record sub {
        routers = [];
        negotiation = close_negotiation sub.negotiation;
      } in
      let w₁ : Store = record w { subscribers = update w.subscribers s sub' } in
      let w₂ = unsubscribe_each w₁ s sub.routers in
      let h =
        Quiet-trans (unsubscribe_each-Quiet w₁ s sub.routers)
          (close_each-Quiet w₂ (values sub.down_tracks)) in
      let h =
        Quiet-trans h
          (note-Quiet (close_each w₂ (values sub.down_tracks)) (close_pc sub.pc) (λ k. refl)) in
      simp (o) (keeps_then h refl refl refl refl refl refl refl)
]

-- The store after the first step of closing a peer.
abbrev marked : Store → ℕ → Store
marked w p = record w { peers = update w.peers p (record (w.peers p) { closed = true }) }

marked-Quiet :
    (env : Env) (w : Store) (p : ℕ)
    → (w.peers p).closed ≡ false
    → Quiet (marked w p) (close_peer env w p)
unfolding close_peer packet_to
marked-Quiet env w p o =
    let peer = w.peers p in
    let w₁ = marked w p in
    let w₂ = (close_publisher env w₁ peer.publisher).0 in
    let w₃ = (close_subscriber env w₂ peer.subscriber).0 in
    rw (o, close_peer)
      (Quiet-trans (close_publisher-Quiet env w₁ peer.publisher) (
        Quiet-trans (close_subscriber-Quiet env w₂ peer.subscriber)
          (note-Quiet w₃ (close_conn peer.conn) (λ k. refl))))

closed_already :
    (env : Env) (w : Store) (p : ℕ) → (w.peers p).closed ≡ true → close_peer env w p ≡ w
unfolding close_peer
closed_already env w p c = rw c refl

-- Closing a peer marks it, and it leaves the other peers and the sessions alone, and gives out
-- no address in use.
pub close_peer_lem :
    (env : Env) (w : Store) (p k : ℕ)
    → let w' = close_peer env w p in
      (w'.session_table ≡ w.session_table)
      × (w'.sessions ≡ w.sessions)
      × ((w'.peers p).closed ≡ true)
      × (p ≢ k → w'.peers k ≡ w.peers k)
      × (w.next ≤ w'.next)
close_peer_lem env w p k = elim (Bool-cases (w.peers p).closed) [
  | inl c ↦ rw (closed_already env w p c) (refl, refl, c, λ n. refl, omega arith)
  | inr o ↦
      let h = marked-Quiet env w p o in
      (
        h.session_table,
        h.sessions,
        ap (λ g. (g p).closed) h.peers ∙ ground (arith, beq_self p),
        λ n. ap (λ g. g k) h.peers ∙ ground (arith, n),
        h.next,
      )
]

-- Closing a peer sends nothing.
pub close_peer-Silent : (env : Env) (w : Store) (p : ℕ) → Silent w (close_peer env w p)
close_peer-Silent env w p = elim (Bool-cases (w.peers p).closed) [
  | inl c ↦ rw (closed_already env w p c) (Silent-refl w)
  | inr o ↦ (marked-Quiet env w p o).silent
]
