-- ===== src/Peers/Joining.antt =====
-- pkg/sfu/peer.go: what `newPeer` leaves alone.
use choice.Base.{
  nat_eq, string_eq, beq_self, ℕ, suc, ◌≤◌, ◌<◌, String, ◌≡◌, refl, ap, ◌∙◌, ◌≢◌, false, arith,
}
use choice.Store.{Store, Env, Result, ok, err, Peer, update}
use choice.Store.Rooms.{Silent, Silent-trans}
use choice.Publisher.{made_publisher, new_publisher}
use choice.Peers.{
  with_channel, made_subscriber, new_subscriber, with_subscriber, with_publisher, new_peer,
}
use choice.Peers.Closing.{close_publisher-Quiet}

-- The sessions, the other peers, and what a peer is made with.
pub record Fresh (w w' : Store) (p : ℕ) : Type 0 where
  pub session_table : w'.session_table ≡ w.session_table
  pub sessions : w'.sessions ≡ w.sessions
  pub others : (k : ℕ) → p ≢ k → w'.peers k ≡ w.peers k
  pub id : (w'.peers p).id ≡ (w.peers p).id
  pub session : (w'.peers p).session ≡ (w.peers p).session
  pub closed : (w'.peers p).closed ≡ (w.peers p).closed
  pub next : w.next ≤ w'.next
  pub silent : Silent w w'

Fresh-refl : (w : Store) (p : ℕ) → Fresh w w p
Fresh-refl w p = record {
  session_table = refl;
  sessions = refl;
  others = λ k n. refl;
  id = refl;
  session = refl;
  closed = refl;
  next = omega arith;
  silent = (λ dt l. (refl, refl, refl), λ h. h);
}

Fresh-trans : (a b c : Store) (p : ℕ) → Fresh a b p → Fresh b c p → Fresh a c p
Fresh-trans a b c p x y = record {
  session_table = y.session_table ∙ x.session_table;
  sessions = y.sessions ∙ x.sessions;
  others = λ k n. y.others k n ∙ x.others k n;
  id = y.id ∙ x.id;
  session = y.session ∙ x.session;
  closed = y.closed ∙ x.closed;
  next = omega (arith, x.next, y.next);
  silent = Silent-trans a b c x.next x.silent y.silent;
}

made_publisher-Fresh : (w : Store) (p q : ℕ) (r : Result ℕ) → Fresh w (made_publisher w p r).0 q
unfolding made_publisher
made_publisher-Fresh w p q (err e) = Fresh-refl w q
made_publisher-Fresh w p q (ok pc) = record {
  session_table = refl;
  sessions = refl;
  others = λ k n. refl;
  id = refl;
  session = refl;
  closed = refl;
  next = omega arith;
  silent = (λ dt l. (refl, refl, refl), λ h. h);
}

with_channel-Fresh : (w : Store) (p pc q : ℕ) (r : Result ℕ) → Fresh w (with_channel w p pc r).0 q
unfolding with_channel
with_channel-Fresh w p pc q (err e) = Fresh-refl w q
with_channel-Fresh w p pc q (ok dc) = record {
  session_table = refl;
  sessions = refl;
  others = λ k n. refl;
  id = refl;
  session = refl;
  closed = refl;
  next = omega arith;
  silent = (λ dt l. (refl, refl, refl), λ h. h);
}

made_subscriber-Fresh :
    (env : Env) (w : Store) (p q : ℕ) (r : Result ℕ) → Fresh w (made_subscriber env w p r).0 q
unfolding made_subscriber
made_subscriber-Fresh env w p q (err e) = Fresh-refl w q
made_subscriber-Fresh env w p q (ok pc) = with_channel-Fresh w p pc q (env.create_data_channel pc)

-- A change of the peer `p` itself.
set_peer-Fresh :
    (w : Store) (p : ℕ) (peer : Peer)
    → peer.id ≡ (w.peers p).id
    → peer.session ≡ (w.peers p).session
    → peer.closed ≡ (w.peers p).closed
    → Fresh w (record w { peers = update w.peers p peer }) p
set_peer-Fresh w p peer i s c = record {
  session_table = refl;
  sessions = refl;
  others = λ k n. ground (arith, n);
  id = ground (arith, beq_self p, i);
  session = ground (arith, beq_self p, s);
  closed = ground (arith, beq_self p, c);
  next = omega arith;
  silent = (λ dt l. (refl, refl, refl), λ h. h);
}

with_subscriber-Fresh :
    (env : Env) (w : Store) (p publisher : ℕ) (r : Result ℕ)
    → let (w', result) = with_subscriber env p publisher (w, r) in
      Fresh w w' p × ((q : ℕ) → result ≡ ok q → q ≡ p)
unfolding with_subscriber
with_subscriber-Fresh env w p publisher (err e) =
    let h = close_publisher-Quiet env w publisher in
    (
      record {
        session_table = h.session_table;
        sessions = h.sessions;
        others = λ k n. ap (λ g. g k) h.peers;
        id = ap (λ g. (g p).id) h.peers;
        session = ap (λ g. (g p).session) h.peers;
        closed = ap (λ g. (g p).closed) h.peers;
        next = h.next;
        silent = h.silent;
      },
      λ q e. absurd (cc e),
    )
with_subscriber-Fresh env w p publisher (ok s) =
    (set_peer-Fresh w p _ refl refl refl, λ q e. ground (arith, e))

with_publisher-Fresh :
    (env : Env) (w : Store) (p : ℕ) (r : Result ℕ)
    → let (w', result) = with_publisher env p (w, r) in
      Fresh w w' p × ((q : ℕ) → result ≡ ok q → q ≡ p)
unfolding with_publisher new_subscriber
with_publisher-Fresh env w p (err e) = (Fresh-refl w p, λ q e. absurd (cc e))
with_publisher-Fresh env w p (ok publisher) =
    let w₁ : Store = record w {
      peers = update w.peers p (record (w.peers p) { publisher = publisher });
    } in
    let (w₂, r) = made_subscriber env w₁ p (env.new_peer_connection w₁.next) in
    let (a, b) = with_subscriber-Fresh env w₂ p publisher r in
    let w₃ = (with_subscriber env p publisher (w₂, r)).0 in
    let c =
      Fresh-trans w₁ w₂ w₃ p (made_subscriber-Fresh env w₁ p p (env.new_peer_connection w₁.next))
        a in
    (Fresh-trans w w₁ w₃ p (set_peer-Fresh w p _ refl refl refl) c, b)

-- The store in which `newPeer` has made the peer, without its connections.
abbrev pub placed_peer : Store → String → ℕ → ℕ → Store
placed_peer w id session conn = record w {
  peers = update w.peers w.next (record {
    id = id;
    session = session;
    publisher = 0;
    subscriber = 0;
    conn = conn;
    closed = false;
  });
  next = suc w.next;
}

pub new_peer-Fresh :
    (env : Env) (w : Store) (id : String) (session conn : ℕ)
    → let (w', result) = new_peer env w id session conn in
      Fresh (placed_peer w id session conn) w' w.next × ((q : ℕ) → result ≡ ok q → q ≡ w.next)
unfolding new_peer new_publisher
new_peer-Fresh env w id session conn =
    let p = w.next in
    let w₁ = placed_peer w id session conn in
    let (w₂, r) = made_publisher w₁ p (env.new_peer_connection w₁.next) in
    let (a, b) = with_publisher-Fresh env w₂ p r in
    let w₃ = (with_publisher env p (w₂, r)).0 in
    (Fresh-trans w₁ w₂ w₃ p (made_publisher-Fresh w₁ p p (env.new_peer_connection w₁.next)) a, b)

-- `newPeer` leaves the sessions and the peers at other addresses alone; the peer that it returns stands
-- at the first free address, has the id and the session, and is open.
pub new_peer_lem :
    (env : Env) (w : Store) (id : String) (session conn k : ℕ)
    → let (w', result) = new_peer env w id session conn in
      (w'.session_table ≡ w.session_table)
      × (w'.sessions ≡ w.sessions)
      × (w.next ≢ k → w'.peers k ≡ w.peers k)
      × ((w'.peers w.next).id ≡ id)
      × ((w'.peers w.next).closed ≡ false)
      × ((w'.peers w.next).session ≡ session)
      × (w.next < w'.next)
      × ((q : ℕ) → result ≡ ok q → q ≡ w.next)
new_peer_lem env w id session conn k =
    let (c, b) = new_peer-Fresh env w id session conn in
    (
      c.session_table,
      c.sessions,
      λ n. c.others k n ∙ ground (arith, n),
      c.id ∙ ground (arith, beq_self w.next),
      c.closed ∙ ground (arith, beq_self w.next),
      c.session ∙ ground (arith, beq_self w.next),
      omega (arith, c.next),
      b,
    )
