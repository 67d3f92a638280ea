-- ===== src/Sessions/Membership.antt =====
-- pkg/sfu/session.go and pkg/sfu/sfu.go: the peers of a session, and the sessions of the SFU.
use choice.Base.{
  if◌then◌else◌, ◌==◌, nat_eq, string_eq, beq_self, beq→eq, Option-cases, lookup, insert,
  lookup-insert, lookup-delete, ℕ, suc, ◌<◌, String, ◌≡◌, refl, sym, ap, ◌∙◌, subst, ◌≢◌, inl, inr,
  true, false, Option, none, some, arith,
}
use choice.Store.{Store, Env, Result, ok, err, update}
use choice.Router.{close_router}
use choice.Peers.{new_peer, close_peer}
use choice.Peers.Closing.{close_router-Quiet, close_peer_lem}
use choice.Peers.Joining.{new_peer_lem}
use choice.Sessions.{
  new_session, added_peer, add_peer, get_peer, get_router, peer_not_found, found, close_known_peer,
  close_known_router, remove_peer, get_or_create_session, get_session,
}

pub get_or_create_session-some :
    (w : Store) (id : String) (s : ℕ)
    → lookup id w.sessions ≡ some s
    → get_or_create_session w id ≡ (w, s)
unfolding get_or_create_session
get_or_create_session-some w id s h = rw (h, get_or_create_session) refl

pub get_or_create_session-none :
    (w : Store) (id : String)
    → lookup id w.sessions ≡ none
    → get_or_create_session w id ≡ (
      record w {
        session_table = update w.session_table w.next (new_session id);
        sessions = insert id w.next w.sessions;
        next = suc w.next;
      },
      w.next,
    )
unfolding get_or_create_session
get_or_create_session-none w id h = rw (h, get_or_create_session) refl

found-ok : (e : String) (o : Option ℕ) (a : ℕ) → found e o ≡ ok a → o ≡ some a
unfolding found
found-ok e none a h = absurd (cc h)
found-ok e (some b) a h = ground (arith, h)

-- `GetOrCreateSession` returns the session that `GetSession` finds under the id from then on, returns it
-- again when it is called again, and leaves what is found under any other id.
pub get_or_create_session_lem :
    (w : Store) (id other : String)
    → let (w', s) = get_or_create_session w id in
      (get_session w' id ≡ ok s)
      × (get_or_create_session w' id ≡ (w', s))
      × (get_session w' other ≡ (if id == other then ok s else get_session w other))
unfolding get_session found
get_or_create_session_lem w id other = elim (Option-cases (lookup id w.sessions)) [
  | inr (s, h) ↦
      let e = get_or_create_session-some w id s h in
      let same = ap (λ k. lookup k w.sessions) {x = id} {y = other} in
      rw e (rw h refl, e, ground (arith, same, beq→eq id other, h))
  | inl h ↦
      let e = get_or_create_session-none w id h in
      let at = lookup-insert id other w.next w.sessions in
      let new : lookup id (insert id w.next w.sessions) ≡ some w.next =
        lookup-insert id id w.next w.sessions ∙ ground (arith, beq_self id) in
      rw e (rw new refl, get_or_create_session-some _ id w.next new, ground (arith, at))
]

close_known_peer_lem :
    (env : Env) (w : Store) (s : ℕ) (id : String) (p : Option ℕ) (other : String)
    → lookup id (w.session_table s).peers ≡ p
    → let w' = close_known_peer env w s id p in
      (lookup other (w'.session_table s).peers
        ≡ (if id == other then none else lookup other (w.session_table s).peers))
      × ((w'.session_table s).routers ≡ (w.session_table s).routers)
unfolding close_known_peer
close_known_peer_lem env w s id none other h = (
  ground (
    arith,
    beq→eq id other,
    ap (λ k. lookup k (w.session_table s).peers) {x = id} {y = other},
    h,
  ),
  refl,
)
close_known_peer_lem env w s id (some p) other h =
    let (a, _, _, _, _) = close_peer_lem env w p p in
    let same : (close_peer env w p).session_table s ≡ w.session_table s = ap (λ g. g s) a in
    (
      ground (
        arith,
        beq_self s,
        lookup-delete id other ((close_peer env w p).session_table s).peers,
        ap (λ x. lookup other x.peers) same,
      ),
      ground (arith, beq_self s, ap (λ x. x.routers) same),
    )

close_known_router_lem :
    (w : Store) (s : ℕ) (id : String) (r : Option ℕ) (other : String)
    → lookup id (w.session_table s).routers ≡ r
    → let w' = close_known_router w s id r in
      (lookup other (w'.session_table s).routers
        ≡ (if id == other then none else lookup other (w.session_table s).routers))
      × ((w'.session_table s).peers ≡ (w.session_table s).peers)
      × (w'.peers ≡ w.peers)
unfolding close_known_router
close_known_router_lem w s id none other h = (
  ground (
    arith,
    beq→eq id other,
    ap (λ k. lookup k (w.session_table s).routers) {x = id} {y = other},
    h,
  ),
  refl,
  refl,
)
close_known_router_lem w s id (some r) other h =
    let a = close_router-Quiet w r in
    let same : (close_router w r).session_table s ≡ w.session_table s =
      ap (λ g. g s) a.session_table in
    (
      ground (
        arith,
        beq_self s,
        lookup-delete id other ((close_router w r).session_table s).routers,
        ap (λ x. lookup other x.routers) same,
      ),
      ground (arith, beq_self s, ap (λ x. x.peers) same),
      a.peers,
    )

-- After `RemovePeer` the session has no peer and no router under the id, and under every other id the
-- peer and the router that it had.
pub remove_peer_lem :
    (env : Env) (w : Store) (s : ℕ) (id other : String)
    → let w' = remove_peer env w s id in
      (get_peer w' s other ≡ (if id == other then err peer_not_found else get_peer w s other))
      × (get_router w' s other ≡ (if id == other then none else get_router w s other))
unfolding remove_peer get_peer get_router found
remove_peer_lem env w s id other =
    let p = lookup id (w.session_table s).peers in
    let w₁ = close_known_peer env w s id p in
    let (a, b) = close_known_peer_lem env w s id p other refl in
    let r = lookup id (w₁.session_table s).routers in
    let w₂ = close_known_router w₁ s id r in
    let (c, d, _) = close_known_router_lem w₁ s id r other refl in
    let peers : lookup other (w₂.session_table s).peers
        ≡ (if id == other then none else lookup other (w.session_table s).peers) =
      ap (lookup other) d ∙ a in
    let routers : lookup other (w₂.session_table s).routers
        ≡ (if id == other then none else lookup other (w.session_table s).routers) =
      c ∙ ap (λ m. if id == other then none else lookup other m) b in
    (rw peers (ground arith), routers)

close_known_peer-closed :
    (env : Env) (w : Store) (s : ℕ) (id : String) (p : ℕ)
    → ((close_known_peer env w s id (some p)).peers p).closed ≡ true
unfolding close_known_peer
close_known_peer-closed env w s id p = let (_, _, c, _, _) = close_peer_lem env w p p in c

-- `RemovePeer` closes the peer that the session has under the id.
pub remove_peer-closed :
    (env : Env) (w : Store) (s : ℕ) (id : String) (p : ℕ)
    → get_peer w s id ≡ ok p
    → ((remove_peer env w s id).peers p).closed ≡ true
unfolding remove_peer get_peer found
remove_peer-closed env w s id p h =
    let q = lookup id (w.session_table s).peers in
    let known = found-ok peer_not_found q p h in
    let w₁ = close_known_peer env w s id q in
    let (_, _, same) =
      close_known_router_lem w₁ s id (lookup id (w₁.session_table s).routers) id refl in
    let closed : (w₁.peers p).closed ≡ true =
      subst (λ o. ((close_known_peer env w s id o).peers p).closed ≡ true) (sym known)
        (close_known_peer-closed env w s id p) in
    ap (λ g. (g p).closed) same ∙ closed

added_peer_lem :
    (w : Store) (s : ℕ) (id : String) (r : Result ℕ) (p : ℕ)
    → (added_peer s id (w, r)).1 ≡ ok p
    → let w' = (added_peer s id (w, r)).0 in
      (r ≡ ok p) × (lookup id (w'.session_table s).peers ≡ some p) × (w'.peers ≡ w.peers)
unfolding added_peer
added_peer_lem w s id (err e) p h = absurd (cc h)
added_peer_lem w s id (ok q) p h =
    let at = lookup-insert id id q (w.session_table s).peers in
    (h, ground (arith, h, beq_self s, beq_self id, at), refl)

-- The session finds the peer that `AddPeer` has returned.
pub get_peer-add_peer :
    (env : Env) (w : Store) (s : ℕ) (id : String) (conn p : ℕ)
    → (add_peer env w s id conn).1 ≡ ok p
    → get_peer (add_peer env w s id conn).0 s id ≡ ok p
unfolding add_peer get_peer found
get_peer-add_peer env w s id conn p e =
    let (v, r) = new_peer env w id s conn in
    ap (found peer_not_found) (let (_, at, _) = added_peer_lem v s id r p e in at)

-- `AddPeer` under an id that the session has already replaces the peer, and neither closes the old one
-- nor changes it: it stays open while the session no longer finds it. (The old peer stands at an
-- address in use.)
pub add_peer_replaces :
    (env : Env) (w : Store) (s : ℕ) (id : String) (conn old p : ℕ)
    → get_peer w s id ≡ ok old
    → old < w.next
    → (add_peer env w s id conn).1 ≡ ok p
    → let w' = (add_peer env w s id conn).0 in
      (get_peer w' s id ≡ ok p)
      × (p ≢ old)
      × (w'.peers old ≡ w.peers old)
      × ((w'.peers p).closed ≡ false)
unfolding add_peer get_peer found
add_peer_replaces env w s id conn old p h l e =
    let (v, r) = new_peer env w id s conn in
    let (made, at, same) = added_peer_lem v s id r p e in
    let (_, _, others, _, open_, _, _, address) = new_peer_lem env w id s conn old in
    let here = address p made in
    let ne : w.next ≢ old = λ q. omega (arith, q, l) in
    (
      ap (found peer_not_found) at,
      λ q. ne (sym here ∙ q),
      ap (λ g. g old) same ∙ others ne,
      ap (λ g. (g p).closed) same ∙ subst (λ k. (v.peers k).closed ≡ false) (sym here) open_,
    )
