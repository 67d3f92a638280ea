-- ===== src/Roster/Leaving.antt =====
-- pkg/sfu/session.go: what `RemovePeer` does to the roster.
use choice.Base.{
  if◌then◌else◌, ◌==◌, nat_eq, string_eq, beq_self, beq→eq, Option-cases, lookup, lookup-delete, ℕ,
  ◌≤◌, String, ◌≡◌, refl, sym, ap, ◌∙◌, ◌≢◌, inl, inr, ◌&&◌, Option, none, some, arith,
}
use choice.Store.{Store, Env}
use choice.Router.{close_router}
use choice.Peers.{close_peer}
use choice.Peers.Closing.{close_router-Quiet, close_peer_lem, close_peer-Silent}
use choice.Sessions.{close_known_peer, close_known_router, remove_peer}
use choice.Store.Rooms.{Silent, Silent-refl, Quiet-refl}
use choice.Roster.{
  is_some, listed, roster, leave, apply, ◌≈◌, Rooms, SameMembers, Quiet-SameMembers, Listed-kept,
}
use choice.Roster.Changes.{
  Follows, set_routers-SameMembers, SameMembers-trans, same_session, Follows-then,
}

close_known_router-SameMembers :
    (w : Store) (s : ℕ) (id : String) (r : Option ℕ) → SameMembers w (close_known_router w s id r)
unfolding close_known_router
close_known_router-SameMembers w s id none = Quiet-SameMembers (Quiet-refl w)
close_known_router-SameMembers w s id (some r) =
    SameMembers-trans (Quiet-SameMembers (close_router-Quiet w r))
      (set_routers-SameMembers (close_router w r) s _)

-- The session at `s` forgets a peer.
record Removed (w w' : Store) (s : ℕ) (peer_id : String) : Type 0 where
  sessions : w'.sessions ≡ w.sessions
  ids : (k : ℕ) → (w'.session_table k).id ≡ (w.session_table k).id
  members :
      (k : ℕ) (q : String)
      → lookup q (w'.session_table k).peers
        ≡ (if s == k && peer_id == q then none else lookup q (w.session_table k).peers)
  peers : (p : ℕ) → lookup peer_id (w.session_table s).peers ≢ some p → w'.peers p ≡ w.peers p
  next : w.next ≤ w'.next
  silent : Silent w w'

close_known_peer-Removed :
    (env : Env) (w : Store) (s : ℕ) (id : String) (p : Option ℕ)
    → lookup id (w.session_table s).peers ≡ p
    → Removed w (close_known_peer env w s id p) s id
unfolding close_known_peer
close_known_peer-Removed env w s id none h = record {
  sessions = refl;
  ids = λ k. refl;
  members = λ k q. ground (
    arith,
    beq→eq s k,
    beq→eq id q,
    h,
    ap (λ x. lookup q (w.session_table x).peers) {x = s} {y = k},
    ap (λ x. lookup x (w.session_table s).peers) {x = id} {y = q},
  );
  peers = λ k n. refl;
  next = omega arith;
  silent = Silent-refl w;
}
close_known_peer-Removed env w s id (some p) h =
    let w₁ = close_peer env w p in
    let same : (k : ℕ) → w₁.session_table k ≡ w.session_table k =
      λ k. let (a, _, _, _, _) = close_peer_lem env w p k in ap (λ g. g k) a in
    record {
      sessions = let (_, b, _, _, _) = close_peer_lem env w p p in b;
      ids = λ k. ground (
        arith,
        beq→eq s k,
        ap (λ x. (w.session_table x).id) {x = s} {y = k},
        ap (λ x. x.id) (same k),
        ap (λ x. x.id) (same s),
      );
      members = λ k q. ground (
        arith,
        beq→eq s k,
        ap (λ x. lookup q (w.session_table x).peers) {x = s} {y = k},
        ap (λ x. lookup q x.peers) (same k),
        ap (λ x. lookup q x.peers) (same s),
        lookup-delete id q (w₁.session_table s).peers,
      );
      peers = λ k n. let (_, _, _, d, _) = close_peer_lem env w p k in d (λ e. n (h ∙ ap some e));
      next = let (_, _, _, _, e) = close_peer_lem env w p p in e;
      silent = close_peer-Silent env w p;
    }

Removed-Rooms :
    {w w' : Store} {s : ℕ} {peer_id : String} (id : String)
    → Rooms w
    → lookup id w.sessions ≡ some s
    → Removed w w' s peer_id
    → Rooms w'
Removed-Rooms {w} {w'} {s} {peer_id} id r at h =
    let known : (k : String) (t : ℕ)
        → lookup k w'.sessions ≡ some t
        → lookup k w.sessions ≡ some t =
      λ k t e. ap (lookup k) (sym h.sessions) ∙ e in
    record {
      used = λ k t e. omega (arith, r.used k t (known k t e), h.next);
      id = λ k t e. h.ids t ∙ r.id k t (known k t e);
      peers = λ k t q p e f.
          let old : lookup q (w.session_table t).peers ≡ some p =
            ground (arith, h.members t q, f) in
          let here = r.peers k t q p (known k t e) old in
          let other : lookup peer_id (w.session_table s).peers ≢ some p = λ g.
            let there = r.peers id s peer_id p at g in
            ground (
              arith,
              h.members t q,
              f,
              here.id,
              there.id,
              here.session,
              there.session,
              beq_self s,
              beq_self peer_id,
              ap (λ x. x == q) {x = peer_id} {y = q},
              beq_self q,
              ap (λ x. s == x) {x = s} {y = t},
            ) in
          Listed-kept here (h.peers p other) h.next;
    }

Removed-roster :
    {w w' : Store} {s : ℕ} {peer_id : String} (id : String)
    → Rooms w
    → lookup id w.sessions ≡ some s
    → Removed w w' s peer_id
    → roster w' ≈ apply (leave id peer_id) (roster w)
unfolding roster ◌≈◌ apply is_some listed
Removed-roster {w} {w'} {s} {peer_id} id r at h = (
  λ k. ap (λ m. is_some (lookup k m)) h.sessions,
  λ k q.
      ap (λ m. is_some (listed w' (lookup k m) q)) h.sessions
      ∙ elim (Option-cases (lookup k w.sessions)) [
        | inl n ↦ rw n (ground arith)
        | inr (t, e) ↦ rw e (rw (h.members t q) (rw (same_session r id k at e) (ground arith)))
      ],
)

Removed-Follows :
    {w w' : Store} {s : ℕ} {peer_id : String} (id : String)
    → Rooms w
    → lookup id w.sessions ≡ some s
    → Removed w w' s peer_id
    → Follows (leave id peer_id) w w'
Removed-Follows id r at h = record {
  rooms = Removed-Rooms id r at h;
  roster = Removed-roster id r at h;
  next = h.next;
  silent = h.silent;
}

-- `RemovePeer` on a session that is found under an id.
pub remove_peer-Follows :
    (env : Env) (w : Store) (id : String) (s : ℕ) (peer_id : String)
    → Rooms w
    → lookup id w.sessions ≡ some s
    → Follows (leave id peer_id) w (remove_peer env w s peer_id)
unfolding remove_peer
remove_peer-Follows env w id s peer_id r at =
    let p = lookup peer_id (w.session_table s).peers in
    let w₁ = close_known_peer env w s peer_id p in
    Follows-then (Removed-Follows id r at (close_known_peer-Removed env w s peer_id p refl))
      (close_known_router-SameMembers w₁ s peer_id (lookup peer_id (w₁.session_table s).routers))
