-- ===== src/Roster/Entering.antt =====
-- pkg/sfu/sfu.go and pkg/sfu/session.go: what `GetOrCreateSession` and `AddPeer` do to the roster.
use choice.Base.{
  if◌then◌else◌, ◌==◌, nat_eq, string_eq, beq→eq, Bool-cases, Option-cases, lookup, lookup-insert,
  ℕ, ◌≤◌, ◌<◌, String, ◌≡◌, refl, sym, ap, ◌∙◌, subst, inl, inr, ◌&&◌, some, arith,
}
use choice.Store.{Store, Env, Result, ok, err}
use choice.Peers.{new_peer}
use choice.Peers.Joining.{new_peer_lem, new_peer-Fresh}
use choice.Sessions.{added_peer, add_peer}
use choice.Store.Rooms.{Silent}
use choice.Roster.{
  is_some, listed, roster, Change, enter, stay, apply, ◌≈◌, Listed, Rooms, SameMembers, Listed-kept,
}
use choice.Roster.Changes.{Follows, SameMembers-Follows, same_session}

-- The session at `s` lists a peer that was not there before.
record Added (w w' : Store) (s : ℕ) (peer_id : String) (p : ℕ) : Type 0 where
  sessions : w'.sessions ≡ w.sessions
  ids : (k : ℕ) → (w'.session_table k).id ≡ (w.session_table k).id
  members :
      (k : ℕ) (q : String)
      → lookup q (w'.session_table k).peers
        ≡ (if s == k && peer_id == q then some p else lookup q (w.session_table k).peers)
  peers : (k : ℕ) → k < w.next → w'.peers k ≡ w.peers k
  fresh : Listed w' s peer_id p
  next : w.next ≤ w'.next
  silent : Silent w w'

Added-Rooms :
    {w w' : Store} {s : ℕ} {peer_id : String} {p : ℕ} → Rooms w → Added w w' s peer_id p → Rooms w'
Added-Rooms {w} {w'} {s} {peer_id} {p} r h =
    let known : (k : String) (t : ℕ)
        → lookup k w'.sessions ≡ some t
        → lookup k w.sessions ≡ some t =
      λ k t e. ap (lookup k) (sym h.sessions) ∙ e in
    record {
      used = λ k t e. omega (arith, r.used k t (known k t e), h.next);
      id = λ k t e. h.ids t ∙ r.id k t (known k t e);
      peers = λ k t q x e f. elim (Bool-cases (s == t && peer_id == q)) [
        | inl c ↦
            let at : s ≡ t = ground (arith, c, beq→eq s t) in
            let named : peer_id ≡ q = ground (arith, c, beq→eq peer_id q) in
            let it : p ≡ x = ground (arith, c, h.members t q, f) in
            subst (λ t. Listed w' t q x) at
              (subst (λ q. Listed w' s q x) named (subst (λ x. Listed w' s peer_id x) it h.fresh))
        | inr c ↦
            let old : lookup q (w.session_table t).peers ≡ some x =
              ground (arith, h.members t q, f, c) in
            let here = r.peers k t q x (known k t e) old in
            Listed-kept here (h.peers x here.used) h.next
      ];
    }

Added-roster :
    {w w' : Store} {s : ℕ} {peer_id : String} {p : ℕ} (id : String)
    → Rooms w
    → lookup id w.sessions ≡ some s
    → Added w w' s peer_id p
    → roster w' ≈ apply (enter id peer_id) (roster w)
unfolding roster ◌≈◌ apply is_some listed
Added-roster {w} {w'} {s} {peer_id} id r at h = (
  λ k.
      ap (λ m. is_some (lookup k m)) h.sessions
      ∙ ground (arith, beq→eq id k, ap (λ x. lookup x w.sessions) {x = id} {y = k}, at),
  λ k q.
      ap (λ m. is_some (listed w' (lookup k m) q)) h.sessions
      ∙ elim (Option-cases (lookup k w.sessions)) [
        | inl n ↦
            rw n
              (ground (arith, beq→eq id k, ap (λ x. lookup x w.sessions) {x = id} {y = k}, at, n))
        | inr (t, e) ↦ rw e (rw (h.members t q) (rw (same_session r id k at e) (ground arith)))
      ],
)

-- Either the peer is made and entered or nothing is listed anew.
unfoldable pub entered : String → String → Result ℕ → Change
entered id peer_id (err e) = stay
entered id peer_id (ok p) = enter id peer_id

new_peer-Silent :
    (env : Env) (w : Store) (id : String) (session conn : ℕ)
    → Silent w (new_peer env w id session conn).0
new_peer-Silent env w id session conn =
    let (h, _) = new_peer-Fresh env w id session conn in
    let (streams, sets) = h.silent in (λ dt l. streams dt (omega (arith, l)), sets)

new_peer-SameMembers :
    (env : Env) (w : Store) (id : String) (session conn : ℕ)
    → SameMembers w (new_peer env w id session conn).0
new_peer-SameMembers env w id session conn =
    let (a, b, _, _, _, _, n, _) = new_peer_lem env w id session conn 0 in
    record {
      sessions = b;
      ids = λ k. ap (λ t. (t k).id) a;
      members = λ k. ap (λ t. (t k).peers) a;
      peers = λ k l.
          let (_, _, c, _, _, _, _, _) = new_peer_lem env w id session conn k in
          c (λ e. omega (arith, e, l));
      next = omega (arith, n);
      silent = new_peer-Silent env w id session conn;
    }

-- A peer that stands at a new address is entered.
added_peer-Added :
    (w v : Store) (s : ℕ) (peer_id : String) (p : ℕ)
    → SameMembers w v
    → Listed v s peer_id p
    → Added w (added_peer s peer_id (v, ok p)).0 s peer_id p
unfolding added_peer
added_peer-Added w v s peer_id p h l = record {
  sessions = h.sessions;
  ids = λ k. ground (arith, beq→eq s k, ap (λ x. (v.session_table x).id) {x = s} {y = k}, h.ids k);
  members = λ k q. ground (
    arith,
    beq→eq s k,
    ap (λ x. lookup q (v.session_table x).peers) {x = s} {y = k},
    ap (lookup q) (h.members k),
    lookup-insert peer_id q p (v.session_table s).peers,
  );
  peers = h.peers;
  fresh = record { used = l.used; id = l.id; session = l.session; open_ = l.open_ };
  next = h.next;
  silent = h.silent;
}

new_peer-Listed :
    (env : Env) (w : Store) (id : String) (session conn p : ℕ)
    → (new_peer env w id session conn).1 ≡ ok p
    → Listed (new_peer env w id session conn).0 session id p
new_peer-Listed env w id session conn p e =
    let (_, _, _, i, o, s, n, at) = new_peer_lem env w id session conn 0 in
    subst (Listed (new_peer env w id session conn).0 session id) (sym (at p e))
      (record { used = n; id = i; session = s; open_ = o })

added_peer-Follows :
    (w v : Store) (id : String) (s : ℕ) (peer_id : String) (r : Result ℕ)
    → Rooms w
    → lookup id w.sessions ≡ some s
    → SameMembers w v
    → ((p : ℕ) → r ≡ ok p → Listed v s peer_id p)
    → Follows (entered id peer_id (added_peer s peer_id (v, r)).1) w (added_peer s peer_id (v, r)).0
unfolding added_peer entered
added_peer-Follows w v id s peer_id (err e) rooms at h l = SameMembers-Follows h rooms
added_peer-Follows w v id s peer_id (ok p) rooms at h l =
    let a = added_peer-Added w v s peer_id p h (l p refl) in
    record {
      rooms = Added-Rooms rooms a;
      roster = Added-roster id rooms at a;
      next = a.next;
      silent = a.silent;
    }

-- `AddPeer` on a session that is found under an id.
pub add_peer-Follows :
    (env : Env) (w : Store) (id : String) (s : ℕ) (peer_id : String) (conn : ℕ)
    → Rooms w
    → lookup id w.sessions ≡ some s
    → let (w', r) = add_peer env w s peer_id conn in Follows (entered id peer_id r) w w'
unfolding add_peer
add_peer-Follows env w id s peer_id conn rooms at =
    let (v, r) = new_peer env w peer_id s conn in
    added_peer-Follows w v id s peer_id r rooms at (new_peer-SameMembers env w peer_id s conn)
      (new_peer-Listed env w peer_id s conn)
