-- ===== src/Roster/Changes.antt =====
-- pkg/sfu/session.go: operations that leave the members of the sessions as they are, and how one follows a change.
use choice.Base.{
  ◌==◌, nat_eq, string_eq, beq_self, beq→eq, lookup, ℕ, ◌≤◌, String, ◌≡◌, refl, ap, ◌∙◌, some, List,
  arith,
}
use choice.Store.{Store, update}
use choice.Publisher.{add_router}
use choice.Store.Rooms.{Silent, Silent-trans}
use choice.Roster.{
  roster, Change, stay, apply, ◌≈◌, Rooms, SameMembers, SameMembers-Rooms, SameMembers-roster,
}

-- The rooms stay well formed, the roster follows the change, and no downtrack sends.
pub record Follows (c : Change) (w w' : Store) : Type 0 where
  pub rooms : Rooms w'
  pub roster : roster w' ≈ apply c (roster w)
  pub next : w.next ≤ w'.next
  pub silent : Silent w w'

pub set_routers-SameMembers :
    (w : Store) (s : ℕ) (routers : List (String × ℕ))
    → SameMembers w (record w {
      session_table = update w.session_table s (record (w.session_table s) { routers = routers });
    })
set_routers-SameMembers w s routers = record {
  sessions = refl;
  ids = λ k. ground (arith, beq→eq s k, ap (λ x. (w.session_table x).id) {x = s} {y = k});
  members = λ k. ground (arith, beq→eq s k, ap (λ x. (w.session_table x).peers) {x = s} {y = k});
  peers = λ k l. refl;
  next = omega arith;
  silent = (λ dt l. (refl, refl, refl), λ h. h);
}

pub add_router-SameMembers :
    (w : Store) (s : ℕ) (id : String) (r : ℕ) → SameMembers w (add_router w s id r)
unfolding add_router
add_router-SameMembers w s id r = set_routers-SameMembers w s _

pub SameMembers-trans : {a b c : Store} → SameMembers a b → SameMembers b c → SameMembers a c
SameMembers-trans {a} {b} {c} p q = record {
  sessions = q.sessions ∙ p.sessions;
  ids = λ s. q.ids s ∙ p.ids s;
  members = λ s. q.members s ∙ p.members s;
  peers = λ k l. q.peers k (omega (arith, l, p.next)) ∙ p.peers k l;
  next = omega (arith, p.next, q.next);
  silent = Silent-trans a b c p.next p.silent q.silent;
}

-- An id names one session.
pub same_session :
    {w : Store} (r : Rooms w) (id k : String) {s t : ℕ}
    → lookup id w.sessions ≡ some s
    → lookup k w.sessions ≡ some t
    → (id == k) ≡ (s == t)
same_session {w} r id k {s} {t} e f = ground (
  arith,
  beq→eq id k,
  beq→eq s t,
  beq_self s,
  beq_self id,
  r.id id s e,
  r.id k t f,
  ap (λ x. lookup x w.sessions) {x = id} {y = k},
  e,
  f,
  ap (λ x. (w.session_table x).id) {x = s} {y = t},
)

pub SameMembers-Follows : {w w' : Store} → SameMembers w w' → Rooms w → Follows stay w w'
unfolding apply
SameMembers-Follows h r = record {
  rooms = SameMembers-Rooms h r;
  roster = SameMembers-roster h;
  next = h.next;
  silent = h.silent;
}

-- A change, and then an operation that leaves the members as they are.
pub Follows-then :
    {c : Change} {w w₁ w' : Store} → Follows c w w₁ → SameMembers w₁ w' → Follows c w w'
unfolding ◌≈◌
Follows-then {c} {w} {w₁} {w'} f h =
    let (a, b) = SameMembers-roster h in
    let (p, q) = f.roster in
    record {
      rooms = SameMembers-Rooms h f.rooms;
      roster = (λ k. a k ∙ p k, λ k x. b k x ∙ q k x);
      next = omega (arith, f.next, h.next);
      silent = Silent-trans w w₁ w' f.next f.silent h.silent;
    }
