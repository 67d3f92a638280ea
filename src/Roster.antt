-- ===== src/Roster.antt =====
-- pkg/sfu/sfu.go and pkg/sfu/session.go: who is in which session, as the maps `SFU.sessions` and `Session.peers` say,
-- and what a well-formed store has in them.
pub mod Media
pub mod Negotiations
pub mod Subscriptions
pub mod Changes
pub mod Leaving
pub mod Entering
pub mod Opening
pub mod Requests
pub mod Handling
use choice.Base.{
  ◌==◌, nat_eq, string_eq, lookup, ℕ, ◌≤◌, ◌<◌, String, ◌≡◌, refl, sym, ap, ◌∙◌, Bool, true, false,
  not, ◌&&◌, ◌||◌, Option, none, some, arith,
}
use choice.Store.{Store, Session, Peer}
use choice.Store.Rooms.{Quiet, Silent}

-- The sessions that exist and the peers that each lists, by id.
pub record Roster : Type 0 where
  pub known : String → Bool
  pub member : String → String → Bool

unfoldable pub is_some : Option ℕ → Bool
is_some none = false
is_some (some a) = true

-- The peer under an id in the session at an address, if there is a session.
unfoldable pub listed : Store → Option ℕ → String → Option ℕ
listed w none peer_id = none
listed w (some s) peer_id = lookup peer_id (w.session_table s).peers

-- What the store makes of the ids.
unfoldable pub roster : Store → Roster
unfolding is_some listed
roster w = record {
  known = λ id. is_some (lookup id w.sessions);
  member = λ id peer_id. is_some (listed w (lookup id w.sessions) peer_id);
}

-- What one operation does to the roster.
pub data Change : Type 0 where
  open_session : String → Change
  enter : String → String → Change
  leave : String → String → Change
  stay : Change

unfoldable pub apply : Change → Roster → Roster
apply (open_session s) r = record r { known = λ k. s == k || r.known k }
apply (enter s p) r = record {
  known = λ k. s == k || r.known k;
  member = λ k q. (s == k && p == q) || r.member k q;
}
apply (leave s p) r = record r { member = λ k q. not (s == k && p == q) && r.member k q }
apply stay r = r

unfoldable pub ◌≈◌ : Roster → Roster → Type 0
r ≈ q = ((k : String) → r.known k ≡ q.known k) × ((k p : String) → r.member k p ≡ q.member k p)

infix 4 ◌≈◌
-- The peer that the session at `s` lists under `peer_id`: at an address in use, with that id and that session,
-- and open.
pub record Listed (w : Store) (s : ℕ) (peer_id : String) (p : ℕ) : Type 0 where
  pub used : p < w.next
  pub id : (w.peers p).id ≡ peer_id
  pub session : (w.peers p).session ≡ s
  pub open_ : (w.peers p).closed ≡ false

-- Each session stands at an address in use and has the id that it is found under, and each peer that it lists is
-- as above.
pub record Rooms (w : Store) : Type 0 where
  pub used : (id : String) (s : ℕ) → lookup id w.sessions ≡ some s → s < w.next
  pub id : (id : String) (s : ℕ) → lookup id w.sessions ≡ some s → (w.session_table s).id ≡ id
  pub peers :
      (id : String) (s : ℕ) (peer_id : String) (p : ℕ)
      → lookup id w.sessions ≡ some s
      → lookup peer_id (w.session_table s).peers ≡ some p
      → Listed w s peer_id p

-- The sessions keep their ids and their peers, and the peers are the same; the routers of the sessions may change,
-- and objects may be added; no downtrack sends.
pub record SameMembers (w w' : Store) : Type 0 where
  pub sessions : w'.sessions ≡ w.sessions
  pub ids : (s : ℕ) → (w'.session_table s).id ≡ (w.session_table s).id
  pub members : (s : ℕ) → (w'.session_table s).peers ≡ (w.session_table s).peers
  pub peers : (p : ℕ) → p < w.next → w'.peers p ≡ w.peers p
  pub next : w.next ≤ w'.next
  pub silent : Silent w w'

pub Quiet-SameMembers : {w w' : Store} → Quiet w w' → SameMembers w w'
Quiet-SameMembers h = record {
  sessions = h.sessions;
  ids = λ s. ap (λ t. (t s).id) h.session_table;
  members = λ s. ap (λ t. (t s).peers) h.session_table;
  peers = λ p l. ap (λ g. g p) h.peers;
  next = h.next;
  silent = h.silent;
}

-- A listed peer stays so while it does not change.
pub Listed-kept :
    {w w' : Store} {s : ℕ} {peer_id : String} {p : ℕ}
    → Listed w s peer_id p
    → w'.peers p ≡ w.peers p
    → w.next ≤ w'.next
    → Listed w' s peer_id p
Listed-kept h e n = record {
  used = omega (arith, h.used, n);
  id = ap (λ x. x.id) e ∙ h.id;
  session = ap (λ x. x.session) e ∙ h.session;
  open_ = ap (λ x. x.closed) e ∙ h.open_;
}

pub SameMembers-Rooms : {w w' : Store} → SameMembers w w' → Rooms w → Rooms w'
SameMembers-Rooms {w} {w'} h r =
    let known : (id : String) (s : ℕ)
        → lookup id w'.sessions ≡ some s
        → lookup id w.sessions ≡ some s =
      λ id s e. ap (lookup id) (sym h.sessions) ∙ e in
    record {
      used = λ id s e. omega (arith, r.used id s (known id s e), h.next);
      id = λ id s e. h.ids s ∙ r.id id s (known id s e);
      peers = λ id s q p e f.
          let old = r.peers id s q p (known id s e) (ap (lookup q) (sym (h.members s)) ∙ f) in
          Listed-kept old (h.peers p old.used) h.next;
    }

listed-SameMembers :
    {w w' : Store} → SameMembers w w' → (o : Option ℕ) (q : String) → listed w' o q ≡ listed w o q
unfolding listed
listed-SameMembers h none q = refl
listed-SameMembers h (some s) q = ap (lookup q) (h.members s)

pub SameMembers-roster : {w w' : Store} → SameMembers w w' → roster w' ≈ roster w
unfolding roster ◌≈◌
SameMembers-roster {w} {w'} h = (
  λ k. ap (λ m. is_some (lookup k m)) h.sessions,
  λ k q. ap is_some (
      ap (λ m. listed w' (lookup k m) q) h.sessions ∙ listed-SameMembers h (lookup k w.sessions) q),
)
