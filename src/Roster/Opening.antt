-- ===== src/Roster/Opening.antt =====
-- pkg/sfu/sfu.go: what `GetOrCreateSession` does to the roster.
use choice.Base.{
  ◌==◌, nat_eq, string_eq, beq_self, beq→eq, Bool-cases, Option-cases, lookup, insert,
  lookup-insert, ℕ, suc, String, ◌≡◌, refl, sym, ap, ◌∙◌, inl, inr, none, some, arith,
}
use choice.Store.{Store, update}
use choice.Sessions.{new_session, get_or_create_session}
use choice.Sessions.Membership.{get_or_create_session-some, get_or_create_session-none}
use choice.Roster.{is_some, listed, roster, open_session, apply, ◌≈◌, Rooms, Listed-kept}
use choice.Roster.Changes.{Follows}

-- The store with a session that was not there.
abbrev created : Store → String → Store
created w id = record w {
  session_table = update w.session_table w.next (new_session id);
  sessions = insert id w.next w.sessions;
  next = suc w.next;
}

-- The session at the new address has no peers.
created_peers :
    (w : Store) (id q : String) → lookup q ((created w id).session_table w.next).peers ≡ none
unfolding new_session lookup
created_peers w id q = rw (beq_self w.next) refl

created-Rooms :
    (w : Store) (id : String) → Rooms w → lookup id w.sessions ≡ none → Rooms (created w id)
unfolding new_session
created-Rooms w id r n = record {
  used = λ k s e. ground (arith, lookup-insert id k w.next w.sessions, e, r.used k s);
  id = λ k s e. ground (
    arith,
    lookup-insert id k w.next w.sessions,
    e,
    r.used k s,
    r.id k s,
    beq→eq id k,
    beq→eq w.next s,
    beq_self w.next,
  );
  peers = λ k s q p e f. elim (Bool-cases (w.next == s)) [
    | inl new ↦
        let same : w.next ≡ s = beq→eq w.next s new in
        absurd (
          cc (
            f,
            created_peers w id q,
            ap (λ x. lookup q ((created w id).session_table x).peers) same,
          ))
    | inr old ↦
        let here : lookup k w.sessions ≡ some s =
          ground (arith, lookup-insert id k w.next w.sessions, e, old, beq_self w.next) in
        let there : lookup q (w.session_table s).peers ≡ some p = ground (arith, f, old) in
        Listed-kept (r.peers k s q p here there) refl (omega arith)
  ];
}

created-roster :
    (w : Store) (id : String)
    → Rooms w
    → lookup id w.sessions ≡ none
    → roster (created w id) ≈ apply (open_session id) (roster w)
unfolding roster ◌≈◌ apply is_some listed new_session
created-roster w id r n = (
  λ k. rw (lookup-insert id k w.next w.sessions) (ground arith),
  λ k q. rw (lookup-insert id k w.next w.sessions) (elim (Bool-cases (id == k)) [
    | inl e ↦
        let none_there : lookup k w.sessions ≡ none =
          ap (λ x. lookup x w.sessions) (sym (beq→eq id k e)) ∙ n in
        rw e (rw none_there (ap is_some (created_peers w id q)))
    | inr e ↦ rw e (elim (Option-cases (lookup k w.sessions)) [
      | inl f ↦ rw f refl
      | inr (s, f) ↦ rw f (ground (arith, r.used k s f, beq→eq w.next s))
    ])
  ]),
)

created-Follows :
    (w : Store) (id : String)
    → Rooms w
    → lookup id w.sessions ≡ none
    → Follows (open_session id) w (created w id)
created-Follows w id r n = record {
  rooms = created-Rooms w id r n;
  roster = created-roster w id r n;
  next = omega arith;
  silent = (λ dt l. (refl, refl, refl), λ h. h);
}

known-Follows :
    (w : Store) (id : String) (s : ℕ)
    → Rooms w
    → lookup id w.sessions ≡ some s
    → Follows (open_session id) w w
unfolding ◌≈◌ roster apply is_some
known-Follows w id s r e = record {
  rooms = r;
  roster = (
    λ k. ground (arith, beq→eq id k, ap (λ x. lookup x w.sessions) {x = id} {y = k}, e),
    λ k q. refl,
  );
  next = omega arith;
  silent = (λ dt l. (refl, refl, refl), λ h. h);
}

-- `GetOrCreateSession`, and that the session is found.
pub get_or_create_session-Follows :
    (w : Store) (id : String)
    → Rooms w
    → let (w', s) = get_or_create_session w id in
      Follows (open_session id) w w' × (lookup id w'.sessions ≡ some s)
get_or_create_session-Follows w id r = elim (Option-cases (lookup id w.sessions)) [
  | inr (s, e) ↦ rw (get_or_create_session-some w id s e) (known-Follows w id s r e, e)
  | inl n ↦
      let at : lookup id (insert id w.next w.sessions) ≡ some w.next =
        lookup-insert id id w.next w.sessions ∙ ground (arith, beq_self id) in
      rw (get_or_create_session-none w id n) (created-Follows w id r n, at)
]
