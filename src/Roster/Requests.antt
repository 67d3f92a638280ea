-- ===== src/Roster/Requests.antt =====
-- pkg/sfu/signaling.go: what each request does to the roster.
use choice.Base.{
  nat_eq, string_eq, Option-cases, ℕ, String, ◌≡◌, refl, ◌∙◌, ◌⊎◌, inl, inr, Option, none, some,
  arith,
}
use choice.Rpc.{Outcome, Decode}
use choice.Store.{Store, Env, Result, ok, err}
use choice.Store.Rooms.{Quiet, Quiet-refl, Silent-trans}
use choice.Publisher.{handle_offer}
use choice.Subscriber.{get_layers}
use choice.Peers.{add_ice_candidate}
use choice.Sessions.{add_peer, get_peer, get_or_create_session, get_session}
use choice.Signaling.{
  with_session, with_peer, done, joined, handle_join, handle_subscribe, handle_candidate,
  handle_answer_request, handle_set_layer, known_layers, handle_get_layer,
}
use choice.Roster.{Change, open_session, enter, leave, stay, apply, ◌≈◌, Rooms, Quiet-SameMembers}
use choice.Roster.Changes.{Follows, Follows-then, SameMembers-Follows}
use choice.Roster.Negotiations.{set_layer-Quiet, handle_answer-Quiet}
use choice.Roster.Subscriptions.{session_subscribe-Quiet, notify_existing_tracks-Quiet}
use choice.Roster.Entering.{entered, add_peer-Follows}
use choice.Roster.Opening.{get_or_create_session-Follows}

-- A join opens the session, and enters the peer if `AddPeer` makes one.
unfoldable pub join_change : String → String → Result ℕ → Change
join_change id peer_id (err e) = open_session id
join_change id peer_id (ok p) = enter id peer_id

unfoldable pub change_of_join : Env → Decode → ℕ → Store → String → Change
unfolding join_change
change_of_join env decode conn w params = elim (decode.join params) [
  | none ↦ stay
  | some p ↦
      let (w', s) = get_or_create_session w p.session_id in
      join_change p.session_id p.peer_id (add_peer env w' s p.peer_id conn).1
]

unfoldable pub change_of_leave : Decode → String → Change
change_of_leave decode params = elim (decode.leave params) [
  | none ↦ stay
  | some p ↦ leave p.session_id p.peer_id
]

join-Follows :
    {w w₁ w₂ : Store} (id peer_id : String) (r : Result ℕ)
    → Follows (open_session id) w w₁
    → Follows (entered id peer_id r) w₁ w₂
    → Follows (join_change id peer_id r) w w₂
unfolding ◌≈◌ join_change entered apply
join-Follows {w} {w₁} {w₂} id peer_id (err e) a b =
    let (p, q) = a.roster in
    let (s, t) = b.roster in
    record {
      rooms = b.rooms;
      roster = (λ k. s k ∙ p k, λ k x. t k x ∙ q k x);
      next = omega (arith, a.next, b.next);
      silent = Silent-trans w w₁ w₂ a.next a.silent b.silent;
    }
join-Follows {w} {w₁} {w₂} id peer_id (ok n) a b =
    let (p, q) = a.roster in
    let (s, t) = b.roster in
    record {
      rooms = b.rooms;
      roster = (λ k. ground (arith, s k, p k), λ k x. ground (arith, t k x, q k x));
      next = omega (arith, a.next, b.next);
      silent = Silent-trans w w₁ w₂ a.next a.silent b.silent;
    }

-- What comes after a session or a peer is found.
with_session-Quiet :
    (w : Store) (r : Result ℕ) (k : ℕ → Store × Outcome)
    → ((s : ℕ) → Quiet w (k s).0)
    → Quiet w (with_session w r k).0
unfolding with_session
with_session-Quiet w (err e) k h = Quiet-refl w
with_session-Quiet w (ok s) k h = h s

with_peer-Quiet :
    (w : Store) (session_id peer_id : String) (k : ℕ → Store × Outcome)
    → ((p : ℕ) → Quiet w (k p).0)
    → Quiet w (with_peer w session_id peer_id k).0
unfolding with_peer
with_peer-Quiet w session_id peer_id k h =
    with_session-Quiet w (get_session w session_id) _
      (λ s. with_session-Quiet w (get_peer w s peer_id) k h)

done-Quiet : {w : Store} (w' : Store) (o : Option String) → Quiet w w' → Quiet w (done (w', o)).0
unfolding done
done-Quiet w' none h = h
done-Quiet w' (some e) h = h

Result-cases : (r : Result String) → ((e : String) × (r ≡ err e)) ⊎ ((a : String) × (r ≡ ok a))
Result-cases (err e) = inl (e, refl)
Result-cases (ok a) = inr (a, refl)

joined-Quiet :
    (env : Env) (offer : String) (s : ℕ) (w : Store) (r : Result ℕ)
    → Quiet w (joined env offer s (w, r)).0
unfolding joined
joined-Quiet env offer s w (err e) = Quiet-refl w
joined-Quiet env offer s w (ok p) =
    elim (Result-cases (handle_offer env w (w.peers p).publisher offer)) [
      | inl (e, h) ↦ rw (h, joined) (Quiet-refl w)
      | inr (a, h) ↦ rw (h, joined) (notify_existing_tracks-Quiet env w s p)
    ]

pub handle_subscribe-Quiet :
    (env : Env) (decode : Decode) (w : Store) (params : String)
    → Quiet w (handle_subscribe env decode w params).0
unfolding handle_subscribe
handle_subscribe-Quiet env decode w params = elim (Option-cases (decode.subscribe params)) [
  | inl n ↦ rw (n, handle_subscribe) (Quiet-refl w)
  | inr (p, n) ↦
      rw (n, handle_subscribe)
        (with_session-Quiet w (get_session w p.session_id) _
          (λ s. done-Quiet _ _ (session_subscribe-Quiet env w s p.peer_id p.target_peer_id)))
]

pub handle_candidate-Quiet :
    (env : Env) (decode : Decode) (w : Store) (params : String)
    → Quiet w (handle_candidate env decode w params).0
unfolding handle_candidate
handle_candidate-Quiet env decode w params = elim (Option-cases (decode.candidate params)) [
  | inl n ↦ rw (n, handle_candidate) (Quiet-refl w)
  | inr (p, n) ↦
      rw (n, handle_candidate)
        (with_peer-Quiet w p.session_id p.peer_id _
          (λ peer. done-Quiet w (add_ice_candidate env w peer p.candidate p.target) (Quiet-refl w)))
]

pub handle_answer_request-Quiet :
    (env : Env) (decode : Decode) (w : Store) (params : String)
    → Quiet w (handle_answer_request env decode w params).0
unfolding handle_answer_request
handle_answer_request-Quiet env decode w params = elim (Option-cases (decode.answer params)) [
  | inl n ↦ rw (n, handle_answer_request) (Quiet-refl w)
  | inr (p, n) ↦
      rw (n, handle_answer_request)
        (with_peer-Quiet w p.session_id p.peer_id _
          (λ peer. done-Quiet _ _ (handle_answer-Quiet env w (w.peers peer).subscriber p.answer)))
]

pub handle_set_layer-Quiet :
    (decode : Decode) (w : Store) (params : String) → Quiet w (handle_set_layer decode w params).0
unfolding handle_set_layer
handle_set_layer-Quiet decode w params = elim (Option-cases (decode.set_layer params)) [
  | inl n ↦ rw (n, handle_set_layer) (Quiet-refl w)
  | inr (p, n) ↦
      rw (n, handle_set_layer)
        (with_peer-Quiet w p.session_id p.peer_id _
          (λ peer. set_layer-Quiet w (w.peers peer).subscriber p.track_id p.layer))
]

known_layers-Quiet : (w : Store) (o : Option (String × String)) → Quiet w (known_layers w o).0
unfolding known_layers
known_layers-Quiet w none = Quiet-refl w
known_layers-Quiet w (some (c, t)) = Quiet-refl w

pub handle_get_layer-Quiet :
    (decode : Decode) (w : Store) (params : String) → Quiet w (handle_get_layer decode w params).0
unfolding handle_get_layer
handle_get_layer-Quiet decode w params = elim (Option-cases (decode.get_layer params)) [
  | inl n ↦ rw (n, handle_get_layer) (Quiet-refl w)
  | inr (p, n) ↦
      rw (n, handle_get_layer)
        (with_peer-Quiet w p.session_id p.peer_id _
          (λ peer. known_layers-Quiet w (get_layers w (w.peers peer).subscriber p.track_id)))
]

-- `join`
pub handle_join-Follows :
    (env : Env) (decode : Decode) (conn : ℕ) (w : Store) (params : String)
    → Rooms w
    → Follows (change_of_join env decode conn w params) w (handle_join env decode conn w params).0
unfolding handle_join change_of_join
handle_join-Follows env decode conn w params r = elim (Option-cases (decode.join params)) [
  | inl n ↦
      rw (n, handle_join)
        (rw (n, change_of_join) (SameMembers-Follows (Quiet-SameMembers (Quiet-refl w)) r))
  | inr (p, n) ↦
      let (w₁, s) = get_or_create_session w p.session_id in
      let (opened, at) = get_or_create_session-Follows w p.session_id r in
      let (w₂, made) = add_peer env w₁ s p.peer_id conn in
      let added = add_peer-Follows env w₁ p.session_id s p.peer_id conn opened.rooms at in
      rw (n, handle_join)
        (rw (n, change_of_join)
          (Follows-then (join-Follows p.session_id p.peer_id made opened added)
            (Quiet-SameMembers (joined-Quiet env p.offer s w₂ made))))
]
