-- ===== src/Signaling/Requests.antt =====
-- pkg/sfu/signaling.go: which requests fail, and what a failed request leaves behind.
use choice.Base.{
  ◌==◌, nat_eq, string_eq, Bool-cases, Option-cases, ℕ, String, ◌≡◌, refl, sym, subst, inl, inr,
  false, Option, none, some, arith, ℤ,
}
use choice.Store.{Store, Env, Result, ok, err}
use choice.Publisher.{handle_offer}
use choice.Subscriber.{handle_answer, get_layers}
use choice.Peers.{add_ice_candidate}
use choice.Sessions.{add_peer, get_peer, remove_peer, get_or_create_session, get_session}
use choice.Sessions.Membership.{get_peer-add_peer}
use choice.Rpc.{
  Request, success, Outcome, result, error, Decode, JoinParams, LeaveParams, server_error,
}
use choice.Signaling.{
  with_session, with_peer, done, joined, handle_join, handle_candidate, handle_answer_request,
  handle_leave, handle_set_layer, known_layers, handle_get_layer, outcome_of, handle_request,
}

-- A store and the outcome that goes with it: the store is the one before if the request has failed.
Keeps : Store → Store × Outcome → Type 0
Keeps w (w', result r) = Unit {0}
Keeps w (w', error c m) = w' ≡ w

with_peer-Keeps :
    (w : Store) (session_id peer_id : String) (k : ℕ → Store × Outcome)
    → ((p : ℕ) → Keeps w (k p))
    → Keeps w (with_peer w session_id peer_id k)
unfolding with_peer with_session Keeps
with_peer-Keeps w session_id peer_id k h = go (get_session w session_id)
  where
    inner : (r : Result ℕ) → Keeps w (with_session w r k)
    inner (err e) = refl
    inner (ok p) = h p

    go : (r : Result ℕ) → Keeps w (with_session w r (λ s. with_session w (get_peer w s peer_id) k))
    go (err e) = refl
    go (ok s) = inner (get_peer w s peer_id)

done-Keeps :
    (w w' : Store) (o : Option String)
    → ((e : String) → o ≡ some e → w' ≡ w)
    → Keeps w (done (w', o))
unfolding done Keeps
done-Keeps w w' none h = tt
done-Keeps w w' (some e) h = h e refl

handle_answer_lem :
    (env : Env) (w : Store) (s : ℕ) (answer e : String)
    → (handle_answer env w s answer).1 ≡ some e
    → (handle_answer env w s answer).0 ≡ w
unfolding handle_answer
handle_answer_lem env w s answer e h =
    elim (Option-cases (env.set_remote_description (w.subscribers s).pc answer)) [
      | inl n ↦
          let q : (handle_answer env w s answer).1 ≡ none = rw (n, handle_answer) refl in
          absurd (cc (h, q))
      | inr (x, n) ↦ rw (n, handle_answer) refl
    ]

handle_candidate-Keeps :
    (env : Env) (decode : Decode) (w : Store) (params : String)
    → Keeps w (handle_candidate env decode w params)
unfolding handle_candidate
handle_candidate-Keeps env decode w params = elim (Option-cases (decode.candidate params)) [
  | inl n ↦ rw (n, handle_candidate) (unfold Keeps in refl)
  | inr (p, n) ↦
      rw (n, handle_candidate)
        (with_peer-Keeps w p.session_id p.peer_id _ (λ peer.
          done-Keeps w w (add_ice_candidate env w peer p.candidate p.target) (λ e h. refl)))
]

handle_answer_request-Keeps :
    (env : Env) (decode : Decode) (w : Store) (params : String)
    → Keeps w (handle_answer_request env decode w params)
unfolding handle_answer_request
handle_answer_request-Keeps env decode w params = elim (Option-cases (decode.answer params)) [
  | inl n ↦ rw (n, handle_answer_request) (unfold Keeps in refl)
  | inr (p, n) ↦
      rw (n, handle_answer_request)
        (with_peer-Keeps w p.session_id p.peer_id _ (λ peer.
          let s = (w.peers peer).subscriber in
          let (w', o) = handle_answer env w s p.answer in
          done-Keeps w w' o (handle_answer_lem env w s p.answer)))
]

handle_leave-Keeps :
    (env : Env) (decode : Decode) (w : Store) (params : String)
    → Keeps w (handle_leave env decode w params)
unfolding handle_leave with_session
handle_leave-Keeps env decode w params = elim (Option-cases (decode.leave params)) [
  | inl n ↦ rw (n, handle_leave) (unfold Keeps in refl)
  | inr (p, n) ↦ rw (n, handle_leave) (go p (get_session w p.session_id))
]
  where
    go :
        (p : LeaveParams) (r : Result ℕ)
        → Keeps w (with_session w r (λ s. (remove_peer env w s p.peer_id, result success)))
    go p (err e) = unfold Keeps in refl
    go p (ok s) = unfold Keeps in tt

handle_set_layer-Keeps :
    (decode : Decode) (w : Store) (params : String) → Keeps w (handle_set_layer decode w params)
unfolding handle_set_layer
handle_set_layer-Keeps decode w params = elim (Option-cases (decode.set_layer params)) [
  | inl n ↦ rw (n, handle_set_layer) (unfold Keeps in refl)
  | inr (p, n) ↦
      rw (n, handle_set_layer)
        (with_peer-Keeps w p.session_id p.peer_id _ (λ peer. unfold Keeps in tt))
]

known_layers-Keeps : (w : Store) (o : Option (String × String)) → Keeps w (known_layers w o)
unfolding known_layers Keeps
known_layers-Keeps w none = refl
known_layers-Keeps w (some l) = tt

handle_get_layer-Keeps :
    (decode : Decode) (w : Store) (params : String) → Keeps w (handle_get_layer decode w params)
unfolding handle_get_layer
handle_get_layer-Keeps decode w params = elim (Option-cases (decode.get_layer params)) [
  | inl n ↦ rw (n, handle_get_layer) (unfold Keeps in refl)
  | inr (p, n) ↦
      rw (n, handle_get_layer)
        (with_peer-Keeps w p.session_id p.peer_id _
          (λ peer. known_layers-Keeps w (get_layers w (w.peers peer).subscriber p.track_id)))
]

outcome_of-Keeps :
    (env : Env) (decode : Decode) (conn : ℕ) (w : Store) (req : Request)
    → (req.method == "join") ≡ false
    → (req.method == "subscribe") ≡ false
    → Keeps w (outcome_of env decode conn w req)
unfolding outcome_of
outcome_of-Keeps env decode conn w req j s =
    rw (j, s)
      elim (Bool-cases (req.method == "candidate")) [
        | inl c ↦ rw c (handle_candidate-Keeps env decode w req.params)
        | inr c ↦ rw c elim (Bool-cases (req.method == "answer")) [
          | inl a ↦ rw a (handle_answer_request-Keeps env decode w req.params)
          | inr a ↦ rw a elim (Bool-cases (req.method == "leave")) [
            | inl l ↦ rw l (handle_leave-Keeps env decode w req.params)
            | inr l ↦ rw l elim (Bool-cases (req.method == "setLayer")) [
              | inl t ↦ rw t (handle_set_layer-Keeps decode w req.params)
              | inr t ↦ rw t elim (Bool-cases (req.method == "getLayer")) [
                | inl g ↦ rw g (handle_get_layer-Keeps decode w req.params)
                | inr g ↦ rw g (unfold Keeps in refl)
              ]
            ]
          ]
        ]
      ]

Keeps-error :
    (w : Store) (r : Store × Outcome) (c : ℤ) (m : String) → Keeps w r → r.1 ≡ error c m → r.0 ≡ w
unfolding Keeps
Keeps-error w (w', result x) c m k h = absurd (cc h)
Keeps-error w (w', error d n) c m k h = k

-- A request that is answered with an error, whatever its code, has changed nothing, unless it is a join or
-- a subscription.
pub request_error_changes_nothing :
    (env : Env) (decode : Decode) (conn : ℕ) (w : Store) (req : Request) (code : ℤ)
    (message : String)
    → (req.method == "join") ≡ false
    → (req.method == "subscribe") ≡ false
    → (handle_request env decode conn w req).1.outcome ≡ error code message
    → (handle_request env decode conn w req).0 ≡ w
unfolding handle_request
request_error_changes_nothing env decode conn w req code message j s h =
    let r = outcome_of env decode conn w req in
    Keeps-error w r code message (outcome_of-Keeps env decode conn w req j s) h

-- The store and the result of a join's `AddPeer`.
abbrev pub joining : Env → ℕ → Store → JoinParams → Store × Result ℕ
joining env conn w p =
    let (w', s) = get_or_create_session w p.session_id in add_peer env w' s p.peer_id conn

joined_lem :
    (env : Env) (offer : String) (s : ℕ) (w : Store) (r : Result ℕ) (p : ℕ) (e : String)
    → r ≡ ok p
    → handle_offer env w (w.peers p).publisher offer ≡ err e
    → joined env offer s (w, r) ≡ (w, error server_error e)
unfolding joined
joined_lem env offer s w (err x) p e h f = absurd (cc h)
joined_lem env offer s w (ok q) p e h f =
    let same : q ≡ p = ground (arith, h) in
    let g = subst (λ k. handle_offer env w (w.peers k).publisher offer ≡ err e) (sym same) f in
    rw (g, joined) refl

-- A join whose offer is refused is answered with an error, and leaves its peer in the session: the store is
-- the one that `AddPeer` has made, and the session finds the new peer in it.
pub failed_join_stays :
    (env : Env) (decode : Decode) (conn : ℕ) (w : Store) (params : String) (p : JoinParams)
    (peer : ℕ) (e : String)
    → decode.join params ≡ some p
    → (joining env conn w p).1 ≡ ok peer
    → handle_offer env
        (joining env conn w p).0
        ((joining env conn w p).0.peers peer).publisher
        p.offer
      ≡ err e
    → let v = (joining env conn w p).0 in
      (handle_join env decode conn w params ≡ (v, error server_error e))
      × (get_peer v (get_or_create_session w p.session_id).1 p.peer_id ≡ ok peer)
unfolding handle_join
failed_join_stays env decode conn w params p peer e d a h =
    let (w', s) = get_or_create_session w p.session_id in
    let (v, r) = joining env conn w p in
    (
      rw (d, handle_join) (joined_lem env p.offer s v r peer e a h),
      get_peer-add_peer env w' s p.peer_id conn peer a,
    )
