-- ===== src/Router/Concurrent/Meeting.antt =====
-- pkg/sfu/router.go: the steps of `Subscribe`, beside an `AddTrack` of the same router, and how both end.
use choice.Base.{
  ◌==◌, nat_eq, string_eq, beq_self, beq→eq, Bool-cases, lookup, contains, include,
  contains-include, ℕ, String, ◌≡◌, refl, sym, ap, ◌∙◌, subst, ◌≢◌, inl, inr, true, false, Option,
  none, some, List, [], ◌∷◌, arith,
}
use choice.Store.{Store, Env, update}
use choice.Subscriber.{subscriber_add_down_track, get_down_track}
use choice.Subscriber.DownTracks.{Added, subscriber_add_down_track_lem}
use choice.Router.{connect_known}
use choice.Router.Joining.{IsConnected}
use choice.Router.Completing.{IsKeyed}
use choice.Router.Concurrent.{
  Adding, adding, added, Subscribing, subscribing, entering, attaching, subscribed, Calls, is_held,
  add_step, subscribe_step, Turn, add, subscribe, take_turn, take_turns,
}
use choice.Router.Concurrent.Steps.{
  KeepsConnection, Frame-refl, connect_known-Frame, Added-Frame, Added-other,
}
use choice.Router.Concurrent.Covered.{
  has, forwarder_of, started, joins, seeks, Inv, Frame-Inv, stays,
}
use choice.Router.Concurrent.Advancing.{wired, add_step-Inv}

module _ (r t s : ℕ) (id : String) where
  sign : Store → Store
  sign w =
      let router = w.routers r in
      record w {
        routers = update w.routers r (record router { subscribers = include s router.subscribers });
      }

  signed_router :
      (w : Store)
      → let router = (sign w).routers r in
        (router.tracks ≡ (w.routers r).tracks)
        × (router.forwarders ≡ (w.routers r).forwarders)
        × (contains s router.subscribers ≡ true)
  unfolding sign
  signed_router w = (
    ground (arith, beq_self r),
    ground (arith, beq_self r),
    ground (arith, beq_self r, beq_self s, contains-include s s (w.routers r).subscribers),
  )

  sign-Inv :
      (w : Store) (adder : Adding)
      → Inv r t s id w adder subscribing
      → Inv r t s id (sign w) adder (entering (w.routers r).tracks)
  sign-Inv w adder h =
      let (tracks, forwarders, has_it) = signed_router w in
      record {
        track_id = unfold sign in h.track_id;
        keyed = unfold sign in subst (IsKeyed w) (sym tracks) h.keyed;
        rest = unfold sign in h.keyed;
        signed = λ y. has_it;
        placed = λ f e.
            let (o, known, p) = h.placed f e in
            (unfold sign in o, ap (lookup id) forwarders ∙ known, ap (has id) tracks ∙ p);
        covered = λ f e y. let (o, known, p) = h.placed f e in inr (inl p);
      }

  -- A downtrack for a track of the router is added to the subscriber.
  enter-Inv :
      (w w' : Store) (adder : Adding) (j : String) (u : ℕ) (tracks : List (String × ℕ))
      (result : Option String)
      → Inv r t s id w adder (entering ((j, u) ∷ tracks))
      → Added w w' s u result
      → Inv r t s id w' adder
          (elim result [ some e ↦ subscribed (some e) | none ↦ attaching j tracks ])
  unfolding has KeepsConnection
  enter-Inv w w' adder j u tracks none h a =
      let sub = entering ((j, u) ∷ tracks) in
      let sub' = attaching j tracks in
      Frame-Inv r t s id w w' adder adder sub sub' h (Added-Frame w w' s u none a) refl refl
        h.rest.1
        (λ f e p c.
          stays r t s id w w' adder adder sub sub' f (λ x. inl x) (λ x. inr (inl x))
            (λ x. elim (Bool-cases (j == id)) [
              | inl y ↦ inr (inl (ground (arith, y)))
              | inr n ↦
                  let other : (w.tracks u).track_id ≢ id =
                    λ z. ground (arith, n, beq_self id, sym h.rest.0 ∙ z) in
                  inr (inr (Added-other w w' s u s id none a (inr other) f p.0 x))
            ])
            c)
  enter-Inv w w' adder j u tracks (some err) h a =
      Frame-Inv r t s id w w' adder adder (entering ((j, u) ∷ tracks)) (subscribed (some err)) h
        (Added-Frame w w' s u (some err) a) refl refl tt (λ f e p c. inr (inl refl))

  met :
      (w : Store) (f : ℕ) (j : String)
      → j ≡ id
      → (w.forwarders f).closed ≡ false
      → lookup id (w.routers r).forwarders ≡ some f
      → IsConnected (connect_known w (lookup j (w.routers r).forwarders) s j) f id s
  unfolding connect_known
  met w f j y o known =
      subst (λ x. IsConnected (connect_known w (lookup x (w.routers r).forwarders) s x) f id s)
        (sym y)
        (subst (λ x. IsConnected (connect_known w x s id) f id s) (sym known)
          (wired w f s s f id id refl refl refl o))

  attach-Inv :
      (w : Store) (adder : Adding) (j : String) (tracks : List (String × ℕ))
      → Inv r t s id w adder (attaching j tracks)
      → Inv r t s id
          (connect_known w (lookup j (w.routers r).forwarders) s j)
          adder
          (entering tracks)
  unfolding KeepsConnection
  attach-Inv w adder j tracks h =
      let g = lookup j (w.routers r).forwarders in
      let w' = connect_known w g s j in
      let (fr, kept) = connect_known-Frame w g s j s id in
      Frame-Inv r t s id w w' adder adder (attaching j tracks) (entering tracks) h fr refl refl
        h.rest
        (λ f e p c.
          stays r t s id w w' adder adder (attaching j tracks) (entering tracks) f (λ x. inl x)
            (λ x. elim (Bool-cases (j == id)) [
              | inl y ↦ inr (inr (met w f j (beq→eq j id y) p.0 p.1))
              | inr n ↦ inr (inl (ground (arith, x, n)))
            ])
            (λ x. inr (inr (kept f p.0 x))) c)

  subscribe_step-Inv :
      (env : Env) (w : Store) (adder : Adding) (sub : Subscribing)
      → Inv r t s id w adder sub
      → let (w', sub') = subscribe_step env r s w sub in Inv r t s id w' adder sub'
  unfolding subscribe_step
  subscribe_step-Inv env w adder subscribing h = unfold sign in sign-Inv w adder h
  subscribe_step-Inv env w adder (entering []) h =
      Frame-Inv r t s id w w adder adder (entering []) (subscribed none) h (Frame-refl w) refl refl
        tt
        (λ f e p c.
          stays r t s id w w adder adder (entering []) (subscribed none) f (λ x. inl x)
            (λ x. absurd (unfold has in ground (arith, x))) (λ x. inr (inr x)) c)
  subscribe_step-Inv env w adder (entering ((j, u) ∷ tracks)) h =
      let (w', result) = subscriber_add_down_track env w s u in
      enter-Inv w w' adder j u tracks result h (subscriber_add_down_track_lem env w s u)
  subscribe_step-Inv env w adder (attaching j tracks) h = attach-Inv w adder j tracks h
  subscribe_step-Inv env w adder (subscribed result) h = h

  take_turns-Inv :
      (c : Calls) (turns : List (Env × Turn))
      → Inv r t s id c.store c.adder c.subscriber
      → let c' = take_turns r t s c turns in Inv r t s id c'.store c'.adder c'.subscriber
  unfolding take_turns take_turn
  take_turns-Inv c [] h = h
  take_turns-Inv c ((env, add) ∷ turns) h =
      let (w, adder) = add_step env r t c.store (is_held c.subscriber) c.adder in
      take_turns-Inv (record c { store = w; adder = adder }) turns
        (add_step-Inv r t s id env c.store c.adder c.subscriber h)
  take_turns-Inv c ((env, subscribe) ∷ turns) h =
      let (w, sub) = subscribe_step env r s c.store c.subscriber in
      take_turns-Inv (record c { store = w; subscriber = sub }) turns
        (subscribe_step-Inv env c.store c.adder c.subscriber h)

-- The two calls before their first steps.
abbrev pub begin : Store → Calls
begin w = record { store = w; adder = adding; subscriber = subscribing }

begin-Inv :
    (r t s : ℕ) (w : Store)
    → IsKeyed w (w.routers r).tracks
    → Inv r t s (w.tracks t).track_id w adding subscribing
begin-Inv r t s w k = record {
  track_id = refl;
  keyed = k;
  rest = tt;
  signed = λ y. absurd (ground (arith, y));
  placed = λ f e. absurd (ground (arith, e));
  covered = λ f e y. absurd (ground (arith, e));
}

-- `AddTrack` and `Subscribe` run on a router that keeps each track under its id, in any interleaving of their
-- steps and with any answers of the libraries. When both have ended, `Subscribe` without an error, the router
-- has the forwarder that `AddTrack` has made under the track's id, and the downtrack that the subscriber has for
-- the track is in that forwarder's set.
pub calls_connect :
    (r t s : ℕ) (w : Store) (turns : List (Env × Turn)) (f dt : ℕ)
    → IsKeyed w (w.routers r).tracks
    → (take_turns r t s (begin w) turns).adder ≡ added f
    → (take_turns r t s (begin w) turns).subscriber ≡ subscribed none
    → get_down_track (take_turns r t s (begin w) turns).store s (w.tracks t).track_id ≡ some dt
    → let w' = (take_turns r t s (begin w) turns).store in
      (lookup (w.tracks t).track_id (w'.routers r).forwarders ≡ some f)
      × (contains dt (w'.forwarders f).down_tracks ≡ true)
unfolding get_down_track IsConnected
calls_connect r t s w turns f dt k a b d =
    let id = (w.tracks t).track_id in
    let c = take_turns r t s (begin w) turns in
    let h = take_turns-Inv r t s id (begin w) turns (begin-Inv r t s w k) in
    let made = ap forwarder_of a in
    let (o, known, has_it) = h.placed f made in
    let found = h.covered f made (ap started b) in
    (
      known,
      elim found [
        | inl x ↦ absurd (ground (arith, ap (joins s) a, x))
        | inr z ↦ elim z [ inl x ↦ absurd (ground (arith, ap (seeks id) b, x)) | inr x ↦ x dt d ]
      ],
    )
