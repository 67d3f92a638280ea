-- ===== src/Router/Concurrent/Advancing.antt =====
-- pkg/sfu/router.go: the steps of `AddTrack`, beside a `Subscribe` of the same router.
use native.Mathlib.Decide.{ℕ_discrete as dec_eq}
use choice.Base.{
  nat_eq, string_eq, beq_self, lookup, contains, lookup-insert, ℕ, String, ◌≡◌, refl, sym, ◌∙◌,
  subst, inl, inr, true, false, Option, none, some, List, [], ◌∷◌, arith, All-insert, on_if,
}
use choice.Store.{Store, Env}
use choice.Forwarder.{new_forwarder}
use choice.Subscriber.{subscriber_add_down_track}
use choice.Subscriber.DownTracks.{Added, subscriber_add_down_track_lem}
use choice.Router.{connect, connect_known}
use choice.Router.Joining.{IsConnected, connect_lem}
use choice.Router.Completing.{IsKeyed}
use choice.Router.Concurrent.{
  Adding, adding, joining, wiring, offering, added, refused, Subscribing, subscribing, entering,
  attaching, subscribed, is_held, register, add_step,
}
use choice.Router.Concurrent.Steps.{
  Frame, KeepsConnection, Frame-refl, broadcast-Frame, negotiate-Frame, connect_known-Frame,
  Added-Frame, Added-other, Added-failed,
}
use choice.Router.Concurrent.Covered.{
  has, has-insert, forwarder_of, left, joins, Placed, Inv, Frame-Inv, stays,
}

left_free : (sub : Subscribing) → is_held sub ≡ false → left sub ≡ []
left_free subscribing h = refl
left_free (entering tracks) h = absurd (ground (arith, h))
left_free (attaching id tracks) h = absurd (ground (arith, h))
left_free (subscribed result) h = refl

pub wired :
    (w : Store) (f k s g : ℕ) (key id : String)
    → k ≡ s
    → f ≡ g
    → key ≡ id
    → (w.forwarders g).closed ≡ false
    → IsConnected (connect w f k key) g id s
wired w f k s g key id y e i o =
    let own : (w.forwarders f).closed ≡ false =
      subst (λ x. (w.forwarders x).closed ≡ false) (sym e) o in
    let (_, _, _, _, _, _, c) = connect_lem w f k key own in
    subst (λ x. IsConnected (connect w f k key) x id s) e
      (subst (λ x. IsConnected (connect w f k key) f x s) i
        (subst (λ x. IsConnected (connect w f k key) f key x) y c))

module _ (r t s : ℕ) (id : String) where
  register-IsKeyed :
      (w : Store)
      → (w.tracks t).track_id ≡ id
      → IsKeyed w (w.routers r).tracks
      → IsKeyed (register w r t) ((register w r t).routers r).tracks
  unfolding register
  register-IsKeyed w e k = rw (beq_self r) (
      All-insert (λ (e : String × ℕ). (w.tracks e.1).track_id ≡ e.0) (w.tracks t).track_id t
        (w.routers r).tracks refl k)

  register-Placed :
      (w : Store) → (w.tracks t).track_id ≡ id → Placed r t s id (register w r t) w.next
  unfolding register new_forwarder
  register-Placed w e =
      let key = (w.tracks t).track_id in
      let router = w.routers r in
      (
        ground (arith, beq_self w.next),
        subst (λ x. lookup x ((register w r t).routers r).forwarders ≡ some w.next) e
            (ground
              (arith, beq_self r, beq_self key, lookup-insert key key w.next router.forwarders)),
        subst (λ x. has x ((register w r t).routers r).tracks ≡ true) e
            (ground (arith, beq_self r, has-insert key t router.tracks)),
      )

  register-subscribers :
      (w : Store)
      → contains s ((register w r t).routers r).subscribers ≡ contains s (w.routers r).subscribers
  unfolding register
  register-subscribers w = ground (arith, beq_self r)

  register-Inv :
      (w : Store) (sub : Subscribing)
      → is_held sub ≡ false
      → Inv r t s id w adding sub
      → Inv r t s id (register w r t) (joining w.next (w.routers r).subscribers) sub
  register-Inv w sub free h = record {
    track_id = unfold register in h.track_id;
    keyed = register-IsKeyed w h.track_id h.keyed;
    rest = subst (IsKeyed (register w r t)) (sym (left_free sub free)) tt;
    signed = λ y. (register-subscribers w ∙ h.signed y);
    placed = λ f e.
        subst (Placed r t s id (register w r t)) (ground (arith, e)) (register-Placed w h.track_id);
    covered = λ f e y. inl (h.signed y);
  }

  -- The track is added to a subscriber that `AddTrack` has found.
  join-Inv :
      (w w' : Store) (f k : ℕ) (subs : List ℕ) (result : Option String) (sub : Subscribing)
      → Inv r t s id w (joining f (k ∷ subs)) sub
      → Added w w' k t result
      → Inv r t s id w' (elim result [ some e ↦ joining f subs | none ↦ wiring f k subs ]) sub
  unfolding contains KeepsConnection
  join-Inv w w' f k subs none sub h a =
      Frame-Inv r t s id w w' (joining f (k ∷ subs)) (wiring f k subs) sub sub h
        (Added-Frame w w' k t none a) refl refl h.rest
        (λ g e p c.
          stays r t s id w w' (joining f (k ∷ subs)) (wiring f k subs) sub sub g
            (λ x. inl (ground (arith, x))) (λ x. inr (inl x))
            (λ x. elim (dec_eq k s) [
              | yes y ↦ inl (ground (arith, y, beq_self s))
              | no n ↦ inr (inr (Added-other w w' k t s id none a (inl n) g p.0 x))
            ])
            c)
  join-Inv w w' f k subs (some err) sub h a =
      let gone : k ≡ s → (g : ℕ) → IsConnected w' g id s = λ y g.
        subst (λ x. IsConnected w' g x s) h.track_id
          (subst (λ x. IsConnected w' g (w.tracks t).track_id x) y
            (Added-failed w w' k t g err a)) in
      Frame-Inv r t s id w w' (joining f (k ∷ subs)) (joining f subs) sub sub h
        (Added-Frame w w' k t (some err) a) refl refl h.rest
        (λ g e p c.
          stays r t s id w w' (joining f (k ∷ subs)) (joining f subs) sub sub g
            (λ x. elim (dec_eq k s) [
              | yes y ↦ inr (inr (gone y g))
              | no n ↦ inl (ground (arith, x, n))
            ])
            (λ x. inr (inl x))
            (λ x. elim (dec_eq k s) [
              | yes y ↦ inr (inr (gone y g))
              | no n ↦ inr (inr (Added-other w w' k t s id (some err) a (inl n) g p.0 x))
            ])
            c)

  -- Its downtrack is put into the set of the track's forwarder.
  wire-Inv :
      (w : Store) (f k : ℕ) (subs : List ℕ) (sub : Subscribing)
      → Inv r t s id w (wiring f k subs) sub
      → Inv r t s id (connect w f k (w.tracks t).track_id) (offering f k subs) sub
  unfolding connect_known KeepsConnection
  wire-Inv w f k subs sub h =
      let key = (w.tracks t).track_id in
      let w' = connect_known w (some f) k key in
      let (fr, kept) = connect_known-Frame w (some f) k key s id in
      Frame-Inv r t s id w w' (wiring f k subs) (offering f k subs) sub sub h fr refl refl h.rest
        (λ g e p c.
          stays r t s id w w' (wiring f k subs) (offering f k subs) sub sub g
            (λ x. elim (dec_eq k s) [
              | yes y ↦ inr (inr (wired w f k s g key id y (ground (arith, e)) h.track_id p.0))
              | no n ↦ inl (ground (arith, x, n))
            ])
            (λ x. inr (inl x)) (λ x. inr (inr (kept g p.0 x))) c)

  -- Steps that change neither downtracks nor sets.
  pass-Inv :
      (w w' : Store) (adder adder' : Adding) (sub : Subscribing)
      → Inv r t s id w adder sub
      → Frame w w' × KeepsConnection w w' s id
      → forwarder_of adder' ≡ forwarder_of adder
      → (joins s adder ≡ true → joins s adder' ≡ true)
      → Inv r t s id w' adder' sub
  unfolding KeepsConnection
  pass-Inv w w' adder adder' sub h (fr, kept) e j =
      Frame-Inv r t s id w w' adder adder' sub sub h fr e refl h.rest (λ g e p c.
        stays r t s id w w' adder adder' sub sub g (λ x. inl (j x)) (λ x. inr (inl x))
          (λ x. inr (inr (kept g p.0 x))) c)

  pub add_step-Inv :
      (env : Env) (w : Store) (adder : Adding) (sub : Subscribing)
      → Inv r t s id w adder sub
      → let (w', adder') = add_step env r t w (is_held sub) adder in Inv r t s id w' adder' sub
  unfolding add_step
  add_step-Inv env w adding sub h =
      on_if (λ (x : Store × Adding). Inv r t s id x.0 x.1 sub) (is_held sub) (λ y. h)
        (λ free.
          on_if (λ (x : Store × Adding). Inv r t s id x.0 x.1 sub) (w.routers r).closed
            (λ y.
              Frame-Inv r t s id w w adding refused sub sub h (Frame-refl w) refl refl h.rest
                (λ f e. absurd (ground (arith, e))))
            (λ y. register-Inv w sub free h))
  add_step-Inv env w (joining f []) sub h =
      pass-Inv w _ (joining f []) (added f) sub h (broadcast-Frame env w _ _ _ _ s id) refl
        (λ x. absurd (unfold contains in ground (arith, x)))
  add_step-Inv env w (joining f (k ∷ subs)) sub h =
      let (w', result) = subscriber_add_down_track env w k t in
      join-Inv w w' f k subs result sub h (subscriber_add_down_track_lem env w k t)
  add_step-Inv env w (wiring f k subs) sub h = wire-Inv w f k subs sub h
  add_step-Inv env w (offering f k subs) sub h =
      pass-Inv w _ (offering f k subs) (joining f subs) sub h (negotiate-Frame env w k s id) refl
        (λ x. x)
  add_step-Inv env w (added f) sub h = h
  add_step-Inv env w refused sub h = h
