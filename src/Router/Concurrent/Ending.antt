-- ===== src/Router/Concurrent/Ending.antt =====
-- pkg/sfu/router.go: `AddTrack` and `Subscribe` on one router end, wherever they stand.
use choice.Base.{
  nat_eq, string_eq, ℕ, String, ◌≡◌, refl, sym, subst, Bool, true, false, Option, none, some, List,
  [], ◌∷◌, ◌++◌, arith, on_if,
}
use choice.Store.{Store, Env}
use choice.Subscriber.{subscriber_add_down_track}
use choice.Router.Concurrent.{
  Adding, adding, joining, wiring, offering, added, refused, Subscribing, subscribing, entering,
  attaching, subscribed, Calls, add_step, subscribe_step, Turn, add, subscribe, take_turn,
  take_turns,
}

abbrev pub has_subscribed : Subscribing → Bool
has_subscribed (subscribed result) = true
has_subscribed _ = false

abbrev pub has_added : Adding → Bool
has_added (added f) = true
has_added refused = true
has_added _ = false

module _ (env : Env) (r t s : ℕ) where
  -- Some turns lead to a state with the property.
  abbrev Leads : (Calls → Type 0) → Calls → Type 0
  Leads P c = (turns : List (Env × Turn)) × P (take_turns r t s c turns)

  now : (P : Calls → Type 0) (c : Calls) → P c → Leads P c
  unfolding take_turns
  now P c p = ([], p)

  after :
      (P : Calls → Type 0) (c : Calls) (turn : Turn)
      → Leads P (take_turn env r t s c turn)
      → Leads P c
  unfolding take_turns
  after P c turn (turns, p) = ((env, turn) ∷ turns, p)

  take_turns-append :
      (c : Calls) (xs ys : List (Env × Turn))
      → take_turns r t s c (xs ++ ys) ≡ take_turns r t s (take_turns r t s c xs) ys
  unfolding take_turns
  take_turns-append c [] ys = refl
  take_turns-append c ((e, turn) ∷ xs) ys = take_turns-append (take_turn e r t s c turn) xs ys

  and_then :
      (P Q : Calls → Type 0) (c : Calls) → Leads P c → ((d : Calls) → P d → Leads Q d) → Leads Q c
  and_then P Q c (xs, p) go =
      let (ys, q) = go (take_turns r t s c xs) p in
      (xs ++ ys, subst Q (sym (take_turns-append c xs ys)) q)

  abbrev IsSubscribed : Calls → Type 0
  IsSubscribed c = has_subscribed c.subscriber ≡ true

  abbrev AreOver : Calls → Type 0
  AreOver c = (has_subscribed c.subscriber ≡ true) × (has_added c.adder ≡ true)

  at : Store → Adding → Subscribing → Calls
  at w adder sub = record { store = w; adder = adder; subscriber = sub }

  entered_or_failed :
      (w : Store) (adder : Adding) (j : String) (tracks : List (String × ℕ))
      (result : Option String)
      → ((v : Store) → Leads IsSubscribed (at v adder (entering tracks)))
      → Leads IsSubscribed
          (at w adder (elim result [ some e ↦ subscribed (some e) | none ↦ attaching j tracks ]))
  unfolding at take_turn subscribe_step
  entered_or_failed w adder j tracks (some e) go = now IsSubscribed _ refl
  entered_or_failed w adder j tracks none go = after IsSubscribed _ subscribe (go _)

  entering_ends :
      (tracks : List (String × ℕ)) (w : Store) (adder : Adding)
      → Leads IsSubscribed (at w adder (entering tracks))
  unfolding at take_turn subscribe_step
  entering_ends [] w adder = after IsSubscribed _ subscribe (now IsSubscribed _ refl)
  entering_ends ((j, u) ∷ tracks) w adder =
      let (w', result) = subscriber_add_down_track env w s u in
      after IsSubscribed (at w adder (entering ((j, u) ∷ tracks))) subscribe
        (entered_or_failed w' adder j tracks result (λ v. entering_ends tracks v adder))

  subscribe_ends :
      (w : Store) (adder : Adding) (sub : Subscribing) → Leads IsSubscribed (at w adder sub)
  unfolding at take_turn subscribe_step
  subscribe_ends w adder subscribing = after IsSubscribed _ subscribe (entering_ends _ _ adder)
  subscribe_ends w adder (entering tracks) = entering_ends tracks w adder
  subscribe_ends w adder (attaching j tracks) =
      after IsSubscribed _ subscribe (entering_ends tracks _ adder)
  subscribe_ends w adder (subscribed result) = now IsSubscribed _ refl

  joined_or_failed :
      (w : Store) (f k : ℕ) (subs : List ℕ) (x result : Option String)
      → ((v : Store) → Leads AreOver (at v (joining f subs) (subscribed x)))
      → Leads AreOver
          (at w (elim result [ some e ↦ joining f subs | none ↦ wiring f k subs ]) (subscribed x))
  unfolding at take_turn add_step
  joined_or_failed w f k subs x (some e) go = go w
  joined_or_failed w f k subs x none go = after AreOver _ add (after AreOver _ add (go _))

  joining_ends :
      (subs : List ℕ) (w : Store) (f : ℕ) (x : Option String)
      → Leads AreOver (at w (joining f subs) (subscribed x))
  unfolding at take_turn add_step
  joining_ends [] w f x = after AreOver _ add (now AreOver _ (refl, refl))
  joining_ends (k ∷ subs) w f x =
      let (w', result) = subscriber_add_down_track env w k t in
      after AreOver (at w (joining f (k ∷ subs)) (subscribed x)) add
        (joined_or_failed w' f k subs x result (λ v. joining_ends subs v f x))

  begin_or_refuse : (w : Store) (x : Option String) → Leads AreOver (at w adding (subscribed x))
  unfolding at take_turn add_step
  begin_or_refuse w x = after AreOver (at w adding (subscribed x)) add (
      on_if (λ (y : Store × Adding). Leads AreOver (at y.0 y.1 (subscribed x))) (w.routers r).closed
        (λ e. now AreOver _ (refl, refl)) (λ e. joining_ends (w.routers r).subscribers _ w.next x))

  add_ends :
      (w : Store) (adder : Adding) (sub : Subscribing)
      → has_subscribed sub ≡ true
      → Leads AreOver (at w adder sub)
  unfolding at take_turn add_step
  add_ends w adding (subscribed x) h = begin_or_refuse w x
  add_ends w (joining f subs) (subscribed x) h = joining_ends subs w f x
  add_ends w (wiring f k subs) (subscribed x) h =
      after AreOver _ add (after AreOver _ add (joining_ends subs _ f x))
  add_ends w (offering f k subs) (subscribed x) h = after AreOver _ add (joining_ends subs _ f x)
  add_ends w (added f) (subscribed x) h = now AreOver _ (refl, refl)
  add_ends w refused (subscribed x) h = now AreOver _ (refl, refl)
  add_ends w adder subscribing h = absurd (ground (arith, h))
  add_ends w adder (entering tracks) h = absurd (ground (arith, h))
  add_ends w adder (attaching j tracks) h = absurd (ground (arith, h))

  -- Wherever the two calls stand, and whatever the libraries answer, some further steps end both.
  pub calls_end :
      (c : Calls)
      → (turns : List (Env × Turn)) × (has_subscribed (take_turns r t s c turns).subscriber ≡ true)
        × (has_added (take_turns r t s c turns).adder ≡ true)
  unfolding at
  calls_end c =
      let (turns, over) =
        and_then IsSubscribed AreOver c (subscribe_ends c.store c.adder c.subscriber)
          (λ d h. add_ends d.store d.adder d.subscriber h) in
      (turns, over.0, over.1)
