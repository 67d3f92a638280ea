-- ===== src/Router/Concurrent/Covered.antt =====
-- pkg/sfu/router.go: while `AddTrack` and `Subscribe` run, the new track and the subscriber are not lost to
-- each other.
use choice.Base.{
  ◌==◌, nat_eq, string_eq, beq_self, lookup, insert, contains, ℕ, String, ◌≡◌, sym, ap, ◌∙◌, subst,
  ◌⊎◌, inl, inr, Bool, true, false, ◌||◌, Option, none, some, List, [], ◌∷◌, arith,
}
use choice.Store.{Store}
use choice.Router.Joining.{IsConnected}
use choice.Router.Completing.{IsKeyed, IsKeyed-kept}
use choice.Router.Concurrent.{
  Adding, adding, joining, wiring, offering, added, refused, Subscribing, subscribing, entering,
  attaching, subscribed,
}
use choice.Router.Concurrent.Steps.{Frame}

unfoldable pub has : String → List (String × ℕ) → Bool
has id [] = false
has id ((j, t) ∷ tracks) = let rest = has id tracks in j == id || rest

pub has-insert :
    (id : String) (t : ℕ) (tracks : List (String × ℕ)) → has id (insert id t tracks) ≡ true
unfolding has insert
has-insert id t [] = ground (arith, beq_self id)
has-insert id t ((j, u) ∷ tracks) = ground (arith, has-insert id t tracks, beq_self id)

abbrev pub forwarder_of : Adding → Option ℕ
forwarder_of adding = none
forwarder_of (joining f subs) = some f
forwarder_of (wiring f k subs) = some f
forwarder_of (offering f k subs) = some f
forwarder_of (added f) = some f
forwarder_of refused = none

abbrev pub started : Subscribing → Bool
started subscribing = false
started _ = true

abbrev pub left : Subscribing → List (String × ℕ)
left subscribing = []
left (entering tracks) = tracks
left (attaching j tracks) = tracks
left (subscribed result) = []

-- `AddTrack` has yet to connect the subscriber.
abbrev pub joins : ℕ → Adding → Bool
joins s adding = false
joins s (joining f subs) = contains s subs
joins s (wiring f k subs) = k == s || contains s subs
joins s (offering f k subs) = contains s subs
joins s (added f) = false
joins s refused = false

-- `Subscribe` has yet to connect the track, or has failed.
abbrev pub seeks : String → Subscribing → Bool
seeks id subscribing = false
seeks id (entering tracks) = has id tracks
seeks id (attaching j tracks) = j == id || has id tracks
seeks id (subscribed none) = false
seeks id (subscribed (some e)) = true

module _ (r t s : ℕ) (id : String) where
  -- The track has its forwarder.
  abbrev pub Placed : Store → ℕ → Type 0
  Placed w f =
      ((w.forwarders f).closed ≡ false)
      × (lookup id (w.routers r).forwarders ≡ some f)
      × (has id (w.routers r).tracks ≡ true)

  abbrev pub Covered : Store → Adding → Subscribing → ℕ → Type 0
  Covered w adder sub f = (joins s adder ≡ true) ⊎ ((seeks id sub ≡ true) ⊎ IsConnected w f id s)

  pub record Inv (w : Store) (adder : Adding) (sub : Subscribing) : Type 0 where
    pub track_id : (w.tracks t).track_id ≡ id
    pub keyed : IsKeyed w (w.routers r).tracks
    pub rest : IsKeyed w (left sub)
    pub signed : started sub ≡ true → contains s (w.routers r).subscribers ≡ true
    pub placed : (f : ℕ) → forwarder_of adder ≡ some f → Placed w f
    pub covered : (f : ℕ) → forwarder_of adder ≡ some f → started sub ≡ true → Covered w adder sub f

  pub Frame-Inv :
      (w w' : Store) (adder adder' : Adding) (sub sub' : Subscribing)
      → Inv w adder sub
      → Frame w w'
      → forwarder_of adder' ≡ forwarder_of adder
      → started sub' ≡ started sub
      → IsKeyed w (left sub')
      → ((f : ℕ)
          → forwarder_of adder ≡ some f
          → Placed w f
          → Covered w adder sub f
          → Covered w' adder' sub' f)
      → Inv w' adder' sub'
  Frame-Inv w w' adder adder' sub sub' h fr e e' rest c =
      let tracks = ap (λ x. (x r).tracks) fr.routers in
      record {
        track_id = fr.track_id t ∙ h.track_id;
        keyed =
            subst (IsKeyed w') (sym tracks)
              (IsKeyed-kept w w' (w.routers r).tracks fr.track_id h.keyed);
        rest = IsKeyed-kept w w' (left sub') fr.track_id rest;
        signed = λ y. ap (λ x. contains s (x r).subscribers) fr.routers ∙ h.signed (sym e' ∙ y);
        placed = λ f y.
            let (o, known, has_it) = h.placed f (sym e ∙ y) in
            (
              fr.open_forwarder f o,
              ap (λ x. lookup id (x r).forwarders) fr.routers ∙ known,
              ap (has id) tracks ∙ has_it,
            );
        covered = λ f y z.
            c f (sym e ∙ y) (h.placed f (sym e ∙ y)) (h.covered f (sym e ∙ y) (sym e' ∙ z));
      }

  -- A step that ends no one's search.
  pub stays :
      (w w' : Store) (adder adder' : Adding) (sub sub' : Subscribing) (f : ℕ)
      → (joins s adder ≡ true → Covered w' adder' sub' f)
      → (seeks id sub ≡ true → Covered w' adder' sub' f)
      → (IsConnected w f id s → Covered w' adder' sub' f)
      → Covered w adder sub f
      → Covered w' adder' sub' f
  stays w w' adder adder' sub sub' f a b c (inl x) = a x
  stays w w' adder adder' sub sub' f a b c (inr (inl x)) = b x
  stays w w' adder adder' sub sub' f a b c (inr (inr x)) = c x
