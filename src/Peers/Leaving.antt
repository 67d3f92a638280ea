-- ===== src/Peers/Leaving.antt =====
-- pkg/sfu/subscriber.go: what `Close` does to a subscriber, its routers and its downtracks.
use choice.Base.{
  if◌then◌else◌, nat_eq, string_eq, beq_self, beq→eq, Bool-cases, contains, ℕ, ◌≡◌, refl, ap, ◌∙◌,
  inl, inr, true, false, not, ◌&&◌, none, List, [], ◌∷◌, arith, contains-exclude,
}
use choice.DownTrack.{close_down_track}
use choice.Negotiation.{close_negotiation}
use choice.Store.{Store, Env, Subscriber, update}
use choice.Forwarder.{close_dt, close_each}
use choice.Forwarder.Closing.{shut, close_each_lem}
use choice.Router.{unsubscribe}
use choice.Peers.{values, unsubscribe_each, close_subscriber}

close_dt-subscribers :
    (w : Store) (dt : ℕ)
    → let w' = close_dt w dt in (w'.subscribers ≡ w.subscribers) × (w'.routers ≡ w.routers)
unfolding close_dt
close_dt-subscribers w dt = elim (Bool-cases (close_down_track (w.down_tracks dt)).1) [
  | inl c ↦ rw c (refl, refl)
  | inr o ↦ rw o (refl, refl)
]

close_each-subscribers :
    (w : Store) (dts : List ℕ)
    → let w' = close_each w dts in (w'.subscribers ≡ w.subscribers) × (w'.routers ≡ w.routers)
unfolding close_each
close_each-subscribers w [] = (refl, refl)
close_each-subscribers w (dt ∷ dts) =
    let (a, b) = close_each-subscribers (close_dt w dt) dts in
    let (c, d) = close_dt-subscribers w dt in (a ∙ c, b ∙ d)

unsubscribe_each_lem :
    (w : Store) (s : ℕ) (rs : List ℕ) (r : ℕ)
    → let w' = unsubscribe_each w s rs in
      (contains s (w'.routers r).subscribers
        ≡ (contains s (w.routers r).subscribers && not (contains r rs)))
      × (w'.subscribers ≡ w.subscribers)
      × (w'.down_tracks ≡ w.down_tracks)
unfolding unsubscribe_each unsubscribe contains
unsubscribe_each_lem w s [] r = (ground arith, refl, refl)
unsubscribe_each_lem w s (q ∷ rs) r =
    let (a, b, c) = unsubscribe_each_lem (unsubscribe w q s) s rs r in
    let e = ap (λ k. contains s (w.routers k).subscribers) {x = q} {y = r} in
    (
      ground (arith, a, contains-exclude s s (w.routers q).subscribers, beq_self s, beq→eq q r, e),
      b,
      c,
    )

-- Closing an open subscriber marks it, takes it off each router it has subscribed to and off no other,
-- closes the downtracks that it maps and changes no other, and forgets its routers; closing it again changes
-- nothing and returns no error.
pub close_subscriber_lem :
    (env : Env) (w : Store) (s r dt : ℕ)
    → (w.subscribers s).negotiation.closed ≡ false
    → let w' = (close_subscriber env w s).0 in
      let sub = w.subscribers s in
      let d = w.down_tracks dt in
      ((w'.subscribers s).negotiation.closed ≡ true)
      × ((w'.subscribers s).routers ≡ [])
      × (contains s (w'.routers r).subscribers
          ≡ (contains s (w.routers r).subscribers && not (contains r sub.routers)))
      × (w'.down_tracks dt ≡ (if contains dt (values sub.down_tracks) then shut d else d))
      × (close_subscriber env w' s ≡ (w', none))
unfolding close_subscriber close_negotiation
close_subscriber_lem env w s r dt o =
    let sub = w.subscribers s in
    let sub' : Subscriber = record sub {
      routers = [];
      negotiation = close_negotiation sub.negotiation;
    } in
    let w₁ : Store = record w { subscribers = update w.subscribers s sub' } in
    let w₂ = unsubscribe_each w₁ s sub.routers in
    let w₃ = close_each w₂ (values sub.down_tracks) in
    let (a, b, c) = unsubscribe_each_lem w₁ s sub.routers r in
    let (all, _) = close_each_lem w₂ (values sub.down_tracks) dt in
    let (subs, routers) = close_each-subscribers w₂ (values sub.down_tracks) in
    let now : w₃.subscribers s ≡ sub' = ap (λ g. g s) (subs ∙ b) ∙ ground (arith, beq_self s) in
    let closed = ap (λ x. x.negotiation.closed) now in
    simp o (
      closed,
      ap (λ x. x.routers) now,
      ap (λ g. contains s (g r).subscribers) routers ∙ a,
      all ∙ ap (λ g. if contains dt (values sub.down_tracks) then shut (g dt) else g dt) c,
      rw closed refl,
    )
