-- ===== src/Subscriber/Negotiating.antt =====
-- pkg/sfu/subscriber.go: what `Negotiate` leaves alone.
use choice.Base.{
  nat_eq, string_eq, beq→eq, Bool-cases, Option-cases, ℕ, String, ◌≡◌, refl, ap, ◌∙◌, inl, inr,
  arith,
}
use choice.Negotiation.{Negotiation, negotiate, do_negotiate}
use choice.Messages.{send_offer, send_notification}
use choice.Store.{Store, Env, Result, ok, err}
use choice.Subscriber.{set_negotiation, offered, negotiate_subscriber}

-- What does not change for the downtracks of the subscribers.
pub record SameDownTracks (w w' : Store) : Type 0 where
  pub subscribers : (k : ℕ) → (w'.subscribers k).down_tracks ≡ (w.subscribers k).down_tracks
  pub forwarders : w'.forwarders ≡ w.forwarders
  pub tracks : w'.tracks ≡ w.tracks
  pub routers : w'.routers ≡ w.routers

SameDownTracks-trans :
    (a b c : Store) → SameDownTracks a b → SameDownTracks b c → SameDownTracks a c
SameDownTracks-trans a b c p q = record {
  subscribers = λ k. q.subscribers k ∙ p.subscribers k;
  forwarders = q.forwarders ∙ p.forwarders;
  tracks = q.tracks ∙ p.tracks;
  routers = q.routers ∙ p.routers;
}

set_negotiation_lem :
    (w : Store) (s : ℕ) (n : Negotiation) → SameDownTracks w (set_negotiation w s n)
set_negotiation_lem w s n = record {
  subscribers =
      λ k. ground (arith, ap (λ j. (w.subscribers j).down_tracks) {x = s} {y = k}, beq→eq s k);
  forwarders = refl;
  tracks = refl;
  routers = refl;
}

send_offer_lem :
    (env : Env) (w : Store) (p : ℕ) (offer : String) → SameDownTracks w (send_offer env w p offer).0
unfolding send_offer send_notification
send_offer_lem env w p offer = elim (Bool-cases (w.peers p).closed) [
  | inl c ↦
      rw c (record { subscribers = λ k. refl; forwarders = refl; tracks = refl; routers = refl })
  | inr o ↦
      rw o (record { subscribers = λ k. refl; forwarders = refl; tracks = refl; routers = refl })
]

offered_lem :
    (env : Env) (w : Store) (s : ℕ) (offer : Result String)
    → SameDownTracks w (offered env w s offer).0
unfolding do_negotiate offered
offered_lem env w s (err e) = set_negotiation_lem w s _
offered_lem env w s (ok offer) =
    elim (Option-cases (env.set_local_description (w.subscribers s).pc offer)) [
      | inl h ↦
          rw (h, offered)
            (let p = (w.subscribers s).peer in
              let w' = (send_offer env w p offer).0 in
              SameDownTracks-trans w w' _ (send_offer_lem env w p offer)
                (set_negotiation_lem w' s (w'.subscribers s).negotiation))
      | inr (e, h) ↦ rw (h, offered) (set_negotiation_lem w s _)
    ]

-- `Negotiate` leaves every subscriber's downtracks, the forwarders, the tracks and the routers alone.
pub negotiate_subscriber_lem :
    (env : Env) (w : Store) (s : ℕ) → SameDownTracks w (negotiate_subscriber env w s).0
unfolding negotiate_subscriber
negotiate_subscriber_lem env w s =
    let n = (negotiate (w.subscribers s).negotiation).0 in
    let w' = set_negotiation w s n in
    elim (Bool-cases (negotiate (w.subscribers s).negotiation).1) [
      | inl h ↦ rw h (
          SameDownTracks-trans w w' _ (set_negotiation_lem w s n)
            (offered_lem env w' s (env.create_offer (w.subscribers s).pc)))
      | inr h ↦ rw h (set_negotiation_lem w s n)
    ]
