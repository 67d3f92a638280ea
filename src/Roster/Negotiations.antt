-- ===== src/Roster/Negotiations.antt =====
-- pkg/sfu/subscriber.go: layers, negotiations and their answers leave the peers and the sessions alone.
use choice.Base.{
  nat_eq, string_eq, Bool-cases, Option-cases, lookup, ℕ, String, refl, inl, inr, none,
}
use choice.Negotiation.{Negotiation, negotiate, do_negotiate, finish_answer}
use choice.Store.{Store, Env, Result, ok, err}
use choice.Store.Rooms.{Quiet, Quiet-trans, Quiet-refl, either-Quiet, keeps, keeps_then}
use choice.Messages.{send_offer}
use choice.Subscriber.{set_layer, set_negotiation, offered, negotiate_subscriber, handle_answer}
use choice.Roster.Media.{set_target-Quiet, send_notification-Quiet}

pub set_layer-Quiet : (w : Store) (s : ℕ) (id layer : String) → Quiet w (set_layer w s id layer)
unfolding set_layer
set_layer-Quiet w s id layer = elim (Option-cases (lookup id (w.subscribers s).down_tracks)) [
  | inl h ↦ rw (h, set_layer) (Quiet-refl w)
  | inr (dt, h) ↦ rw (h, set_layer) (set_target-Quiet w dt layer)
]

set_negotiation-Quiet : (w : Store) (s : ℕ) (n : Negotiation) → Quiet w (set_negotiation w s n)
set_negotiation-Quiet w s n = keeps refl refl refl refl refl refl refl

send_offer-Quiet :
    (env : Env) (w : Store) (p : ℕ) (offer : String) → Quiet w (send_offer env w p offer).0
unfolding send_offer
send_offer-Quiet env w p offer = send_notification-Quiet env w p "offer" _

offered-Quiet : (env : Env) (w : Store) (s : ℕ) (r : Result String) → Quiet w (offered env w s r).0
unfolding offered
offered-Quiet env w s (err e) = set_negotiation-Quiet w s _
offered-Quiet env w s (ok offer) =
    let sub = w.subscribers s in
    elim (Option-cases (env.set_local_description sub.pc offer)) [
      | inr (e, h) ↦ rw (h, offered) (set_negotiation-Quiet w s _)
      | inl h ↦
          let (w₁, r) = send_offer env w sub.peer offer in
          rw (h, offered)
            (Quiet-trans (send_offer-Quiet env w sub.peer offer) (
              set_negotiation-Quiet w₁ s
                (do_negotiate none none r (w₁.subscribers s).negotiation).0))
    ]

pub negotiate_subscriber-Quiet :
    (env : Env) (w : Store) (s : ℕ) → Quiet w (negotiate_subscriber env w s).0
unfolding negotiate_subscriber
negotiate_subscriber-Quiet env w s =
    let (n, goes_on) = negotiate (w.subscribers s).negotiation in
    let w₁ = set_negotiation w s n in
    let r = env.create_offer (w.subscribers s).pc in
    elim (Bool-cases goes_on) [
      | inl h ↦ rw h (keeps_then (offered-Quiet env w₁ s r) refl refl refl refl refl refl refl)
      | inr h ↦ rw h (set_negotiation-Quiet w s n)
    ]

pub handle_answer-Quiet :
    (env : Env) (w : Store) (s : ℕ) (answer : String) → Quiet w (handle_answer env w s answer).0
unfolding handle_answer
handle_answer-Quiet env w s answer =
    elim (Option-cases (env.set_remote_description (w.subscribers s).pc answer)) [
      | inr (e, h) ↦ rw (h, handle_answer) (Quiet-refl w)
      | inl h ↦
          let (n, again) = finish_answer (w.subscribers s).negotiation in
          let w₁ = set_negotiation w s n in
          rw (h, handle_answer)
            (either-Quiet again
              (keeps_then (negotiate_subscriber-Quiet env w₁ s) refl refl refl refl refl refl refl)
              (set_negotiation-Quiet w s n))
    ]
