-- ===== src/Negotiation/Progress.antt =====
-- pkg/sfu/subscriber.go: while a negotiation of a subscriber is under way, some step is at hand.
use choice.Base.{
  nat_eq, string_eq, Bool-cases, ℕ, zero, suc, ◌≡◌, refl, ◌⊎◌, inl, inr, true, false, none, arith,
}
use choice.Negotiation.{negotiate, do_negotiate, finish_answer}
use choice.Negotiation.System.{
  System, enter, create, finish, Step, propose, rerun, offer, answer, answered, Reach,
}
use choice.Negotiation.Offers.{one_negotiation}
use choice.Negotiation.Runs.{is_internal, succeeds}

-- An open subscriber, of which no change is lost and the last offer was sent.
pub record IsSound (s : System) : Type 0 where
  pub open_sub : s.sub.closed ≡ false
  pub kept : s.lost ≡ false
  pub sent : s.unsent ≡ false

ℕ-cases : (n : ℕ) → (n ≡ 0) ⊎ ((m : ℕ) × (n ≡ suc m))
ℕ-cases zero = inl refl
ℕ-cases (suc m) = inr (m, refl)

enter-IsSound : (s : System) → IsSound s → IsSound (enter s)
unfolding enter negotiate
enter-IsSound s g = record { open_sub = ground (arith, g.open_sub); kept = g.kept; sent = g.sent }

create-IsSound : (s : System) (n : ℕ) → IsSound s → IsSound (create s n none none none)
unfolding create do_negotiate
create-IsSound s n g = record { open_sub = g.open_sub; kept = refl; sent = refl }

finish-IsSound : (s : System) (n : ℕ) → IsSound s → IsSound (finish s n)
unfolding finish finish_answer
finish-IsSound s n g = record { open_sub = g.open_sub; kept = g.kept; sent = g.sent }

-- What is at hand, if anything is: a step that succeeds, and what it leaves.
pub record Next (s : System) : Type 0 where
  pub to : System
  pub step : Step s to
  pub internal : is_internal step ≡ true
  pub success : succeeds step ≡ true
  pub sound : IsSound to

pub find-Next :
    (s : System)
    → Reach s
    → IsSound s
    → Next s ⊎ ((s.changing ≡ 0) × (s.spawned ≡ 0) × (s.sub.negotiating ≡ false))
unfolding is_internal succeeds
find-Next s r g = elim (ℕ-cases s.changing) [
  | inr (n, e) ↦ inl (record {
    to = enter (record s { changing = n });
    step = propose n e;
    internal = refl;
    success = refl;
    sound =
        enter-IsSound (record s { changing = n })
          (record { open_sub = g.open_sub; kept = g.kept; sent = g.sent });
  })
  | inl no_change ↦ elim (ℕ-cases s.spawned) [
    | inr (n, e) ↦ inl (record {
      to = enter (record s { spawned = n });
      step = rerun n e;
      internal = refl;
      success = refl;
      sound =
          enter-IsSound (record s { spawned = n })
            (record { open_sub = g.open_sub; kept = g.kept; sent = g.sent });
    })
    | inl idle ↦ elim (ℕ-cases s.creating) [
      | inr (n, e) ↦ inl (record {
        to = create s n none none none;
        step = offer n none none none e;
        internal = refl;
        success = refl;
        sound = create-IsSound s n g;
      })
      | inl no_creating ↦ elim (Bool-cases s.offered) [
        | inl e ↦ inl (record {
          to = record s { offered = false; answering = suc s.answering };
          step = answer e;
          internal = refl;
          success = ground (arith, g.sent);
          sound = record { open_sub = g.open_sub; kept = g.kept; sent = g.sent };
        })
        | inr no_offer ↦ elim (ℕ-cases s.answering) [
          | inr (n, e) ↦ inl (record {
            to = finish s n;
            step = answered n e;
            internal = refl;
            success = refl;
            sound = finish-IsSound s n g;
          })
          | inl no_answer ↦
              inr (
                no_change,
                idle,
                ground (arith, one_negotiation r, no_creating, no_offer, no_answer),
              )
        ]
      ]
    ]
  ]
]
