-- ===== src/Negotiation/Offers.antt =====
-- pkg/sfu/subscriber.go: the offers of one subscriber, over every interleaving.
use choice.Base.{
  if◌then◌else◌, nat_eq, string_eq, Bool-cases, ℕ, suc, ◌+◌, ◌<◌, String, ◌≡◌, ◌⊎◌, inl, inr, Bool,
  true, false, Option, none, some, arith,
}
use choice.Negotiation.{
  new_negotiation, negotiate, do_negotiate, reset_negotiation_state, finish_answer,
  close_negotiation,
}
use choice.Negotiation.System.{
  System, init, enter, create, finish, Step, change, change_again, propose, give_up, ask, rerun,
  offer, answer, answered, close, Reach, here, next,
}

abbrev pub one : Bool → ℕ
one b = if b then 1 else 0

-- Something will make or repeat an offer.
abbrev IsCovered : System → Type 0
IsCovered s =
    ((s.sub.needs_offer ≡ true) × (s.sub.negotiating ≡ true))
    ⊎ (0 < s.spawned)
    ⊎ (0 < s.creating)
    ⊎ (0 < s.changing)

record Inv (s : System) : Type 0 where
  exclusive : s.creating + one s.offered + s.answering ≡ one s.sub.negotiating
  covered : s.stale ≡ true → s.lost ≡ false → s.sub.closed ≡ false → IsCovered s

init-Inv : Inv init
unfolding init new_negotiation
init-Inv = ground arith

abbrev IsExclusive : System → Type 0
IsExclusive s = s.creating + one s.offered + s.answering ≡ one s.sub.negotiating

-- After the critical section something is under way, unless the subscriber is closed.
enter-Inv : (s : System) → IsExclusive s → Inv (enter s)
unfolding enter negotiate
enter-Inv s e = record { exclusive = ground arith; covered = λ a b c. ground arith }

create-Inv :
    (s : System) (n : ℕ) (created local sent : Option String)
    → s.creating ≡ suc n
    → Inv s
    → Inv (create s n created local sent)
unfolding create do_negotiate reset_negotiation_state
create-Inv s n (some e) local sent c v = ground arith
create-Inv s n none (some e) sent c v = ground arith
create-Inv s n none none sent c v = ground arith

finish-Inv : (s : System) (n : ℕ) → s.answering ≡ suc n → Inv s → Inv (finish s n)
unfolding finish finish_answer
finish-Inv s n a v = record {
  exclusive = ground (arith, v.exclusive);
  covered = λ st f c. ground (arith, v.covered st f c, v.exclusive);
}

Step-Inv : {s t : System} → Step s t → Inv s → Inv t
unfolding close_negotiation
Step-Inv {s} change v = record {
  exclusive = v.exclusive;
  covered = λ a b c. inr (inr (inr (omega arith)));
}
Step-Inv {s} (change_again n e) v = record {
  exclusive = v.exclusive;
  covered = λ a b c. inr (inr (inr (omega (arith, e))));
}
Step-Inv {s} (propose n e) v = enter-Inv (record s { changing = n }) v.exclusive
Step-Inv {s} (give_up n e) v = record {
  exclusive = v.exclusive;
  covered = λ a b c. absurd (ground (arith, a, b));
}
Step-Inv {s} ask v = enter-Inv s v.exclusive
Step-Inv {s} (rerun n e) v = enter-Inv (record s { spawned = n }) v.exclusive
Step-Inv {s} (offer n created local sent c) v = create-Inv s n created local sent c v
Step-Inv {s} (answer o) v = record {
  exclusive = ground (arith, v.exclusive);
  covered = λ a b c. v.covered a b c;
}
Step-Inv {s} (answered n a) v = finish-Inv s n a v
Step-Inv {s} close v = record { exclusive = v.exclusive; covered = λ a b c. absurd (cc c) }

Reach-Inv : {s : System} → Reach s → Inv s
Reach-Inv here = init-Inv
Reach-Inv (next r st) = Step-Inv st (Reach-Inv r)

-- However the goroutines are interleaved, at most one negotiation is under way: one goroutine that makes an
-- offer, or one local offer without an answer, or one answer being processed; and there is one exactly
-- while the flag `negotiating` is set.
pub one_negotiation :
    {s : System} → Reach s → s.creating + one s.offered + s.answering ≡ one s.sub.negotiating
one_negotiation r = (Reach-Inv r).exclusive

-- While the subscriber is open and no change is lost (to an offer that could not be created, or to a `Subscribe`
-- that returned an error after it had added a downtrack, with no offer created since), once no goroutine is
-- between a change of the tracks and its call of `Negotiate`, and no negotiation and no renegotiation is under
-- way, the last offer was created after the last change of the tracks.
pub quiet_up_to_date :
    {s : System}
    → Reach s
    → s.lost ≡ false
    → s.sub.closed ≡ false
    → s.changing ≡ 0
    → s.sub.negotiating ≡ false
    → s.spawned ≡ 0
    → s.stale ≡ false
quiet_up_to_date {s} r f o k n z = elim (Bool-cases s.stale) [
  | inl st ↦
      let v = Reach-Inv r in let w = v.covered st f o in absurd (ground (arith, v.exclusive, w))
  | inr fresh ↦ fresh
]
