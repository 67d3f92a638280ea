-- ===== src/Negotiation/Runs.antt =====
-- pkg/sfu/subscriber.go: runs of the goroutines and the answers of one subscriber, and how much is left to do.
use choice.Base.{
  nat_eq, string_eq, ℕ, zero, suc, ◌+◌, ◌*◌, ◌<◌, ◌≡◌, Bool, true, false, not, ◌&&◌, ◌||◌, none,
  some, arith,
}
use choice.Negotiation.{negotiate, do_negotiate, reset_negotiation_state, finish_answer}
use choice.Negotiation.System.{
  System, is_error, enter, create, finish, Step, change, change_again, propose, give_up, ask, rerun,
  offer, answer, answered, close,
}
use choice.Negotiation.Offers.{one}

-- The steps of what is under way: goroutines that run on, and answers. The others are changes of the tracks, new
-- calls of `Negotiate`, and the closing.
unfoldable pub is_internal : {s t : System} → Step s t → Bool
is_internal change = false
is_internal (change_again n e) = false
is_internal (propose n e) = true
is_internal (give_up n e) = true
is_internal ask = false
is_internal (rerun n e) = true
is_internal (offer n created local sent e) = true
is_internal (answer e) = true
is_internal (answered n e) = true
is_internal close = false

-- How much is left to do.
abbrev pub work : System → ℕ
work s =
    5 * s.spawned
    + 5 * s.changing
    + 4 * one s.sub.needs_offer
    + 4 * s.creating
    + 3 * one s.offered
    + 2 * s.answering

pub Step-work : {s t : System} (st : Step s t) → is_internal st ≡ true → work t < work s
unfolding is_internal enter create finish negotiate do_negotiate reset_negotiation_state
    finish_answer
Step-work change h = absurd (cc h)
Step-work (change_again n e) h = absurd (cc h)
Step-work {s} (propose n e) h = ground arith
Step-work {s} (give_up n e) h = ground arith
Step-work ask h = absurd (cc h)
Step-work {s} (rerun n e) h = ground arith
Step-work {s} (offer n none none sent e) h = ground arith
Step-work {s} (offer n none (some x) sent e) h = ground arith
Step-work {s} (offer n (some x) local sent e) h = ground arith
Step-work {s} (answer e) h = ground arith
Step-work {s} (answered n e) h = ground arith
Step-work close h = absurd (cc h)

-- `n` internal steps, one after another.
pub data Run (s : System) : ℕ → System → Type 0 where
  stop : Run s zero s
  more :
      {n : ℕ} {t u : System} → Run s n t → (st : Step t u) → is_internal st ≡ true → Run s (suc n) u

-- A step that is no failure: an offer is created and sent, an answer is to an offer that was sent, and no
-- goroutine gives up its call of `Negotiate`.
unfoldable pub succeeds : {s t : System} → Step s t → Bool
succeeds (propose n e) = true
succeeds (rerun n e) = true
succeeds (offer n created local sent e) = not (is_error created || is_error local || is_error sent)
succeeds {s} (answer e) = not s.unsent
succeeds (answered n e) = true
succeeds _ = false

unfoldable pub is_smooth : {s t : System} {n : ℕ} → Run s n t → Bool
is_smooth stop = true
is_smooth (more r st h) = let before = is_smooth r in succeeds st && before

pub prepend :
    {s t u : System} {n : ℕ} (st : Step s t) → is_internal st ≡ true → Run t n u → Run s (suc n) u
prepend st h stop = more stop st h
prepend st h (more r st' h') = more (prepend st h r) st' h'

pub is_smooth-prepend :
    {s t u : System} {n : ℕ} (st : Step s t) (h : is_internal st ≡ true) (r : Run t n u)
    → succeeds st ≡ true
    → is_smooth r ≡ true
    → is_smooth (prepend st h r) ≡ true
unfolding is_smooth prepend
is_smooth-prepend st h stop x y = ground (arith, x)
is_smooth-prepend st h (more r st' h') x y =
    let later = is_smooth-prepend st h r x in ground (arith, y, later)
