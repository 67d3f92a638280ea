-- ===== src/Examples/Offers.antt =====
-- One round of the negotiation of a subscriber, and rounds that fail.
use choice.Base.{nat_eq, string_eq, ℕ, ◌+◌, ◌≤◌, ◌≡◌, refl, true, false, none, some}
use choice.Negotiation.{Negotiation, new_negotiation, negotiate, do_negotiate, finish_answer}
use choice.Negotiation.System.{
  System, init, enter, create, finish, change, propose, give_up, offer, answer, answered, Reach,
  here, next,
}
use choice.Negotiation.Runs.{work, is_internal, Run, stop, more, is_smooth}
use choice.Negotiation.Settling.{run_bounded, settles}
use choice.Negotiation.Offers.{one, one_negotiation, quiet_up_to_date}
use choice.Negotiation.Failures.{negotiate_all, send_failure_blocks}

abbrev idle : Negotiation
idle = record { closed = false; negotiating = false; needs_offer = false }

abbrev busy : Negotiation
busy = record idle { negotiating = true }

-- An offer has been made after a change of the tracks, and not been answered.
abbrev offered_once : System
offered_once = record {
  sub = busy;
  changing = 0;
  creating = 0;
  offered = true;
  answering = 0;
  spawned = 0;
  offers = 1;
  stale = false;
  lost = false;
  unsent = false;
}

offered_once-Reach : Reach offered_once
unfolding init enter create new_negotiation negotiate do_negotiate
offered_once-Reach = next (next (next here change) (propose 0 refl)) (offer 0 none none none refl)

-- The offer has been answered.
abbrev round_done : System
round_done = record offered_once { sub = idle; offered = false }

round_done-Reach : Reach round_done
unfolding finish finish_answer
round_done-Reach = next (next offered_once-Reach (answer refl)) (answered 0 refl)

one_negotiation_example :
    offered_once.creating + one offered_once.offered + offered_once.answering
    ≡ one offered_once.sub.negotiating
one_negotiation_example = one_negotiation offered_once-Reach

quiet_up_to_date_example : round_done.stale ≡ false
quiet_up_to_date_example = quiet_up_to_date round_done-Reach refl refl refl refl refl

send_failure_blocks_example :
    let (entered, goes_on) = negotiate idle in
    let (after, made, result) = do_negotiate none none (some "write failed") entered in
    (goes_on ≡ true)
    × (made ≡ true)
    × (result ≡ some "write failed")
    × ((negotiate_all after 5).1 ≡ 0)
send_failure_blocks_example = send_failure_blocks idle "write failed" 5 refl refl

-- Two goroutines change the tracks while the offer is out, and one of them has asked for another offer.
abbrev changed_again : System
changed_again = record offered_once {
  sub = record busy { needs_offer = true };
  changing = 1;
  stale = true;
}

changed_again-Reach : Reach changed_again
unfolding enter negotiate
changed_again-Reach = next (next (next offered_once-Reach change) change) (propose 1 refl)

settles_example :
    (t : System) × (n : ℕ) × (r : Run changed_again n t) × (is_smooth r ≡ true)
    × (n ≤ 12)
    × (t.changing ≡ 0)
    × (t.spawned ≡ 0)
    × (t.sub.negotiating ≡ false)
    × (t.stale ≡ false)
settles_example = settles changed_again-Reach (record { open_sub = refl; kept = refl; sent = refl })

-- `Subscribe` adds a downtrack, fails at the next track, and returns without an offer.
abbrev given_up : System
given_up = record {
  sub = idle;
  changing = 0;
  creating = 0;
  offered = false;
  answering = 0;
  spawned = 0;
  offers = 0;
  stale = true;
  lost = true;
  unsent = false;
}

given_up-Reach : Reach given_up
unfolding init new_negotiation
given_up-Reach = next (next here change) (give_up 0 refl)

-- The answer arrives and is handled.
answered_run : Run offered_once 2 round_done
unfolding is_internal finish finish_answer
answered_run = more (more stop (answer refl) refl) (answered 0 refl) refl

run_bounded_example : 2 + work round_done ≤ work offered_once
run_bounded_example = run_bounded answered_run
