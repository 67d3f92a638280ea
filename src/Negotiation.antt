-- ===== src/Negotiation.antt =====
-- pkg/sfu/subscriber.go: the negotiation state of a `Subscriber`. `Negotiate` and `HandleAnswer` change it in
-- short critical sections under `negMu`; between these the goroutines run freely. What
-- the peer connection and the peer answer is an argument: `none`, or an error.
pub mod System
pub mod Offers
pub mod Runs
pub mod Progress
pub mod Settling
pub mod Failures
use choice.Base.{if◌then◌else◌, nat_eq, string_eq, String, Bool, true, false, Option, none, some}

pub record Negotiation : Type 0 where
  pub closed : Bool
  pub negotiating : Bool
  pub needs_offer : Bool

unfoldable pub new_negotiation : Negotiation
new_negotiation = record { closed = false; negotiating = false; needs_offer = false }

-- The critical section of `Negotiate`. The flag says whether the caller goes on to `doNegotiate`.
unfoldable pub negotiate : Negotiation → Negotiation × Bool
negotiate s =
    if s.closed
    then (s, false)
    else if s.negotiating
    then (record s { needs_offer = true }, false)
    else (record s { negotiating = true; needs_offer = false }, true)

unfoldable pub reset_negotiation_state : Negotiation → Negotiation
reset_negotiation_state s = record s { negotiating = false }

-- `doNegotiate`, by the results of `CreateOffer`, `SetLocalDescription` and `SendOffer`: the state, whether
-- the offer became the local description, and the error returned.
unfoldable pub do_negotiate :
    Option String → Option String → Option String → Negotiation → Negotiation × Bool × Option String
do_negotiate (some err) local send s = (reset_negotiation_state s, false, some err)
do_negotiate none (some err) send s = (reset_negotiation_state s, false, some err)
do_negotiate none none send s = (s, true, send)

-- The critical section of `HandleAnswer`, after `SetRemoteDescription` has succeeded. The flag says whether
-- a goroutine is started that calls `Negotiate`.
unfoldable pub finish_answer : Negotiation → Negotiation × Bool
finish_answer s = (record s { negotiating = false; needs_offer = false }, s.needs_offer)

unfoldable pub close_negotiation : Negotiation → Negotiation
close_negotiation s = record s { closed = true }
