-- ===== src/Negotiation/Failures.antt =====
-- pkg/sfu/subscriber.go: what a failure leaves behind. `doNegotiate` resets the state when the offer cannot be
-- created, and does not when it cannot be sent.
use choice.Base.{
  if◌then◌else◌, nat_eq, string_eq, ℕ, zero, suc, String, ◌≡◌, refl, true, false, Option, none,
  some, arith,
}
use choice.Negotiation.{Negotiation, negotiate, do_negotiate, reset_negotiation_state}

-- Calls of `Negotiate` one after another, with no answer in between: the state, and how many of them go on
-- to make an offer.
unfoldable pub negotiate_all : Negotiation → ℕ → Negotiation × ℕ
negotiate_all s zero = (s, 0)
negotiate_all s (suc n) =
    let (s', goes_on) = negotiate s in
    let (s'', made) = negotiate_all s' n in (s'', if goes_on then suc made else made)

stuck : (s : Negotiation) (n : ℕ) → s.negotiating ≡ true → (negotiate_all s n).1 ≡ 0
unfolding negotiate_all negotiate
stuck s zero h = refl
stuck s (suc n) h = ground (arith, stuck s n h, stuck (record s { needs_offer = true }) n h)

-- On an open subscriber with no negotiation under way, an offer that is created but cannot be sent is
-- returned as an error and leaves the flag `negotiating` set, so that however often `Negotiate` is called
-- after it, no offer is made until an answer is handled, to an offer that the client never got.
pub send_failure_blocks :
    (s : Negotiation) (err : String) (n : ℕ)
    → s.closed ≡ false
    → s.negotiating ≡ false
    → let (entered, goes_on) = negotiate s in
      let (after, made, result) = do_negotiate none none (some err) entered in
      (goes_on ≡ true) × (made ≡ true) × (result ≡ some err) × ((negotiate_all after n).1 ≡ 0)
unfolding negotiate do_negotiate
send_failure_blocks s err n c h =
    (ground arith, refl, refl, stuck (negotiate s).0 n (unfold negotiate in ground arith))

-- If tracks change while an offer is being created, and the creation fails, then the request that waited
-- is not run: no negotiation is under way and none is started, though the flag `needs_offer` is set.
pub create_failure_drops :
    (s : Negotiation) (err : String) (local send : Option String)
    → s.closed ≡ false
    → s.negotiating ≡ true
    → let (asked, goes_on) = negotiate s in
      let (after, made, result) = do_negotiate (some err) local send asked in
      (goes_on ≡ false)
      × (made ≡ false)
      × (result ≡ some err)
      × (after.negotiating ≡ false)
      × (after.needs_offer ≡ true)
unfolding negotiate do_negotiate reset_negotiation_state
create_failure_drops s err local send c h = (ground arith, refl, refl, ground arith, ground arith)
