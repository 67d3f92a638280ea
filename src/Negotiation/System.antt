-- ===== src/Negotiation/System.antt =====
-- pkg/sfu/subscriber.go: the goroutines that negotiate for one subscriber, and its peer connection. The peer
-- connection takes an answer only while it has a local offer, as WebRTC demands.
use choice.Base.{
  if◌then◌else◌, nat_eq, string_eq, ℕ, suc, String, ◌≡◌, Bool, true, false, ◌||◌, Option, none,
  some,
}
use choice.Negotiation.{
  Negotiation, new_negotiation, negotiate, do_negotiate, finish_answer, close_negotiation,
}

pub record System : Type 0 where
  pub sub : Negotiation
  pub changing : ℕ  -- goroutines that have added a downtrack and not yet called Negotiate
  pub creating : ℕ  -- goroutines in doNegotiate, before the offer is created
  pub offered : Bool  -- the peer connection has a local offer
  pub answering : ℕ  -- calls of HandleAnswer between SetRemoteDescription and the critical section
  pub spawned : ℕ  -- renegotiations started and not yet run
  pub offers : ℕ  -- offers made
  pub stale : Bool  -- the tracks have changed since the last offer was created
  pub lost : Bool  -- and since then no offer could be created, or the goroutine gave up its call of Negotiate
  pub unsent : Bool  -- the last offer could not be sent

unfoldable pub init : System
unfolding new_negotiation
init = record {
  sub = new_negotiation;
  changing = 0;
  creating = 0;
  offered = false;
  answering = 0;
  spawned = 0;
  offers = 0;
  stale = false;
  lost = false;
  unsent = false;
}

-- A goroutine runs the critical section of `Negotiate`.
unfoldable pub enter : System → System
unfolding negotiate
enter s =
    let (sub, goes_on) = negotiate s.sub in
    record s { sub = sub; creating = if goes_on then suc s.creating else s.creating }

abbrev pub is_error : Option String → Bool
is_error none = false
is_error (some err) = true

-- `doNegotiate`, with the results of its calls; `n` other goroutines are in it.
unfoldable pub create : System → ℕ → Option String → Option String → Option String → System
unfolding do_negotiate
create s n offer local send =
    let (sub, made, err) = do_negotiate offer local send s.sub in
    if made
    then record s {
      sub = sub;
      creating = n;
      offered = true;
      offers = suc s.offers;
      stale = false;
      lost = false;
      unsent = is_error err;
    }
    else record s { sub = sub; creating = n; lost = s.lost || s.stale }

unfoldable pub finish : System → ℕ → System
unfolding finish_answer
finish s n =
    let (sub, again) = finish_answer s.sub in
    record s { sub = sub; answering = n; spawned = if again then suc s.spawned else s.spawned }

-- `AddTrack` and `Subscribe` add downtracks and then call `Negotiate`; in between the other goroutines run.
pub data Step (s : System) : System → Type 0 where
  -- The first downtrack that a goroutine adds.
  change : Step s (record s { changing = suc s.changing; stale = true })
  -- Another one: `Subscribe` goes over the tracks of the router.
  change_again : (n : ℕ) → s.changing ≡ suc n → Step s (record s { stale = true })
  -- The call of `Negotiate` after the changes.
  propose : (n : ℕ) → s.changing ≡ suc n → Step s (enter (record s { changing = n }))
  -- `Subscribe` returns the error of a later track, without the call.
  give_up :
      (n : ℕ) → s.changing ≡ suc n → Step s (record s { changing = n; lost = s.lost || s.stale })
  -- A call of `Negotiate` by a goroutine that has added no downtrack.
  ask : Step s (enter s)
  rerun : (n : ℕ) → s.spawned ≡ suc n → Step s (enter (record s { spawned = n }))
  offer :
      (n : ℕ) (created local sent : Option String)
      → s.creating ≡ suc n
      → Step s (create s n created local sent)
  answer : s.offered ≡ true → Step s (record s { offered = false; answering = suc s.answering })
  answered : (n : ℕ) → s.answering ≡ suc n → Step s (finish s n)
  close : Step s (record s { sub = close_negotiation s.sub })

pub data Reach : System → Type 0 where
  here : Reach init
  next : {s t : System} → Reach s → Step s t → Reach t
