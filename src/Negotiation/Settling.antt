-- ===== src/Negotiation/Settling.antt =====
-- pkg/sfu/subscriber.go: the negotiations of one subscriber come to an end.
use choice.Base.{
  nat_eq, string_eq, ℕ, zero, suc, ◌+◌, ◌≤◌, ◌<◌, ◌≡◌, refl, inl, inr, true, false, arith,
}
use choice.Negotiation.System.{System, Step, Reach, next}
use choice.Negotiation.Offers.{quiet_up_to_date}
use choice.Negotiation.Runs.{
  is_internal, work, Step-work, Run, stop, more, succeeds, is_smooth, prepend, is_smooth-prepend,
}
use choice.Negotiation.Progress.{IsSound, find-Next}

-- From any state, whatever fails, the goroutines and the answers make at most `work` steps: with no further
-- change of the tracks and no new call of `Negotiate`, the negotiations come to an end. What is left to do falls with each step.
pub run_bounded : {s t : System} {n : ℕ} → Run s n t → n + work t ≤ work s
run_bounded stop = omega arith
run_bounded {s} (more {t = t} {u = u} r st h) = omega (arith, run_bounded r, Step-work st h)

-- A run without failures after which nothing is under way.
pub record Settled (s t : System) : Type 0 where
  pub steps : ℕ
  pub run : Run s steps t
  pub smooth : is_smooth run ≡ true
  pub reach : Reach t
  pub none_changing : t.changing ≡ 0
  pub none_spawned : t.spawned ≡ 0
  pub not_negotiating : t.sub.negotiating ≡ false
  pub sound : IsSound t

Settled-step :
    {s t : System} (st : Step s t)
    → is_internal st ≡ true
    → succeeds st ≡ true
    → (u : System) × Settled t u
    → (u : System) × Settled s u
Settled-step st h x (u, v) = (
  u,
  record {
    steps = suc v.steps;
    run = prepend st h v.run;
    smooth = is_smooth-prepend st h v.run x v.smooth;
    reach = v.reach;
    none_changing = v.none_changing;
    none_spawned = v.none_spawned;
    not_negotiating = v.not_negotiating;
    sound = v.sound;
  },
)

stopped :
    (s : System)
    → Reach s
    → IsSound s
    → (s.changing ≡ 0) × (s.spawned ≡ 0) × (s.sub.negotiating ≡ false)
    → (t : System) × Settled s t
unfolding is_smooth
stopped s r g (c, n, q) = (
  s,
  record {
    steps = 0;
    run = stop;
    smooth = refl;
    reach = r;
    none_changing = c;
    none_spawned = n;
    not_negotiating = q;
    sound = g;
  },
)

-- A step that is at hand is taken, and succeeds.
settle : (fuel : ℕ) (s : System) → Reach s → IsSound s → work s < fuel → (t : System) × Settled s t
settle zero s r g h = absurd (omega (arith, h))
settle (suc fuel) s r g h = elim (find-Next s r g) [
  | inl v ↦
      let left = Step-work v.step v.internal in
      Settled-step v.step v.internal v.success
        (settle fuel v.to (next r v.step) v.sound (omega (arith, left, h)))
  | inr q ↦ stopped s r g q
]

-- From every reachable state of an open subscriber of which no change is lost and the last offer was sent, the
-- goroutines and the answers lead, without a failure and in at most `work` steps, to a state in which no goroutine
-- is between a change of the tracks and its call of `Negotiate` and no negotiation and no renegotiation is under
-- way; and there the last offer was created after the last change of the tracks.
pub settles :
    {s : System}
    → Reach s
    → IsSound s
    → (t : System) × (n : ℕ) × (r : Run s n t) × (is_smooth r ≡ true)
      × (n ≤ work s)
      × (t.changing ≡ 0)
      × (t.spawned ≡ 0)
      × (t.sub.negotiating ≡ false)
      × (t.stale ≡ false)
settles {s} r g =
    let (t, v) = settle (suc (work s)) s r g (omega arith) in
    (
      t,
      v.steps,
      v.run,
      v.smooth,
      omega (arith, run_bounded v.run),
      v.none_changing,
      v.none_spawned,
      v.not_negotiating,
      quiet_up_to_date v.reach v.sound.kept v.sound.open_sub v.none_changing v.not_negotiating
          v.none_spawned,
    )
