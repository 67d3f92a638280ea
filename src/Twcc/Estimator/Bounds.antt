-- ===== src/Twcc/Estimator/Bounds.antt =====
-- pkg/sfu/twcc.go: what holds of a `BandwidthEstimator` after any updates.
use choice.Base.{
  ltb, if◌then◌else◌, nat_eq, string_eq, Bool-cases, length, All, length-append, All-append, u64, ℕ,
  ◌-◌, ◌*◌, ◌≤◌, ◌<◌, min, max, ◌≡◌, refl, ◌⊎◌, inl, inr, true, none, some, List, [], ◌∷◌, ◌++◌,
  arith, ℤ, is_positive,
}
use choice.Twcc.{TwccConfig}
use choice.Twcc.Estimator.{
  Floats, BitratePoint, BandwidthEstimator, clamp_bitrate, tail, new_bandwidth_estimator,
  combine_estimates, set_delay_based_estimate, calculate_loss_based_estimate, measure, update,
}

abbrev Bounded : TwccConfig → ℕ → Type 0
Bounded c bitrate = (c.min_bitrate ≤ bitrate) × (bitrate ≤ c.max_bitrate)

pub record Inv {F : Type 0} (c : TwccConfig) (b : BandwidthEstimator F) : Type 0 where
  pub config : b.config ≡ c
  pub estimate : Bounded c b.estimated_bitrate
  pub points : All (λ (p : BitratePoint F). Bounded c p.bitrate) b.history
  pub short : length b.history ≤ 100

clamp_bounds :
    (bitrate low high : ℕ)
    → low ≤ high
    → (low ≤ clamp_bitrate bitrate low high)
      × (clamp_bitrate bitrate low high ≤ high)
      × (low ≤ bitrate → bitrate ≤ high → clamp_bitrate bitrate low high ≡ bitrate)
unfolding clamp_bitrate
clamp_bounds bitrate low high h = (ground arith, ground arith, ground arith)

-- What the estimate is to be: the lesser of the estimates by loss and by delay, if there is one by delay.
abbrev lesser : ℕ → ℕ → ℕ
lesser by_loss by_delay = if ltb 0 by_delay then min by_loss by_delay else by_loss

-- Without an estimate by loss the estimate stays; else it is within the bounds as close to the lesser one as can be.
abbrev pub IsCombined : TwccConfig → ℕ → ℕ → ℕ → ℕ → Type 0
IsCombined c before by_loss by_delay e =
    ((by_loss ≡ 0) × (e ≡ before))
    ⊎ ((0 < by_loss)
        × (min c.max_bitrate (lesser by_loss by_delay) ≤ e)
        × (e ≤ max c.min_bitrate (lesser by_loss by_delay)))

module _ (floats : Floats) where
  open floats use {Float}

  pub data Call : Type 0 where
    updates : ℕ → ℤ → Float → ℕ → Call
    delay : ℕ → Call

  unfoldable pub call : BandwidthEstimator Float → Call → BandwidthEstimator Float
  call b (updates bytes duration loss now) = (update floats b bytes duration loss now).0
  call b (delay bitrate) = set_delay_based_estimate b bitrate

  unfoldable pub run : BandwidthEstimator Float → List Call → BandwidthEstimator Float
  run b [] = b
  run b (c ∷ cs) = run (call b c) cs

All-tail {ℓ κ} : {A : Type ℓ} (P : A → Type κ) (xs : List A) → All P xs → All P (tail xs)
All-tail P [] h = h
All-tail P (x ∷ xs) h = h.1

length-tail {ℓ} : {A : Type ℓ} (xs : List A) → length (tail xs) ≡ length xs - 1
length-tail [] = omega arith
length-tail (x ∷ xs) = omega arith

module _ (floats : Floats) (c : TwccConfig) (ordered : c.min_bitrate ≤ c.max_bitrate) where
  open floats use {Float}

  measure-Inv :
      (b : BandwidthEstimator Float) (bytes : ℕ) (duration : ℤ) (loss : Float) (now : ℕ)
      → Inv c b
      → Inv c (measure floats b bytes duration loss now)
  unfolding measure
  measure-Inv b bytes duration loss now v =
      let b' = measure floats b bytes duration loss now in
      let bounds : Bounded c b'.estimated_bitrate = ground (
        arith,
        v.config,
        clamp_bounds
            (combine_estimates (record b {
              loss_based_estimate =
                  calculate_loss_based_estimate floats
                    (floats.to_u64
                      (floats.div (floats.of_u64 (u64 (bytes * 8))) (floats.seconds duration)))
                    loss;
            }))
            c.min_bitrate c.max_bitrate ordered,
      ) in
      let point : BitratePoint Float = record {
        timestamp = now;
        bitrate = b'.estimated_bitrate;
        loss_rate = loss;
      } in
      let P = λ (p : BitratePoint Float). Bounded c p.bitrate in
      let history = b.history ++ point ∷ [] in
      let all = All-append P b.history (point ∷ []) v.points (bounds, tt) in
      let size = length-append b.history (point ∷ []) in
      record {
        config = v.config;
        estimate = bounds;
        points = elim (Bool-cases (ltb 100 (length history))) [
          | inl y ↦ rw y (All-tail P history all)
          | inr n ↦ rw n all
        ];
        short = ground (arith, size, v.short, length-tail history);
      }

  call-Inv : (b : BandwidthEstimator Float) (k : Call floats) → Inv c b → Inv c (call floats b k)
  unfolding call update set_delay_based_estimate
  call-Inv b (updates bytes duration loss now) v = elim (Bool-cases (is_positive duration)) [
    | inl y ↦ rw y (measure-Inv b bytes duration loss now v)
    | inr n ↦ rw n v
  ]
  call-Inv b (delay bitrate) v = record {
    config = v.config;
    estimate = v.estimate;
    points = v.points;
    short = v.short;
  }

  run-Inv :
      (b : BandwidthEstimator Float) (ks : List (Call floats)) → Inv c b → Inv c (run floats b ks)
  unfolding run
  run-Inv b [] v = v
  run-Inv b (k ∷ ks) v = run-Inv (call floats b k) ks (call-Inv b k v)

  -- Where the configured bounds are in order and hold of the initial bitrate, any calls on a new estimator
  -- leave its estimate, and every bitrate in its history, within the bounds, and at most 100 points of
  -- history, whatever the floats compute.
  pub run_new-Inv :
      (ks : List (Call floats))
      → c.min_bitrate ≤ c.initial_bitrate
      → c.initial_bitrate ≤ c.max_bitrate
      → Inv c (run floats (new_bandwidth_estimator c) ks)
  run_new-Inv ks low high = run-Inv (new_bandwidth_estimator c) ks (
      unfold new_bandwidth_estimator in
      record { config = refl; estimate = (low, high); points = tt; short = omega arith })

  combined :
      (b : BandwidthEstimator Float)
      → Bounded c b.estimated_bitrate
      → IsCombined c b.estimated_bitrate b.loss_based_estimate b.delay_based_estimate
          (clamp_bitrate (combine_estimates b) c.min_bitrate c.max_bitrate)
  unfolding clamp_bitrate combine_estimates
  combined b (low, high) = ground (arith, ordered)

  -- An update over a positive time, on an estimator that is within the bounds, which are in order. With no estimate
  -- by loss the estimate stays as it was, whatever the estimate by delay. With a positive one, the estimate exceeds
  -- neither it nor a positive estimate by delay, unless the lower bound does, and is not below both, unless the
  -- upper bound is. The estimate by delay stays. The callback is started with the estimate, if it is set.
  pub update_cases :
      (b : BandwidthEstimator Float) (bytes : ℕ) (duration : ℤ) (loss : Float) (now : ℕ)
      → Inv c b
      → is_positive duration ≡ true
      → let (b', told) = update floats b bytes duration loss now in
        (told ≡ (if b.has_callback then some b'.estimated_bitrate else none))
        × (b'.delay_based_estimate ≡ b.delay_based_estimate)
        × IsCombined c b.estimated_bitrate b'.loss_based_estimate b.delay_based_estimate
            b'.estimated_bitrate
  unfolding update measure
  update_cases b bytes duration loss now v y =
      rw (y, v.config) (refl, refl, combined measured v.estimate)
    where
      measured : BandwidthEstimator Float
      measured = record b {
        loss_based_estimate =
            calculate_loss_based_estimate floats
              (floats.to_u64
                (floats.div (floats.of_u64 (u64 (bytes * 8))) (floats.seconds duration)))
              loss;
      }
