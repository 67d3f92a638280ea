-- ===== src/Twcc/Estimator.antt =====
-- pkg/sfu/twcc.go: `BandwidthEstimator`. The 64-bit floats of Go are a parameter, by the operations that the
-- code uses. A loss rate is a float, a duration a number of nanoseconds, which may be negative.
pub mod Bounds
use choice.Base.{
  ltb, if◌then◌else◌, nat_eq, string_eq, length, u64, ℕ, ◌*◌, Bool, true, false, ◌&&◌, Option, none,
  some, List, [], ◌∷◌, ◌++◌, ℤ, is_positive,
}
use choice.Twcc.{TwccConfig}

pub record Floats : Type 1 where
  pub Float : Type 0
  pub of_u64 : ℕ → Float
  pub to_u64 : Float → ℕ
  pub mul : Float → Float → Float
  pub div : Float → Float → Float
  pub less : Float → Float → Bool
  pub seconds : ℤ → Float  -- Duration.Seconds
  pub hundredths : ℕ → Float  -- the literal n / 100

pub record BitratePoint (F : Type 0) : Type 0 where
  pub timestamp : ℕ
  pub bitrate : ℕ
  pub loss_rate : F

-- `has_callback` says whether `onEstimate` is set.
pub record BandwidthEstimator (F : Type 0) : Type 0 where
  pub config : TwccConfig
  pub estimated_bitrate : ℕ
  pub target_bitrate : ℕ
  pub loss_based_estimate : ℕ
  pub delay_based_estimate : ℕ
  pub last_update : ℕ
  pub history : List (BitratePoint F)
  pub has_callback : Bool

unfoldable pub clamp_bitrate : ℕ → ℕ → ℕ → ℕ
clamp_bitrate bitrate low high =
    if ltb bitrate low then low else if ltb high bitrate then high else bitrate

-- `xs[1:]`
abbrev pub tail {ℓ} : {A : Type ℓ} → List A → List A
tail [] = []
tail (x ∷ xs) = xs

module _ {F : Type 0} where
  unfoldable pub new_bandwidth_estimator : TwccConfig → BandwidthEstimator F
  new_bandwidth_estimator config = record {
    config = config;
    estimated_bitrate = config.initial_bitrate;
    target_bitrate = config.initial_bitrate;
    loss_based_estimate = 0;
    delay_based_estimate = 0;
    last_update = 0;
    history = [];
    has_callback = false;
  }

  unfoldable pub on_estimate : BandwidthEstimator F → BandwidthEstimator F
  on_estimate b = record b { has_callback = true }

  unfoldable pub combine_estimates : BandwidthEstimator F → ℕ
  combine_estimates b =
      if ltb 0 b.delay_based_estimate && ltb 0 b.loss_based_estimate
      then (if ltb b.delay_based_estimate b.loss_based_estimate
          then b.delay_based_estimate
          else b.loss_based_estimate)
      else if ltb 0 b.loss_based_estimate
      then b.loss_based_estimate
      else b.estimated_bitrate

  unfoldable pub get_estimate : BandwidthEstimator F → ℕ
  get_estimate b = b.estimated_bitrate

  unfoldable pub set_delay_based_estimate : BandwidthEstimator F → ℕ → BandwidthEstimator F
  set_delay_based_estimate b bitrate = record b { delay_based_estimate = bitrate }

module _ (floats : Floats) where
  open floats use {Float, of_u64, to_u64, mul, div, less, seconds, hundredths}

  -- Above 10% loss, above 2%, below 1%, and in between.
  unfoldable pub calculate_loss_based_estimate : ℕ → Float → ℕ
  calculate_loss_based_estimate current_bitrate loss_rate =
      if less (hundredths 10) loss_rate
      then to_u64 (mul (of_u64 current_bitrate) (hundredths 50))
      else if less (hundredths 2) loss_rate
      then to_u64 (mul (of_u64 current_bitrate) (hundredths 85))
      else if less loss_rate (hundredths 1)
      then to_u64 (mul (of_u64 current_bitrate) (hundredths 105))
      else current_bitrate

  -- The body under `if duration > 0`.
  measure : BandwidthEstimator Float → ℕ → ℤ → Float → ℕ → BandwidthEstimator Float
  unfolding calculate_loss_based_estimate combine_estimates clamp_bitrate
  measure b received_bytes duration loss_rate now =
      let instant = to_u64 (div (of_u64 (u64 (received_bytes * 8))) (seconds duration)) in
      let b₁ : BandwidthEstimator Float = record b {
        loss_based_estimate = calculate_loss_based_estimate instant loss_rate;
      } in
      let estimate =
        clamp_bitrate (combine_estimates b₁) b.config.min_bitrate b.config.max_bitrate in
      let point : BitratePoint Float = record {
        timestamp = now;
        bitrate = estimate;
        loss_rate = loss_rate;
      } in
      let history = b.history ++ point ∷ [] in
      record b₁ {
        estimated_bitrate = estimate;
        history = if ltb 100 (length history) then tail history else history;
        last_update = now;
      }

  -- With the bitrate that the callback is started with, if there is one.
  unfoldable pub update :
      BandwidthEstimator Float → ℕ → ℤ → Float → ℕ → BandwidthEstimator Float × Option ℕ
  unfolding measure
  update b received_bytes duration loss_rate now =
      let b' =
        if is_positive duration then measure b received_bytes duration loss_rate now else b in
      (b', if b'.has_callback then some b'.estimated_bitrate else none)
