-- ===== src/Examples/Bitrates.antt =====
-- A controller with two video tracks, and an estimator that reads a rate of hundredths as a float.
use choice.Base.{
  ltb, nat_eq, string_eq, All, ℕ, ◌*◌, ◌/◌, ◌%◌, ◌^◌, ◌≤◌, String, ◌≡◌, refl, ◌⊎◌, true, false,
  some, [], ◌∷◌, arith, pos, negsuc,
}
use choice.Layer.{layer_priority, high, mid, low}
use choice.Twcc.{TwccConfig, default_twcc_config}
use choice.Twcc.Estimator.{Floats, BandwidthEstimator, new_bandwidth_estimator, update}
use choice.Twcc.Estimator.Bounds.{Inv, updates, delay, run, run_new-Inv, IsCombined, update_cases}
use choice.Bandwidth.{
  LayerAllocation, BandwidthController, select_layer_for_budget, new_bandwidth_controller,
  recalculate_allocations,
}
use choice.Bandwidth.Choice.{Fits, select_layer_best}
use choice.Bandwidth.Order.{
  IsLimited, add, limit, bitrate, run as run_controller, run_new-IsLimited,
}
use choice.Bandwidth.Budget.{load, changed, load-recalculate, recalculate_stable}

select_layer_best_example :
    ((other : String)
      → Fits 600_000 high other
      → layer_priority other ≤ layer_priority (select_layer_for_budget 600_000 high))
    × (Fits 600_000 high (select_layer_for_budget 600_000 high)
        ⊎ ((select_layer_for_budget 600_000 high ≡ low)
            × ((other : String) → ¬ Fits 600_000 high other)))
select_layer_best_example = select_layer_best 600_000 high

-- Floats as hundredths, rounded down.
abbrev cents : Floats
cents = record {
  Float = ℕ;
  of_u64 = λ n. n * 100;
  to_u64 = λ x. x / 100 % 2 ^ 64;
  mul = λ x y. x * y / 100;
  div = λ x y. x * 100 / y;
  less = ltb;
  seconds = λ d. elim d [ pos n ↦ n / 10_000_000 | negsuc n ↦ 0 ];
  hundredths = λ n. n;
}

abbrev config : TwccConfig
config = record {
  initial_bitrate = 1_000_000;
  min_bitrate = 100_000;
  max_bitrate = 5_000_000;
  feedback_interval = 100_000_000;
}

config_lem : default_twcc_config ≡ config
unfolding default_twcc_config
config_lem = refl

run_new-IsLimited_example :
    All IsLimited
      (run_controller
        (new_bandwidth_controller {F = ℕ} config)
        (add "cam" high ∷ add "screen" low ∷ limit "cam" mid ∷ bitrate 9_000_000 ∷ [])).allocations
run_new-IsLimited_example =
    run_new-IsLimited ℕ config
      (add "cam" high ∷ add "screen" low ∷ limit "cam" mid ∷ bitrate 9_000_000 ∷ [])

abbrev allocation : String → String → LayerAllocation
allocation id layer = record {
  track_id = id;
  target_layer = layer;
  current_layer = layer;
  max_layer = high;
  paused = false;
}

abbrev shared : BandwidthController ℕ
shared = record {
  config = config;
  estimator = new_bandwidth_estimator config;
  allocations = ("cam", allocation "cam" high) ∷ ("screen", allocation "screen" low) ∷ [];
  available_bitrate = 1_200_000;
  has_callback = true;
  closed = false;
}

load-recalculate_example : load (recalculate_allocations shared).0.allocations ≤ 1_200_000
load-recalculate_example = load-recalculate shared refl (omega arith)

recalculate_stable_example :
    let (bc', calls) = recalculate_allocations shared in
    (calls ≡ changed shared.allocations bc'.allocations) × (recalculate_allocations bc' ≡ (bc', []))
recalculate_stable_example = recalculate_stable shared

run_new-Inv_example : Inv config (
    run cents (new_bandwidth_estimator config) (
      updates 1_000_000 (pos 1_000_000_000) 0 7
      ∷ delay 300_000
      ∷ updates 10 (pos 1_000_000_000) 20 8
      ∷ []))
run_new-Inv_example =
    run_new-Inv cents config (omega arith)
      (updates 1_000_000 (pos 1_000_000_000) 0 7
        ∷ delay 300_000
        ∷ updates 10 (pos 1_000_000_000) 20 8
        ∷ [])
      (omega arith) (omega arith)

abbrev measured : BandwidthEstimator ℕ
measured = record {
  config = config;
  estimated_bitrate = 1_000_000;
  target_bitrate = 1_000_000;
  loss_based_estimate = 0;
  delay_based_estimate = 700_000;
  last_update = 0;
  history = [];
  has_callback = true;
}

update_cases_example :
    let (b', told) = update cents measured 1_000_000 (pos 1_000_000_000) 0 7 in
    (told ≡ some b'.estimated_bitrate)
    × (b'.delay_based_estimate ≡ 700_000)
    × IsCombined config 1_000_000 b'.loss_based_estimate 700_000 b'.estimated_bitrate
update_cases_example =
    update_cases cents config (omega arith) measured 1_000_000 (pos 1_000_000_000) 0 7
      (record {
        config = refl;
        estimate = (omega arith, omega arith);
        points = tt;
        short = omega arith;
      })
      refl
