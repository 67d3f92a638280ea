-- ===== src/Bandwidth.antt =====
-- pkg/sfu/bandwidth.go: `BandwidthController`, which shares the available bitrate out among the tracks. Each
-- method runs under the controller's lock.
-- `F` is the type of floats, for the estimator; the controller's own work has none.
pub mod Choice
pub mod Order
pub mod Budget
pub mod Override
pub mod Allocating
use choice.Base.{
  ltb, leb, if◌then◌else◌, ◌==◌, ◌/=◌, nat_eq, string_eq, length, lookup, insert, delete, ℕ, ◌/◌,
  String, Bool, true, false, Option, none, some, List, [], ◌∷◌, ℤ,
}
use choice.Layer.{layer_priority, high, mid, low}
use choice.Twcc.{TwccConfig}
use choice.Twcc.Estimator.{Floats, BandwidthEstimator, new_bandwidth_estimator, on_estimate, update}

pub record LayerAllocation : Type 0 where
  pub track_id : String
  pub target_layer : String
  pub current_layer : String
  pub max_layer : String
  pub paused : Bool

abbrev pub Allocations : Type 0
Allocations = List (String × LayerAllocation)

pub record BandwidthController (F : Type 0) : Type 0 where
  pub config : TwccConfig
  pub estimator : BandwidthEstimator F
  pub allocations : Allocations
  pub available_bitrate : ℕ  -- uint64
  pub has_callback : Bool
  pub closed : Bool

-- Bits per second.
abbrev pub layer_bitrates : List (String × ℕ)
layer_bitrates = (high, 2_500_000) ∷ (mid, 500_000) ∷ (low, 150_000) ∷ []

-- The loop of `selectLayerForBudget`.
unfoldable pub first_fitting : ℕ → ℕ → List String → String
unfolding lookup
first_fitting budget max_priority [] = low
first_fitting budget max_priority (layer ∷ layers) =
    let rest = first_fitting budget max_priority layers in
    if ltb max_priority (layer_priority layer) then rest else elim (lookup layer layer_bitrates) [
      | some bitrate ↦ if leb bitrate budget then layer else rest
      | none ↦ rest
    ]

unfoldable pub select_layer_for_budget : ℕ → String → String
unfolding first_fitting
select_layer_for_budget budget max_layer =
    first_fitting budget (layer_priority max_layer) (high ∷ mid ∷ low ∷ [])

-- The body of the loop of `recalculateAllocations`.
unfoldable pub reallocate : ℕ → LayerAllocation → LayerAllocation
reallocate budget alloc =
    if alloc.paused
    then alloc
    else let new_layer = select_layer_for_budget budget alloc.max_layer in
      if new_layer /= alloc.target_layer then record alloc { target_layer = new_layer } else alloc

-- The loop over the map, and the tracks and layers that `onLayerChange` is started with.
unfoldable pub reallocate_all : ℕ → Allocations → Allocations
reallocate_all budget [] = []
reallocate_all budget ((id, alloc) ∷ allocs) =
    (id, reallocate budget alloc) ∷ reallocate_all budget allocs

unfoldable pub layer_changes : ℕ → Allocations → List (String × String)
layer_changes budget [] = []
layer_changes budget ((id, alloc) ∷ allocs) =
    let rest = layer_changes budget allocs in
    let new_layer = select_layer_for_budget budget alloc.max_layer in
    if alloc.paused
    then rest
    else if new_layer /= alloc.target_layer
    then (id, new_layer) ∷ rest
    else rest

-- What `SetMaxLayer` and `RequestLayer` do to an allocation.
unfoldable pub lower_max : LayerAllocation → String → LayerAllocation
lower_max alloc max_layer =
    if ltb (layer_priority max_layer) (layer_priority alloc.target_layer)
    then record alloc { max_layer = max_layer; target_layer = max_layer }
    else record alloc { max_layer = max_layer }

unfoldable pub capped : LayerAllocation → String → String
capped alloc layer =
    if ltb (layer_priority alloc.max_layer) (layer_priority layer) then alloc.max_layer else layer

module _ {F : Type 0} where
  unfoldable pub new_bandwidth_controller : TwccConfig → BandwidthController F
  new_bandwidth_controller config = record {
    config = config;
    estimator = on_estimate (new_bandwidth_estimator config);
    allocations = [];
    available_bitrate = config.initial_bitrate;
    has_callback = false;
    closed = false;
  }

  unfoldable pub on_layer_change : BandwidthController F → BandwidthController F
  on_layer_change bc = record bc { has_callback = true }

  unfoldable pub add_track : BandwidthController F → String → String → BandwidthController F
  add_track bc track_id initial_layer =
      let alloc : LayerAllocation = record {
        track_id = track_id;
        target_layer = initial_layer;
        current_layer = initial_layer;
        max_layer = high;
        paused = false;
      } in
      record bc { allocations = insert track_id alloc bc.allocations }

  unfoldable pub remove_track : BandwidthController F → String → BandwidthController F
  remove_track bc track_id = record bc { allocations = delete track_id bc.allocations }

  unfoldable pub set_max_layer : BandwidthController F → String → String → BandwidthController F
  unfolding lower_max
  set_max_layer bc track_id max_layer = elim (lookup track_id bc.allocations) [
    | none ↦ bc
    | some alloc ↦ record bc {
      allocations = insert track_id (lower_max alloc max_layer) bc.allocations;
    }
  ]

  unfoldable pub request_layer : BandwidthController F → String → String → BandwidthController F
  unfolding capped
  request_layer bc track_id layer = elim (lookup track_id bc.allocations) [
    | none ↦ bc
    | some alloc ↦ record bc {
      allocations =
          insert track_id (record alloc { target_layer = capped alloc layer }) bc.allocations;
    }
  ]

  unfoldable pub get_target_layer : BandwidthController F → String → String
  get_target_layer bc track_id = elim (lookup track_id bc.allocations) [
    | none ↦ high
    | some alloc ↦ alloc.target_layer
  ]

  -- With the calls of `onLayerChange` that are started.
  unfoldable pub recalculate_allocations :
      BandwidthController F → BandwidthController F × List (String × String)
  recalculate_allocations bc =
      let num_tracks = length bc.allocations in
      let budget = bc.available_bitrate / num_tracks in
      if bc.closed then (bc, []) else if num_tracks == 0 then (bc, []) else (
        record bc { allocations = reallocate_all budget bc.allocations },
        if bc.has_callback then layer_changes budget bc.allocations else [],
      )

  unfoldable pub on_bitrate_update :
      BandwidthController F → ℕ → BandwidthController F × List (String × String)
  on_bitrate_update bc bitrate = recalculate_allocations (record bc { available_bitrate = bitrate })

  unfoldable pub get_available_bitrate : BandwidthController F → ℕ
  get_available_bitrate bc = bc.available_bitrate

  unfoldable pub close_controller : BandwidthController F → BandwidthController F
  close_controller bc = if bc.closed then bc else record bc { closed = true }

-- With the bitrate that `onBitrateUpdate` is started with.
unfoldable pub update_bitrate :
    (floats : Floats)
    → BandwidthController floats.Float
    → ℕ
    → ℤ
    → floats.Float
    → ℕ
    → BandwidthController floats.Float × Option ℕ
update_bitrate floats bc received_bytes duration loss_rate now =
    let (estimator, told) = update floats bc.estimator received_bytes duration loss_rate now in
    (record bc { estimator = estimator }, told)
