-- ===== src/Bandwidth/Order.antt =====
-- pkg/sfu/bandwidth.go: layers against budgets and limits, over any calls.
use choice.Base.{
  nat_eq, string_eq, Option-cases, length, All, lookup, ℕ, ◌/◌, ◌≤◌, max, String, inl, inr, List,
  [], ◌∷◌, arith, All-insert, All-delete,
}
use choice.Layer.{layer_priority}
use choice.Bandwidth.{
  LayerAllocation, Allocations, BandwidthController, select_layer_for_budget, reallocate,
  reallocate_all, lower_max, capped, new_bandwidth_controller, add_track, remove_track,
  set_max_layer, request_layer, recalculate_allocations, on_bitrate_update, close_controller,
}
use choice.Bandwidth.Choice.{chosen_cases, priorities}
use choice.Twcc.{TwccConfig}

-- A larger budget and a higher limit never give a lower layer; and no layer goes above the limit, but
-- the low layer where the limit has no priority at all.
pub select_layer_monotone :
    (budget budget' : ℕ) (limit limit' : String)
    → budget ≤ budget'
    → layer_priority limit ≤ layer_priority limit'
    → (layer_priority (select_layer_for_budget budget limit)
        ≤ layer_priority (select_layer_for_budget budget' limit'))
      × (layer_priority (select_layer_for_budget budget limit) ≤ max 1 (layer_priority limit))
select_layer_monotone budget budget' limit limit' b l = (
  ground (arith, chosen_cases budget limit, chosen_cases budget' limit', priorities),
  ground (arith, chosen_cases budget limit, priorities),
)

-- A track's target is not above its limit, or is of the lowest quality.
abbrev pub IsLimited : String × LayerAllocation → Type 0
IsLimited (id, alloc) = layer_priority alloc.target_layer ≤ max 1 (layer_priority alloc.max_layer)

pub data Call : Type 0 where
  add : String → String → Call
  remove : String → Call
  limit : String → String → Call
  request : String → String → Call
  tick : Call
  bitrate : ℕ → Call
  close : Call

module _ {F : Type 0} where
  unfoldable pub call : BandwidthController F → Call → BandwidthController F
  call bc (add id layer) = add_track bc id layer
  call bc (remove id) = remove_track bc id
  call bc (limit id layer) = set_max_layer bc id layer
  call bc (request id layer) = request_layer bc id layer
  call bc tick = (recalculate_allocations bc).0
  call bc (bitrate n) = (on_bitrate_update bc n).0
  call bc close = close_controller bc

  unfoldable pub run : BandwidthController F → List Call → BandwidthController F
  run bc [] = bc
  run bc (c ∷ cs) = run (call bc c) cs

priority-le : (layer : String) → layer_priority layer ≤ 3
unfolding layer_priority
priority-le layer = ground arith

reallocate-IsLimited :
    (budget : ℕ) (id : String) (alloc : LayerAllocation)
    → IsLimited (id, alloc)
    → IsLimited (id, reallocate budget alloc)
unfolding reallocate
reallocate-IsLimited budget id alloc h = ground (
  arith,
  select_layer_monotone budget budget alloc.max_layer alloc.max_layer (omega arith) (omega arith),
)

reallocate_all-IsLimited :
    (budget : ℕ) (m : Allocations) → All IsLimited m → All IsLimited (reallocate_all budget m)
unfolding reallocate_all
reallocate_all-IsLimited budget [] h = tt
reallocate_all-IsLimited budget ((id, alloc) ∷ m) h =
    (reallocate-IsLimited budget id alloc h.0, reallocate_all-IsLimited budget m h.1)

lower_max-IsLimited :
    (id : String) (alloc : LayerAllocation) (layer : String) → IsLimited (id, lower_max alloc layer)
unfolding lower_max
lower_max-IsLimited id alloc layer = ground arith

capped-le :
    (alloc : LayerAllocation) (layer : String)
    → layer_priority (capped alloc layer) ≤ max 1 (layer_priority alloc.max_layer)
unfolding capped
capped-le alloc layer = ground arith

module _ {F : Type 0} where
  pub recalculate-IsLimited :
      (bc : BandwidthController F)
      → All IsLimited bc.allocations
      → All IsLimited (recalculate_allocations bc).0.allocations
  unfolding recalculate_allocations
  recalculate-IsLimited bc h =
      let budget = bc.available_bitrate / length bc.allocations in
      ground (arith, reallocate_all-IsLimited budget bc.allocations h)

  pub call-IsLimited :
      (bc : BandwidthController F) (c : Call)
      → All IsLimited bc.allocations
      → All IsLimited (call bc c).allocations
  unfolding call add_track remove_track set_max_layer request_layer on_bitrate_update
      close_controller
  call-IsLimited bc (add id layer) h =
      All-insert IsLimited id _ bc.allocations (omega (arith, priority-le layer, priorities)) h
  call-IsLimited bc (remove id) h = All-delete IsLimited id bc.allocations h
  call-IsLimited bc (limit id layer) h = elim (Option-cases (lookup id bc.allocations)) [
    | inl e ↦ rw (e, set_max_layer) h
    | inr (alloc, e) ↦
        rw (e, set_max_layer)
          (All-insert IsLimited id _ bc.allocations (lower_max-IsLimited id alloc layer) h)
  ]
  call-IsLimited bc (request id layer) h = elim (Option-cases (lookup id bc.allocations)) [
    | inl e ↦ rw (e, request_layer) h
    | inr (alloc, e) ↦
        rw (e, request_layer) (All-insert IsLimited id _ bc.allocations (capped-le alloc layer) h)
  ]
  call-IsLimited bc tick h = recalculate-IsLimited bc h
  call-IsLimited bc (bitrate n) h = recalculate-IsLimited (record bc { available_bitrate = n }) h
  call-IsLimited bc close h = ground (arith, h)

  run-IsLimited :
      (bc : BandwidthController F) (cs : List Call)
      → All IsLimited bc.allocations
      → All IsLimited (run bc cs).allocations
  unfolding run
  run-IsLimited bc [] h = h
  run-IsLimited bc (c ∷ cs) h = run-IsLimited (call bc c) cs (call-IsLimited bc c h)

-- Whatever methods are called on a new controller, no track's target exceeds its maximum layer, but for
-- a target of the lowest priority where the maximum is a name with no priority.
pub run_new-IsLimited :
    (F : Type 0) (config : TwccConfig) (cs : List Call)
    → All IsLimited (run (new_bandwidth_controller {F = F} config) cs).allocations
run_new-IsLimited F config cs =
    run-IsLimited (new_bandwidth_controller config) cs (unfold new_bandwidth_controller in tt)
