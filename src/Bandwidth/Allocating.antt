-- ===== src/Bandwidth/Allocating.antt =====
-- pkg/sfu/bandwidth.go: `allocationLoop`, which `Start` runs as a goroutine.
use choice.Base.{
  nat_eq, string_eq, Bool-cases, Option-cases, All, lookup, String, ◌≡◌, refl, inl, inr, Bool, true,
  not, List, [], ◌∷◌, arith,
}
use choice.Ticker.{Round, Looped, calls, ticker_loop, all_ticked, closed_loop}
use choice.Bandwidth.{
  BandwidthController, add_track, remove_track, set_max_layer, request_layer,
  recalculate_allocations, on_bitrate_update, close_controller,
}
use choice.Bandwidth.Order.{
  Call, add, remove, limit, request, tick, bitrate, close, call, IsLimited, call-IsLimited,
  recalculate-IsLimited,
}

module _ {F : Type 0} where
  abbrev is_closed : BandwidthController F → Bool
  is_closed bc = bc.closed

  -- What it puts out are the calls of `onLayerChange` that its rounds start.
  unfoldable pub allocation_loop :
      BandwidthController F → List (Round Call) → Looped (BandwidthController F) (String × String)
  unfolding call
  allocation_loop bc rounds = ticker_loop recalculate_allocations is_closed call bc rounds

  closed_tick :
      (bc : BandwidthController F) → bc.closed ≡ true → recalculate_allocations bc ≡ (bc, [])
  unfolding recalculate_allocations
  closed_tick bc c = rw c refl

  closed_call :
      (bc : BandwidthController F) (c : Call) → bc.closed ≡ true → (call bc c).closed ≡ true
  unfolding call add_track remove_track set_max_layer request_layer recalculate_allocations
      on_bitrate_update close_controller
  closed_call bc (add id layer) h = h
  closed_call bc (remove id) h = h
  closed_call bc (limit id layer) h = elim (Option-cases (lookup id bc.allocations)) [
    | inl e ↦ rw (e, set_max_layer) h
    | inr (alloc, e) ↦ rw (e, set_max_layer) h
  ]
  closed_call bc (request id layer) h = elim (Option-cases (lookup id bc.allocations)) [
    | inl e ↦ rw (e, request_layer) h
    | inr (alloc, e) ↦ rw (e, request_layer) h
  ]
  closed_call bc tick h = ground (arith, h)
  closed_call bc (bitrate n) h = ground (arith, h)
  closed_call bc close h = ground (arith, h)

  -- After `Close` the loop changes no layer, whichever case `select` takes, and ends at the first round that does not
  -- take a tick.
  pub closed_allocation_loop :
      (bc : BandwidthController F) (rounds : List (Round Call))
      → bc.closed ≡ true
      → let l = allocation_loop bc rounds in
        (l.out ≡ []) × (l.state.closed ≡ true) × (l.ended ≡ not (all_ticked rounds))
  unfolding allocation_loop
  closed_allocation_loop bc rounds h =
      closed_loop recalculate_allocations is_closed call closed_tick closed_call bc rounds h

  calls-IsLimited :
      (bc : BandwidthController F) (cs : List Call)
      → All IsLimited bc.allocations
      → All IsLimited (calls recalculate_allocations is_closed call bc cs).allocations
  unfolding calls
  calls-IsLimited bc [] h = h
  calls-IsLimited bc (c ∷ cs) h = calls-IsLimited (call bc c) cs (call-IsLimited bc c h)

  -- However its rounds and the calls of the other methods interleave, the loop keeps the targets within their
  -- limits.
  pub allocation_loop-IsLimited :
      (bc : BandwidthController F) (rounds : List (Round Call))
      → All IsLimited bc.allocations
      → All IsLimited (allocation_loop bc rounds).state.allocations
  unfolding allocation_loop ticker_loop
  allocation_loop-IsLimited bc [] h = h
  allocation_loop-IsLimited bc (r ∷ rs) h =
      let bc₁ = calls recalculate_allocations is_closed call bc r.before in
      let h₁ = calls-IsLimited bc r.before h in
      elim (Bool-cases r.ticked) [
        | inl y ↦ rw y (
            allocation_loop-IsLimited (recalculate_allocations bc₁).0 rs
              (recalculate-IsLimited bc₁ h₁))
        | inr n ↦ rw n (elim (Bool-cases bc₁.closed) [
          | inl c ↦ rw c h₁
          | inr o ↦ rw o (allocation_loop-IsLimited bc₁ rs h₁)
        ])
      ]
