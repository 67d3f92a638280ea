-- ===== src/Bandwidth/Override.antt =====
-- pkg/sfu/bandwidth.go: `RequestLayer`, the manual override, and the recalculation that follows it.
use choice.Base.{
  nat_eq, string_eq, length, lookup, insert, lookup-insert, ℕ, ◌/◌, ◌<◌, String, ◌≡◌, refl, ap, ◌∙◌,
  false, some, [], ◌∷◌, arith, eq_iff, insert_same, length-insert_old,
}
use choice.Bandwidth.{
  LayerAllocation, Allocations, BandwidthController, select_layer_for_budget, reallocate,
  reallocate_all, capped, request_layer, recalculate_allocations, get_target_layer,
}

reallocate_all-insert :
    (budget : ℕ) (id : String) (alloc : LayerAllocation) (m : Allocations)
    → reallocate_all budget (insert id alloc m)
      ≡ insert id (reallocate budget alloc) (reallocate_all budget m)
unfolding reallocate_all insert
reallocate_all-insert budget id alloc [] = refl
reallocate_all-insert budget id alloc ((j, w) ∷ m) =
    ground (arith, reallocate_all-insert budget id alloc m)

lookup-reallocate_all :
    (budget : ℕ) (id : String) (alloc : LayerAllocation) (m : Allocations)
    → lookup id m ≡ some alloc
    → lookup id (reallocate_all budget m) ≡ some (reallocate budget alloc)
unfolding reallocate_all lookup
lookup-reallocate_all budget id alloc [] e = absurd (cc e)
lookup-reallocate_all budget id alloc ((j, w) ∷ m) e =
    ground (arith, lookup-reallocate_all budget id alloc m)

-- What the target was does not matter to the new one.
reallocate_target_free :
    (budget : ℕ) (alloc : LayerAllocation) (layer : String)
    → alloc.paused ≡ false
    → reallocate budget (record alloc { target_layer = layer }) ≡ reallocate budget alloc
unfolding reallocate
reallocate_target_free budget alloc layer h =
    let chosen = select_layer_for_budget budget alloc.max_layer in
    ground (arith, eq_iff chosen layer, eq_iff chosen alloc.target_layer)

length-pos :
    (id : String) (alloc : LayerAllocation) (m : Allocations)
    → lookup id m ≡ some alloc
    → 0 < length m
unfolding lookup
length-pos id alloc [] e = absurd (cc e)
length-pos id alloc (a ∷ m) e = omega arith

module _ {F : Type 0} (bc : BandwidthController F) (id layer : String) (alloc : LayerAllocation)
    (present : lookup id bc.allocations ≡ some alloc) where
  -- The controller after the request.
  request_present : request_layer bc id layer ≡ record bc {
    allocations = insert id (record alloc { target_layer = capped alloc layer }) bc.allocations;
  }
  unfolding request_layer
  request_present = rw (present, request_layer)

  -- A layer requested for a track that is not paused is the track's target, if it does not exceed the
  -- limit (and the limit, if it does); but the next recalculation of an open controller leaves the same targets
  -- as if there had been no request.
  pub request_layer_forgotten :
      alloc.paused ≡ false
      → bc.closed ≡ false
      → (get_target_layer (request_layer bc id layer) id ≡ capped alloc layer)
        × ((recalculate_allocations (request_layer bc id layer)).0 ≡ (recalculate_allocations bc).0)
  unfolding recalculate_allocations get_target_layer
  request_layer_forgotten h o =
      let alloc' : LayerAllocation = record alloc { target_layer = capped alloc layer } in
      let size = length-insert_old id alloc' alloc bc.allocations present in
      let share = bc.available_bitrate / length bc.allocations in
      let free = reallocate_target_free share alloc (capped alloc layer) h in
      let same : reallocate_all share (insert id alloc' bc.allocations)
          ≡ reallocate_all share bc.allocations =
        reallocate_all-insert share id alloc' bc.allocations
        ∙ ap (λ x. insert id x (reallocate_all share bc.allocations)) free
        ∙ insert_same id (reallocate share alloc) (reallocate_all share bc.allocations)
            (lookup-reallocate_all share id alloc bc.allocations present) in
      rw request_present (
        ground (arith, lookup-insert id id alloc' bc.allocations, eq_iff id id),
        simp (o, size, same) (ground (arith, length-pos id alloc bc.allocations present)),
      )
