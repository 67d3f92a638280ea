-- ===== src/Bandwidth/Budget.antt =====
-- pkg/sfu/bandwidth.go: what a recalculation spends of the available bitrate.
use choice.Base.{
  if◌then◌else◌, ◌==◌, nat_eq, string_eq, Bool-cases, length, lookup, ℕ, suc, ◌+◌, ◌*◌, ◌/◌, ◌≤◌,
  String, ◌≡◌, refl, ap, ◌∙◌, inl, inr, Bool, true, false, ◌||◌, none, some, List, [], ◌∷◌, arith,
  eq_iff,
}
use choice.Layer.{high, mid, low}
use choice.Bandwidth.{
  LayerAllocation, Allocations, BandwidthController, layer_bitrates, select_layer_for_budget,
  reallocate, reallocate_all, layer_changes, recalculate_allocations,
}
use choice.Bandwidth.Choice.{chosen_cases}

-- The bitrate that the program takes a layer to need; a name that it does not know needs none.
bitrate_of : String → ℕ
bitrate_of layer = elim (lookup layer layer_bitrates) [ none ↦ 0 | some bitrate ↦ bitrate ]

-- What the targets of the tracks that are not paused need together.
pub load : Allocations → ℕ
unfolding bitrate_of
load [] = 0
load ((id, alloc) ∷ m) =
    let rest = load m in if alloc.paused then rest else bitrate_of alloc.target_layer + rest

known_bitrates :
    (bitrate_of high ≡ 2_500_000) × (bitrate_of mid ≡ 500_000) × (bitrate_of low ≡ 150_000)
unfolding bitrate_of lookup
known_bitrates = (refl, refl, refl)

bitrate_of-select-le :
    (budget : ℕ) (limit : String)
    → 150_000 ≤ budget
    → bitrate_of (select_layer_for_budget budget limit) ≤ budget
bitrate_of-select-le budget limit h = ground (arith, chosen_cases budget limit, known_bitrates)

-- A track that is not paused gets the layer that is chosen for it.
pub reallocate_target :
    (budget : ℕ) (alloc : LayerAllocation)
    → let alloc' = reallocate budget alloc in
      (alloc'.paused ≡ alloc.paused)
      × (alloc'.max_layer ≡ alloc.max_layer)
      × (alloc'.target_layer ≡ (
          if alloc.paused
          then alloc.target_layer
          else select_layer_for_budget budget alloc.max_layer))
unfolding reallocate
reallocate_target budget alloc = (
  ground arith,
  ground arith,
  ground (arith, eq_iff (select_layer_for_budget budget alloc.max_layer) alloc.target_layer),
)

load-reallocate_all :
    (budget : ℕ) (m : Allocations)
    → 150_000 ≤ budget
    → load (reallocate_all budget m) ≤ length m * budget
unfolding load reallocate_all
load-reallocate_all budget [] h = omega arith
load-reallocate_all budget ((id, alloc) ∷ m) h = grind (
  arith,
  reallocate_target budget alloc,
  bitrate_of-select-le budget alloc.max_layer h,
  load-reallocate_all budget m h,
)

-- If the even share of the available bitrate covers the low layer, then after a recalculation of an open
-- controller the targets of the tracks together need no more than the available bitrate.
pub load-recalculate :
    {F : Type 0} (bc : BandwidthController F)
    → bc.closed ≡ false
    → 150_000 ≤ bc.available_bitrate / length bc.allocations
    → load (recalculate_allocations bc).0.allocations ≤ bc.available_bitrate
unfolding recalculate_allocations
load-recalculate bc o h =
    let n = length bc.allocations in
    let share = bc.available_bitrate / n in
    let spent = load-reallocate_all share bc.allocations h in
    let whole : n * share ≤ bc.available_bitrate = grind arith in
    let some_track : (n == 0) ≡ false = ground (arith, h) in
    rw (o, some_track) (omega (arith, spent, whole))

-- The tracks of which the target differs, with the new target.
pub changed : Allocations → Allocations → List (String × String)
changed [] m' = []
changed (a ∷ m) [] = []
changed ((id, alloc) ∷ m) ((id', alloc') ∷ m') =
    let rest = changed m m' in
    if alloc'.target_layer == alloc.target_layer then rest else (id, alloc'.target_layer) ∷ rest

layer_changes-changed :
    (budget : ℕ) (m : Allocations) → layer_changes budget m ≡ changed m (reallocate_all budget m)
unfolding layer_changes changed reallocate_all
layer_changes-changed budget [] = refl
layer_changes-changed budget ((id, alloc) ∷ m) = ground (
  arith,
  reallocate_target budget alloc,
  layer_changes-changed budget m,
  string_eq.beq_iff alloc.target_layer alloc.target_layer,
)

length-reallocate_all : (budget : ℕ) (m : Allocations) → length (reallocate_all budget m) ≡ length m
unfolding reallocate_all
length-reallocate_all budget [] = refl
length-reallocate_all budget ((id, alloc) ∷ m) = ap suc (length-reallocate_all budget m)

reallocate_again :
    (budget : ℕ) (alloc : LayerAllocation)
    → reallocate budget (reallocate budget alloc) ≡ reallocate budget alloc
unfolding reallocate
reallocate_again budget alloc =
    let layer = select_layer_for_budget budget alloc.max_layer in
    ground (arith, eq_iff layer layer, eq_iff layer alloc.target_layer)

reallocate_all_again :
    (budget : ℕ) (m : Allocations)
    → (reallocate_all budget (reallocate_all budget m) ≡ reallocate_all budget m)
      × (layer_changes budget (reallocate_all budget m) ≡ [])
unfolding reallocate_all layer_changes
reallocate_all_again budget [] = (refl, refl)
reallocate_all_again budget ((id, alloc) ∷ m) =
    let (same, silent) = reallocate_all_again budget m in
    let chosen = select_layer_for_budget budget alloc.max_layer in
    (
      cc (reallocate_again budget alloc, same),
      ground (arith, silent, reallocate_target budget alloc, eq_iff chosen chosen),
    )

changed_self : (m : Allocations) → changed m m ≡ []
unfolding changed
changed_self [] = refl
changed_self ((id, alloc) ∷ m) =
    ground (arith, changed_self m, eq_iff alloc.target_layer alloc.target_layer)

module _ {F : Type 0} (bc : BandwidthController F) where
  abbrev is_idle : Bool
  is_idle = bc.closed || length bc.allocations == 0

  abbrev share : ℕ
  share = bc.available_bitrate / length bc.allocations

  recalculate_idle : is_idle ≡ true → recalculate_allocations bc ≡ (bc, [])
  unfolding recalculate_allocations
  recalculate_idle h = ground arith

  recalculate_busy :
      is_idle ≡ false
      → recalculate_allocations bc ≡ (
        record bc { allocations = reallocate_all share bc.allocations },
        if bc.has_callback then layer_changes share bc.allocations else [],
      )
  unfolding recalculate_allocations
  recalculate_busy h = ground arith

-- A recalculation starts the callback exactly for the tracks of which it changes the target, with the new
-- target; a second recalculation at the same bitrate changes nothing and starts nothing.
pub recalculate_stable :
    {F : Type 0} (bc : BandwidthController F)
    → let (bc', calls) = recalculate_allocations bc in
      (calls ≡ (if bc.has_callback then changed bc.allocations bc'.allocations else []))
      × (recalculate_allocations bc' ≡ (bc', []))
recalculate_stable {F} bc = elim (Bool-cases (is_idle bc)) [
  | inl idle ↦
      let e = recalculate_idle bc idle in rw e (ground (arith, changed_self bc.allocations), e)
  | inr busy ↦
      let bc' : BandwidthController F = record bc {
        allocations = reallocate_all (share bc) bc.allocations;
      } in
      let size = length-reallocate_all (share bc) bc.allocations in
      let again = reallocate_all_again (share bc) bc.allocations in
      let still : is_idle bc' ≡ false = rw size busy in
      rw (recalculate_busy bc busy) (
        rw (layer_changes-changed (share bc) bc.allocations),
        recalculate_busy bc' still ∙ simp (size, again.0, again.1) (ground arith),
      )
]
