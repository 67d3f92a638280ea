-- ===== src/Bandwidth/Choice.antt =====
-- pkg/sfu/bandwidth.go: the layer that `selectLayerForBudget` finds.
use choice.Base.{
  leb, if◌then◌else◌, nat_eq, string_eq, lookup, ℕ, ◌≤◌, ◌<◌, String, ◌≡◌, refl, ◌⊎◌, inl, inr,
  ◌&&◌, some, [], ◌∷◌, arith, eq_iff,
}
use native.Mathlib.Decide.{dec_le}
use choice.Layer.{layer_priority, high, mid, low}
use choice.Bandwidth.{layer_bitrates, first_fitting, select_layer_for_budget}

-- The loop, with its tests written out.
loop_lem :
    (budget p : ℕ)
    → first_fitting budget p (high ∷ mid ∷ low ∷ []) ≡ (
        if leb 3 p && leb 2_500_000 budget
        then high
        else if leb 2 p && leb 500_000 budget
        then mid
        else low)
unfolding first_fitting layer_priority
loop_lem budget p = ground arith

-- A layer that has a bitrate, which the budget covers, and that the limit permits.
abbrev pub Fits : ℕ → String → String → Type 0
Fits budget max_layer layer =
    (b : ℕ) × (lookup layer layer_bitrates ≡ some b)
    × (b ≤ budget)
    × (layer_priority layer ≤ layer_priority max_layer)

pub priorities : (layer_priority high ≡ 3) × (layer_priority mid ≡ 2) × (layer_priority low ≡ 1)
unfolding layer_priority
priorities = (refl, refl, refl)

module _ (budget : ℕ) (max_layer : String) where
  abbrev pub chosen : String
  chosen = select_layer_for_budget budget max_layer

  chosen_lem : chosen ≡ (
      let p = layer_priority max_layer in
      if leb 3 p && leb 2_500_000 budget
      then high
      else if leb 2 p && leb 500_000 budget
      then mid
      else low)
  unfolding select_layer_for_budget
  chosen_lem = loop_lem budget (layer_priority max_layer)

  -- The priority and the bitrate of each layer that has one.
  pub known :
      (layer : String) (b : ℕ)
      → lookup layer layer_bitrates ≡ some b
      → ((layer ≡ high) × (layer_priority layer ≡ 3) × (b ≡ 2_500_000))
        ⊎ ((layer ≡ mid) × (layer_priority layer ≡ 2) × (b ≡ 500_000))
        ⊎ ((layer ≡ low) × (layer_priority layer ≡ 1) × (b ≡ 150_000))
  unfolding lookup layer_priority
  known layer b e = ground (
    arith,
    eq_iff high layer,
    eq_iff mid layer,
    eq_iff low layer,
    eq_iff layer high,
    eq_iff layer mid,
    eq_iff layer low,
  )

  pub chosen_cases :
      ((chosen ≡ high) × (3 ≤ layer_priority max_layer) × (2_500_000 ≤ budget))
      ⊎ ((chosen ≡ mid)
          × (2 ≤ layer_priority max_layer)
          × (500_000 ≤ budget)
          × ((layer_priority max_layer < 3) ⊎ (budget < 2_500_000)))
      ⊎ ((chosen ≡ low)
          × ((layer_priority max_layer < 3) ⊎ (budget < 2_500_000))
          × ((layer_priority max_layer < 2) ⊎ (budget < 500_000)))
  chosen_cases = ground (arith, chosen_lem)

  -- Where neither of the better layers fits, the low layer does or none does.
  low-Fits :
      chosen ≡ low
      → (layer_priority max_layer < 3) ⊎ (budget < 2_500_000)
      → (layer_priority max_layer < 2) ⊎ (budget < 500_000)
      → Dec (150_000 ≤ budget)
      → Dec (1 ≤ layer_priority max_layer)
      → Fits budget max_layer chosen
        ⊎ ((chosen ≡ low) × ((other : String) → ¬ Fits budget max_layer other))
  low-Fits e h m (yes b) (yes p) =
      inl (150_000, rw e (unfold lookup in refl), b, rw e (omega (arith, priorities)))
  low-Fits e h m (no b) d =
      inr (e, λ other f. ground (arith, known other f.0 f.1, f.2, f.3, h, m, b))
  low-Fits e h m (yes b) (no p) =
      inr (e, λ other f. ground (arith, known other f.0 f.1, f.2, f.3, h, m, p))

  -- The chosen layer is at least as good as every layer that fits; and it fits itself, or else it is the
  -- low layer and no layer fits.
  pub select_layer_best :
      ((other : String)
        → Fits budget max_layer other
        → layer_priority other ≤ layer_priority (select_layer_for_budget budget max_layer))
      × (Fits budget max_layer (select_layer_for_budget budget max_layer)
          ⊎ ((select_layer_for_budget budget max_layer ≡ low)
              × ((other : String) → ¬ Fits budget max_layer other)))
  select_layer_best = (best, fits)
    where
      best :
          (other : String)
          → Fits budget max_layer other
          → layer_priority other ≤ layer_priority chosen
      best other (b, e, le, lim) = ground (arith, known other b e, chosen_cases, priorities)

      fits :
          Fits budget max_layer chosen
          ⊎ ((chosen ≡ low) × ((other : String) → ¬ Fits budget max_layer other))
      fits = elim chosen_cases [
        | inl (e, p, b) ↦
            inl (2_500_000, rw e (unfold lookup in refl), b, rw e (omega (arith, priorities)))
        | inr (inl (e, p, b, _)) ↦
            inl (500_000, rw e (unfold lookup in refl), b, rw e (omega (arith, priorities)))
        | inr (inr (e, h, m)) ↦
            low-Fits e h m (dec_le 150_000 budget) (dec_le 1 (layer_priority max_layer))
      ]
