-- ===== src/Track/Layers.antt =====
-- pkg/sfu/track.go: `AddLayer` and `GetBestLayer`.
use choice.Base.{
  if◌then◌else◌, ◌==◌, nat_eq, string_eq, Bool-cases, Option-cases, lookup, lookup-insert, ℕ, ◌≤◌,
  String, ◌≡◌, ◌∙◌, subst, ◌≢◌, ◌⊎◌, inl, inr, true, not, ◌&&◌, Option, none, some, List, [], ◌∷◌,
  arith, eq_iff,
}
use choice.Layer.{Layer, layer_priority, high, mid, low, default}
use choice.Track.{TrackReceiver, first_active, add_layer, get_layer, get_best_layer}

-- An open track has the new layer under its name, active, in place of any older one; the other layers are
-- as they were. A closed track is left alone.
pub get_layer-add_layer :
    (t : TrackReceiver) (name other : String) (receiver ssrc : ℕ)
    → get_layer (add_layer t name receiver ssrc) other ≡ (
        if not t.closed && name == other
        then some (record { name = name; receiver = receiver; ssrc = ssrc; active = true })
        else get_layer t other)
unfolding get_layer add_layer
get_layer-add_layer t name other receiver ssrc = ground (
  arith,
  lookup-insert name other
      (let l : Layer = record { name = name; receiver = receiver; ssrc = ssrc; active = true } in l)
      t.layers,
)

abbrev IsActive : TrackReceiver → String → Type 0
IsActive t name = (l : Layer) × (get_layer t name ≡ some l) × (l.active ≡ true)

-- A simulcast layer.
abbrev IsQuality : String → Type 0
IsQuality name = (name ≡ high) ⊎ (name ≡ mid) ⊎ (name ≡ low)

-- What `GetBestLayer` finds: the default layer, active or not; without one, the active layer of the
-- highest priority; and nothing only if no simulcast layer is active.
pub data IsBest (t : TrackReceiver) (best : Option Layer) : Type 0 where
  single : (l : Layer) → get_layer t default ≡ some l → best ≡ some l → IsBest t best
  quality :
      (name : String) (l : Layer)
      → get_layer t default ≡ none
      → get_layer t name ≡ some l
      → l.active ≡ true
      → best ≡ some l
      → ((other : String)
          → IsQuality other
          → IsActive t other
          → layer_priority other ≤ layer_priority name)
      → IsBest t best
  nothing :
      get_layer t default ≡ none
      → best ≡ none
      → ((other : String) → IsQuality other → ¬ IsActive t other)
      → IsBest t best

module _ (t : TrackReceiver) where
  IsActive-cases : (name : String) → IsActive t name ⊎ (¬ IsActive t name)
  IsActive-cases name = elim (Option-cases (get_layer t name)) [
    | inl e ↦ inr (λ a. cc (e, a.1))
    | inr (l, e) ↦ elim (Bool-cases l.active) [
      | inl y ↦ inl (l, e, y)
      | inr n ↦ inr (λ a. ground (arith, e, n, a.1, a.2))
    ]
  ]

  first_active_hit :
      (name : String) (names : List String) (a : IsActive t name)
      → first_active t.layers (name ∷ names) ≡ some a.0
  unfolding first_active get_layer
  first_active_hit name names a = ground arith

  first_active_miss :
      (name : String) (names : List String)
      → ¬ IsActive t name
      → first_active t.layers (name ∷ names) ≡ first_active t.layers names
  unfolding first_active get_layer
  first_active_miss name names n = elim (Option-cases (lookup name t.layers)) [
    | inl e ↦ rw (e, first_active)
    | inr (l, e) ↦ elim (Bool-cases l.active) [
      | inl y ↦ absurd (n (l, e, y))
      | inr i ↦ rw (e, first_active) (ground arith)
    ]
  ]

low_priority :
    (other : String) → IsQuality other → other ≢ high → other ≢ mid → layer_priority other ≤ 1
unfolding layer_priority
low_priority other q h m = ground (arith, eq_iff other high, eq_iff other mid, eq_iff other low)

mid_priority : (other : String) → IsQuality other → other ≢ high → layer_priority other ≤ 2
unfolding layer_priority
mid_priority other q h = ground (arith, eq_iff other high, eq_iff other mid, eq_iff other low)

high_priority : (other : String) → IsQuality other → layer_priority other ≤ 3
unfolding layer_priority
high_priority other q = ground (arith, eq_iff other high, eq_iff other mid, eq_iff other low)

ne_of_active :
    (t : TrackReceiver) {name other : String} → IsActive t other → ¬ IsActive t name → other ≢ name
ne_of_active t {name} {other} a n e = n (subst (IsActive t) e a)

no_layer :
    (t : TrackReceiver) (other : String)
    → IsQuality other
    → ¬ IsActive t high
    → ¬ IsActive t mid
    → ¬ IsActive t low
    → ¬ IsActive t other
no_layer t other (inl e) h m l a = h (subst (IsActive t) e a)
no_layer t other (inr (inl e)) h m l a = m (subst (IsActive t) e a)
no_layer t other (inr (inr e)) h m l a = l (subst (IsActive t) e a)

-- Without a default layer the loop decides.
best_of_loop :
    (t : TrackReceiver)
    → get_layer t default ≡ none
    → get_best_layer t ≡ first_active t.layers (high ∷ mid ∷ low ∷ [])
unfolding get_best_layer get_layer
best_of_loop t e = ground arith

-- `GetBestLayer` finds the default layer, active or not; without one, the active layer of the highest
-- priority among high, mid and low; and nothing only if none of these is active.
pub get_best_layer-IsBest : (t : TrackReceiver) → IsBest t (get_best_layer t)
unfolding first_active layer_priority
get_best_layer-IsBest t = elim (Option-cases (get_layer t default)) [
  | inr (l, e) ↦ single l e (unfold get_best_layer get_layer in ground (arith, e))
  | inl e ↦ elim (IsActive-cases t high) [
    | inl a ↦
        quality high a.0 e a.1 a.2 (best_of_loop t e ∙ first_active_hit t high (mid ∷ low ∷ []) a)
          (λ other q _. high_priority other q)
    | inr h ↦ elim (IsActive-cases t mid) [
      | inl a ↦
          quality mid a.0 e a.1 a.2
            (best_of_loop t e
              ∙ first_active_miss t high (mid ∷ low ∷ []) h
              ∙ first_active_hit t mid (low ∷ []) a)
            (λ other q b. mid_priority other q (ne_of_active t b h))
      | inr m ↦ elim (IsActive-cases t low) [
        | inl a ↦
            quality low a.0 e a.1 a.2
              (best_of_loop t e
                ∙ first_active_miss t high (mid ∷ low ∷ []) h
                ∙ first_active_miss t mid (low ∷ []) m
                ∙ first_active_hit t low [] a)
              (λ other q b. low_priority other q (ne_of_active t b h) (ne_of_active t b m))
        | inr l ↦
            nothing e
              (best_of_loop t e
                ∙ first_active_miss t high (mid ∷ low ∷ []) h
                ∙ first_active_miss t mid (low ∷ []) m
                ∙ first_active_miss t low [] l)
              (λ other q. no_layer t other q h m l)
      ]
    ]
  ]
]
