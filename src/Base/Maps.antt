-- ===== src/Base/Maps.antt =====
-- Go's `map[K]V` as an association list, and `map[K]struct{}` as a list with no repetition. The order of
-- the entries is one order in which a `range` may visit them.
use mathlib.Core.Path.{◌≡◌, refl, ap, subst}
use mathlib.Core.Logic.{inl, inr}
use mathlib.Core.List.{List, [], ◌∷◌}
use mathlib.Core.Bool.{Bool, false, ◌||◌, ◌&&◌, not}
use mathlib.Core.Option.{Option, none, some}
use native.Mathlib.Omega.{arith}
use choice.Base.Lists.{All, length}
use choice.Base.Tests.{if◌then◌else◌, Eq, ◌==◌, Bool-cases}

module _ {ℓ κ} {K : Type ℓ} {V : Type κ} ⦃e : Eq K⦄ where
  -- `v, ok := m[k]`
  unfoldable pub lookup : K → List (K × V) → Option V
  lookup k [] = none
  lookup k ((j, v) ∷ m) = if j == k then some v else lookup k m

  -- `m[k] = v`
  unfoldable pub insert : K → V → List (K × V) → List (K × V)
  insert k v [] = (k, v) ∷ []
  insert k v ((j, w) ∷ m) = if j == k then (k, v) ∷ m else (j, w) ∷ insert k v m

  -- `delete(m, k)`
  unfoldable pub delete : K → List (K × V) → List (K × V)
  delete k [] = []
  delete k ((j, w) ∷ m) = let rest = delete k m in if j == k then rest else (j, w) ∷ rest

  pub lookup-insert :
      (key other : K) (value : V) (m : List (K × V))
      → lookup other (insert key value m) ≡ (if key == other then some value else lookup other m)
  unfolding insert lookup
  lookup-insert key other value [] = refl
  lookup-insert key other value ((i, _) ∷ m) = ground (
    arith,
    lookup-insert key other value m,
    e.beq_iff key other,
    e.beq_iff i key,
    e.beq_iff i other,
  )

  pub lookup-delete :
      (k j : K) (m : List (K × V)) → lookup j (delete k m) ≡ (if k == j then none else lookup j m)
  unfolding lookup delete
  lookup-delete k j [] = ground arith
  lookup-delete k j ((i, w) ∷ m) =
      ground (arith, e.beq_iff k j, e.beq_iff i k, e.beq_iff i j, lookup-delete k j m)

module _ {ℓ} {K : Type ℓ} ⦃e : Eq K⦄ where
  unfoldable pub contains : K → List K → Bool
  contains k [] = false
  contains k (j ∷ s) = j == k || contains k s

  -- `s[k] = struct{}{}`
  unfoldable pub include : K → List K → List K
  include k s = if contains k s then s else k ∷ s

  -- `delete(s, k)`
  unfoldable pub exclude : K → List K → List K
  exclude k [] = []
  exclude k (j ∷ s) = let rest = exclude k s in if j == k then rest else j ∷ rest

  pub contains-include :
      (k j : K) (s : List K) → contains j (include k s) ≡ (k == j || contains j s)
  unfolding contains include
  contains-include k j s = elim (Bool-cases (contains k s)) [
    | inl old ↦ ground (arith, e.beq_iff k j, ap (λ x. contains x s) {x = k} {y = j})
    | inr new ↦ ground (arith, e.beq_iff k j)
  ]

module _ {ℓ κ ι} {K : Type ℓ} {V : Type κ} ⦃e : Eq K⦄ (P : K × V → Type ι) where
  pub All-insert : (k : K) (v : V) (m : List (K × V)) → P (k, v) → All P m → All P (insert k v m)
  unfolding insert
  All-insert k v [] p h = (p, tt)
  All-insert k v ((j, w) ∷ m) p h = elim (Bool-cases (j == k)) [
    | inl y ↦ rw y (p, h.1)
    | inr n ↦ rw n (h.0, All-insert k v m p h.1)
  ]

  pub All-delete : (k : K) (m : List (K × V)) → All P m → All P (delete k m)
  unfolding delete
  All-delete k [] h = tt
  All-delete k ((j, w) ∷ m) h = elim (Bool-cases (j == k)) [
    | inl y ↦ rw y (All-delete k m h.1)
    | inr n ↦ rw n (h.0, All-delete k m h.1)
  ]

  pub All-lookup : (k : K) (v : V) (m : List (K × V)) → lookup k m ≡ some v → All P m → P (k, v)
  unfolding lookup
  All-lookup k v [] q h = absurd (cc q)
  All-lookup k v ((j, w) ∷ m) q h = elim (Bool-cases (j == k)) [
    | inl y ↦
        let found : some w ≡ some v = rw y at q in subst P (cc ((e.beq_iff j k).0 y, found)) h.0
    | inr n ↦ All-lookup k v m (rw n at q) h.1
  ]

module _ {ℓ κ} {K : Type ℓ} {V : Type κ} ⦃e : Eq K⦄ where
  pub insert_same : (k : K) (v : V) (m : List (K × V)) → lookup k m ≡ some v → insert k v m ≡ m
  unfolding insert lookup
  insert_same k v [] q = absurd (cc q)
  insert_same k v ((j, w) ∷ m) q = ground (arith, e.beq_iff j k, insert_same k v m)

  pub length-insert_old :
      (k : K) (v w : V) (m : List (K × V)) → lookup k m ≡ some w → length (insert k v m) ≡ length m
  unfolding insert lookup
  length-insert_old k v w [] q = absurd (cc q)
  length-insert_old k v w ((j, u) ∷ m) q = ground (arith, length-insert_old k v w m)

module _ {ℓ} {K : Type ℓ} ⦃e : Eq K⦄ where
  pub contains-exclude :
      (k j : K) (s : List K) → contains j (exclude k s) ≡ (not (k == j) && contains j s)
  unfolding contains exclude
  contains-exclude k j [] = ground arith
  contains-exclude k j (i ∷ s) =
      ground (arith, e.beq_iff k j, e.beq_iff i k, e.beq_iff i j, contains-exclude k j s)

  -- No element twice.
  abbrev pub NoRepeat : List K → Type 0
  NoRepeat [] = Unit {0}
  NoRepeat (k ∷ s) = (contains k s ≡ false) × NoRepeat s

  pub NoRepeat-include : (k : K) (s : List K) → NoRepeat s → NoRepeat (include k s)
  unfolding include
  NoRepeat-include k s h = elim (Bool-cases (contains k s)) [
    | inl old ↦ rw old h
    | inr new ↦ rw new (new, h)
  ]

  pub NoRepeat-exclude : (k : K) (s : List K) → NoRepeat s → NoRepeat (exclude k s)
  unfolding exclude
  NoRepeat-exclude k [] h = tt
  NoRepeat-exclude k (j ∷ s) h =
      let rest = NoRepeat-exclude k s h.1 in
      elim (Bool-cases (j == k)) [
        | inl y ↦ rw y rest
        | inr n ↦ rw n (ground (arith, contains-exclude k j s, h.0), rest)
      ]
