-- ===== src/Base/Map.antt =====
-- `BTreeMap` and `HashMap` as the list of their entries, in the order in which the ordered map is
-- walked. Clients see the operations through the laws below.
use Prim.Native.Nat.{ℕ, suc, ◌+◌, ◌≤◌}
use mathlib.Core.Path.{◌≡◌, refl}
use mathlib.Core.Logic.{◌≢◌, inl, inr}
use mathlib.Core.Bool.{Bool, true, false}
use mathlib.Core.Option.{Option, none, some}
use mathlib.Core.List.{List, [], ◌∷◌, map}
use native.Mathlib.Omega.{arith}
use agilang_native.Base.Tests.{if◌then◌else◌, Option-cases}
use agilang_native.Base.Lists.{length}
use agilang_native.Base.Key.{Key, ◌==◌}

abbrev pub Map : Type 0 → Type 0 → Type 0
Map K V = List (K × V)

abbrev pub keys : {K V : Type 0} → Map K V → List K
keys = map (λ e. e.0)

abbrev pub is_some : {V : Type 0} → Option V → Bool
is_some none = false
is_some (some v) = true

pub beq_refl : {K : Type 0} ⦃e : Key K⦄ (k : K) → (k == k) ≡ true
beq_refl ⦃e⦄ k = (e.beq_iff k k).1 refl

-- What an entry is worth in a sum; a missing one is worth nothing.
abbrev pub worth : {V : Type 0} → (V → ℕ) → Option V → ℕ
worth f none = 0
worth f (some v) = f v

module _ {K V : Type 0} ⦃e : Key K⦄ where
  -- `map.get(k)`
  unfoldable pub lookup : K → Map K V → Option V
  lookup k [] = none
  lookup k ((j, v) ∷ m) = if j == k then some v else lookup k m

  -- `map.contains_key(k)`
  abbrev pub contains : K → Map K V → Bool
  contains k m = is_some (lookup k m)

  -- a new key goes before the first larger one
  unfoldable pub place : K → V → Map K V → Map K V
  place k v [] = (k, v) ∷ []
  place k v ((j, w) ∷ m) =
      let rest = place k v m in if e.lt k j then (k, v) ∷ (j, w) ∷ m else (j, w) ∷ rest

  unfoldable pub replace : K → V → Map K V → Map K V
  replace k v [] = []
  replace k v ((j, w) ∷ m) = if j == k then (j, v) ∷ m else (j, w) ∷ replace k v m

  -- `map.insert(k, v)`
  unfoldable pub insert : K → V → Map K V → Map K V
  unfolding lookup place replace
  insert k v m = elim (lookup k m) [ none ↦ place k v m | some _ ↦ replace k v m ]

  -- `map.remove(k)`; a map has at most one entry for a key
  unfoldable pub erase : K → Map K V → Map K V
  erase k [] = []
  erase k ((j, w) ∷ m) = let rest = erase k m in if j == k then rest else (j, w) ∷ rest

  pub lookup-place :
      (k j : K) (v : V) (m : Map K V)
      → lookup k m ≡ none
      → lookup j (place k v m) ≡ (if k == j then some v else lookup j m)
  unfolding lookup place
  lookup-place k j v [] h = refl
  lookup-place k j v ((i, w) ∷ m) h =
      ground (arith, e.beq_iff k j, e.beq_iff i k, e.beq_iff i j, lookup-place k j v m)

  pub lookup-replace :
      (k j : K) (v old : V) (m : Map K V)
      → lookup k m ≡ some old
      → lookup j (replace k v m) ≡ (if k == j then some v else lookup j m)
  unfolding lookup replace
  lookup-replace k j v old [] h = cc
  lookup-replace k j v old ((i, w) ∷ m) h =
      ground (arith, e.beq_iff k j, e.beq_iff i k, e.beq_iff i j, lookup-replace k j v old m)

  -- A read after a write gives what was written, and nothing else has changed.
  pub lookup-insert :
      (k j : K) (v : V) (m : Map K V)
      → lookup j (insert k v m) ≡ (if k == j then some v else lookup j m)
  unfolding insert
  lookup-insert k j v m = elim (Option-cases (lookup k m)) [
    | inl new ↦ rw (new, insert) (lookup-place k j v m new)
    | inr (old, hit) ↦ rw (hit, insert) (lookup-replace k j v old m hit)
  ]

  pub lookup-erase :
      (k j : K) (m : Map K V) → lookup j (erase k m) ≡ (if k == j then none else lookup j m)
  unfolding lookup erase
  lookup-erase k j [] = ground arith
  lookup-erase k j ((i, w) ∷ m) =
      ground (arith, e.beq_iff k j, e.beq_iff i k, e.beq_iff i j, lookup-erase k j m)

  pub lookup-insert_self : (k : K) (v : V) (m : Map K V) → lookup k (insert k v m) ≡ some v
  lookup-insert_self k v m = simp (lookup-insert, beq_refl)

  pub lookup-insert_ne :
      (k j : K) (v : V) (m : Map K V) → j ≢ k → lookup j (insert k v m) ≡ lookup j m
  lookup-insert_ne k j v m h = ground (arith, lookup-insert k j v m, e.beq_iff k j)

  pub lookup-erase_self : (k : K) (m : Map K V) → lookup k (erase k m) ≡ none
  lookup-erase_self k m = simp (lookup-erase, beq_refl)

  pub lookup-erase_ne : (k j : K) (m : Map K V) → j ≢ k → lookup j (erase k m) ≡ lookup j m
  lookup-erase_ne k j m h = ground (arith, lookup-erase k j m, e.beq_iff k j)

  -- A sum over the values, and how each operation moves it.
  module _ (f : V → ℕ) where
    unfoldable pub sum_by : Map K V → ℕ
    sum_by [] = 0
    sum_by ((j, w) ∷ m) = f w + sum_by m

    sum_by-place : (k : K) (v : V) (m : Map K V) → sum_by (place k v m) ≡ sum_by m + f v
    unfolding sum_by place
    sum_by-place k v [] = omega arith
    sum_by-place k v ((i, w) ∷ m) = ground (arith, sum_by-place k v m)

    sum_by-replace :
        (k : K) (v old : V) (m : Map K V)
        → lookup k m ≡ some old
        → sum_by (replace k v m) + f old ≡ sum_by m + f v
    unfolding sum_by replace lookup
    sum_by-replace k v old [] h = cc
    sum_by-replace k v old ((i, w) ∷ m) h = ground (arith, sum_by-replace k v old m)

    pub sum_by-insert :
        (k : K) (v : V) (m : Map K V)
        → sum_by (insert k v m) + worth f (lookup k m) ≡ sum_by m + f v
    unfolding insert
    sum_by-insert k v m = elim (Option-cases (lookup k m)) [
      | inl new ↦ rw (new, insert) (omega (arith, sum_by-place k v m))
      | inr (old, hit) ↦ rw (hit, insert) (sum_by-replace k v old m hit)
    ]

    -- no entry is worth more than all together
    pub worth-le-sum_by : (k : K) (m : Map K V) → worth f (lookup k m) ≤ sum_by m
    unfolding sum_by lookup
    worth-le-sum_by k [] = omega arith
    worth-le-sum_by k ((i, w) ∷ m) = ground (arith, worth-le-sum_by k m)

  length-place : (k : K) (v : V) (m : Map K V) → length (place k v m) ≡ suc (length m)
  unfolding place
  length-place k v [] = refl
  length-place k v ((i, w) ∷ m) = ground (arith, length-place k v m)

  length-replace : (k : K) (v : V) (m : Map K V) → length (replace k v m) ≡ length m
  unfolding replace
  length-replace k v [] = refl
  length-replace k v ((i, w) ∷ m) = ground (arith, length-replace k v m)

  -- a write adds an entry exactly when the key is new
  pub length-insert :
      (k : K) (v : V) (m : Map K V)
      → length (insert k v m) ≡ (if contains k m then length m else suc (length m))
  unfolding insert
  length-insert k v m = elim (Option-cases (lookup k m)) [
    | inl new ↦ rw (new, insert) (length-place k v m)
    | inr (old, hit) ↦ rw (hit, insert) (length-replace k v m)
  ]

  pub length-erase-le : (k : K) (m : Map K V) → length (erase k m) ≤ length m
  unfolding erase
  length-erase-le k [] = omega arith
  length-erase-le k ((i, w) ∷ m) = ground (arith, length-erase-le k m)

  pub length-erase_lt :
      (k : K) (m : Map K V) (v : V) → lookup k m ≡ some v → suc (length (erase k m)) ≤ length m
  unfolding erase lookup
  length-erase_lt k [] v h = cc
  length-erase_lt k ((i, w) ∷ m) v h = ground (arith, length-erase_lt k m v, length-erase-le k m)

pub ruleset map_laws = (lookup-insert, lookup-erase)
