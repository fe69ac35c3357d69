-- ===== src/Base/Distinct.antt =====
-- Maps with one entry for each key, and sums over sets of keys.
use agilang_native.Base.{ℕ, ◌+◌, ◌≤◌, ◌≡◌, none, some, [], ◌∷◌, arith, Option-cases, inl, inr}
use agilang_native.Base.Key.{Key}
use agilang_native.Base.Map.{
  Map, lookup, place, replace, insert, erase, lookup-place, lookup-replace, lookup-erase, sum_by,
  worth,
}

module _ {K V : Type 0} ⦃e : Key K⦄ where
  abbrev pub Distinct : Map K V → Type 0
  Distinct [] = Unit
  Distinct ((k, v) ∷ m) = (lookup k m ≡ none) × Distinct m

  place-Distinct :
      (k : K) (v : V) (m : Map K V) → lookup k m ≡ none → Distinct m → Distinct (place k v m)
  unfolding place lookup
  place-Distinct k v [] new d = ground arith
  place-Distinct k v ((j, w) ∷ m) new d =
      ground (arith, place-Distinct k v m, lookup-place k j v m, e.beq_iff j k, e.beq_iff k j)

  replace-Distinct :
      (k : K) (v old : V) (m : Map K V)
      → lookup k m ≡ some old
      → Distinct m
      → Distinct (replace k v m)
  unfolding replace lookup
  replace-Distinct k v old [] hit d = tt
  replace-Distinct k v old ((j, w) ∷ m) hit d =
      ground (
        arith,
        replace-Distinct k v old m,
        lookup-replace k j v old m,
        e.beq_iff j k,
        e.beq_iff k j,
      )

  pub insert-Distinct : (k : K) (v : V) (m : Map K V) → Distinct m → Distinct (insert k v m)
  unfolding insert
  insert-Distinct k v m d = elim (Option-cases (lookup k m)) [
    | inl new ↦ rw (new, insert) (place-Distinct k v m new d)
    | inr (old, hit) ↦ rw (hit, insert) (replace-Distinct k v old m hit d)
  ]

  pub erase-Distinct : (k : K) (m : Map K V) → Distinct m → Distinct (erase k m)
  unfolding erase
  erase-Distinct k [] d = tt
  erase-Distinct k ((j, w) ∷ m) d = ground (arith, erase-Distinct k m, lookup-erase k j m)

  sum_by-erase : (f : V → ℕ) (k : K) (m : Map K V) → sum_by f (erase k m) ≤ sum_by f m
  unfolding sum_by erase
  sum_by-erase f k [] = omega arith
  sum_by-erase f k ((j, w) ∷ m) = ground (arith, sum_by-erase f k m)

  pub sum_by-erase_le :
      (f : V → ℕ) (k : K) (m : Map K V) → sum_by f (erase k m) + worth f (lookup k m) ≤ sum_by f m
  unfolding sum_by erase lookup
  sum_by-erase_le f k [] = omega arith
  sum_by-erase_le f k ((j, w) ∷ m) = ground (arith, sum_by-erase_le f k m, sum_by-erase f k m)
