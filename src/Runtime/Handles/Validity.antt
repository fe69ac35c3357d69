-- ===== src/Runtime/Handles/Validity.antt =====
-- Every operation of the registry keeps it valid.
use agilang_native.Base.{
  ℕ, ◌≡◌, true, arith, ok, nat_eq_iff, get_elem?, u32_mod, u64_mod, Option-cases, inl, inr,
  length-set, subst,
}
use agilang_native.Runtime.Handles.{
  Registry, vacant, holding, take_index, insert, release, get, index_of, generation_of,
  next_generation,
}
use agilang_native.Runtime.Handles.Slots.{
  IsValid, IsTaken, HasRoom, take_index-IsTaken, get_elem?-set_cases, occupied-set, occupied-le,
  mem,
}
use agilang_native.Runtime.Handles.Lookup.{get-eq-ok, filled, emptied, release_step}

module _ {V : Type 0} where
  filled-IsValid :
      (r r' : Registry V) (i : ℕ) (v : V) (t : IsTaken r i r')
      → IsValid (filled r' i t.generation v)
  unfolding u32_mod u64_mod
  filled-IsValid r r' i v t =
      let before = vacant t.generation in
      let after = holding t.generation v in
      let at : (j : ℕ) → _ = λ j. get_elem?-set_cases r'.slots i j before after t.slot in
      let count = occupied-set r'.slots i before after t.slot in
      record {
        first = ground (arith, at 0, t.valid.first, t.positive);
        unused = λ j h. ground (arith, at j, t.valid.unused j, t.given, nat_eq_iff i j);
        once = t.valid.once;
        generations = λ j s h.
            ground (arith, at j, t.valid.generations j s, t.valid.generations i before t.slot);
        counted = ground (arith, count, t.valid.counted, t.valid.small, occupied-le r'.slots);
        small = ground (arith, length-set r'.slots i after, t.valid.small);
      }

  emptied-IsValid :
      (r : Registry V) (id : ℕ) (v : V) → IsValid r → get r id ≡ ok v → IsValid (emptied r id)
  unfolding u32_mod
  emptied-IsValid r id v valid h =
      let (slot, positive) = get-eq-ok r id v h in
      let i = index_of id in
      let before = holding (generation_of id) v in
      let after = vacant (next_generation (generation_of id)) in
      let at : (j : ℕ) → _ = λ j. get_elem?-set_cases r.slots i j before after slot in
      let count = occupied-set r.slots i before after slot in
      let used = λ (listed : mem i r.free ≡ true). valid.unused i listed in
      record {
        first = ground (arith, at 0, valid.first, slot);
        unused = λ j e. ground (arith, at j, valid.unused j, valid.first, slot, nat_eq_iff i j);
        once = ground (arith, used, slot, valid.once);
        generations = λ j s e. ground (arith, at j, valid.generations j s);
        counted = ground (arith, count, valid.counted);
        small = ground (arith, length-set r.slots i after, valid.small);
      }

  -- `insert` keeps a valid registry valid, if there is room for an object.
  pub insert-IsValid :
      (r r' : Registry V) (v : V) (id : ℕ)
      → IsValid r
      → HasRoom r
      → insert v r ≡ ok (id, r')
      → IsValid r'
  unfolding insert
  insert-IsValid r r' v id valid room h =
      let t = take_index-IsTaken r valid room in
      let same : filled (take_index r).1 (take_index r).0 t.generation v ≡ r' =
        ground (arith, t.slot) in
      subst IsValid same (filled-IsValid r (take_index r).1 (take_index r).0 v t)

  released_named : (r r' : Registry V) (id : ℕ) → release id r ≡ ok r' → (v : V) × (get r id ≡ ok v)
  unfolding release get
  released_named r r' id h = elim (Option-cases (get_elem? r.slots (index_of id))) [
    | inl e ↦ absurd (ground arith)
    | inr (s, e) ↦ elim (Option-cases s.object) [
      | inl gone ↦ absurd (ground arith)
      | inr (v, here) ↦ (v, ground arith)
    ]
  ]

  -- `release` keeps a valid registry valid.
  pub release-IsValid : (r r' : Registry V) (id : ℕ) → IsValid r → release id r ≡ ok r' → IsValid r'
  release-IsValid r r' id valid h =
      let (v, named) = released_named r r' id h in
      let same : emptied r id ≡ r' = ground (arith, release_step r id v valid named) in
      subst IsValid same (emptied-IsValid r id v valid named)
