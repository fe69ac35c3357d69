-- ===== src/Runtime/Handles/Lookup.antt =====
-- The registry as a map from handles to values: what `insert` and `release` do to every `get`.
use agilang_native.Base.{
  ℕ, ◌+◌, ◌%◌, ◌<◌, ◌≡◌, ◌≢◌, false, some, ◌∷◌, ap, subst, arith, ok, err, is_ok, nat_eq,
  nat_eq_iff, if◌then◌else◌, get_elem?, set, u32_mod, u64_mod, Option-cases, Bool-cases, inl, inr,
  ◌-◌, refl,
}
use agilang_native.Runtime.Handles.{
  HandleFault, Registry, vacant, holding, take_index, insert, release, get, index_of, generation_of,
  from_parts, next_generation,
}
use agilang_native.Runtime.Handles.Slots.{
  IsValid, IsTaken, HasRoom, take_index-IsTaken, get_elem?-set_cases, occupied-set,
}

index_of-from_parts : (i g : ℕ) → i < u32_mod → index_of (from_parts i g) ≡ i
unfolding index_of from_parts u32_mod
index_of-from_parts i g h = omega arith

generation_of-from_parts : (i g : ℕ) → i < u32_mod → generation_of (from_parts i g) ≡ g
unfolding generation_of from_parts u32_mod
generation_of-from_parts i g h = omega arith

-- A handle is its index and its generation.
from_parts_of : (id : ℕ) → from_parts (index_of id) (generation_of id) ≡ id
unfolding index_of generation_of from_parts u32_mod
from_parts_of id = omega arith

from_parts_positive : (i g : ℕ) → 0 < g → from_parts i g ≢ 0
unfolding from_parts u32_mod
from_parts_positive i g h e = omega arith

module _ {V : Type 0} where
  -- what `get` finds
  pub get-eq-ok :
      (r : Registry V) (id : ℕ) (v : V)
      → get r id ≡ ok v
      → (get_elem? r.slots (index_of id) ≡ some (holding (generation_of id) v)) × (id ≢ 0)
  unfolding get
  get-eq-ok r id v h = elim (Option-cases (get_elem? r.slots (index_of id))) [
    | inl e ↦ absurd (ground arith)
    | inr (s, e) ↦ ground (arith, nat_eq_iff s.generation (generation_of id))
  ]

  -- the registry that `insert` leaves
  abbrev pub filled : Registry V → ℕ → ℕ → V → Registry V
  filled r i g v = record r { slots = set r.slots i (holding g v); live = (r.live + 1) % u64_mod }

  get-unnamed :
      (r r' : Registry V) (i id : ℕ)
      → IsTaken r i r'
      → index_of id ≡ i
      → get r id ≡ err (HandleFault.invalid_handle id)
  unfolding get
  get-unnamed r r' i id t same = elim (Option-cases (get_elem? r.slots (index_of id))) [
    | inl e ↦ ground arith
    | inr (s, e) ↦ let gone = t.vacated s (rw⁻¹ same e) in ground (arith, gone)
  ]

  get-filled :
      (r r' : Registry V) (i : ℕ) (v : V) (t : IsTaken r i r') (id : ℕ)
      → get (filled r' i t.generation v) id
        ≡ (if nat_eq (from_parts i t.generation) id then ok v else get r id)
  unfolding get
  get-filled r r' i v t id = elim (Bool-cases (nat_eq (from_parts i t.generation) id)) [
    | inl here ↦ ground (
      arith,
      here,
      get_elem?-set_cases r'.slots i (index_of id) (vacant t.generation) (holding t.generation v)
          t.slot,
      index_of-from_parts i t.generation t.positive.1,
      generation_of-from_parts i t.generation t.positive.1,
      from_parts_positive i t.generation (t.valid.generations i (vacant t.generation) t.slot).0,
    )
    | inr there ↦ elim (Bool-cases (nat_eq i (index_of id))) [
      | inl same ↦ ground (
        arith,
        there,
        get-unnamed r r' i id t,
        get_elem?-set_cases r'.slots i (index_of id) (vacant t.generation) (holding t.generation v)
            t.slot,
        from_parts_of id,
        nat_eq_iff t.generation (generation_of id),
      )
      | inr apart ↦ ground (
        arith,
        there,
        get_elem?-set_cases r'.slots i (index_of id) (vacant t.generation) (holding t.generation v)
            t.slot,
        t.others (index_of id),
      )
    ]
  ]

  -- In a valid registry with room for an object, `insert` answers a handle that named nothing; the
  -- handle then names the object, and every other handle names what it did.
  pub get-insert :
      (r : Registry V) (v : V)
      → IsValid r
      → HasRoom r
      → (id : ℕ) × (r' : Registry V) × (insert v r ≡ ok (id, r'))
        × (is_ok (get r id) ≡ false)
        × ((other : ℕ) → get r' other ≡ (if nat_eq id other then ok v else get r other))
  unfolding insert
  get-insert r v valid room =
      let t = take_index-IsTaken r valid room in
      let i = (take_index r).0 in
      let r1 = (take_index r).1 in
      (
        from_parts i t.generation,
        filled r1 i t.generation v,
        rw (t.slot, insert) refl,
        ground (
          arith,
          get-unnamed r r1 i (from_parts i t.generation) t
              (index_of-from_parts i t.generation t.positive.1),
        ),
        get-filled r r1 i v t,
      )

  -- the registry that `release` leaves
  abbrev pub emptied : Registry V → ℕ → Registry V
  emptied r id = record {
    slots = set r.slots (index_of id) (vacant (next_generation (generation_of id)));
    free = index_of id ∷ r.free;
    live = r.live - 1;
  }

  pub release_step :
      (r : Registry V) (id : ℕ) (v : V)
      → IsValid r
      → get r id ≡ ok v
      → release id r ≡ ok (emptied r id)
  unfolding release
  release_step r id v valid h =
      let (slot, positive) = get-eq-ok r id v h in
      let weighed =
        occupied-set r.slots (index_of id) (holding (generation_of id) v) (vacant 0) slot in
      let some_live : r.live ≢ 0 = λ e. omega (arith, weighed, valid.counted) in
      ground (arith, slot)

  get-emptied :
      (r : Registry V) (id : ℕ) (v : V)
      → IsValid r
      → get r id ≡ ok v
      → (other : ℕ)
      → get (emptied r id) other
        ≡ (if nat_eq id other then err (HandleFault.invalid_handle id) else get r other)
  unfolding get u32_mod
  get-emptied r id v valid h other =
      let (slot, positive) = get-eq-ok r id v h in
      let range = valid.generations (index_of id) (holding (generation_of id) v) slot in
      let after =
        get_elem?-set_cases r.slots (index_of id) (index_of other) (holding (generation_of id) v)
          (vacant (next_generation (generation_of id))) slot in
      elim (Bool-cases (nat_eq id other)) [
        | inl here ↦
            let same : id ≡ other = ground arith in
            ground (arith, after, ap index_of same, ap generation_of same)
        | inr there ↦ elim (Bool-cases (nat_eq (index_of id) (index_of other))) [
          | inl same ↦
              let one : index_of id ≡ index_of other = ground arith in
              let found : get_elem? r.slots (index_of other) ≡ some (holding (generation_of id) v) =
                subst (λ i. get_elem? r.slots i ≡ some (holding (generation_of id) v)) one slot in
              ground (arith, after, found, from_parts_of id, from_parts_of other)
          | inr apart ↦ ground (arith, after)
        ]
      ]

  -- In a valid registry a handle that names a value can be released: it then names nothing, and every
  -- other handle names what it did.
  pub get-release :
      (r : Registry V) (id : ℕ) (v : V)
      → IsValid r
      → get r id ≡ ok v
      → (r' : Registry V) × (release id r ≡ ok r')
        × ((other : ℕ)
            → get r' other
              ≡ (if nat_eq id other then err (HandleFault.invalid_handle id) else get r other))
  get-release r id v valid h =
      (emptied r id, release_step r id v valid h, get-emptied r id v valid h)
