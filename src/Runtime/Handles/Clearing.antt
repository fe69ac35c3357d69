-- ===== src/Runtime/Handles/Clearing.antt =====
-- `clear` leaves a valid registry that names nothing.
use agilang_native.Base.{
  ℕ, zero, suc, ◌-◌, ◌%◌, ◌<◌, ◌≤◌, ◌≡◌, false, true, none, some, List, [], ◌∷◌, arith, is_ok,
  length, get_elem?, u32_mod, Option-cases, inl, inr, refl, ap, ◌⊎◌, subst, sym, ◌∙◌,
}
use agilang_native.Runtime.Handles.{
  Slot, Registry, vacant, next_generation, get, index_of, clear, clear_slots, indices,
}
use agilang_native.Runtime.Handles.Slots.{IsValid, occupied, mem, AllDistinct}

mem-indices : (j n : ℕ) → mem j (indices n) ≡ true → (0 < j) × (j ≤ n)
unfolding indices
mem-indices j zero h = absurd (ground arith)
mem-indices j (suc n) h = ground (arith, mem-indices j n)

indices-AllDistinct : (n : ℕ) → AllDistinct (indices n)
unfolding indices
indices-AllDistinct zero = tt
indices-AllDistinct (suc n) = (ground (arith, mem-indices (suc n) n), indices-AllDistinct n)

module _ {V : Type 0} where
  length-clear_slots : (xs : List (Slot V)) → length (clear_slots xs) ≡ length xs
  unfolding clear_slots
  length-clear_slots [] = refl
  length-clear_slots (x ∷ xs) = ground (arith, length-clear_slots xs)

  occupied-clear_slots : (xs : List (Slot V)) → occupied (clear_slots xs) ≡ 0
  unfolding clear_slots
  occupied-clear_slots [] = refl
  occupied-clear_slots (x ∷ xs) = ground (arith, occupied-clear_slots xs)

  -- what becomes of a slot
  get_elem?-clear_slots :
      (xs : List (Slot V)) (j : ℕ) (s : Slot V)
      → get_elem? (clear_slots xs) j ≡ some s
      → (s.object ≡ none)
        × ((get_elem? xs j ≡ some s)
            ⊎ ((old : Slot V) × (get_elem? xs j ≡ some old)
                × (s.generation ≡ next_generation old.generation)))
  unfolding clear_slots
  get_elem?-clear_slots [] j s h = absurd (ground arith)
  get_elem?-clear_slots (x ∷ xs) zero s h = elim (Option-cases x.object) [
    | inl e ↦ (ground arith, inl (ground arith))
    | inr (v, e) ↦ (ground arith, inr (x, refl, ground arith))
  ]
  get_elem?-clear_slots (x ∷ xs) (suc j) s h =
      get_elem?-clear_slots xs j s (ground (arith, Option-cases x.object))

  cleared_slot :
      (xs : List (Slot V)) (j : ℕ)
      → j < length xs
      → (g : ℕ) × (get_elem? (clear_slots xs) j ≡ some (vacant g))
  unfolding clear_slots
  cleared_slot [] j h = absurd (omega arith)
  cleared_slot (x ∷ xs) zero h = elim (Option-cases x.object) [
    | inl e ↦ (x.generation, ground arith)
    | inr (v, e) ↦ (next_generation x.generation, ground arith)
  ]
  cleared_slot (x ∷ xs) (suc j) h =
      let (g, e) = cleared_slot xs j (omega arith) in (g, ground arith)

  abbrev cleared : Slot V → List (Slot V) → ℕ → Registry V
  cleared x xs n = record { slots = x ∷ clear_slots xs; free = indices n; live = 0 }

  cleared-IsValid :
      (r : Registry V) (x : Slot V) (xs : List (Slot V)) (n : ℕ)
      → n ≤ length xs
      → r.slots ≡ x ∷ xs
      → IsValid r
      → IsValid (cleared x xs n)
  unfolding u32_mod
  cleared-IsValid r x xs n le e valid = record {
    first = ground (arith, valid.first);
    unused = λ j h. listed_slot j (mem-indices j n h);
    once = indices-AllDistinct n;
    generations = λ j s h. kept_generation j s h;
    counted = ground (arith, occupied-clear_slots xs, valid.first);
    small = ground (arith, length-clear_slots xs, valid.small);
  }
    where
      listed_slot :
          (j : ℕ)
          → (0 < j) × (j ≤ n)
          → (0 < j) × (g : ℕ) × (get_elem? (x ∷ clear_slots xs) j ≡ some (vacant g))
      listed_slot zero h = absurd (omega arith)
      listed_slot (suc j) h = let (g, e) = cleared_slot xs j (omega arith) in (h.0, g, e)

      kept_generation :
          (j : ℕ) (s : Slot V)
          → get_elem? (x ∷ clear_slots xs) j ≡ some s
          → (0 < s.generation) × (s.generation < u32_mod)
      kept_generation zero s h = ground (arith, valid.generations 0 s)
      kept_generation (suc j) s h = elim (get_elem?-clear_slots xs j s h).1 [
        | inl same ↦ ground (arith, valid.generations (suc j) s)
        | inr (old, found, raised) ↦ ground (arith, valid.generations (suc j) old)
      ]

  clear-cleared :
      (r : Registry V)
      → IsValid r
      → (x : Slot V) × (xs : List (Slot V)) × (r.slots ≡ x ∷ xs)
        × (clear r ≡ cleared x xs (suc (length xs) % u32_mod - 1))
  unfolding clear
  clear-cleared r valid =
      let (x, xs, e) = slots_shape r.slots valid.first in (x, xs, e, ap of_slots e)
    where
      of_slots : List (Slot V) → Registry V
      of_slots slots = clear (record r { slots = slots })

      slots_shape :
          (slots : List (Slot V))
          → get_elem? slots 0 ≡ some (vacant 1)
          → (x : Slot V) × (xs : List (Slot V)) × (slots ≡ x ∷ xs)
      slots_shape [] h = absurd (ground arith)
      slots_shape (x ∷ xs) h = (x, xs, refl)

  no_object :
      (x : Slot V) (xs : List (Slot V)) (j : ℕ) (s : Slot V)
      → x ≡ vacant 1
      → get_elem? (x ∷ clear_slots xs) j ≡ some s
      → s.object ≡ none
  no_object x xs zero s first h = ground arith
  no_object x xs (suc j) s first h = (get_elem?-clear_slots xs j s h).0

  unnamed :
      (x : Slot V) (xs : List (Slot V)) (n id : ℕ)
      → x ≡ vacant 1
      → is_ok (get (cleared x xs n) id) ≡ false
  unfolding get
  unnamed x xs n id first = elim (Option-cases (get_elem? (x ∷ clear_slots xs) (index_of id))) [
    | inl e ↦ ground arith
    | inr (s, e) ↦ ground (arith, no_object x xs (index_of id) s first e)
  ]

  -- `clear` leaves a valid registry valid, in which no handle names a value.
  pub get-clear :
      (r : Registry V)
      → IsValid r
      → IsValid (clear r) × ((id : ℕ) → is_ok (get (clear r) id) ≡ false)
  unfolding u32_mod
  get-clear r valid =
      let (x, xs, e, step) = clear-cleared r valid in
      let n = suc (length xs) % u32_mod - 1 in
      let few : n ≤ length xs = omega arith in
      (
        subst IsValid (sym step) (cleared-IsValid r x xs n few e valid),
        λ id. ap (λ c. is_ok (get c id)) step ∙ unnamed x xs n id (ground (arith, valid.first)),
      )
