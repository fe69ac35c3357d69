-- ===== src/Runtime/Handles.antt =====
-- `HandleRegistry` of crates/agilang-runtime-core/src/handle.rs: values behind handles of an index and
-- a generation. `V` is the type of the values. The lock is left out: each method holds it throughout.
pub mod Slots
pub mod Lookup
pub mod Validity
pub mod Clearing
mod Tests
use agilang_native.Base.{
  ℕ, zero, suc, ◌+◌, ◌-◌, ◌*◌, ◌/◌, ◌%◌, Bool, true, false, not, ◌||◌, Option, none, some, List, [],
  ◌∷◌, ◌++◌, Result, ok, err, is_ok, nat_eq, if◌then◌else◌, length, get_elem?, set, u32_mod,
  u64_mod, max,
}

-- `AgilangError::invalid_handle`, and a panic: an index out of bounds, or a counter below zero
pub data HandleFault : Type 0 where
  invalid_handle : ℕ → HandleFault
  panicked : HandleFault

-- `((generation as u64) << 32) | index as u64`, of two u32
unfoldable pub from_parts : ℕ → ℕ → ℕ
from_parts index generation = generation * u32_mod + index

unfoldable pub index_of : ℕ → ℕ
index_of id = id % u32_mod

unfoldable pub generation_of : ℕ → ℕ
generation_of id = id / u32_mod

pub record Slot (V : Type 0) : Type 0 where
  pub generation : ℕ
  pub object : Option V

-- `free` has the end of the vector first: it is only pushed and popped.
pub record Registry (V : Type 0) : Type 0 where
  pub slots : List (Slot V)
  pub free : List ℕ
  pub live : ℕ

-- `generation.wrapping_add(1).max(1)`
abbrev pub next_generation : ℕ → ℕ
next_generation g = max ((g + 1) % u32_mod) 1

abbrev pub is_vacant : {V : Type 0} → Option V → Bool
is_vacant none = true
is_vacant (some v) = false

-- the indices from 1 to `n`, the last one first
unfoldable pub indices : ℕ → List ℕ
indices zero = []
indices (suc n) = suc n ∷ indices n

module _ {V : Type 0} where
  abbrev pub vacant : ℕ → Slot V
  vacant generation = record { generation = generation; object = none }

  abbrev pub holding : ℕ → V → Slot V
  holding generation v = record { generation = generation; object = some v }

  unfoldable pub new_registry : Registry V
  new_registry = record { slots = vacant 1 ∷ []; free = []; live = 0 }

  -- the index for a new object, taken from the free ones or made by a new slot
  unfoldable pub take_index : Registry V → ℕ × Registry V
  take_index r = elim r.free [
    | index ∷ rest ↦ (index, record r { free = rest })
    | [] ↦ (length r.slots % u32_mod, record r { slots = r.slots ++ (vacant 1 ∷ []) })
  ]

  unfoldable pub insert : V → Registry V → Result HandleFault (ℕ × Registry V)
  unfolding take_index
  insert v r =
      let (index, r') = take_index r in
      elim (get_elem? r'.slots index) [
        | none ↦ err panicked
        | some slot ↦ ok (
          from_parts index slot.generation,
          record r' {
            slots = set r'.slots index (holding slot.generation v);
            live = (r'.live + 1) % u64_mod;
          },
        )
      ]

  unfoldable pub get : Registry V → ℕ → Result HandleFault V
  get r id =
      if nat_eq id 0 then err (invalid_handle id) else elim (get_elem? r.slots (index_of id)) [
        | none ↦ err (invalid_handle id)
        | some slot ↦
            if not (nat_eq slot.generation (generation_of id))
            then err (invalid_handle id)
            else elim slot.object [ none ↦ err (invalid_handle id) | some v ↦ ok v ]
      ]

  unfoldable pub clone_handle : Registry V → ℕ → Result HandleFault (ℕ × Registry V)
  clone_handle r id = elim (get r id) [ err e ↦ err e | ok v ↦ insert v r ]

  unfoldable pub release : ℕ → Registry V → Result HandleFault (Registry V)
  release id r =
      if nat_eq id 0 then err (invalid_handle id) else elim (get_elem? r.slots (index_of id)) [
        | none ↦ err (invalid_handle id)
        | some slot ↦
            if not (nat_eq slot.generation (generation_of id)) || is_vacant slot.object
            then err (invalid_handle id)
            else if nat_eq r.live 0
            then err panicked
            else ok (record {
              slots = set r.slots (index_of id) (vacant (next_generation slot.generation));
              free = index_of id ∷ r.free;
              live = r.live - 1;
            })
      ]

  abbrev pub contains_handle : Registry V → ℕ → Bool
  contains_handle r id = is_ok (get r id)

  -- the loop of `clear` over the slots behind the first
  unfoldable pub clear_slots : List (Slot V) → List (Slot V)
  clear_slots [] = []
  clear_slots (slot ∷ slots) = elim slot.object [
    | none ↦ slot ∷ clear_slots slots
    | some v ↦ vacant (next_generation slot.generation) ∷ clear_slots slots
  ]

  unfoldable pub clear : Registry V → Registry V
  unfolding clear_slots indices
  clear r = elim r.slots [
    | [] ↦ record { slots = []; free = []; live = 0 }
    | first ∷ slots ↦ record {
      slots = first ∷ clear_slots slots;
      free = indices (suc (length slots) % u32_mod - 1);
      live = 0;
    }
  ]
