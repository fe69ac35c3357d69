-- ===== src/Runtime/Handles/Tests.antt =====
-- The theorems on handles, at a registry that has held one number.
use agilang_native.Base.{
  ℕ, ◌≡◌, refl, false, [], ◌∷◌, arith, ok, err, is_ok, nat_eq, if◌then◌else◌, inl, u32_mod, u64_mod,
}
use agilang_native.Runtime.Handles.{
  HandleFault, Registry, holding, vacant, new_registry, insert, get, release, from_parts, index_of,
  generation_of,
}
use agilang_native.Runtime.Handles.Slots.{IsValid, HasRoom, new_registry-IsValid}
use agilang_native.Runtime.Handles.Lookup.{get-insert, get-release}
use agilang_native.Runtime.Handles.Validity.{insert-IsValid}

abbrev fresh : Registry ℕ
fresh = new_registry

-- index 1 in generation 1
abbrev first_id : ℕ
first_id = 4294967297

abbrev one : Registry ℕ
one = record { slots = vacant 1 ∷ holding 1 7 ∷ []; free = []; live = 1 }

inserted : insert 7 fresh ≡ ok (first_id, one)
unfolding insert new_registry u32_mod from_parts u64_mod
inserted = refl

fresh-HasRoom : HasRoom fresh
unfolding new_registry u32_mod
fresh-HasRoom = inl (omega arith)

one-IsValid : IsValid one
one-IsValid = insert-IsValid fresh one 7 first_id new_registry-IsValid fresh-HasRoom inserted

named : get one first_id ≡ ok 7
unfolding get index_of u32_mod generation_of
named = refl

get-insert_example :
    (id : ℕ) × (r' : Registry ℕ) × (insert 7 fresh ≡ ok (id, r'))
    × (is_ok (get fresh id) ≡ false)
    × ((other : ℕ) → get r' other ≡ (if nat_eq id other then ok 7 else get fresh other))
get-insert_example = get-insert fresh 7 new_registry-IsValid fresh-HasRoom

get-release_example :
    (r' : Registry ℕ) × (release first_id one ≡ ok r')
    × ((other : ℕ)
        → get r' other ≡ (
            if nat_eq first_id other
            then err (HandleFault.invalid_handle first_id)
            else get one other))
get-release_example = get-release one first_id 7 one-IsValid named

insert-IsValid_example : IsValid one
insert-IsValid_example =
    insert-IsValid fresh one 7 first_id new_registry-IsValid fresh-HasRoom inserted

abbrev none_left : Registry ℕ
none_left = record { slots = vacant 1 ∷ vacant 2 ∷ []; free = 1 ∷ []; live = 0 }

released : release first_id one ≡ ok none_left
unfolding release index_of u32_mod generation_of
released = refl
