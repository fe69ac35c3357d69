-- ===== src/Runtime/Handles/Slots.antt =====
-- What the registry keeps true of its slots: the first is never used, the free indices are vacant and
-- listed once, generations are not zero, and `live` counts the objects.
use agilang_native.Base.{
  ℕ, zero, suc, ◌+◌, ◌<◌, ◌≤◌, ◌≡◌, ◌≢◌, ◌⊎◌, refl, Bool, true, false, ◌||◌, none, some, List, [],
  ◌∷◌, ◌++◌, arith, nat_eq, nat_eq_iff, length, get_elem?, set, u32_mod, inl, inr, ap, subst, sym,
  length-append, get_elem?-set_self, get_elem?-set_ne, get_elem?-append_left, get_elem?-append_last,
  lt-length_of_get_elem?, Bool-cases, if◌then◌else◌,
}
use agilang_native.Runtime.Handles.{Slot, Registry, vacant, is_vacant, take_index, new_registry}

abbrev pub mem : ℕ → List ℕ → Bool
mem i [] = false
mem i (j ∷ js) = nat_eq j i || mem i js

abbrev pub AllDistinct : List ℕ → Type 0
AllDistinct [] = Unit
AllDistinct (i ∷ is) = (mem i is ≡ false) × AllDistinct is

List-cases : {A : Type 0} (xs : List A) → (xs ≡ []) ⊎ ((x : A) × (rest : List A) × (xs ≡ x ∷ rest))
List-cases [] = inl refl
List-cases (x ∷ rest) = inr (x, rest, refl)

module _ {V : Type 0} where
  abbrev pub weight : Slot V → ℕ
  weight s = if is_vacant s.object then 0 else 1

  -- how many slots hold an object
  abbrev pub occupied : List (Slot V) → ℕ
  occupied [] = 0
  occupied (s ∷ slots) = weight s + occupied slots

  pub record IsValid (r : Registry V) : Type 0 where
    pub first : get_elem? r.slots 0 ≡ some (vacant 1)
    pub unused :
        (i : ℕ) → mem i r.free ≡ true → (0 < i) × (g : ℕ) × (get_elem? r.slots i ≡ some (vacant g))
    pub once : AllDistinct r.free
    pub generations :
        (i : ℕ) (s : Slot V)
        → get_elem? r.slots i ≡ some s
        → (0 < s.generation) × (s.generation < u32_mod)
    pub counted : r.live ≡ occupied r.slots
    pub small : length r.slots ≤ u32_mod

  pub get_elem?-set_cases :
      (xs : List (Slot V)) (i j : ℕ) (old new : Slot V)
      → get_elem? xs i ≡ some old
      → get_elem? (set xs i new) j ≡ (if nat_eq i j then some new else get_elem? xs j)
  get_elem?-set_cases xs i j old new h = elim (Bool-cases (nat_eq i j)) [
    | inl here ↦
        let same : i ≡ j = ground arith in
        ground (
          arith,
          get_elem?-set_self xs i new (lt-length_of_get_elem? xs i h),
          ap (get_elem? (set xs i new)) same,
        )
    | inr there ↦ ground (arith, get_elem?-set_ne xs i j new (λ e. ground arith))
  ]

  pub occupied-set :
      (xs : List (Slot V)) (i : ℕ) (old new : Slot V)
      → get_elem? xs i ≡ some old
      → occupied (set xs i new) + weight old ≡ occupied xs + weight new
  occupied-set [] i old new h = absurd (ground arith)
  occupied-set (x ∷ xs) zero old new h = ground arith
  occupied-set (x ∷ xs) (suc i) old new h = omega (arith, occupied-set xs i old new h)

  pub occupied-append_vacant :
      (xs : List (Slot V)) (g : ℕ) → occupied (xs ++ vacant g ∷ []) ≡ occupied xs
  occupied-append_vacant [] g = refl
  occupied-append_vacant (x ∷ xs) g = omega (arith, occupied-append_vacant xs g)

  pub occupied-le : (xs : List (Slot V)) → occupied xs ≤ length xs
  occupied-le [] = omega arith
  occupied-le (x ∷ xs) = ground (arith, occupied-le xs)

  pub new_registry-IsValid : IsValid (new_registry {V = V})
  unfolding new_registry u32_mod
  new_registry-IsValid = record {
    first = refl;
    unused = λ i h. absurd (ground arith);
    once = tt;
    generations = λ i s h. only_slot i s h;
    counted = refl;
    small = omega arith;
  }
    where
      only_slot :
          (i : ℕ) (s : Slot V)
          → get_elem? (vacant 1 ∷ []) i ≡ some s
          → (0 < s.generation) × (s.generation < u32_mod)
      only_slot zero s h = ground arith
      only_slot (suc i) s h = absurd (ground arith)

  -- an index that is free for an object, in a registry that has given it away
  pub record IsTaken (r : Registry V) (i : ℕ) (r' : Registry V) : Type 0 where
    pub generation : ℕ
    pub slot : get_elem? r'.slots i ≡ some (vacant generation)
    pub positive : (0 < i) × (i < u32_mod)
    pub given : mem i r'.free ≡ false
    pub valid : IsValid r'
    pub live : r'.live ≡ r.live
    pub vacated : (s : Slot V) → get_elem? r.slots i ≡ some s → s.object ≡ none
    pub others : (j : ℕ) → i ≢ j → get_elem? r'.slots j ≡ get_elem? r.slots j

  get_elem?-none : (xs : List (Slot V)) (i : ℕ) → length xs ≤ i → get_elem? xs i ≡ none
  get_elem?-none [] i h = refl
  get_elem?-none (x ∷ xs) zero h = absurd (omega arith)
  get_elem?-none (x ∷ xs) (suc i) h = get_elem?-none xs i (omega arith)

  get_elem?-append_cases :
      (xs : List (Slot V)) (x s : Slot V) (j : ℕ)
      → get_elem? (xs ++ x ∷ []) j ≡ some s
      → (get_elem? xs j ≡ some s) ⊎ (s ≡ x)
  get_elem?-append_cases [] x s zero h = ground arith
  get_elem?-append_cases [] x s (suc j) h = absurd (ground arith)
  get_elem?-append_cases (y ∷ xs) x s zero h = inl h
  get_elem?-append_cases (y ∷ xs) x s (suc j) h = get_elem?-append_cases xs x s j h

  get_elem?-append_past :
      (xs : List (Slot V)) (x : Slot V) (j : ℕ)
      → length xs ≢ j
      → get_elem? (xs ++ x ∷ []) j ≡ get_elem? xs j
  get_elem?-append_past [] x zero h = absurd (h refl)
  get_elem?-append_past [] x (suc j) h = refl
  get_elem?-append_past (y ∷ xs) x zero h = refl
  get_elem?-append_past (y ∷ xs) x (suc j) h = get_elem?-append_past xs x j (λ e. h (ap suc e))

  pub free_reused :
      (r : Registry V) (i : ℕ) (rest : List ℕ)
      → IsValid r
      → r.free ≡ i ∷ rest
      → IsTaken r i (record r { free = rest })
  free_reused r i rest v e =
      let listed : mem i r.free ≡ true = ground (arith, nat_eq_iff i i) in
      let (above, g, slot) = v.unused i listed in
      record {
        generation = g;
        slot = slot;
        positive = (above, omega (arith, v.small, lt-length_of_get_elem? r.slots i slot));
        given = ground (arith, v.once);
        valid = record {
          first = v.first;
          unused = λ j h. v.unused j (ground arith);
          once = ground (arith, v.once);
          generations = v.generations;
          counted = v.counted;
          small = v.small;
        };
        live = refl;
        vacated = λ s h. ground arith;
        others = λ j h. refl;
      }

  pub slot_added :
      (r : Registry V)
      → IsValid r
      → r.free ≡ []
      → length r.slots < u32_mod
      → IsTaken r (length r.slots) (record r { slots = r.slots ++ (vacant 1 ∷ []) })
  unfolding u32_mod
  slot_added r v e room =
      let some_slots = lt-length_of_get_elem? r.slots 0 v.first in
      record {
        generation = 1;
        slot = get_elem?-append_last r.slots (vacant 1);
        positive = (some_slots, room);
        given = ground arith;
        valid = record {
          first =
              ground (arith, get_elem?-append_left r.slots (vacant 1 ∷ []) 0 some_slots, v.first);
          unused = λ j h. absurd (ground arith);
          once = v.once;
          generations = λ j s h. elim (get_elem?-append_cases r.slots (vacant 1) s j h) [
            | inl before ↦ v.generations j s before
            | inr new ↦ ground arith
          ];
          counted = ground (arith, v.counted, occupied-append_vacant r.slots 1);
          small = ground (arith, length-append r.slots (vacant 1 ∷ []));
        };
        live = refl;
        vacated = λ s h. absurd (ground (arith, get_elem?-none r.slots (length r.slots)));
        others = λ j h. get_elem?-append_past r.slots (vacant 1) j h;
      }

  -- There is room for one more object.
  abbrev pub HasRoom : Registry V → Type 0
  HasRoom r = (length r.slots < u32_mod) ⊎ (r.free ≢ [])

  pub take_index-IsTaken :
      (r : Registry V) → IsValid r → HasRoom r → IsTaken r (take_index r).0 (take_index r).1
  unfolding take_index u32_mod
  take_index-IsTaken r v room = elim (List-cases r.free) [
    | inl e ↦
        let short : length r.slots < u32_mod = ground arith in
        let added : Registry V = record r { slots = r.slots ++ (vacant 1 ∷ []) } in
        let step : take_index r ≡ (length r.slots, added) = ground arith in
        subst (λ p. IsTaken r p.0 p.1) (sym step) (slot_added r v e short)
    | inr (i, rest, e) ↦
        let step : take_index r ≡ (i, record r { free = rest }) = ground arith in
        subst (λ p. IsTaken r p.0 p.1) (sym step) (free_reused r i rest v e)
  ]
