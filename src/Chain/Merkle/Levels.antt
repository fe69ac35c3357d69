-- ===== src/Chain/Merkle/Levels.antt =====
-- The climb ends, and what the padding of odd levels does to the root.
use agilang_native.Base.{
  ℕ, zero, suc, ◌+◌, ◌*◌, ◌≤◌, ◌≡◌, refl, some, List, [], ◌∷◌, String, arith, length, Result, ok,
  ap, Result-cases, inl, inr, ◌∙◌, ◌⊎◌, ◌%◌, ◌<◌, ◌++◌, sym, length-append,
}
use agilang_native.Chain.Fault.{Fault}
use agilang_native.Chain.Merkle.{pad, hash_pairs, climb, hash_all, merkle_root}

module _ (sha256_hex : String → String) where
  length-hash_pairs-pad :
      (level : List String) → length (hash_pairs sha256_hex (pad level)) * 2 ≤ length level + 1
  unfolding pad hash_pairs
  length-hash_pairs-pad [] = omega arith
  length-hash_pairs-pad (a ∷ []) = omega arith
  length-hash_pairs-pad (a ∷ b ∷ rest) = omega (arith, length-hash_pairs-pad rest)

  climb_total :
      (fuel : ℕ) (level : List String)
      → length level ≤ suc fuel
      → (root : String) × (climb sha256_hex fuel level ≡ some root)
  unfolding climb
  climb_total fuel [] h = (sha256_hex "", refl)
  climb_total fuel (root ∷ []) h = (root, refl)
  climb_total zero (a ∷ b ∷ rest) h = absurd (omega arith)
  climb_total (suc fuel) (a ∷ b ∷ rest) h =
      climb_total fuel (hash_pairs sha256_hex (pad (a ∷ b ∷ rest)))
        (omega (arith, length-hash_pairs-pad (a ∷ b ∷ rest)))

  climb_mono :
      (fuel : ℕ) (level : List String) {root : String}
      → climb sha256_hex fuel level ≡ some root
      → climb sha256_hex (suc fuel) level ≡ some root
  unfolding climb
  climb_mono fuel [] h = h
  climb_mono fuel (a ∷ []) h = h
  climb_mono zero (a ∷ b ∷ rest) h = absurd (ground arith)
  climb_mono (suc fuel) (a ∷ b ∷ rest) h =
      climb_mono fuel (hash_pairs sha256_hex (pad (a ∷ b ∷ rest))) h

pad-pad : {A : Type 0} (xs : List A) → pad (pad xs) ≡ pad xs
unfolding pad
pad-pad [] = refl
pad-pad (a ∷ []) = refl
pad-pad (a ∷ b ∷ rest) = ap (λ l. a ∷ b ∷ l) (pad-pad rest)

pad_odd :
    {A : Type 0} (front : List A) (last : A)
    → length front % 2 ≡ 0
    → pad (front ++ last ∷ []) ≡ front ++ last ∷ last ∷ []
unfolding pad
pad_odd [] last even = refl
pad_odd (a ∷ []) last even = absurd (omega arith)
pad_odd (a ∷ b ∷ front) last even = ap (λ l. a ∷ b ∷ l) (pad_odd front last (omega arith))

hash_all-cons :
    {A : Type 0} (hash : A → Result Fault String) (x : A) (xs : List A) (hs : List String)
    → hash_all hash (x ∷ xs) ≡ ok hs
    → (h : String) × (t : List String) × (hash x ≡ ok h) × (hash_all hash xs ≡ ok t) × (h ∷ t ≡ hs)
unfolding hash_all
hash_all-cons hash x xs hs e = elim (Result-cases (hash x)) [
  | inl (h, first) ↦ elim (Result-cases (hash_all hash xs)) [
    | inl (t, rest) ↦ (h, t, first, rest, ground arith)
    | inr (f, rest) ↦ absurd (ground arith)
  ]
  | inr (f, first) ↦ absurd (ground arith)
]

cons-hash_all :
    {A : Type 0} (hash : A → Result Fault String) (x : A) (xs : List A) (h : String)
    (t : List String)
    → hash x ≡ ok h
    → hash_all hash xs ≡ ok t
    → hash_all hash (x ∷ xs) ≡ ok (h ∷ t)
unfolding hash_all
cons-hash_all hash x xs h t first rest = ground arith

hash_all-pad :
    {A : Type 0} (hash : A → Result Fault String) (xs : List A) (hs : List String)
    → hash_all hash xs ≡ ok hs
    → hash_all hash (pad xs) ≡ ok (pad hs)
unfolding pad
hash_all-pad hash [] hs e = unfold hash_all in ground arith
hash_all-pad hash (a ∷ []) hs e =
    let (h, t, first, rest, cons) = hash_all-cons hash a [] hs e in
    let none_left : [] ≡ t = unfold hash_all in ground arith in
    let two =
      cons-hash_all hash a (a ∷ []) h (h ∷ t) first (cons-hash_all hash a [] h t first rest) in
    ground arith
hash_all-pad hash (a ∷ b ∷ rest) hs e =
    let (h, t, first, later, cons) = hash_all-cons hash a (b ∷ rest) hs e in
    let (k, u, second, last, cons') = hash_all-cons hash b rest t later in
    let padded = hash_all-pad hash rest u last in
    let both = cons-hash_all hash b (pad rest) k (pad u) second padded in
    let all = cons-hash_all hash a (b ∷ pad rest) h (k ∷ pad u) first both in
    ground (arith, all, cons, cons')

length-hash_all :
    {A : Type 0} (hash : A → Result Fault String) (xs : List A) (hs : List String)
    → hash_all hash xs ≡ ok hs
    → length hs ≡ length xs
length-hash_all hash [] hs e = unfold hash_all in ground arith
length-hash_all hash (x ∷ xs) hs e =
    let (h, t, first, later, cons) = hash_all-cons hash x xs hs e in
    ground (arith, length-hash_all hash xs t later)

length-pad :
    {A : Type 0} (xs : List A) → (length (pad xs) ≡ length xs) ⊎ (length (pad xs) ≡ suc (length xs))
unfolding pad
length-pad [] = inl refl
length-pad (a ∷ []) = inr refl
length-pad (a ∷ b ∷ rest) = ground (arith, length-pad rest)

module _ (sha256_hex : String → String) {A : Type 0} (hash : A → Result Fault String) where
  -- The root of items that can be hashed is always found: the fuel is enough for every level.
  pub merkle_root_total :
      (items : List A) (hashes : List String)
      → hash_all hash items ≡ ok hashes
      → (root : String) × (merkle_root sha256_hex hash items ≡ ok root)
  unfolding merkle_root
  merkle_root_total items hashes h =
      let (root, e) = climb_total sha256_hex (length hashes) hashes (omega arith) in
      (root, ground arith)

  climb-pad :
      (fuel : ℕ) (a b : String) (rest : List String)
      → climb sha256_hex (suc fuel) (pad (a ∷ b ∷ rest))
        ≡ climb sha256_hex (suc fuel) (a ∷ b ∷ rest)
  unfolding climb pad
  climb-pad fuel a b rest =
      ap (λ l. climb sha256_hex fuel (hash_pairs sha256_hex (a ∷ b ∷ l))) (pad-pad rest)

  root-pad :
      (hashes : List String) {root : String}
      → 2 ≤ length hashes
      → climb sha256_hex (length hashes) hashes ≡ some root
      → climb sha256_hex (length (pad hashes)) (pad hashes) ≡ some root
  root-pad [] two e = absurd (omega arith)
  root-pad (a ∷ []) two e = absurd (omega arith)
  root-pad (a ∷ b ∷ rest) two e =
      let same = climb-pad (suc (length rest)) a b rest ∙ e in
      elim (length-pad (a ∷ b ∷ rest)) [
        | inl even ↦ rw even same
        | inr odd ↦ rw odd (climb_mono sha256_hex _ (pad (a ∷ b ∷ rest)) same)
      ]

  -- The root does not tell a list of odd length, three or more, from the list with its last item once
  -- more at the end: whenever the items can be hashed, both have the same root.
  pub merkle_root_duplicate :
      (front : List A) (last : A) (hashes : List String)
      → length front % 2 ≡ 0
      → 0 < length front
      → hash_all hash (front ++ last ∷ []) ≡ ok hashes
      → merkle_root sha256_hex hash (front ++ last ∷ last ∷ [])
        ≡ merkle_root sha256_hex hash (front ++ last ∷ [])
  unfolding merkle_root
  merkle_root_duplicate front last hashes even some_front h =
      let items = front ++ last ∷ [] in
      let (root, e) = climb_total sha256_hex (length hashes) hashes (omega arith) in
      let count = length-hash_all hash items hashes h in
      let two : 2 ≤ length hashes = omega (arith, count, length-append front (last ∷ [])) in
      let doubled : front ++ last ∷ last ∷ [] ≡ pad items = sym (pad_odd front last even) in
      rw doubled (ground (arith, e, hash_all-pad hash items hashes h, root-pad hashes two e))
