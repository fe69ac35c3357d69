-- ===== src/Chain/Proposer/Head.antt =====
-- Which head the node builds on.
use agilang_native.Base.{
  ℕ, zero, suc, ◌<◌, ◌≤◌, ◌≡◌, refl, true, false, some, List, [], ◌∷◌, arith, ok, get_elem?,
  Bool-cases, inl, inr, ◌⊎◌, All, subst, sym,
}
use agilang_native.Chain.Types.{Block}
use agilang_native.Chain.Proposer.{precedes, best, choose_best_head}

module _ {V : Type 0} where
  -- no higher score, and with the same score no greater height
  abbrev pub IsBehind : Block V → Block V → Type 0
  IsBehind c b =
      (c.header.score < b.header.score)
      ⊎ (c.header.score ≡ b.header.score) × (c.header.height ≤ b.header.height)

  IsBehind-precedes : (c b : Block V) → precedes c b ≡ true → IsBehind b c
  unfolding precedes
  IsBehind-precedes c b h = ground arith

  IsBehind-not_precedes : (c b : Block V) → precedes c b ≡ false → IsBehind c b
  unfolding precedes
  IsBehind-not_precedes c b h = ground arith

  IsBehind-trans : (a b c : Block V) → IsBehind a b → IsBehind b c → IsBehind a c
  IsBehind-trans a b c h h' = grind arith

  best_first : (b : Block V) (rest : List (Block V)) → IsBehind b (best b rest)
  unfolding best
  best_first b [] = inr (refl, omega arith)
  best_first b (c ∷ rest) = elim (Bool-cases (precedes c b)) [
    | inl ahead ↦
        rw (ahead, best)
          (IsBehind-trans b c (best c rest) (IsBehind-precedes c b ahead) (best_first c rest))
    | inr not_ahead ↦ rw (not_ahead, best) (best_first b rest)
  ]

  best_rest : (b : Block V) (rest : List (Block V)) → All (λ x. IsBehind x (best b rest)) rest
  unfolding best
  best_rest b [] = tt
  best_rest b (c ∷ rest) = elim (Bool-cases (precedes c b)) [
    | inl ahead ↦
        let step : best b (c ∷ rest) ≡ best c rest = ground arith in
        subst (λ y. IsBehind c y × All (λ x. IsBehind x y) rest) (sym step)
          (best_first c rest, best_rest c rest)
    | inr not_ahead ↦
        let step : best b (c ∷ rest) ≡ best b rest = ground arith in
        let second =
          IsBehind-trans c b (best b rest) (IsBehind-not_precedes c b not_ahead)
            (best_first b rest) in
        subst (λ y. IsBehind c y × All (λ x. IsBehind x y) rest) (sym step)
          (second, best_rest b rest)
  ]

  best_among :
      (b : Block V) (rest : List (Block V))
      → (i : ℕ) × (get_elem? (b ∷ rest) i ≡ some (best b rest))
  unfolding best
  best_among b [] = (0, refl)
  best_among b (c ∷ rest) = elim (Bool-cases (precedes c b)) [
    | inl ahead ↦ let (i, e) = best_among c rest in (suc i, rw (ahead, best) e)
    | inr not_ahead ↦ rw (not_ahead, best) (skip_second b c rest (best_among b rest))
  ]
    where
      skip_second :
          (b c : Block V) (rest : List (Block V)) {x : Block V}
          → (i : ℕ) × (get_elem? (b ∷ rest) i ≡ some x)
          → (i : ℕ) × (get_elem? (b ∷ c ∷ rest) i ≡ some x)
      skip_second b c rest (zero, e) = (0, e)
      skip_second b c rest (suc i, e) = (suc (suc i), e)

  -- The head that is chosen is one of the candidates, and no candidate has a higher score, or the
  -- same score and a greater height.
  pub choose_best_head_greatest :
      (candidates : List (Block V)) (b : Block V)
      → choose_best_head candidates ≡ ok b
      → ((i : ℕ) × (get_elem? candidates i ≡ some b)) × All (λ c. IsBehind c b) candidates
  unfolding choose_best_head
  choose_best_head_greatest [] b h = absurd (ground arith)
  choose_best_head_greatest (c ∷ rest) b h =
      let same : best c rest ≡ b = ground arith in
      subst
        (λ x. ((i : ℕ) × (get_elem? (c ∷ rest) i ≡ some x)) × All (λ y. IsBehind y x) (c ∷ rest))
        same (best_among c rest, (best_first c rest, best_rest c rest))
