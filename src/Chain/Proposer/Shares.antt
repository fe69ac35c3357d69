-- ===== src/Chain/Proposer/Shares.antt =====
-- How often each validator proposes.
use agilang_native.Base.{
  ℕ, zero, suc, ◌+◌, ◌-◌, ◌%◌, ◌<◌, ◌≡◌, refl, Bool, false, ◌&&◌, none, some, List, [], ◌∷◌, arith,
  String, Result, ok, err, ◌⊎◌, if◌then◌else◌, ltb, ◌==◌, string_key, Bool-cases, inl, inr, Option,
  ◌∙◌, ap, sym, ◌*◌, length, u64_mod,
}
use agilang_native.Base.Map.{Map, lookup}
use native.Mathlib.Nat.{mod-eq_of_lt, add-mul}
use agilang_native.Chain.Types.{BlockchainConfig, ConsensusMode}
use agilang_native.Chain.Fault.{Fault}
use agilang_native.Chain.Block.{is_development}
use agilang_native.Chain.Proposer.{active_delegates, eligible, checked_total, pick, select_proposer}

-- how many of the first `n` numbers pass a test
unfoldable pub tally : ℕ → (ℕ → Bool) → ℕ
tally zero test = 0
tally (suc n) test = tally n test + (if test n then 1 else 0)

tally-add :
    (a b : ℕ) (test : ℕ → Bool) → tally (b + a) test ≡ tally a test + tally b (λ i. test (i + a))
unfolding tally
tally-add a zero test =
    let start : 0 + a ≡ a = omega arith in omega (arith, ap (λ n. tally n test) start)
tally-add a (suc b) test =
    let step : suc b + a ≡ suc (b + a) = omega arith in
    omega (arith, tally-add a b test, ap (λ n. tally n test) step)

tally_same : (n : ℕ) (f g : ℕ → Bool) → ((i : ℕ) → i < n → f i ≡ g i) → tally n f ≡ tally n g
unfolding tally
tally_same zero f g h = refl
tally_same (suc n) f g h =
    let rest = tally_same n f g (λ i l. h i (omega arith)) in
    ground (arith, rest, h n (omega arith))

tally_constant : (n : ℕ) (b : Bool) → tally n (λ i. b) ≡ (if b then n else 0)
unfolding tally
tally_constant zero b = ground arith
tally_constant (suc n) b = ground (arith, tally_constant n b)

-- the stakes together, and those of one name
abbrev pub stakes : Map String ℕ → ℕ
stakes [] = 0
stakes ((v, stake) ∷ rest) = stake + stakes rest

abbrev pub stake_in : String → Map String ℕ → ℕ
stake_in name [] = 0
stake_in name ((v, stake) ∷ rest) = (if v == name then stake else 0) + stake_in name rest

-- how often a list has a name, and the stake under a name
abbrev pub occurrences : String → List String → ℕ
occurrences name [] = 0
occurrences name (x ∷ xs) = (if x == name then 1 else 0) + occurrences name xs

abbrev pub stake_under : String → Map String ℕ → ℕ
stake_under name validators = elim (lookup name validators) [ none ↦ 0 | some stake ↦ stake ]

abbrev pub sum_stakes : Map String ℕ → List String → ℕ
sum_stakes validators [] = 0
sum_stakes validators (x ∷ xs) = stake_under x validators + sum_stakes validators xs

-- whether the delegates take the place of the validators
abbrev pub has_delegates : {V : Type 0} → BlockchainConfig V → Bool
has_delegates c = elim c.consensus_mode [
  | ConsensusMode.delegated_proof_of_stake ↦ ltb 0 (length c.delegates)
  | _ ↦ false
]

-- The slots of a round that are due to a name, and how many a round has. A delegate has its stake as
-- a validator, once for each time that it is listed; a delegate who is no validator has none.
abbrev pub share_of : {V : Type 0} → String → BlockchainConfig V → ℕ
share_of name c =
    if has_delegates c
    then occurrences name c.delegates * stake_under name c.validators
    else stake_in name c.validators

abbrev pub round_of : {V : Type 0} → BlockchainConfig V → ℕ
round_of c = if has_delegates c then sum_stakes c.validators c.delegates else stakes c.validators

stake_in-active_delegates :
    (name : String) (validators : Map String ℕ) (names : List String)
    → stake_in name (active_delegates validators names)
      ≡ occurrences name names * stake_under name validators
unfolding active_delegates
stake_in-active_delegates name validators [] = omega arith
stake_in-active_delegates name validators (x ∷ xs) =
    let rest = stake_in-active_delegates name validators xs in
    let split =
      add-mul (if x == name then 1 else 0) (occurrences name xs) (stake_under name validators) in
    elim (Bool-cases (x == name)) [
      | inl here ↦
          let same : lookup x validators ≡ lookup name validators =
            ap (λ n. lookup n validators) ((string_key.beq_iff x name).0 here) in
          let once : 1 * stake_under name validators ≡ stake_under name validators = omega arith in
          ground (arith, rest, split, same, once)
      | inr other ↦
          let none_of : 0 * stake_under name validators ≡ 0 = omega arith in
          ground (arith, rest, split, none_of)
    ]

stakes-active_delegates :
    (validators : Map String ℕ) (names : List String)
    → stakes (active_delegates validators names) ≡ sum_stakes validators names
unfolding active_delegates
stakes-active_delegates validators [] = refl
stakes-active_delegates validators (x ∷ xs) = ground (arith, stakes-active_delegates validators xs)

list_cases : {A : Type 0} (xs : List A) → (xs ≡ []) ⊎ ((x : A) × (rest : List A) × (xs ≡ x ∷ rest))
list_cases [] = inl refl
list_cases (x ∷ rest) = inr (x, rest, refl)

stake_in-eligible :
    {V : Type 0} (name : String) (c : BlockchainConfig V)
    → (stake_in name (eligible c) ≡ share_of name c) × (stakes (eligible c) ≡ round_of c)
unfolding eligible
stake_in-eligible name c = ground (
  arith,
  stake_in-active_delegates name c.validators c.delegates,
  stakes-active_delegates c.validators c.delegates,
  list_cases c.delegates,
)

checked_total_fits :
    (sum : ℕ) (vs : Map String ℕ)
    → sum + stakes vs < u64_mod
    → checked_total sum vs ≡ some (sum + stakes vs)
unfolding checked_total
checked_total_fits sum [] h = ground arith
checked_total_fits sum ((v, stake) ∷ rest) h = ground (arith, checked_total_fits (sum + stake) rest)

abbrev is_name : String → Option String → Bool
is_name name none = false
is_name name (some v) = v == name

tally-pick :
    (name : String) (vs : Map String ℕ)
    → tally (stakes vs) (λ p. is_name name (pick p vs)) ≡ stake_in name vs
unfolding tally pick
tally-pick name [] = refl
tally-pick name ((v, stake) ∷ rest) =
    let test = λ (p : ℕ). is_name name (pick p ((v, stake) ∷ rest)) in
    let swap : stake + stakes rest ≡ stakes rest + stake = omega arith in
    let front : tally stake test ≡ tally stake (λ i. v == name) =
      tally_same stake test (λ i. v == name) (λ i l. ground arith) in
    let back : tally (stakes rest) (λ i. test (i + stake)) ≡ stake_in name rest =
      tally_same (stakes rest) (λ i. test (i + stake)) (λ i. is_name name (pick i rest))
        (λ i l. let drop : i + stake - stake ≡ i = omega arith in ground (arith, drop))
      ∙ tally-pick name rest in
    omega (
      arith,
      ap (λ n. tally n test) swap,
      tally-add stake (stakes rest) test,
      front,
      tally_constant stake (v == name),
      back,
    )

-- within the stakes someone is picked
pick_total : (p : ℕ) (vs : Map String ℕ) → p < stakes vs → (name : String) × (pick p vs ≡ some name)
unfolding pick
pick_total p [] h = absurd (omega arith)
pick_total p ((v, stake) ∷ rest) h = elim (Bool-cases (ltb p stake)) [
  | inl here ↦ (v, ground arith)
  | inr past ↦ let (name, e) = pick_total (p - stake) rest (ground arith) in (name, ground arith)
]

-- whether a slot is given to a name
abbrev pub is_proposer : String → Result Fault String → Bool
is_proposer name (ok v) = v == name
is_proposer name (err e) = false

module _ {V : Type 0} (c : BlockchainConfig V) where
  select_position :
      (slot : ℕ)
      → is_development c.consensus_mode && c.dev_allow_any_proposer ≡ false
      → stakes (eligible c) < u64_mod
      → slot < stakes (eligible c)
      → (v : String) × (pick slot (eligible c) ≡ some v) × (select_proposer c slot ≡ ok v)
  unfolding select_proposer
  select_position slot strict fits small =
      let all = checked_total_fits 0 (eligible c) (omega (arith, fits)) in
      let (v, e) = pick_total slot (eligible c) small in
      let position : slot % stakes (eligible c) ≡ slot = mod-eq_of_lt small in
      (v, e, ground (arith, all, position, list_cases (eligible c)))

  pub select_proposer_shares :
      (name : String)
      → is_development c.consensus_mode && c.dev_allow_any_proposer ≡ false
      → round_of c < u64_mod
      → tally (round_of c) (λ slot. is_proposer name (select_proposer c slot)) ≡ share_of name c
  select_proposer_shares name strict fits =
      let (share, round) = stake_in-eligible name c in
      let same =
        tally_same (stakes (eligible c)) (λ slot. is_proposer name (select_proposer c slot))
          (λ p. is_name name (pick p (eligible c)))
          (λ i l.
            let (v, e, e') = select_position i strict (omega (arith, round)) l in
            ground (arith, e, e')) in
      ap (λ n. tally n (λ slot. is_proposer name (select_proposer c slot))) (sym round)
      ∙ same
      ∙ tally-pick name (eligible c)
      ∙ share
