-- ===== src/Chain/Proposer.antt =====
-- `select_proposer` and `choose_best_head` of crates/agilang-blockchain-node/src/lib.rs.
pub mod Shares
pub mod Head
mod Tests
use agilang_native.Base.{
  ℕ, ◌+◌, ◌-◌, ◌%◌, Bool, true, false, not, ◌&&◌, Option, none, some, List, [], ◌∷◌, String, Result,
  ok, err, or_err, fail_if, ltb, nat_eq, if◌then◌else◌, checked_add, u64_mod, ◌==◌, string_key,
  ◌>>=◌, ◌>>◌,
}
use agilang_native.Base.Map.{Map, lookup}
use agilang_native.Chain.Fault.{Fault}
use agilang_native.Chain.Types.{BlockchainConfig, ConsensusMode, Block}
use agilang_native.Chain.Block.{is_development}

-- `keys().next().cloned().unwrap_or_else(..)`
abbrev pub first_key : Map String ℕ → String
first_key [] = "developer"
first_key ((k, stake) ∷ m) = k

-- the delegates who are validators, with their stakes
unfoldable pub active_delegates : Map String ℕ → List String → Map String ℕ
active_delegates validators [] = []
active_delegates validators (name ∷ names) =
    let rest = active_delegates validators names in
    elim (lookup name validators) [ none ↦ rest | some stake ↦ (name, stake) ∷ rest ]

-- the `match` that chooses who is eligible
unfoldable pub eligible : {V : Type 0} → BlockchainConfig V → Map String ℕ
eligible c = elim c.consensus_mode [
  | ConsensusMode.delegated_proof_of_stake ↦ elim c.delegates [
    | [] ↦ c.validators
    | name ∷ names ↦ active_delegates c.validators (name ∷ names)
  ]
  | _ ↦ c.validators
]

-- the checked sum of the stakes
unfoldable pub checked_total : ℕ → Map String ℕ → Option ℕ
checked_total sum [] = some sum
checked_total sum ((v, stake) ∷ rest) = elim (checked_add u64_mod sum stake) [
  | none ↦ none
  | some sum' ↦ checked_total sum' rest
]

-- the loop that walks along the stakes
unfoldable pub pick : ℕ → Map String ℕ → Option String
pick position [] = none
pick position ((v, stake) ∷ rest) = elim (ltb position stake) [
  | true ↦ some v
  | false ↦ pick (position - stake) rest
]

unfoldable pub select_proposer : {V : Type 0} → BlockchainConfig V → ℕ → Result Fault String
select_proposer c slot =
    if is_development c.consensus_mode && c.dev_allow_any_proposer
    then ok (first_key c.validators)
    else elim (eligible c) [
      | [] ↦ err Fault.no_eligible_validators
      | v ∷ vs ↦ do
        total ← or_err (checked_total 0 (v ∷ vs)) Fault.stake_overflow
        fail_if (nat_eq total 0) Fault.stake_zero
        or_err (pick (slot % total) (v ∷ vs)) Fault.selection_failed
    ]

-- the comparison by which the candidates are sorted: whether the first comes before the second
unfoldable pub precedes : {V : Type 0} → Block V → Block V → Bool
precedes left right =
    if ltb right.header.score left.header.score
    then true
    else if ltb left.header.score right.header.score
    then false
    else if ltb right.header.height left.header.height
    then true
    else if ltb left.header.height right.header.height
    then false
    else string_key.lt left.hash right.hash

-- the first of the candidates as they are sorted, equal ones in their order
unfoldable pub best : {V : Type 0} → Block V → List (Block V) → Block V
best b [] = b
best b (c ∷ rest) = elim (precedes c b) [ true ↦ best c rest | false ↦ best b rest ]

unfoldable pub choose_best_head : {V : Type 0} → List (Block V) → Result Fault (Block V)
choose_best_head [] = err Fault.no_candidate_heads
choose_best_head (b ∷ rest) = ok (best b rest)
