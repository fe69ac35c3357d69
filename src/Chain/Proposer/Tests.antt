-- ===== src/Chain/Proposer/Tests.antt =====
-- The theorems on proposers and heads, at stakes of two and one.
use agilang_native.Base.{
  ℕ, ◌≡◌, refl, some, List, [], ◌∷◌, arith, get_elem?, All, u64_mod, string_key, ◌*◌,
}
use agilang_native.Base.Map.{lookup}
use agilang_native.Chain.Types.{BlockchainConfig, ConsensusMode, Block}
use agilang_native.Chain.Sample.{config}
use agilang_native.Chain.Block.{zero_hash}
use agilang_native.Chain.Proposer.{select_proposer, choose_best_head, best, precedes}
use agilang_native.Chain.Proposer.Shares.{tally, is_proposer, select_proposer_shares}
use agilang_native.Chain.Proposer.Head.{IsBehind, choose_best_head_greatest}

abbrev two_delegates : BlockchainConfig ℕ
two_delegates = record config {
  consensus_mode = ConsensusMode.delegated_proof_of_stake;
  validators = ("u", 9) ∷ ("v", 2) ∷ ("w", 1) ∷ [];
  delegates = "w" ∷ "v" ∷ "w" ∷ "x" ∷ [];
}

select_proposer_shares_example :
    tally 4 (λ slot. is_proposer "w" (select_proposer two_delegates slot)) ≡ 2 * 1
unfolding lookup u64_mod
select_proposer_shares_example = select_proposer_shares two_delegates "w" refl (omega arith)

abbrev head : ℕ → ℕ → Block ℕ
head score height = record {
  header = record {
    chain_id = 7;
    height = height;
    parent_hash = zero_hash;
    timestamp_ms = 5;
    slot = 0;
    epoch = 0;
    proposer = "v";
    transaction_root = "";
    state_root = "";
    gas_limit = 50000;
    gas_used = 0;
    score = score;
  };
  transactions = [];
  validator_signature = "";
  hash = zero_hash;
}

abbrev heads : List (Block ℕ)
heads = head 3 8 ∷ head 4 6 ∷ head 4 7 ∷ []

choose_best_head_greatest_example :
    ((i : ℕ) × (get_elem? heads i ≡ some (head 4 7))) × All (λ c. IsBehind c (head 4 7)) heads
unfolding choose_best_head best precedes
choose_best_head_greatest_example = choose_best_head_greatest heads (head 4 7) refl
