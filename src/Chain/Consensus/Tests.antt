-- ===== src/Chain/Consensus/Tests.antt =====
-- The theorems on attestations, at two validators of which one has nine tenths of the stake.
use agilang_native.Base.{
  ℕ, Result, ◌<◌, ◌≡◌, refl, arith, ok, true, String, List, [], ◌∷◌, inl, u128_mod, string_key,
  nat_key, pair_key,
}
use agilang_native.Base.Key.{pair_beq}
use agilang_native.Base.Text.{utf8}
use agilang_native.Base.Map.{sum_by, insert, lookup}
use agilang_native.Chain.Fault.{Fault}
use agilang_native.Chain.Consensus.Signing.{
  Attestation, Checkpoint, Keyring, Signer, constant_time_eq, create_attestation,
  verify_attestation,
}
use agilang_native.Chain.Consensus.{
  ConsensusEngine, new_engine, submit_all, submit_attestation, count_vote, justify, add_equivocator,
  record_vote, stake_of, has_supermajority,
}
use agilang_native.Chain.Types.{Block}
use agilang_native.Chain.Consensus.Invariant.{IsConsistent}
use agilang_native.Chain.Consensus.Steps.{submit-IsConsistent}
use agilang_native.Chain.Consensus.Safety.{new_engine-IsConsistent, decided_agree}
use agilang_native.Chain.Consensus.Genuine.{create-verify}

abbrev signer : Signer
signer = record { attestation_json = λ v s t. ok v; hmac = λ domain key text. ok (17 ∷ []) }

abbrev keyring : Keyring
keyring = record {
  validators = ("v", 9) ∷ ("w", 1) ∷ [];
  signing_keys = ("v", "k") ∷ ("w", "l") ∷ [];
}

abbrev checkpoint : ℕ → String → Checkpoint
checkpoint epoch hash = record { epoch = epoch; block_hash = hash }

abbrev vote : String → Attestation
vote hash = record {
  validator = "v";
  source_epoch = 0;
  source_hash = "g";
  target_epoch = 1;
  target_hash = hash;
  signature = "0x11";
}

abbrev start : ConsensusEngine
start = new_engine keyring

abbrev voted : ConsensusEngine
voted = submit_all signer (vote "b" ∷ []) start

abbrev two : List ℕ
two = 1 ∷ 2 ∷ []

abbrev three : List ℕ
three = 1 ∷ 3 ∷ []

create-verify_example : (verify_attestation signer keyring (vote "b") ≡ ok true) × (0 < 1)
unfolding create_attestation lookup
create-verify_example =
    create-verify signer keyring "v" (checkpoint 0 "g") (checkpoint 1 "b") (vote "b") refl

voted-IsConsistent : IsConsistent voted
unfolding submit_all
voted-IsConsistent = submit-IsConsistent signer (vote "b") start (new_engine-IsConsistent keyring)

submit-IsConsistent_example : IsConsistent (submit_attestation signer (vote "b") start).1
submit-IsConsistent_example =
    submit-IsConsistent signer (vote "b") start (new_engine-IsConsistent keyring)

abbrev block : String
block = "b"

decided_agree_example : checkpoint 1 "b" ≡ checkpoint 1 "b"
unfolding submit_all verify_attestation lookup submit_attestation new_engine constant_time_eq utf8
    count_vote justify has_supermajority sum_by record_vote u128_mod stake_of insert pair_beq
    add_equivocator
decided_agree_example =
    decided_agree signer keyring (vote "b" ∷ []) (vote "c" ∷ []) (checkpoint 1 "b")
      (checkpoint 1 "b") (omega arith) (inl refl) (inl refl) refl

abbrev plain_json : Block ℕ → Result Fault String
plain_json b = ok b.header.parent_hash

abbrev unsigned : Block ℕ
unsigned = record {
  header = record {
    chain_id = 7;
    height = 1;
    parent_hash = "p";
    timestamp_ms = 5;
    slot = 0;
    epoch = 0;
    proposer = "v";
    transaction_root = "";
    state_root = "";
    gas_limit = 50000;
    gas_used = 0;
    score = 0;
  };
  transactions = [];
  validator_signature = "";
  hash = "";
}
