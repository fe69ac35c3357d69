-- ===== src/Chain/Consensus.antt =====
-- crates/agilang-blockchain-consensus/src/lib.rs: attestations of validators, and the checkpoints
-- that they justify and finalize.
mod Tests
pub mod Signing
pub mod Votes
pub mod Invariant
pub mod Steps
pub mod Safety
pub mod Genuine
pub mod Blocks
use agilang_native.Base.{
  ℕ, ◌+◌, ◌%◌, Bool, true, false, not, ◌&&◌, Option, none, some, List, [], ◌∷◌, String, Result, ok,
  err, leb, nat_eq, if◌then◌else◌, u64_mod, u128_mod, saturating_mul, ◌==◌, string_key, nat_key,
  pair_key,
}
use agilang_native.Base.Action.{Action, raise_if, gets, modify, ◌>>=◌, ◌>>◌}
use agilang_native.Base.Map.{Map, lookup, insert, worth, sum_by}
use agilang_native.Chain.Fault.{Fault}
use Signing.{Attestation, Checkpoint, Signer, Keyring, verify_attestation}

-- `BTreeSet<T>`
abbrev pub Set : Type 0 → Type 0
Set K = Map K (Unit {0})

pub record FinalityState : Type 0 where
  pub justified : Option Checkpoint
  pub finalized : Option Checkpoint
  pub equivocators : Set String

pub record ConsensusEngine : Type 0 where
  pub keyring : Keyring
  pub votes : Map (ℕ × String) (Set String)
  pub validator_targets : Map (String × ℕ) String
  pub state : FinalityState

-- `votes.get(key)`, with the empty set for a missing one
unfoldable pub voters : ConsensusEngine → ℕ × String → Set String
voters e key = elim (lookup key e.votes) [ none ↦ [] | some vs ↦ vs ]

-- the sum over the voters who are validators
unfoldable pub stake_of : Map String ℕ → Set String → ℕ
stake_of validators [] = 0
stake_of validators ((v, _) ∷ vs) =
    worth (λ stake. stake) (lookup v validators) + stake_of validators vs

abbrev pub total_stake : ConsensusEngine → ℕ
total_stake e = sum_by (λ stake. stake) e.keyring.validators

unfoldable pub has_supermajority : ConsensusEngine → ℕ × String → Bool
has_supermajority e key =
    if nat_eq (total_stake e) 0
    then false
    else leb (saturating_mul u128_mod (total_stake e) 2)
        (saturating_mul u128_mod (stake_of e.keyring.validators (voters e key)) 3)

abbrev pub target_of : Attestation → Checkpoint
target_of a = record { epoch = a.target_epoch; block_hash = a.target_hash }

abbrev pub vote_key : Attestation → ℕ × String
vote_key a = (a.target_epoch, a.target_hash)

abbrev pub validator_epoch : Attestation → String × ℕ
validator_epoch a = (a.validator, a.target_epoch)

-- the target is noted, and the vote counted
unfoldable pub record_vote : Attestation → ConsensusEngine → ConsensusEngine
unfolding voters
record_vote a e = record e {
  validator_targets = insert (validator_epoch a) a.target_hash e.validator_targets;
  votes = insert (vote_key a) (insert a.validator tt (voters e (vote_key a))) e.votes;
}

-- `previous.epoch + 1 == target.epoch && ..`
abbrev pub links : Checkpoint → Attestation → Bool
links previous a =
    nat_eq ((previous.epoch + 1) % u64_mod) a.target_epoch
    && nat_eq previous.epoch a.source_epoch
    && (previous.block_hash == a.source_hash)

abbrev pub finalize : Option Checkpoint → Attestation → Option Checkpoint → Option Checkpoint
finalize none a old = old
finalize (some previous) a old = if links previous a then some previous else old

-- the checkpoint of a vote with a supermajority is justified
unfoldable pub justify : Attestation → ConsensusEngine → ConsensusEngine
justify a e =
    if has_supermajority e (vote_key a)
    then record e {
      state = record {
        justified = some (target_of a);
        finalized = finalize e.state.justified a e.state.finalized;
        equivocators = e.state.equivocators;
      };
    }
    else e

unfoldable pub add_equivocator : String → ConsensusEngine → ConsensusEngine
add_equivocator v e = record e {
  state = record {
    justified = e.state.justified;
    finalized = e.state.finalized;
    equivocators = insert v tt e.state.equivocators;
  };
}

-- the part of `submit_attestation` behind its checks
unfoldable pub count_vote : Attestation → Action ConsensusEngine Fault FinalityState
count_vote a e = elim (lookup (validator_epoch a) e.validator_targets) [
  | none ↦ (modify (λ e'. justify a (record_vote a e')) >> gets (λ e'. e'.state)) e
  | some existing ↦
      if existing == a.target_hash
      then (ok e.state, e)
      else (err Fault.equivocation, add_equivocator a.validator e)
]

unfoldable pub submit_attestation :
    Signer → Attestation → Action ConsensusEngine Fault FinalityState
submit_attestation signer a = do
  genuine ← λ e. (verify_attestation signer e.keyring a, e)
  raise_if (not genuine) Fault.invalid_attestation_signature
  raise_if (leb a.target_epoch a.source_epoch) Fault.invalid_epoch_order
  count_vote a

-- `ConsensusEngine::new`, behind the check of the configuration
unfoldable pub new_engine : Keyring → ConsensusEngine
new_engine k = record {
  keyring = k;
  votes = [];
  validator_targets = [];
  state = record { justified = none; finalized = none; equivocators = [] };
}

-- a history of calls, whatever each of them answers
unfoldable pub submit_all : Signer → List Attestation → ConsensusEngine → ConsensusEngine
submit_all signer [] e = e
submit_all signer (a ∷ later) e = submit_all signer later (submit_attestation signer a e).1
