-- ===== src/Chain/Consensus/Invariant.antt =====
-- What the engine keeps true: each vote that is counted is its validator's one target for the epoch,
-- it is counted once, and what is justified or finalized has its votes.
use agilang_native.Base.{
  ℕ, ◌≡◌, refl, true, none, some, arith, if◌then◌else◌, String, Bool-cases, inl, inr, ◌==◌,
  string_key, nat_key, pair_key, pair_beq_iff,
}
use agilang_native.Base.Map.{lookup, insert, lookup-insert}
use agilang_native.Base.Distinct.{Distinct, insert-Distinct}
use agilang_native.Chain.Consensus.Signing.{Attestation, Checkpoint}
use agilang_native.Chain.Consensus.Votes.{stake_of-insert-le}
use agilang_native.Chain.Consensus.{
  ConsensusEngine, validator_epoch, voters, has_supermajority, record_vote, vote_key,
}

pub record IsConsistent (e : ConsensusEngine) : Type 0 where
  pub counted :
      (key : ℕ × String) (v : String)
      → lookup v (voters e key) ≡ some tt
      → lookup (v, key.0) e.validator_targets ≡ some key.1
  pub once : (key : ℕ × String) → Distinct (voters e key)
  pub justified :
      (cp : Checkpoint)
      → e.state.justified ≡ some cp
      → has_supermajority e (cp.epoch, cp.block_hash) ≡ true
  pub finalized :
      (cp : Checkpoint)
      → e.state.finalized ≡ some cp
      → has_supermajority e (cp.epoch, cp.block_hash) ≡ true

voters-record_vote :
    (a : Attestation) (e : ConsensusEngine) (key : ℕ × String)
    → voters (record_vote a e) key
      ≡ (if vote_key a == key then insert a.validator tt (voters e (vote_key a)) else voters e key)
unfolding voters record_vote
voters-record_vote a e key =
    ground (
      arith,
      lookup-insert (vote_key a) key (insert a.validator tt (voters e (vote_key a))) e.votes,
    )

targets-record_vote :
    (a : Attestation) (e : ConsensusEngine) (v : String) (epoch : ℕ)
    → lookup (v, epoch) (record_vote a e).validator_targets ≡ (
        if ◌==◌ {K = String × ℕ} (validator_epoch a) (v, epoch)
        then some a.target_hash
        else lookup (v, epoch) e.validator_targets)
unfolding record_vote
targets-record_vote a e v epoch =
    lookup-insert (validator_epoch a) (v, epoch) a.target_hash e.validator_targets

same_keyring : (a : Attestation) (e : ConsensusEngine) → (record_vote a e).keyring ≡ e.keyring
unfolding record_vote
same_keyring a e = refl

-- a vote more takes no supermajority away
pub supermajority_mono :
    (a : Attestation) (e : ConsensusEngine) (key : ℕ × String)
    → has_supermajority e key ≡ true
    → has_supermajority (record_vote a e) key ≡ true
unfolding has_supermajority
supermajority_mono a e key h = ground (
  arith,
  voters-record_vote a e key,
  pair_beq_iff nat_key string_key (vote_key a) key,
  stake_of-insert-le e.keyring.validators a.validator (voters e key),
  same_keyring a e,
)

counted-record_vote :
    (a : Attestation) (e : ConsensusEngine)
    → IsConsistent e
    → lookup (validator_epoch a) e.validator_targets ≡ none
    → (key : ℕ × String) (v : String) → lookup v (voters (record_vote a e) key) ≡ some tt
    → lookup (v, key.0) (record_vote a e).validator_targets ≡ some key.1
counted-record_vote a e h new key v hit = ground (
  arith,
  hit,
  h.counted key v,
  voters-record_vote a e key,
  targets-record_vote a e v key.0,
  lookup-insert a.validator v tt (voters e (vote_key a)),
  pair_beq_iff nat_key string_key (vote_key a) key,
  pair_beq_iff string_key nat_key (validator_epoch a) (v, key.0),
  string_key.beq_iff a.validator v,
)

once-record_vote :
    (a : Attestation) (e : ConsensusEngine)
    → IsConsistent e
    → (key : ℕ × String) → Distinct (voters (record_vote a e) key)
once-record_vote a e h key = elim (Bool-cases (vote_key a == key)) [
  | inl here ↦
      rw (voters-record_vote a e key, here)
        (insert-Distinct a.validator tt (voters e (vote_key a)) (h.once (vote_key a)))
  | inr there ↦ rw (voters-record_vote a e key, there) (h.once key)
]

pub record_vote-IsConsistent :
    (a : Attestation) (e : ConsensusEngine)
    → IsConsistent e
    → lookup (validator_epoch a) e.validator_targets ≡ none
    → IsConsistent (record_vote a e)
unfolding record_vote
record_vote-IsConsistent a e h new = record {
  counted = counted-record_vote a e h new;
  once = once-record_vote a e h;
  justified = λ cp j. supermajority_mono a e _ (h.justified cp j);
  finalized = λ cp f. supermajority_mono a e _ (h.finalized cp f);
}
