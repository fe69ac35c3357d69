-- ===== src/Chain/Consensus/Safety.antt =====
-- Accountable safety: one checkpoint for an epoch, over any history of attestations.
use agilang_native.Base.{
  ℕ, ◌*◌, ◌<◌, ◌≤◌, ◌≡◌, ◌≢◌, refl, true, none, some, List, [], ◌∷◌, arith, String, u128_mod,
  string_key, sym, subst, ◌∙◌, inl, inr, ◌⊎◌, Bool-cases,
}
use agilang_native.Base.Map.{lookup, sum_by}
use agilang_native.Chain.Consensus.Signing.{Attestation, Checkpoint, Signer, Keyring}
use agilang_native.Chain.Consensus.Votes.{stake_of-le, stake_of_disjoint}
use agilang_native.Chain.Consensus.Invariant.{IsConsistent}
use agilang_native.Chain.Consensus.Steps.{submit-IsConsistent, submit_mono, submit-keyring}
use agilang_native.Chain.Consensus.{
  ConsensusEngine, voters, stake_of, total_stake, has_supermajority, new_engine, submit_all,
}

-- with stakes that do not reach the end of a u128, a supermajority is two thirds
supermajority_stake :
    (e : ConsensusEngine) (key : ℕ × String)
    → total_stake e * 3 < u128_mod
    → stake_of e.keyring.validators (voters e key) ≤ total_stake e
    → has_supermajority e key ≡ true
    → (total_stake e * 2 ≤ stake_of e.keyring.validators (voters e key) * 3) × (0 < total_stake e)
unfolding has_supermajority
supermajority_stake e key small within h = ground arith

different_targets :
    (e : ConsensusEngine) (epoch : ℕ) (hash other : String)
    → IsConsistent e
    → hash ≢ other
    → (v : String) → lookup v (voters e (epoch, hash)) ≡ some tt
    → lookup v (voters e (epoch, other)) ≡ none
different_targets e epoch hash other h differ v hit =
    ground (arith, h.counted (epoch, hash) v, h.counted (epoch, other) v)

-- In a consistent engine no two checkpoints of one epoch have a supermajority of the stake, as long
-- as three times the total stake fits a u128.
pub supermajority_unique :
    (e : ConsensusEngine) (epoch : ℕ) (hash other : String)
    → IsConsistent e
    → total_stake e * 3 < u128_mod
    → has_supermajority e (epoch, hash) ≡ true
    → has_supermajority e (epoch, other) ≡ true
    → hash ≡ other
supermajority_unique e epoch hash other h small first second =
    elim (Bool-cases (string_key.beq hash other)) [
      | inl same ↦ (string_key.beq_iff hash other).0 same
      | inr differ ↦
          let apart : hash ≢ other = λ eq. ground (arith, string_key.beq_iff hash other) in
          let validators = e.keyring.validators in
          let vs = voters e (epoch, hash) in
          let ws = voters e (epoch, other) in
          let one = h.once (epoch, hash) in
          let two = h.once (epoch, other) in
          absurd (
            omega (
              arith,
              supermajority_stake e (epoch, hash) small (stake_of-le validators vs one) first,
              supermajority_stake e (epoch, other) small (stake_of-le validators ws two) second,
              stake_of_disjoint validators vs ws one two
                  (different_targets e epoch hash other h apart),
            ))
    ]

pub new_engine-IsConsistent : (k : Keyring) → IsConsistent (new_engine k)
unfolding new_engine voters lookup
new_engine-IsConsistent k = record {
  counted = λ key v h. absurd (ground arith);
  once = λ key. tt;
  justified = λ cp h. absurd (ground arith);
  finalized = λ cp h. absurd (ground arith);
}

submit_all-IsConsistent :
    (signer : Signer) (votes : List Attestation) (e : ConsensusEngine)
    → IsConsistent e
    → IsConsistent (submit_all signer votes e)
unfolding submit_all
submit_all-IsConsistent signer [] e h = h
submit_all-IsConsistent signer (a ∷ later) e h =
    submit_all-IsConsistent signer later _ (submit-IsConsistent signer a e h)

submit_all_mono :
    (signer : Signer) (votes : List Attestation) (e : ConsensusEngine) (key : ℕ × String)
    → has_supermajority e key ≡ true
    → has_supermajority (submit_all signer votes e) key ≡ true
unfolding submit_all
submit_all_mono signer [] e key h = h
submit_all_mono signer (a ∷ later) e key h =
    submit_all_mono signer later _ key (submit_mono signer a e key h)

submit_all-keyring :
    (signer : Signer) (votes : List Attestation) (e : ConsensusEngine)
    → (submit_all signer votes e).keyring ≡ e.keyring
unfolding submit_all
submit_all-keyring signer [] e = refl
submit_all-keyring signer (a ∷ later) e =
    submit_all-keyring signer later _ ∙ submit-keyring signer a e

-- Justified, or finalized.
abbrev pub IsDecided : ConsensusEngine → Checkpoint → Type 0
IsDecided e cp = (e.state.justified ≡ some cp) ⊎ (e.state.finalized ≡ some cp)

decided_backed :
    (e : ConsensusEngine) (cp : Checkpoint)
    → IsConsistent e
    → IsDecided e cp
    → has_supermajority e (cp.epoch, cp.block_hash) ≡ true
decided_backed e cp h (inl j) = h.justified cp j
decided_backed e cp h (inr f) = h.finalized cp f

-- Whatever attestations a new engine is given, a checkpoint that it has justified or finalized at
-- some time and one that it justifies or finalizes later are the same block if they are of one
-- epoch, as long as three times the total stake fits a u128.
pub decided_agree :
    (signer : Signer) (k : Keyring) (before after : List Attestation) (early late : Checkpoint)
    → total_stake (new_engine k) * 3 < u128_mod
    → IsDecided (submit_all signer before (new_engine k)) early
    → IsDecided (submit_all signer after (submit_all signer before (new_engine k))) late
    → early.epoch ≡ late.epoch
    → early ≡ late
decided_agree signer k before after early late small d d' same =
    let start = new_engine k in
    let mid = submit_all signer before start in
    let end = submit_all signer after mid in
    let h = submit_all-IsConsistent signer before start (new_engine-IsConsistent k) in
    let h' = submit_all-IsConsistent signer after mid h in
    let kept = submit_all-keyring signer after mid ∙ submit_all-keyring signer before start in
    let first = submit_all_mono signer after mid _ (decided_backed mid early h d) in
    let second = decided_backed end late h' d' in
    let hashes =
      supermajority_unique end late.epoch early.block_hash late.block_hash h'
        (subst (λ r. sum_by (λ (s : ℕ). s) r.validators * 3 < u128_mod) (sym kept) small)
        (subst (λ n. has_supermajority end (n, early.block_hash) ≡ true) same first) second in
    cc (same, hashes)
