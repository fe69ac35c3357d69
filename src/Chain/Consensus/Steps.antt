-- ===== src/Chain/Consensus/Steps.antt =====
-- Every call of `submit_attestation` keeps the invariant, and takes no supermajority away.
use agilang_native.Base.{
  ℕ, ◌≡◌, refl, true, none, some, arith, String, Option-cases, Bool-cases, inl, inr, string_key,
  nat_key, pair_key, sym, subst, ◌⊎◌,
}
use agilang_native.Base.Map.{lookup}
use agilang_native.Chain.Consensus.Signing.{Attestation, Checkpoint, Signer}
use agilang_native.Chain.Consensus.Invariant.{
  IsConsistent, supermajority_mono, record_vote-IsConsistent,
}
use agilang_native.Chain.Consensus.{
  ConsensusEngine, FinalityState, voters, has_supermajority, record_vote, justify, vote_key,
  target_of, validator_epoch, add_equivocator, count_vote, submit_attestation, finalize,
}

-- The state of finality is no part of what the votes are read from.
abbrev with_state : ConsensusEngine → FinalityState → ConsensusEngine
with_state e st = record e { state = st }

supermajority-with_state :
    (e : ConsensusEngine) (st : FinalityState) (key : ℕ × String)
    → has_supermajority (with_state e st) key ≡ has_supermajority e key
unfolding has_supermajority voters
supermajority-with_state e st key = refl

module _ (e : ConsensusEngine) (st : FinalityState) where
  with_state-IsConsistent :
      IsConsistent e
      → ((cp : Checkpoint)
          → st.justified ≡ some cp
          → has_supermajority e (cp.epoch, cp.block_hash) ≡ true)
      → ((cp : Checkpoint)
          → st.finalized ≡ some cp
          → has_supermajority e (cp.epoch, cp.block_hash) ≡ true)
      → IsConsistent (with_state e st)
  unfolding has_supermajority voters
  with_state-IsConsistent h j f = record {
    counted = h.counted;
    once = h.once;
    justified = j;
    finalized = f;
  }

justify_cases :
    (P : ConsensusEngine → Type 0) (a : Attestation) (e : ConsensusEngine)
    → P e
    → (has_supermajority e (vote_key a) ≡ true
        → P (
            with_state e (record {
              justified = some (target_of a);
              finalized = finalize e.state.justified a e.state.finalized;
              equivocators = e.state.equivocators;
            })))
    → P (justify a e)
unfolding justify
justify_cases P a e short enough = elim (Bool-cases (has_supermajority e (vote_key a))) [
  | inl yes_votes ↦ rw (yes_votes, justify) (enough yes_votes)
  | inr no_votes ↦ rw (no_votes, justify) short
]

finalize_backed :
    (a : Attestation) (e : ConsensusEngine) (cp : Checkpoint)
    → IsConsistent e
    → finalize e.state.justified a e.state.finalized ≡ some cp
    → has_supermajority e (cp.epoch, cp.block_hash) ≡ true
finalize_backed a e cp h f = elim (Option-cases e.state.justified) [
  | inl nothing ↦ h.finalized cp (ground arith)
  | inr (previous, j) ↦ ground (arith, h.finalized cp, h.justified cp)
]

justify-IsConsistent :
    (a : Attestation) (e : ConsensusEngine) → IsConsistent e → IsConsistent (justify a e)
justify-IsConsistent a e h = justify_cases IsConsistent a e h λ votes.
    with_state-IsConsistent e _ h (λ cp j. ground arith) (λ cp f. finalize_backed a e cp h f)

supermajority-justify :
    (a : Attestation) (e : ConsensusEngine) (key : ℕ × String)
    → has_supermajority (justify a e) key ≡ has_supermajority e key
supermajority-justify a e key =
    justify_cases (λ e'. has_supermajority e' key ≡ has_supermajority e key) a e refl
      λ _. supermajority-with_state e _ key

-- What a call leaves: the engine as it was, a vote more, or a validator noted for equivocation.
pub submit_outcomes :
    (signer : Signer) (a : Attestation) (e : ConsensusEngine)
    → ((submit_attestation signer a e).1 ≡ e)
      ⊎ ((lookup (validator_epoch a) e.validator_targets ≡ none)
          × ((submit_attestation signer a e).1 ≡ justify a (record_vote a e)))
      ⊎ ((submit_attestation signer a e).1 ≡ add_equivocator a.validator e)
unfolding submit_attestation count_vote
submit_outcomes signer a e = ground arith

submit_cases :
    (P : ConsensusEngine → Type 0) (signer : Signer) (a : Attestation) (e : ConsensusEngine)
    → P e
    → (lookup (validator_epoch a) e.validator_targets ≡ none → P (justify a (record_vote a e)))
    → P (add_equivocator a.validator e)
    → P (submit_attestation signer a e).1
submit_cases P signer a e same voted noted = elim (submit_outcomes signer a e) [
  | inl kept ↦ subst P (sym kept) same
  | inr (inl (new, counted)) ↦ subst P (sym counted) (voted new)
  | inr (inr equivocated) ↦ subst P (sym equivocated) noted
]

-- Every call of `submit_attestation`, whatever it answers, keeps the engine consistent.
pub submit-IsConsistent :
    (signer : Signer) (a : Attestation) (e : ConsensusEngine)
    → IsConsistent e
    → IsConsistent (submit_attestation signer a e).1
unfolding add_equivocator
submit-IsConsistent signer a e h =
    submit_cases IsConsistent signer a e h
      (λ new. justify-IsConsistent a (record_vote a e) (record_vote-IsConsistent a e h new))
      (with_state-IsConsistent e _ h h.justified h.finalized)

pub submit_mono :
    (signer : Signer) (a : Attestation) (e : ConsensusEngine) (key : ℕ × String)
    → has_supermajority e key ≡ true
    → has_supermajority (submit_attestation signer a e).1 key ≡ true
unfolding add_equivocator
submit_mono signer a e key h =
    submit_cases (λ e'. has_supermajority e' key ≡ true) signer a e h
      (λ _. rw (supermajority-justify a (record_vote a e) key) (supermajority_mono a e key h))
      (rw (supermajority-with_state e _ key) h)

pub submit-keyring :
    (signer : Signer) (a : Attestation) (e : ConsensusEngine)
    → (submit_attestation signer a e).1.keyring ≡ e.keyring
unfolding add_equivocator record_vote
submit-keyring signer a e =
    submit_cases (λ e'. e'.keyring ≡ e.keyring) signer a e refl
      (λ _. justify_cases (λ e'. e'.keyring ≡ e.keyring) a (record_vote a e) refl (λ _. refl)) refl
