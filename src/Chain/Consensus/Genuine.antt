-- ===== src/Chain/Consensus/Genuine.antt =====
-- Which signatures are accepted: the comparison in constant time, and the round trip of signing.
use Prim.Native.Nat.{bit_or, bit_xor}
use agilang_native.Base.{
  ℕ, ◌≡◌, ◌≢◌, ◌↔◌, refl, true, false, List, [], ◌∷◌, arith, ok, err, length, String, ◌<◌, is_ok,
  ◌≤◌, ◌⊎◌, some, string_key, nat_key, pair_key,
}
use agilang_native.Base.Bits.{bit_xor-eq-zero_iff, bit_or-eq-zero, bit_or-zero}
use agilang_native.Base.Map.{lookup, lookup-insert_self}
use agilang_native.Base.Text.{codes, utf8}
use agilang_native.Chain.Fault.{Fault}
use agilang_native.Chain.Consensus.Signing.{
  Attestation, Checkpoint, Signer, Keyring, difference, constant_time_eq, create_attestation,
  verify_attestation, sign, key_for,
}
use agilang_native.Chain.Consensus.{
  ConsensusEngine, submit_attestation, count_vote, validator_epoch, add_equivocator,
}

difference-eq-zero :
    (d : ℕ) (left right : List ℕ)
    → length left ≡ length right
    → difference d left right ≡ 0
    → (d ≡ 0) × (left ≡ right)
unfolding difference
difference-eq-zero d [] [] n h = (h, refl)
difference-eq-zero d [] (b ∷ right) n h = absurd (omega arith)
difference-eq-zero d (a ∷ left) [] n h = absurd (omega arith)
difference-eq-zero d (a ∷ left) (b ∷ right) n h =
    let (zero_so_far, rest) =
      difference-eq-zero (bit_or d (bit_xor a b)) left right (omega arith) h in
    let (zero_before, same) = bit_or-eq-zero d (bit_xor a b) zero_so_far in
    let heads = (bit_xor-eq-zero_iff a b).0 same in (zero_before, cc (heads, rest))

difference_self : (xs : List ℕ) → difference 0 xs xs ≡ 0
unfolding difference
difference_self [] = refl
difference_self (x ∷ xs) = rw ((bit_xor-eq-zero_iff x x).1 refl, bit_or-zero) (difference_self xs)

-- The comparison that looks at every byte answers like equality.
pub constant_time_eq_iff :
    (left right : List ℕ) → (constant_time_eq left right ≡ true) ↔ (left ≡ right)
unfolding constant_time_eq
constant_time_eq_iff left right = (
  λ h. (difference-eq-zero 0 left right (ground arith) (ground arith)).1,
  λ h. rw h (ground (arith, difference_self right)),
)

-- An attestation that `create_attestation` makes verifies with the same keys, and its target lies
-- behind its source.
pub create-verify :
    (signer : Signer) (k : Keyring) (validator : String) (source target : Checkpoint)
    (a : Attestation)
    → create_attestation signer k validator source target ≡ ok a
    → (verify_attestation signer k a ≡ ok true) × (a.source_epoch < a.target_epoch)
unfolding create_attestation verify_attestation key_for sign
create-verify signer k validator source target a h =
    ground
      (arith, (constant_time_eq_iff (utf8 (codes a.signature)) (utf8 (codes a.signature))).1 refl)

-- An attestation that does not verify, or whose target does not lie behind its source, is refused
-- and changes nothing.
pub submit_refused :
    (signer : Signer) (a : Attestation) (e : ConsensusEngine)
    → (verify_attestation signer e.keyring a ≢ ok true) ⊎ (a.target_epoch ≤ a.source_epoch)
    → (is_ok (submit_attestation signer a e).0 ≡ false) × ((submit_attestation signer a e).1 ≡ e)
unfolding submit_attestation
submit_refused signer a e h = ground arith

-- A genuine vote for a second block of an epoch is refused, no vote is counted, and the validator
-- is noted as an equivocator.
pub submit_equivocation :
    (signer : Signer) (a : Attestation) (e : ConsensusEngine) (voted : String)
    → verify_attestation signer e.keyring a ≡ ok true
    → a.source_epoch < a.target_epoch
    → lookup (validator_epoch a) e.validator_targets ≡ some voted
    → voted ≢ a.target_hash
    → let (r, e') = submit_attestation signer a e in
      (r ≡ err Fault.equivocation)
      × (e'.votes ≡ e.votes)
      × (e'.validator_targets ≡ e.validator_targets)
      × (lookup a.validator e'.state.equivocators ≡ some tt)
unfolding submit_attestation count_vote add_equivocator
submit_equivocation signer a e voted genuine order first differ = ground (
  arith,
  string_key.beq_iff voted a.target_hash,
  lookup-insert_self a.validator tt e.state.equivocators,
)
