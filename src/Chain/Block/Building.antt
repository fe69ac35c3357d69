-- ===== src/Chain/Block/Building.antt =====
-- A block that is built passes the checks of a block that is received.
use agilang_native.Base.{
  ℕ, ◌≤◌, ◌≡◌, ◌↔◌, refl, ap, false, none, some, List, [], ◌∷◌, String, ok, arith, >>=-eq-ok,
  string_key,
}
use agilang_native.Base.Text.{is_empty}
use agilang_native.Chain.Types.{BlockchainConfig, Transaction, Block, BlockHeader, Codec}
use agilang_native.Chain.Block.{
  validate_config, calculate_hash, create, genesis, transaction_root, check_new, check_all,
  check_parent, child, validate,
}

module _ {V : Type 0} (codec : Codec V) where
  check_all_of_new :
      (config : BlockchainConfig V) (ts : List (Transaction V))
      → check_new codec config ts ≡ ok tt
      → check_all codec ts ≡ ok tt
  unfolding check_new check_all
  check_all_of_new config [] h = refl
  check_all_of_new config (t ∷ ts) h = ground (arith, check_all_of_new config ts)

  -- What `Block::child` builds passes `Block::validate` against the same parent, if the
  -- configuration is valid and the block is not dated before its parent.
  pub child-validate :
      (config : BlockchainConfig V) (parent : Block V) (proposer : String) (timestamp_ms slot : ℕ)
      (transactions : List (Transaction V)) (state_root : String) (score : ℕ) (signature : String)
      (b : Block V)
      → validate_config config ≡ ok tt
      → parent.header.timestamp_ms ≤ timestamp_ms
      → child codec config parent proposer timestamp_ms slot transactions state_root score signature
        ≡ ok b
      → validate codec config b (some parent) ≡ ok tt
  unfolding child validate create calculate_hash check_parent
  child-validate config parent proposer timestamp_ms slot transactions state_root score signature b
        valid dated h =
      ground (
        arith,
        check_all_of_new config transactions,
        string_key.beq_iff parent.hash parent.hash,
        string_key.beq_iff b.header.transaction_root b.header.transaction_root,
        string_key.beq_iff b.hash b.hash,
      )

  create-fields :
      (header : BlockHeader) (transactions : List (Transaction V)) (signature : String)
      (b : Block V)
      → create codec header transactions signature ≡ ok b
      → (b.header ≡ header)
        × (b.transactions ≡ transactions)
        × (b.validator_signature ≡ signature)
        × (calculate_hash codec b ≡ ok b.hash)
  unfolding create calculate_hash
  create-fields header transactions signature b h = ground arith

  -- The first block passes `Block::validate` without a parent exactly when the configuration does not
  -- require signatures, since it carries none.
  pub genesis-validate_iff :
      (config : BlockchainConfig V) (timestamp_ms : ℕ) (b : Block V)
      → genesis codec config timestamp_ms ≡ ok b
      → (validate codec config b none ≡ ok tt) ↔ (config.require_block_signatures ≡ false)
  unfolding genesis validate check_parent check_all
  genesis-validate_iff config timestamp_ms b h =
      let (_, checked, h1) = >>=-eq-ok (validate_config config) _ h in
      let (json, encoded, h2) = >>=-eq-ok (codec.genesis_json config.genesis_state) _ h1 in
      let (root, rooted, h3) = >>=-eq-ok (transaction_root codec []) _ h2 in
      let fields = create-fields _ _ _ b h3 in
      (
        λ accepted. ground (arith, fields, ap is_empty fields.2),
        λ unsigned. ground (
          arith,
          fields,
          string_key.beq_iff b.header.transaction_root b.header.transaction_root,
          string_key.beq_iff b.header.parent_hash b.header.parent_hash,
          string_key.beq_iff b.hash b.hash,
        ),
      )
