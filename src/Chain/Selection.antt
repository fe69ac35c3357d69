-- ===== src/Chain/Selection.antt =====
-- `Mempool::select` of crates/agilang-blockchain-node/src/lib.rs: the transactions of the next block.
pub mod Order
pub mod Bounds
mod Tests
use agilang_native.Base.{
  ℕ, zero, suc, ◌+◌, ◌-◌, Bool, true, false, not, ◌&&◌, ◌||◌, Option, none, some, List, [], ◌∷◌,
  ◌++◌, String, ltb, leb, nat_eq, if◌then◌else◌, length, checked_add, saturating_add, u64_mod,
  string_key,
}
use agilang_native.Base.Map.{Map, lookup, contains, insert}
use agilang_native.Chain.Types.{BlockchainConfig, Transaction}
use agilang_native.Chain.State.{ChainState, nonce}
use agilang_native.Chain.Mempool.{Mempool, MempoolEntry}

-- the variables of the loops
pub record Selection (V : Type 0) : Type 0 where
  pub expected_nonce : Map String ℕ
  pub gas_used : ℕ
  pub selected : List (Transaction V)
  pub consumed : Map String (Unit {0})
  pub made_progress : Bool

module _ {V : Type 0} where
  -- the comparison of `sort_by`: a higher price first, then what came earlier, then by hash
  unfoldable pub goes_before : MempoolEntry V → MempoolEntry V → Bool
  goes_before left right =
      if ltb right.transaction.gas_price left.transaction.gas_price
      then true
      else if ltb left.transaction.gas_price right.transaction.gas_price
      then false
      else if ltb left.received_at_ms right.received_at_ms
      then true
      else if ltb right.received_at_ms left.received_at_ms
      then false
      else string_key.lt left.transaction.hash right.transaction.hash

  -- a stable sort by insertion
  unfoldable pub insert_sorted : MempoolEntry V → List (MempoolEntry V) → List (MempoolEntry V)
  insert_sorted x [] = x ∷ []
  insert_sorted x (y ∷ ys) =
      let rest = insert_sorted x ys in if goes_before y x then y ∷ rest else x ∷ y ∷ ys

  unfoldable pub sorted_values : Map String (MempoolEntry V) → List (MempoolEntry V)
  unfolding insert_sorted
  sorted_values [] = []
  sorted_values ((hash, entry) ∷ m) = insert_sorted entry (sorted_values m)

  unfoldable pub empty_selection : Selection V
  empty_selection = record {
    expected_nonce = [];
    gas_used = 0;
    selected = [];
    consumed = [];
    made_progress = true;
  }

  -- `*expected_nonce.entry(sender).or_insert_with(..)`
  unfoldable pub expected_of : ChainState V → Selection V → String → ℕ
  expected_of state s sender = elim (lookup sender s.expected_nonce) [
    | none ↦ nonce state sender
    | some n ↦ n
  ]

  unfoldable pub remember : String → ℕ → Selection V → Selection V
  remember sender n s = record s { expected_nonce = insert sender n s.expected_nonce }

  -- the body of the inner loop, up to its `break`
  unfoldable pub consider :
      BlockchainConfig V → ChainState V → Transaction V → Selection V → Selection V
  consider config state tx s =
      if contains tx.hash s.consumed
      then s
      else (let expected = expected_of state s tx.sender in
          let noted = remember tx.sender expected s in
          if config.enforce_nonce_order && not (nat_eq tx.nonce expected)
          then noted
          else elim (checked_add u64_mod s.gas_used tx.gas_limit) [
            | none ↦ noted
            | some next_gas ↦ if ltb config.block_gas_limit next_gas then noted else record {
              expected_nonce =
                  insert tx.sender (saturating_add u64_mod expected 1) noted.expected_nonce;
              gas_used = next_gas;
              selected = s.selected ++ (tx ∷ []);
              consumed = insert tx.hash tt s.consumed;
              made_progress = true;
            }
          ])

  -- one run through the candidates, which stops when the block is full
  unfoldable pub run_through :
      BlockchainConfig V → ChainState V → List (MempoolEntry V) → Selection V → Selection V
  run_through config state [] s = s
  run_through config state (entry ∷ entries) s =
      let s' = consider config state entry.transaction s in
      let rest = run_through config state entries s' in
      if leb config.max_block_txs (length s'.selected)
        && not (nat_eq (length s.selected) (length s'.selected))
      then s'
      else rest

  -- `while made_progress && selected.len() < max_block_txs`, on fuel; `none` means that it ran out
  unfoldable pub rounds :
      ℕ
      → BlockchainConfig V
      → ChainState V
      → List (MempoolEntry V)
      → Selection V
      → Option (Selection V)
  unfolding run_through
  rounds zero config state entries s = none
  rounds (suc fuel) config state entries s =
      let rest =
        rounds fuel config state entries
          (run_through config state entries (record s { made_progress = false })) in
      if s.made_progress && ltb (length s.selected) config.max_block_txs then rest else some s

  -- `select`, with a round for each place in the block and two more
  unfoldable pub select :
      Mempool V → BlockchainConfig V → ChainState V → Option (List (Transaction V))
  unfolding rounds sorted_values
  select p config state =
      let entries = sorted_values p.by_hash in
      elim (rounds (suc (suc config.max_block_txs)) config state entries empty_selection) [
        | none ↦ none
        | some s ↦ some s.selected
      ]
