-- ===== src/Chain/Selection/Bounds.antt =====
-- What `select` promises: it ends, within the bounds of a block, with nonces in order.
use agilang_native.Base.{
  ℕ, zero, suc, ◌+◌, ◌<◌, ◌≤◌, ◌≡◌, refl, true, false, not, ◌&&◌, some, List, [], ◌∷◌, ◌++◌, String,
  arith, ltb, leb, nat_eq, length, u64_mod, string_key, length-append, Bool-cases, inl, inr, ◌⊎◌,
  subst, sym, ◌∙◌, saturating_add,
}
use agilang_native.Base.Map.{lookup, insert, lookup-insert}
use agilang_native.Chain.Types.{BlockchainConfig, Transaction}
use agilang_native.Chain.State.{ChainState, nonce}
use agilang_native.Chain.State.Batch.{sent_by}
use agilang_native.Chain.Selection.Order.{
  gas_of, InOrder, gas_of-append_last, sent_by-append, sent_by-le, InOrder-append_last,
}
use agilang_native.Chain.Mempool.{Mempool, MempoolEntry}
use agilang_native.Chain.Selection.{
  Selection, empty_selection, expected_of, remember, consider, run_through, rounds, select,
  sorted_values,
}

module _ {V : Type 0} (config : BlockchainConfig V) (state : ChainState V) where
  -- What holds of the variables throughout.
  record IsWithin (s : Selection V) : Type 0 where
    gas : s.gas_used ≡ gas_of s.selected
    gas_limit : s.gas_used ≤ config.block_gas_limit
    count : length s.selected ≤ config.max_block_txs
    expected : (b : String) → expected_of state s b ≡ nonce state b + sent_by b s.selected
    in_order : config.enforce_nonce_order ≡ true → InOrder state [] s.selected

  expected_of-remember :
      (s : Selection V) (b c : String)
      → expected_of state (remember b (expected_of state s b) s) c ≡ expected_of state s c
  unfolding expected_of remember
  expected_of-remember s b c =
      ground
        (arith, lookup-insert b c (expected_of state s b) s.expected_nonce, string_key.beq_iff b c)

  remember-IsWithin :
      (s : Selection V) (b : String) → IsWithin s → IsWithin (remember b (expected_of state s b) s)
  unfolding remember
  remember-IsWithin s b w = record {
    gas = w.gas;
    gas_limit = w.gas_limit;
    count = w.count;
    expected = λ c. expected_of-remember s b c ∙ w.expected c;
    in_order = w.in_order;
  }

  -- the variables after a transaction has been taken
  abbrev chosen : Transaction V → Selection V → Selection V
  chosen tx s =
      let expected = expected_of state s tx.sender in
      record {
        expected_nonce =
            insert tx.sender (saturating_add u64_mod expected 1)
              (insert tx.sender expected s.expected_nonce);
        gas_used = s.gas_used + tx.gas_limit;
        selected = s.selected ++ tx ∷ [];
        consumed = insert tx.hash tt s.consumed;
        made_progress = true;
      }

  consider_outcomes :
      (tx : Transaction V) (s : Selection V)
      → (consider config state tx s ≡ s)
        ⊎ (consider config state tx s ≡ remember tx.sender (expected_of state s tx.sender) s)
        ⊎ ((consider config state tx s ≡ chosen tx s)
            × (s.gas_used + tx.gas_limit ≤ config.block_gas_limit)
            × (config.enforce_nonce_order ≡ true → tx.nonce ≡ expected_of state s tx.sender))
  unfolding consider remember
  consider_outcomes tx s = ground arith

  module _ (small : (b : String) → nonce state b + config.max_block_txs < u64_mod) where
    chosen-expected :
        (tx : Transaction V) (s : Selection V) (b : String)
        → length s.selected < config.max_block_txs
        → IsWithin s
        → expected_of state (chosen tx s) b ≡ nonce state b + sent_by b (s.selected ++ tx ∷ [])
    unfolding expected_of
    chosen-expected tx s b room w =
        let e = expected_of state s tx.sender in
        ground (
          arith,
          w.expected b,
          w.expected tx.sender,
          small tx.sender,
          sent_by-le tx.sender s.selected,
          lookup-insert tx.sender b (saturating_add u64_mod e 1)
              (insert tx.sender e s.expected_nonce),
          lookup-insert tx.sender b e s.expected_nonce,
          sent_by-append b s.selected (tx ∷ []),
          string_key.beq_iff tx.sender b,
        )

    chosen-IsWithin :
        (tx : Transaction V) (s : Selection V)
        → length s.selected < config.max_block_txs
        → s.gas_used + tx.gas_limit ≤ config.block_gas_limit
        → (config.enforce_nonce_order ≡ true → tx.nonce ≡ expected_of state s tx.sender)
        → IsWithin s
        → IsWithin (chosen tx s)
    chosen-IsWithin tx s room fits due w = record {
      gas = omega (arith, w.gas, gas_of-append_last s.selected tx);
      gas_limit = fits;
      count = omega (arith, length-append s.selected (tx ∷ []));
      expected = λ b. chosen-expected tx s b room w;
      in_order = λ enforced.
          InOrder-append_last state [] s.selected tx (w.in_order enforced)
            (omega (arith, due enforced, w.expected tx.sender));
    }

    consider-IsWithin :
        (tx : Transaction V) (s : Selection V)
        → length s.selected < config.max_block_txs
        → IsWithin s
        → IsWithin (consider config state tx s)
    consider-IsWithin tx s room w = elim (consider_outcomes tx s) [
      | inl same ↦ subst IsWithin (sym same) w
      | inr (inl noted) ↦ subst IsWithin (sym noted) (remember-IsWithin s tx.sender w)
      | inr (inr (taken, fits, due)) ↦
          subst IsWithin (sym taken) (chosen-IsWithin tx s room fits due w)
    ]

    -- the number of transactions grows when there is progress, and only then
    consider_grows :
        (tx : Transaction V) (s : Selection V)
        → (length s.selected ≤ length (consider config state tx s).selected)
          × ((consider config state tx s).made_progress ≡ true
              → (s.made_progress ≡ true)
                ⊎ (length s.selected < length (consider config state tx s).selected))
    unfolding consider remember
    consider_grows tx s = ground (arith, length-append s.selected (tx ∷ []))

    run_through-IsWithin :
        (entries : List (MempoolEntry V)) (s : Selection V)
        → length s.selected < config.max_block_txs
        → IsWithin s
        → IsWithin (run_through config state entries s)
    unfolding run_through
    run_through-IsWithin [] s room w = w
    run_through-IsWithin (entry ∷ entries) s room w =
        let s' = consider config state entry.transaction s in
        let w' = consider-IsWithin entry.transaction s room w in
        elim (Bool-cases (
          leb config.max_block_txs (length s'.selected)
          && not (nat_eq (length s.selected) (length s'.selected)))) [
            | inl full ↦
                let step : run_through config state (entry ∷ entries) s ≡ s' = ground arith in
                subst IsWithin (sym step) w'
            | inr more ↦
                let step : run_through config state (entry ∷ entries) s
                    ≡ run_through config state entries s' =
                  ground arith in
                subst IsWithin (sym step)
                  (run_through-IsWithin entries s' (ground (arith, room)) w')
          ]

    run_through_grows :
        (entries : List (MempoolEntry V)) (s : Selection V)
        → (length s.selected ≤ length (run_through config state entries s).selected)
          × ((run_through config state entries s).made_progress ≡ true
              → (s.made_progress ≡ true)
                ⊎ (length s.selected < length (run_through config state entries s).selected))
    unfolding run_through
    run_through_grows [] s = ground arith
    run_through_grows (entry ∷ entries) s =
        let s' = consider config state entry.transaction s in
        ground (arith, consider_grows entry.transaction s, run_through_grows entries s')

    -- the rounds end within the fuel
    rounds_end :
        (fuel : ℕ) (entries : List (MempoolEntry V)) (s : Selection V)
        → IsWithin s
        → (0 < fuel)
          × ((s.made_progress ≡ true) → config.max_block_txs + 2 ≤ fuel + length s.selected)
        → (s' : Selection V) × (rounds fuel config state entries s ≡ some s') × IsWithin s'
    unfolding rounds expected_of
    rounds_end zero entries s w (some_fuel, enough) = absurd (omega arith)
    rounds_end (suc fuel) entries s w (some_fuel, enough) =
        let start : Selection V = record s { made_progress = false } in
        let next = run_through config state entries start in
        elim (Bool-cases (s.made_progress && ltb (length s.selected) config.max_block_txs)) [
          | inl going ↦
              let room : length s.selected < config.max_block_txs = ground arith in
              let (s', e, w') =
                rounds_end fuel entries next (run_through-IsWithin entries start room (restart s w))
                  (
                    ground (arith, enough),
                    ground (arith, enough, run_through_grows entries start),
                  ) in
              (s', ground (arith, e), w')
          | inr over ↦ (s, ground arith, w)
        ]
      where
        restart : (s : Selection V) → IsWithin s → IsWithin (record s { made_progress = false })
        restart s w = record {
          gas = w.gas;
          gas_limit = w.gas_limit;
          count = w.count;
          expected = w.expected;
          in_order = w.in_order;
        }

    empty-IsWithin : IsWithin empty_selection
    unfolding empty_selection expected_of lookup
    empty-IsWithin = record {
      gas = refl;
      gas_limit = omega arith;
      count = omega arith;
      expected = λ b. omega arith;
      in_order = λ enforced. tt;
    }

    -- The selection ends, with no more transactions and no more gas than a block may have, and with
    -- the nonces of each sender in order from its confirmed nonce if they are enforced, as long as the
    -- confirmed nonces are not within a block of the end of a u64.
    pub select_total :
        (p : Mempool V)
        → (ts : List (Transaction V)) × (select p config state ≡ some ts)
          × (length ts ≤ config.max_block_txs)
          × (gas_of ts ≤ config.block_gas_limit)
          × (config.enforce_nonce_order ≡ true → InOrder state [] ts)
    unfolding select
    select_total p =
        let entries = sorted_values p.by_hash in
        let (s, e, w) =
          rounds_end (suc (suc config.max_block_txs)) entries empty_selection empty-IsWithin
            (omega arith, λ h. omega arith) in
        (s.selected, ground (arith, e), w.count, omega (arith, w.gas, w.gas_limit), w.in_order)
