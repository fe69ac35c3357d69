-- ===== src/Chain/State/Transition.antt =====
-- What one transaction does to the accounts, with the error paths gone.
use agilang_native.Base.{
  not, ◌&&◌, ℕ, ◌+◌, ◌-◌, ◌*◌, ◌≤◌, ◌<◌, ◌≡◌, true, false, some, arith, ok, if◌then◌else◌, u64_mod,
  u128_mod, string_key, ◌==◌, String,
}
use agilang_native.Base.Text.{is_empty}
use agilang_native.Base.Map.{lookup, lookup-insert, sum_by, sum_by-insert}
use agilang_native.Chain.Types.{BlockchainConfig, Transaction}
use agilang_native.Chain.Gas.{intrinsic_gas}
use agilang_native.Chain.State.{
  Account, default_account, ChainState, Receipt, account, balance, nonce, set_account, entry,
  credit, apply_inner,
}

module _ {V : Type 0} where
  -- the money of all accounts together
  unfoldable pub total : ChainState V → ℕ
  total s = sum_by (λ (a : Account V). a.balance) s.accounts

  -- the state after `entry`: the account is there
  abbrev pub opened : String → ChainState V → ChainState V
  opened a s = (entry a s).1

  pub entry-ok : (a : String) (s : ChainState V) → entry a s ≡ (ok (account s a), opened a s)
  unfolding entry account
  entry-ok a s = ground arith

  pub lookup-opened :
      (a b : String) (s : ChainState V)
      → lookup b (opened a s).accounts
        ≡ (if a == b then some (account s a) else lookup b s.accounts)
  unfolding entry account set_account
  lookup-opened a b s =
      ground (arith, lookup-insert a b default_account s.accounts, string_key.beq_iff a b)

  pub total-opened : (a : String) (s : ChainState V) → total (opened a s) ≡ total s
  unfolding entry total set_account
  total-opened a s =
      ground (arith, sum_by-insert (λ (x : Account V). x.balance) a default_account s.accounts)

  pub lookup-set_account :
      (a b : String) (x : Account V) (s : ChainState V)
      → lookup b (set_account a x s).accounts ≡ (if a == b then some x else lookup b s.accounts)
  unfolding set_account
  lookup-set_account a b x s = lookup-insert a b x s.accounts

  pub total-set_account :
      (a : String) (x : Account V) (s : ChainState V)
      → total (set_account a x s) + balance s a ≡ total s + x.balance
  unfolding set_account total
  total-set_account a x s =
      ground (arith, sum_by-insert (λ (y : Account V). y.balance) a x s.accounts)

  -- the sender after it has paid
  abbrev pub payer : Transaction V → ℕ → ChainState V → Account V
  payer tx fee s =
      let a = account s tx.sender in
      record a { balance = a.balance - (tx.value + fee); nonce = a.nonce + 1 }

  -- the state between the debit and the credit
  unfoldable pub debited : Transaction V → ℕ → ChainState V → ChainState V
  debited tx fee s =
      let a = account s tx.sender in
      set_account tx.sender (payer tx fee s) (
        set_account tx.sender (record a { balance = a.balance - (tx.value + fee) })
          (opened tx.sender s))

  -- What a successful call has checked, and the state that it leaves.
  pub record Accepted (config : BlockchainConfig V) (tx : Transaction V) (s : ChainState V)
      (r : Receipt V) (s' : ChainState V) : Type 0 where
    pub priced : config.mempool_min_gas_price ≤ tx.gas_price
    pub in_order : config.enforce_nonce_order ≡ true → tx.nonce ≡ nonce s tx.sender
    pub gas : intrinsic_gas tx ≡ ok r.gas_used
    pub within_limit : r.gas_used ≤ tx.gas_limit
    pub fee : r.fee_charged ≡ r.gas_used * tx.gas_price
    pub covered : config.strict_accounting ≡ true → tx.value + r.fee_charged ≤ balance s tx.sender
    pub next_nonce : nonce s tx.sender + 1 < u64_mod
    pub credited : credit tx (debited tx r.fee_charged s) ≡ (ok tt, s')

  pub apply_inner-Accepted :
      (config : BlockchainConfig V) (tx : Transaction V) (s : ChainState V) (r : Receipt V)
      (s' : ChainState V)
      → apply_inner config tx s ≡ (ok r, s')
      → Accepted config tx s r s'
  unfolding apply_inner debited account
  apply_inner-Accepted config tx s r s' h = ground (arith, entry-ok tx.sender s)

  pub lookup-debited :
      (tx : Transaction V) (fee : ℕ) (s : ChainState V) (b : String)
      → lookup b (debited tx fee s).accounts
        ≡ (if tx.sender == b then some (payer tx fee s) else lookup b s.accounts)
  unfolding debited
  lookup-debited tx fee s b =
      simp (lookup-set_account, lookup-opened) (ground (arith, string_key.beq_iff tx.sender b))

  pub total-debited :
      (tx : Transaction V) (fee : ℕ) (s : ChainState V)
      → total (debited tx fee s) + balance s tx.sender
        ≡ total s + (balance s tx.sender - (tx.value + fee))
  unfolding debited account
  total-debited tx fee s =
      let who = tx.sender in
      let a : Account V = account s who in
      let paid : Account V = record a { balance = a.balance - (tx.value + fee) } in
      let mid = set_account who paid (opened who s) in
      ground (
        arith,
        total-opened who s,
        total-set_account who paid (opened who s),
        total-set_account who (payer tx fee s) mid,
        lookup-opened who who s,
        lookup-set_account who who paid (opened who s),
        string_key.beq_iff who who,
      )

  -- What reaches the recipient: nothing if there is none.
  pub record Credited (tx : Transaction V) (s s' : ChainState V) : Type 0 where
    pub entries :
        (b : String)
        → lookup b s'.accounts ≡ (
            if not (is_empty tx.to) && (tx.to == b)
            then some (record (account s tx.to) { balance = (account s tx.to).balance + tx.value })
            else lookup b s.accounts)
    pub sum : total s' ≡ total s + (if is_empty tx.to then 0 else tx.value)
    pub fits : is_empty tx.to ≡ false → balance s tx.to + tx.value < u128_mod

  pub credit-Credited :
      (tx : Transaction V) (s s' : ChainState V) → credit tx s ≡ (ok tt, s') → Credited tx s s'
  unfolding credit account
  credit-Credited tx s s' h = record {
    entries = λ b. ground (
      arith,
      entry-ok tx.to s,
      lookup-opened tx.to b s,
      lookup-set_account tx.to b
          (record (account s tx.to) { balance = (account s tx.to).balance + tx.value })
          (opened tx.to s),
      string_key.beq_iff tx.to b,
    );
    sum = ground (
      arith,
      entry-ok tx.to s,
      total-opened tx.to s,
      total-set_account tx.to
          (record (account s tx.to) { balance = (account s tx.to).balance + tx.value })
          (opened tx.to s),
      lookup-opened tx.to tx.to s,
      string_key.beq_iff tx.to tx.to,
    );
    fits = λ e. ground (arith, entry-ok tx.to s);
  }
