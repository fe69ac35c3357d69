-- ===== src/Chain/Mempool/Pending.antt =====
-- `pending_nonce`: the first nonce from the confirmed one on that no pending transaction has.
use agilang_native.Base.{
  ℕ, zero, suc, ◌+◌, ◌-◌, ◌<◌, ◌≤◌, ◌≡◌, true, false, some, arith, String, string_key, nat_key,
  pair_key, pair_beq_iff, Option-cases, inl, inr, length, u64_mod, Bool-cases, saturating_add,
}
use agilang_native.Base.Map.{Map, lookup, contains, erase, lookup-erase, length-erase_lt}
use agilang_native.Chain.State.{ChainState, nonce}
use agilang_native.Chain.Mempool.{Mempool, next_free, pending_nonce}

-- A run of `k` nonces in the index needs `k` entries.
run-le-length :
    (k : ℕ) (sender : String) (start : ℕ) (m : Map (String × ℕ) String)
    → ((i : ℕ) → i < k → contains (sender, start + i) m ≡ true)
    → k ≤ length m
run-le-length zero sender start m h = omega arith
run-le-length (suc k) sender start m h = elim (Option-cases (lookup (sender, start + k) m)) [
  | inl missing ↦ absurd (ground (arith, h k (omega arith)))
  | inr (v, found) ↦ omega (
    arith,
    length-erase_lt (sender, start + k) m v found,
    run-le-length k sender start (erase (sender, start + k) m)
        (λ i lt. rest i lt (h i (omega arith))),
  )
]
  where
    rest :
        (i : ℕ)
        → i < k
        → contains (sender, start + i) m ≡ true
        → contains (sender, start + i) (erase (sender, start + k) m) ≡ true
    rest i lt here = ground (
      arith,
      lookup-erase (sender, start + k) (sender, start + i) m,
      pair_beq_iff string_key nat_key (sender, start + k) (sender, start + i),
    )

-- every nonce from `start` up to `stop` is taken
abbrev pub IsTaken : {V : Type 0} → Mempool V → String → ℕ → ℕ → Type 0
IsTaken p sender start stop =
    (i : ℕ) → start ≤ i → i < stop → contains (sender, i) p.by_sender_nonce ≡ true

next_free_lem :
    {V : Type 0} (fuel : ℕ) (p : Mempool V) (sender : String) (start next : ℕ)
    → start ≤ next
    → length p.by_sender_nonce < fuel + (next - start)
    → next + fuel < u64_mod
    → IsTaken p sender start next
    → (n : ℕ) × (next_free fuel p sender next ≡ some n)
      × (start ≤ n)
      × (contains (sender, n) p.by_sender_nonce ≡ false)
      × IsTaken p sender start n
unfolding next_free
next_free_lem zero p sender start next le enough small taken = absurd (
    omega (
      arith,
      run-le-length (next - start) sender start p.by_sender_nonce
          (λ i lt. taken (start + i) (omega arith) (omega arith)),
    ))
next_free_lem (suc fuel) p sender start next le enough small taken =
    elim (Bool-cases (contains (sender, next) p.by_sender_nonce)) [
      | inl here ↦
          let more : IsTaken p sender start (next + 1) = λ i a b. ground (arith, here, taken i a) in
          let sat : saturating_add u64_mod next 1 ≡ next + 1 = omega arith in
          rw (here, next_free)
            (rw sat (
              next_free_lem fuel p sender start (next + 1) (omega arith) (omega arith) (omega arith)
                more))
      | inr free ↦ (next, rw (free, next_free), le, free, taken)
    ]

-- `pending_nonce` ends, with the first nonce from the confirmed one on that no pending transaction of
-- the sender has, as long as the nonces in reach fit a u64.
pub pending_nonce_first :
    {V : Type 0} (p : Mempool V) (state : ChainState V) (sender : String)
    → nonce state sender + length p.by_sender_nonce + 1 < u64_mod
    → (n : ℕ) × (pending_nonce p state sender ≡ some n)
      × (nonce state sender ≤ n)
      × (contains (sender, n) p.by_sender_nonce ≡ false)
      × IsTaken p sender (nonce state sender) n
unfolding pending_nonce
pending_nonce_first p state sender small =
    next_free_lem (suc (length p.by_sender_nonce)) p sender (nonce state sender)
      (nonce state sender) (omega arith) (omega arith) (omega arith) (λ i a b. absurd (omega arith))
