-- ===== src/Chain/Mempool/Index.antt =====
-- The two maps of the mempool agree after every call.
use agilang_native.Base.{
  ℕ, ◌<◌, ◌≤◌, ◌≡◌, ◌≢◌, false, Option, none, some, arith, String, Result, ok, length, string_key,
  nat_key, pair_key, pair_beq_iff, Option-cases, Bool-cases, pair_beq, inl, inr, ◌⊎◌, subst, sym,
  ap, is_ok, Result-cases,
}
use agilang_native.Base.Map.{
  lookup, erase, lookup-insert, lookup-insert_self, lookup-erase, length-insert, length-erase-le,
}
use agilang_native.Chain.Fault.{Fault}
use agilang_native.Chain.Types.{BlockchainConfig, Transaction, Codec}
use agilang_native.Chain.State.{ChainState}
use agilang_native.Chain.Mempool.{Mempool, MempoolEntry, slot_key, replace_existing, put, add}

-- Every entry stands under its hash, and the index holds exactly the senders and nonces of the
-- entries, each with the hash of its entry.
pub record IsIndexed {V : Type 0} (p : Mempool V) : Type 0 where
  pub keyed :
      (h : String) (x : MempoolEntry V) → lookup h p.by_hash ≡ some x → x.transaction.hash ≡ h
  pub forward :
      (h : String) (x : MempoolEntry V)
      → lookup h p.by_hash ≡ some x
      → lookup (slot_key x.transaction) p.by_sender_nonce ≡ some h
  pub backward :
      (k : String × ℕ) (h : String)
      → lookup k p.by_sender_nonce ≡ some h
      → (x : MempoolEntry V) × (lookup h p.by_hash ≡ some x) × (slot_key x.transaction ≡ k)

-- The index before a transaction is put in: its place is vacant among the entries, and the index may
-- still name a hash for it.
record IsVacant {V : Type 0} (t : Transaction V) (p : Mempool V) : Type 0 where
  keyed : (h : String) (x : MempoolEntry V) → lookup h p.by_hash ≡ some x → x.transaction.hash ≡ h
  forward :
      (h : String) (x : MempoolEntry V)
      → lookup h p.by_hash ≡ some x
      → (lookup (slot_key x.transaction) p.by_sender_nonce ≡ some h)
        × (slot_key t ≢ slot_key x.transaction)
  backward :
      (k : String × ℕ) (h : String)
      → slot_key t ≢ k
      → lookup k p.by_sender_nonce ≡ some h
      → (x : MempoolEntry V) × (lookup h p.by_hash ≡ some x) × (slot_key x.transaction ≡ k)

-- the entry of a transaction that has just come in
abbrev pub pending_entry : {V : Type 0} → Transaction V → ℕ → MempoolEntry V
pending_entry t now = record { transaction = t; received_at_ms = now }

module _ {V : Type 0} (t : Transaction V) where
  module _ (now : ℕ) (p : Mempool V) (v : IsVacant t p) (new : lookup t.hash p.by_hash ≡ none) where
    put_backward :
        (k : String × ℕ) (h : String)
        → lookup k (put t now p).by_sender_nonce ≡ some h
        → (x : MempoolEntry V) × (lookup h (put t now p).by_hash ≡ some x)
          × (slot_key x.transaction ≡ k)
    unfolding put
    put_backward k h e = elim (Bool-cases (pair_beq string_key nat_key (slot_key t) k)) [
      | inl here ↦ (
        pending_entry t now,
        ground (
          arith,
          lookup-insert t.hash h (pending_entry t now) p.by_hash,
          lookup-insert (slot_key t) k t.hash p.by_sender_nonce,
          string_key.beq_iff t.hash h,
        ),
        (pair_beq_iff string_key nat_key (slot_key t) k).0 here,
      )
      | inr there ↦
          let (x, hit, same) =
            v.backward k h (λ eq. ground (arith, pair_beq_iff string_key nat_key (slot_key t) k))
              (ground (arith, lookup-insert (slot_key t) k t.hash p.by_sender_nonce)) in
          (
            x,
            ground (
              arith,
              lookup-insert t.hash h (pending_entry t now) p.by_hash,
              string_key.beq_iff t.hash h,
            ),
            same,
          )
    ]

    put-IsIndexed : IsIndexed (put t now p)
    unfolding put
    put-IsIndexed = record {
      keyed = λ h x e. ground (
        arith,
        v.keyed h x,
        lookup-insert t.hash h (pending_entry t now) p.by_hash,
        string_key.beq_iff t.hash h,
      );
      forward = λ h x e. ground (
        arith,
        v.forward h x,
        lookup-insert t.hash h (pending_entry t now) p.by_hash,
        lookup-insert (slot_key t) (slot_key x.transaction) t.hash p.by_sender_nonce,
        string_key.beq_iff t.hash h,
        pair_beq_iff string_key nat_key (slot_key t) (slot_key x.transaction),
      );
      backward = put_backward;
    }

  new-IsVacant :
      (p : Mempool V) → IsIndexed p → lookup (slot_key t) p.by_sender_nonce ≡ none → IsVacant t p
  new-IsVacant p v free = record {
    keyed = v.keyed;
    forward = λ h x e. (v.forward h x e, λ eq. ground (arith, v.forward h x e));
    backward = λ k h _ e. v.backward k h e;
  }

  erased-IsVacant :
      (p : Mempool V) (old : String)
      → IsIndexed p
      → lookup (slot_key t) p.by_sender_nonce ≡ some old
      → IsVacant t (record p { by_hash = erase old p.by_hash })
  erased-IsVacant p old v taken = record {
    keyed = λ h x e. ground (arith, v.keyed h x, lookup-erase old h p.by_hash);
    forward = λ h x e.
        let found : lookup h p.by_hash ≡ some x = ground (arith, lookup-erase old h p.by_hash) in
        (
          v.forward h x found,
          λ eq.
              ground (
                arith,
                v.forward h x found,
                lookup-erase old h p.by_hash,
                string_key.beq_iff old h,
              ),
        );
    backward = λ k h apart e.
        let (x, hit, same) = v.backward k h e in
        let (y, other, place) = v.backward (slot_key t) old taken in
        (x, ground (arith, lookup-erase old h p.by_hash, string_key.beq_iff old h), same);
  }

module _ {V : Type 0} (codec : Codec V) (config : BlockchainConfig V) (state : ChainState V)
    (t : Transaction V) (now : ℕ) (p : Mempool V) where
  abbrev pub added : Result Fault (Option (Transaction V)) × Mempool V
  added = add codec config state t now p

  -- What a call of `add` does: it refuses the transaction, puts it in a free place, or in the place
  -- of a cheaper one.
  pub add_outcomes :
      (is_ok added.0 ≡ false) × (added.1 ≡ p)
      ⊎ (lookup t.hash p.by_hash ≡ none)
        × (lookup (slot_key t) p.by_sender_nonce ≡ none)
        × (length p.by_hash < config.mempool_max_txs)
        × (added ≡ (ok none, put t now p))
      ⊎ ((old : String) × (x : MempoolEntry V) × (lookup t.hash p.by_hash ≡ none)
          × (lookup (slot_key t) p.by_sender_nonce ≡ some old)
          × (lookup old p.by_hash ≡ some x)
          × (x.transaction.gas_price < t.gas_price)
          × (length p.by_hash < config.mempool_max_txs)
          × (added
              ≡ (ok (some x.transaction), put t now (record p { by_hash = erase old p.by_hash }))))
  unfolding add replace_existing
  add_outcomes = elim (Option-cases (lookup (slot_key t) p.by_sender_nonce)) [
    | inl free ↦ ground arith
    | inr (old, taken) ↦ elim (Option-cases (lookup old p.by_hash)) [
      | inl lost ↦ ground arith
      | inr (x, found) ↦ elim (Result-cases added.0) [
        | inl (r, done) ↦
            inr (inr (old, x, ground arith, taken, found, ground arith, ground arith, ground arith))
        | inr (f, refused) ↦ inl (ground arith, ground arith)
      ]
    ]
  ]

  -- Whatever `add` answers, the hashes and the index still agree.
  pub add-IsIndexed : IsIndexed p → IsIndexed added.1
  add-IsIndexed v = elim add_outcomes [
    | inl (refused, same) ↦ subst IsIndexed (sym same) v
    | inr (inl (new, free, _, done)) ↦
        subst IsIndexed (sym (ap (λ r. r.1) done))
          (put-IsIndexed t now p (new-IsVacant t p v free) new)
    | inr (inr (old, x, new, taken, _, _, _, done)) ↦ subst IsIndexed (sym (ap (λ r. r.1) done)) (
        put-IsIndexed t now (record p { by_hash = erase old p.by_hash })
          (erased-IsVacant t p old v taken)
          (ground (arith, new, lookup-erase old t.hash p.by_hash)))
  ]

  -- `add` never grows the pool past its capacity.
  pub add_bounded :
      length p.by_hash ≤ config.mempool_max_txs → length added.1.by_hash ≤ config.mempool_max_txs
  unfolding put
  add_bounded h = elim add_outcomes [
    | inl (_, same) ↦ rw same h
    | inr (inl (new, _, room, done)) ↦
        rw done (ground (arith, room, length-insert t.hash (pending_entry t now) p.by_hash))
    | inr (inr (old, x, new, _, _, _, room, done)) ↦ rw done (
        ground (
          arith,
          room,
          length-insert t.hash (pending_entry t now) (erase old p.by_hash),
          length-erase-le old p.by_hash,
        ))
  ]

  -- A transaction that is taken is found under its hash and under its sender and nonce. If it
  -- replaces another, that one had the same sender and nonce and a lower price, and is gone.
  pub add_found :
      (replaced : Option (Transaction V)) (p' : Mempool V)
      → IsIndexed p
      → added ≡ (ok replaced, p')
      → (lookup t.hash p'.by_hash ≡ some (record { transaction = t; received_at_ms = now }))
        × (lookup (slot_key t) p'.by_sender_nonce ≡ some t.hash)
        × ((r : Transaction V)
            → replaced ≡ some r
            → (slot_key r ≡ slot_key t)
              × (r.gas_price < t.gas_price)
              × (lookup r.hash p'.by_hash ≡ none))
  unfolding put
  add_found replaced p' v e = elim add_outcomes [
    | inl (refused, same) ↦ absurd (ground arith)
    | inr (inl (new, _, room, done)) ↦ (
      ground (arith, lookup-insert_self t.hash (pending_entry t now) p.by_hash),
      ground (arith, lookup-insert_self (slot_key t) t.hash p.by_sender_nonce),
      λ r taken. absurd (ground arith),
    )
    | inr (inr (old, x, new, taken, found, cheaper, room, done)) ↦
        let rest = erase old p.by_hash in
        (
          ground (arith, lookup-insert_self t.hash (pending_entry t now) rest),
          ground (arith, lookup-insert_self (slot_key t) t.hash p.by_sender_nonce),
          λ r gone.
              let (y, found', place) = v.backward (slot_key t) old taken in
              let hash_is : x.transaction.hash ≡ old = v.keyed old x found in
              (
                ground arith,
                ground arith,
                ground (
                  arith,
                  hash_is,
                  lookup-insert t.hash old (pending_entry t now) rest,
                  lookup-erase old old p.by_hash,
                  string_key.beq_iff t.hash old,
                  string_key.beq_iff old old,
                ),
              ),
        )
  ]
