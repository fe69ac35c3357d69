-- ===== src/Chain/Mempool/Removal.antt =====
-- Removing transactions keeps the two maps of the mempool in step.
use agilang_native.Base.{
  ◌≡◌, none, some, List, [], ◌∷◌, arith, String, string_key, nat_key, pair_key, pair_beq_iff,
  Option-cases, inl, inr,
}
use agilang_native.Base.Map.{lookup, erase, lookup-erase}
use agilang_native.Chain.Mempool.{Mempool, MempoolEntry, slot_key, remove, remove_many}
use agilang_native.Chain.Mempool.Index.{IsIndexed}

module _ {V : Type 0} where
  erased-IsIndexed :
      (p : Mempool V) (hash : String) (gone : MempoolEntry V)
      → IsIndexed p
      → lookup hash p.by_hash ≡ some gone
      → IsIndexed (record {
        by_hash = erase hash p.by_hash;
        by_sender_nonce = erase (slot_key gone.transaction) p.by_sender_nonce;
      })
  erased-IsIndexed p hash gone v found = record {
    keyed = λ h x e. ground (arith, v.keyed h x, lookup-erase hash h p.by_hash);
    forward = λ h x e. ground (
      arith,
      v.forward h x,
      v.forward hash gone found,
      lookup-erase hash h p.by_hash,
      lookup-erase (slot_key gone.transaction) (slot_key x.transaction) p.by_sender_nonce,
      string_key.beq_iff hash h,
      pair_beq_iff string_key nat_key (slot_key gone.transaction) (slot_key x.transaction),
    );
    backward = λ k h e.
        let kept : lookup k p.by_sender_nonce ≡ some h =
          ground (arith, lookup-erase (slot_key gone.transaction) k p.by_sender_nonce) in
        let (x, hit, same) = v.backward k h kept in
        (
          x,
          ground (
            arith,
            lookup-erase hash h p.by_hash,
            lookup-erase (slot_key gone.transaction) k p.by_sender_nonce,
            string_key.beq_iff hash h,
            pair_beq_iff string_key nat_key (slot_key gone.transaction) k,
          ),
          same,
        );
  }

  -- `remove` keeps the two maps in step and leaves nothing under the hash.
  pub remove-IsIndexed :
      (hash : String) (p : Mempool V)
      → IsIndexed p
      → IsIndexed (remove hash p).1 × (lookup hash (remove hash p).1.by_hash ≡ none)
  unfolding remove
  remove-IsIndexed hash p v = elim (Option-cases (lookup hash p.by_hash)) [
    | inl missing ↦ rw (missing, remove) (v, missing)
    | inr (gone, found) ↦
        rw (found, remove)
          (
            erased-IsIndexed p hash gone v found,
            ground (arith, lookup-erase hash hash p.by_hash, string_key.beq_iff hash hash),
          )
  ]

  -- After `remove_many` the maps still agree.
  pub remove_many-IsIndexed :
      (hashes : List String) (p : Mempool V) → IsIndexed p → IsIndexed (remove_many hashes p)
  unfolding remove_many
  remove_many-IsIndexed [] p v = v
  remove_many-IsIndexed (hash ∷ hashes) p v =
      remove_many-IsIndexed hashes (remove hash p).1 (remove-IsIndexed hash p v).0
