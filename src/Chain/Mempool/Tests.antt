-- ===== src/Chain/Mempool/Tests.antt =====
-- The theorems on the mempool: the sample payment arrives, and a dearer one replaces it.
use agilang_native.Chain.Transaction.{validate}
use agilang_native.Base.{
  ℕ, ◌≤◌, ◌≡◌, refl, arith, ok, none, some, false, [], ◌∷◌, string_key, nat_key, pair_key, u64_mod,
}
use agilang_native.Base.Map.{lookup, contains, insert}
use agilang_native.Chain.Sample.{codec, config, payment, before}
use agilang_native.Chain.State.{nonce}
use agilang_native.Chain.Mempool.{
  Mempool, empty_pool, put, add, remove_many, pending_nonce, replace_existing,
}
use agilang_native.Chain.Mempool.Index.{IsIndexed, pending_entry, add-IsIndexed}
use agilang_native.Chain.Mempool.Removal.{remove_many-IsIndexed}
use agilang_native.Chain.Mempool.Pending.{IsTaken, pending_nonce_first}

abbrev empty : Mempool ℕ
empty = empty_pool

abbrev waiting : Mempool ℕ
waiting = record {
  by_hash = ("a", pending_entry payment 9) ∷ [];
  by_sender_nonce = (("a", 3), "a") ∷ [];
}

empty-IsIndexed : IsIndexed empty
unfolding lookup
empty-IsIndexed = record {
  keyed = λ h x e. absurd (ground arith);
  forward = λ h x e. absurd (ground arith);
  backward = λ k h e. absurd (ground arith);
}

taken : add codec config before payment 9 empty ≡ (ok none, waiting)
unfolding add validate lookup replace_existing put insert
taken = refl

waiting-IsIndexed : IsIndexed waiting
unfolding add validate lookup replace_existing put insert
waiting-IsIndexed = add-IsIndexed codec config before payment 9 empty empty-IsIndexed

add-IsIndexed_example : IsIndexed (add codec config before payment 9 empty).1
add-IsIndexed_example = add-IsIndexed codec config before payment 9 empty empty-IsIndexed

remove_many-IsIndexed_example : IsIndexed (remove_many ("a" ∷ "c" ∷ []) waiting)
remove_many-IsIndexed_example = remove_many-IsIndexed ("a" ∷ "c" ∷ []) waiting waiting-IsIndexed

pending_nonce_first_example :
    (n : ℕ) × (pending_nonce waiting before "a" ≡ some n)
    × (nonce before "a" ≤ n)
    × (contains ("a", n) waiting.by_sender_nonce ≡ false)
    × IsTaken waiting "a" (nonce before "a") n
unfolding lookup u64_mod
pending_nonce_first_example = pending_nonce_first waiting before "a" (omega arith)
