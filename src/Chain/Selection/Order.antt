-- ===== src/Chain/Selection/Order.antt =====
-- The gas of transactions, and the order of their nonces.
use agilang_native.Base.{ℕ, ◌+◌, ◌≤◌, ◌≡◌, List, [], ◌∷◌, ◌++◌, String, arith, length, string_key}
use agilang_native.Chain.Types.{Transaction}
use agilang_native.Chain.State.{ChainState, nonce}
use agilang_native.Chain.State.Batch.{sent_by}

module _ {V : Type 0} where
  abbrev pub gas_of : List (Transaction V) → ℕ
  gas_of [] = 0
  gas_of (t ∷ ts) = t.gas_limit + gas_of ts

  -- Each transaction has the nonce that is due after those of its sender that come before it.
  abbrev pub InOrder : ChainState V → List (Transaction V) → List (Transaction V) → Type 0
  InOrder state before [] = Unit
  InOrder state before (t ∷ ts) =
      (t.nonce ≡ nonce state t.sender + sent_by t.sender before)
      × InOrder state (before ++ t ∷ []) ts

  pub gas_of-append_last :
      (ts : List (Transaction V)) (t : Transaction V)
      → gas_of (ts ++ t ∷ []) ≡ gas_of ts + t.gas_limit
  gas_of-append_last [] t = omega arith
  gas_of-append_last (x ∷ ts) t = omega (arith, gas_of-append_last ts t)

  pub sent_by-append :
      (b : String) (ts us : List (Transaction V))
      → sent_by b (ts ++ us) ≡ sent_by b ts + sent_by b us
  sent_by-append b [] us = omega arith
  sent_by-append b (t ∷ ts) us = omega (arith, sent_by-append b ts us)

  pub sent_by-le : (b : String) (ts : List (Transaction V)) → sent_by b ts ≤ length ts
  sent_by-le b [] = omega arith
  sent_by-le b (t ∷ ts) = ground (arith, sent_by-le b ts)

  pub InOrder-append_last :
      (state : ChainState V) (before ts : List (Transaction V)) (t : Transaction V)
      → InOrder state before ts
      → t.nonce ≡ nonce state t.sender + (sent_by t.sender before + sent_by t.sender ts)
      → InOrder state before (ts ++ t ∷ [])
  InOrder-append_last state before [] t h due = (omega arith, tt)
  InOrder-append_last state before (x ∷ ts) t h due = (
    h.0,
    InOrder-append_last state (before ++ x ∷ []) ts t h.1
        (omega (arith, due, sent_by-append t.sender before (x ∷ []))),
  )
