-- ===== src/Database/Units.antt =====
-- Units of work, crates/agilang-database-transactions/src/lib.rs. A connection is a type of states
-- with three calls; the texts of savepoints are not modelled.
use agilang_native.Base.{◌≡◌, Result, ok, err, arith}

module _ {S E T : Type 0} (begin commit rollback : S → Result E (Unit {0}) × S) where
  -- the end of a unit of work, after its action; an error of the rollback is ignored
  unfoldable pub finish : Result E T × S → Result E T × S
  finish (ok result, s) = elim (commit s).0 [
    | ok _ ↦ (ok result, (commit s).1)
    | err e ↦ (err e, (commit s).1)
  ]
  finish (err e, s) = (err e, (rollback s).1)

  unfoldable pub transaction : (S → Result E T × S) → S → Result E T × S
  unfolding finish
  transaction action s = elim (begin s).0 [
    | ok _ ↦ finish (action (begin s).1)
    | err e ↦ (err e, (begin s).1)
  ]

  -- If rolling back after the action gives the state as it was begun, a unit of work whose action
  -- fails reports the action's error and leaves that state.
  pub transaction_rolled_back :
      (action : S → Result E T × S) (s begun failed : S) (e : E)
      → begin s ≡ (ok tt, begun)
      → action begun ≡ (err e, failed)
      → (rollback failed).1 ≡ begun
      → transaction action s ≡ (err e, begun)
  unfolding transaction finish
  transaction_rolled_back action s begun failed e opened acted restored =
      ground (arith, opened, acted, restored)
