-- ===== src/Database/Session/Tests.antt =====
-- A replayed request, and the theorem at it.
use agilang_native.Base.{◌≡◌, refl, false, [], ◌∷◌, is_ok}
use agilang_native.Database.Vault.{table_read}
use agilang_native.Database.Session.{
  AgtpSession, new_session, validate_request, validate_all, validate_request_no_replay,
}

abbrev fresh : AgtpSession
fresh = new_session 1700000000 (1 ∷ []) (2 ∷ []) (table_read ∷ [])

abbrev opened : AgtpSession
opened = (validate_request 1 (7 ∷ []) fresh).1

validate_request_no_replay_example :
    (is_ok (validate_request 3 (7 ∷ []) (validate_all ((2, 8 ∷ []) ∷ []) opened)).0 ≡ false)
    × ((validate_request 3 (7 ∷ []) (validate_all ((2, 8 ∷ []) ∷ []) opened)).1
        ≡ validate_all ((2, 8 ∷ []) ∷ []) opened)
unfolding new_session validate_request
validate_request_no_replay_example =
    validate_request_no_replay (7 ∷ []) 1 3 ((2, 8 ∷ []) ∷ []) fresh refl
