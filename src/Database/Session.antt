-- ===== src/Database/Session.antt =====
-- Sessions of crates/agilang-database-session/src/lib.rs: requests with a sequence number and a
-- nonce. The set of nonces is a list; the clock's seconds are an argument.
mod Tests
use agilang_native.Base.{
  ℕ, zero, suc, ◌+◌, ◌*◌, ◌/◌, ◌%◌, ◌<◌, ◌≡◌, refl, Bool, true, false, not, ◌||◌, List, [], ◌∷◌,
  ◌++◌, Result, ok, err, arith, u64_mod, nat_eq, if◌then◌else◌, Bool-cases, inl, inr, subst, is_ok,
}
use agilang_native.Base.Key.{◌==◌, list_key}
use agilang_native.Database.Vault.{Capability}

pub record AgtpSession : Type 0 where
  pub session_id : List ℕ
  pub application_id : List ℕ
  pub database_id : List ℕ
  pub capabilities : List Capability
  pub issued_at : ℕ
  pub expires_at : ℕ
  pub next_sequence : ℕ
  pub seen_nonces : List (List ℕ)

pub data SessionFault : Type 0 where
  sequence_mismatch : ℕ → ℕ → SessionFault
  nonce_reused : SessionFault

-- `to_le_bytes`
unfoldable pub to_le_bytes : ℕ → ℕ → List ℕ
to_le_bytes zero n = []
to_le_bytes (suc width) n = (n % 256) ∷ to_le_bytes width (n / 256)

unfoldable pub new_session : ℕ → List ℕ → List ℕ → List Capability → AgtpSession
unfolding to_le_bytes
new_session now app_id db_id capabilities = record {
  session_id = to_le_bytes 8 now ++ to_le_bytes 8 now;
  application_id = app_id;
  database_id = db_id;
  capabilities = capabilities;
  issued_at = now;
  expires_at = (now + 3600) % u64_mod;
  next_sequence = 1;
  seen_nonces = [];
}

-- `seen_nonces.contains(&nonce)`
unfoldable pub seen : List ℕ → List (List ℕ) → Bool
seen nonce [] = false
seen nonce (n ∷ ns) = n == nonce || seen nonce ns

unfoldable pub validate_request :
    ℕ → List ℕ → AgtpSession → Result SessionFault (Unit {0}) × AgtpSession
unfolding seen
validate_request seq nonce s =
    if not (nat_eq seq s.next_sequence)
    then (err (SessionFault.sequence_mismatch s.next_sequence seq), s)
    else if seen nonce s.seen_nonces
    then (err SessionFault.nonce_reused, s)
    else (
      ok tt,
      record s {
        seen_nonces = nonce ∷ s.seen_nonces;
        next_sequence = (s.next_sequence + 1) % u64_mod;
      },
    )

-- requests in the order in which they come
unfoldable pub validate_all : List (ℕ × List ℕ) → AgtpSession → AgtpSession
validate_all [] s = s
validate_all ((seq, nonce) ∷ rest) s = validate_all rest (validate_request seq nonce s).1

module _ (nonce : List ℕ) where
  seen_kept :
      (seq : ℕ) (other : List ℕ) (s : AgtpSession)
      → seen nonce s.seen_nonces ≡ true
      → seen nonce (validate_request seq other s).1.seen_nonces ≡ true
  unfolding validate_request seen
  seen_kept seq other s h = ground arith

  validate_all-seen :
      (requests : List (ℕ × List ℕ)) (s : AgtpSession)
      → seen nonce s.seen_nonces ≡ true
      → seen nonce (validate_all requests s).seen_nonces ≡ true
  unfolding validate_all
  validate_all-seen [] s h = h
  validate_all-seen ((seq, other) ∷ rest) s h =
      validate_all-seen rest (validate_request seq other s).1 (seen_kept seq other s h)

  seen_after :
      (seq : ℕ) (s : AgtpSession)
      → (validate_request seq nonce s).0 ≡ ok tt
      → seen nonce (validate_request seq nonce s).1.seen_nonces ≡ true
  unfolding validate_request seen
  seen_after seq s h = ground (arith, list_key.beq_iff nonce nonce)

  seen_refused :
      (seq : ℕ) (s : AgtpSession)
      → seen nonce s.seen_nonces ≡ true
      → (is_ok (validate_request seq nonce s).0 ≡ false) × ((validate_request seq nonce s).1 ≡ s)
  unfolding validate_request
  seen_refused seq s h = (ground arith, ground arith)

  -- Once a request was accepted, its nonce is not accepted again with any sequence number, whatever
  -- requests come between, and the refused request leaves the session as it was.
  pub validate_request_no_replay :
      (seq again : ℕ) (between : List (ℕ × List ℕ)) (s : AgtpSession)
      → (validate_request seq nonce s).0 ≡ ok tt
      → let later = validate_all between (validate_request seq nonce s).1 in
        (is_ok (validate_request again nonce later).0 ≡ false)
        × ((validate_request again nonce later).1 ≡ later)
  validate_request_no_replay seq again between s h =
      seen_refused again (validate_all between (validate_request seq nonce s).1)
        (validate_all-seen between (validate_request seq nonce s).1 (seen_after seq s h))
