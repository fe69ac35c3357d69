-- ===== src/Chain/Consensus/Votes.antt =====
-- The stake behind a set of votes: it only grows, and disjoint sets share the total.
use agilang_native.Base.{
  ℕ, ◌+◌, ◌≤◌, ◌≡◌, refl, none, some, [], ◌∷◌, arith, String, string_key, Option-cases, inl, inr,
}
use agilang_native.Base.Map.{
  Map, lookup, insert, erase, place, replace, lookup-erase, sum_by, worth,
}
use agilang_native.Base.Distinct.{Distinct, sum_by-erase_le}
use agilang_native.Chain.Consensus.{Set, stake_of}

abbrev stake : Map String ℕ → String → ℕ
stake validators v = worth (λ s. s) (lookup v validators)

stake_of-erase :
    (validators : Map String ℕ) (v : String) (vs : Set String)
    → lookup v vs ≡ none
    → stake_of (erase v validators) vs ≡ stake_of validators vs
unfolding stake_of lookup
stake_of-erase validators v [] h = refl
stake_of-erase validators v ((w, _) ∷ vs) h = ground (
  arith,
  stake_of-erase validators v vs,
  lookup-erase v w validators,
  string_key.beq_iff v w,
  string_key.beq_iff w v,
)

-- a voter's stake counts once at most
pub stake_of-le :
    (validators : Map String ℕ) (vs : Set String)
    → Distinct vs
    → stake_of validators vs ≤ sum_by (λ s. s) validators
unfolding stake_of
stake_of-le validators [] d = omega arith
stake_of-le validators ((v, _) ∷ vs) d = omega (
  arith,
  stake_of-erase validators v vs d.0,
  stake_of-le (erase v validators) vs d.1,
  sum_by-erase_le (λ (s : ℕ). s) v validators,
)

abbrev pub IsDisjoint : Set String → Set String → Type 0
IsDisjoint vs ws = (v : String) → lookup v vs ≡ some tt → lookup v ws ≡ none

tail-IsDisjoint :
    (v : String) (vs ws : Set String)
    → lookup v vs ≡ none
    → IsDisjoint ((v, tt) ∷ vs) ws
    → IsDisjoint vs ws
unfolding lookup
tail-IsDisjoint v vs ws new h w e = h w (ground (arith, string_key.beq_iff v w))

head_is_in : (v : String) (vs : Set String) → lookup v ((v, tt) ∷ vs) ≡ some tt
unfolding lookup
head_is_in v vs = ground (arith, string_key.beq_iff v v)

pub stake_of_disjoint :
    (validators : Map String ℕ) (vs ws : Set String)
    → Distinct vs
    → Distinct ws
    → IsDisjoint vs ws
    → stake_of validators vs + stake_of validators ws ≤ sum_by (λ s. s) validators
unfolding stake_of
stake_of_disjoint validators [] ws d d' h = omega (arith, stake_of-le validators ws d')
stake_of_disjoint validators ((v, _) ∷ vs) ws d d' h = omega (
  arith,
  stake_of-erase validators v vs d.0,
  stake_of-erase validators v ws (h v (head_is_in v vs)),
  stake_of_disjoint (erase v validators) vs ws d.1 d' (tail-IsDisjoint v vs ws d.0 h),
  sum_by-erase_le (λ (s : ℕ). s) v validators,
)

stake_of-place :
    (validators : Map String ℕ) (v : String) (vs : Set String)
    → stake_of validators (place v tt vs) ≡ stake validators v + stake_of validators vs
unfolding stake_of place
stake_of-place validators v [] = refl
stake_of-place validators v ((w, _) ∷ vs) = ground (arith, stake_of-place validators v vs)

stake_of-replace :
    (validators : Map String ℕ) (v : String) (vs : Set String)
    → stake_of validators (replace v tt vs) ≡ stake_of validators vs
unfolding stake_of replace
stake_of-replace validators v [] = refl
stake_of-replace validators v ((w, _) ∷ vs) = ground (arith, stake_of-replace validators v vs)

-- a vote more is no stake less
pub stake_of-insert-le :
    (validators : Map String ℕ) (v : String) (vs : Set String)
    → stake_of validators vs ≤ stake_of validators (insert v tt vs)
unfolding insert
stake_of-insert-le validators v vs = elim (Option-cases (lookup v vs)) [
  | inl new ↦ rw (new, insert) (omega (arith, stake_of-place validators v vs))
  | inr (_, old) ↦ rw (old, insert) (omega (arith, stake_of-replace validators v vs))
]
