-- ===== src/Chain/Peers/Window.antt =====
-- Which messages count as seen.
use agilang_native.Base.{
  ℕ, ◌<◌, ◌≤◌, ◌≡◌, refl, Bool, true, false, ◌||◌, List, [], ◌∷◌, ◌++◌, String, arith, length,
  nat_eq, not, ltb, ◌==◌, string_key, Bool-cases, inl, inr, subst, sym,
}
use agilang_native.Base.Map.{Map, contains, insert, erase, lookup-insert, lookup-erase}
use agilang_native.Chain.Peers.{SeenMessages, evict, record_message}

abbrev pub seen_in : String → List String → Bool
seen_in id [] = false
seen_in id (x ∷ xs) = (x == id) || seen_in id xs

abbrev pub NoRepeats : List String → Type 0
NoRepeats [] = Unit
NoRepeats (x ∷ xs) = (seen_in x xs ≡ false) × NoRepeats xs

-- The set holds what the queue holds, each once, and no more than the bound.
pub record IsWindow (s : SeenMessages) : Type 0 where
  pub agree : (id : String) → contains id s.recent_messages ≡ seen_in id s.message_order
  pub once : NoRepeats s.message_order
  pub bounded : length s.message_order ≤ s.max_recent_messages

seen_in-append_last :
    (id x : String) (xs : List String) → seen_in id (xs ++ x ∷ []) ≡ (seen_in id xs || (x == id))
seen_in-append_last id x [] = ground arith
seen_in-append_last id x (y ∷ xs) = ground (arith, seen_in-append_last id x xs)

NoRepeats-append_last :
    (x : String) (xs : List String) → NoRepeats xs → seen_in x xs ≡ false → NoRepeats (xs ++ x ∷ [])
NoRepeats-append_last x [] h new = ground arith
NoRepeats-append_last x (y ∷ xs) h new = ground (
  arith,
  NoRepeats-append_last x xs,
  seen_in-append_last y x xs,
  string_key.beq_iff x y,
  string_key.beq_iff y x,
)

evict-IsWindow :
    (limit : ℕ) (order : List String) (recent : Map String (Unit {0}))
    → ((id : String) → contains id recent ≡ seen_in id order)
    → NoRepeats order
    → IsWindow (evict limit order recent)
unfolding evict
evict-IsWindow limit [] recent agree once = record {
  agree = agree;
  once = tt;
  bounded = omega arith;
}
evict-IsWindow limit (oldest ∷ order) recent agree once =
    let rest = erase oldest recent in
    let kept : SeenMessages = record {
      recent_messages = recent;
      message_order = oldest ∷ order;
      max_recent_messages = limit;
    } in
    elim (Bool-cases (ltb limit (length (oldest ∷ order)))) [
      | inl long ↦
          let step : evict limit (oldest ∷ order) recent ≡ evict limit order rest = ground arith in
          subst IsWindow (sym step) (
            evict-IsWindow limit order rest
              (λ id.
                ground
                  (arith, agree id, lookup-erase oldest id recent, string_key.beq_iff oldest id))
              once.1)
      | inr short ↦
          let step : evict limit (oldest ∷ order) recent ≡ kept = ground arith in
          subst IsWindow (sym step) (record { agree = agree; once = once; bounded = ground arith })
    ]

-- the last message of the queue stays, if one may stay
evict_last :
    (limit : ℕ) (order : List String) (id : String) (recent : Map String (Unit {0}))
    → 0 < limit
    → seen_in id (evict limit (order ++ id ∷ []) recent).message_order ≡ true
unfolding evict
evict_last limit [] id recent h = ground (arith, string_key.beq_iff id id)
evict_last limit (x ∷ order) id recent h = ground (
  arith,
  evict_last limit order id (erase x recent),
  evict_last limit order id recent,
  seen_in-append_last id id order,
  string_key.beq_iff id id,
)

evict_limit :
    (limit : ℕ) (order : List String) (recent : Map String (Unit {0}))
    → (evict limit order recent).max_recent_messages ≡ limit
unfolding evict
evict_limit limit [] recent = refl
evict_limit limit (x ∷ order) recent = ground (arith, evict_limit limit order (erase x recent))

no_room :
    (id : String) (s : SeenMessages)
    → IsWindow s
    → s.max_recent_messages ≡ 0
    → contains id s.recent_messages ≡ false
no_room id s w none_fits = ground (arith, w.agree id, empty s.message_order, w.bounded)
  where
    empty : (xs : List String) → length xs ≤ 0 → seen_in id xs ≡ false
    empty [] h = refl
    empty (x ∷ xs) h = absurd (omega arith)

record_message_new :
    (id : String) (s : SeenMessages) → (record_message id s).0 ≡ not (contains id s.recent_messages)
unfolding record_message
record_message_new id s = ground arith

abbrev Outcome : String → SeenMessages → Bool × SeenMessages → Type 0
Outcome id s (new, s') =
    IsWindow s'
    × (s'.max_recent_messages ≡ s.max_recent_messages)
    × (new ≡ not (seen_in id s.message_order))
    × ((record_message id s').0 ≡ nat_eq s.max_recent_messages 0)

-- `record_message` keeps the set and the queue of seen messages in step and within their bound. It
-- answers that a message is new exactly when it is not among them, and it is not new the next time,
-- except if the bound is zero: then it is new each time.
pub record_message-IsWindow :
    (id : String) (s : SeenMessages)
    → IsWindow s
    → let (new, s') = record_message id s in
      IsWindow s'
      × (s'.max_recent_messages ≡ s.max_recent_messages)
      × (new ≡ not (seen_in id s.message_order))
      × ((record_message id s').0 ≡ nat_eq s.max_recent_messages 0)
unfolding record_message
record_message-IsWindow id s w = elim (Bool-cases (contains id s.recent_messages)) [
  | inl seen ↦
      let step : record_message id s ≡ (false, s) = ground arith in
      subst (Outcome id s) (sym step) (
        w,
        refl,
        ground (arith, w.agree id),
        ground (arith, no_room id s w, record_message_new id s),
      )
  | inr unseen ↦
      let order = s.message_order ++ id ∷ [] in
      let recent = insert id tt s.recent_messages in
      let s' = evict s.max_recent_messages order recent in
      let step : record_message id s ≡ (true, s') = ground arith in
      let agree : (x : String) → contains x recent ≡ seen_in x order = λ x. ground (
        arith,
        w.agree x,
        lookup-insert id x tt s.recent_messages,
        seen_in-append_last x id s.message_order,
        string_key.beq_iff id x,
      ) in
      let w' =
        evict-IsWindow s.max_recent_messages order recent agree
          (NoRepeats-append_last id s.message_order w.once (ground (arith, w.agree id))) in
      let bound = evict_limit s.max_recent_messages order recent in
      subst (Outcome id s) (sym step) (
        w',
        bound,
        ground (arith, w.agree id),
        ground (
          arith,
          w'.agree id,
          evict_last s.max_recent_messages s.message_order id recent,
          no_room id s' w',
          bound,
          record_message_new id s',
        ),
      )
]
