-- ===== src/Database/Policy.antt =====
-- Rules for updates of tables, crates/agilang-database-policy/src/lib.rs. A text is the list of its
-- UTF-8 bytes.
use agilang_native.Base.{
  ◌≡◌, Bool, true, false, not, ◌&&◌, ◌||◌, Option, none, some, List, [], ◌∷◌, ℕ, arith, Result, ok,
  err, is_ok, if◌then◌else◌, Option-cases, inl, inr,
}
use agilang_native.Base.Key.{◌==◌, list_key}

pub record TableConstraint : Type 0 where
  pub table : List ℕ
  pub allow_select : Bool
  pub allow_insert : Bool
  pub allow_update : Bool
  pub allow_delete : Bool
  pub blocked_columns : List (List ℕ)

pub data PolicyFault : Type 0 where
  updates_disabled : List ℕ → PolicyFault
  column_restricted : List ℕ → PolicyFault

-- `constraints.iter().find(|c| c.table == table)`
unfoldable pub rule_for : List ℕ → List TableConstraint → Option TableConstraint
rule_for table [] = none
rule_for table (c ∷ cs) = if c.table == table then some c else rule_for table cs

-- `blocked_columns.contains(col)`
unfoldable pub blocks : List (List ℕ) → List ℕ → Bool
blocks [] column = false
blocks (b ∷ bs) column = b == column || blocks bs column

-- the loop over the columns
unfoldable pub check_columns : TableConstraint → List (List ℕ) → Result PolicyFault (Unit {0})
unfolding blocks
check_columns rule [] = ok tt
check_columns rule (column ∷ columns) =
    let rest = check_columns rule columns in
    if blocks rule.blocked_columns column then err (PolicyFault.column_restricted column) else rest

unfoldable pub authorize_update :
    List ℕ → List (List ℕ) → List TableConstraint → Result PolicyFault (Unit {0})
unfolding rule_for check_columns
authorize_update table columns constraints = elim (rule_for table constraints) [
  | none ↦ ok tt
  | some rule ↦
      if rule.allow_update
      then check_columns rule columns
      else err (PolicyFault.updates_disabled table)
]

-- whether a rule lets some columns be updated
unfoldable pub permits : TableConstraint → List (List ℕ) → Bool
permits rule [] = rule.allow_update
permits rule (column ∷ columns) = not (blocks rule.blocked_columns column) && permits rule columns

check_columns_iff :
    (rule : TableConstraint) (columns : List (List ℕ))
    → rule.allow_update ≡ true
    → is_ok (check_columns rule columns) ≡ permits rule columns
unfolding check_columns permits
check_columns_iff rule [] h = ground arith
check_columns_iff rule (column ∷ columns) h = ground (arith, check_columns_iff rule columns h)

permits_disabled :
    (rule : TableConstraint) (columns : List (List ℕ))
    → rule.allow_update ≡ false
    → permits rule columns ≡ false
unfolding permits
permits_disabled rule [] h = h
permits_disabled rule (column ∷ columns) h = ground (arith, permits_disabled rule columns h)

-- An update is authorized exactly if the first rule of the table, where there is one, allows updates
-- and blocks none of the columns.
pub authorize_update_iff :
    (table : List ℕ) (columns : List (List ℕ)) (constraints : List TableConstraint)
    → is_ok (authorize_update table columns constraints)
      ≡ (elim (rule_for table constraints) [ none ↦ true | some rule ↦ permits rule columns ])
unfolding authorize_update
authorize_update_iff table columns constraints = elim (Option-cases (rule_for table constraints)) [
  | inl missing ↦ ground arith
  | inr (rule, found) ↦
      ground (arith, check_columns_iff rule columns, permits_disabled rule columns)
]
