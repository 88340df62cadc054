-- ===== src/Aggregator/Database/Orm.antt =====
-- What aggregator/database takes from gorm, for a table of rows with a primary key. The laws are
-- those of its documentation, of a call that succeeds; any call may fail.
use mathlib.Core.List.{Perm}
use near_sffl.Prelude.{
  ℕ, ◌≡◌, ◌⊎◌, List, [], ◌∷◌, ◌++◌, Bool, true, false, Option, none, some, if◌then◌else◌, Outcome,
  ok, err,
}
use near_sffl.Dict.{Dict, insert, has}
use near_sffl.Errors.{Error}

module _ {ℓ} {Row : Type ℓ} where
  -- The first row in the table that meets the condition, with its primary key.
  unfoldable pub first_match : (Row → Bool) → Dict Row → Option (ℕ × Row)
  first_match condition [] = none
  first_match condition ((id, row) ∷ rows) =
      let rest = first_match condition rows in if condition row then some (id, row) else rest

  -- All rows that meet the condition.
  unfoldable pub matches : (Row → Bool) → Dict Row → List Row
  matches condition [] = []
  matches condition ((id, row) ∷ rows) =
      let rest = matches condition rows in if condition row then row ∷ rest else rest

pub record Gorm (Row : Type 0) : Type 1 where
  pub Table : Type 0
  -- The rows by primary key, in the order of the keys.
  pub rows : Table → Dict Row
  -- `Where(…).First(&model)`
  pub first : (Row → Bool) → Table → Outcome Error Row
  -- `Where(…).FirstOrCreate(&model)`
  pub first_or_create : (Row → Bool) → Row → Table → Outcome Error ((ℕ × Row) × Table)
  -- `Model(model).Association(…).Replace(…)` writes the row of the model's primary key.
  pub replace : ℕ → Row → Table → Outcome Error Table
  -- `Where(…).Find(&models)`
  pub find : (Row → Bool) → Table → Outcome Error (List Row)
  -- The database answers what is asked of the table now.
  pub is_up : Table → Bool
  pub first_lem :
      (condition : Row → Bool) (t : Table) (row : Row)
      → first condition t ≡ ok row
      → (id : ℕ) × (first_match condition (rows t) ≡ some (id, row))
  pub first_up :
      (condition : Row → Bool) (t : Table) (id : ℕ) (row : Row)
      → is_up t ≡ true
      → first_match condition (rows t) ≡ some (id, row)
      → first condition t ≡ ok row
  -- ErrRecordNotFound, or another error.
  pub first_err :
      (condition : Row → Bool) (t : Table)
      → first_match condition (rows t) ≡ none
      → (e : Error) × (first condition t ≡ err e)
  pub first_or_create_lem :
      (condition : Row → Bool) (row : Row) (t t' : Table) (id : ℕ) (row' : Row)
      → first_or_create condition row t ≡ ok ((id, row'), t')
      → ((first_match condition (rows t) ≡ some (id, row')) × (rows t' ≡ rows t))
        ⊎ ((first_match condition (rows t) ≡ none)
            × (row' ≡ row)
            × (has id (rows t) ≡ false)
            × (rows t' ≡ rows t ++ (id, row) ∷ []))
  pub replace_lem :
      (id : ℕ) (row : Row) (t t' : Table)
      → replace id row t ≡ ok t'
      → rows t' ≡ insert id row (rows t)
  -- In whatever order.
  pub find_lem :
      (condition : Row → Bool) (t : Table) (found : List Row)
      → find condition t ≡ ok found
      → Perm found (matches condition (rows t))
  pub find_up :
      (condition : Row → Bool) (t : Table)
      → is_up t ≡ true
      → (found : List Row) × (find condition t ≡ ok found)
