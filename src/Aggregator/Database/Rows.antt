-- ===== src/Aggregator/Database/Rows.antt =====
-- Rows by primary key, as aggregator/database writes them.
use near_sffl.Prelude.{
  ℕ, ◌≡◌, refl, inl, inr, [], ◌∷◌, ◌++◌, Bool, true, false, Option, none, some, arith, ◌==◌, ◌||◌,
  if◌then◌else◌, Bool-cases, ==_iff,
}
use mathlib.Core.Path.{subst}
use near_sffl.Dict.{Dict, lookup, insert, has, IsMap, has_of_lookup}
use near_sffl.Aggregator.Database.Orm.{first_match}

module _ {ℓ} {Row : Type ℓ} where
  -- An entry, with another row if its primary key is the one given.
  abbrev pub with_row : ℕ → Row → Option (ℕ × Row) → Option (ℕ × Row)
  with_row id row none = none
  with_row id row (some (j, other)) = some (j, if j == id then row else other)

  pub first_match_ne :
      (condition : Row → Bool) (id : ℕ) (row : Row) (rows : Dict Row)
      → has id rows ≡ false
      → with_row id row (first_match condition rows) ≡ first_match condition rows
  unfolding first_match has
  first_match_ne condition id row [] h = refl
  first_match_ne condition id row ((j, other) ∷ rows) h =
      ground (arith, first_match_ne condition id row rows)

  -- Where a row is replaced by one that meets the same condition or also does not, the first match
  -- is the same, with the new row if it is that one.
  pub first_match-insert :
      (condition : Row → Bool) (id : ℕ) (old new : Row) (rows : Dict Row)
      → IsMap rows
      → lookup id rows ≡ some old
      → condition old ≡ condition new
      → first_match condition (insert id new rows) ≡ with_row id new (first_match condition rows)
  unfolding first_match insert lookup
  first_match-insert condition id old new [] m l c = absurd (ground arith)
  first_match-insert condition id old new ((j, other) ∷ rows) (fresh, m) l c =
      elim (Bool-cases (j == id)) [
        | inl p ↦
            let gone : has id rows ≡ false =
              subst (λ k. has k rows ≡ false) ((==_iff j id).0 p) fresh in
            ground (arith, first_match_ne condition id new rows gone)
        | inr p ↦
            ground (arith, first_match-insert condition id old new rows m (rw (p, lookup) at l) c)
      ]

  pub first_match-append :
      (condition : Row → Bool) (id : ℕ) (new : Row) (rows : Dict Row)
      → first_match condition rows ≡ none
      → first_match condition (rows ++ (id, new) ∷ [])
        ≡ (if condition new then some (id, new) else none)
  unfolding first_match
  first_match-append condition id new [] h = refl
  first_match-append condition id new ((j, other) ∷ rows) h =
      ground (arith, first_match-append condition id new rows)

  pub lookup_of_first_match :
      (condition : Row → Bool) (id : ℕ) (row : Row) (rows : Dict Row)
      → IsMap rows
      → first_match condition rows ≡ some (id, row)
      → (lookup id rows ≡ some row) × (condition row ≡ true)
  unfolding first_match lookup
  lookup_of_first_match condition id row [] m h = absurd (ground arith)
  lookup_of_first_match condition id row ((j, other) ∷ rows) (fresh, m) h =
      elim (Bool-cases (condition other)) [
        | inl p ↦ ground arith
        | inr p ↦
            let (l, c) = lookup_of_first_match condition id row rows m (rw p at h) in
            let apart : j == id ≡ false = elim (Bool-cases (j == id)) [
              | inr q ↦ q
              | inl q ↦ cc (
                has_of_lookup id rows l,
                subst (λ k. has k rows ≡ false) ((==_iff j id).0 q) fresh,
              )
            ] in
            (rw (apart, lookup) l, c)
      ]

  pub first_match-append_ne :
      (condition : Row → Bool) (id : ℕ) (new : Row) (rows : Dict Row)
      → condition new ≡ false
      → first_match condition (rows ++ (id, new) ∷ []) ≡ first_match condition rows
  unfolding first_match
  first_match-append_ne condition id new [] h = rw h refl
  first_match-append_ne condition id new ((j, other) ∷ rows) h =
      rw (first_match-append_ne condition id new rows h) refl

  has-append :
      (k id : ℕ) (new : Row) (rows : Dict Row)
      → has k (rows ++ (id, new) ∷ []) ≡ (has k rows || id == k)
  unfolding has
  has-append k id new [] = ground arith
  has-append k id new ((j, other) ∷ rows) = ground (arith, has-append k id new rows)

  pub append-IsMap :
      (id : ℕ) (new : Row) (rows : Dict Row)
      → has id rows ≡ false
      → IsMap rows
      → IsMap (rows ++ (id, new) ∷ [])
  unfolding has
  append-IsMap id new [] h m = (refl, tt)
  append-IsMap id new ((j, other) ∷ rows) h (fresh, m) =
      ground (arith, has-append j id new rows, append-IsMap id new rows)
