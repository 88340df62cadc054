-- ===== src/Examples/Tables.antt =====
-- A database of tables in memory, for the examples, with the laws that the program relies on.
use mathlib.Core.Path.{subst}
use mathlib.Core.List.{Perm}
use mathlib.Core.List.Perm
use near_sffl.Prelude.{
  ℕ, suc, max, ◌≡◌, ◌≤◌, refl, sym, ap, ◌∙◌, inl, inr, ◌⊎◌, List, [], ◌∷◌, ◌++◌, Bool, true, false,
  Option, none, some, arith, Outcome, ok, err, ok-injective,
}
use near_sffl.Dict.{Dict, insert, has}
use near_sffl.Errors.{Error, external}
use near_sffl.Aggregator.Database.Orm.{Gorm, first_match, matches}

module _ {Row : Type 0} where
  abbrev pub next_id : Dict Row → ℕ
  next_id [] = 1
  next_id ((id, row) ∷ rows) = max (suc id) (next_id rows)

  has-le_next : (k : ℕ) (rows : Dict Row) → next_id rows ≤ k → has k rows ≡ false
  unfolding has
  has-le_next k [] h = refl
  has-le_next k ((j, row) ∷ rows) h = ground (arith, has-le_next k rows)

  abbrev pub found_first : Option (ℕ × Row) → Outcome Error Row
  found_first none = err (external 404)
  found_first (some (id, row)) = ok row

  abbrev pub found_or_created :
      Option (ℕ × Row) → Row → Dict Row → Outcome Error ((ℕ × Row) × Dict Row)
  found_or_created none row rows = ok ((next_id rows, row), rows ++ (next_id rows, row) ∷ [])
  found_or_created (some found) row rows = ok (found, rows)

  found_first_lem :
      (o : Option (ℕ × Row)) (row : Row) → found_first o ≡ ok row → (id : ℕ) × (o ≡ some (id, row))
  found_first_lem none row h = absurd (ground arith)
  found_first_lem (some (id, x)) row h = (id, ap (λ y. some (id, y)) (ok-injective x row h))

  pub memory_first_lem :
      (condition : Row → Bool) (t : Dict Row) (row : Row)
      → found_first (first_match condition t) ≡ ok row
      → (id : ℕ) × (first_match condition t ≡ some (id, row))
  memory_first_lem condition t row h = found_first_lem (first_match condition t) row h

  pub memory_first_up :
      (condition : Row → Bool) (t : Dict Row) (id : ℕ) (row : Row)
      → true ≡ true
      → first_match condition t ≡ some (id, row)
      → found_first (first_match condition t) ≡ ok row
  memory_first_up condition t id row up h = ap found_first h

  pub memory_first_err :
      (condition : Row → Bool) (t : Dict Row)
      → first_match condition t ≡ none
      → (e : Error) × (found_first (first_match condition t) ≡ err e)
  memory_first_err condition t h = (external 404, ap found_first h)

  created_lem :
      (o : Option (ℕ × Row)) (row : Row) (t t' : Dict Row) (id : ℕ) (row' : Row)
      → found_or_created o row t ≡ ok ((id, row'), t')
      → ((o ≡ some (id, row')) × (t' ≡ t))
        ⊎ ((o ≡ none) × (row' ≡ row) × (has id t ≡ false) × (t' ≡ t ++ (id, row) ∷ []))
  created_lem none row t t' id row' h =
      let e = ok-injective ((next_id t, row), t ++ (next_id t, row) ∷ []) ((id, row'), t') h in
      let same : next_id t ≡ id = ap (λ x. x.0.0) e in
      inr (
        refl,
        sym (ap (λ x. x.0.1) e),
        has-le_next id t (omega (arith, same)),
        sym (ap (λ x. x.1) e) ∙ ap (λ x. t ++ (x, row) ∷ []) same,
      )
  created_lem (some found) row t t' id row' h =
      let e = ok-injective (found, t) ((id, row'), t') h in
      inl (ap (λ x. some x.0) e, sym (ap (λ x. x.1) e))

  pub memory_created_lem :
      (condition : Row → Bool) (row : Row) (t t' : Dict Row) (id : ℕ) (row' : Row)
      → found_or_created (first_match condition t) row t ≡ ok ((id, row'), t')
      → ((first_match condition t ≡ some (id, row')) × (t' ≡ t))
        ⊎ ((first_match condition t ≡ none)
            × (row' ≡ row)
            × (has id t ≡ false)
            × (t' ≡ t ++ (id, row) ∷ []))
  memory_created_lem condition row t t' id row' h =
      created_lem (first_match condition t) row t t' id row' h

  pub memory_replace_lem :
      (id : ℕ) (row : Row) (t t' : Dict Row)
      → ◌≡◌ {A = Outcome Error (Dict Row)} (ok (insert id row t)) (ok t')
      → t' ≡ insert id row t
  memory_replace_lem id row t t' h = sym (ok-injective (insert id row t) t' h)

  pub memory_find_lem :
      (condition : Row → Bool) (t : Dict Row) (found : List Row)
      → ◌≡◌ {A = Outcome Error (List Row)} (ok (matches condition t)) (ok found)
      → Perm found (matches condition t)
  memory_find_lem condition t found h =
      subst (λ x. Perm x (matches condition t)) (ok-injective (matches condition t) found h)
        (Perm.rfl {l = matches condition t})

abbrev pub memory : (Row : Type 0) → Gorm Row
memory Row = record {
  Table = Dict Row;
  rows = λ t. t;
  first = λ condition t. found_first (first_match condition t);
  first_or_create = λ condition row t. found_or_created (first_match condition t) row t;
  replace = λ id row t. ok (insert id row t);
  find = λ condition t. ok (matches condition t);
  is_up = λ t. true;
  first_lem = memory_first_lem;
  first_up = memory_first_up;
  first_err = memory_first_err;
  first_or_create_lem = memory_created_lem;
  replace_lem = memory_replace_lem;
  find_lem = memory_find_lem;
  find_up = λ condition t up. (matches condition t, refl);
}
