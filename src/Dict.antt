-- ===== src/Dict.antt =====
-- Go maps with native keys, as association lists. The order of the list is an order in which
-- `range` may visit the map.
use mathlib.Core.Option.{some-injective}
use near_sffl.Prelude.{
  ℕ, ◌≡◌, refl, inl, inr, List, [], ◌∷◌, Option, none, some, Bool, true, false, arith, ◌==◌,
  if◌then◌else◌, ◌||◌, ◌&&◌, not, ==_iff, ◌⊎◌, Bool-cases, map, ap, ==_refl, ==_ne,
}

abbrev pub Dict {ℓ} : Type ℓ → Type ℓ
Dict V = List (ℕ × V)

-- Reads and writes.
module _ {ℓ} {V : Type ℓ} where
  -- `v, ok := m[k]`
  unfoldable pub lookup : ℕ → Dict V → Option V
  lookup key [] = none
  lookup key ((k, value) ∷ entries) = if k == key then some value else lookup key entries

  -- `m[k] = v`
  unfoldable pub insert : ℕ → V → Dict V → Dict V
  insert key value [] = (key, value) ∷ []
  insert key value ((k, old) ∷ entries) =
      let others = insert key value entries in
      if k == key then (key, value) ∷ entries else (k, old) ∷ others

  -- `delete(m, k)`
  unfoldable pub delete : ℕ → Dict V → Dict V
  delete k [] = []
  delete k ((j, w) ∷ m) = let rest = delete k m in if j == k then rest else (j, w) ∷ rest

  pub lookup-insert :
      (written read : ℕ) (value : V) (entries : Dict V)
      → lookup read (insert written value entries)
        ≡ (if written == read then some value else lookup read entries)
  unfolding lookup insert
  lookup-insert written read value [] = refl
  lookup-insert written read value (e ∷ entries) =
      ground (arith, lookup-insert written read value entries)

  pub lookup-delete :
      (k j : ℕ) (m : Dict V) → lookup j (delete k m) ≡ (if k == j then none else lookup j m)
  unfolding lookup delete
  lookup-delete k j [] = ground arith
  lookup-delete k j ((i, w) ∷ m) = ground (arith, lookup-delete k j m)

  pub lookup-insert_self : (k : ℕ) (v : V) (m : Dict V) → lookup k (insert k v m) ≡ some v
  lookup-insert_self k v m = rw (lookup-insert k k v m, ==_refl k)

  pub lookup-insert_ne :
      (k j : ℕ) (v : V) (m : Dict V) → ¬ (k ≡ j) → lookup j (insert k v m) ≡ lookup j m
  lookup-insert_ne k j v m h = rw (lookup-insert k j v m, ==_ne k j h)

  -- Keys with different values differ.
  pub ne_of_lookup :
      (k j : ℕ) (m : Dict V) {v : V} → lookup k m ≡ none → lookup j m ≡ some v → ¬ (k ≡ j)
  ne_of_lookup k j m h g e = cc (ap (λ i. lookup i m) e)

  pub same_value :
      (k j : ℕ) (m : Dict V) {v w : V} → k ≡ j → lookup k m ≡ some v → lookup j m ≡ some w → v ≡ w
  same_value k j m e h g = cc (ap (λ i. lookup i m) e)

  -- `_, ok := m[k]`
  unfoldable pub has : ℕ → Dict V → Bool
  has k [] = false
  has k ((j, v) ∷ m) = j == k || has k m

  pub has-insert : (k j : ℕ) (v : V) (m : Dict V) → has j (insert k v m) ≡ (k == j || has j m)
  unfolding has insert
  has-insert k j v [] = refl
  has-insert k j v ((i, w) ∷ m) = ground (arith, has-insert k j v m)

  pub lookup_of_has : (k : ℕ) (m : Dict V) → has k m ≡ true → (v : V) × (lookup k m ≡ some v)
  unfolding has lookup
  lookup_of_has k [] h = absurd (cc)
  lookup_of_has k ((j, v) ∷ m) h = elim (Bool-cases (j == k)) [
    | inl e ↦ (v, rw e)
    | inr e ↦ let (w, p) = lookup_of_has k m (rw e at h) in (w, rw e p)
  ]

  pub has_of_lookup : (k : ℕ) (m : Dict V) {v : V} → lookup k m ≡ some v → has k m ≡ true
  unfolding has lookup
  has_of_lookup k [] h = cc
  has_of_lookup k ((j, w) ∷ m) {v} h = ground (arith, has_of_lookup k m {v = v})

  pub lookup_of_not_has : (k : ℕ) (m : Dict V) → has k m ≡ false → lookup k m ≡ none
  unfolding has lookup
  lookup_of_not_has k [] h = refl
  lookup_of_not_has k ((j, w) ∷ m) h = ground (arith, lookup_of_not_has k m)

  pub keys : Dict V → List ℕ
  keys m = map (λ e. e.0) m

  -- A Go map holds a key once.
  abbrev pub IsMap : Dict V → Type 0
  IsMap [] = Unit {0}
  IsMap ((k, v) ∷ m) = (has k m ≡ false) × IsMap m

  pub has-delete : (k j : ℕ) (m : Dict V) → has j (delete k m) ≡ (has j m && not (j == k))
  unfolding has delete
  has-delete k j [] = refl
  has-delete k j ((i, v) ∷ m) = ground (arith, has-delete k j m)

  pub insert-IsMap : (k : ℕ) (v : V) (m : Dict V) → IsMap m → IsMap (insert k v m)
  unfolding insert has
  insert-IsMap k v [] h = (refl, tt)
  insert-IsMap k v ((j, w) ∷ m) h = ground (arith, insert-IsMap k v m h.1, has-insert k j v m)

pub ruleset dict_laws = (lookup-insert, lookup-delete)

module _ {ℓ} {V : Type ℓ} where
  -- A value that is found after a write is the one written, or was there before.
  pub insert-cases :
      (k j : ℕ) (v w : V) (m : Dict V)
      → lookup j (insert k v m) ≡ some w
      → ((k ≡ j) × (v ≡ w)) ⊎ (lookup j m ≡ some w)
  insert-cases k j v w m h = elim (Bool-cases (k == j)) [
    | inl e ↦ inl ((==_iff k j).0 e, some-injective v w (rw (lookup-insert k j v m, e) at h))
    | inr e ↦ inr (rw (lookup-insert k j v m, e) at h)
  ]

  -- What is there before a write of another key is there after it.
  pub kept_by_insert :
      (k j : ℕ) (v w : V) (m : Dict V)
      → lookup j m ≡ some w
      → (u : V) × (lookup j (insert k v m) ≡ some u)
  kept_by_insert k j v w m h = elim (Bool-cases (k == j)) [
    | inl e ↦ (v, rw (lookup-insert k j v m, e) refl)
    | inr e ↦ (w, rw (lookup-insert k j v m, e) h)
  ]
