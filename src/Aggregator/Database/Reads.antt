-- ===== src/Aggregator/Database/Reads.antt =====
-- What is read back from a table of aggregator/database after any stores, for a kind of messages.
use mathlib.Core.Path.{subst}
use mathlib.Core.Option.{some-injective}
use near_sffl.Prelude.{
  ℕ, ◌≡◌, refl, sym, ap, ◌∙◌, ◌↔◌, inl, inr, List, [], ◌∷◌, true, Option, none, some, arith,
  if◌then◌else◌, Bool-cases, Option-cases, Outcome, ok, err, abort, ◌>>=◌, Outcome-cases,
  ok-injective, or_err,
}
use near_sffl.Dict.{IsMap}
use near_sffl.Errors.{Error, aggregation_not_found}
use near_sffl.Aggregator.Database.Orm.{Gorm, first_match}
use near_sffl.Aggregator.Database.Kinds.{
  Kind, keep_all, View, view, view_of, recorded, keep_all_lem,
}

or_err_iff {ℓ} :
    {A : Type ℓ} (o : Option A) (a : A) → (or_err o aggregation_not_found ≡ ok a) ↔ (o ≡ some a)
or_err_iff none a = (λ h. absurd (ground arith), λ h. absurd (ground arith))
or_err_iff (some x) a = (λ h. ap some (ok-injective x a h), λ h. ap ok (some-injective x a h))

-- The abstract store of a kind of messages: the first message of a key, and its last aggregation.
module _ (k : Kind) where
  unfoldable pub first_message : k.Key → List (k.Message × k.Aggregation) → Option k.Message
  first_message q [] = none
  first_message q ((m, a) ∷ ops) =
      let later = first_message q ops in if k.has_key q m then some m else later

  -- The second one stands where there is no first.
  abbrev or_else : Option k.Aggregation → Option k.Aggregation → Option k.Aggregation
  or_else (some a) b = some a
  or_else none b = b

  unfoldable pub last_aggregation : k.Key → List (k.Message × k.Aggregation) → Option k.Aggregation
  last_aggregation q [] = none
  last_aggregation q ((m, a) ∷ ops) =
      or_else (last_aggregation q ops) (if k.has_key q m then some a else none)

  abbrev shown : Option k.Message → Option k.Aggregation → View k
  shown none a = none
  shown (some m) a = some (m, a)

  or_else_assoc : (a b c : Option k.Aggregation) → or_else (or_else a b) c ≡ or_else a (or_else b c)
  or_else_assoc none b c = refl
  or_else_assoc (some a) b c = refl

  or_else-none : (a : Option k.Aggregation) → or_else a none ≡ a
  or_else-none none = refl
  or_else-none (some a) = refl

  recorded-some :
      (q : k.Key) (ops : List (k.Message × k.Aggregation)) (m : k.Message)
      (a : Option k.Aggregation)
      → recorded k q ops (some (m, a)) ≡ some (m, or_else (last_aggregation q ops) a)
  unfolding recorded last_aggregation
  recorded-some q [] m a = refl
  recorded-some q ((n, b) ∷ ops) m a = elim (Bool-cases (k.has_key q n)) [
    | inl p ↦
        rw (p, or_else_assoc (last_aggregation q ops) (some b) a) (recorded-some q ops m (some b))
    | inr p ↦ rw (p, or_else-none (last_aggregation q ops)) (recorded-some q ops m a)
  ]

  recorded-none :
      (q : k.Key) (ops : List (k.Message × k.Aggregation))
      → recorded k q ops none ≡ shown (first_message q ops) (last_aggregation q ops)
  unfolding recorded last_aggregation first_message
  recorded-none q [] = refl
  recorded-none q ((n, b) ∷ ops) = elim (Bool-cases (k.has_key q n)) [
    | inl p ↦ rw p (recorded-some q ops n (some b))
    | inr p ↦ rw (p, or_else-none (last_aggregation q ops)) (recorded-none q ops)
  ]

  none-last_aggregation :
      (q : k.Key) (ops : List (k.Message × k.Aggregation))
      → first_message q ops ≡ none
      → last_aggregation q ops ≡ none
  unfolding last_aggregation first_message
  none-last_aggregation q [] h = refl
  none-last_aggregation q ((n, b) ∷ ops) h = elim (Bool-cases (k.has_key q n)) [
    | inl p ↦ let w : some n ≡ none = rw p at h in absurd (ground arith)
    | inr p ↦ rw (p, none-last_aggregation q ops (rw p at h)) refl
  ]

  -- Where there is a first message there is a last aggregation.
  pub last_of_first :
      (q : k.Key) (ops : List (k.Message × k.Aggregation)) (m : k.Message)
      → first_message q ops ≡ some m
      → (a : k.Aggregation) × (last_aggregation q ops ≡ some a)
  unfolding last_aggregation first_message
  last_of_first q [] m h = absurd (ground arith)
  last_of_first q ((n, b) ∷ ops) m h = elim (Option-cases (last_aggregation q ops)) [
    | inr (a, l) ↦ (a, rw l refl)
    | inl l ↦ elim (Bool-cases (k.has_key q n)) [
      | inl p ↦ (b, rw (l, p) refl)
      | inr p ↦
          let (a, l') = last_of_first q ops m (rw p at h) in
          let w : none ≡ some a = sym l ∙ l' in absurd (ground arith)
    ]
  ]

  -- The message and the aggregation that a key's view holds.
  abbrev message_in : View k → Option k.Message
  message_in none = none
  message_in (some (m, a)) = some m

  abbrev aggregation_in : View k → Option k.Aggregation
  aggregation_in none = none
  aggregation_in (some (m, a)) = a

  message_in-shown : (m : Option k.Message) (a : Option k.Aggregation) → message_in (shown m a) ≡ m
  message_in-shown none a = refl
  message_in-shown (some m) a = refl

  aggregation_in-shown :
      (m : Option k.Message) (a : Option k.Aggregation)
      → (m ≡ none → a ≡ none)
      → aggregation_in (shown m a) ≡ a
  aggregation_in-shown none a h = sym (h refl)
  aggregation_in-shown (some m) a h = refl

  module _ (g : Gorm k.Row) (t : g.Table) (up : g.is_up t ≡ true) (q : k.Key) where
    -- A read of the row at a key, and of something in it.
    read_iff {ℓ} :
        {A : Type ℓ} (part : View k → Option A) (read : k.Row → Outcome Error A)
        → ((id : ℕ) (row : k.Row) (a : A)
            → (read row ≡ ok a) ↔ (part (view_of k (some (id, row))) ≡ some a))
        → (part none ≡ none)
        → (a : A)
        → ((g.first (k.condition q) t >>= read) ≡ ok a) ↔ (part (view k q (g.rows t)) ≡ some a)
    unfolding view
    read_iff part read inside nothing a = (
      λ h. elim (Outcome-cases (g.first (k.condition q) t)) [
        | inr (inl (x, e)) ↦ let w : err x ≡ ok a = rw (e, ◌>>=◌) at h in absurd (ground arith)
        | inr (inr e) ↦ let w : abort ≡ ok a = rw (e, ◌>>=◌) at h in absurd (ground arith)
        | inl (row, e) ↦
            let (id, f) = g.first_lem (k.condition q) t row e in
            ap (λ x. part (view_of k x)) f ∙ (inside id row a).0 (rw (e, ◌>>=◌) at h)
      ],
      λ h. elim (Option-cases (first_match (k.condition q) (g.rows t))) [
        | inl n ↦
            let w : none ≡ some a = sym nothing ∙ sym (ap (λ x. part (view_of k x)) n) ∙ h in
            absurd (ground arith)
        | inr ((id, row), f) ↦
            ap (λ x. x >>= read) (g.first_up (k.condition q) t id row up f)
            ∙ (inside id row a).1 (sym (ap (λ x. part (view_of k x)) f) ∙ h)
      ],
    )

  -- From an empty table and stores that all succeed, a key reads as the first message stored for it
  -- and the last aggregation.
  pub reads_refine :
      (g : Gorm k.Row) (ops : List (k.Message × k.Aggregation)) (t t' : g.Table) (q : k.Key)
      → g.rows t ≡ []
      → keep_all k g ops t ≡ ok t'
      → g.is_up t' ≡ true
      → ((m : k.Message)
          → ((g.first (k.condition q) t' >>= λ row. ok (k.to_message row)) ≡ ok m)
            ↔ (first_message q ops ≡ some m))
        × ((a : k.Aggregation)
            → ((g.first (k.condition q) t' >>= λ row.
                  or_err (k.aggregation row) aggregation_not_found)
                ≡ ok a)
              ↔ (last_aggregation q ops ≡ some a))
  unfolding view first_match
  reads_refine g ops t t' q empty stored up =
      let shows : view k q (g.rows t') ≡ shown (first_message q ops) (last_aggregation q ops) =
        keep_all_lem k g ops t t' (subst IsMap (sym empty) tt) stored q
        ∙ ap (λ rows. recorded k q ops (view k q rows)) empty
        ∙ recorded-none q ops in
      (
        λ m.
            let message : message_in (view k q (g.rows t')) ≡ first_message q ops =
              ap message_in shows
              ∙ message_in-shown (first_message q ops) (last_aggregation q ops) in
            subst
              (λ x.
                ((g.first (k.condition q) t' >>= λ row. ok (k.to_message row)) ≡ ok m)
                ↔ (x ≡ some m))
              message
              (read_iff g t' up q message_in (λ row. ok (k.to_message row))
                (λ id row x. (
                  λ e. ap some (ok-injective (k.to_message row) x e),
                  λ e. ap ok (some-injective (k.to_message row) x e),
                ))
                refl m),
        λ a.
            let aggregation : aggregation_in (view k q (g.rows t')) ≡ last_aggregation q ops =
              ap aggregation_in shows
              ∙ aggregation_in-shown (first_message q ops) (last_aggregation q ops)
                  (none-last_aggregation q ops) in
            subst
              (λ x.
                ((g.first (k.condition q) t' >>= λ row.
                or_err (k.aggregation row) aggregation_not_found)
                  ≡ ok a)
                ↔ (x ≡ some a))
              aggregation
              (read_iff g t' up q aggregation_in
                (λ row. or_err (k.aggregation row) aggregation_not_found)
                (λ id row x. or_err_iff (k.aggregation row) x) refl a),
      )
