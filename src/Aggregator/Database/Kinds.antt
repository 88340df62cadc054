-- ===== src/Aggregator/Database/Kinds.antt =====
-- What a table of aggregator/database keeps of the messages of a kind and their aggregations, told
-- by message keys alone.
use mathlib.Core.Path.{subst}
use near_sffl.Prelude.{
  ℕ, ◌≡◌, refl, sym, ap, ◌∙◌, ◌↔◌, inl, inr, List, [], ◌∷◌, ◌++◌, Bool, true, false, Option, none,
  some, arith, ◌==◌, if◌then◌else◌, Bool-cases, Option-cases, Outcome, ok, err, abort, ◌>>=◌,
  Outcome-cases, ok-injective, ==_iff, ==_refl,
}
use near_sffl.Dict.{Dict, insert, has, IsMap, insert-IsMap, same_value}
use near_sffl.Errors.{Error}
use near_sffl.Aggregator.Database.Orm.{Gorm, first_match}
use near_sffl.Aggregator.Database.Rows.{
  first_match-insert, first_match-append, first_match-append_ne, lookup_of_first_match,
  append-IsMap,
}

-- A kind of messages with its rows.
pub record Kind : Type 1 where
  pub Message : Type 0
  pub Aggregation : Type 0
  pub Row : Type 0
  pub Key : Type 0
  pub key : Message → Key
  -- The message has that key.
  pub has_key : Key → Message → Bool
  pub condition : Key → Row → Bool
  pub new_row : Message → Row
  pub to_message : Row → Message
  pub aggregation : Row → Option Aggregation
  pub with_aggregation : Aggregation → Row → Row
  pub has_key_iff : (q : Key) (m : Message) → (has_key q m ≡ true) ↔ (q ≡ key m)
  pub condition_lem : (q : Key) (r : Row) → condition q r ≡ has_key q (to_message r)
  pub to_message-new_row : (m : Message) → to_message (new_row m) ≡ m
  pub aggregation-new_row : (m : Message) → aggregation (new_row m) ≡ none
  pub to_message-with :
      (a : Aggregation) (r : Row) → to_message (with_aggregation a r) ≡ to_message r
  pub aggregation-with : (a : Aggregation) (r : Row) → aggregation (with_aggregation a r) ≡ some a

module _ (k : Kind) where
  open k use {
    Message, Aggregation, Row, Key, key, has_key, condition, new_row, to_message, aggregation,
    with_aggregation, has_key_iff, condition_lem, to_message-new_row, aggregation-new_row,
    to_message-with, aggregation-with,
  }

  -- A store of a message and of its aggregation, as after a quorum.
  unfoldable pub keep : (g : Gorm Row) → Message × Aggregation → g.Table → Outcome Error g.Table
  keep g (m, a) t = do
    stored ← g.first_or_create (condition (key m)) (new_row m) t
    g.replace stored.0.0 (with_aggregation a stored.0.1) stored.1

  unfoldable pub keep_all :
      (g : Gorm Row) → List (Message × Aggregation) → g.Table → Outcome Error g.Table
  unfolding keep
  keep_all g [] t = ok t
  keep_all g (op ∷ ops) t = do t' ← keep g op t; keep_all g ops t'

  -- The abstract view: what there is at a key.
  abbrev pub View : Type 0
  View = Option (Message × Option Aggregation)

  abbrev pub view_of : Option (ℕ × Row) → View
  view_of none = none
  view_of (some (id, row)) = some (to_message row, aggregation row)

  unfoldable pub view : Key → Dict Row → View
  view q rows = view_of (first_match (condition q) rows)

  -- The same on the view: the first message stays, the aggregation is the new one.
  abbrev pub kept : View → Message → Aggregation → View
  kept none m a = some (m, some a)
  kept (some (first, old)) m a = some (first, some a)

  unfoldable pub recorded : Key → List (Message × Aggregation) → View → View
  recorded q [] v = v
  recorded q ((m, a) ∷ ops) v = recorded q ops (if has_key q m then kept v m a else v)

  -- A row has the key that its conditions look for.
  key_of_condition : (q : Key) (row : Row) → condition q row ≡ true → q ≡ key (to_message row)
  key_of_condition q row c = (has_key_iff q (to_message row)).0 (sym (condition_lem q row) ∙ c)

  -- A replaced row shows at the keys of its message only.
  view-insert :
      (q : Key) (m : Message) (a : Aggregation) (id : ℕ) (row : Row) (rows : Dict Row)
      → IsMap rows
      → first_match (condition (key m)) rows ≡ some (id, row)
      → view q (insert id (with_aggregation a row) rows)
        ≡ (if has_key q m then some (to_message row, some a) else view q rows)
  unfolding view
  view-insert q m a id row rows u h =
      let (l, c) = lookup_of_first_match (condition (key m)) id row rows u h in
      let new = with_aggregation a row in
      let same : condition q row ≡ condition q new =
        condition_lem q row ∙ sym (condition_lem q new ∙ ap (has_key q) (to_message-with a row)) in
      rw (first_match-insert (condition q) id row new rows u l same)
        (elim (Bool-cases (has_key q m)) [
          | inl p ↦
              let at : first_match (condition q) rows ≡ some (id, row) =
                subst (λ x. first_match (condition x) rows ≡ some (id, row))
                  (sym ((has_key_iff q m).0 p)) h in
              rw (p, at, ==_refl id, to_message-with a row, aggregation-with a row) refl
          | inr p ↦ elim (Option-cases (first_match (condition q) rows)) [
            | inl n ↦ rw (p, n) refl
            | inr ((j, other), n) ↦ elim (Bool-cases (j == id)) [
              | inr d ↦ rw (p, n, d) refl
              | inl d ↦
                  let (l', c') = lookup_of_first_match (condition q) j other rows u n in
                  let r : other ≡ row = same_value j id rows ((==_iff j id).0 d) l' l in
                  let found : q ≡ key (to_message row) =
                    key_of_condition q row (subst (λ x. condition q x ≡ true) r c') in
                  let there : has_key q m ≡ true =
                    (has_key_iff q m).1 (found ∙ sym (key_of_condition (key m) row c)) in
                  absurd (cc (there, p))
            ]
          ]
        ])

  -- A row that is created shows at the keys of its message only, where there was none.
  view-append :
      (q : Key) (m : Message) (id : ℕ) (rows : Dict Row)
      → first_match (condition (key m)) rows ≡ none
      → view q (rows ++ (id, new_row m) ∷ [])
        ≡ (if has_key q m then some (m, none) else view q rows)
  unfolding view
  view-append q m id rows h = elim (Bool-cases (has_key q m)) [
    | inl p ↦
        let met : condition q (new_row m) ≡ true =
          condition_lem q (new_row m) ∙ ap (has_key q) (to_message-new_row m) ∙ p in
        let none_before : first_match (condition q) rows ≡ none =
          subst (λ x. first_match (condition x) rows ≡ none) (sym ((has_key_iff q m).0 p)) h in
        rw
          (
            p,
            first_match-append (condition q) id (new_row m) rows none_before,
            met,
            to_message-new_row m,
            aggregation-new_row m,
          )
          refl
    | inr p ↦
        let unmet : condition q (new_row m) ≡ false =
          condition_lem q (new_row m) ∙ ap (has_key q) (to_message-new_row m) ∙ p in
        rw (p, first_match-append_ne (condition q) id (new_row m) rows unmet) refl
  ]

  -- The view at the key of a message, from the first row that meets the key's condition.
  view_at_key :
      (q : Key) (m : Message) (rows : Dict Row) (found : Option (ℕ × Row))
      → has_key q m ≡ true
      → first_match (condition (key m)) rows ≡ found
      → view q rows ≡ view_of found
  unfolding view
  view_at_key q m rows found p h =
      ap view_of
        (subst (λ x. first_match (condition x) rows ≡ found) (sym ((has_key_iff q m).0 p)) h)

  -- What a store leaves, found or created, before its aggregation is written.
  abbrev IsStored : Message → Aggregation → ℕ → Row → Dict Row → Dict Row → Type 0
  IsStored m a id row before after =
      IsMap after
      × (first_match (condition (key m)) after ≡ some (id, row))
      × ((q : Key)
          → (if has_key q m then some (to_message row, some a) else view q after)
            ≡ (if has_key q m then kept (view q before) m a else view q before))

  found-IsStored :
      (m : Message) (a : Aggregation) (id : ℕ) (row : Row) (rows : Dict Row)
      → IsMap rows
      → first_match (condition (key m)) rows ≡ some (id, row)
      → IsStored m a id row rows rows
  found-IsStored m a id row rows u h = (
    u,
    h,
    λ q. elim (Bool-cases (has_key q m)) [
      | inr p ↦ rw p refl
      | inl p ↦ rw (p, view_at_key q m rows (some (id, row)) p h) refl
    ],
  )

  created-IsStored :
      (m : Message) (a : Aggregation) (id : ℕ) (rows : Dict Row)
      → IsMap rows
      → first_match (condition (key m)) rows ≡ none
      → has id rows ≡ false
      → IsStored m a id (new_row m) rows (rows ++ (id, new_row m) ∷ [])
  created-IsStored m a id rows u h fresh =
      let met : condition (key m) (new_row m) ≡ true =
        condition_lem (key m) (new_row m)
        ∙ ap (has_key (key m)) (to_message-new_row m)
        ∙ (has_key_iff (key m) m).1 refl in
      (
        append-IsMap id (new_row m) rows fresh u,
        first_match-append (condition (key m)) id (new_row m) rows h
            ∙ ap (λ c. if c then some (id, new_row m) else none) met,
        λ q. elim (Bool-cases (has_key q m)) [
          | inr p ↦ rw (view-append q m id rows h, p) refl
          | inl p ↦ rw (p, view_at_key q m rows none p h, to_message-new_row m) refl
        ],
      )

  keep_lem :
      (g : Gorm Row) (m : Message) (a : Aggregation) (t t' : g.Table)
      → IsMap (g.rows t)
      → keep g (m, a) t ≡ ok t'
      → IsMap (g.rows t')
        × ((q : Key)
            → view q (g.rows t')
              ≡ (if has_key q m then kept (view q (g.rows t)) m a else view q (g.rows t)))
  unfolding keep
  keep_lem g m a t t' u h =
      elim (Outcome-cases (g.first_or_create (condition (key m)) (new_row m) t)) [
        | inr (inl (x, e)) ↦ let w : err x ≡ ok t' = rw (e, ◌>>=◌) at h in absurd (ground arith)
        | inr (inr e) ↦ let w : abort ≡ ok t' = rw (e, ◌>>=◌) at h in absurd (ground arith)
        | inl (((id, row), t1), e) ↦
            let new = with_aggregation a row in
            let written : g.replace id new t1 ≡ ok t' = rw (e, ◌>>=◌) at h in
            let s : IsStored m a id row (g.rows t) (g.rows t1) =
              elim (g.first_or_create_lem (condition (key m)) (new_row m) t t1 id row e) [
                | inl (f, same) ↦
                    subst (IsStored m a id row (g.rows t)) (sym same)
                      (found-IsStored m a id row (g.rows t) u f)
                | inr (n, r, fresh, after) ↦
                    subst (λ x. IsStored m a id x (g.rows t) (g.rows t1)) (sym r)
                      (subst (IsStored m a id (new_row m) (g.rows t)) (sym after)
                        (created-IsStored m a id (g.rows t) u n fresh))
              ] in
            let after : g.rows t' ≡ insert id new (g.rows t1) =
              g.replace_lem id new t1 t' written in
            (
              subst IsMap (sym after) (insert-IsMap id new (g.rows t1) s.0),
              λ q. ap (view q) after ∙ view-insert q m a id row (g.rows t1) s.0 s.1 ∙ s.2 q,
            )
      ]

  -- Where all stores succeed, a key shows what the same stores make of its view.
  pub keep_all_lem :
      (g : Gorm Row) (ops : List (Message × Aggregation)) (t t' : g.Table)
      → IsMap (g.rows t)
      → keep_all g ops t ≡ ok t'
      → (q : Key) → view q (g.rows t') ≡ recorded q ops (view q (g.rows t))
  unfolding keep_all recorded
  keep_all_lem g [] t t' u h q = ap (λ x. view q (g.rows x)) (sym (ok-injective t t' h))
  keep_all_lem g ((m, a) ∷ ops) t t' u h q = elim (Outcome-cases (keep g (m, a) t)) [
    | inr (inl (x, e)) ↦ let w : err x ≡ ok t' = rw (e, ◌>>=◌) at h in absurd (ground arith)
    | inr (inr e) ↦ let w : abort ≡ ok t' = rw (e, ◌>>=◌) at h in absurd (ground arith)
    | inl (t1, e) ↦
        let (u1, one) = keep_lem g m a t t1 u e in
        keep_all_lem g ops t1 t' u1 (rw (e, ◌>>=◌) at h) q ∙ ap (recorded q ops) (one q)
  ]
