-- ===== src/Operator/Attestor/Channels.antt =====
-- What the subscribers' channels of operator/attestor/notifier.go keep under the calls of
-- operator/attestor/attestor.go.
use near_sffl.Prelude.{
  ℕ, ◌≡◌, refl, ap, ◌∙◌, inl, inr, List, [], ◌∷◌, ◌++◌, true, some, arith, ltb, ◌==◌, length, All,
  Bool-cases, ==_iff, List-cases, Option-cases,
}
use mathlib.Core.Path.{subst}
use mathlib.Core.Option.{some-injective}
use near_sffl.Dict.{Dict, lookup, insert, lookup-insert}
use near_sffl.Interface.{Eth}
use near_sffl.Operator.Notifier.{
  capacity, Subscriber, Notifier, notify_each, notify, remove, unsubscribe, or_new_list,
}
use near_sffl.Operator.Attestor.{BlockData, receive}

module _ {ℓ κ} {Block : Type ℓ} (Holds : Subscriber Block → Type κ) where
  -- A notification only appends its block where the predicate lets it through.
  pub notify_each-All :
      (block : Block)
      (keep : (s : Subscriber Block)
        → Holds s
        → s.predicate block ≡ true
        → Holds (record s { waiting = s.waiting ++ block ∷ [] }))
      (subs : List (Subscriber Block))
      → All Holds subs
      → All Holds (notify_each Block block subs).0
  unfolding notify_each
  notify_each-All block keep [] h = tt
  notify_each-All block keep (s ∷ subs) (p, ps) =
      let rest = notify_each-All block keep subs ps in
      elim (Bool-cases (s.predicate block)) [
        | inr b ↦ rw b (p, rest)
        | inl b ↦ elim (Bool-cases (ltb (length s.waiting) capacity)) [
          | inl c ↦ rw (b, c) (keep s p b, rest)
          | inr c ↦ rw (b, c) (p, ps)
        ]
      ]

  pub remove-All :
      (id : ℕ) (subs : List (Subscriber Block)) → All Holds subs → All Holds (remove Block id subs)
  unfolding remove
  remove-All id [] h = tt
  remove-All id (s ∷ subs) (p, ps) = elim (Bool-cases (s.id == id)) [
    | inl b ↦ rw b ps
    | inr b ↦ rw b (p, remove-All id subs ps)
  ]

-- What holds of the subscribers of each rollup, after a write for one.
pub All-insert {ℓ κ} :
    {Block : Type ℓ} (Holds : ℕ → Subscriber Block → Type κ) (k : ℕ) (l : List (Subscriber Block))
    (d : Dict (List (Subscriber Block)))
    → All (Holds k) l
    → ((r : ℕ) → All (Holds r) (or_new_list Block (lookup r d)))
    → (r : ℕ) → All (Holds r) (or_new_list Block (lookup r (insert k l d)))
All-insert {Block} Holds k l d new old r = rw (lookup-insert k r l d) (elim (Bool-cases (k == r)) [
  | inl b ↦ rw b (subst (λ x. All (Holds x) l) ((==_iff k r).0 b) new)
  | inr b ↦ rw b (old r)
])

-- What holds of the subscribers of each rollup, over the calls of the notifier.
module _ {ℓ κ} {Block : Type ℓ} (Holds : ℕ → Subscriber Block → Type κ) where
  abbrev pub EachHolds : Notifier Block → Type κ
  EachHolds n = (r : ℕ) → All (Holds r) (or_new_list Block (lookup r n.rollup_ids_to_subscribers))

  pub unsubscribe-EachHolds :
      (k id : ℕ) (n : Notifier Block) → EachHolds n → EachHolds (unsubscribe Block k id n)
  unfolding unsubscribe
  unsubscribe-EachHolds k id n old r = elim (Option-cases (lookup k n.rollup_ids_to_subscribers)) [
    | inl h ↦ rw (h, unsubscribe) (old r)
    | inr (l, h) ↦
        rw (h, unsubscribe)
          (All-insert Holds k (remove Block id l) n.rollup_ids_to_subscribers
            (remove-All (Holds k) id l (rw h at (old k))) old r)
  ]

  pub next_id-unsubscribe :
      (k id : ℕ) (n : Notifier Block) → (unsubscribe Block k id n).next_id ≡ n.next_id
  unfolding unsubscribe
  next_id-unsubscribe k id n = elim (Option-cases (lookup k n.rollup_ids_to_subscribers)) [
    | inl h ↦ rw (h, unsubscribe) refl
    | inr (l, h) ↦ rw (h, unsubscribe) refl
  ]

  pub notify-EachHolds :
      (k : ℕ) (block : Block) (n : Notifier Block)
      (keep : (s : Subscriber Block)
        → Holds k s
        → s.predicate block ≡ true
        → Holds k (record s { waiting = s.waiting ++ block ∷ [] }))
      → EachHolds n
      → EachHolds (notify Block k block n).0
  unfolding notify
  notify-EachHolds k block n keep old r =
      elim (Option-cases (lookup k n.rollup_ids_to_subscribers)) [
        | inl h ↦ rw (h, notify) (old r)
        | inr (l, h) ↦
            rw (h, notify)
              (All-insert Holds k (notify_each Block block l).0 n.rollup_ids_to_subscribers
                (notify_each-All (Holds k) block keep l (rw h at (old k))) old r)
      ]

  pub next_id-notify :
      (k : ℕ) (block : Block) (n : Notifier Block) → (notify Block k block n).0.next_id ≡ n.next_id
  unfolding notify
  next_id-notify k block n = elim (Option-cases (lookup k n.rollup_ids_to_subscribers)) [
    | inl h ↦ rw (h, notify) refl
    | inr (l, h) ↦ rw (h, notify) refl
  ]

module _ {κ} (e : Eth) (Holds : Subscriber (BlockData e) → Type κ) where
  abbrev pub KeepsTail : Type κ
  KeepsTail =
      (s : Subscriber (BlockData e)) (d : BlockData e) (ds : List (BlockData e))
      → s.waiting ≡ d ∷ ds
      → Holds s
      → Holds (record s { waiting = ds })

  -- A receive takes blocks away.
  pub receive-All :
      (id : ℕ) (subs : List (Subscriber (BlockData e))) (tail : KeepsTail)
      → All Holds subs
      → All Holds (receive e id subs).1
  unfolding receive
  receive-All id [] tail h = tt
  receive-All id (s ∷ subs) tail (p, ps) = elim (Bool-cases (s.id == id)) [
    | inr b ↦ rw b (p, receive-All id subs tail ps)
    | inl b ↦ elim (List-cases s.waiting) [
      | inl none_waits ↦ rw (b, none_waits, receive) (p, ps)
      | inr (d, ds, c) ↦ rw (b, c, receive) (tail s d ds c p, ps)
    ]
  ]

  pub received :
      (id : ℕ) (subs : List (Subscriber (BlockData e))) (d : BlockData e)
      → All Holds subs
      → (receive e id subs).0 ≡ some d
      → (s : Subscriber (BlockData e)) × (ds : List (BlockData e)) × Holds s
        × (s.id ≡ id)
        × (s.waiting ≡ d ∷ ds)
  unfolding receive
  received id [] d h e' = absurd (ground arith)
  received id (s ∷ subs) d (p, ps) e' = elim (Bool-cases (s.id == id)) [
    | inr b ↦ received id subs d ps (rw b at e')
    | inl b ↦ elim (List-cases s.waiting) [
      | inl none_waits ↦ absurd (ground arith)
      | inr (d', ds, c) ↦
          let first : some d' ≡ some d = rw (b, c, receive) at e' in
          (s, ds, p, (==_iff s.id id).0 b, c ∙ ap (λ x. x ∷ ds) (some-injective d' d first))
    ]
  ]
