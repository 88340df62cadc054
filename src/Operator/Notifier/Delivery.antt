-- ===== src/Operator/Notifier/Delivery.antt =====
-- Who gets a block from operator/attestor/notifier.go.
use near_sffl.Prelude.{
  ℕ, ◌≡◌, ◌<◌, refl, sym, ◌∙◌, ◌↔◌, inl, inr, ◌⊎◌, List, [], ◌∷◌, ◌++◌, map, false, some, arith,
  ltb, if◌then◌else◌, length, All, ok, ap, ok-injective, lt→ltb, ◌==◌, Bool-cases,
}
use near_sffl.Dict.{lookup, lookup-insert}
use near_sffl.Operator.Notifier.{
  capacity, Subscriber, Notifier, Ending, finished, blocked, notify_each, notify,
}

Ending-cases : (x : Ending) → (x ≡ finished) ⊎ (x ≡ blocked)
Ending-cases finished = inl refl
Ending-cases blocked = inr refl

module _ {ℓ} (Block : Type ℓ) where
  -- The subscriber does not want the block, or its channel has room.
  abbrev pub HasRoom : Block → Subscriber Block → Type 0
  HasRoom block s = (s.predicate block ≡ false) ⊎ (length s.waiting < capacity)

  -- The subscriber, with the block in its channel if it wants it.
  abbrev pub given : Block → Subscriber Block → Subscriber Block
  given block s = if s.predicate block then record s { waiting = s.waiting ++ block ∷ [] } else s

  notify_each-given :
      (block : Block) (subs : List (Subscriber Block))
      → All (HasRoom block) subs
      → notify_each Block block subs ≡ (map (given block) subs, finished)
  unfolding notify_each
  notify_each-given block [] h = refl
  notify_each-given block (s ∷ subs) (room, rooms) =
      rw (notify_each-given block subs rooms) (elim room [
        | inl b ↦ rw b refl
        | inr c ↦ elim (Bool-cases (s.predicate block)) [
          | inr b ↦ rw b refl
          | inl b ↦ rw (b, lt→ltb (length s.waiting) capacity c) refl
        ]
      ])

  room_of_finished :
      (block : Block) (subs : List (Subscriber Block))
      → (notify_each Block block subs).1 ≡ finished
      → All (HasRoom block) subs
  unfolding notify_each
  room_of_finished block [] h = tt
  room_of_finished block (s ∷ subs) h = elim (Bool-cases (s.predicate block)) [
    | inr b ↦ (inl b, room_of_finished block subs (rw b at h))
    | inl b ↦ elim (Bool-cases (ltb (length s.waiting) capacity)) [
      | inl c ↦ (inr (ground arith), room_of_finished block subs (rw (b, c) at h))
      | inr c ↦ let g = rw (b, c) at h in absurd (ground arith)
    ]
  ]

  blocked_of_no_room :
      (block : Block) (subs : List (Subscriber Block))
      → ¬ All (HasRoom block) subs
      → (notify_each Block block subs).1 ≡ blocked
  blocked_of_no_room block subs full = elim (Ending-cases (notify_each Block block subs).1) [
    | inl h ↦ absurd (full (room_of_finished block subs h))
    | inr h ↦ h
  ]

  -- A block of a rollup that has subscribers is passed on to the end exactly when each subscriber
  -- that wants it has room in its channel, and comes to a send that waits exactly when one of them
  -- has none.
  pub notify_finished_iff :
      (rollup_id : ℕ) (block : Block) (n : Notifier Block) (subs : List (Subscriber Block))
      → lookup rollup_id n.rollup_ids_to_subscribers ≡ some subs
      → (((notify Block rollup_id block n).1 ≡ ok finished) ↔ All (HasRoom block) subs)
        × (((notify Block rollup_id block n).1 ≡ ok blocked) ↔ (¬ All (HasRoom block) subs))
  unfolding notify
  notify_finished_iff rollup_id block n subs h = (
    (
      λ e.
          room_of_finished block subs
            (ok-injective (notify_each Block block subs).1 finished (rw (h, notify) at e)),
      λ rooms. rw (h, notify) (ap (λ r. ok r.1) (notify_each-given block subs rooms)),
    ),
    (
      λ e rooms.
          let w : (notify_each Block block subs).1 ≡ blocked =
            ok-injective (notify_each Block block subs).1 blocked (rw (h, notify) at e) in
          let v : (notify_each Block block subs).1 ≡ finished =
            ap (λ r. r.1) (notify_each-given block subs rooms) in
          absurd (ground (arith, sym w ∙ v)),
      λ full. rw (h, notify) (ap ok (blocked_of_no_room block subs full)),
    ),
  )

  -- Where each subscriber of a rollup that wants a block has room for it, a notification gives the
  -- block to those that want it, as the last one that waits, and changes nothing else of any
  -- subscriber, of this rollup or another.
  notify_delivers :
      (rollup_id other : ℕ) (block : Block) (n : Notifier Block) (subs : List (Subscriber Block))
      → lookup rollup_id n.rollup_ids_to_subscribers ≡ some subs
      → All (HasRoom block) subs
      → lookup other (notify Block rollup_id block n).0.rollup_ids_to_subscribers ≡ (
          if rollup_id == other
          then some (map (given block) subs)
          else lookup other n.rollup_ids_to_subscribers)
  unfolding notify
  notify_delivers rollup_id other block n subs h rooms =
      rw (h, notify)
        (rw (notify_each-given block subs rooms)
          (lookup-insert rollup_id other (map (given block) subs) n.rollup_ids_to_subscribers))
