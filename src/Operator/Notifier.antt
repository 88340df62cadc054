-- ===== src/Operator/Notifier.antt =====
-- operator/attestor/notifier.go: blocks of rollups are passed on to subscribers. The lock makes
-- each operation one step; a channel is the list of the blocks that wait in it, the oldest first.
pub mod Delivery
use near_sffl.Prelude.{
  ℕ, suc, List, [], ◌∷◌, ◌++◌, Bool, true, false, Option, none, some, ltb, ◌==◌, if◌then◌else◌,
  length, Outcome, ok, err,
}
use near_sffl.Dict.{Dict, lookup, insert}
use near_sffl.Errors.{Error, unknown_rollup_id}

-- The capacity of `notifierC`.
abbrev pub capacity : ℕ
capacity = 100

-- What a notification comes to: all were asked, or it waits, with the lock, at a full channel for
-- the subscriber to take a block. The state is then the one in which it waits.
pub data Ending : Type 0 where
  finished blocked : Ending

module _ {ℓ} (Block : Type ℓ) where
  -- subscriberData, with the list element that it stands in.
  pub record Subscriber : Type ℓ where
    pub id : ℕ
    pub predicate : Block → Bool
    pub waiting : List Block

  pub record Notifier : Type ℓ where
    pub rollup_ids_to_subscribers : Dict (List Subscriber)
    pub next_id : ℕ

  abbrev pub or_new_list : Option (List Subscriber) → List Subscriber
  or_new_list none = []
  or_new_list (some l) = l

  unfoldable pub subscribe : ℕ → (Block → Bool) → Notifier → Notifier × ℕ
  subscribe rollup_id predicate n = (
    record n {
      rollup_ids_to_subscribers =
          insert rollup_id
            (or_new_list (lookup rollup_id n.rollup_ids_to_subscribers)
              ++ record { id = n.next_id; predicate = predicate; waiting = [] } ∷ [])
            n.rollup_ids_to_subscribers;
      next_id = suc n.next_id;
    },
    n.next_id,
  )

  -- The loop over the subscribers.
  unfoldable pub notify_each : Block → List Subscriber → List Subscriber × Ending
  notify_each block [] = ([], finished)
  notify_each block (s ∷ subs) =
      let (rest, ending) = notify_each block subs in
      if s.predicate block
      then (if ltb (length s.waiting) capacity
          then (record s { waiting = s.waiting ++ block ∷ [] } ∷ rest, ending)
          else (s ∷ subs, blocked))
      else (s ∷ rest, ending)

  unfoldable pub notify : ℕ → Block → Notifier → Notifier × Outcome Error Ending
  unfolding notify_each
  notify rollup_id block n = elim (lookup rollup_id n.rollup_ids_to_subscribers) [
    | none ↦ (n, err unknown_rollup_id)
    | some subs ↦
        let (subs', ending) = notify_each block subs in
        (
          record n {
            rollup_ids_to_subscribers = insert rollup_id subs' n.rollup_ids_to_subscribers;
          },
          ok ending,
        )
  ]

  unfoldable pub remove : ℕ → List Subscriber → List Subscriber
  remove id [] = []
  remove id (s ∷ subs) = let rest = remove id subs in if s.id == id then subs else s ∷ rest

  -- An element of another list stays.
  unfoldable pub unsubscribe : ℕ → ℕ → Notifier → Notifier
  unfolding remove
  unsubscribe rollup_id id n = elim (lookup rollup_id n.rollup_ids_to_subscribers) [
    | none ↦ n
    | some subs ↦ record n {
      rollup_ids_to_subscribers = insert rollup_id (remove id subs) n.rollup_ids_to_subscribers;
    }
  ]
