-- ===== src/Operator/Connection/SetUp.antt =====
-- The set-up of a channel with its queues, in operator/consumer/consumer.go.
use mathlib.Core.Path.{subst}
use near_sffl.Prelude.{
  ℕ, ◌≡◌, ◌↔◌, refl, sym, ap, ◌∙◌, List, [], ◌∷◌, ◌||◌, Bool, false, arith, ◌==◌, Bool-cases, inl,
  inr, All, elem, ok, err, ◌>>=◌, bind_ok, ok-injective,
}
use near_sffl.Dict.{Dict, insert, has, has-insert}
use near_sffl.Errors.{queue_exists}
use near_sffl.Interface.{Eth}
use near_sffl.Operator.Consumer.{Codec, Listener, add}
use near_sffl.Operator.Connection.{
  Broker, added, set_up_queue, set_up_queues, setup_channel, new_queues_listener,
}

-- No number is in the list twice.
abbrev pub IsDistinct : List ℕ → Type 0
IsDistinct [] = Unit {0}
IsDistinct (x ∷ xs) = (elem x xs ≡ false) × IsDistinct xs

-- RabbitMQ declares, binds and consumes the queue of a rollup.
abbrev pub IsAnswered : Broker → ℕ → Type 0
IsAnswered broker rollup_id =
    (broker.queue_declare rollup_id ≡ ok tt)
    × (broker.queue_bind rollup_id ≡ ok tt)
    × (broker.consume rollup_id ≡ ok tt)

abbrev AreNew : Dict (Unit {0}) → List ℕ → Type 0
AreNew queues rollup_ids = All (λ r. has r queues ≡ false) rollup_ids

apart_of_new :
    (r : ℕ) (queues : Dict (Unit {0})) (rollup_ids : List ℕ)
    → AreNew (insert r tt queues) rollup_ids
    → AreNew queues rollup_ids × (elem r rollup_ids ≡ false)
apart_of_new r queues [] h = (tt, refl)
apart_of_new r queues (j ∷ js) (h, hs) =
    let (new, apart) = apart_of_new r queues js hs in
    let both = sym (has-insert r j tt queues) ∙ h in
    ((ground (arith, both), new), ground (arith, both, apart))

new_of_apart :
    (r : ℕ) (queues : Dict (Unit {0})) (rollup_ids : List ℕ)
    → AreNew queues rollup_ids
    → elem r rollup_ids ≡ false
    → AreNew (insert r tt queues) rollup_ids
new_of_apart r queues [] h apart = tt
new_of_apart r queues (j ∷ js) (h, hs) apart = (
  has-insert r j tt queues ∙ ground (arith, h, apart),
  new_of_apart r queues js hs (ground (arith, apart)),
)

module _ (e : Eth) (c : Codec e) (broker : Broker) where
  abbrev with_queue : ℕ → Listener e c → Listener e c
  with_queue r l = record l { queues = insert r tt l.queues }

  set_up_queue_lem :
      (r : ℕ) (l l' : Listener e c)
      → set_up_queue e c broker r l ≡ ok l'
      → IsAnswered broker r × (has r l.queues ≡ false) × (l' ≡ with_queue r l)
  unfolding set_up_queue add
  set_up_queue_lem r l l' h =
      let (t1, declared, h1) =
        bind_ok (broker.queue_declare r)
          (λ q. broker.queue_bind r >>= λ x. broker.consume r >>= λ y. added e c (add e c r l)) l'
          h in
      let (t2, bound, h2) =
        bind_ok (broker.queue_bind r) (λ x. broker.consume r >>= λ y. added e c (add e c r l)) l'
          h1 in
      let (t3, consumed, h3) = bind_ok (broker.consume r) (λ y. added e c (add e c r l)) l' h2 in
      elim (Bool-cases (has r l.queues)) [
        | inl p ↦ let w : err queue_exists ≡ ok l' = rw p at h3 in absurd (ground arith)
        | inr p ↦
            ((declared, bound, consumed), p, sym (ok-injective (with_queue r l) l' (rw p at h3)))
      ]

  set_up_queue_of :
      (r : ℕ) (l : Listener e c)
      → IsAnswered broker r
      → has r l.queues ≡ false
      → set_up_queue e c broker r l ≡ ok (with_queue r l)
  unfolding set_up_queue add
  set_up_queue_of r l (p, q, s) h = rw (p, q, s, h) refl

  set_up_queues_lem :
      (rollup_ids : List ℕ) (l l' : Listener e c)
      → set_up_queues e c broker rollup_ids l ≡ ok l'
      → All (IsAnswered broker) rollup_ids
        × AreNew l.queues rollup_ids
        × IsDistinct rollup_ids
        × ((r : ℕ) → has r l'.queues ≡ (elem r rollup_ids || has r l.queues))
  unfolding set_up_queues
  set_up_queues_lem [] l l' h =
      (tt, tt, tt, λ r. ap (λ x. has r x.queues) (sym (ok-injective l l' h)))
  set_up_queues_lem (r ∷ rs) l l' h =
      let (l1, first, rest) =
        bind_ok (set_up_queue e c broker r l) (set_up_queues e c broker rs) l' h in
      let (answered, new, same) = set_up_queue_lem r l l1 first in
      let (all, others, distinct, queues) =
        set_up_queues_lem rs (with_queue r l) l'
          (subst (λ x. set_up_queues e c broker rs x ≡ ok l') same rest) in
      let (before, apart) = apart_of_new r l.queues rs others in
      (
        (answered, all),
        (new, before),
        (apart, distinct),
        λ j. queues j ∙ in_front j _ _ _ (has-insert r j tt l.queues),
      )
    where
      in_front : (j : ℕ) (x y z : Bool) → x ≡ (r == j || y) → (z || x) ≡ ((j == r || z) || y)
      in_front j x y z h = ground (arith, h)

  set_up_queues_of :
      (rollup_ids : List ℕ) (l : Listener e c)
      → All (IsAnswered broker) rollup_ids
      → AreNew l.queues rollup_ids
      → IsDistinct rollup_ids
      → (l' : Listener e c) × (set_up_queues e c broker rollup_ids l ≡ ok l')
  unfolding set_up_queues
  set_up_queues_of [] l a n d = (l, refl)
  set_up_queues_of (r ∷ rs) l (a, rest) (n, ns) (d, ds) =
      let (l', h) =
        set_up_queues_of rs (with_queue r l) rest (new_of_apart r l.queues rs ns d) ds in
      (l', ap (λ o. o >>= set_up_queues e c broker rs) (set_up_queue_of r l a n) ∙ h)

  -- Setting a channel up succeeds exactly where the broker opens it, no rollup is configured twice,
  -- and the queue of each is declared, bound and consumed.
  pub setup_channel_iff :
      (rollup_ids : List ℕ)
      → ((set : ℕ × Listener e c) × (setup_channel e c rollup_ids broker ≡ ok set)) ↔ (
          ((channel : ℕ) × (broker.open_channel ≡ ok channel))
          × IsDistinct rollup_ids
          × All (IsAnswered broker) rollup_ids)
  unfolding setup_channel has
  setup_channel_iff rollup_ids = (
    λ (set, h).
        let queues = set_up_queues e c broker rollup_ids (new_queues_listener e c) in
        let (channel, opened, rest) =
          bind_ok broker.open_channel (λ ch. queues >>= λ l. ok (ch, l)) set h in
        let (l, made, end) = bind_ok queues (λ l. ok (channel, l)) set rest in
        let (answered, new, distinct, has_queue) =
          set_up_queues_lem rollup_ids (new_queues_listener e c) l made in
        ((channel, opened), distinct, answered),
    λ ((channel, opened), distinct, answered).
        let (l, made) =
          set_up_queues_of rollup_ids (new_queues_listener e c) answered (none_yet rollup_ids)
            distinct in
        (
          (channel, l),
          ap
                (λ o. o >>= λ ch.
                  set_up_queues e c broker rollup_ids (new_queues_listener e c) >>= λ x. ok (ch, x))
                opened
              ∙ ap (λ o. o >>= λ x. ok (channel, x)) made,
        ),
  )
    where
      none_yet : (rs : List ℕ) → AreNew [] rs
      none_yet [] = tt
      none_yet (r ∷ rs) = (refl, none_yet rs)

  -- A channel's queues are those of the rollups that are configured.
  pub setup_channel-queues :
      (rollup_ids : List ℕ) (set : ℕ × Listener e c)
      → setup_channel e c rollup_ids broker ≡ ok set
      → (r : ℕ) → has r set.1.queues ≡ elem r rollup_ids
  unfolding setup_channel has
  setup_channel-queues rollup_ids set h r =
      let queues = set_up_queues e c broker rollup_ids (new_queues_listener e c) in
      let (channel, opened, rest) =
        bind_ok broker.open_channel (λ ch. queues >>= λ l. ok (ch, l)) set h in
      let (l, made, end) = bind_ok queues (λ l. ok (channel, l)) set rest in
      let (answered, new, distinct, has_queue) =
        set_up_queues_lem rollup_ids (new_queues_listener e c) l made in
      let same : l ≡ set.1 = ap (λ x. x.1) (ok-injective (channel, l) set end) in
      ap (λ x. has r x.queues) (sym same) ∙ has_queue r ∙ ground arith
