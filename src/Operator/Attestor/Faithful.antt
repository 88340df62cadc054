-- ===== src/Operator/Attestor/Faithful.antt =====
-- What operator/attestor/attestor.go signs.
use mathlib.Core.Path.{subst}
use mathlib.Core.Option.{some-injective}
use near_sffl.Prelude.{
  ℕ, suc, ◌≡◌, ◌<◌, ◌%◌, ◌^◌, refl, ap, sym, ◌∙◌, inl, inr, ◌⊎◌, List, [], ◌∷◌, ◌++◌, Bool, true,
  false, none, some, arith, ◌==◌, if◌then◌else◌, All, All-append, All-mono, ok, Outcome-cases,
  Option-cases, Bool-cases, ==_ne,
}
use near_sffl.Dict.{
  Dict, lookup, insert, delete, lookup-insert, lookup-delete, insert-cases, lookup-insert_self,
}
use near_sffl.Interface.{Bls, Eth}
use near_sffl.Messages.StateRootUpdate.{StateRootUpdateMessage, SignedStateRootUpdateMessage}
use near_sffl.Operator.Notifier.{Subscriber, Notifier, or_new_list, subscribe, notify, unsubscribe}
use near_sffl.Operator.Attestor.{
  Signer, BlockData, predicate, Waiting, message_of, receive, Attestor, Event, header, mq_block,
  mq_timeout, mq_found, context_done, new_attestor, send_signed, end_header, start_header,
  notify_block, found, step, run, in_header,
}
use near_sffl.Operator.Attestor.Channels.{
  EachHolds, unsubscribe-EachHolds, next_id-unsubscribe, notify-EachHolds, next_id-notify,
  All-insert, receive-All, received, KeepsTail,
}

either_branch {ℓ κ} :
    {A : Type ℓ} (P : A → Type κ) (c : Bool) (x y : A) → P x → P y → P (if c then x else y)
either_branch P true x y p q = p
either_branch P false x y p q = q

module _ (e : Eth) (b : Bls) (signer : Signer b) where
  -- One block of one rollup, with one state root.
  abbrev pub Agrees : ℕ → e.Header → BlockData e → Type 0
  Agrees rollup_id h d =
      (d.rollup_id ≡ rollup_id)
      × (e.number h ≡ e.number (e.header d.block))
      × (e.root (e.header d.block) ≡ e.root h)

  pub predicate-Agrees :
      (rollup_id : ℕ) (h : e.Header) (d : BlockData e)
      → predicate e rollup_id h d ≡ true
      → Agrees rollup_id h d
  unfolding predicate
  predicate-Agrees rollup_id h d p = ground arith

  module _ (Heard : ℕ → e.Header → Type 0) (Announced : BlockData e → Type 0) where
    -- The data availability fields: zeros, or those of an announced block that agrees.
    abbrev pub HasSource : ℕ → e.Header → StateRootUpdateMessage → Type 0
    HasSource rollup_id h m =
        ((m.near_da_commitment ≡ 0) × (m.near_da_transaction_id ≡ 0))
        ⊎ ((d : BlockData e) × Announced d
            × Agrees rollup_id h d
            × (m.near_da_commitment ≡ d.commitment)
            × (m.near_da_transaction_id ≡ d.transaction_id))

    abbrev pub IsOf : ℕ → e.Header → StateRootUpdateMessage → Type 0
    IsOf rollup_id h m =
        (m.rollup_id ≡ rollup_id)
        × (m.block_height ≡ e.number h % 2 ^ 64)
        × (m.timestamp ≡ e.time h)
        × (m.state_root ≡ e.root h)
        × HasSource rollup_id h m

    -- A signed message that stands for a header that was heard.
    abbrev pub IsFaithful : SignedStateRootUpdateMessage b → Type 0
    IsFaithful s =
        (rollup_id : ℕ) × (h : e.Header) × Heard rollup_id h
        × IsOf rollup_id h s.message
        × ((digest : ℕ) × (signer.digest s.message ≡ ok digest)
            × (s.bls_signature ≡ some (signer.sign_message digest)))
        × (s.operator_id ≡ signer.operator_id)

    -- A subscriber of a rollup: its blocks passed its predicate, which is that of its header.
    pub record IsLinked (next : ℕ) (headers : Dict (Waiting e)) (r : ℕ)
        (s : Subscriber (BlockData e)) : Type 0 where
      pub old : s.id < next
      pub passed : All (λ d. (s.predicate d ≡ true) × Announced d) s.waiting
      pub linked :
          (w : Waiting e)
          → lookup s.id headers ≡ some w
          → w.rollup_id ≡ r
          → s.predicate ≡ predicate e r w.rollup_header

    pub record IsSound (a : Attestor e b signer) : Type 0 where
      pub subscribers : EachHolds (IsLinked a.notifier.next_id a.headers) a.notifier
      pub heard :
          (i : ℕ) (w : Waiting e)
          → lookup i a.headers ≡ some w
          → (i < a.notifier.next_id) × Heard w.rollup_id w.rollup_header
      pub faithful : All IsFaithful a.signed_roots

    send_signed-IsSound :
        (w : Waiting e) (m : StateRootUpdateMessage) (a : Attestor e b signer)
        → Heard w.rollup_id w.rollup_header
        → IsOf w.rollup_id w.rollup_header m
        → IsSound a
        → IsSound (send_signed e b signer m a)
    unfolding send_signed
    send_signed-IsSound w m a h o k = elim (Outcome-cases (signer.digest m)) [
      | inl (digest, p) ↦
          rw (p, send_signed)
            (record {
              subscribers = k.subscribers;
              heard = k.heard;
              faithful =
                  All-append IsFaithful a.signed_roots _ k.faithful
                    ((w.rollup_id, w.rollup_header, h, o, (digest, p, refl), refl), tt);
            })
      | inr (inl (x, p)) ↦ rw (p, send_signed) k
      | inr (inr p) ↦ rw (p, send_signed) k
    ]

    message-IsOf-none : (w : Waiting e) → IsOf w.rollup_id w.rollup_header (message_of e w none)
    unfolding message_of
    message-IsOf-none w = (refl, refl, refl, refl, inl (refl, refl))

    message-IsOf-some :
        (w : Waiting e) (d : BlockData e)
        → Announced d
        → Agrees w.rollup_id w.rollup_header d
        → IsOf w.rollup_id w.rollup_header (message_of e w (some d))
    unfolding message_of
    message-IsOf-some w d p q = (refl, refl, refl, refl, inr (d, p, q, refl, refl))

    lookup_of_deleted :
        (i id : ℕ) (w : Waiting e) (headers : Dict (Waiting e))
        → lookup i (delete id headers) ≡ some w
        → lookup i headers ≡ some w
    lookup_of_deleted i id w headers h = elim (Bool-cases (id == i)) [
      | inl c ↦ absurd (ground (arith, lookup-delete id i headers))
      | inr c ↦ rw (lookup-delete id i headers, c) at h
    ]

    -- A goroutine that ends leaves fewer headers.
    deleted-IsLinked :
        (next id r : ℕ) (headers : Dict (Waiting e)) (s : Subscriber (BlockData e))
        → IsLinked next headers r s
        → IsLinked next (delete id headers) r s
    deleted-IsLinked next id r headers s k = record {
      old = k.old;
      passed = k.passed;
      linked = λ w h. k.linked w (lookup_of_deleted s.id id w headers h);
    }

    -- A state that differs in its notifier and its headers.
    changed-IsSound :
        (a : Attestor e b signer) (n : Notifier (BlockData e)) (hs : Dict (Waiting e))
        (locked : Bool)
        → EachHolds (IsLinked n.next_id hs) n
        → ((i : ℕ) (w : Waiting e)
            → lookup i hs ≡ some w
            → (i < n.next_id) × Heard w.rollup_id w.rollup_header)
        → All IsFaithful a.signed_roots
        → IsSound (record a { notifier = n; headers = hs; locked = locked })
    changed-IsSound a n hs locked s h f = record { subscribers = s; heard = h; faithful = f }

    ended-IsSound :
        (id : ℕ) (a : Attestor e b signer) (n : Notifier (BlockData e))
        → n.next_id ≡ a.notifier.next_id
        → EachHolds (IsLinked a.notifier.next_id a.headers) n
        → IsSound a
        → IsSound (record a { notifier = n; headers = delete id a.headers })
    ended-IsSound id a n eq s h =
        changed-IsSound a n (delete id a.headers) a.locked
          (subst (λ x. EachHolds (IsLinked x (delete id a.headers)) n) (sym eq)
            (λ r.
              All-mono (IsLinked a.notifier.next_id a.headers r)
                (IsLinked a.notifier.next_id (delete id a.headers) r)
                (deleted-IsLinked a.notifier.next_id id r a.headers)
                (or_new_list (BlockData e) (lookup r n.rollup_ids_to_subscribers)) (s r)))
          (λ i w l.
            subst (λ x. (i < x) × Heard w.rollup_id w.rollup_header) (sym eq)
              (h.heard i w (lookup_of_deleted i id w a.headers l)))
          h.faithful

    end_header-IsSound :
        (id : ℕ) (w : Waiting e) (a : Attestor e b signer)
        → IsSound a
        → IsSound (end_header e b signer id w a)
    unfolding end_header
    end_header-IsSound id w a h =
        either_branch (λ n. IsSound (record a { notifier = n; headers = delete id a.headers }))
          a.locked a.notifier (unsubscribe (BlockData e) w.rollup_id id a.notifier)
          (ended-IsSound id a a.notifier refl h.subscribers h)
          (ended-IsSound id a (unsubscribe (BlockData e) w.rollup_id id a.notifier)
            (next_id-unsubscribe (λ r s. Unit {0}) w.rollup_id id a.notifier)
            (unsubscribe-EachHolds (IsLinked a.notifier.next_id a.headers) w.rollup_id id a.notifier
              h.subscribers)
            h)

    -- A new subscriber leaves those before it linked.
    older-IsLinked :
        (next r : ℕ) (headers : Dict (Waiting e)) (w : Waiting e) (s : Subscriber (BlockData e))
        → IsLinked next headers r s
        → IsLinked (suc next) (insert next w headers) r s
    older-IsLinked next r headers w s k = record {
      old = omega (arith, k.old);
      passed = k.passed;
      linked = λ w' h.
          k.linked w'
            (rw (lookup-insert next s.id w headers, ==_ne next s.id (omega (arith, k.old))) at h);
    }

    newest-IsLinked :
        (next rollup_id : ℕ) (headers : Dict (Waiting e)) (hd : e.Header)
        → IsLinked
            (suc next)
            (insert next (record { rollup_id = rollup_id; rollup_header = hd }) headers)
            rollup_id
            (record { id = next; predicate = predicate e rollup_id hd; waiting = [] })
    newest-IsLinked next rollup_id headers hd =
        let w : Waiting e = record { rollup_id = rollup_id; rollup_header = hd } in
        record {
          old = omega arith;
          passed = tt;
          linked = λ w' h r.
              ap (λ x. predicate e rollup_id x.rollup_header)
                (some-injective w w' (rw (lookup-insert_self next w headers) at h));
        }

    start_header-IsSound :
        (rollup_id : ℕ) (hd : e.Header) (a : Attestor e b signer)
        → Heard rollup_id hd
        → IsSound a
        → IsSound (start_header e b signer rollup_id hd a)
    unfolding start_header subscribe
    start_header-IsSound rollup_id hd a k h =
        let next = a.notifier.next_id in
        let subs = a.notifier.rollup_ids_to_subscribers in
        let w : Waiting e = record { rollup_id = rollup_id; rollup_header = hd } in
        let s : Subscriber (BlockData e) = record {
          id = next;
          predicate = predicate e rollup_id hd;
          waiting = [];
        } in
        let Linked = IsLinked (suc next) (insert next w a.headers) in
        let older : (r : ℕ) → All (Linked r) (or_new_list (BlockData e) (lookup r subs)) = λ r.
          All-mono (IsLinked next a.headers r) (Linked r) (older-IsLinked next r a.headers w)
            (or_new_list (BlockData e) (lookup r subs)) (h.subscribers r) in
        changed-IsSound a _ (insert next w a.headers) a.locked
          (All-insert Linked rollup_id (or_new_list (BlockData e) (lookup rollup_id subs) ++ s ∷ [])
            subs
            (All-append (Linked rollup_id) (or_new_list (BlockData e) (lookup rollup_id subs))
              (s ∷ []) (older rollup_id) (newest-IsLinked next rollup_id a.headers hd, tt))
            older)
          (λ i w' l. elim (insert-cases next i w w' a.headers l) [
            | inl (p, q) ↦ (omega arith, subst (λ x. Heard x.rollup_id x.rollup_header) q k)
            | inr o ↦ (omega (arith, (h.heard i w' o).0), (h.heard i w' o).1)
          ])
          h.faithful

    notify_block-IsSound :
        (d : BlockData e) (a : Attestor e b signer)
        → Announced d
        → IsSound a
        → IsSound (notify_block e b signer d a)
    unfolding notify_block
    notify_block-IsSound d a k h =
        let (n, result) = notify (BlockData e) d.rollup_id d a.notifier in
        let same : n.next_id ≡ a.notifier.next_id =
          next_id-notify (λ r s. Unit {0}) d.rollup_id d a.notifier in
        changed-IsSound a n a.headers _
          (subst (λ x. EachHolds (IsLinked x a.headers) n) (sym same)
            (notify-EachHolds (IsLinked a.notifier.next_id a.headers) d.rollup_id d a.notifier
              (λ s l p. record {
                old = l.old;
                passed =
                    All-append (λ x. (s.predicate x ≡ true) × Announced x) s.waiting (d ∷ [])
                      l.passed ((p, k), tt);
                linked = l.linked;
              })
              h.subscribers))
          (λ i w l.
            subst (λ x. (i < x) × Heard w.rollup_id w.rollup_header) (sym same) (h.heard i w l))
          h.faithful

    tail-KeepsTail :
        (next r : ℕ) (headers : Dict (Waiting e)) → KeepsTail e (IsLinked next headers r)
    tail-KeepsTail next r headers s d ds w l = record {
      old = l.old;
      passed = (subst (All (λ x. (s.predicate x ≡ true) × Announced x)) w l.passed).1;
      linked = l.linked;
    }

    -- The block that a goroutine takes is announced and agrees with its header.
    received-Agrees :
        (next id : ℕ) (w : Waiting e) (headers : Dict (Waiting e))
        (subs : List (Subscriber (BlockData e))) (d : BlockData e)
        → lookup id headers ≡ some w
        → All (IsLinked next headers w.rollup_id) subs
        → (receive e id subs).0 ≡ some d
        → Announced d × Agrees w.rollup_id w.rollup_header d
    received-Agrees next id w headers subs d l h took =
        let (s, ds, k, same, queue) =
          received e (IsLinked next headers w.rollup_id) id subs d h took in
        let (passed, announced) =
          (subst (All (λ x. (s.predicate x ≡ true) × Announced x)) queue k.passed).0 in
        let own : s.predicate ≡ predicate e w.rollup_id w.rollup_header =
          k.linked w (subst (λ x. lookup x headers ≡ some w) (sym same) l) refl in
        (
          announced,
          predicate-Agrees w.rollup_id w.rollup_header d (sym (ap (λ f. f d) own) ∙ passed),
        )

    found-IsSound :
        (id : ℕ) (w : Waiting e) (a : Attestor e b signer)
        → lookup id a.headers ≡ some w
        → IsSound a
        → IsSound (found e b signer id w a)
    unfolding found
    found-IsSound id w a l h =
        let queues = a.notifier.rollup_ids_to_subscribers in
        let subs = or_new_list (BlockData e) (lookup w.rollup_id queues) in
        let next = a.notifier.next_id in
        elim (Option-cases (receive e id subs).0) [
          | inl none_waits ↦ rw (none_waits, found) h
          | inr (d, took) ↦
              let (announced, agrees) =
                received-Agrees next id w a.headers subs d l (h.subscribers w.rollup_id) took in
              rw (took, found)
                (end_header-IsSound id w _ (
                  send_signed-IsSound w (message_of e w (some d)) _ (h.heard id w l).1
                    (message-IsOf-some w d announced agrees)
                    (changed-IsSound a _ a.headers a.locked
                      (All-insert (IsLinked next a.headers) w.rollup_id (receive e id subs).1 queues
                        (receive-All e (IsLinked next a.headers w.rollup_id) id subs
                          (tail-KeepsTail next w.rollup_id a.headers) (h.subscribers w.rollup_id))
                        h.subscribers)
                      h.heard h.faithful)))
        ]

    -- What the environment brings: headers that are heard and blocks that are announced.
    abbrev pub Admits : Event e b signer → Type 0
    Admits (header rollup_id h) = Heard rollup_id h
    Admits (mq_block d) = Announced d
    Admits (mq_timeout id) = Unit
    Admits (mq_found id) = Unit
    Admits (context_done id) = Unit

    -- The cases in which the goroutine with an id runs, if it is there.
    in_header-IsSound :
        (id : ℕ) (a : Attestor e b signer) (case : Waiting e → Attestor e b signer)
        → ((w : Waiting e) → lookup id a.headers ≡ some w → IsSound (case w))
        → IsSound a
        → IsSound (in_header e b signer id a case)
    in_header-IsSound id a case runs h = elim (Option-cases (lookup id a.headers)) [
      | inl l ↦ rw (l, in_header) h
      | inr (w, l) ↦ rw (l, in_header) (runs w l)
    ]

    step-IsSound :
        (event : Event e b signer) (a : Attestor e b signer)
        → Admits event
        → IsSound a
        → IsSound (step e b signer event a)
    unfolding step
    step-IsSound (header rollup_id hd) a k h =
        either_branch IsSound a.locked a (start_header e b signer rollup_id hd a) h
          (start_header-IsSound rollup_id hd a k h)
    step-IsSound (mq_block d) a k h =
        either_branch IsSound a.locked a (notify_block e b signer d a) h
          (notify_block-IsSound d a k h)
    step-IsSound (mq_timeout id) a k h =
        in_header-IsSound id a _
          (λ w l. end_header-IsSound id w (send_signed e b signer (message_of e w none) a) (
            send_signed-IsSound w (message_of e w none) a (h.heard id w l).1 (message-IsOf-none w)
              h))
          h
    step-IsSound (mq_found id) a k h = in_header-IsSound id a _ (λ w l. found-IsSound id w a l h) h
    step-IsSound (context_done id) a k h =
        in_header-IsSound id a _ (λ w l. end_header-IsSound id w a h) h

    run-IsSound :
        (events : List (Event e b signer)) (a : Attestor e b signer)
        → All Admits events
        → IsSound a
        → IsSound (run e b signer events a)
    unfolding run
    run-IsSound [] a k h = h
    run-IsSound (event ∷ events) a (k, ks) h =
        run-IsSound events (step e b signer event a) ks (step-IsSound event a k h)

    -- Whatever order headers, blocks, their second notifications, timers and ends of contexts come
    -- in: each message that a new attestor signs and sends stands for a header that was heard, with
    -- that header's rollup, height modulo 2 ^ 64, time and state root, signed over its own digest;
    -- and its data availability fields are zeros, or those of an announced block of the same
    -- rollup, height and state root.
    pub signed_roots-IsFaithful :
        (events : List (Event e b signer))
        → All Admits events
        → All IsFaithful (run e b signer events (new_attestor e b signer)).signed_roots
    unfolding lookup
    signed_roots-IsFaithful events k =
        (run-IsSound events (new_attestor e b signer) k (record {
          subscribers = λ r. tt;
          heard = λ i w l. absurd (ground arith);
          faithful = tt;
        })).faithful
