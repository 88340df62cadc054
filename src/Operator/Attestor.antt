-- ===== src/Operator/Attestor.antt =====
-- operator/attestor/attestor.go: headers of a rollup's node wait for the block that data
-- availability announces, and are signed. Each header waits in a goroutine of its own, with a
-- subscription at the notifier; a goroutine's `select` is a step on an event, and orders of events
-- are lists. The second notification of a block, 15 seconds later, is one more event.

pub mod Channels
pub mod Faithful
use near_sffl.Prelude.{
  ℕ, ◌%◌, ◌^◌, List, [], ◌∷◌, ◌++◌, Bool, true, false, not, Option, none, some, ◌==◌, if◌then◌else◌,
  Outcome, ok, ◌>>=◌,
}
use near_sffl.Dict.{Dict, lookup, insert, delete}
use near_sffl.Errors.{Error}
use near_sffl.Interface.{Bls, Eth}
use near_sffl.Messages.StateRootUpdate.{StateRootUpdateMessage, SignedStateRootUpdateMessage}
use near_sffl.Operator.Notifier.{
  Subscriber, Notifier, finished, blocked, or_new_list, subscribe, notify, unsubscribe,
}

-- What the attestor takes from elsewhere: `Digest` of a message (ABI packer and Keccak-256), and
-- `SignMessage` of the operator's key.
pub record Signer (b : Bls) : Type 0 where
  pub digest : StateRootUpdateMessage → Outcome Error ℕ
  pub sign_message : ℕ → b.Signature
  pub operator_id : ℕ

module _ (e : Eth) where
  -- operator/consumer/consumer.go
  pub record BlockData : Type 0 where
    pub rollup_id : ℕ
    pub commitment : ℕ
    pub transaction_id : ℕ
    pub block : e.Block

  -- The closure of processHeader that a subscription filters by.
  unfoldable pub predicate : ℕ → e.Header → BlockData → Bool
  predicate rollup_id rollup_header mq_block =
      if not (mq_block.rollup_id == rollup_id)
      then false
      else if not (e.number rollup_header == e.number (e.header mq_block.block))
      then false
      else if not (e.root (e.header mq_block.block) == e.root rollup_header)
      then false
      else true

  -- A goroutine of processHeader that waits, by the id of its subscription.
  pub record Waiting : Type 0 where
    pub rollup_id : ℕ
    pub rollup_header : e.Header

  -- The message that processHeader makes; no block is the timeout, with zeros.
  unfoldable pub message_of : Waiting → Option BlockData → StateRootUpdateMessage
  message_of w mq_block = record {
    rollup_id = w.rollup_id;
    block_height = e.number w.rollup_header % 2 ^ 64;
    timestamp = e.time w.rollup_header;
    state_root = e.root w.rollup_header;
    near_da_transaction_id = elim mq_block [ none ↦ 0 | some d ↦ d.transaction_id ];
    near_da_commitment = elim mq_block [ none ↦ 0 | some d ↦ d.commitment ];
  }

  -- A receive from the channel of a subscription takes the block that waits longest.
  unfoldable pub receive :
      ℕ → List (Subscriber BlockData) → Option BlockData × List (Subscriber BlockData)
  receive id [] = (none, [])
  receive id (s ∷ subs) =
      let (found, rest) = receive id subs in
      if s.id == id
      then (elim s.waiting [
        | [] ↦ (none, s ∷ subs)
        | d ∷ ds ↦ (some d, record s { waiting = ds } ∷ subs)
      ])
      else (found, s ∷ rest)

  module _ (b : Bls) (signer : Signer b) where
    -- `locked`: a notification waits at a full channel and keeps the notifier's lock.
    pub record Attestor : Type 0 where
      pub notifier : Notifier BlockData
      pub headers : Dict Waiting
      pub signed_roots : List (SignedStateRootUpdateMessage b)
      pub locked : Bool

    pub data Event : Type 0 where
      -- a header from the subscription of a rollup's node
      header : ℕ → e.Header → Event
      -- a block from the consumer, or again from the goroutine that waited for 15 seconds
      mq_block : BlockData → Event
      -- in the goroutine with a subscription id: the timer, a block, the end of the context
      mq_timeout mq_found context_done : ℕ → Event

    abbrev pub new_attestor : Attestor
    new_attestor = record {
      notifier = record { rollup_ids_to_subscribers = []; next_id = 0 };
      headers = [];
      signed_roots = [];
      locked = false;
    }

    unfoldable pub sign_state_root_update_message :
        StateRootUpdateMessage → Outcome Error b.Signature
    sign_state_root_update_message m = do
      message_digest ← signer.digest m
      ok (signer.sign_message message_digest)

    -- The end of processHeader, past its loop.
    unfoldable pub send_signed : StateRootUpdateMessage → Attestor → Attestor
    unfolding sign_state_root_update_message
    send_signed m a = elim (sign_state_root_update_message m) [
      | ok signature ↦
          let signed : SignedStateRootUpdateMessage b = record {
            message = m;
            bls_signature = some signature;
            operator_id = signer.operator_id;
          } in
          record a { signed_roots = a.signed_roots ++ signed ∷ [] }
      | _ ↦ a
    ]

    -- The goroutine ends, with its deferred `Unsubscribe`, which waits where the lock is taken.
    unfoldable pub end_header : ℕ → Waiting → Attestor → Attestor
    unfolding unsubscribe
    end_header id w a = record a {
      headers = delete id a.headers;
      notifier = if a.locked then a.notifier else unsubscribe BlockData w.rollup_id id a.notifier;
    }

    -- processHeader up to its loop.
    unfoldable pub start_header : ℕ → e.Header → Attestor → Attestor
    unfolding subscribe
    start_header rollup_id rollup_header a =
        let (n, id) =
          subscribe BlockData rollup_id (predicate rollup_id rollup_header) a.notifier in
        record a {
          notifier = n;
          headers =
              insert id (record { rollup_id = rollup_id; rollup_header = rollup_header }) a.headers;
        }

    -- `Notify`, whose error is logged.
    unfoldable pub notify_block : BlockData → Attestor → Attestor
    notify_block d a =
        let (n, result) = notify BlockData d.rollup_id d a.notifier in
        record a {
          notifier = n;
          locked = elim result [ ok blocked ↦ true | ok finished ↦ false | _ ↦ false ];
        }

    -- The cases of processHeader's `select`.
    unfoldable pub found : ℕ → Waiting → Attestor → Attestor
    unfolding receive message_of send_signed end_header
    found id w a =
        let subs =
          or_new_list BlockData (lookup w.rollup_id a.notifier.rollup_ids_to_subscribers) in
        let (first, subs') = receive id subs in
        elim first [
          | none ↦ a
          | some d ↦ end_header id w (
              send_signed (message_of w (some d)) (record a {
                notifier = record a.notifier {
                  rollup_ids_to_subscribers =
                      insert w.rollup_id subs' a.notifier.rollup_ids_to_subscribers;
                };
              }))
        ]

    -- The goroutine with that id runs a case of its `select`, if it is there.
    abbrev pub in_header : ℕ → Attestor → (Waiting → Attestor) → Attestor
    in_header id a run_case = elim (lookup id a.headers) [ none ↦ a | some w ↦ run_case w ]

    unfoldable pub step : Event → Attestor → Attestor
    unfolding start_header notify_block found message_of send_signed end_header
    step (header rollup_id h) a = if a.locked then a else start_header rollup_id h a
    step (mq_block d) a = if a.locked then a else notify_block d a
    step (mq_timeout id) a =
        in_header id a (λ w. end_header id w (send_signed (message_of w none) a))
    step (mq_found id) a = in_header id a (λ w. found id w a)
    step (context_done id) a = in_header id a (λ w. end_header id w a)

    unfoldable pub run : List Event → Attestor → Attestor
    unfolding step
    run [] a = a
    run (event ∷ events) a = run events (step event a)
