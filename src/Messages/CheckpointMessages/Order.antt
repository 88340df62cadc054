-- ===== src/Messages/CheckpointMessages/Order.antt =====
-- The response that core/types/messages/checkpoint_task.go makes of a checkpoint's messages, and
-- the order of these.
use near_sffl.Prelude.{ℕ, ◌≡◌, sym, ap, ◌∙◌, List, ◌∷◌, Outcome, ok, ◌>>=◌, bind_ok}
use near_sffl.Errors.{Error}
use near_sffl.Interface.{Bls}
use near_sffl.Smt.{Trie, IsByContent, add_message}
use near_sffl.Messages.StateRootUpdate as StateRootUpdate
use near_sffl.Messages.OperatorSetUpdate as OperatorSetUpdate
use near_sffl.Messages.CheckpointTask.{CheckpointTaskResponse}
use near_sffl.Messages.CheckpointMessages.{
  CheckpointMessages, Digests, add_messages, committed, response_of,
  new_checkpoint_task_response_from_messages,
}

-- One list comes from the other by changes of place of messages with different keys.
pub data Reordered {Message : Type 0} (key : Message → ℕ)
    : List Message → List Message → Type 0 where
  same : (l : List Message) → Reordered key l l
  swap :
      (m n : Message) (l : List Message) → ¬ (key n ≡ key m) → Reordered key (m ∷ n ∷ l) (n ∷ m ∷ l)
  keep : (m : Message) {l k : List Message} → Reordered key l k → Reordered key (m ∷ l) (m ∷ k)
  both : {l k j : List Message} → Reordered key l k → Reordered key k j → Reordered key l j

module _ (trie : Trie) (content : IsByContent trie) where
  module _ {Message : Type 0} (digest : Message → Outcome Error ℕ) (key : Message → ℕ) where
    added :
        (m : Message) (t t' : trie.Tree)
        → add_message trie (digest m) (key m) t ≡ ok t'
        → (d : ℕ) × (digest m ≡ ok d) × (trie.update (key m) d t ≡ ok t')
    unfolding add_message
    added m t t' h = bind_ok (digest m) (λ d. trie.update (key m) d t) t' h

    add_message_of :
        (m : Message) (d : ℕ) (t t' : trie.Tree)
        → digest m ≡ ok d
        → trie.update (key m) d t ≡ ok t'
        → add_message trie (digest m) (key m) t ≡ ok t'
    unfolding add_message
    add_message_of m d t t' p q = ap (λ o. o >>= λ x. trie.update (key m) x t) p ∙ q

    add_messages_of :
        (m : Message) (l : List Message) (t t1 t2 : trie.Tree)
        → add_message trie (digest m) (key m) t ≡ ok t1
        → add_messages trie digest key l t1 ≡ ok t2
        → add_messages trie digest key (m ∷ l) t ≡ ok t2
    unfolding add_messages
    add_messages_of m l t t1 t2 p q = ap (λ o. o >>= add_messages trie digest key l) p ∙ q

    add_messages-Reordered :
        {l k : List Message} (r : Reordered key l k) (t t' : trie.Tree)
        → add_messages trie digest key l t ≡ ok t'
        → add_messages trie digest key k t ≡ ok t'
    unfolding add_messages
    add_messages-Reordered (same l) t t' h = h
    add_messages-Reordered (both r q) t t' h =
        add_messages-Reordered q t t' (add_messages-Reordered r t t' h)
    add_messages-Reordered (keep m {l} {k} r) t t' h =
        let (t1, p, q) =
          bind_ok (add_message trie (digest m) (key m) t) (add_messages trie digest key l) t' h in
        add_messages_of m k t t1 t' p (add_messages-Reordered r t1 t' q)
    add_messages-Reordered (swap m n l apart) t t' h =
        let (t1, p, q) =
          bind_ok (add_message trie (digest m) (key m) t) (add_messages trie digest key (n ∷ l)) t'
            h in
        let (t2, p', q') =
          bind_ok (add_message trie (digest n) (key n) t1) (add_messages trie digest key l) t' q in
        let (d, x, u) = added m t t1 p in
        let (d', x', u') = added n t1 t2 p' in
        let (s, first, second) =
          content.update_comm (key m) (key n) d d' t t1 t2 (λ e. apart (sym e)) u u' in
        add_messages_of n (m ∷ l) t s t' (add_message_of n d' t s x' first)
          (add_messages_of m l s t2 t' (add_message_of m d s t2 x second) q')

    committed-Reordered :
        {l k : List Message} (r : Reordered key l k) (t : trie.Tree)
        → committed trie digest key l ≡ ok t
        → committed trie digest key k ≡ ok t
    unfolding committed
    committed-Reordered {l} {k} r t h =
        let (t1, p, q) = bind_ok (add_messages trie digest key l trie.empty) trie.commit t h in
        ap (λ o. o >>= trie.commit) (add_messages-Reordered r trie.empty t1 p) ∙ q

  module _ (b : Bls) (digests : Digests b) where
    -- A response that messages make stays the same where state root updates with different keys
    -- change places among themselves, and operator set updates do, so that what the operators sign
    -- for a task does not hang on the order in which they are given its messages.
    pub response-Reordered :
        (task_index : ℕ) (given other : CheckpointMessages b) (r : CheckpointTaskResponse)
        → Reordered StateRootUpdate.key given.state_root_update_messages
            other.state_root_update_messages
        → Reordered
            (OperatorSetUpdate.key b)
            given.operator_set_update_messages
            other.operator_set_update_messages
        → new_checkpoint_task_response_from_messages b trie digests task_index given ≡ ok r
        → new_checkpoint_task_response_from_messages b trie digests task_index other ≡ ok r
    unfolding new_checkpoint_task_response_from_messages
    response-Reordered task_index given other r p q h =
        let roots = committed trie digests.state_root_update StateRootUpdate.key in
        let sets = committed trie digests.operator_set_update (OperatorSetUpdate.key b) in
        let rest = λ (s : trie.Tree). sets given.operator_set_update_messages >>= λ o.
        ok (response_of b trie digests task_index s o) in
        let (s, hs, hr) = bind_ok (roots given.state_root_update_messages) rest r h in
        let (o, ho, hq) =
          bind_ok (sets given.operator_set_update_messages)
            (λ o. ok (response_of b trie digests task_index s o)) r hr in
        let other_roots : roots other.state_root_update_messages ≡ ok s =
          committed-Reordered digests.state_root_update StateRootUpdate.key p s hs in
        let other_sets : sets other.operator_set_update_messages ≡ ok o =
          committed-Reordered digests.operator_set_update (OperatorSetUpdate.key b) q o ho in
        rw (other_roots, other_sets, ◌>>=◌) hq
