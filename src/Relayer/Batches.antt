-- ===== src/Relayer/Batches.antt =====
-- What becomes of the headers in relayer/relayer.go.
use mathlib.Core.Path.{ap₂}
use mathlib.Core.List.{append_assoc, append-nil, map-append}
use near_sffl.Prelude.{◌≡◌, refl, sym, ap, ◌∙◌, List, [], ◌∷◌, ◌++◌, map, Bool}
use near_sffl.Interface.{Eth}
use near_sffl.Relayer.{
  Listener, collecting, sending, ended, handed, Submitter, waiting, stopped, handling, Relayer,
  new_relayer, Step, header, empty_tick, batch_tick, stop_ticker, listening_ends, hand_over,
  handled_blocks, context_done, fire, Steps, here, next, succeeded, handle_blocks,
}

module _ (e : Eth) where
  -- The blocks that the listener still has, and those that are being submitted.
  abbrev pub pending : Listener e → List e.Block
  pending (collecting blocks) = blocks
  pending (sending blocks) = blocks
  pending (ended blocks) = blocks
  pending handed = []

  abbrev pub in_flight : Submitter e → List e.Block
  in_flight waiting = []
  in_flight stopped = []
  in_flight (handling blocks) = blocks

  -- The blocks of the batches that were handled, in order.
  abbrev pub all_handled : List (List e.Block × Bool) → List e.Block
  all_handled [] = []
  all_handled (batch ∷ batches) = batch.0 ++ all_handled batches

  all_handled-append :
      (batches : List (List e.Block × Bool)) (blocks : List e.Block) (result : Bool)
      → all_handled (batches ++ (blocks, result) ∷ []) ≡ all_handled batches ++ blocks
  all_handled-append [] blocks result = append-nil blocks
  all_handled-append (batch ∷ batches) blocks result =
      simp (all_handled-append batches blocks result, append_assoc)

  abbrev pub IsConserved : Relayer e → Type 0
  IsConserved s =
      map e.new_block_with_header s.received
      ≡ all_handled s.handled ++ (in_flight s.submitter ++ pending s.listener)

  -- The equation of a state whose phases are known.
  at_phases :
      (s : Relayer e) (l : Listener e) (w : Submitter e)
      → s.listener ≡ l
      → s.submitter ≡ w
      → IsConserved s
      → map e.new_block_with_header s.received ≡ all_handled s.handled ++ (in_flight w ++ pending l)
  at_phases s l w p q k = k ∙ ap₂ (λ x y. all_handled s.handled ++ (in_flight y ++ pending x)) p q

  Step-IsConserved : {s t : Relayer e} → Step e s t → IsConserved s → IsConserved t
  Step-IsConserved (header s blocks h l) k =
      simp (map-append, at_phases s (collecting blocks) s.submitter l refl k, append_assoc)
  Step-IsConserved (empty_tick s l r) k = k
  Step-IsConserved (batch_tick s block blocks l r) k =
      at_phases s (collecting (block ∷ blocks)) s.submitter l refl k
  Step-IsConserved (stop_ticker s l) k = at_phases s handed s.submitter l refl k
  Step-IsConserved (listening_ends s blocks l) k =
      at_phases s (collecting blocks) s.submitter l refl k
  Step-IsConserved (hand_over s blocks l w) k =
      at_phases s (sending blocks) waiting l w k
      ∙ ap (λ x. all_handled s.handled ++ x) (sym (append-nil blocks))
  Step-IsConserved (handled_blocks s near blocks w) k =
      let result = succeeded (handle_blocks e near blocks) in
      at_phases s s.listener (handling blocks) refl w k
      ∙ sym (append_assoc (all_handled s.handled) blocks (pending s.listener))
      ∙ ap (λ x. x ++ pending s.listener) (sym (all_handled-append s.handled blocks result))
  Step-IsConserved (context_done s w) k = at_phases s s.listener waiting refl w k
  Step-IsConserved (fire s r) k = k

  -- However the two goroutines, the ticker and the headers interleave: the blocks of the headers
  -- that came are, in that order, those of the batches that were handled, then those of the batch
  -- that is being submitted, then those that the listener still has. None is lost between them,
  -- handled twice or out of order.
  pub Steps-IsConserved : {s : Relayer e} → Steps e (new_relayer e) s → IsConserved s
  Steps-IsConserved here = refl
  Steps-IsConserved (next r st) = Step-IsConserved st (Steps-IsConserved r)
