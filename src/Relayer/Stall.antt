-- ===== src/Relayer/Stall.antt =====
-- How the goroutines of relayer/relayer.go can stop each other.
use near_sffl.Prelude.{◌≡◌, refl, ap, ◌∙◌, List, [], ◌∷◌, ◌++◌, Bool, true, false}
use near_sffl.Interface.{Eth}
use near_sffl.Relayer.{
  Near, Listener, collecting, sending, ended, handed, Submitter, waiting, stopped, handling,
  Relayer, Step, header, empty_tick, batch_tick, stop_ticker, listening_ends, hand_over,
  handled_blocks, context_done, fire, Steps, here, next, succeeded, handle_blocks,
}

module _ (e : Eth) where
  -- The listener is not about to hand a batch over, nor to stop the ticker.
  abbrev is_idle : Listener e → Bool
  is_idle (collecting blocks) = true
  is_idle (ended blocks) = true
  is_idle (sending blocks) = false
  is_idle handed = false

  abbrev is_resting : Submitter e → Bool
  is_resting waiting = true
  is_resting stopped = true
  is_resting (handling blocks) = false

  -- No tick will come, and no batch is on its way.
  record IsStalled (s : Relayer e) : Type 0 where
    quiet : s.ticking ≡ false
    no_tick : s.tick_ready ≡ false
    resting : is_resting s.submitter ≡ true
    idle : is_idle s.listener ≡ true

  Step-IsStalled :
      {s t : Relayer e} → Step e s t → IsStalled s → IsStalled t × (t.handled ≡ s.handled)
  Step-IsStalled (header s blocks h l) k =
      (record { quiet = k.quiet; no_tick = k.no_tick; resting = k.resting; idle = refl }, refl)
  Step-IsStalled (empty_tick s l r) k = absurd (cc (k.no_tick, r))
  Step-IsStalled (batch_tick s block blocks l r) k = absurd (cc (k.no_tick, r))
  Step-IsStalled (stop_ticker s l) k = absurd (cc (k.idle, ap is_idle l))
  Step-IsStalled (listening_ends s blocks l) k =
      (record { quiet = k.quiet; no_tick = k.no_tick; resting = k.resting; idle = refl }, refl)
  Step-IsStalled (hand_over s blocks l w) k = absurd (cc (k.idle, ap is_idle l))
  Step-IsStalled (handled_blocks s near blocks w) k = absurd (cc (k.resting, ap is_resting w))
  Step-IsStalled (context_done s w) k =
      (record { quiet = k.quiet; no_tick = k.no_tick; resting = refl; idle = k.idle }, refl)
  Step-IsStalled (fire s r) k = absurd (cc (k.quiet, r))

  Steps-IsStalled :
      {s t : Relayer e} → IsStalled s → Steps e s t → IsStalled t × (t.handled ≡ s.handled)
  Steps-IsStalled k here = (k, refl)
  Steps-IsStalled k (next r st) =
      let (k', same) = Steps-IsStalled k r in
      let (k'', same') = Step-IsStalled st k' in (k'', same' ∙ same)

  Steps-after : {s t u : Relayer e} → Step e s t → Steps e t u → Steps e s u
  Steps-after first here = next here first
  Steps-after first (next r st) = next (Steps-after first r) st

  -- A list with an item at its end has a first one.
  append-cons :
      (blocks : List e.Block) (block : e.Block)
      → (first : e.Block) × (rest : List e.Block) × (blocks ++ block ∷ [] ≡ first ∷ rest)
  append-cons [] block = (block, [], refl)
  append-cons (first ∷ blocks) block = (first, blocks ++ block ∷ [], refl)

  -- The submitter is done with a batch, and has reset the ticker, before the listener that handed
  -- the batch over comes to stop it.
  overtaken :
      (near : Near e) (s : Relayer e) (first : e.Block) (rest : List e.Block)
      → s.listener ≡ collecting (first ∷ rest)
      → s.submitter ≡ waiting
      → s.ticking ≡ true
      → (u : Relayer e) × Steps e s u
        × (u.received ≡ s.received)
        × (u.listener ≡ collecting [])
        × (u.submitter ≡ waiting)
        × IsStalled u
  overtaken near s first rest l w t =
      let fired = fire s t in
      let ticked = batch_tick (record s { tick_ready = true }) first rest l refl in
      let over =
        hand_over (record s { tick_ready = false; listener = sending (first ∷ rest) })
          (first ∷ rest) refl w in
      let done =
        handled_blocks
          (record s { tick_ready = false; listener = handed; submitter = handling (first ∷ rest) })
          near (first ∷ rest) refl in
      let stopped_late =
        stop_ticker
          (record s {
            tick_ready = false;
            listener = handed;
            submitter = waiting;
            ticking = true;
            handled =
                s.handled ++ (first ∷ rest, succeeded (handle_blocks e near (first ∷ rest))) ∷ [];
          })
          refl in
      (
        _,
        next (next (next (next (next here fired) ticked) over) done) stopped_late,
        refl,
        refl,
        refl,
        record { quiet = refl; no_tick = refl; resting = refl; idle = refl },
      )

  -- From any state in which the listener collects, the submitter waits and the ticker runs, one
  -- more header can be the last that matters: there are steps to a state in which the listener
  -- still collects headers and the submitter still waits for batches, and after which no batch is
  -- handled any more, whatever headers and steps follow.
  pub relayer_can_stall :
      (near : Near e) (s : Relayer e) (blocks : List e.Block) (h : e.Header)
      → s.listener ≡ collecting blocks
      → s.submitter ≡ waiting
      → s.ticking ≡ true
      → (u : Relayer e) × Steps e s u
        × (u.received ≡ s.received ++ h ∷ [])
        × (u.listener ≡ collecting [])
        × (u.submitter ≡ waiting)
        × ((t : Relayer e) → Steps e u t → t.handled ≡ u.handled)
  relayer_can_stall near s blocks h l w t =
      let block = e.new_block_with_header h in
      let (first, rest, same) = append-cons blocks block in
      let s' : Relayer e = record s {
        listener = collecting (blocks ++ block ∷ []);
        received = s.received ++ h ∷ [];
      } in
      let (u, after, received, collects, waits, stalled) =
        overtaken near s' first rest (ap collecting same) w t in
      (
        u,
        Steps-after (header s blocks h l) after,
        received,
        collects,
        waits,
        λ t' r. (Steps-IsStalled stalled r).1,
      )
