-- ===== src/Operator/RpcClient.antt =====
-- operator/rpc_client.go: sending to the aggregator, and the queue of messages that are sent again.
-- A message is one of three kinds, each sent by its own remote call; what a call answers is an
-- argument, one answer for each call. Listener calls (metrics) and logging are left out.
pub mod Resend
pub mod Queue
use near_sffl.Prelude.{
  Outcome, ok, err, abort, ◌-◌, ℕ, zero, suc, ◌+◌, ◌-◌, List, [], ◌∷◌, ◌++◌, Bool, true, false,
  Option, none, some, ltb, leb, ◌==◌, if◌then◌else◌, length, get_elem?, set, take, drop,
}
use near_sffl.Errors.{Error, Error-discrete, rpc_client_nil, mismatching_registry_coordinator}

-- An error of a remote call, as `isShutdownOrNetworkError` sees it.
pub data CallError : Type 0 where
  shutdown : CallError
  net_op_error : CallError
  other_error : Error → CallError

unfoldable pub is_shutdown_or_network_error : CallError → Bool
is_shutdown_or_network_error shutdown = true
is_shutdown_or_network_error net_op_error = true
is_shutdown_or_network_error (other_error e) = false

abbrev pub max_retries : ℕ
max_retries = 10

-- unsentRpcMessage
pub record Unsent {ℓ} (M : Type ℓ) : Type ℓ where
  pub message : M
  pub retries : ℕ

-- The variables of the loop in `tryResendFromDeque`: the array under `unsentMessages`, which the
-- loop overwrites from the front while it reads on, and `errorPos`. `calls` are the messages that
-- were sent, in order.
pub record Loop {ℓ} (M : Type ℓ) : Type ℓ where
  pub array : List (Unsent M)
  pub error_pos : ℕ
  pub calls : List M

module _ {ℓ} {M : Type ℓ} where
  -- The inner loop: the entries from `j` on move to `errorPos`.
  unfoldable pub move_rest : ℕ → ℕ → Loop M → Loop M
  move_rest zero j s = s
  move_rest (suc n) j s = elim (get_elem? s.array j) [
    | none ↦ s
    | some e ↦
        move_rest n (suc j)
          (record s { array = set s.array s.error_pos e; error_pos = suc s.error_pos })
  ]

  -- An entry whose call failed for another reason than the connection.
  unfoldable pub keep_or_drop : Unsent M → Loop M → Loop M
  keep_or_drop e s = if leb max_retries (suc e.retries) then s else record s {
    array = set s.array s.error_pos (record e { retries = suc e.retries });
    error_pos = suc s.error_pos;
  }

  -- A failure of the connection at the entry `i`, where `n` entries are left with it.
  unfoldable pub stop_at : ℕ → ℕ → Loop M → List (Unsent M) × List M
  unfolding move_rest
  stop_at n i s =
      if s.error_pos == 0
      then (drop i s.array, s.calls)
      else (let t = move_rest n i s in (take t.error_pos t.array, t.calls))

  -- The outer loop over `i`, with the entries that are left. `answer` is what the i-th call gives.
  -- The result is the queue that stands in the end.
  unfoldable pub resend_loop :
      (ℕ → M → Option CallError) → ℕ → ℕ → Loop M → List (Unsent M) × List M
  unfolding stop_at keep_or_drop
  resend_loop answer zero i s = (take s.error_pos s.array, s.calls)
  resend_loop answer (suc n) i s = elim (get_elem? s.array i) [
    | none ↦ (take s.error_pos s.array, s.calls)
    | some e ↦
        let s' = record s { calls = s.calls ++ e.message ∷ [] } in
        elim (answer i e.message) [
          | none ↦ resend_loop answer n (suc i) s'
          | some x ↦ elim (is_shutdown_or_network_error x) [
            | true ↦ stop_at (suc n) i s'
            | false ↦ resend_loop answer n (suc i) (keep_or_drop e s')
          ]
        ]
  ]

  -- The queue after the resend, and the messages that were sent.
  unfoldable pub try_resend_from_deque :
      (ℕ → M → Option CallError) → List (Unsent M) → List (Unsent M) × List M
  unfolding resend_loop
  try_resend_from_deque answer unsent =
      resend_loop answer (length unsent) 0 (record { array = unsent; error_pos = 0; calls = [] })

  -- What the code is meant to do, with no array: send each message in turn, keep those that failed
  -- with one more retry unless they have had ten, and stop at a failure of the connection, keeping
  -- all from there on.
  unfoldable pub resent : (ℕ → M → Option CallError) → ℕ → List (Unsent M) → List (Unsent M)
  resent answer i [] = []
  resent answer i (e ∷ es) = elim (answer i e.message) [
    | none ↦ resent answer (suc i) es
    | some x ↦ elim (is_shutdown_or_network_error x) [
      | true ↦ e ∷ es
      | false ↦
          let rest = resent answer (suc i) es in
          if leb max_retries (suc e.retries)
          then rest
          else record e { retries = suc e.retries } ∷ rest
    ]
  ]

-- AggregatorRpcClient: whether `rpcClient` is set, and the goroutines `handleRpcShutdown` that a
-- failed call has started and that have not run yet.
pub record Client {ℓ} (M : Type ℓ) : Type ℓ where
  pub connected : Bool
  pub pending_shutdowns : ℕ
  pub notified_initialized : Bool
  pub unsent_messages : List (Unsent M)

-- What the aggregator answers while the client dials: to the dial, to the calls
-- `GetRegistryCoordinatorAddress` and `NotifyOperatorInitialization`.
pub record Dialed : Type 0 where
  pub dial : Outcome Error (Unit {0})
  pub get_registry_coordinator_address : Outcome Error ℕ
  pub notify_operator_initialization : Outcome Error (Unit {0})

module _ {ℓ} {M : Type ℓ} where
  -- The end of `dialAggregatorRpcClient`: another address than that of the config is fatal.
  unfoldable pub check_address : ℕ → ℕ → Client M → Client M × Outcome Error (Unit {0})
  check_address registry_coordinator address c =
      if address == registry_coordinator then (record c { connected = true }, ok tt) else (c, abort)

  unfoldable pub notify_initialized :
      Dialed → ℕ → ℕ → Client M → Client M × Outcome Error (Unit {0})
  unfolding check_address
  notify_initialized d registry_coordinator address c =
      if c.notified_initialized
      then check_address registry_coordinator address c
      else elim d.notify_operator_initialization [
        | ok _ ↦
            check_address registry_coordinator address (record c { notified_initialized = true })
        | err e ↦ (c, err e)
        | abort ↦ (c, abort)
      ]

  unfoldable pub dial_aggregator_rpc_client :
      Dialed → ℕ → Client M → Client M × Outcome Error (Unit {0})
  unfolding notify_initialized
  dial_aggregator_rpc_client d registry_coordinator c =
      if c.connected then (c, ok tt) else elim d.dial [
        | err e ↦ (c, err e)
        | abort ↦ (c, abort)
        | ok _ ↦ elim d.get_registry_coordinator_address [
          | ok address ↦ notify_initialized d registry_coordinator address c
          | err e ↦ (c, err e)
          | abort ↦ (c, abort)
        ]
      ]

  unfoldable pub initialize_client_if_not_exist :
      Dialed → ℕ → Client M → Client M × Outcome Error (Unit {0})
  unfolding dial_aggregator_rpc_client
  initialize_client_if_not_exist d registry_coordinator c =
      if c.connected then (c, ok tt) else dial_aggregator_rpc_client d registry_coordinator c

  unfoldable pub handle_rpc_error : CallError → Client M → Client M
  handle_rpc_error e c =
      if is_shutdown_or_network_error e
      then record c { pending_shutdowns = suc c.pending_shutdowns }
      else c

  -- A started goroutine runs.
  unfoldable pub handle_rpc_shutdown : Client M → Client M
  handle_rpc_shutdown c = record c {
    connected = false;
    pending_shutdowns = c.pending_shutdowns - 1;
  }

  -- One round of `onTick`; a failure to dial ends the round.
  unfoldable pub on_tick :
      Dialed → ℕ → (ℕ → M → Option CallError) → Client M → Client M × Outcome Error (Unit {0})
  unfolding initialize_client_if_not_exist
  on_tick d registry_coordinator answer c =
      let (c', result) = initialize_client_if_not_exist d registry_coordinator c in
      elim result [
        | err e ↦ (c', ok tt)
        | abort ↦ (c', abort)
        | ok _ ↦ (
          record c' { unsent_messages = (try_resend_from_deque answer c'.unsent_messages).0 },
          ok tt,
        )
      ]

  unfoldable pub append_protected : M → Client M → Client M
  append_protected m c = record c {
    unsent_messages = c.unsent_messages ++ record { message = m; retries = 0 } ∷ [];
  }

  -- `answer` is what the remote call gives, where it is made.
  unfoldable pub send_operator_message : Option CallError → M → Client M → Client M
  unfolding append_protected handle_rpc_error
  send_operator_message answer m c =
      if c.connected
      then elim answer [ none ↦ c | some e ↦ append_protected m (handle_rpc_error e c) ]
      else append_protected m c

  unfoldable pub send_request {κ} :
      {A : Type κ} → Outcome CallError A → Client M → Client M × Outcome CallError A
  unfolding handle_rpc_error
  send_request answer c =
      if c.connected
      then elim answer [
        | ok a ↦ (c, ok a)
        | err e ↦ (handle_rpc_error e c, err e)
        | abort ↦ (c, abort)
      ]
      else (c, err (other_error rpc_client_nil))
