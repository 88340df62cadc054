-- ===== src/Operator/RpcClient/Queue.antt =====
-- What both ways into the queue of messages that are sent again leave there
-- (operator/rpc_client.go).
use mathlib.Core.Path.{subst}
use near_sffl.Prelude.{
  ℕ, suc, ◌<◌, ◌≡◌, refl, sym, ap, ◌∙◌, inl, inr, ◌⊎◌, List, [], ◌∷◌, ◌++◌, true, false, Option,
  none, some, arith, leb, if◌then◌else◌, All, All-append, Bool-cases, Option-cases,
}
use near_sffl.Operator.RpcClient.{
  CallError, shutdown, net_op_error, other_error, is_shutdown_or_network_error, max_retries, Unsent,
  resent, try_resend_from_deque, Client, append_protected, handle_rpc_error, send_operator_message,
}
use near_sffl.Operator.RpcClient.Resend.{try_resend_from_deque-resent}

module _ {ℓ} {M : Type ℓ} where
  -- The queue holds no message that has had all its retries.
  abbrev pub IsBounded : List (Unsent M) → Type 0
  IsBounded q = All (λ e. e.retries < max_retries) q

  resent-IsBounded :
      (answer : ℕ → M → Option CallError) (i : ℕ) (q : List (Unsent M))
      → IsBounded q
      → IsBounded (resent answer i q)
  unfolding resent
  resent-IsBounded answer i [] h = tt
  resent-IsBounded answer i (e ∷ es) (h, hs) =
      let rest = resent-IsBounded answer (suc i) es hs in
      elim (Option-cases (answer i e.message)) [
        | inl a ↦ rw (a, resent) rest
        | inr (x, a) ↦
            rw (a, resent)
              (elim (Bool-cases (is_shutdown_or_network_error x)) [
                | inl b ↦ rw (b, resent) (h, hs)
                | inr b ↦
                    rw (b, resent)
                      (elim (Bool-cases (leb max_retries (suc e.retries))) [
                        | inl c ↦ rw c rest
                        | inr c ↦ rw c (ground arith, rest)
                      ])
              ])
      ]

  handle_rpc_error-unsent_messages :
      (e : CallError) (c : Client M) → (handle_rpc_error e c).unsent_messages ≡ c.unsent_messages
  unfolding handle_rpc_error is_shutdown_or_network_error
  handle_rpc_error-unsent_messages shutdown c = refl
  handle_rpc_error-unsent_messages net_op_error c = refl
  handle_rpc_error-unsent_messages (other_error e) c = refl

  -- A message to the aggregator either is answered without an error, or is the last in the queue,
  -- with no retry used; the rest of the queue is as it was.
  send_operator_message_lem :
      (answer : Option CallError) (m : M) (c : Client M)
      → let c' = send_operator_message answer m c in
        ((c.connected ≡ true) × (answer ≡ none) × (c' ≡ c))
        ⊎ (((c.connected ≡ false) ⊎ ((e : CallError) × (answer ≡ some e)))
            × (c'.unsent_messages ≡ c.unsent_messages ++ record { message = m; retries = 0 } ∷ []))
  unfolding send_operator_message append_protected
  send_operator_message_lem none m c = elim (Bool-cases c.connected) [
    | inl b ↦ inl (b, refl, ap (λ b. if b then c else append_protected m c) b)
    | inr b ↦ inr (inl b, ap (λ b. (if b then c else append_protected m c).unsent_messages) b)
  ]
  send_operator_message_lem (some e) m c = elim (Bool-cases c.connected) [
    | inl b ↦ inr (
      inr (e, refl),
      ap
            (λ b.
              (if b
                then append_protected m (handle_rpc_error e c)
                else append_protected m c).unsent_messages)
            b
          ∙ ap (λ q. q ++ record { message = m; retries = 0 } ∷ [])
              (handle_rpc_error-unsent_messages e c),
    )
    | inr b ↦ inr (
      inl b,
      ap
          (λ b.
            (if b
              then append_protected m (handle_rpc_error e c)
              else append_protected m c).unsent_messages)
          b,
    )
  ]

  send_operator_message-IsBounded :
      (answer : Option CallError) (m : M) (c : Client M)
      → IsBounded c.unsent_messages
      → IsBounded (send_operator_message answer m c).unsent_messages
  send_operator_message-IsBounded answer m c h = elim (send_operator_message_lem answer m c) [
    | inl (_, _, e) ↦ subst (λ d. IsBounded d.unsent_messages) (sym e) h
    | inr (_, e) ↦
        subst IsBounded (sym e)
          (All-append (λ e. e.retries < max_retries) c.unsent_messages _ h (ground arith, tt))
  ]

  -- No entry of the queue has had ten retries or more, and neither a message that is sent nor a
  -- resend changes that.
  pub queue-IsBounded :
      (answer : ℕ → M → Option CallError) (reply : Option CallError) (m : M) (c : Client M)
      → IsBounded c.unsent_messages
      → IsBounded (try_resend_from_deque answer c.unsent_messages).0
        × IsBounded (send_operator_message reply m c).unsent_messages
  queue-IsBounded answer reply m c h = (
    rw (try_resend_from_deque-resent answer c.unsent_messages)
        (resent-IsBounded answer 0 c.unsent_messages h),
    send_operator_message-IsBounded reply m c h,
  )
