-- ===== src/Blsagg/Service/Lifecycle.antt =====
-- The life of a message in the service of aggregator/blsagg/message_blsagg.go.
use near_sffl.Prelude.{
  ℕ, ◌≡◌, refl, ◌∙◌, ap, inl, inr, List, [], ◌∷◌, false, Option, none, some, ok, err, Option-cases,
  Outcome-cases, ◌==◌, ==_refl, ==_ne,
}
use near_sffl.Dict.{
  lookup, insert, lookup-insert, lookup-insert_self, lookup-insert_ne, ne_of_lookup, lookup-delete,
}
use near_sffl.Errors.{Error, message_not_found}
use near_sffl.Interface.{Bls, MessageType}
use near_sffl.Blsagg.Stake.{validate_quorum_threshold_percentages}
use near_sffl.Blsagg.Response.{GetIndices}
use near_sffl.Blsagg.Collector.{Collector, Phase, pre_threshold, returned, Event, timer, step}
use near_sffl.Blsagg.Collector.Rounds.{step_expired}
use near_sffl.Blsagg.Service.{
  Chain, Reader, unread, read_by, Service, delivered, blocked, fetch_validation_info,
  initialize_message_if_not_exists, process_new_signature, expire, advance, settle,
  initialize_channel, receive,
}

-- A call on the service.
pub data Call (b : Bls) (t : MessageType) : Type 0 where
  initialize : Chain b → ℕ → List ℕ → List ℕ → ℕ → Call b t
  process : GetIndices → t.Message → b.Signature → ℕ → Call b t
  time_out : GetIndices → ℕ → Call b t

module _ (b : Bls) (t : MessageType) where
  pub apply : Call b t → Service b t → Service b t
  apply (initialize chain key qs ps block) s =
      (initialize_message_if_not_exists b t chain key qs ps block s).0
  apply (process g m sig op) s = (process_new_signature b t g none m sig op s).0
  apply (time_out g key) s = expire b t g key s

  pub calls : List (Call b t) → Service b t → Service b t
  calls [] s = s
  calls (c ∷ cs) s = calls cs (apply c s)

  key_ne :
      (k key : ℕ) (c : Collector b t) (s : Service b t)
      → lookup k s ≡ some unread
      → lookup key s ≡ some (read_by c)
      → (key == k) ≡ false
  key_ne k key c s h g = ==_ne key k (λ e. cc (ap (λ i. lookup i s) e))

  -- A goroutine that moves on leaves a channel that nobody reads alone.
  settle_unread :
      (k key : ℕ) (p : Phase t) (c c' : Collector b t) (s : Service b t)
      → lookup k s ≡ some unread
      → lookup key s ≡ some (read_by c)
      → lookup k (settle b t key p c' s) ≡ some unread
  unfolding settle
  settle_unread k key returned c c' s h g = rw (lookup-delete key k s, key_ne k key c s h g) h
  settle_unread k key _ c c' s h g = rw (lookup-insert key k (read_by c') s, key_ne k key c s h g) h

  advance_unread :
      (k key : ℕ) (c : Collector b t) (e : Event b t) (s : Service b t)
      → lookup k s ≡ some unread
      → lookup key s ≡ some (read_by c)
      → lookup k (advance b t key c e s).0 ≡ some unread
  unfolding advance
  advance_unread k key c e s h g = let c' = step b t c e in settle_unread k key c'.phase c c' s h g

  initialize_unread :
      (k : ℕ) (chain : Chain b) (key : ℕ) (qs ps : List ℕ) (block : ℕ) (s : Service b t)
      → lookup k s ≡ some unread
      → lookup k (initialize_message_if_not_exists b t chain key qs ps block s).0 ≡ some unread
  unfolding initialize_message_if_not_exists
  initialize_unread k chain key qs ps block s h =
      elim (Option-cases (validate_quorum_threshold_percentages ps)) [
        | inr (x, e) ↦ rw (e, initialize_message_if_not_exists) h
        | inl e ↦
            rw (e, initialize_message_if_not_exists)
              (elim (Option-cases (lookup key s)) [
                | inr (r, g) ↦ rw (g, initialize_channel) h
                | inl g ↦
                    rw (g, initialize_channel)
                      (elim (Outcome-cases (fetch_validation_info b chain qs ps block)) [
                        | inl (info, f) ↦ rw (f, initialize_channel) (other _ g)
                        | inr (inl (x, f)) ↦ rw (f, initialize_channel) (other unread g)
                        | inr (inr f) ↦ rw (f, initialize_channel) (other unread g)
                      ])
              ])
      ]
    where
      other : (v : Reader b t) → lookup key s ≡ none → lookup k (insert key v s) ≡ some unread
      other v g = lookup-insert_ne key k v s (ne_of_lookup key k s g h) ∙ h

  process_unread :
      (k : ℕ) (g : GetIndices) (m : t.Message) (sig : b.Signature) (op : ℕ) (s : Service b t)
      → lookup k s ≡ some unread
      → lookup k (process_new_signature b t g none m sig op s).0 ≡ some unread
  unfolding process_new_signature
  process_unread k g m sig op s h = elim (Option-cases (lookup (t.key m) s)) [
    | inl e ↦ rw (e, process_new_signature) h
    | inr (r, e) ↦
        rw (e, process_new_signature)
          (elim (Outcome-cases (t.digest m)) [
            | inr (inl (x, d)) ↦ rw (d, process_new_signature) h
            | inr (inr d) ↦ rw (d, process_new_signature) h
            | inl (digest, d) ↦ rw (d, process_new_signature) (taken r digest e)
          ])
  ]
    where
      taken :
          (r : Reader b t) (digest : ℕ)
          → lookup (t.key m) s ≡ some r
          → lookup k (receive b t g none m digest sig op s r).0 ≡ some unread
      taken unread digest e = h
      taken (read_by c) digest e = advance_unread k (t.key m) c _ s h e

  expire_unread :
      (k : ℕ) (g : GetIndices) (key : ℕ) (s : Service b t)
      → lookup k s ≡ some unread
      → lookup k (expire b t g key s) ≡ some unread
  unfolding expire
  expire_unread k g key s h = elim (Option-cases (lookup key s)) [
    | inl e ↦ rw (e, expire) h
    | inr (unread, e) ↦ rw (e, expire) h
    | inr (read_by c, e) ↦ rw (e, expire) (advance_unread k key c (timer g) s h e)
  ]

  apply_unread :
      (k : ℕ) (c : Call b t) (s : Service b t)
      → lookup k s ≡ some unread
      → lookup k (apply c s) ≡ some unread
  unfolding apply
  apply_unread k (initialize chain key qs ps block) s h =
      initialize_unread k chain key qs ps block s h
  apply_unread k (process g m sig op) s h = process_unread k g m sig op s h
  apply_unread k (time_out g key) s h = expire_unread k g key s h

  calls_unread :
      (k : ℕ) (cs : List (Call b t)) (s : Service b t)
      → lookup k s ≡ some unread
      → lookup k (calls cs s) ≡ some unread
  unfolding calls
  calls_unread k [] s h = h
  calls_unread k (c ∷ cs) s h = calls_unread k cs (apply c s) (apply_unread k c s h)

  blocked_of_unread :
      (g : GetIndices) (m : t.Message) (sig : b.Signature) (op digest : ℕ) (s : Service b t)
      → lookup (t.key m) s ≡ some unread
      → t.digest m ≡ ok digest
      → (process_new_signature b t g none m sig op s).1 ≡ blocked
  unfolding process_new_signature
  blocked_of_unread g m sig op digest s h d =
      rw (h, process_new_signature) (rw (d, process_new_signature))

  initialize_failed :
      (chain : Chain b) (key : ℕ) (qs ps : List ℕ) (block : ℕ) (e : Error) (s : Service b t)
      → lookup key s ≡ none
      → validate_quorum_threshold_percentages ps ≡ none
      → fetch_validation_info b chain qs ps block ≡ err e
      → initialize_message_if_not_exists b t chain key qs ps block s ≡ (insert key unread s, err e)
  unfolding initialize_message_if_not_exists
  initialize_failed chain key qs ps block e s h v f =
      rw (v, initialize_message_if_not_exists)
        (rw (h, initialize_channel) (rw (f, initialize_channel)))

  -- Where the message has a channel already, nothing changes and no error is returned.
  initialize_again :
      (chain : Chain b) (key : ℕ) (qs ps : List ℕ) (block : ℕ) (r : Reader b t) (s : Service b t)
      → lookup key s ≡ some r
      → validate_quorum_threshold_percentages ps ≡ none
      → initialize_message_if_not_exists b t chain key qs ps block s ≡ (s, ok tt)
  unfolding initialize_message_if_not_exists
  initialize_again chain key qs ps block r s h v =
      rw (v, initialize_message_if_not_exists) (rw (h, initialize_channel))

  -- Where the chain's answer fails while a message is initialized, the error is returned, and the
  -- message is stuck: whatever calls follow, a signature of a message with that key is handed to
  -- nobody, and a further initialization does nothing and reports success.
  pub failed_fetch_wedges_message :
      (chain later : Chain b) (m : t.Message) (qs ps qs' ps' : List ℕ) (block block' digest : ℕ)
      (e : Error) (s : Service b t) (cs : List (Call b t)) (g : GetIndices) (sig : b.Signature)
      (op : ℕ)
      → lookup (t.key m) s ≡ none
      → t.digest m ≡ ok digest
      → validate_quorum_threshold_percentages ps ≡ none
      → validate_quorum_threshold_percentages ps' ≡ none
      → fetch_validation_info b chain qs ps block ≡ err e
      → let (s', result) = initialize_message_if_not_exists b t chain (t.key m) qs ps block s in
        let end = calls cs s' in
        (result ≡ err e)
        × ((process_new_signature b t g none m sig op end).1 ≡ blocked)
        × (initialize_message_if_not_exists b t later (t.key m) qs' ps' block' end ≡ (end, ok tt))
  failed_fetch_wedges_message chain later m qs ps qs' ps' block block' digest e s cs g sig op h d v
        v' f =
      rw (initialize_failed chain (t.key m) qs ps block e s h v f) (
        refl,
        blocked_of_unread g m sig op digest _ stuck d,
        initialize_again later (t.key m) qs' ps' block' unread _ stuck v',
      )
    where
      stuck : lookup (t.key m) (calls cs (insert (t.key m) unread s)) ≡ some unread
      stuck = calls_unread (t.key m) cs _ (lookup-insert_self (t.key m) unread s)

  process_not_found :
      (g : GetIndices) (ctx : Option Error) (m : t.Message) (sig : b.Signature) (op : ℕ)
      (s : Service b t)
      → lookup (t.key m) s ≡ none
      → process_new_signature b t g ctx m sig op s
        ≡ (s, delivered (some (message_not_found (t.key m))))
  unfolding process_new_signature
  process_not_found g ctx m sig op s h = rw (h, process_new_signature)

  expired_lookup :
      (g : GetIndices) (key : ℕ) (c : Collector b t) (s : Service b t)
      → lookup key s ≡ some (read_by c)
      → c.phase ≡ pre_threshold
      → lookup key (expire b t g key s) ≡ none
  unfolding expire
  expired_lookup g key c s h p =
      rw (h, expire)
        (rw (step_expired b t c g p, advance) (rw (lookup-delete key key s, ==_refl key)))

  -- The timer ends a message that is below its thresholds: its channel goes, and a later
  -- signature for it is told that the message is not there and changes nothing.
  pub expired_message_is_gone :
      (g g' : GetIndices) (ctx : Option Error) (m : t.Message) (sig : b.Signature) (op : ℕ)
      (c : Collector b t) (s : Service b t)
      → lookup (t.key m) s ≡ some (read_by c)
      → c.phase ≡ pre_threshold
      → let s' = expire b t g (t.key m) s in
        (lookup (t.key m) s' ≡ none)
        × (process_new_signature b t g' ctx m sig op s'
            ≡ (s', delivered (some (message_not_found (t.key m)))))
  expired_message_is_gone g g' ctx m sig op c s h p =
      let gone = expired_lookup g (t.key m) c s h p in
      (gone, process_not_found g' ctx m sig op (expire b t g (t.key m) s) gone)
