-- ===== src/Operator/RpcClient/Resend.antt =====
-- The loop of `tryResendFromDeque` (operator/rpc_client.go), which compacts the queue in place,
-- computes the queue that it is meant to.
use mathlib.Core.List.{append-nil, append_assoc}
use near_sffl.Prelude.{
  ℕ, suc, ◌+◌, ◌≡◌, refl, sym, ap, ◌∙◌, inl, inr, List, [], ◌∷◌, ◌++◌, Option, some, arith, leb,
  ◌==◌, length, get_elem?, set, take, drop, length-append, Bool-cases, Option-cases,
}
use near_sffl.Operator.RpcClient.{
  CallError, is_shutdown_or_network_error, max_retries, Unsent, Loop, move_rest, keep_or_drop,
  stop_at, resend_loop, try_resend_from_deque, resent,
}

module _ {ℓ} {A : Type ℓ} where
  get_elem?-append :
      (xs : List A) (e : A) (es : List A) → get_elem? (xs ++ e ∷ es) (length xs) ≡ some e
  get_elem?-append [] e es = refl
  get_elem?-append (x ∷ xs) e es = get_elem?-append xs e es

  set-append :
      (xs : List A) (y v : A) (ys : List A)
      → set (xs ++ y ∷ ys) (length xs) v ≡ (xs ++ v ∷ []) ++ ys
  set-append [] y v ys = refl
  set-append (x ∷ xs) y v ys = ap (◌∷◌ x) (set-append xs y v ys)

  -- The slot in front of the entries that are left is free, or is that of the entry just read.
  free_slot :
      (junk : List A) (e : A) (es : List A)
      → (y : A) × (junk' : List A) × (junk ++ e ∷ es ≡ y ∷ (junk' ++ es))
        × (length junk' ≡ length junk)
  free_slot [] e es = (e, [], refl, refl)
  free_slot (j ∷ js) e es = (
    j,
    js ++ e ∷ [],
    ap (◌∷◌ j) (sym (append_assoc js (e ∷ []) es)),
    omega (arith, length-append js (e ∷ [])),
  )

  take-append : (xs ys : List A) → take (length xs) (xs ++ ys) ≡ xs
  take-append [] ys = refl
  take-append (x ∷ xs) ys = ap (◌∷◌ x) (take-append xs ys)

  drop-append : (xs ys : List A) → drop (length xs) (xs ++ ys) ≡ ys
  drop-append [] ys = refl
  drop-append (x ∷ xs) ys = drop-append xs ys

  length_snoc : (xs : List A) (x : A) → length (xs ++ x ∷ []) ≡ suc (length xs)
  length_snoc xs x = omega (arith, length-append xs (x ∷ []))

module _ {ℓ} {M : Type ℓ} where
  -- The array holds what is kept, then slots that are free, then the entries that are left.
  abbrev Holds : Loop M → ℕ → List (Unsent M) → List (Unsent M) → List (Unsent M) → Type ℓ
  Holds s i kept junk rest =
      (s.array ≡ kept ++ (junk ++ rest))
      × (s.error_pos ≡ length kept)
      × (i ≡ length kept + length junk)

  -- Keeping an entry writes it into the first free slot.
  Holds-keep :
      (s : Loop M) (i : ℕ) (kept junk : List (Unsent M)) (e v : Unsent M) (es : List (Unsent M))
      → Holds s i kept junk (e ∷ es)
      → (junk' : List (Unsent M)) × Holds
          (record s { array = set s.array s.error_pos v; error_pos = suc s.error_pos })
          (suc i)
          (kept ++ v ∷ [])
          junk'
          es
  Holds-keep s i kept junk e v es (a, p, q) =
      let (y, junk', f, l) = free_slot junk e es in
      (
        junk',
        (
          rw (a, p, f) (set-append kept y v (junk' ++ es)),
          omega (arith, p, length_snoc kept v),
          omega (arith, q, l, length_snoc kept v),
        ),
      )

  -- So does dropping it, which frees its slot.
  Holds-drop :
      (s : Loop M) (i : ℕ) (kept junk : List (Unsent M)) (e : Unsent M) (es : List (Unsent M))
      → Holds s i kept junk (e ∷ es)
      → Holds s (suc i) kept (junk ++ e ∷ []) es
  Holds-drop s i kept junk e es (a, p, q) = (
    a ∙ ap (◌++◌ kept) (sym (append_assoc junk (e ∷ []) es)),
    p,
    omega (arith, q, length_snoc junk e),
  )

  Holds-get :
      (s : Loop M) (i : ℕ) (kept junk : List (Unsent M)) (e : Unsent M) (es : List (Unsent M))
      → Holds s i kept junk (e ∷ es)
      → get_elem? s.array i ≡ some e
  Holds-get s i kept junk e es (a, p, q) =
      let at : i ≡ length (kept ++ junk) = omega (arith, q, length-append kept junk) in
      rw (a, at, ← append_assoc kept junk (e ∷ es)) (get_elem?-append (kept ++ junk) e es)

  Holds-take :
      (s : Loop M) (i : ℕ) (kept junk rest : List (Unsent M))
      → Holds s i kept junk rest
      → take s.error_pos s.array ≡ kept
  Holds-take s i kept junk rest (a, p, q) = rw (a, p) (take-append kept (junk ++ rest))

  -- The inner loop moves all entries that are left behind those kept.
  move_rest_lem :
      (rest : List (Unsent M)) (s : Loop M) (i : ℕ) (kept junk : List (Unsent M))
      → Holds s i kept junk rest
      → let t = move_rest (length rest) i s in
        (take t.error_pos t.array ≡ kept ++ rest) × (t.calls ≡ s.calls)
  unfolding move_rest
  move_rest_lem [] s i kept junk h = (Holds-take s i kept junk [] h ∙ sym (append-nil kept), refl)
  move_rest_lem (e ∷ es) s i kept junk h =
      let (junk', h') = Holds-keep s i kept junk e e es h in
      let (q, c) =
        move_rest_lem es
          (record s { array = set s.array s.error_pos e; error_pos = suc s.error_pos }) (suc i)
          (kept ++ e ∷ []) junk' h' in
      rw (Holds-get s i kept junk e es h, move_rest) (q ∙ append_assoc kept (e ∷ []) es, c)

  nil_of_length : (kept : List (Unsent M)) → 0 ≡ length kept → kept ≡ []
  nil_of_length [] h = refl
  nil_of_length (x ∷ xs) h = absurd (omega arith)

  -- A failure of the connection keeps what was kept and all that is left.
  stop_lem :
      (rest : List (Unsent M)) (s : Loop M) (i : ℕ) (kept junk : List (Unsent M))
      → Holds s i kept junk rest
      → ((stop_at (length rest) i s).0 ≡ kept ++ rest) × ((stop_at (length rest) i s).1 ≡ s.calls)
  unfolding stop_at
  stop_lem rest s i kept junk (a, p, q) = elim (Bool-cases (s.error_pos == 0)) [
    | inr b ↦ rw b (move_rest_lem rest s i kept junk (a, p, q))
    | inl b ↦
        let at : i ≡ length (kept ++ junk) = omega (arith, q, length-append kept junk) in
        rw b (
          rw (a, at, ← append_assoc kept junk rest)
            (
              drop-append (kept ++ junk) rest
                  ∙ ap (λ k. k ++ rest) (sym (nil_of_length kept (ground arith))),
              refl,
            ))
  ]

  abbrev sent : Loop M → Unsent M → Loop M
  sent s e = record s { calls = s.calls ++ e.message ∷ [] }

  loop_lem :
      (answer : ℕ → M → Option CallError) (rest : List (Unsent M)) (s : Loop M) (i : ℕ)
      (kept junk : List (Unsent M))
      → Holds s i kept junk rest
      → (resend_loop answer (length rest) i s).0 ≡ kept ++ resent answer i rest
  unfolding resend_loop resent
  loop_lem answer [] s i kept junk h = Holds-take s i kept junk [] h ∙ sym (append-nil kept)
  loop_lem answer (e ∷ es) s i kept junk h =
      rw (Holds-get s i kept junk e es h, resend_loop)
        (elim (Option-cases (answer i e.message)) [
          | inl a ↦
              rw (a, resend_loop, resent)
                (loop_lem answer es (sent s e) (suc i) kept (junk ++ e ∷ [])
                  (Holds-drop s i kept junk e es h))
          | inr (x, a) ↦
              rw (a, resend_loop, resent)
                (elim (Bool-cases (is_shutdown_or_network_error x)) [
                  | inl b ↦
                      rw (b, resend_loop, resent) (stop_lem (e ∷ es) (sent s e) i kept junk h).0
                  | inr b ↦
                      rw (b, resend_loop, resent)
                        (elim (Bool-cases (leb max_retries (suc e.retries))) [
                          | inl c ↦
                              rw (c, keep_or_drop)
                                (loop_lem answer es (sent s e) (suc i) kept (junk ++ e ∷ [])
                                  (Holds-drop s i kept junk e es h))
                          | inr c ↦
                              let v = record e { retries = suc e.retries } in
                              let (junk', h') = Holds-keep (sent s e) i kept junk e v es h in
                              rw (c, keep_or_drop)
                                (loop_lem answer es _ (suc i) (kept ++ v ∷ []) junk' h'
                                  ∙ append_assoc kept (v ∷ []) _)
                        ])
                ])
        ])

  -- The queue after a resend is the one that sending each message in turn leaves: the messages
  -- whose call failed for a reason other than the connection, in order, each with one more retry
  -- and without those that then have ten, and from a failure of the connection on all messages as
  -- they were.
  pub try_resend_from_deque-resent :
      (answer : ℕ → M → Option CallError) (unsent : List (Unsent M))
      → (try_resend_from_deque answer unsent).0 ≡ resent answer 0 unsent
  unfolding try_resend_from_deque
  try_resend_from_deque-resent answer unsent = loop_lem answer unsent _ 0 [] [] (refl, refl, refl)
