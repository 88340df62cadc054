-- ===== src/Blsagg/Digest/Sums.antt =====
-- What counts as signed for a digest, signature by signature (aggregator/blsagg/message_blsagg.go).
use mathlib.Core.Path.{subst}
use near_sffl.Prelude.{
  ℕ, ◌+◌, ◌≡◌, refl, sym, ap, ◌∙◌, inl, inr, List, [], ◌∷◌, some, ok, Outcome, ◌>>=◌, ok-injective,
  arith, All, Outcome-cases,
}
use near_sffl.Dict.{IsMap, lookup, insert, lookup-insert_self, lookup-insert_ne}
use near_sffl.Errors.{Error}
use near_sffl.Interface.{Bls, MessageType}
use near_sffl.Blsagg.Digest.{
  AggregatedOperators, OperatorAvsState, SignedMessage, ValidationInfo, stake_map, set_stake_map,
  add_stakes, add_signer, next_signer, handle_signed_message_digest,
}
use near_sffl.Blsagg.Digest.Stakes.{signed_stake, stake_at, stake_at-add_stakes}
use near_sffl.Blsagg.Digest.Growth.{Accepted-of_ok}

add_eq : {x y z w : ℕ} → x ≡ y → z ≡ w → x + z ≡ y + w
add_eq e f = omega (arith, e, f)

sum_through : (c d : ℕ) {a b e r : ℕ} → a ≡ b + r → b ≡ c + d → r ≡ e → a ≡ c + (d + e)
sum_through c d p q r = omega (arith, p, q, r)

module _ (b : Bls) (t : MessageType) where
  -- The digest has an entry, whose map is that of a known operator.
  abbrev pub IsOwned : ValidationInfo b → ℕ → ℕ → Type 0
  IsOwned info d owner =
      (entry : AggregatedOperators b) × (s : OperatorAvsState b) × (lookup d
          info.aggregated_operators
        ≡ some entry)
      × (entry.signers_stake_owner ≡ owner)
      × (lookup owner info.operators_avs_state ≡ some s)

  -- A signature of the digest by another operator.
  abbrev pub IsOther : ValidationInfo b → ℕ → ℕ → SignedMessage b t → Type 0
  IsOther info d owner m =
      (t.digest m.message ≡ ok d)
      × ¬ (owner ≡ m.operator_id)
      × IsMap (stake_map b info.operators_avs_state m.operator_id)

  -- The stakes of the operators that signed, once for each signature.
  abbrev pub stakes_of : ValidationInfo b → List (SignedMessage b t) → ℕ → ℕ
  stakes_of info [] q = 0
  stakes_of info (m ∷ ms) q =
      stake_at (stake_map b info.operators_avs_state m.operator_id) q + stakes_of info ms q

  -- The goroutine is handed one signed message after the other, and all are accepted.
  unfoldable pub sign_all :
      List (SignedMessage b t) → ValidationInfo b → Outcome Error (ValidationInfo b)
  sign_all [] info = ok info
  sign_all (m ∷ ms) info = handle_signed_message_digest b t m info >>= sign_all ms

  -- What an accepted signature of another operator leaves.
  abbrev Added : ValidationInfo b → ValidationInfo b → ℕ → ℕ → SignedMessage b t → Type 0
  Added info info' d owner m =
      IsOwned info' d owner
      × ((op : ℕ)
          → ¬ (owner ≡ op)
          → stake_map b info'.operators_avs_state op ≡ stake_map b info.operators_avs_state op)
      × ((q : ℕ)
          → signed_stake b info' d q
            ≡ signed_stake b info d q
              + stake_at (stake_map b info.operators_avs_state m.operator_id) q)

  -- The record after another operator's signature, by the states of the owner and the signer.
  abbrev added :
      ValidationInfo b
      → ℕ
      → ℕ
      → AggregatedOperators b
      → OperatorAvsState b
      → OperatorAvsState b
      → b.G2
      → SignedMessage b t
      → ValidationInfo b
  added info d owner entry s state pubkey m = record info {
    operators_avs_state =
        insert owner
          (record s { stake_per_quorum = add_stakes s.stake_per_quorum state.stake_per_quorum })
          info.operators_avs_state;
    aggregated_operators = insert d (next_signer b t m pubkey entry) info.aggregated_operators;
  }

  add_signer-added :
      (m : SignedMessage b t) (d : ℕ) (entry : AggregatedOperators b) (s state : OperatorAvsState b)
      (pubkey : b.G2) (info : ValidationInfo b)
      → lookup d info.aggregated_operators ≡ some entry
      → lookup entry.signers_stake_owner info.operators_avs_state ≡ some s
      → add_signer b t m d state pubkey info
        ≡ added info d entry.signers_stake_owner entry s state pubkey m
  unfolding add_signer
  add_signer-added m d entry s state pubkey info h k =
      rw (h, add_signer) (rw (k, set_stake_map) (rw (k, stake_map) refl))

  added-Added :
      (m : SignedMessage b t) (d : ℕ) (entry : AggregatedOperators b) (s state : OperatorAvsState b)
      (pubkey : b.G2) (info : ValidationInfo b)
      → lookup d info.aggregated_operators ≡ some entry
      → lookup entry.signers_stake_owner info.operators_avs_state ≡ some s
      → lookup m.operator_id info.operators_avs_state ≡ some state
      → IsMap (stake_map b info.operators_avs_state m.operator_id)
      → Added info
          (added info d entry.signers_stake_owner entry s state pubkey m)
          d
          entry.signers_stake_owner
          m
  unfolding next_signer
  added-Added m d entry s state pubkey info h k mine is_map =
      let owner = entry.signers_stake_owner in
      let old = s.stake_per_quorum in
      let sum : OperatorAvsState b = record s {
        stake_per_quorum = add_stakes old state.stake_per_quorum;
      } in
      let after = added info d owner entry s state pubkey m in
      let from_sum : stake_map b after.operators_avs_state owner ≡ sum.stake_per_quorum =
        rw (lookup-insert_self owner sum info.operators_avs_state, stake_map) refl in
      let from_old : stake_map b info.operators_avs_state owner ≡ old = rw (k, stake_map) refl in
      let from_mine : stake_map b info.operators_avs_state m.operator_id ≡ state.stake_per_quorum =
        rw (mine, stake_map) refl in
      let own_map : IsMap state.stake_per_quorum = subst IsMap from_mine is_map in
      (
        (
          next_signer b t m pubkey entry,
          sum,
          lookup-insert_self d _ info.aggregated_operators,
          refl,
          lookup-insert_self owner sum info.operators_avs_state,
        ),
        λ op n. rw (lookup-insert_ne owner op sum info.operators_avs_state n, stake_map) refl,
        λ q.
            signed_stake_at after d q (next_signer b t m pubkey entry)
              (lookup-insert_self d _ info.aggregated_operators)
            ∙ (ap (λ x. stake_at x q) from_sum
                ∙ (stake_at-add_stakes old state.stake_per_quorum q own_map
                    ∙ sym (
                        add_eq (signed_stake_at info d q entry h ∙ ap (λ x. stake_at x q) from_old)
                          (ap (λ x. stake_at x q) from_mine)))),
      )
    where
      signed_stake_at :
          (i : ValidationInfo b) (d q : ℕ) (e : AggregatedOperators b)
          → lookup d i.aggregated_operators ≡ some e
          → signed_stake b i d q
            ≡ stake_at (stake_map b i.operators_avs_state e.signers_stake_owner) q
      signed_stake_at i d q e h = rw (h, signed_stake) refl

  -- One accepted signature of another operator.
  signed-Added :
      (m : SignedMessage b t) (d owner : ℕ) (info info' : ValidationInfo b)
      → IsOwned info d owner
      → IsOther info d owner m
      → handle_signed_message_digest b t m info ≡ ok info'
      → Added info info' d owner m
  signed-Added m d owner info info' (entry, s, h, own, k) (digest, ne, is_map) accepted =
      let (state, pubkey, d', mine, _, _, e, f) = Accepted-of_ok b t m info info' accepted in
      let same : d' ≡ d = ok-injective d' d (sym e ∙ digest) in
      let k' = subst (λ o. lookup o info.operators_avs_state ≡ some s) (sym own) k in
      let f' =
        f
        ∙ (ap (λ x. add_signer b t m x state pubkey info) same
            ∙ add_signer-added m d entry s state pubkey info h k') in
      subst (λ i. Added info i d owner m) (sym f')
        (subst
          (λ o. Added info (added info d entry.signers_stake_owner entry s state pubkey m) d o m)
          own (added-Added m d entry s state pubkey info h k' mine is_map))

  -- The maps of the operators other than the owner are kept.
  abbrev IsKept : ValidationInfo b → ValidationInfo b → ℕ → Type 0
  IsKept info next owner =
      (op : ℕ)
      → ¬ (owner ≡ op)
      → stake_map b next.operators_avs_state op ≡ stake_map b info.operators_avs_state op

  IsOther-kept :
      (ms : List (SignedMessage b t)) (d owner : ℕ) (info next : ValidationInfo b)
      → IsKept info next owner
      → All (IsOther info d owner) ms
      → All (IsOther next d owner) ms
  IsOther-kept [] d owner info next kept others = tt
  IsOther-kept (m ∷ ms) d owner info next kept ((digest, ne, is_map), others) = (
    (digest, ne, subst IsMap (sym (kept m.operator_id ne)) is_map),
    IsOther-kept ms d owner info next kept others,
  )

  stakes_of-kept :
      (ms : List (SignedMessage b t)) (d owner q : ℕ) (info next : ValidationInfo b)
      → IsKept info next owner
      → All (IsOther info d owner) ms
      → stakes_of next ms q ≡ stakes_of info ms q
  stakes_of-kept [] d owner q info next kept others = refl
  stakes_of-kept (m ∷ ms) d owner q info next kept ((_, ne, _), others) =
      add_eq (ap (λ x. stake_at x q) (kept m.operator_id ne))
        (stakes_of-kept ms d owner q info next kept others)

  -- Once a digest has its first signature, by a known operator, each accepted signature of another
  -- operator for it adds that operator's own stake to what counts as signed for the digest, in each
  -- quorum, and no more. An operator's stakes have one entry for each quorum at most.
  pub signed_stake_is_sum :
      (ms : List (SignedMessage b t)) (d owner q : ℕ) (info info' : ValidationInfo b)
      → IsOwned info d owner
      → All (IsOther info d owner) ms
      → sign_all ms info ≡ ok info'
      → signed_stake b info' d q ≡ signed_stake b info d q + stakes_of info ms q
  unfolding sign_all
  signed_stake_is_sum [] d owner q info info' owned others h =
      subst (λ i. signed_stake b i d q ≡ signed_stake b info d q + 0) (ok-injective info info' h)
        (omega arith)
  signed_stake_is_sum (m ∷ ms) d owner q info info' owned (other, others) h =
      elim (Outcome-cases (handle_signed_message_digest b t m info)) [
        | inr (inl (e, k)) ↦ let g = rw k at h in absurd (ground arith)
        | inr (inr k) ↦ let g = rw k at h in absurd (ground arith)
        | inl (next, k) ↦
            let (owned', kept, adds) = signed-Added m d owner info next owned other k in
            let rest =
              signed_stake_is_sum ms d owner q next info' owned'
                (IsOther-kept ms d owner info next kept others) (rw k at h) in
            sum_through (signed_stake b info d q)
              (stake_at (stake_map b info.operators_avs_state m.operator_id) q) rest (adds q)
              (stakes_of-kept ms d owner q info next kept others)
      ]
