-- ===== src/Blsagg/Digest/Stakes.antt =====
-- The numbers that a signature adds to a digest (aggregator/blsagg/message_blsagg.go).
use near_sffl.Prelude.{ℕ, ◌+◌, ◌≡◌, ap, [], ◌∷◌, none, some, arith}
use near_sffl.Dict.{Dict, IsMap, lookup, insert, lookup-insert, insert-IsMap, lookup_of_not_has}
use near_sffl.Interface.{Bls}
use near_sffl.Blsagg.Digest.{OperatorAvsState, ValidationInfo, or_zero, add_stakes, stake_map}

abbrev pub stake_at : Dict ℕ → ℕ → ℕ
stake_at m q = or_zero (lookup q m)

-- The loop adds, quorum by quorum.
pub stake_at-add_stakes :
    (m xs : Dict ℕ) (q : ℕ) → IsMap xs → stake_at (add_stakes m xs) q ≡ stake_at m q + stake_at xs q
unfolding add_stakes lookup
stake_at-add_stakes m [] q h = omega arith
stake_at-add_stakes m ((k, s) ∷ xs) q h = ground (
  arith,
  stake_at-add_stakes (insert k (stake_at m k + s) m) xs q h.1,
  lookup-insert k q (stake_at m k + s) m,
  lookup_of_not_has k xs h.0,
  ap (λ i. lookup i m) {x = k} {y = q},
)

pub add_stakes-IsMap : (m xs : Dict ℕ) → IsMap m → IsMap (add_stakes m xs)
unfolding add_stakes
add_stakes-IsMap m [] h = h
add_stakes-IsMap m ((k, s) ∷ xs) h =
    add_stakes-IsMap (insert k (stake_at m k + s) m) xs (insert-IsMap k (stake_at m k + s) m h)

module _ (b : Bls) where
  -- What an operator has at stake in a quorum, and what has been signed for a digest.
  abbrev pub own_stake : Dict (OperatorAvsState b) → ℕ → ℕ → ℕ
  own_stake ops op q = stake_at (stake_map b ops op) q

  abbrev pub signed_stake : ValidationInfo b → ℕ → ℕ → ℕ
  signed_stake info d q = elim (lookup d info.aggregated_operators) [
    | none ↦ 0
    | some e ↦ own_stake info.operators_avs_state e.signers_stake_owner q
  ]
