-- ===== src/Aggregator/Operators/Queries.antt =====
-- What the queries of aggregator/operator_registrations_inmemory.go answer, by the registrations and
-- the sockets that there were.
use near_sffl.Prelude.{
  ℕ, ◌≡◌, refl, sym, ap, ◌∙◌, List, [], ◌∷◌, Option, none, some, ◌==◌, if◌then◌else◌,
}
use near_sffl.Dict.{Dict, lookup}
use near_sffl.Interface.{Bls}
use near_sffl.Aggregator.Operators.{
  Pubkeys, Registrations, no_registrations, or_empty_socket, found, Registration, pubkey_registered,
  socket_updated, handle_registration, handle_registrations,
}

-- The second one stands where there is no first.
abbrev or_else {ℓ} : {A : Type ℓ} → Option A → Option A → Option A
or_else (some a) b = some a
or_else none b = b

or_else_assoc {ℓ} :
    {A : Type ℓ} (a b c : Option A) → or_else (or_else a b) c ≡ or_else a (or_else b c)
or_else_assoc none b c = refl
or_else_assoc (some a) b c = refl

module _ (b : Bls) (operator_id_from_g1 : b.G1 → ℕ) where
  -- The last of the events that tells something, with what it tells.
  unfoldable pub last_of :
      {V : Type 0}
      → (Registration b operator_id_from_g1 → Option V)
      → List (Registration b operator_id_from_g1)
      → Option V
  last_of tells [] = none
  last_of tells (e ∷ es) = or_else (last_of tells es) (tells e)

  -- What an event tells of the keys under an id, of the id of an address, of the socket of an id.
  abbrev pub keys_told : ℕ → Registration b operator_id_from_g1 → Option (Pubkeys b)
  keys_told id (pubkey_registered addr keys) =
      if operator_id_from_g1 keys.g1_pubkey == id then some keys else none
  keys_told id (socket_updated other socket) = none

  abbrev pub id_told : ℕ → Registration b operator_id_from_g1 → Option ℕ
  id_told addr (pubkey_registered other keys) =
      if other == addr then some (operator_id_from_g1 keys.g1_pubkey) else none
  id_told addr (socket_updated other socket) = none

  abbrev pub socket_told : ℕ → Registration b operator_id_from_g1 → Option ℕ
  socket_told id (pubkey_registered addr keys) = none
  socket_told id (socket_updated other socket) = if other == id then some socket else none

  -- A map in which each event writes what it tells reads as the last event that tells something.
  replayed :
      {V : Type 0} (read : Registrations b → Option V)
      (tells : Registration b operator_id_from_g1 → Option V)
      → ((e : Registration b operator_id_from_g1) (r : Registrations b)
          → read (handle_registration b operator_id_from_g1 e r) ≡ or_else (tells e) (read r))
      → (es : List (Registration b operator_id_from_g1)) (r : Registrations b)
      → read (handle_registrations b operator_id_from_g1 es r) ≡ or_else (last_of tells es) (read r)
  unfolding handle_registrations last_of
  replayed read tells one [] r = refl
  replayed read tells one (e ∷ es) r =
      replayed read tells one es (handle_registration b operator_id_from_g1 e r)
      ∙ ap (or_else (last_of tells es)) (one e r)
      ∙ sym (or_else_assoc (last_of tells es) (tells e) (read r))

  -- The operators of the past as events: each registers, and gives its socket, or the empty one.
  abbrev pub past : List ℕ → List (Pubkeys b) → Dict ℕ → List (Registration b operator_id_from_g1)
  past [] keys sockets = []
  past (a ∷ addrs) [] sockets = []
  past (a ∷ addrs) (k ∷ keys) sockets =
      pubkey_registered a k
      ∷ socket_updated (operator_id_from_g1 k.g1_pubkey)
          (or_empty_socket b operator_id_from_g1 (lookup (operator_id_from_g1 k.g1_pubkey) sockets))
      ∷ past addrs keys sockets

  -- The operator with an id: the keys registered last that hash to it, and its last socket.
  abbrev pub operator_of : List (Registration b operator_id_from_g1) → ℕ → Option (Pubkeys b × ℕ)
  operator_of history id =
      found b operator_id_from_g1 (last_of (keys_told id) history)
        (last_of (socket_told id) history)

  -- The operator with an address: that with the id of the keys registered last from the address.
  abbrev pub operator_at : Option ℕ → (ℕ → Option (Pubkeys b × ℕ)) → Option (Pubkeys b × ℕ)
  operator_at none operator = none
  operator_at (some id) operator = operator id

  module _ (history : List (Registration b operator_id_from_g1)) where
    abbrev now : Registrations b
    now =
        handle_registrations b operator_id_from_g1 history (no_registrations b operator_id_from_g1)
