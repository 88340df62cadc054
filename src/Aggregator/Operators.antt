-- ===== src/Aggregator/Operators.antt =====
-- aggregator/operator_registrations_inmemory.go: the registered operators. One goroutine owns the
-- maps; its cases are the steps. `OperatorIdFromG1Pubkey` is a parameter.
pub mod Queries
use near_sffl.Prelude.{
  ℕ, List, [], ◌∷◌, Bool, true, false, Option, none, some, Outcome, ok, err, abort,
}
use near_sffl.Dict.{Dict, lookup, insert}
use near_sffl.Errors.{Error}
use near_sffl.Interface.{Bls}

-- OperatorPubkeys
pub record Pubkeys (b : Bls) : Type 0 where
  pub g1_pubkey : b.G1
  pub g2_pubkey : b.G2

-- Addresses, ids and sockets are numbers.
pub record Registrations (b : Bls) : Type 0 where
  pub id_to_addr : Dict ℕ
  pub addr_to_id : Dict ℕ
  pub pubkeys_by_id : Dict (Pubkeys b)
  pub socket_by_id : Dict ℕ

module _ (b : Bls) (operator_id_from_g1 : b.G1 → ℕ) where
  abbrev pub no_registrations : Registrations b
  no_registrations = record {
    id_to_addr = [];
    addr_to_id = [];
    pubkeys_by_id = [];
    socket_by_id = [];
  }

  -- A new pubkey registration: address and keys.
  unfoldable pub register : ℕ → Pubkeys b → Registrations b → Registrations b
  register addr keys r =
      let id = operator_id_from_g1 keys.g1_pubkey in
      record r {
        id_to_addr = insert id addr r.id_to_addr;
        addr_to_id = insert addr id r.addr_to_id;
        pubkeys_by_id = insert id keys r.pubkeys_by_id;
      }

  unfoldable pub update_socket : ℕ → ℕ → Registrations b → Registrations b
  update_socket id socket r = record r { socket_by_id = insert id socket r.socket_by_id }

  abbrev pub or_empty_socket : Option ℕ → ℕ
  or_empty_socket none = 0
  or_empty_socket (some s) = s

  -- The loop of `queryPastRegisteredOperators`; a missing socket is the empty one, 0.
  unfoldable pub register_all :
      List ℕ → List (Pubkeys b) → Dict ℕ → Registrations b → Outcome Error (Registrations b)
  unfolding register update_socket
  register_all [] keys sockets r = ok r
  register_all (a ∷ more) [] sockets r = abort
  register_all (a ∷ more) (k ∷ ks) sockets r =
      let id = operator_id_from_g1 k.g1_pubkey in
      register_all more ks sockets
        (update_socket id (or_empty_socket (lookup id sockets)) (register a k r))

  unfoldable pub query_past_registered_operators :
      Outcome Error (List ℕ × List (Pubkeys b))
      → Outcome Error (Dict ℕ)
      → Registrations b
      → Outcome Error (Registrations b)
  unfolding register_all
  query_past_registered_operators pubkeys sockets r = elim pubkeys [
    | err e ↦ err e
    | abort ↦ abort
    | ok (addrs, keys) ↦ elim sockets [
      | err e ↦ err e
      | abort ↦ abort
      | ok m ↦ register_all addrs keys m r
    ]
  ]

  -- What the two queries answer: the keys and the socket, if the operator exists.
  abbrev pub found : Option (Pubkeys b) → Option ℕ → Option (Pubkeys b × ℕ)
  found none s = none
  found (some k) none = none
  found (some k) (some s) = some (k, s)

  unfoldable pub get_operator_info_by_id : ℕ → Registrations b → Option (Pubkeys b × ℕ)
  get_operator_info_by_id id r = found (lookup id r.pubkeys_by_id) (lookup id r.socket_by_id)

  unfoldable pub get_operator_info : ℕ → Registrations b → Option (Pubkeys b × ℕ)
  get_operator_info addr r = elim (lookup addr r.addr_to_id) [
    | none ↦ none
    | some id ↦ found (lookup id r.pubkeys_by_id) (lookup id r.socket_by_id)
  ]

  -- The events that change the maps.
  pub data Registration : Type 0 where
    pubkey_registered : ℕ → Pubkeys b → Registration
    socket_updated : ℕ → ℕ → Registration

  unfoldable pub handle_registration : Registration → Registrations b → Registrations b
  unfolding register update_socket
  handle_registration (pubkey_registered addr keys) r = register addr keys r
  handle_registration (socket_updated id socket) r = update_socket id socket r

  unfoldable pub handle_registrations : List Registration → Registrations b → Registrations b
  unfolding handle_registration
  handle_registrations [] r = r
  handle_registrations (e ∷ es) r = handle_registrations es (handle_registration e r)
