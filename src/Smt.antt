-- ===== src/Smt.antt =====
-- core/smt/smt.go: the sparse Merkle trees of a checkpoint's messages, and their proofs in the form
-- that the contracts read. The tree itself is a library's.
pub mod BitMask
use near_sffl.Prelude.{
  ℕ, ◌≡◌, ◌+◌, ltb, length, take, if◌then◌else◌, ◌*◌, ◌/◌, ◌%◌, List, [], ◌∷◌, ◌++◌, map, Option,
  none, some, Outcome, ok, err, abort, ◌>>=◌,
}
use near_sffl.Errors.{Error}
use near_sffl.Messages.Bytes.{be_number, slice}

-- A trie of github.com/pokt-network/smt with its store; keys and values are 32 bytes.
pub record Trie : Type 1 where
  pub Tree : Type 0
  pub empty : Tree
  pub update : ℕ → ℕ → Tree → Outcome Error Tree
  pub commit : Tree → Outcome Error Tree
  pub root : Tree → ℕ

-- A tree is told by what it holds: updates at different keys can change places.
pub record IsByContent (trie : Trie) : Type 0 where
  pub update_comm :
      (k j v w : ℕ) (t t1 t2 : trie.Tree)
      → ¬ (k ≡ j)
      → trie.update k v t ≡ ok t1
      → trie.update j w t1 ≡ ok t2
      → (t1' : trie.Tree) × (trie.update j w t ≡ ok t1') × (trie.update k v t1' ≡ ok t2)

-- AddMessage, of a message's digest and key.
unfoldable pub add_message :
    (trie : Trie) → Outcome Error ℕ → ℕ → trie.Tree → Outcome Error trie.Tree
add_message trie digest key t = do digest' ← digest; trie.update key digest' t

-- `bits.Reverse8`
unfoldable pub reverse8 : ℕ → ℕ
reverse8 b =
    b % 2 * 128
    + b / 2 % 2 * 64
    + b / 4 % 2 * 32
    + b / 8 % 2 * 16
    + b / 16 % 2 * 8
    + b / 32 % 2 * 4
    + b / 64 % 2 * 2
    + b / 128 % 2

-- formatBitMask: the bytes from the last one to the first, each with its bits turned round.
unfoldable pub format_bit_mask : List ℕ → List ℕ
unfolding reverse8
format_bit_mask [] = []
format_bit_mask (byte ∷ bit_mask) = format_bit_mask bit_mask ++ reverse8 byte ∷ []

-- smt.SparseCompactMerkleProof, the fields that are read; nodes and leaf data are bytes.
pub record CompactProof : Type 0 where
  pub side_nodes : List (List ℕ)
  pub non_membership_leaf_data : Option (List ℕ)
  pub bit_mask : List ℕ
  pub num_side_nodes : ℕ

pub record SmtVerifierCompactProof : Type 0 where
  pub key : ℕ
  pub value : ℕ
  pub bit_mask : ℕ
  pub side_nodes : List ℕ
  pub num_side_nodes : ℕ
  pub non_membership_leaf_path : ℕ
  pub non_membership_leaf_value : ℕ

-- `[32]byte(bytes)`, which panics if they are fewer.
unfoldable pub array32 : List ℕ → Outcome Error ℕ
array32 bytes = if ltb (length bytes) 32 then abort else ok (be_number (take 32 bytes))

-- The loop over the side nodes.
unfoldable pub side_node_arrays : List (List ℕ) → Outcome Error (List ℕ)
unfolding array32
side_node_arrays [] = ok []
side_node_arrays (node ∷ nodes) = do
  array ← array32 node
  arrays ← side_node_arrays nodes
  ok (array ∷ arrays)

-- `[32]byte(leaf[i : i+32])`, which panics past the end; zeros if there are no leaf data.
unfoldable pub leaf_part : ℕ → Option (List ℕ) → Outcome Error ℕ
leaf_part i none = ok 0
leaf_part i (some leaf) =
    if ltb (length leaf) (i + 32) then abort else ok (be_number (slice i 32 leaf))

unfoldable pub new_smt_verifier_proof : ℕ → ℕ → CompactProof → Outcome Error SmtVerifierCompactProof
unfolding format_bit_mask side_node_arrays leaf_part
new_smt_verifier_proof key value proof = do
  side_nodes ← side_node_arrays proof.side_nodes
  path ← leaf_part 1 proof.non_membership_leaf_data
  leaf_value ← leaf_part 33 proof.non_membership_leaf_data
  ok (record {
    key = key;
    value = value;
    bit_mask = be_number (format_bit_mask proof.bit_mask);
    side_nodes = side_nodes;
    num_side_nodes = proof.num_side_nodes;
    non_membership_leaf_path = path;
    non_membership_leaf_value = leaf_value;
  })
