-- ===== src/Messages/Bytes.antt =====
-- Byte arrays as lists of numbers below 256, and the big-endian writes and reads of
-- encoding/binary that core/types/messages uses.
use near_sffl.Prelude.{
  ℕ, ◌+◌, ◌*◌, ◌/◌, ◌%◌, ◌^◌, List, [], ◌∷◌, ◌++◌, replicate, take, drop, length,
}

-- binary.BigEndian.PutUint32 and PutUint64: the bytes that they write.
unfoldable pub put_uint32 : ℕ → List ℕ
put_uint32 v = v / 2 ^ 24 % 256 ∷ v / 2 ^ 16 % 256 ∷ v / 2 ^ 8 % 256 ∷ v % 256 ∷ []

unfoldable pub put_uint64 : ℕ → List ℕ
put_uint64 v =
    v / 2 ^ 56 % 256
    ∷ v / 2 ^ 48 % 256
    ∷ v / 2 ^ 40 % 256
    ∷ v / 2 ^ 32 % 256
    ∷ v / 2 ^ 24 % 256
    ∷ v / 2 ^ 16 % 256
    ∷ v / 2 ^ 8 % 256
    ∷ v % 256
    ∷ []

-- The number that bytes stand for, the first byte the highest (`big.Int.SetBytes`,
-- `binary.BigEndian.Uint32` of four bytes).
unfoldable pub be_number_from : ℕ → List ℕ → ℕ
be_number_from acc [] = acc
be_number_from acc (x ∷ xs) = be_number_from (acc * 256 + x) xs

unfoldable pub be_number : List ℕ → ℕ
unfolding be_number_from
be_number bytes = be_number_from 0 bytes

-- A write of some bytes into an array, from an index on.
unfoldable pub write_at : ℕ → List ℕ → List ℕ → List ℕ
write_at i bytes array = take i array ++ (bytes ++ drop (i + length bytes) array)

-- `[32]byte{}`
abbrev pub zero_key : List ℕ
zero_key = replicate 32 0

-- `array[i:j]`
abbrev pub slice : ℕ → ℕ → List ℕ → List ℕ
slice i n array = take n (drop i array)
