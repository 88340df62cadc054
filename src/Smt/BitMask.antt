-- ===== src/Smt/BitMask.antt =====
-- The bit mask of a proof as core/smt/smt.go hands it to the contracts.
use near_sffl.Prelude.{
  ℕ, zero, suc, ◌+◌, ◌*◌, ◌/◌, ◌%◌, ◌≡◌, ◌<◌, refl, ap, ◌∙◌, List, [], ◌∷◌, ◌++◌, All, arith,
}
use near_sffl.Messages.Bytes.{be_number, be_number_from}
use near_sffl.Smt.{reverse8, format_bit_mask}

-- `n & (1 << i)`, as 0 or 1.
abbrev pub test_bit : ℕ → ℕ → ℕ
test_bit n zero = n % 2
test_bit n (suc i) = test_bit (n / 2) i

-- The bits of a mask in the order in which they are written down, of each byte the highest first.
abbrev pub bits_of : List ℕ → List ℕ
bits_of [] = []
bits_of (byte ∷ bytes) =
    byte / 128 % 2
    ∷ byte / 64 % 2
    ∷ byte / 32 % 2
    ∷ byte / 16 % 2
    ∷ byte / 8 % 2
    ∷ byte / 4 % 2
    ∷ byte / 2 % 2
    ∷ byte % 2
    ∷ bits_of bytes

-- Zeros stand past the end.
abbrev pub bit_at : List ℕ → ℕ → ℕ
bit_at [] i = 0
bit_at (bit ∷ bits) zero = bit
bit_at (bit ∷ bits) (suc i) = bit_at bits i

be_number_from-append :
    (acc : ℕ) (xs : List ℕ) (x : ℕ)
    → be_number_from acc (xs ++ x ∷ []) ≡ be_number_from acc xs * 256 + x
unfolding be_number_from
be_number_from-append acc [] x = refl
be_number_from-append acc (y ∷ xs) x = be_number_from-append (acc * 256 + y) xs x

be_number-append : (xs : List ℕ) (x : ℕ) → be_number (xs ++ x ∷ []) ≡ be_number xs * 256 + x
unfolding be_number
be_number-append xs x = be_number_from-append 0 xs x

test_bit_zero : (i : ℕ) → test_bit 0 i ≡ 0
test_bit_zero zero = omega arith
test_bit_zero (suc i) =
    let half : 0 / 2 ≡ 0 = omega arith in ap (λ n. test_bit n i) half ∙ test_bit_zero i

-- The first eight bits are those of the last byte, turned round, and the others those before it.
last_byte :
    (n byte : ℕ) (bytes : List ℕ) (i : ℕ)
    → byte < 256
    → ((k : ℕ) → test_bit n k ≡ bit_at (bits_of bytes) k)
    → test_bit (n * 256 + reverse8 byte) i ≡ bit_at (bits_of (byte ∷ bytes)) i
unfolding reverse8
last_byte n byte bytes zero h rest = omega arith
last_byte n byte bytes (suc zero) h rest = omega arith
last_byte n byte bytes (suc (suc zero)) h rest = omega arith
last_byte n byte bytes (suc (suc (suc zero))) h rest = omega arith
last_byte n byte bytes (suc (suc (suc (suc zero)))) h rest = omega arith
last_byte n byte bytes (suc (suc (suc (suc (suc zero))))) h rest = omega arith
last_byte n byte bytes (suc (suc (suc (suc (suc (suc zero)))))) h rest = omega arith
last_byte n byte bytes (suc (suc (suc (suc (suc (suc (suc zero))))))) h rest = omega arith
last_byte n byte bytes (suc (suc (suc (suc (suc (suc (suc (suc i)))))))) h rest =
    let r = reverse8 byte in
    let small : r < 256 = omega arith in
    let shifted : (n * 256 + r) / 2 / 2 / 2 / 2 / 2 / 2 / 2 / 2 ≡ n = omega arith in
    ap (λ m. test_bit m i) shifted ∙ rest i

-- In the number that a proof carries as its bit mask, the bit with an index, as the contracts test
-- it by a shifted one, is the bit of the library's mask at that index, where each byte is written
-- with its highest bit first.
pub format_bit_mask_lem :
    (bit_mask : List ℕ) (i : ℕ)
    → All (λ byte. byte < 256) bit_mask
    → test_bit (be_number (format_bit_mask bit_mask)) i ≡ bit_at (bits_of bit_mask) i
unfolding format_bit_mask be_number
format_bit_mask_lem [] i h = test_bit_zero i
format_bit_mask_lem (byte ∷ bytes) i (h, hs) =
    ap (λ n. test_bit n i) (be_number-append (format_bit_mask bytes) (reverse8 byte))
    ∙ last_byte (be_number (format_bit_mask bytes)) byte bytes i h
        (λ k. format_bit_mask_lem bytes k hs)
