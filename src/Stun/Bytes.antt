-- ===== src/Stun/Bytes.antt =====
-- stun/utils.c: 16-bit big-endian words in a byte array, and the 4-byte alignment of attributes.
-- A byte array is a list of numbers. An access outside it is `none`; C leaves it undefined.
-- `size_t` has 64 bits.
pub mod Laws
use libnice4android.Prelude.{
  ℕ, zero, suc, ◌+◌, ◌-◌, ◌*◌, ◌/◌, ◌%◌, ◌^◌, bit_and, bit_or, Option, none, some, List, [], ◌∷◌,
  leb, if◌then◌else◌, ◌>>=◌, length, get_elem?,
}

unfoldable pub padding : ℕ → ℕ
padding l = bit_and (4 - bit_and l 3) 3

unfoldable pub align : ℕ → ℕ
align l = bit_and ((l + 3) % 2 ^ 64) (2 ^ 64 - 1 - 3)

unfoldable pub getw : List ℕ → ℕ → Option ℕ
getw ptr i = do hi ← get_elem? ptr i; lo ← get_elem? ptr (i + 1); some (bit_or (hi * 2 ^ 8) lo)

-- The array with `bytes` in place of its own from index `p` on.
unfoldable pub blit : List ℕ → ℕ → List ℕ → List ℕ
blit [] p bytes = []
blit (x ∷ xs) (suc p) bytes = x ∷ blit xs p bytes
blit (x ∷ xs) zero [] = x ∷ xs
blit (x ∷ xs) zero (b ∷ bytes) = b ∷ blit xs zero bytes

-- `memcpy` and `memset` into the array, and stores through a pointer into it.
unfoldable pub write : List ℕ → ℕ → List ℕ → Option (List ℕ)
write ptr p bytes = if leb (p + length bytes) (length ptr) then some (blit ptr p bytes) else none

-- The two bytes that `setw` stores; its argument is a `uint16_t`.
abbrev pub word_bytes : ℕ → List ℕ
word_bytes value = value % 2 ^ 16 / 2 ^ 8 ∷ bit_and (value % 2 ^ 16) 0xff ∷ []

unfoldable pub setw : List ℕ → ℕ → ℕ → Option (List ℕ)
setw ptr p value = write ptr p (word_bytes value)
