-- ===== src/Stun/Crc.antt =====
-- stun/stuncrc32.c and `stun_fingerprint` of stun/stun5389.c.
pub mod Table
pub mod Reference
pub mod Fingerprint
use libnice4android.Prelude.{
  ℕ, ◌+◌, ◌-◌, ◌/◌, ◌%◌, ◌^◌, bit_and, bit_xor, Bool, ◌&&◌, Option, some, List, [], ◌∷◌, ◌==◌,
  if◌then◌else◌, ◌>>=◌, get_or,
}
use libnice4android.Stun.Message.{read}
use Table.{crc32_tab}

-- With `typo`, the entry of the table that Windows Live Messenger 2009 gets wrong.
unfoldable pub mistyped : Bool → ℕ → ℕ
mistyped typo lkp = if lkp == 0x8bbeb8ea && typo then 0x8bbe8ea else lkp

-- One round of the inner loop. The index is masked to a byte, so it is inside the table.
unfoldable pub crc_byte : Bool → ℕ → ℕ → ℕ
unfolding mistyped
crc_byte typo crc byte =
    bit_xor (mistyped typo (get_or crc32_tab (bit_and (bit_xor crc byte) 0xFF) 0)) (crc / 2 ^ 8)

unfoldable pub crc_buffer : Bool → ℕ → List ℕ → ℕ
crc_buffer typo crc [] = crc
crc_buffer typo crc (byte ∷ bytes) = crc_buffer typo (crc_byte typo crc byte) bytes

unfoldable pub crc_buffers : Bool → ℕ → List (List ℕ) → ℕ
unfolding crc_buffer
crc_buffers typo crc [] = crc
crc_buffers typo crc (buf ∷ bufs) = crc_buffers typo (crc_buffer typo crc buf) bufs

-- `stun_crc32`
unfoldable pub crc32 : List (List ℕ) → Bool → ℕ
unfolding crc_buffers
crc32 bufs typo = bit_xor (crc_buffers typo 0xffffffff bufs) 0xffffffff

-- The bytes of `htons (len - 20u)`, cut to 16 bits.
unfoldable pub fake_length : ℕ → List ℕ
fake_length len = let l = (len + 2 ^ 64 - 20) % 2 ^ 16 in l / 2 ^ 8 ∷ l % 2 ^ 8 ∷ []

-- `stun_fingerprint`: the value before the last `htonl`. `none` is a read outside the message.
unfoldable pub fingerprint : List ℕ → ℕ → Bool → Option ℕ
unfolding fake_length read
fingerprint msg len typo = do
  head ← read msg 0 2
  body ← read msg 4 ((len + 2 ^ 64 - 12) % 2 ^ 64)
  some (bit_xor (crc32 (head ∷ fake_length len ∷ body ∷ []) typo) 0x5354554e)
