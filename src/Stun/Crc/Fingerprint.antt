-- ===== src/Stun/Crc/Fingerprint.antt =====
-- `stun_fingerprint` without the typo of WLM 2009 is a CRC over the message up to its FINGERPRINT attribute.
use libnice4android.Prelude.{
  ℕ, zero, suc, ◌+◌, ◌-◌, ◌/◌, ◌%◌, ◌^◌, ◌<◌, ◌≤◌, bit_xor, ◌≡◌, ap, arith, false, List, [], ◌∷◌,
  some, length, take, le→leb,
}
use mathlib.Core.List.{append-nil}
use libnice4android.Stun.Bytes.Laws.{IsBytes, word}
use libnice4android.Stun.Crc.{fingerprint}
use libnice4android.Stun.Crc.Reference.{reference, crc32-reference, AllBytes}

IsBytes-AllBytes : (n : ℕ) (xs : List ℕ) → IsBytes xs → AllBytes (take n xs)
IsBytes-AllBytes zero xs h = tt
IsBytes-AllBytes (suc n) [] h = tt
IsBytes-AllBytes (suc n) (x ∷ xs) h = (h 0, IsBytes-AllBytes n xs (λ i. h (suc i)))

-- The CRC-32 of a list of bytes.
abbrev pub crc_of : List ℕ → ℕ
crc_of bytes = bit_xor (reference 0xffffffff bytes) 0xffffffff

-- Without the table entry of WLM 2009, on a message of at least 20 and less than 2 ^ 16 bytes whose length
-- field states `len`, `stun_fingerprint` reads inside the message, and is
-- the bitwise CRC-32 of all its bytes but the last eight, added to a constant.
pub fingerprint-reference :
    (msg : List ℕ) (len : ℕ)
    → IsBytes msg
    → len ≤ length msg
    → len < 2 ^ 16
    → 20 ≤ len
    → len ≡ 20 + word msg 2
    → fingerprint msg len false ≡ some (bit_xor (crc_of (take (len - 8) msg)) 0x5354554e)
unfolding fingerprint
fingerprint-reference [] len bytes h small big e = absurd (omega arith)
fingerprint-reference (a ∷ []) len bytes h small big e = absurd (omega arith)
fingerprint-reference (a ∷ b ∷ []) len bytes h small big e = absurd (omega arith)
fingerprint-reference (a ∷ b ∷ c ∷ []) len bytes h small big e = absurd (omega arith)
fingerprint-reference (a ∷ b ∷ c ∷ d ∷ rest) len bytes h small big e =
    let wrapped : (len + 2 ^ 64 - 12) % 2 ^ 64 ≡ len - 12 = omega arith in
    let l : ℕ = (len + 2 ^ 64 - 20) % 2 ^ 16 in
    let hi : l / 2 ^ 8 ≡ c = omega (arith, bytes 3) in
    let lo : l % 2 ^ 8 ≡ d = omega (arith, bytes 3) in
    let taken : take (len - 8) (a ∷ b ∷ c ∷ d ∷ rest) ≡ a ∷ b ∷ c ∷ d ∷ take (len - 12) rest =
      ap (λ k. take k (a ∷ b ∷ c ∷ d ∷ rest)) {x = len - 8} {y = suc (suc (suc (suc (len - 12))))}
        (omega arith) in
    let n = suc (suc (suc (suc (length rest)))) in
    let bufs : List (List ℕ) = (a ∷ b ∷ []) ∷ (c ∷ d ∷ []) ∷ take (len - 12) rest ∷ [] in
    let body = IsBytes-AllBytes (len - 12) rest (λ i. bytes (suc (suc (suc (suc i))))) in
    let header = IsBytes-AllBytes 4 (a ∷ b ∷ c ∷ d ∷ rest) bytes in
    rw (
      wrapped,
      le→leb 2 n (omega arith),
      le→leb (4 + (len - 12)) n (omega arith),
      hi,
      lo,
      crc32-reference bufs
          ((header.0, (header.1.0, tt)), ((header.1.1.0, (header.1.1.1.0, tt)), (body, tt))),
      append-nil,
      taken,
    )
