-- ===== src/Stun/Crc/Reference.antt =====
-- The table-driven CRC is the CRC-32 of the polynomial 0xedb88320, computed bit by bit.
use libnice4android.Prelude.{
  ℕ, zero, suc, ◌+◌, ◌*◌, ◌/◌, ◌%◌, ◌^◌, ◌<◌, bit_xor, ◌≡◌, refl, sym, ap, ap₂, ◌∙◌, arith, true,
  false, List, [], ◌∷◌, ◌++◌, ◌==◌, if◌then◌else◌, get_or, table_holds, table_holds_sound, ==_iff,
  bit_xor-digit, bit_xor_comm, bit_xor_assoc, bit_xor_cancel, zero-bit_xor, bit_and_mask,
  xor_disjoint, xor_shift, ◌&&◌,
}
use native.Mathlib.Nat.{pow-suc}
use libnice4android.Stun.Crc.{crc_byte, crc_buffer, crc_buffers, crc32}
use libnice4android.Stun.Crc.Table.{crc32_tab}

-- One bit of a CRC register: shift, and add the polynomial if a 1 falls out.
unfoldable pub shift_bit : ℕ → ℕ
shift_bit c = if c % 2 == 0 then c / 2 else bit_xor (c / 2) 0xedb88320

unfoldable pub shift_bits : ℕ → ℕ → ℕ
unfolding shift_bit
shift_bits zero c = c
shift_bits (suc n) c = shift_bits n (shift_bit c)

-- The reference: each byte is added to the register, which is then shifted by eight bits.
unfoldable pub reference : ℕ → List ℕ → ℕ
unfolding shift_bits
reference c [] = c
reference c (b ∷ bytes) = reference (shift_bits 8 (bit_xor c b)) bytes

xor_half : (a b : ℕ) → bit_xor a b / 2 ≡ bit_xor (a / 2) (b / 2)
xor_half a b = omega (arith, bit_xor-digit a b)

xor_parity : (a b : ℕ) → bit_xor a b % 2 ≡ (a + b) % 2
xor_parity a b = omega (arith, bit_xor-digit a b)

xor_swap : (a b c : ℕ) → bit_xor (bit_xor a b) c ≡ bit_xor (bit_xor a c) b
xor_swap a b c = bit_xor_assoc a b c ∙ ap (bit_xor a) (bit_xor_comm b c) ∙ sym (bit_xor_assoc a c b)

xor_both : (a b c : ℕ) → bit_xor (bit_xor a c) (bit_xor b c) ≡ bit_xor a b
xor_both a b c =
    sym (bit_xor_assoc (bit_xor a c) b c)
    ∙ ap (λ t. bit_xor t c) (xor_swap a c b)
    ∙ bit_xor_cancel (bit_xor a b) c

-- The shift is linear.
shift_bit-xor : (a b : ℕ) → shift_bit (bit_xor a b) ≡ bit_xor (shift_bit a) (shift_bit b)
unfolding shift_bit
shift_bit-xor a b = ground (
  arith,
  xor_half a b,
  xor_parity a b,
  bit_xor_assoc (a / 2) (b / 2) 0xedb88320,
  xor_swap (a / 2) (b / 2) 0xedb88320,
  xor_both (a / 2) (b / 2) 0xedb88320,
)

shift_bits-xor :
    (n a b : ℕ) → shift_bits n (bit_xor a b) ≡ bit_xor (shift_bits n a) (shift_bits n b)
unfolding shift_bits
shift_bits-xor zero a b = refl
shift_bits-xor (suc n) a b =
    ap (shift_bits n) (shift_bit-xor a b) ∙ shift_bits-xor n (shift_bit a) (shift_bit b)

shift_bit-double : (a d : ℕ) → d ≡ 2 * a → shift_bit d ≡ a
unfolding shift_bit
shift_bit-double a d h = ground arith

-- Zeros fall out without a change.
shift_bits-high : (n a : ℕ) → shift_bits n (a * 2 ^ n) ≡ a
unfolding shift_bits
shift_bits-high zero a = omega arith
shift_bits-high (suc n) a =
    ap (shift_bits n) (
      shift_bit-double (a * 2 ^ n) (a * 2 ^ suc n)
        (omega (arith, ap (λ (t : ℕ). a * t) (pow-suc 2 n))))
    ∙ shift_bits-high n a

table : table_holds (λ i. shift_bits 8 i == get_or crc32_tab i 0) 256 ≡ true
unfolding table_holds shift_bits crc32_tab
table = refl

table_entry : (i : ℕ) → i < 256 → get_or crc32_tab i 0 ≡ shift_bits 8 i
table_entry i h =
    sym
      ((==_iff _ _).0 (table_holds_sound (λ k. shift_bits 8 k == get_or crc32_tab k 0) 256 h table))

-- A number is its low byte added to the rest.
xor_bytes : (x : ℕ) → x ≡ bit_xor (x / 256 * 2 ^ 8) (x % 256)
xor_bytes x = omega (arith, xor_disjoint (x / 256) (x % 256) 8 (omega arith))

-- Eight shifts at once: the low byte goes through the table, the rest is shifted out.
shift_byte : (x : ℕ) → shift_bits 8 x ≡ bit_xor (x / 256) (get_or crc32_tab (x % 256) 0)
shift_byte x =
    ap (shift_bits 8) (xor_bytes x)
    ∙ shift_bits-xor 8 (x / 256 * 2 ^ 8) (x % 256)
    ∙ ap₂ bit_xor (shift_bits-high 8 (x / 256)) (sym (table_entry (x % 256) (omega arith)))

crc_byte-shift : (crc b : ℕ) → b < 256 → crc_byte false crc b ≡ shift_bits 8 (bit_xor crc b)
unfolding crc_byte
crc_byte-shift crc b h =
    let high : bit_xor crc b / 256 ≡ crc / 256 =
      xor_shift crc b
      ∙ ap (bit_xor (crc / 256)) {x = b / 256} {y = 0} (omega arith)
      ∙ bit_xor_comm (crc / 256) 0
      ∙ zero-bit_xor (crc / 256) in
    let t = get_or crc32_tab (bit_xor crc b % 256) 0 in
    let untyped : (if t == 0x8bbeb8ea && false then 0x8bbe8ea else t) ≡ t = ground arith in
    rw (bit_and_mask 8 (bit_xor crc b), untyped)
      (bit_xor_comm t (crc / 256)
        ∙ ap (λ k. bit_xor k t) (sym high)
        ∙ sym (shift_byte (bit_xor crc b)))

abbrev pub AllBytes : List ℕ → Type 0
AllBytes [] = Unit {0}
AllBytes (b ∷ bytes) = (b < 256) × AllBytes bytes

crc_buffer-reference :
    (c : ℕ) (bytes : List ℕ) → AllBytes bytes → crc_buffer false c bytes ≡ reference c bytes
unfolding crc_buffer reference
crc_buffer-reference c [] h = refl
crc_buffer-reference c (b ∷ bytes) h =
    ap (λ k. crc_buffer false k bytes) (crc_byte-shift c b h.0)
    ∙ crc_buffer-reference (shift_bits 8 (bit_xor c b)) bytes h.1

pub reference-append :
    (c : ℕ) (xs ys : List ℕ) → reference c (xs ++ ys) ≡ reference (reference c xs) ys
unfolding reference
reference-append c [] ys = refl
reference-append c (x ∷ xs) ys = reference-append (shift_bits 8 (bit_xor c x)) xs ys

abbrev pub AllBuffers : List (List ℕ) → Type 0
AllBuffers [] = Unit {0}
AllBuffers (b ∷ bufs) = AllBytes b × AllBuffers bufs

abbrev pub concat : List (List ℕ) → List ℕ
concat [] = []
concat (b ∷ bufs) = b ++ concat bufs

crc_buffers-reference :
    (c : ℕ) (bufs : List (List ℕ))
    → AllBuffers bufs
    → crc_buffers false c bufs ≡ reference c (concat bufs)
unfolding crc_buffers
crc_buffers-reference c [] h = unfold reference in refl
crc_buffers-reference c (b ∷ bufs) h =
    ap (λ k. crc_buffers false k bufs) (crc_buffer-reference c b h.0)
    ∙ crc_buffers-reference (reference c b) bufs h.1
    ∙ sym (reference-append c b (concat bufs))

-- On any buffers of bytes, `stun_crc32` without the typo is the bitwise CRC-32 of all the bytes in
-- order: the register starts at all ones, and is inverted at the end.
pub crc32-reference :
    (bufs : List (List ℕ))
    → AllBuffers bufs
    → crc32 bufs false ≡ bit_xor (reference 0xffffffff (concat bufs)) 0xffffffff
unfolding crc32
crc32-reference bufs h = ap (λ k. bit_xor k 0xffffffff) (crc_buffers-reference 0xffffffff bufs h)
