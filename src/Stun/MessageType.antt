-- ===== src/Stun/MessageType.antt =====
-- The message type, the first two bytes of a STUN message: a 2-bit class and a 12-bit method.
-- `stun_set_type` of stun/utils.c, `stun_message_get_class` and `_get_method` of stun/stunmessage.c.
use libnice4android.Prelude.{
  ℕ, ◌+◌, ◌*◌, ◌/◌, ◌%◌, ◌^◌, bit_and, bit_or, ◌≡◌, refl, sym, ap₂, ◌∙◌, arith, ◌<◌, List, [], ◌∷◌,
  Bool, true, ◌&&◌, ◌==◌, if◌then◌else◌, table_holds, table_holds_sound,
}

-- The two bytes that `stun_set_type` stores at `h`.
unfoldable pub type_bytes : ℕ → ℕ → List ℕ
type_bytes c m =
    bit_or (c / 2 ^ 1) (bit_and (m / 2 ^ 6) 0x3e)
    ∷ bit_or (bit_or (bit_and (c * 2 ^ 4) 0x10) (bit_and (m * 2 ^ 1) 0xe0)) (bit_and m 0x0f)
    ∷ []

-- A google/msn data indication, 0x0115, is read as 0x0017.
unfoldable pub patched : ℕ → ℕ
patched t = if t == 0x0115 then 0x0017 else t

unfoldable pub method_of_type : ℕ → ℕ
unfolding patched
method_of_type type =
    let t = patched type in
    bit_or (bit_or (bit_and t 0x3e00 / 2 ^ 2) (bit_and t 0x00e0 / 2 ^ 1)) (bit_and t 0x000f)

unfoldable pub class_of_type : ℕ → ℕ
unfolding patched
class_of_type type =
    let t = patched type in bit_or (bit_and t 0x0100 / 2 ^ 7) (bit_and t 0x0010 / 2 ^ 4)

-- The type as the 16-bit word of its two bytes.
abbrev pub word_of : List ℕ → ℕ
word_of (hi ∷ lo ∷ []) = hi * 256 + lo
word_of _ = 0

-- An error response of the CONNECT method has the type 0x0115.
abbrev pub is_msn_data : ℕ → ℕ → Bool
is_msn_data c m = c == 3 && m == 5

decodes : ℕ → ℕ → Bool
decodes c m =
    let t = word_of (type_bytes c m) in
    class_of_type t == (if is_msn_data c m then 1 else c)
    && method_of_type t == (if is_msn_data c m then 7 else m)

table : table_holds (λ n. decodes (n % 4) (n / 4)) 16384 ≡ true
unfolding table_holds decodes class_of_type method_of_type type_bytes
table = refl

decodes-true : (c m : ℕ) → c < 4 → m < 2 ^ 12 → decodes c m ≡ true
decodes-true c m hc hm =
    let q : (c + m * 4) % 4 ≡ c = omega arith in
    let d : (c + m * 4) / 4 ≡ m = omega arith in
    ap₂ decodes (sym q) (sym d)
    ∙ table_holds_sound (λ n. decodes (n % 4) (n / 4)) 16384 {i = c + m * 4} (omega arith) table

-- The class and the method that were stored are read back, but for an error response of the CONNECT
-- method, which is read as an indication of the DATA method.
pub type_round_trip :
    (c m : ℕ)
    → c < 4
    → m < 2 ^ 12
    → (class_of_type (word_of (type_bytes c m)) ≡ (if is_msn_data c m then 1 else c))
      × (method_of_type (word_of (type_bytes c m)) ≡ (if is_msn_data c m then 7 else m))
unfolding decodes
type_round_trip c m hc hm = ground (arith, decodes-true c m hc hm)
