-- ===== src/Stun/Message/Cookie.antt =====
-- stun/stunmessage.c: the cookie as bytes of the buffer, and the length that an attribute states.
use libnice4android.Prelude.{
  ℕ, ◌+◌, ◌*◌, ◌/◌, ◌<◌, ◌≤◌, ◌^◌, ◌≡◌, arith, Bool, not, ◌&&◌, some, List, [], ◌∷◌, ◌==◌,
  if◌then◌else◌, length, le→leb, ap, take, drop,
}
use libnice4android.Stun.Types.{magic_cookie}
use libnice4android.Stun.Bytes.Laws.{IsBytes, word, align_lem}
use libnice4android.Stun.Message.{Message, is_aligned, has_cookie, length_field, bytes_eq}

-- The bytes 4 to 7 are the magic cookie of RFC 5389.
abbrev pub holds_cookie : List ℕ → Bool
holds_cookie buffer = word buffer 4 == 0x2112 && word buffer 6 == 0xA442

-- The length that the header of an attribute states: that of the value, but rounded up to a multiple
-- of four in an aligned message without the cookie, as RFC 3489 has it.
abbrev pub stated_length : Message → ℕ → ℕ
stated_length msg len =
    if is_aligned msg.agent && not (holds_cookie msg.buffer) then (len + 3) / 4 * 4 else len

cookie_bytes :
    (xs : List ℕ)
    → IsBytes xs
    → 8 ≤ length xs
    → bytes_eq (take 4 (take 16 (drop 4 xs))) magic_cookie ≡ holds_cookie xs
unfolding bytes_eq
cookie_bytes [] bytes long = absurd (omega arith)
cookie_bytes (a ∷ []) bytes long = absurd (omega arith)
cookie_bytes (a ∷ b ∷ []) bytes long = absurd (omega arith)
cookie_bytes (a ∷ b ∷ c ∷ []) bytes long = absurd (omega arith)
cookie_bytes (a ∷ b ∷ c ∷ d ∷ []) bytes long = absurd (omega arith)
cookie_bytes (a ∷ b ∷ c ∷ d ∷ e ∷ []) bytes long = absurd (omega arith)
cookie_bytes (a ∷ b ∷ c ∷ d ∷ e ∷ f ∷ []) bytes long = absurd (omega arith)
cookie_bytes (a ∷ b ∷ c ∷ d ∷ e ∷ f ∷ g ∷ []) bytes long = absurd (omega arith)
cookie_bytes (a ∷ b ∷ c ∷ d ∷ e ∷ f ∷ g ∷ h ∷ more) bytes long =
    ground (arith, bytes 4, bytes 5, bytes 6, bytes 7)

pub has_cookie_lem :
    (msg : Message)
    → IsBytes msg.buffer
    → 20 ≤ length msg.buffer
    → has_cookie msg ≡ some (holds_cookie msg.buffer)
unfolding has_cookie
has_cookie_lem msg bytes long =
    rw (le→leb 20 (length msg.buffer) long) (ap some (cookie_bytes msg.buffer bytes (omega arith)))

-- `stun_message_append` writes the stated length.
pub length_field-stated :
    (msg : Message) (len : ℕ)
    → IsBytes msg.buffer
    → 20 ≤ length msg.buffer
    → len < 2 ^ 32
    → length_field msg len ≡ some (stated_length msg len)
unfolding length_field
length_field-stated msg len bytes long small =
    ground (arith, has_cookie_lem msg bytes long, align_lem len small)
