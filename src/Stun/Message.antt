-- ===== src/Stun/Message.antt =====
-- stun/stunmessage.c: the header of a message, and its attributes as they are found and appended.
pub mod Attributes
pub mod Find
pub mod Cookie
pub mod Append
pub mod Limits
pub mod RoundTrip
use libnice4android.Prelude.{
  ℕ, zero, suc, ◌+◌, ◌-◌, ◌%◌, ◌^◌, Bool, true, false, not, ◌&&◌, Option, none, some, List, [], ◌∷◌,
  ltb, leb, ◌==◌, if◌then◌else◌, ◌>>=◌, length, take, drop, replicate,
}
use libnice4android.Stun.Types.{
  oc2007, Config, MessageReturn, success, not_enough_space, magic_cookie,
}
use libnice4android.Stun.Types.Attribute
use libnice4android.Stun.Bytes.{padding, align, getw, setw, write}
use libnice4android.Stun.MessageType.{type_bytes, method_of_type, class_of_type}

-- `struct _StunMessage`. The array behind `buffer` may be longer than `buffer_len`; a key pointer
-- with its length is a list, and NULL is `none`.
pub record Message : Type 0 where
  pub agent : Option Config
  pub buffer : List ℕ
  pub buffer_len : ℕ
  pub key : Option (List ℕ)
  pub long_term_key : List ℕ
  pub long_term_valid : Bool

-- `memcpy` out of an array.
unfoldable pub read : List ℕ → ℕ → ℕ → Option (List ℕ)
read ptr p n = if leb (p + n) (length ptr) then some (take n (drop p ptr)) else none

-- `memcmp (a, b, n) == 0` on arrays of the same length.
unfoldable pub bytes_eq : List ℕ → List ℕ → Bool
bytes_eq [] [] = true
bytes_eq (x ∷ xs) (y ∷ ys) = x == y && bytes_eq xs ys
bytes_eq [] (y ∷ ys) = false
bytes_eq (x ∷ xs) [] = false

-- `none` in the result is FALSE: the buffer is shorter than a header.
unfoldable pub init : Message → ℕ → ℕ → List ℕ → Option (Option Message)
init msg c m id = if ltb msg.buffer_len 20 then some none else do
  b0 ← write msg.buffer 0 (replicate 4 0)
  b1 ← write b0 0 (type_bytes c m)
  b2 ← write b1 4 id
  some (some (record msg { buffer = b2 }))

unfoldable pub message_length : Message → Option ℕ
message_length msg = do l ← getw msg.buffer 2; some ((l + 20) % 2 ^ 16)

unfoldable pub message_id : Message → Option (List ℕ)
unfolding read
message_id msg = read msg.buffer 4 16

unfoldable pub has_cookie : Message → Option Bool
unfolding message_id bytes_eq
has_cookie msg = do id ← message_id msg; some (bytes_eq (take 4 id) magic_cookie)

unfoldable pub get_method : Message → Option ℕ
get_method msg = do t ← getw msg.buffer 0; some (method_of_type t)

unfoldable pub get_class : Message → Option ℕ
get_class msg = do t ← getw msg.buffer 0; some (class_of_type t)

-- In MS-TURN, the types of REALM and NONCE are swapped.
swapped : ℕ → ℕ
swapped type =
    if type == Attribute.realm
    then Attribute.nonce
    else (if type == Attribute.nonce then Attribute.realm else type)

unfoldable pub swap_type : Option Config → ℕ → ℕ
unfolding swapped
swap_type none type = type
swap_type (some agent) type = elim agent.compatibility [ oc2007 ↦ swapped type | _ ↦ type ]

-- Whether attributes are padded to a multiple of four bytes.
unfoldable pub is_aligned : Option Config → Bool
is_aligned none = true
is_aligned (some agent) = not agent.usage_flags.no_aligned_attributes

-- How far the cursor moves over a value of length `alen`.
unfoldable pub skip : Bool → ℕ → ℕ
skip aligned alen = if aligned then align alen else alen

-- Nothing may come after FINGERPRINT, and only FINGERPRINT after MESSAGE-INTEGRITY: a search for
-- `type` ends at an attribute `atype`.
unfoldable pub ends_search : ℕ → ℕ → Bool
ends_search atype type =
    if atype == Attribute.message_integrity
    then not (type == Attribute.fingerprint)
    else atype == Attribute.fingerprint

-- A pointer to the value, as an index into the buffer, and `*palen`; or NULL.
pub data Found : Type 0 where
  missing : Found
  found : ℕ → ℕ → Found

-- The `while` loop of `stun_message_find`. A round moves `offset` by at least 4, so `length`
-- rounds are enough; with no fuel left it is `none`.
unfoldable pub find_loop : ℕ → List ℕ → Bool → ℕ → ℕ → ℕ → Option Found
find_loop zero buffer aligned type length offset = none
find_loop (suc fuel) buffer aligned type length offset =
    if ltb offset length
    then (do
      atype ← getw buffer offset
      alen ← getw buffer (offset + 2)
      let rest = find_loop fuel buffer aligned type length (offset + 4 + skip aligned alen)
      if atype == type
          then some (found (offset + 4) alen)
          else (if ends_search atype type then some missing else rest))
    else some missing

unfoldable pub find : Message → ℕ → Option Found
find msg type = do
  length ← message_length msg
  find_loop (suc length) msg.buffer (is_aligned msg.agent) (swap_type msg.agent type) length 20

pub data Appended : Type 0 where
  no_room : Appended
  appended : ℕ → Message → Appended

-- The length field of a new attribute: if the cookie is not present, it is a multiple of four for
-- compatibility with RFC 3489.
unfoldable pub length_field : Message → ℕ → Option ℕ
length_field msg length =
    if is_aligned msg.agent
    then (do cookie ← has_cookie msg; some (if cookie then length else align length))
    else some length

-- The bytes of padding behind a new attribute.
unfoldable pub pad_of : Option Config → ℕ → ℕ
pad_of agent length = if is_aligned agent then padding length else 0

-- `memset (a + length, ' ', stun_padding (length))`, skipped when there is none.
unfoldable pub add_padding : List ℕ → ℕ → ℕ → Option (List ℕ)
add_padding ptr p zero = some ptr
add_padding ptr p (suc n) = write ptr p (replicate (suc n) 32)

-- `stun_message_append` returns a pointer to the value, as an index into the buffer, or NULL.
unfoldable pub append : Message → ℕ → ℕ → Option Appended
append msg type length = do
  mlen ← message_length msg
  if ltb msg.buffer_len ((mlen + 4 + length) % 2 ^ 64) then some no_room else do
    b1 ← setw msg.buffer mlen (swap_type msg.agent type)
    field ← length_field (record msg { buffer = b1 }) length
    b2 ← setw b1 (mlen + 2) field
    b3 ← add_padding b2 (mlen + 4 + length) (pad_of msg.agent length)
    b4 ← setw b3 2 ((mlen + pad_of msg.agent length + 4 + length) % 2 ^ 16 + 2 ^ 16 - 20)
    some (appended (mlen + 4) (record msg { buffer = b4 }))

-- A `memcpy` that is skipped when there is nothing to copy.
unfoldable pub copy_in : List ℕ → ℕ → List ℕ → Option (List ℕ)
copy_in ptr p [] = some ptr
copy_in ptr p (x ∷ xs) = write ptr p (x ∷ xs)

unfoldable pub append_bytes : Message → ℕ → List ℕ → Option (MessageReturn × Message)
unfolding copy_in
append_bytes msg type bytes = do
  r ← append msg type (length bytes)
  elim r [
    | no_room ↦ some (not_enough_space, msg)
    | appended p m ↦ do b ← copy_in m.buffer p bytes; some (success, record m { buffer = b })
  ]
