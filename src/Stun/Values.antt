-- ===== src/Stun/Values.antt =====
-- stun/stunmessage.c: attributes with a typed value: flags, numbers, strings and error codes.
use Prim.Native.Char.{code}
use Prim.Native.String.{String}
use libnice4android.Prelude.{
  ℕ, ◌+◌, ◌*◌, ◌/◌, ◌%◌, ◌^◌, bit_and, bit_or, ◌||◌, Option, some, List, [], ◌∷◌, ◌++◌, ltb, leb,
  ◌==◌, if◌then◌else◌, ◌>>=◌, length, take, drop, get_elem?, replicate,
}
use libnice4android.Stun.Types.{MessageReturn, success, not_found, invalid, not_enough_space}
use libnice4android.Stun.Types.Attribute
use libnice4android.Stun.Bytes.{write}
use libnice4android.Stun.Message.{
  Message, Found, missing, found, find, read, append, append_bytes, no_room, appended, copy_in,
}

-- A value that is stored through a pointer with STUN_MESSAGE_RETURN_SUCCESS, or the error.
pub data Lookup {ℓ} (A : Type ℓ) : Type ℓ where
  value : A → Lookup A
  failed : MessageReturn → Lookup A

-- `ntohl` and its like: the number of a list of bytes, highest first.
unfoldable pub big_endian : ℕ → List ℕ → ℕ
big_endian acc [] = acc
big_endian acc (b ∷ bytes) = big_endian (acc * 256 + b) bytes

-- The bytes of `htonl (value)`; `value` is a `uint32_t`.
unfoldable pub bytes32 : ℕ → List ℕ
bytes32 v = v / 2 ^ 24 % 256 ∷ v / 2 ^ 16 % 256 ∷ v / 2 ^ 8 % 256 ∷ v % 256 ∷ []

unfoldable pub flag_of : Found → MessageReturn
flag_of missing = not_found
flag_of (found p len) = if len == 0 then success else invalid

unfoldable pub find_flag : Message → ℕ → Option MessageReturn
unfolding flag_of
find_flag msg type = do f ← find msg type; some (flag_of f)

unfoldable pub number32 : List ℕ → Found → Option (Lookup ℕ)
unfolding big_endian
number32 buffer missing = some (failed not_found)
number32 buffer (found p len) =
    if len == 4
    then (do bytes ← read buffer p 4; some (value (big_endian 0 bytes)))
    else some (failed invalid)

unfoldable pub find32 : Message → ℕ → Option (Lookup ℕ)
unfolding number32
find32 msg type = do f ← find msg type; number32 msg.buffer f

unfoldable pub number64 : List ℕ → Found → Option (Lookup ℕ)
unfolding big_endian
number64 buffer missing = some (failed not_found)
number64 buffer (found p len) =
    if len == 8
    then (do
      bytes ← read buffer p 8
      some (value (bit_or (big_endian 0 (take 4 bytes) * 2 ^ 32) (big_endian 0 (drop 4 bytes)))))
    else some (failed invalid)

unfoldable pub find64 : Message → ℕ → Option (Lookup ℕ)
unfolding number64
find64 msg type = do f ← find msg type; number64 msg.buffer f

-- What is stored into `buf`, which has room for `buflen` characters; the text ends with a 0.
unfoldable pub string_of : List ℕ → ℕ → Found → Option (Lookup (List ℕ))
string_of buffer buflen missing = some (failed not_found)
string_of buffer buflen (found p len) =
    if leb buflen len
    then some (failed not_enough_space)
    else (do bytes ← read buffer p len; some (value (bytes ++ 0 ∷ [])))

unfoldable pub find_string : Message → ℕ → ℕ → Option (Lookup (List ℕ))
unfolding string_of
find_string msg type buflen = do f ← find msg type; string_of msg.buffer buflen f

unfoldable pub error_of : List ℕ → Found → Option (Lookup ℕ)
error_of buffer missing = some (failed not_found)
error_of buffer (found p alen) = if ltb alen 4 then some (failed invalid) else (do
  b2 ← get_elem? buffer (p + 2)
  number ← get_elem? buffer (p + 3)
  let class = bit_and b2 0x7
  some (
      if ltb class 3 || ltb 6 class || ltb 99 number
      then failed invalid
      else value (class * 100 + number)))

unfoldable pub find_error : Message → Option (Lookup ℕ)
unfolding error_of
find_error msg = do f ← find msg Attribute.error_code; error_of msg.buffer f

unfoldable pub append_flag : Message → ℕ → Option (MessageReturn × Message)
append_flag msg type = append_bytes msg type []

unfoldable pub append32 : Message → ℕ → ℕ → Option (MessageReturn × Message)
append32 msg type v = append_bytes msg type (bytes32 v)

unfoldable pub append64 : Message → ℕ → ℕ → Option (MessageReturn × Message)
append64 msg type v = append_bytes msg type (bytes32 (v / 2 ^ 32) ++ bytes32 (v % 2 ^ 32))

-- The list is the text of `str` before its 0.
unfoldable pub append_string : Message → ℕ → List ℕ → Option (MessageReturn × Message)
append_string msg type str = append_bytes msg type str

abbrev pub text : String → List ℕ
text String.[] = []
text (String.◌∷◌ letter more) = code letter ∷ text more

-- The table of `stun_strerror`.
unfoldable pub phrases : List (ℕ × String)
phrases =
    (300, "Try alternate server")
    ∷ (400, "Bad request")
    ∷ (401, "Unauthorized")
    ∷ (420, "Unknown Attribute")
    ∷ (437, "Allocation Mismatch")
    ∷ (438, "Stale Nonce")
    ∷ (439, "Active Destination Already Set")
    ∷ (440, "Address Family not Supported")
    ∷ (442, "Unsupported Transport Protocol")
    ∷ (443, "Invalid IP Address")
    ∷ (444, "Invalid Port")
    ∷ (445, "Operation for TCP Only")
    ∷ (446, "Connection Already Exists")
    ∷ (486, "Allocation Quota Reached")
    ∷ (487, "Role conflict")
    ∷ (500, "Server Error")
    ∷ (507, "Insufficient Capacity")
    ∷ (508, "Insufficient Capacity")
    ∷ []

unfoldable pub phrase_of : List (ℕ × String) → ℕ → String
phrase_of [] c = "Unknown error"
phrase_of ((c', phrase) ∷ rest) c = if c' == c then phrase else phrase_of rest c

unfoldable pub strerror : ℕ → List ℕ
unfolding phrases phrase_of
strerror c = text (phrase_of phrases c)

-- `code / 100` and `code % 100` are cut to a byte each.
unfoldable pub append_error : Message → ℕ → Option (MessageReturn × Message)
unfolding copy_in
append_error msg c = do
  let str = strerror c
  r ← append msg Attribute.error_code (4 + length str)
  elim r [
    | no_room ↦ some (not_enough_space, msg)
    | appended p m ↦ do
      b1 ← write m.buffer p (replicate 2 0)
      b2 ← write b1 (p + 2) (c / 100 % 256 ∷ [])
      b3 ← write b2 (p + 3) (c % 100 ∷ [])
      b4 ← write b3 (p + 4) str
      some (success, record m { buffer = b4 })
  ]
