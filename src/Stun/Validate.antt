-- ===== src/Stun/Validate.antt =====
-- stun/stunmessage.c: is a buffer, or a list of buffers, one whole STUN message?
pub mod Walk
pub mod Sound
pub mod Vectors
use libnice4android.Prelude.{
  ℕ, zero, suc, ◌+◌, ◌-◌, ◌*◌, ◌/◌, ◌%◌, ◌^◌, bit_or, Bool, true, false, not, ◌&&◌, ◌||◌, Option,
  none, some, List, [], ◌∷◌, ltb, leb, ◌==◌, if◌then◌else◌, ◌>>=◌, get_elem?,
}
use libnice4android.Stun.Bytes.{padding, align, getw}

-- STUN_MESSAGE_BUFFER_INVALID, STUN_MESSAGE_BUFFER_INCOMPLETE, or the length of the message.
pub data BufferResult : Type 0 where
  invalid incomplete : BufferResult
  complete : ℕ → BufferResult

-- `StunInputVector`; a NULL buffer is `none`.
pub record InputVector : Type 0 where
  pub buffer : Option (List ℕ)
  pub size : ℕ

-- `n_buffers`: a negative one says that a NULL buffer ends the array.
pub data Count : Type 0 where
  counted : ℕ → Count
  terminated : Count

-- The loop that skips `skip` bytes: the array from index `i` on, and what is left to skip.
unfoldable pub skip_bytes :
    List InputVector → Count → ℕ → Option (record { at : List InputVector; skip : ℕ })
skip_bytes bs (counted zero) skip = some (record { at = bs; skip = skip })
skip_bytes [] (counted (suc n)) skip = none
skip_bytes (b ∷ bs) (counted (suc n)) skip =
    let rest = skip_bytes bs (counted n) (skip - b.size) in
    if leb b.size skip then rest else some (record { at = b ∷ bs; skip = skip })
skip_bytes [] terminated skip = none
skip_bytes (b ∷ bs) terminated skip =
    let rest = skip_bytes bs terminated (skip - b.size) in
    let stop = some (record { at = b ∷ bs; skip = skip }) in
    elim b.buffer [ none ↦ stop | some p ↦ if leb b.size skip then rest else stop ]

-- `buffers[0].buffer[0]`
unfoldable pub first_byte : List InputVector → Option ℕ
first_byte [] = none
first_byte (b ∷ bs) = do p ← b.buffer; get_elem? p 0

-- The two bytes of the length field, which may be split over two buffers.
unfoldable pub read_split : List InputVector → ℕ → Option ℕ
unfolding first_byte
read_split [] skip = none
read_split (b ∷ bs) skip = do
  p ← b.buffer
  if ltb 1 ((b.size + 2 ^ 64 - skip) % 2 ^ 64)
      then getw p skip
      else (do hi ← get_elem? p skip; lo ← first_byte bs; some (bit_or (hi * 2 ^ 8) lo))

-- The slow path: tiny buffers abound.
unfoldable pub slow_length : List InputVector → Count → Option ℕ
unfolding skip_bytes read_split
slow_length bs n = do place ← skip_bytes bs n 2; read_split place.at place.skip

-- The checks on the total length `mlen`, once it is known.
unfoldable pub check_length : ℕ → ℕ → Bool → BufferResult
check_length mlen total has_padding =
    if has_padding && not (padding mlen == 0)
    then invalid
    else (if ltb total mlen then incomplete else complete mlen)

-- From the first buffer on, when it is not NULL.
unfoldable pub validate_from :
    List InputVector → Count → List ℕ → ℕ → ℕ → Bool → Option BufferResult
unfolding slow_length check_length
validate_from bs n p size total has_padding = do
  b0 ← get_elem? p 0
  if not (b0 / 2 ^ 6 == 0)
      then some invalid
      else (if ltb total 4 then some incomplete else (do
        mlen ← (if leb 4 size then getw p 2 else slow_length bs n)
        some (check_length (mlen + 20) total has_padding)))

no_buffers : Count → Bool
no_buffers (counted zero) = true
no_buffers (counted (suc n)) = false
no_buffers terminated = false

unfoldable pub validate_nonempty : List InputVector → Count → ℕ → Bool → Option BufferResult
unfolding validate_from
validate_nonempty [] n total has_padding = none
validate_nonempty (b ∷ bs) n total has_padding = elim b.buffer [
  | none ↦ some invalid
  | some p ↦ validate_from (b ∷ bs) n p b.size total has_padding
]

-- `stun_message_validate_buffer_length_fast`
unfoldable pub validate_fast : List InputVector → Count → ℕ → Bool → Option BufferResult
unfolding no_buffers validate_nonempty
validate_fast bs n total has_padding =
    if ltb total 1 || no_buffers n then some invalid else validate_nonempty bs n total has_padding

-- The `while` loop over the attributes: `off` is where `msg` points and `len` what is left. A round
-- takes at least 4 bytes off `len`; with no fuel left the result is `none`.
unfoldable pub walk : ℕ → List ℕ → Bool → ℕ → ℕ → Option Bool
walk zero msg has_padding off len = none
walk (suc fuel) msg has_padding off len =
    if len == 0
    then some true
    else (if ltb len 4 then some false else (do
      field ← getw msg (off + 2)
      let alen = if has_padding then align field else field
      let rest = walk fuel msg has_padding (off + 4 + alen) (len - 4 - alen)
      if ltb (len - 4) alen then some false else rest))

-- What follows the fast check.
unfoldable pub walk_message : List ℕ → Bool → BufferResult → Option BufferResult
walk_message msg has_padding invalid = some invalid
walk_message msg has_padding incomplete = some incomplete
walk_message msg has_padding (complete mlen) = do
  good ← walk (suc (mlen - 20)) msg has_padding 20 (mlen - 20)
  some (if good then complete mlen else invalid)

-- `stun_message_validate_buffer_length`
unfoldable pub validate_buffer_length : List ℕ → ℕ → Bool → Option BufferResult
unfolding walk_message
validate_buffer_length msg length has_padding = do
  r ←
      validate_fast (record { buffer = some msg; size = length } ∷ []) (counted 1) length
        has_padding
  walk_message msg has_padding r
