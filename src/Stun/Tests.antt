-- ===== src/Stun/Tests.antt =====
-- Runs of the STUN code on one binding request, and the theorems at it.
use libnice4android.Prelude.{
  ℕ, ◌+◌, ◌<◌, ◌≡◌, refl, arith, true, false, none, some, List, [], ◌∷◌, get_or, replicate, ◌↔◌,
  bit_xor, take, ◌-◌,
}
use libnice4android.Stun.Types.{Config, success, rfc5389, no_flags}
use libnice4android.Stun.Bytes.{getw, padding, align}
use libnice4android.Stun.Bytes.Laws.{IsBytes, all_bytes, all_bytes-IsBytes}
use libnice4android.Stun.MessageType.{
  type_bytes, class_of_type, method_of_type, word_of, type_round_trip,
}
use libnice4android.Stun.Message.{
  Message, is_aligned, skip, swap_type, pad_of, append, append_bytes, find, found, message_length,
  find_loop, ends_search, message_id,
}
use libnice4android.Stun.Message.Attributes.{Attr, IsMessage}
use libnice4android.Stun.Message.Limits.{append_overrun}
use libnice4android.Stun.Sockaddr.{Sockaddr, af_inet6, xor_address, xor_bytes}
use libnice4android.Stun.Sockaddr.Mask.{IsMasked, IsAddress, xor_address-IsMasked}
use libnice4android.Stun.Values.{value, bytes32}
use libnice4android.Stun.Message.RoundTrip.{Stored, append_bytes-Stored, find-append_bytes}
use libnice4android.Stun.Validate.{complete, validate_buffer_length, validate_fast, counted, walk}
use libnice4android.Stun.Validate.Sound.{IsStun, validate_buffer_length_iff}
use libnice4android.Stun.Validate.Vectors.{validate_fast-joined, vectors, joined}
use libnice4android.Stun.Crc.{crc32, crc_byte, fingerprint}
use libnice4android.Stun.Crc.Table.{crc32_tab}
use libnice4android.Stun.Crc.Reference.{reference, concat, crc32-reference}
use libnice4android.Stun.Crc.Fingerprint.{crc_of, fingerprint-reference}
use libnice4android.Stun.Timer.{Timeval, Timer, refresh}
use libnice4android.Stun.Timer.Laws.{IsRunning, refresh-IsRunning}
use libnice4android.Stun.Unknowns.{optional}
use libnice4android.Stun.Unknowns.Laws.{unknown_types}

-- A binding request that holds PRIORITY, 1234, in a buffer of `spare` bytes more.
abbrev request : ℕ → List ℕ
request spare =
    0
    ∷ 1
    ∷ 0
    ∷ 8
    ∷ 0x21
    ∷ 0x12
    ∷ 0xA4
    ∷ 0x42
    ∷ 1
    ∷ 2
    ∷ 3
    ∷ 4
    ∷ 5
    ∷ 6
    ∷ 7
    ∷ 8
    ∷ 9
    ∷ 10
    ∷ 11
    ∷ 12
    ∷ 0
    ∷ 0x24
    ∷ 0
    ∷ 4
    ∷ 0
    ∷ 0
    ∷ 4
    ∷ 0xD2
    ∷ replicate spare 0

abbrev agent : Config
agent = record { compatibility = rfc5389; usage_flags = no_flags }

abbrev message : ℕ → Message
message spare = record {
  agent = some agent;
  buffer = request spare;
  buffer_len = 28 + spare;
  key = none;
  long_term_key = replicate 16 0;
  long_term_valid = false;
}

abbrev priority : Attr
priority = record { type = 0x24; pos = 24; len = 4 }

request-IsBytes : (spare : ℕ) → all_bytes (request spare) ≡ true → IsBytes (request spare)
request-IsBytes spare h = all_bytes-IsBytes (request spare) h

message-IsMessage : IsMessage (message 12) (priority ∷ [])
unfolding all_bytes skip is_aligned align
message-IsMessage = record {
  bytes = request-IsBytes 12 refl;
  sized = refl;
  small = omega arith;
  fits = omega arith;
  parses = (refl, refl, refl, omega arith, refl);
}

find_priority : find (message 12) 0x24 ≡ some (found 24 4)
unfolding find message_length getw find_loop skip is_aligned align swap_type ends_search
find_priority = refl

user-IsBytes : IsBytes (97 ∷ 98 ∷ 99 ∷ [])
unfolding all_bytes
user-IsBytes = all_bytes-IsBytes (97 ∷ 98 ∷ 99 ∷ []) refl

append_bytes-Stored_example :
    Stored
      (message 12)
      (priority ∷ [])
      0x06
      (97 ∷ 98 ∷ 99 ∷ [])
      (append_bytes (message 12) 0x06 (97 ∷ 98 ∷ 99 ∷ []))
unfolding pad_of padding is_aligned
append_bytes-Stored_example =
    append_bytes-Stored 0x06 (97 ∷ 98 ∷ 99 ∷ []) message-IsMessage (omega arith) user-IsBytes
      (omega arith)

find-append_bytes_example :
    (msg' : Message) × (append_bytes (message 12) 0x06 (97 ∷ 98 ∷ 99 ∷ []) ≡ some (success, msg'))
    × (find msg' 0x06 ≡ some (found 32 3))
    × (skip (is_aligned (some agent)) 3 ≡ 3 + pad_of (some agent) 3)
    × ((i : ℕ) → i < 3 → get_or msg'.buffer (32 + i) 0 ≡ get_or (97 ∷ 98 ∷ 99 ∷ []) i 0)
unfolding pad_of padding is_aligned swap_type ends_search
find-append_bytes_example =
    find-append_bytes 0x06 (97 ∷ 98 ∷ 99 ∷ []) message-IsMessage (omega arith) user-IsBytes
      (omega arith) (omega arith, refl, tt)

message_tight-IsMessage : IsMessage (message 7) (priority ∷ [])
unfolding all_bytes skip is_aligned align
message_tight-IsMessage = record {
  bytes = request-IsBytes 7 refl;
  sized = refl;
  small = omega arith;
  fits = omega arith;
  parses = (refl, refl, refl, omega arith, refl);
}

-- Three bytes fit into the seven that are left, and their padding does not.
append_overrun_example : append (message 7) 0x06 3 ≡ none
unfolding pad_of padding is_aligned
append_overrun_example = append_overrun 0x06 3 message_tight-IsMessage (omega arith) (omega arith)

type_round_trip_example :
    (class_of_type (word_of (type_bytes 2 1)) ≡ 2) × (method_of_type (word_of (type_bytes 2 1)) ≡ 1)
type_round_trip_example = type_round_trip 2 1 (omega arith) (omega arith)

validate_buffer_length_iff_example :
    (validate_buffer_length (request 12) 28 true ≡ some (complete 28))
    ↔ IsStun (request 12) 28 true 28
unfolding all_bytes
validate_buffer_length_iff_example =
    validate_buffer_length_iff (request 12) 28 true 28 (request-IsBytes 12 refl) (omega arith)

validate_request : validate_buffer_length (request 12) 28 true ≡ some (complete 28)
unfolding validate_buffer_length validate_fast walk getw align padding
validate_request = refl

abbrev pieces : List (List ℕ)
pieces = (0 ∷ []) ∷ (1 ∷ 0 ∷ []) ∷ (0 ∷ 7 ∷ []) ∷ replicate 15 7 ∷ []

validate_fast-joined_example :
    validate_fast (vectors pieces) (counted 4) 20 true
    ≡ validate_fast (vectors (joined pieces ∷ [])) (counted 1) 20 true
validate_fast-joined_example = validate_fast-joined pieces true (omega arith)

validate_pieces : validate_fast (vectors pieces) (counted 4) 20 true ≡ some (complete 20)
unfolding validate_fast getw padding
validate_pieces = refl

crc32-reference_example :
    crc32 ((49 ∷ 50 ∷ 51 ∷ []) ∷ (52 ∷ []) ∷ []) false
    ≡ bit_xor (reference 0xffffffff (concat ((49 ∷ 50 ∷ 51 ∷ []) ∷ (52 ∷ []) ∷ []))) 0xffffffff
crc32-reference_example =
    crc32-reference ((49 ∷ 50 ∷ 51 ∷ []) ∷ (52 ∷ []) ∷ [])
      ((omega arith, (omega arith, (omega arith, tt))), ((omega arith, tt), tt))

-- The check value of CRC-32, of the text 123456789.
crc32_check : crc32 ((49 ∷ 50 ∷ 51 ∷ 52 ∷ 53 ∷ 54 ∷ 55 ∷ 56 ∷ 57 ∷ []) ∷ []) false ≡ 0xcbf43926
unfolding crc32 crc_byte crc32_tab
crc32_check = refl

fingerprint-reference_example :
    fingerprint (request 0) 28 false
    ≡ some (bit_xor (crc_of (take (28 - 8) (request 0))) 0x5354554e)
unfolding all_bytes
fingerprint-reference_example =
    fingerprint-reference (request 0) 28 (request-IsBytes 0 refl) (omega arith) (omega arith)
      (omega arith) refl

abbrev at : ℕ → ℕ → Timeval
at sec usec = record { sec = sec; usec = usec }

abbrev timer : Timer
timer = record { deadline = at 5 600000; delay = 600; retransmissions = 0; max_retransmissions = 3 }

timer-IsRunning : IsRunning 600 3 timer
timer-IsRunning = record {
  limit = refl;
  within = omega arith;
  doubled = refl;
  normal = omega arith;
}

refresh-IsRunning_example : IsRunning 600 3 (refresh timer (at 6 0)).1
refresh-IsRunning_example = refresh-IsRunning (at 6 0) (omega arith) timer-IsRunning

unknown_priority : unknown_types (0x06 ∷ []) (priority ∷ []) ≡ 0x24 ∷ []
unfolding unknown_types optional
unknown_priority = refl

-- A message that is its header, and an IPv6 address.
abbrev header_only : Message
header_only = record {
  agent = none;
  buffer = 1 ∷ 1 ∷ 0 ∷ 0 ∷ 0x21 ∷ 0x12 ∷ 0xA4 ∷ 0x42 ∷ replicate 12 7;
  buffer_len = 20;
  key = none;
  long_term_key = [];
  long_term_valid = false;
}

header-IsBytes : IsBytes header_only.buffer
unfolding all_bytes
header-IsBytes = all_bytes-IsBytes header_only.buffer refl

abbrev host : Sockaddr
host = af_inet6 (0x80 ∷ 0x55 ∷ []) (replicate 16 5)

xor_address-IsMasked_example :
    (t : Sockaddr) × (xor_address header_only host 28 0x2112A442 ≡ some (value t))
    × IsMasked header_only.buffer host t
    × (xor_address header_only t 28 0x2112A442 ≡ some (value host))
xor_address-IsMasked_example =
    xor_address-IsMasked header_only host 28 header-IsBytes (omega arith) refl
      (IsAddress.inet6 refl refl (omega arith))

host_run :
    xor_address header_only host 28 0x2112A442
    ≡ some (value (af_inet6 (0xa1 ∷ 0x47 ∷ []) (0x24 ∷ 0x17 ∷ 0xa1 ∷ 0x47 ∷ replicate 12 2)))
unfolding xor_address xor_bytes bytes32 message_id
host_run = refl
