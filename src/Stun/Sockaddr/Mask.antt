-- ===== src/Stun/Sockaddr/Mask.antt =====
-- The mask of an address is the bytes of the message from its cookie on, and is its own inverse.
use libnice4android.Prelude.{
  ℕ, zero, suc, ◌+◌, ◌<◌, ◌≤◌, bit_xor, true, some, List, [], ◌∷◌, length, take, drop, get_or, ◌≡◌,
  refl, arith, ap, ap₂, ◌∙◌, le→ltb, le→leb, bit_xor_cancel, length-take, length-drop,
}
use libnice4android.Stun.Message.{Message, message_id}
use libnice4android.Stun.Message.Cookie.{holds_cookie}
use libnice4android.Stun.Bytes.Laws.{IsBytes}
use libnice4android.Agent.Fifo.Ring.{get_or-take, get_or-drop}
use libnice4android.Stun.Values.{value, bytes32}
use libnice4android.Stun.Sockaddr.{Sockaddr, af_other, af_inet, af_inet6, xor_bytes, xor_address}

xor_bytes_cancel : (xs mask : List ℕ) → xor_bytes (xor_bytes xs mask) mask ≡ xs
unfolding xor_bytes
xor_bytes_cancel [] mask = refl
xor_bytes_cancel (x ∷ xs) [] = refl
xor_bytes_cancel (x ∷ xs) (m ∷ mask) =
    ap₂ (λ (a : ℕ) (b : List ℕ). a ∷ b) (bit_xor_cancel x m) (xor_bytes_cancel xs mask)

length-xor_bytes : (xs mask : List ℕ) → length (xor_bytes xs mask) ≡ length xs
unfolding xor_bytes
length-xor_bytes [] mask = refl
length-xor_bytes (x ∷ xs) [] = refl
length-xor_bytes (x ∷ xs) (m ∷ mask) = ap suc (length-xor_bytes xs mask)

get_or-xor_bytes :
    (xs mask : List ℕ) (i : ℕ)
    → i < length xs
    → length xs ≤ length mask
    → get_or (xor_bytes xs mask) i 0 ≡ bit_xor (get_or xs i 0) (get_or mask i 0)
unfolding xor_bytes
get_or-xor_bytes [] mask i h fit = absurd (omega arith)
get_or-xor_bytes (x ∷ xs) [] i h fit = absurd (omega arith)
get_or-xor_bytes (x ∷ xs) (m ∷ mask) zero h fit = refl
get_or-xor_bytes (x ∷ xs) (m ∷ mask) (suc i) h fit =
    get_or-xor_bytes xs mask i (omega arith) (omega arith)

-- Each byte is that of `xs`, xor the byte of the buffer at the same place from the cookie on.
pub record Xored (buffer xs ys : List ℕ) : Type 0 where
  pub same_length : length ys ≡ length xs
  pub bytes :
      (i : ℕ) → i < length xs → get_or ys i 0 ≡ bit_xor (get_or xs i 0) (get_or buffer (4 + i) 0)

-- The value of XOR-MAPPED-ADDRESS in RFC 5389, section 15.2: the port against the first half of the
-- cookie; the address against the cookie, and behind it the transaction id.
pub data IsMasked (buffer : List ℕ) : Sockaddr → Sockaddr → Type 0 where
  inet :
      {port a port' a' : List ℕ}
      → Xored buffer port port'
      → Xored buffer a a'
      → IsMasked buffer (af_inet port a) (af_inet port' a')
  inet6 :
      {port a port' a' : List ℕ}
      → Xored buffer port port'
      → Xored buffer a a'
      → IsMasked buffer (af_inet6 port a) (af_inet6 port' a')

-- An IPv4 or IPv6 address with all its bytes, and a length that covers its structure.
pub data IsAddress (addrlen : ℕ) : Sockaddr → Type 0 where
  inet :
      {port a : List ℕ}
      → length port ≡ 2
      → length a ≡ 4
      → 16 ≤ addrlen
      → IsAddress addrlen (af_inet port a)
  inet6 :
      {port a : List ℕ}
      → length port ≡ 2
      → length a ≡ 16
      → 28 ≤ addrlen
      → IsAddress addrlen (af_inet6 port a)

xor_bytes-Xored :
    (buffer xs mask : List ℕ)
    → length xs ≤ length mask
    → ((i : ℕ) → i < length xs → get_or mask i 0 ≡ get_or buffer (4 + i) 0)
    → Xored buffer xs (xor_bytes xs mask)
xor_bytes-Xored buffer xs mask fit same = record {
  same_length = length-xor_bytes xs mask;
  bytes = λ i h. get_or-xor_bytes xs mask i h fit ∙ ap (λ b. bit_xor (get_or xs i 0) b) (same i h);
}

-- The bytes of the cookie stand in the buffer.
cookie_in_buffer :
    (buffer : List ℕ)
    → IsBytes buffer
    → holds_cookie buffer ≡ true
    → (i : ℕ) → i < 4
    → get_or (bytes32 0x2112A442) i 0 ≡ get_or buffer (4 + i) 0
unfolding bytes32
cookie_in_buffer buffer bytes h zero k = ground (arith, h, bytes 4, bytes 5, bytes 6, bytes 7)
cookie_in_buffer buffer bytes h (suc zero) k = ground (arith, h, bytes 4, bytes 5, bytes 6, bytes 7)
cookie_in_buffer buffer bytes h (suc (suc zero)) k =
    ground (arith, h, bytes 4, bytes 5, bytes 6, bytes 7)
cookie_in_buffer buffer bytes h (suc (suc (suc zero))) k =
    ground (arith, h, bytes 4, bytes 5, bytes 6, bytes 7)
cookie_in_buffer buffer bytes h (suc (suc (suc (suc i)))) k = absurd (omega arith)

-- The port and the address against the cookie.
masked_by_cookie :
    (buffer : List ℕ)
    → IsBytes buffer
    → holds_cookie buffer ≡ true
    → (xs : List ℕ) → length xs ≤ 4
    → Xored buffer xs (xor_bytes xs (bytes32 0x2112A442))
unfolding bytes32
masked_by_cookie buffer bytes h xs fit =
    xor_bytes-Xored buffer xs (bytes32 0x2112A442) fit
      (λ i k. cookie_in_buffer buffer bytes h i (omega arith))

masked_port :
    (buffer : List ℕ)
    → IsBytes buffer
    → holds_cookie buffer ≡ true
    → (port : List ℕ) → length port ≡ 2
    → Xored buffer port (xor_bytes port (take 2 (bytes32 0x2112A442)))
unfolding bytes32
masked_port buffer bytes h port two =
    xor_bytes-Xored buffer port (take 2 (bytes32 0x2112A442)) (omega arith) (λ i k.
      get_or-take 2 (bytes32 0x2112A442) i (omega arith)
      ∙ cookie_in_buffer buffer bytes h i (omega arith))

-- The address of IPv6 against the cookie and the transaction id.
masked_by_id :
    (buffer xs : List ℕ)
    → length xs ≡ 16
    → 20 ≤ length buffer
    → Xored buffer xs (xor_bytes xs (take 16 (drop 4 buffer)))
masked_by_id buffer xs all long =
    xor_bytes-Xored buffer xs (take 16 (drop 4 buffer))
      (omega (arith, length-take 16 (drop 4 buffer), length-drop 4 buffer))
      (λ i k. get_or-take 16 (drop 4 buffer) i (omega arith) ∙ get_or-drop 4 buffer i)

message_id_lem :
    (msg : Message) → 20 ≤ length msg.buffer → message_id msg ≡ some (take 16 (drop 4 msg.buffer))
unfolding message_id
message_id_lem msg long = rw (le→leb 20 (length msg.buffer) long) refl

-- In a message that holds the cookie, `stun_xor_address` with this cookie masks an IPv4 or IPv6 address
-- as XOR-MAPPED-ADDRESS of RFC 5389 has it, and masks it back when it is called again.
pub xor_address-IsMasked :
    (msg : Message) (s : Sockaddr) (addrlen : ℕ)
    → IsBytes msg.buffer
    → 20 ≤ length msg.buffer
    → holds_cookie msg.buffer ≡ true
    → IsAddress addrlen s
    → (t : Sockaddr) × (xor_address msg s addrlen 0x2112A442 ≡ some (value t))
      × IsMasked msg.buffer s t
      × (xor_address msg t addrlen 0x2112A442 ≡ some (value s))
unfolding xor_address
xor_address-IsMasked msg (af_inet port a) addrlen bytes long cookie (IsAddress.inet two four room) =
    let short = le→ltb addrlen 16 room in
    let mask = bytes32 0x2112A442 in
    (
      af_inet (xor_bytes port (take 2 mask)) (xor_bytes a mask),
      rw short refl,
      IsMasked.inet (masked_port msg.buffer bytes cookie port two)
          (masked_by_cookie msg.buffer bytes cookie a (omega arith)),
      rw short (
          ap₂ (λ (x y : List ℕ). some (value (af_inet x y))) (xor_bytes_cancel port (take 2 mask))
            (xor_bytes_cancel a mask)),
    )
xor_address-IsMasked msg (af_inet6 port a) addrlen bytes long cookie
      (IsAddress.inet6 two all room) =
    let short = le→ltb addrlen 28 room in
    let mask = bytes32 0x2112A442 in
    let id = take 16 (drop 4 msg.buffer) in
    let read_id = message_id_lem msg long in
    (
      af_inet6 (xor_bytes port (take 2 mask)) (xor_bytes a id),
      rw (short, read_id) refl,
      IsMasked.inet6 (masked_port msg.buffer bytes cookie port two)
          (masked_by_id msg.buffer a all long),
      rw (short, read_id)
          (ap₂ (λ (x y : List ℕ). some (value (af_inet6 x y))) (xor_bytes_cancel port (take 2 mask))
            (xor_bytes_cancel a id)),
    )
xor_address-IsMasked msg af_other addrlen bytes long cookie a = elim a [ ]
