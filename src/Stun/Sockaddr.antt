-- ===== src/Stun/Sockaddr.antt =====
-- stun/stunmessage.c and stun_xor_address of stun/utils.c: attributes with an address, plain or masked.
pub mod Mask
use libnice4android.Prelude.{
  ℕ, zero, suc, ◌+◌, ◌/◌, ◌%◌, ◌^◌, bit_xor, Bool, true, false, not, ◌||◌, Option, none, some, List,
  [], ◌∷◌, ◌++◌, length, take, get_elem?, ltb, ◌==◌, if◌then◌else◌, ◌>>=◌,
}
use libnice4android.Stun.Types.{
  MessageReturn, success, not_found, invalid, not_enough_space, unsupported_address,
}
use libnice4android.Stun.Bytes.{write}
use libnice4android.Stun.Message.{
  Message, Found, missing, found, find, read, append, no_room, appended, message_id,
}
use libnice4android.Stun.Values.{Lookup, value, failed, bytes32}

-- `sockaddr_storage`: the port and the address as the bytes that they are stored in, by family.
pub data Sockaddr : Type 0 where
  af_other : Sockaddr
  af_inet : List ℕ → List ℕ → Sockaddr
  af_inet6 : List ℕ → List ℕ → Sockaddr

-- `sizeof` the structure of a family; of the whole it is 128.
abbrev pub size_of : Sockaddr → ℕ
size_of af_other = 128
size_of (af_inet port a) = 16
size_of (af_inet6 port a) = 28

-- The value of an attribute, of a family that `addr` has room for.
unfoldable pub family_at : List ℕ → ℕ → ℕ → ℕ → ℕ → Option (Lookup Sockaddr)
family_at buffer addrlen p len family =
    if family == 1
    then (if ltb addrlen 16 || not (len == 8) then some (failed invalid) else (do
      port ← read buffer (p + 2) 2
      a ← read buffer (p + 4) 4
      some (value (af_inet port a))))
    else (if family == 2
        then (if ltb addrlen 28 || not (len == 20) then some (failed invalid) else (do
          port ← read buffer (p + 2) 2
          a ← read buffer (p + 4) 16
          some (value (af_inet6 port a))))
        else some (failed unsupported_address))

unfoldable pub addr_of : List ℕ → ℕ → Found → Option (Lookup Sockaddr)
addr_of buffer addrlen missing = some (failed not_found)
addr_of buffer addrlen (found p len) =
    if ltb len 4
    then some (failed invalid)
    else (do family ← get_elem? buffer (p + 1); family_at buffer addrlen p len family)

-- `addrlen` is the room in `addr`; afterwards it is the size of what was found.
unfoldable pub find_addr : Message → ℕ → ℕ → Option (Lookup Sockaddr)
find_addr msg type addrlen = do f ← find msg type; addr_of msg.buffer addrlen f

-- `^=` byte by byte.
unfoldable pub xor_bytes : List ℕ → List ℕ → List ℕ
xor_bytes [] mask = []
xor_bytes (x ∷ xs) [] = x ∷ xs
xor_bytes (x ∷ xs) (m ∷ mask) = bit_xor x m ∷ xor_bytes xs mask

-- `stun_xor_address`, with the cookie as a `uint32_t`.
unfoldable pub xor_address : Message → Sockaddr → ℕ → ℕ → Option (Lookup Sockaddr)
xor_address msg af_other addrlen cookie = some (failed unsupported_address)
xor_address msg (af_inet port a) addrlen cookie =
    if ltb addrlen 16
    then some (failed invalid)
    else some
        (value (af_inet (xor_bytes port (take 2 (bytes32 cookie))) (xor_bytes a (bytes32 cookie))))
xor_address msg (af_inet6 port a) addrlen cookie =
    if ltb addrlen 28 then some (failed invalid) else (do
      id ← message_id msg
      some (value (af_inet6 (xor_bytes port (take 2 (bytes32 cookie))) (xor_bytes a id))))

unfoldable pub find_xor_addr_full : Message → ℕ → ℕ → ℕ → Option (Lookup Sockaddr)
find_xor_addr_full msg type addrlen cookie = do
  val ← find_addr msg type addrlen
  elim val [ failed e ↦ some (failed e) | value addr ↦ xor_address msg addr (size_of addr) cookie ]

unfoldable pub find_xor_addr : Message → ℕ → ℕ → Option (Lookup Sockaddr)
find_xor_addr msg type addrlen = find_xor_addr_full msg type addrlen 0x2112A442

-- The family with the port and the address behind it, stored into a new attribute.
unfoldable pub append_family :
    Message → ℕ → ℕ → List ℕ → List ℕ → ℕ → Option (MessageReturn × Message)
append_family msg type family port pa alen = do
  r ← append msg type (4 + alen)
  elim r [
    | no_room ↦ some (not_enough_space, msg)
    | appended p m ↦ do
      b ← write m.buffer p (0 ∷ family ∷ port ++ take alen pa)
      some (success, record m { buffer = b })
  ]

unfoldable pub append_addr : Message → ℕ → Sockaddr → ℕ → Option (MessageReturn × Message)
append_addr msg type af_other addrlen =
    some ((if ltb addrlen 16 then invalid else unsupported_address), msg)
append_addr msg type (af_inet port a) addrlen =
    if ltb addrlen 16 then some (invalid, msg) else append_family msg type 1 port a 4
append_addr msg type (af_inet6 port a) addrlen =
    if ltb addrlen 28 then some (invalid, msg) else append_family msg type 2 port a 16

-- No more than a `sockaddr_storage` is copied.
unfoldable pub append_xor_addr_full :
    Message → ℕ → Sockaddr → ℕ → ℕ → Option (MessageReturn × Message)
append_xor_addr_full msg type addr addrlen cookie =
    let len = if ltb 128 addrlen then 128 else addrlen in
    do
      val ← xor_address msg addr len cookie
      elim val [ failed e ↦ some (e, msg) | value tmpaddr ↦ append_addr msg type tmpaddr len ]

unfoldable pub append_xor_addr : Message → ℕ → Sockaddr → ℕ → Option (MessageReturn × Message)
append_xor_addr msg type addr addrlen = append_xor_addr_full msg type addr addrlen 0x2112A442
