-- ===== src/Agent/Address.antt =====
-- agent/address.c: transport addresses. An address and a port are kept as the numbers that they
-- stand for; the source keeps them in network order and converts on each access.
pub mod Laws
use libnice4android.Prelude.{
  ℕ, ◌+◌, ◌*◌, ◌/◌, ◌%◌, ◌^◌, bit_and, Bool, true, false, ◌&&◌, ◌||◌, Option, none, some, List, [],
  ◌∷◌, ◌==◌, if◌then◌else◌, get_or, replicate, ◌++◌,
}
use libnice4android.Stun.Message.{bytes_eq}

-- The members of the union in a `NiceAddress`, by address family. `other` is AF_UNSPEC and any
-- family that the code does not know.
pub data Address : Type 0 where
  other : Address
  ip4 : ℕ → ℕ → Address
  ip6 : List ℕ → ℕ → ℕ → Address

unfoldable pub init : Address
init = other

unfoldable pub set_ipv4 : Address → ℕ → Address
set_ipv4 addr addr_ipv4 = ip4 addr_ipv4 0

unfoldable pub set_ipv6 : Address → List ℕ → Address
set_ipv6 addr addr_ipv6 = ip6 addr_ipv6 0 0

-- `none` where the source reports a critical warning and returns. A port is cut to 16 bits.
unfoldable pub set_port : Address → ℕ → Option Address
set_port other port = none
set_port (ip4 a p) port = some (ip4 a (port % 2 ^ 16))
set_port (ip6 a p scope) port = some (ip6 a (port % 2 ^ 16) scope)

-- The argument NULL is `none`, and so is the critical warning in the result.
unfoldable pub get_port : Option Address → Option ℕ
get_port none = some 0
get_port (some other) = none
get_port (some (ip4 a p)) = some p
get_port (some (ip6 a p scope)) = some p

-- `nice_address_set_from_sockaddr` and `nice_address_copy_to_sockaddr` copy the member of a known
-- family; the target keeps its value for another one.
unfoldable pub set_from_sockaddr : Address → Address → Address
set_from_sockaddr addr other = addr
set_from_sockaddr addr (ip4 a p) = ip4 a p
set_from_sockaddr addr (ip6 a p scope) = ip6 a p scope

unfoldable pub copy_to_sockaddr : Address → Address → Address
copy_to_sockaddr other sa = sa
copy_to_sockaddr (ip4 a p) sa = ip4 a p
copy_to_sockaddr (ip6 a p scope) sa = ip6 a p scope

unfoldable pub equal : Address → Address → Bool
unfolding bytes_eq
equal (ip4 a p) (ip4 b q) = a == b && p == q
equal (ip6 a p s) (ip6 b q t) = bytes_eq a b && p == q && s == t
equal _ _ = false

unfoldable pub equal_no_port : Address → Address → Bool
unfolding bytes_eq
equal_no_port (ip4 a p) (ip4 b q) = a == b
equal_no_port (ip6 a p s) (ip6 b q t) = bytes_eq a b && s == t
equal_no_port _ _ = false

unfoldable pub ipv4_is_private : ℕ → Bool
ipv4_is_private addr =
    bit_and addr 0xff000000 == 0x0a000000
    || bit_and addr 0xfff00000 == 0xac100000
    || bit_and addr 0xffff0000 == 0xc0a80000
    || bit_and addr 0xff000000 == 0x7f000000

unfoldable pub ipv6_is_private : List ℕ → Bool
unfolding bytes_eq
ipv6_is_private addr =
    get_or addr 0 0 == 0xfe && bit_and (get_or addr 1 0) 0xc0 == 0x80
    || bit_and (get_or addr 0 0) 0xfe == 0xfc
    || bytes_eq addr (replicate 15 0 ++ 1 ∷ [])

unfoldable pub is_private : Address → Bool
unfolding ipv4_is_private ipv6_is_private
is_private other = false
is_private (ip4 a p) = ipv4_is_private a
is_private (ip6 a p s) = ipv6_is_private a

unfoldable pub is_valid : Address → Bool
is_valid other = false
is_valid (ip4 a p) = true
is_valid (ip6 a p s) = true

unfoldable pub ip_version : Address → ℕ
ip_version other = 0
ip_version (ip4 a p) = 4
ip_version (ip6 a p s) = 6
