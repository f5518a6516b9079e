-- ===== src/Agent/Address/Laws.antt =====
-- Equality of addresses, ports, and the private ranges.
use libnice4android.Prelude.{
  ℕ, ◌%◌, ◌^◌, ◌<◌, ◌≤◌, ◌≡◌, refl, ap, arith, ◌↔◌, ◌⊎◌, true, some, List, [], ◌∷◌, get_or,
  replicate, ◌++◌, and_field,
}
use libnice4android.Stun.Bytes.Laws.{IsBytes}
use libnice4android.Stun.Message.{bytes_eq}
use libnice4android.Agent.Address.{
  Address, other, ip4, ip6, set_port, get_port, equal, equal_no_port, is_private, is_valid,
}

pub bytes_eq→eq : (xs ys : List ℕ) → bytes_eq xs ys ≡ true → xs ≡ ys
unfolding bytes_eq
bytes_eq→eq [] [] h = refl
bytes_eq→eq [] (y ∷ ys) h = absurd (cc)
bytes_eq→eq (x ∷ xs) [] h = absurd (cc)
bytes_eq→eq (x ∷ xs) (y ∷ ys) h = ground (arith, bytes_eq→eq xs ys)

pub bytes_eq_refl : (xs : List ℕ) → bytes_eq xs xs ≡ true
unfolding bytes_eq
bytes_eq_refl [] = refl
bytes_eq_refl (x ∷ xs) = ground (arith, bytes_eq_refl xs)

pub bytes_eq_sym : (xs ys : List ℕ) → xs ≡ ys → bytes_eq xs ys ≡ true
bytes_eq_sym xs ys h = rw h (bytes_eq_refl ys)

equal→eq : (a b : Address) → equal a b ≡ true → (a ≡ b) × (is_valid a ≡ true)
unfolding equal is_valid
equal→eq (ip4 a p) (ip4 b q) h = ground arith
equal→eq (ip6 a p s) (ip6 b q t) h = ground (arith, bytes_eq→eq a b)
equal→eq (ip4 a p) other h = absurd (cc)
equal→eq (ip4 a p) (ip6 b q t) h = absurd (cc)
equal→eq (ip6 a p s) other h = absurd (cc)
equal→eq (ip6 a p s) (ip4 b q) h = absurd (cc)
equal→eq other b h = absurd (cc)

equal_self : (a : Address) → is_valid a ≡ true → equal a a ≡ true
unfolding equal is_valid
equal_self other h = h
equal_self (ip4 a p) h = ground arith
equal_self (ip6 a p s) h = ground (arith, bytes_eq_refl a)

-- `nice_address_equal` holds exactly for one address of a known family with itself.
pub equal_iff : (a b : Address) → (equal a b ≡ true) ↔ ((a ≡ b) × (is_valid a ≡ true))
equal_iff a b = (equal→eq a b, λ h. rw (← h.0) (equal_self a h.1))

-- An address of a known family takes a port below 2^16; the port is read back, and the address is
-- otherwise the same.
pub set_port_lem :
    (a : Address) (port : ℕ)
    → is_valid a ≡ true
    → port < 2 ^ 16
    → (b : Address) × (set_port a port ≡ some b)
      × (get_port (some b) ≡ some port)
      × (equal_no_port a b ≡ true)
unfolding set_port get_port equal_no_port is_valid
set_port_lem other port h small = absurd (cc)
set_port_lem (ip4 a p) port h small =
    let cut : port % 2 ^ 16 ≡ port = omega arith in
    (ip4 a (port % 2 ^ 16), refl, ap some cut, ground arith)
set_port_lem (ip6 a p s) port h small =
    let cut : port % 2 ^ 16 ≡ port = omega arith in
    (ip6 a (port % 2 ^ 16) s, refl, ap some cut, ground (arith, bytes_eq_refl a))

-- 10.0.0.0/8, 172.16.0.0/12, 192.168.0.0/16 and 127.0.0.0/8 as ranges.
abbrev pub InPrivateRange : ℕ → Type 0
InPrivateRange a =
    (0x0a000000 ≤ a) × (a ≤ 0x0affffff)
    ⊎ (0xac100000 ≤ a) × (a ≤ 0xac1fffff)
    ⊎ (0xc0a80000 ≤ a) × (a ≤ 0xc0a8ffff)
    ⊎ (0x7f000000 ≤ a) × (a ≤ 0x7fffffff)

-- An IPv4 address, a number below 2^32, counts as private exactly in 10.0.0.0/8, 172.16.0.0/12,
-- 192.168.0.0/16 and 127.0.0.0/8.
pub ipv4_is_private_iff : (a p : ℕ) → a < 2 ^ 32 → (is_private (ip4 a p) ≡ true) ↔ InPrivateRange a
unfolding is_private
ipv4_is_private_iff a p h = (
  λ e. grind (arith, and_field 24 8 a, and_field 20 12 a, and_field 16 16 a),
  λ e. grind (arith, and_field 24 8 a, and_field 20 12 a, and_field 16 16 a),
)

-- fe80::/10, fc00::/7 and ::1.
abbrev pub IsLocal6 : List ℕ → Type 0
IsLocal6 a =
    (get_or a 0 0 ≡ 0xfe) × (128 ≤ get_or a 1 0) × (get_or a 1 0 < 192)
    ⊎ (0xfc ≤ get_or a 0 0) × (get_or a 0 0 ≤ 0xfd)
    ⊎ (a ≡ replicate 15 0 ++ 1 ∷ [])

-- An IPv6 address, a list of bytes, counts as private exactly in fe80::/10 and fc00::/7, and if
-- it is ::1.
pub ipv6_is_private_iff :
    (a : List ℕ) (p s : ℕ) → IsBytes a → (is_private (ip6 a p s) ≡ true) ↔ IsLocal6 a
unfolding is_private
ipv6_is_private_iff a p s bytes = (
  λ e. ground (
    arith,
    and_field 6 2 (get_or a 1 0),
    and_field 1 7 (get_or a 0 0),
    bytes 0,
    bytes 1,
    bytes_eq→eq a (replicate 15 0 ++ 1 ∷ []),
  ),
  λ e. ground (
    arith,
    and_field 6 2 (get_or a 1 0),
    and_field 1 7 (get_or a 0 0),
    bytes 0,
    bytes 1,
    bytes_eq_sym a (replicate 15 0 ++ 1 ∷ []),
  ),
)
