-- ===== src/Prelude/Bits.antt =====
-- The bit operations of C at variables: shifts are written `x * 2 ^ k` and `x / 2 ^ k`; here `|`
-- of disjoint fields becomes a sum and `&` with a low mask becomes a remainder.
use Prim.Native.Nat.{ℕ, zero, suc, ◌+◌, ◌-◌, ◌*◌, ◌/◌, ◌%◌, ◌^◌, ◌≤◌, ◌<◌, min, max}
use Prim.Native.Nat.{bit_and, bit_or, bit_xor, differ, digits, bitwise}
use Prim.Native.Nat.{bit_and-bitwise, bit_or-bitwise, bit_xor-bitwise}
use mathlib.Core.Path.{◌≡◌, refl, ap, ap₂, ◌∙◌}
use mathlib.Core.Bool.{Bool, true, ◌&&◌}
use native.Mathlib.Nat.{pow-suc, one-le-pow, div-div-eq-div-mul}
use native.Mathlib.Omega.{arith}

-- The native operations mean `digits`, which counts digits down. A count that is not less than the
-- first number may grow without a change.
one_more :
    (rest : ℕ → ℕ) (op : ℕ → ℕ → ℕ) (count x y : ℕ)
    → x ≤ count
    → digits rest op (suc count) x y ≡ digits rest op count x y
one_more rest op zero (suc x) y le = absurd (omega arith)
one_more rest op zero zero y le = refl
one_more rest op (suc count) zero y le = refl
one_more rest op (suc count) (suc x) y le =
    let step = one_more rest op count (suc x / 2) (y / 2) (omega arith) in
    ap (λ k. k * 2 + op (suc x % 2) (y % 2)) step

many_more :
    (rest : ℕ → ℕ) (op : ℕ → ℕ → ℕ) (extra count x y : ℕ)
    → x ≤ count
    → digits rest op (extra + count) x y ≡ digits rest op count x y
many_more rest op zero count x y le = ap (λ k. digits rest op k x y) (omega arith)
many_more rest op (suc extra) count x y le =
    ap (λ k. digits rest op k x y) {x = suc extra + count} {y = suc (extra + count)} (omega arith)
    ∙ one_more rest op (extra + count) x y (omega arith)
    ∙ many_more rest op extra count x y le

-- An operation works on the last digits and on the numbers without them.
lowest_digit :
    (rest : ℕ → ℕ) (op : ℕ → ℕ → ℕ)
    → ((y : ℕ) → rest y ≡ rest (y / 2) * 2 + op 0 (y % 2))
    → (x y : ℕ) → bitwise rest op x y ≡ bitwise rest op (x / 2) (y / 2) * 2 + op (x % 2) (y % 2)
lowest_digit rest op h zero y = h y
lowest_digit rest op h (suc x) y =
    let half = suc x / 2 in
    ap (λ k. k * 2 + op (suc x % 2) (y % 2))
      (ap (λ k. digits rest op k half (y / 2)) {x = x} {y = x - half + half} (omega arith)
        ∙ many_more rest op (x - half) half half (y / 2) (omega arith))

pub bit_or-digit : (a b : ℕ) → bit_or a b ≡ max (a % 2) (b % 2) + 2 * bit_or (a / 2) (b / 2)
bit_or-digit a b = omega (arith, raw)
  where
    raw : bit_or a b ≡ (bit_or (a / 2) (b / 2)) * 2 + (max (a % 2) (b % 2))
    raw = simp bit_or-bitwise (lowest_digit (λ y. y) max (λ y. omega arith) a b)

pub bit_and-digit : (a b : ℕ) → bit_and a b ≡ min (a % 2) (b % 2) + 2 * bit_and (a / 2) (b / 2)
bit_and-digit a b = omega (arith, raw)
  where
    raw : bit_and a b ≡ bit_and (a / 2) (b / 2) * 2 + min (a % 2) (b % 2)
    raw = simp bit_and-bitwise (lowest_digit (λ y. 0) min (λ y. omega arith) a b)

differ_mod : (x y : ℕ) → x < 2 → y < 2 → differ x y ≡ (x + y) % 2
differ_mod zero y hx hy = omega arith
differ_mod (suc zero) zero hx hy = refl
differ_mod (suc zero) (suc zero) hx hy = refl
differ_mod (suc zero) (suc (suc y)) hx hy = absurd (omega arith)
differ_mod (suc (suc x)) y hx hy = absurd (omega arith)

pub bit_xor-digit : (a b : ℕ) → bit_xor a b ≡ bit_xor (a / 2) (b / 2) * 2 + (a + b) % 2
bit_xor-digit a b = omega (arith, digit, differ_mod (a % 2) (b % 2) (omega arith) (omega arith))
  where
    digit : bit_xor a b ≡ bit_xor (a / 2) (b / 2) * 2 + differ (a % 2) (b % 2)
    digit = simp bit_xor-bitwise (lowest_digit (λ y. y) differ (λ y. omega arith) a b)

-- A finite table of tests: the first `n` values of `test` are all true.
unfoldable pub table_holds : (ℕ → Bool) → ℕ → Bool
table_holds test zero = true
table_holds test (suc n) = test n && table_holds test n

pub table_holds_sound :
    (test : ℕ → Bool) (n : ℕ) {i : ℕ} → i < n → table_holds test n ≡ true → test i ≡ true
unfolding table_holds
table_holds_sound test zero small all = absurd (omega arith)
table_holds_sound test (suc n) {i} small all =
    ground (arith, λ (lt : i < n). table_holds_sound test n lt)

-- An induction that goes from `a / 2` to `a`.
halving_induction {ℓ} :
    (P : ℕ → Type ℓ) → P 0 → ((a : ℕ) → P (a / 2) → P a) → (n a : ℕ) → a ≤ n → P a
halving_induction P base step zero zero h = base
halving_induction P base step zero (suc a) h = absurd (omega arith)
halving_induction P base step (suc n) zero h = base
halving_induction P base step (suc n) (suc a) h =
    step (suc a) (halving_induction P base step n (suc a / 2) (omega arith))

or_nothing : (hi : ℕ) → bit_or hi 0 ≡ hi
or_nothing hi =
    halving_induction (λ x. bit_or x 0 ≡ x) refl (λ x ih. omega (arith, bit_or-digit x 0, ih)) hi hi
      (omega arith)

and_nothing : (hi : ℕ) → bit_and hi 0 ≡ 0
and_nothing hi =
    halving_induction (λ x. bit_and x 0 ≡ 0) refl (λ x ih. omega (arith, bit_and-digit x 0, ih)) hi
      hi (omega arith)

shift_once : (hi w : ℕ) → hi * 2 ^ suc w ≡ 2 * (hi * 2 ^ w)
shift_once hi w = omega (arith, ap (λ (t : ℕ). hi * t) (pow-suc 2 w))

-- `(hi << w) | lo` is a sum when `lo` has `w` bits.
pub or_disjoint : (hi lo w : ℕ) → lo < 2 ^ w → bit_or (hi * 2 ^ w) lo ≡ lo + hi * 2 ^ w
or_disjoint hi lo zero h =
    omega (arith, or_nothing (hi * 1), ap (bit_or (hi * 1)) {x = lo} {y = 0} (omega arith))
or_disjoint hi lo (suc w) h =
    let small : lo / 2 < 2 ^ w = omega (arith, pow-suc 2 w) in
    let halved : hi * 2 ^ suc w / 2 ≡ hi * 2 ^ w = omega (arith, shift_once hi w) in
    omega (
      arith,
      shift_once hi w,
      bit_or-digit (hi * 2 ^ suc w) lo,
      or_disjoint hi (lo / 2) w small,
      ap (λ t. bit_or t (lo / 2)) halved,
    )

keep_low : (hi lo w : ℕ) → lo < 2 ^ w → bit_and (lo + hi * 2 ^ w) (2 ^ w - 1) ≡ lo
keep_low hi lo zero h = and_nothing (lo + hi * 1) ∙ omega arith
keep_low hi lo (suc w) h =
    let small : lo / 2 < 2 ^ w = omega (arith, pow-suc 2 w) in
    let halved : (lo + hi * 2 ^ suc w) / 2 ≡ lo / 2 + hi * 2 ^ w = omega (arith, shift_once hi w) in
    let mask : (2 ^ suc w - 1) / 2 ≡ 2 ^ w - 1 = omega (arith, pow-suc 2 w) in
    omega (
      arith,
      shift_once hi w,
      pow-suc 2 w,
      one-le-pow w 2,
      bit_and-digit (lo + hi * 2 ^ suc w) (2 ^ suc w - 1),
      keep_low hi (lo / 2) w small,
      ap₂ bit_and halved mask,
    )

-- A mask of `w` low bits is the remainder by `2 ^ w`.
pub bit_and_mask : (w x : ℕ) → bit_and x (2 ^ w - 1) ≡ x % 2 ^ w
bit_and_mask w x =
    let split : x ≡ x % 2 ^ w + x / 2 ^ w * 2 ^ w = grind (arith, one-le-pow w 2) in
    ap (λ t. bit_and t (2 ^ w - 1)) split
    ∙ keep_low (x / 2 ^ w) (x % 2 ^ w) w (omega (arith, one-le-pow w 2))

pub zero-bit_xor : (b : ℕ) → bit_xor 0 b ≡ b
zero-bit_xor b = bit_xor-bitwise 0 b

xor_comm_upto : (n a b : ℕ) → a + b ≤ n → bit_xor a b ≡ bit_xor b a
xor_comm_upto zero a b h =
    let a0 : a ≡ 0 = omega arith in let b0 : b ≡ 0 = omega arith in rw (a0, b0)
xor_comm_upto (suc n) a b h =
    omega
      (arith, bit_xor-digit a b, bit_xor-digit b a, xor_comm_upto n (a / 2) (b / 2) (omega arith))

pub bit_xor_comm : (a b : ℕ) → bit_xor a b ≡ bit_xor b a
bit_xor_comm a b = xor_comm_upto (a + b) a b (omega arith)

xor_assoc_upto : (n a b c : ℕ) → a + b + c ≤ n → bit_xor (bit_xor a b) c ≡ bit_xor a (bit_xor b c)
xor_assoc_upto zero a b c h =
    let a0 : a ≡ 0 = omega arith in
    let b0 : b ≡ 0 = omega arith in let c0 : c ≡ 0 = omega arith in rw (a0, b0, c0)
xor_assoc_upto (suc n) a b c h = ground (
  arith,
  bit_xor-digit a b,
  bit_xor-digit b c,
  bit_xor-digit (bit_xor a b) c,
  bit_xor-digit a (bit_xor b c),
  xor_assoc_upto n (a / 2) (b / 2) (c / 2) (omega arith),
)

pub bit_xor_assoc : (a b c : ℕ) → bit_xor (bit_xor a b) c ≡ bit_xor a (bit_xor b c)
bit_xor_assoc a b c = xor_assoc_upto (a + b + c) a b c (omega arith)

pub bit_xor_self : (a : ℕ) → bit_xor a a ≡ 0
bit_xor_self a =
    halving_induction (λ k. bit_xor k k ≡ 0) refl (λ k ih. omega (arith, ih, bit_xor-digit k k)) a a
      (omega arith)

-- A mask applied twice is undone.
pub bit_xor_cancel : (a m : ℕ) → bit_xor (bit_xor a m) m ≡ a
bit_xor_cancel a m = rw (bit_xor_assoc a m m, bit_xor_self m, bit_xor_comm a 0, zero-bit_xor a)

pub bit_xor-lt : (k a b : ℕ) → a < 2 ^ k → b < 2 ^ k → bit_xor a b < 2 ^ k
bit_xor-lt zero a b ha hb =
    let a0 : a ≡ 0 = omega arith in let b0 : b ≡ 0 = omega arith in rw (a0, b0) (omega arith)
bit_xor-lt (suc k) a b ha hb = omega (
  arith,
  pow-suc 2 k,
  bit_xor-digit a b,
  bit_xor-lt k (a / 2) (b / 2) (omega (arith, pow-suc 2 k)) (omega (arith, pow-suc 2 k)),
)

-- `(hi << w) ^ lo` is a sum when `lo` has `w` bits.
pub xor_disjoint : (hi lo w : ℕ) → lo < 2 ^ w → bit_xor (hi * 2 ^ w) lo ≡ lo + hi * 2 ^ w
xor_disjoint hi lo zero h =
    let none_low : lo ≡ 0 = omega arith in
    rw (none_low, bit_xor_comm (hi * 1) 0, zero-bit_xor (hi * 1)) (omega arith)
xor_disjoint hi lo (suc w) h =
    let small : lo / 2 < 2 ^ w = omega (arith, pow-suc 2 w) in
    let halved : hi * 2 ^ suc w / 2 ≡ hi * 2 ^ w = omega (arith, shift_once hi w) in
    omega (
      arith,
      shift_once hi w,
      bit_xor-digit (hi * 2 ^ suc w) lo,
      xor_disjoint hi (lo / 2) w small,
      ap (λ t. bit_xor t (lo / 2)) halved,
    )

-- A right shift of both operands.
pub xor_shift : (a b : ℕ) → bit_xor a b / 256 ≡ bit_xor (a / 256) (b / 256)
xor_shift a b =
    quarter (bit_xor a b) (a / 2 / 2 / 2 / 2) (b / 2 / 2 / 2 / 2) (
      omega (
        arith,
        bit_xor-digit a b,
        bit_xor-digit (a / 2) (b / 2),
        bit_xor-digit (a / 2 / 2) (b / 2 / 2),
        bit_xor-digit (a / 2 / 2 / 2) (b / 2 / 2 / 2),
      ))
    ∙ ap₂ bit_xor (omega arith) (omega arith)
  where
    quarter :
        (x a b : ℕ)
        → x / 16 ≡ bit_xor a b
        → x / 256 ≡ bit_xor (a / 2 / 2 / 2 / 2) (b / 2 / 2 / 2 / 2)
    quarter x a b h = omega (
      arith,
      bit_xor-digit a b,
      bit_xor-digit (a / 2) (b / 2),
      bit_xor-digit (a / 2 / 2) (b / 2 / 2),
      bit_xor-digit (a / 2 / 2 / 2) (b / 2 / 2 / 2),
    )

and_shifted : (k x m : ℕ) → bit_and x (m * 2 ^ k) ≡ bit_and (x / 2 ^ k) m * 2 ^ k
and_shifted zero x m =
    let whole : m * 1 ≡ m = omega arith in
    let same : x / 1 ≡ x = omega arith in rw (whole, same) (omega arith)
and_shifted (suc k) x m =
    let ih = and_shifted k (x / 2) m in
    let even : m * 2 ^ suc k ≡ 2 * (m * 2 ^ k) = shift_once m k in
    let half : m * 2 ^ suc k / 2 ≡ m * 2 ^ k = omega (arith, even) in
    let next : x / 2 / 2 ^ k ≡ x / 2 ^ suc k =
      div-div-eq-div-mul x 2 (2 ^ k) ∙ ap (λ t. x / t) (omega (arith, pow-suc 2 k)) in
    omega (
      arith,
      even,
      bit_and-digit x (m * 2 ^ suc k),
      ap (bit_and (x / 2)) half,
      ih,
      shift_once (bit_and (x / 2 ^ suc k) m) k,
      ap (λ t. bit_and t m * 2 ^ k) next,
    )

-- A mask that keeps `w` bits above the `k` lowest.
pub and_field : (k w x : ℕ) → bit_and x ((2 ^ w - 1) * 2 ^ k) ≡ x / 2 ^ k % 2 ^ w * 2 ^ k
and_field k w x = and_shifted k x (2 ^ w - 1) ∙ ap (λ t. t * 2 ^ k) (bit_and_mask w (x / 2 ^ k))
