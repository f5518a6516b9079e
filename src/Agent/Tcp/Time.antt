-- ===== src/Agent/Tcp/Time.antt =====
-- Clocks and sequence numbers of 32 bits, which wrap around.
use libnice4android.Prelude.{
  ℕ, ◌-◌, ◌%◌, ◌^◌, ◌<◌, ◌≡◌, arith, Bool, true, false, not, ◌&&◌, ◌||◌, ltb, leb, ◌==◌,
  if◌then◌else◌,
}
use libnice4android.Agent.Fifo.{lesser}
use libnice4android.Agent.Tcp.{sub32, add32, greater, Socket}

unfoldable pub get_current_time : Socket → ℕ
get_current_time s = if not (s.current_time == 0) then s.current_time else s.clock

unfoldable pub set_time : Socket → ℕ → Socket
set_time s current_time = record s { current_time = current_time }

unfoldable pub bound : ℕ → ℕ → ℕ → ℕ
bound lower middle upper = lesser (greater lower middle) upper

unfoldable pub time_is_between : ℕ → ℕ → ℕ → Bool
time_is_between later middle earlier =
    if leb earlier later
    then leb earlier middle && leb middle later
    else not (ltb later middle && ltb middle earlier)

-- `- (long) x` as a `gint32`. A `gint32` is kept as its bits: below 2^31 it is not negative.
negative : ℕ → ℕ
negative x = (2 ^ 32 - x % 2 ^ 32) % 2 ^ 32

unfoldable pub time_diff : ℕ → ℕ → ℕ
unfolding time_is_between negative
time_diff later earlier =
    if time_is_between (add32 earlier 0x80000000) later earlier
    then (if leb earlier later
        then sub32 later earlier
        else add32 (add32 later (0xFFFFFFFF - earlier)) 1)
    else (if leb later earlier
        then negative (sub32 earlier later)
        else negative (add32 (add32 earlier (0xFFFFFFFF - later)) 1))

-- Whether a `gint32` is 0 or less.
abbrev pub not_positive : ℕ → Bool
not_positive x = x == 0 || leb (2 ^ 31) x

-- LARGER, LARGER_OR_EQUAL, SMALLER and SMALLER_OR_EQUAL
unfoldable pub larger : ℕ → ℕ → Bool
larger a b = ltb (sub32 (sub32 a b) 1) 0x7FFFFFFF

unfoldable pub larger_or_equal : ℕ → ℕ → Bool
larger_or_equal a b = ltb (sub32 a b) 0x7FFFFFFF

unfoldable pub smaller : ℕ → ℕ → Bool
smaller a b = larger b a

unfoldable pub smaller_or_equal : ℕ → ℕ → Bool
smaller_or_equal a b = larger_or_equal b a

-- On every branch `time_diff` of two times below 2^32 is their difference modulo 2^32, read as a
-- signed number: with `later` at most 2^31 - 1 past `earlier` it is that distance, and with `later`
-- at most 2^31 before, it is the bits of the negative one.
pub time_diff_lem :
    (later earlier : ℕ)
    → later < 2 ^ 32
    → earlier < 2 ^ 32
    → time_diff later earlier ≡ sub32 later earlier
unfolding time_diff
time_diff_lem later earlier hl he = ground arith

-- For sequence numbers less than 2^31 - 1 apart, the comparisons are those of the distance.
pub larger_lem :
    (b d : ℕ)
    → b < 2 ^ 32
    → d < 0x7FFFFFFF
    → (larger (add32 b d) b ≡ ltb 0 d)
      × (smaller_or_equal b (add32 b d) ≡ true)
      × (smaller (add32 b d) b ≡ false)
unfolding larger smaller smaller_or_equal larger_or_equal
larger_lem b d hb hd = ground arith
