-- ===== src/Agent/Tcp/Receive/Ranges.antt =====
-- The list of ranges that were received out of order.
use libnice4android.Prelude.{
  ℕ, ◌+◌, ◌-◌, ◌^◌, ◌<◌, ◌≤◌, ◌≡◌, arith, List, [], ◌∷◌, ltb, inl, inr, Bool-cases,
}
use libnice4android.Agent.Tcp.{RSegment, add32, sub32}
use libnice4android.Agent.Tcp.Time.{smaller, larger}
use libnice4android.Agent.Tcp.Receive.{insert_range}

-- The ranges lie in the window of `space` bytes from `start` on, in the order of their beginnings,
-- none of which is less than `low` behind the start.
abbrev pub RangesIn : ℕ → ℕ → ℕ → List RSegment → Type 0
RangesIn start space low [] = Unit {0}
RangesIn start space low (r ∷ more) =
    (r.seq < 2 ^ 32)
    × (low ≤ sub32 r.seq start)
    × (sub32 r.seq start + r.len ≤ space)
    × RangesIn start space (sub32 r.seq start) more

pub RangesIn-low :
    (start space low low' : ℕ) (ranges : List RSegment)
    → low' ≤ low
    → RangesIn start space low ranges
    → RangesIn start space low' ranges
RangesIn-low start space low low' [] h p = tt
RangesIn-low start space low low' (r ∷ more) h (a, b, c, d) = (a, omega arith, c, d)

-- In a window the comparison is that of the distances.
smaller_lem :
    (start a b : ℕ)
    → start < 2 ^ 32
    → a < 2 ^ 32
    → b < 2 ^ 32
    → sub32 a start < 2 ^ 30
    → sub32 b start < 2 ^ 30
    → smaller a b ≡ ltb (sub32 a start) (sub32 b start)
unfolding smaller larger
smaller_lem start a b hs ha hb h k = ground arith

-- A new range in the window goes to its place.
pub insert_range-RangesIn :
    (start space low : ℕ) (ranges : List RSegment) (range : RSegment)
    → start < 2 ^ 32
    → space < 2 ^ 30
    → RangesIn start space low ranges
    → range.seq < 2 ^ 32
    → low ≤ sub32 range.seq start
    → sub32 range.seq start + range.len ≤ space
    → RangesIn start space low (insert_range ranges range)
unfolding insert_range
insert_range-RangesIn start space low [] range hs small p a b c = (a, b, c, tt)
insert_range-RangesIn start space low (r ∷ more) range hs small (ra, rb, rc, rest) a b c =
    let order = smaller_lem start r.seq range.seq hs ra a (omega arith) (omega arith) in
    elim (Bool-cases (ltb (sub32 r.seq start) (sub32 range.seq start))) [
      | inl e ↦
          rw (order, e)
            (
              ra,
              rb,
              rc,
              insert_range-RangesIn start space (sub32 r.seq start) more range hs small rest a
                  (ground (arith, e)) c,
            )
      | inr e ↦ rw (order, e) (a, b, c, (ra, ground (arith, e), rc, rest))
    ]

-- The window moves on by `n` bytes, none of which a range begins in.
pub RangesIn-move :
    (start space n low : ℕ) (ranges : List RSegment)
    → start < 2 ^ 32
    → space < 2 ^ 30
    → n ≤ space
    → n ≤ low
    → RangesIn start space low ranges
    → RangesIn (add32 start n) (space - n) (low - n) ranges
RangesIn-move start space n low [] hs small h k p = tt
RangesIn-move start space n low (r ∷ more) hs small h k (a, b, c, d) =
    let moved : sub32 r.seq (add32 start n) ≡ sub32 r.seq start - n = omega arith in
    (
      a,
      omega arith,
      omega arith,
      rw moved (RangesIn-move start space n (sub32 r.seq start) more hs small h (omega arith) d),
    )
