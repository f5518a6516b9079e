-- ===== src/Agent/Tcp/Receive/Trim.antt =====
-- A segment is cut to the bytes that are new and for which there is space.
use libnice4android.Prelude.{
  ℕ, ◌+◌, ◌-◌, ◌%◌, ◌^◌, ◌<◌, ◌≤◌, ◌≡◌, refl, ap, arith, ltb, if◌then◌else◌, length, length-drop,
  ◌⊎◌, inl, inr, Bool-cases,
}
use libnice4android.Agent.Tcp.{Segment, add32, sub32}
use libnice4android.Agent.Tcp.Time.{smaller, larger}
use libnice4android.Agent.Tcp.Receive.{trim_front, trim_back}

-- What `parse` makes: numbers of 32 bits, and a payload of a packet.
pub record IsSegment (seg : Segment) : Type 0 where
  pub seq_small : seg.seq < 2 ^ 32
  pub len_small : seg.len < 2 ^ 16
  pub carried : seg.len ≤ length seg.bytes

-- After the first cut nothing is left, or the segment begins at the next number or ahead of it.
front :
    (rcv_nxt : ℕ) (seg : Segment)
    → IsSegment seg
    → rcv_nxt < 2 ^ 32
    → ((trim_front rcv_nxt seg).len ≡ 0)
      ⊎ (sub32 (trim_front rcv_nxt seg).seq rcv_nxt ≤ 2 ^ 31)
        × ((trim_front rcv_nxt seg).len ≤ seg.len)
        × ((trim_front rcv_nxt seg).len ≤ length (trim_front rcv_nxt seg).bytes)
        × ((trim_front rcv_nxt seg).seq < 2 ^ 32)
unfolding trim_front smaller larger
front rcv_nxt seg v h =
    ground
      (arith, v.seq_small, v.len_small, v.carried, length-drop (sub32 rcv_nxt seg.seq) seg.bytes)

-- What the second cut leaves fits into the space.
back :
    (rcv_nxt space : ℕ) (seg : Segment)
    → rcv_nxt < 2 ^ 32
    → seg.len < 2 ^ 16
    → space < 2 ^ 31
    → (seg.len ≡ 0)
      ⊎ (sub32 seg.seq rcv_nxt ≤ 2 ^ 31) × (seg.len ≤ length seg.bytes) × (seg.seq < 2 ^ 32)
    → ((trim_back rcv_nxt space seg).len ≡ 0)
      ⊎ (sub32 (trim_back rcv_nxt space seg).seq rcv_nxt + (trim_back rcv_nxt space seg).len
          ≤ space)
        × ((trim_back rcv_nxt space seg).len ≤ seg.len)
        × ((trim_back rcv_nxt space seg).len ≤ length (trim_back rcv_nxt space seg).bytes)
        × ((trim_back rcv_nxt space seg).seq < 2 ^ 32)
unfolding trim_back
back rcv_nxt space seg h1 h2 h3 (inl e) = ground arith
back rcv_nxt space seg h1 h2 h3 (inr p) = ground arith

-- The segment after both cuts.
abbrev pub trimmed : ℕ → ℕ → Segment → Segment
trimmed rcv_nxt space seg = trim_back rcv_nxt space (trim_front rcv_nxt seg)

-- Nothing is left of a segment, or it lies in the window of `space` bytes from `rcv_nxt` on.
abbrev pub FitsWindow : ℕ → ℕ → Segment → Type 0
FitsWindow rcv_nxt space seg =
    (seg.len ≡ 0)
    ⊎ (sub32 seg.seq rcv_nxt + seg.len ≤ space) × (seg.len ≤ length seg.bytes) × (seg.seq < 2 ^ 32)

pub trimmed-FitsWindow :
    (rcv_nxt space : ℕ) (seg : Segment)
    → IsSegment seg
    → rcv_nxt < 2 ^ 32
    → space < 2 ^ 31
    → FitsWindow rcv_nxt space (trimmed rcv_nxt space seg)
trimmed-FitsWindow rcv_nxt space seg v h hs = elim (front rcv_nxt seg v h) [
  | inl e ↦ elim (back rcv_nxt space (trim_front rcv_nxt seg) h (omega (arith, e)) hs (inl e)) [
    | inl z ↦ inl z
    | inr (a, b, c, d) ↦ inr (a, c, d)
  ]
  | inr (p, q, r, t) ↦
      elim (back rcv_nxt space (trim_front rcv_nxt seg) h (omega (arith, q, v.len_small)) hs
        (inr (p, r, t))) [ inl z ↦ inl z | inr (a, b, c, d) ↦ inr (a, c, d) ]
]

-- A segment that begins at the next number keeps its first bytes, as many as there is space for.
pub trimmed_next :
    (space : ℕ) (seg : Segment)
    → IsSegment seg
    → space < 2 ^ 31
    → trimmed seg.seq space seg ≡ (if ltb space seg.len then record seg { len = space } else seg)
unfolding trim_front trim_back smaller larger
trimmed_next space seg v hs =
    let same : sub32 seg.seq seg.seq ≡ 0 = omega (arith, v.seq_small) in
    let end : sub32 (add32 seg.seq seg.len) seg.seq ≡ seg.len =
      omega (arith, v.seq_small, v.len_small) in
    elim (Bool-cases (ltb space seg.len)) [
      | inl e ↦ elim (Bool-cases (ltb ((seg.len - space) % 2 ^ 32) seg.len)) [
        | inl f ↦
            rw (same, end, e, f)
              (ap (λ k. record seg { len = k }) {x = seg.len - (seg.len - space) % 2 ^ 32}
                {y = space} (ground (arith, e, v.len_small)))
        | inr f ↦
            rw (same, end, e, f)
              (ap (λ k. record seg { len = k }) {x = 0} {y = space}
                (ground (arith, e, f, v.len_small)))
      ]
      | inr e ↦ rw (same, end, e) refl
    ]
