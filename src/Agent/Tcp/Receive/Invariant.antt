-- ===== src/Agent/Tcp/Receive/Invariant.antt =====
-- What holds of the receiving side between two data segments.
use libnice4android.Prelude.{
  ℕ, ◌+◌, ◌-◌, ◌^◌, ◌<◌, ◌≤◌, ◌≡◌, refl, sym, ap, ◌∙◌, arith, Bool, true, false, some, List, [],
  ◌∷◌, ltb, leb, ◌==◌, if◌then◌else◌, inl, inr, Bool-cases, length, take, length-take, ◌>>=◌,
  ==_iff,
}
use mathlib.Core.Path.{subst}
use libnice4android.Agent.Fifo.{write_offset}
use libnice4android.Agent.Fifo.Ring.{IsFifo}
use libnice4android.Agent.Fifo.Offset.{
  written, more, write_offset_lem, written-IsFifo, consume_write_buffer_lem, more-IsFifo,
  get_write_remaining_lem,
}
use libnice4android.Agent.Tcp.{
  Socket, Segment, RSegment, SendFlags, sf_immediate_ack, flag_fin, flag_ctl, add32, sub32,
}
use libnice4android.Agent.Tcp.Time.{smaller_or_equal, larger_or_equal, larger}
use libnice4android.Agent.Tcp.Receive.{
  has, acknowledge, trim_front, trim_back, advance, ignores_data, insert_range, recover_range,
  recover_ranges, store, receive,
}
use libnice4android.Agent.Tcp.Receive.Trim.{IsSegment, trimmed, trimmed-FitsWindow}
use libnice4android.Agent.Tcp.Receive.Ranges.{
  RangesIn, RangesIn-low, RangesIn-move, insert_range-RangesIn,
}

abbrev pub free : Socket → ℕ
free s = s.rbuf.buffer_length - s.rbuf.data_length

pub record IsReceiving (s : Socket) : Type 0 where
  pub ring : IsFifo s.rbuf
  pub ring_small : s.rbuf.buffer_length < 2 ^ 30
  pub next_small : s.rcv_nxt < 2 ^ 32
  pub window : RangesIn s.rcv_nxt (free s) 1 s.rlist

-- In a window that has moved by `k`, where a range begins and ends.
begins :
    (start space k seq : ℕ)
    → start < 2 ^ 32
    → space < 2 ^ 30
    → k ≤ space
    → seq < 2 ^ 32
    → sub32 seq start ≤ space
    → smaller_or_equal seq (add32 start k) ≡ leb (sub32 seq start) k
unfolding smaller_or_equal larger_or_equal
begins start space k seq h1 h2 h3 h4 h5 = ground arith

ends :
    (start space k seq len : ℕ)
    → start < 2 ^ 32
    → space < 2 ^ 30
    → k ≤ space
    → seq < 2 ^ 32
    → sub32 seq start + len ≤ space
    → (larger (add32 seq len) (add32 start k) ≡ ltb k (sub32 seq start + len))
      × (k ≤ sub32 seq start + len
          → sub32 (add32 seq len) (add32 start k) ≡ sub32 seq start + len - k)
unfolding larger
ends start space k seq len h1 h2 h3 h4 h5 = (ground arith, λ h. omega arith)

pub advance_lem :
    (s : Socket) (n : ℕ)
    → IsFifo s.rbuf
    → n ≤ free s
    → advance s n
      ≡ some (record s {
        rbuf = more s.rbuf n;
        rcv_nxt = add32 s.rcv_nxt n;
        rcv_wnd = sub32 s.rcv_wnd n;
      })
unfolding advance
advance_lem s n v h = rw (consume_write_buffer_lem n v h) refl

-- The ranges that join the bytes that are ready are taken up, and the others stay, in a window that
-- has moved by `k`.
recover_ranges-IsReceiving :
    (ranges : List RSegment) (s : Socket) (sflags : SendFlags) (start space k low : ℕ)
    → IsFifo s.rbuf
    → s.rbuf.buffer_length < 2 ^ 30
    → start < 2 ^ 32
    → space < 2 ^ 30
    → k ≤ space
    → s.rcv_nxt ≡ add32 start k
    → free s ≡ space - k
    → RangesIn start space low ranges
    → (r : SendFlags × Socket) × (recover_ranges ranges s sflags ≡ some r) × IsReceiving r.1
unfolding recover_ranges recover_range
recover_ranges-IsReceiving [] s sflags start space k low v hb hs hp hk next room w = (
  (sflags, record s { rlist = [] }),
  refl,
  record { ring = v; ring_small = hb; next_small = omega (arith, next); window = tt },
)
recover_ranges-IsReceiving (r ∷ ranges) s sflags start space k low v hb hs hp hk next room
      (a, b, c, d) =
    let first : smaller_or_equal r.seq s.rcv_nxt ≡ leb (sub32 r.seq start) k =
      ap (smaller_or_equal r.seq) next ∙ begins start space k r.seq hs hp hk a (omega arith) in
    let (last', rest') = ends start space k r.seq r.len hs hp hk a c in
    let last : larger (add32 r.seq r.len) s.rcv_nxt ≡ ltb k (sub32 r.seq start + r.len) =
      ap (larger (add32 r.seq r.len)) next ∙ last' in
    elim (Bool-cases (leb (sub32 r.seq start) k)) [
      | inr e ↦
          let w =
            RangesIn-move start space k (sub32 r.seq start) (r ∷ ranges) hs hp hk
              (ground (arith, e)) (a, omega arith, c, d) in
          let w1 =
            RangesIn-low (add32 start k) (space - k) (sub32 r.seq start - k) 1 (r ∷ ranges)
              (ground (arith, e)) w in
          (
            (sflags, record s { rlist = r ∷ ranges }),
            rw (first, e) refl,
            record {
              ring = v;
              ring_small = hb;
              next_small = omega (arith, next);
              window =
                  subst (λ t. RangesIn t (free s) 1 (r ∷ ranges)) (sym next)
                    (subst (λ t. RangesIn (add32 start k) t 1 (r ∷ ranges)) (sym room) w1);
            },
          )
      | inl e ↦ elim (Bool-cases (ltb k (sub32 r.seq start + r.len))) [
        | inr f ↦
            let (res, eq, inv) =
              recover_ranges-IsReceiving ranges s sflags start space k (sub32 r.seq start) v hb hs
                hp hk next room d in
            let step : recover_ranges (r ∷ ranges) s sflags ≡ recover_ranges ranges s sflags =
              rw (first, e, last, f) refl in
            (res, step ∙ eq, inv)
        | inl f ↦
            let n : ℕ = sub32 r.seq start + r.len - k in
            let new_bytes : sub32 (add32 r.seq r.len) s.rcv_nxt ≡ n =
              ap (sub32 (add32 r.seq r.len)) next ∙ rest' (ground (arith, f)) in
            let fits : n ≤ free s = omega (arith, room, c) in
            let s1 : Socket = record s {
              rbuf = more s.rbuf n;
              rcv_nxt = add32 s.rcv_nxt n;
              rcv_wnd = sub32 s.rcv_wnd n;
            } in
            let (res, eq, inv) =
              recover_ranges-IsReceiving ranges s1 sf_immediate_ack start space
                (sub32 r.seq start + r.len) (sub32 r.seq start) (more-IsFifo n v fits) hb hs hp c
                (ground (arith, next, f)) (ground (arith, room, f)) d in
            let step : recover_ranges (r ∷ ranges) s sflags
                ≡ recover_ranges ranges s1 sf_immediate_ack =
              rw (first, e, last, f, new_bytes, advance_lem s n v fits) refl in
            (res, step ∙ eq, inv)
      ]
    ]

-- A well-formed segment of data, neither FIN nor control, on a connection that supports FIN-ACK.
pub record IsData (s : Socket) (seg : Segment) : Type 0 where
  pub formed : IsSegment seg
  pub no_fin : has seg.flags flag_fin ≡ false
  pub no_ctl : has seg.flags flag_ctl ≡ false
  pub fin_ack : s.support_fin_ack ≡ true

acknowledge-data :
    (s : Socket) (seg : Segment) → has seg.flags flag_fin ≡ false → (acknowledge s seg).1 ≡ s
unfolding acknowledge
acknowledge-data s seg h = elim (Bool-cases (seg.seq == s.rcv_nxt)) [
  | inr e ↦ rw e refl
  | inl e ↦ elim (Bool-cases (seg.len == 0)) [ inr f ↦ rw (e, f) refl | inl f ↦ rw (e, f, h) refl ]
]

trimmed_flags : (rcv_nxt space : ℕ) (seg : Segment) → (trimmed rcv_nxt space seg).flags ≡ seg.flags
unfolding trim_front trim_back
trimmed_flags rcv_nxt space seg = ground arith

-- A segment in the window is stored, at the end of the bytes that are ready or as a range.
store-IsReceiving :
    (s : Socket) (seg : Segment) (sflags : SendFlags)
    → IsReceiving s
    → 0 < seg.len
    → sub32 seg.seq s.rcv_nxt + seg.len ≤ free s
    → seg.len ≤ length seg.bytes
    → seg.seq < 2 ^ 32
    → (r : Bool × SendFlags × Socket) × (store s seg sflags ≡ some r) × IsReceiving r.2
unfolding store
store-IsReceiving s seg sflags v some_bytes fits carried small =
    elim (Bool-cases (seg.seq == s.rcv_nxt)) [
      | inl e ↦
          let here : seg.seq ≡ s.rcv_nxt = (==_iff seg.seq s.rcv_nxt).0 e in
          let s2 : Socket = record s1 {
            rbuf = more s1.rbuf seg.len;
            rcv_nxt = add32 s.rcv_nxt seg.len;
            rcv_wnd = sub32 s.rcv_wnd seg.len;
          } in
          let (res, eq, inv) =
            recover_ranges-IsReceiving s.rlist s2 sflags s.rcv_nxt (free s) seg.len 1
              (more-IsFifo seg.len ring1 (omega arith)) v.ring_small v.next_small
              (omega (arith, v.ring_small)) (omega arith) refl (omega arith) v.window in
          let step : store s seg sflags
              ≡ (recover_ranges s2.rlist s2 sflags >>= (λ r. some (true, r.0, r.1))) =
            rw (wrote, same, e, advance_lem s1 seg.len ring1 (omega arith)) refl in
          ((true, res.0, res.1), step ∙ rw eq refl, inv)
      | inr e ↦
          let range : RSegment = record { seq = seg.seq; len = seg.len } in
          (
            (false, sflags, record s1 { rlist = insert_range s1.rlist range }),
            rw (wrote, same, e) refl,
            record {
              ring = ring1;
              ring_small = v.ring_small;
              next_small = v.next_small;
              window =
                  insert_range-RangesIn s.rcv_nxt (free s) 1 s.rlist range v.next_small
                    (omega (arith, v.ring_small)) v.window small (ground (arith, e, v.next_small))
                    fits;
            },
          )
    ]
  where
    input : List ℕ
    input = take seg.len seg.bytes

    long : length input ≡ seg.len
    long = omega (arith, length-take seg.len seg.bytes)

    offset : ℕ
    offset = sub32 seg.seq s.rcv_nxt

    ring1 : IsFifo (written s.rbuf input offset)
    ring1 = written-IsFifo input offset v.ring

    s1 : Socket
    s1 = record s { rbuf = written s.rbuf input offset }

    wrote : write_offset s.rbuf input offset ≡ some (length input, written s.rbuf input offset)
    wrote = write_offset_lem input offset v.ring (omega (arith, long)) (omega (arith, long))

    same : (length input == seg.len) ≡ true
    same = (==_iff (length input) seg.len).1 long

-- A data segment: it is cut to the window, and stored if something is left.
pub receive-data :
    (s : Socket) (seg : Segment)
    → IsReceiving s
    → IsData s seg
    → receive s seg ≡ (
        let t = trimmed s.rcv_nxt (free s) seg in
        if t.len == 0
        then some (false, (acknowledge s seg).0, s)
        else store s t (acknowledge s seg).0)
unfolding receive ignores_data
receive-data s seg v d =
    let fin : has (trimmed s.rcv_nxt (free s) seg).flags flag_fin ≡ false =
      ap (λ k. has k flag_fin) (trimmed_flags s.rcv_nxt (free s) seg) ∙ d.no_fin in
    let ctl : has (trimmed s.rcv_nxt (free s) seg).flags flag_ctl ≡ false =
      ap (λ k. has k flag_ctl) (trimmed_flags s.rcv_nxt (free s) seg) ∙ d.no_ctl in
    rw (acknowledge-data s seg d.no_fin, get_write_remaining_lem v.ring, fin, ctl, d.fin_ack) refl

-- On a connection that supports FIN-ACK, a well-formed segment that is neither a FIN nor a control
-- segment keeps the invariant of the receiving side, and no assertion fails: wherever its data begin
-- and end, those that are kept fit into the ring, and so do the ranges that they join.
pub receive-IsReceiving :
    (s : Socket) (seg : Segment)
    → IsReceiving s
    → IsData s seg
    → (r : Bool × SendFlags × Socket) × (receive s seg ≡ some r) × IsReceiving r.2
receive-IsReceiving s seg v d = elim (Bool-cases (t.len == 0)) [
  | inl e ↦ ((false, flags, s), receive-data s seg v d ∙ rw e refl, v)
  | inr e ↦ let (res, eq, inv) = stored e in (res, receive-data s seg v d ∙ rw e eq, inv)
]
  where
    t : Segment
    t = trimmed s.rcv_nxt (free s) seg

    flags : SendFlags
    flags = (acknowledge s seg).0

    stored :
        (t.len == 0) ≡ false
        → (r : Bool × SendFlags × Socket) × (store s t flags ≡ some r) × IsReceiving r.2
    stored e =
        elim (trimmed-FitsWindow s.rcv_nxt (free s) seg d.formed v.next_small
          (omega (arith, v.ring_small))) [
            | inl z ↦ absurd (ground (arith, z, e))
            | inr (a, b, c) ↦ store-IsReceiving s t flags v (ground (arith, e)) a b c
          ]
