-- ===== src/Agent/Tcp/Send/Ends.antt =====
-- The loops of `transmit` end.
use libnice4android.Prelude.{
  ℕ, zero, suc, ◌+◌, ◌*◌, ◌-◌, ◌^◌, ◌<◌, ◌≤◌, ◌≡◌, refl, sym, ap, ◌∙◌, arith, Bool, true, false,
  Option, some, ltb, ◌==◌, if◌then◌else◌, ◌>>=◌, inl, inr, Bool-cases, ==_iff, IsDefined, defined,
  IsDefined-if, IsDefined-some,
}
use mathlib.Core.Path.{subst}
use libnice4android.Agent.Fifo.Ring.{IsFifo}
use libnice4android.Agent.Tcp.{
  Socket, SSegment, write_success, write_too_large, write_fail, packet_maximums, packet_overhead,
  max_packet, header_size, sub32,
}
use libnice4android.Agent.Tcp.Packet.Stream.{packet_stream}
use libnice4android.Agent.Tcp.Connect.{get_elem?-IsDefined}
use libnice4android.Agent.Tcp.Send.{shrink, write_loop, Sent, sent, failed}

-- The level that `shrink` stops at is a later one, and its packets hold fewer than `count` bytes.
IsSmaller : Socket → ℕ → Socket → Type 0
IsSmaller s count t =
    (s.msslevel < t.msslevel)
    × (t.msslevel < 10)
    × (t.mss < count)
    × (t.sbuf ≡ s.sbuf)
    × (t.snd_una ≡ s.snd_una)

-- The sizes end with a 0 at the tenth place, so below it a level is never left out of the table.
shrink_lem :
    (fuel : ℕ) (s : Socket) (count : ℕ)
    → s.msslevel < 10
    → 10 ≤ s.msslevel + fuel
    → (r : Bool × Socket) × (shrink fuel s count ≡ some r) × (r.0 ≡ true → IsSmaller s count r.1)
unfolding shrink IsSmaller
shrink_lem zero s count h low = absurd (omega arith)
shrink_lem (suc fuel) s count h low = elim (Bool-cases (s.msslevel == 9)) [
  | inl e ↦ ((false, s), rw ((==_iff s.msslevel 9).0 e) refl, (λ bad. absurd (ground (arith, bad))))
  | inr e ↦ elim (get_elem?-IsDefined packet_maximums (s.msslevel + 1) (omega arith)) [
    | defined m read ↦
        let s1 : Socket = record s {
          msslevel = s.msslevel + 1;
          mss = m - packet_overhead;
          cwnd = 2 * (m - packet_overhead);
        } in
        elim (Bool-cases (m == 0)) [
          | inl z ↦ ((false, s), rw (read, z) refl, (λ bad. absurd (ground (arith, bad))))
          | inr z ↦ elim (Bool-cases (ltb (m - packet_overhead) count)) [
            | inl f ↦ (
              (true, s1),
              rw (read, z, f) refl,
              (λ good. (omega arith, ground (arith, e), ground (arith, f), refl, refl)),
            )
            | inr f ↦
                let (r, eq, small) = shrink_lem fuel s1 count (ground (arith, e)) (omega arith) in
                (
                  r,
                  rw (read, z, f, eq) refl,
                  (λ good. let (a, b, c, d, g) = small good in (omega (arith, a), b, c, d, g)),
                )
          ]
        ]
  ]
]

-- As `IsDefined-bind`, where the value is known.
IsDefined-next {ℓ κ} :
    {A : Type ℓ} {B : Type κ} {o : Option A} (f : A → Option B) (a : A)
    → o ≡ some a
    → IsDefined (f a)
    → IsDefined (o >>= f)
IsDefined-next f a e d = subst (λ t. IsDefined (t >>= f)) (sym e) d

-- For bytes of the send queue that fit into a packet, a send buffer of at most 64 MiB, and a level of the
-- table of packet sizes: whatever WritePacket answers and however often, the loops over the packet sizes
-- end in as many rounds as sizes are left, and no assertion fails.
pub write_loop-IsDefined :
    (fuel : ℕ) (s : Socket) (segment : SSegment) (count now : ℕ)
    → IsFifo s.sbuf
    → s.msslevel < 10
    → 10 < s.msslevel + fuel
    → sub32 segment.seq s.snd_una + count ≤ s.sbuf.data_length
    → s.sbuf.buffer_length ≤ 2 ^ 26
    → count ≤ max_packet - header_size
    → IsDefined (write_loop fuel s segment count now)
unfolding write_loop IsSmaller
write_loop-IsDefined zero s segment count now v level low inside small_ring fits =
    absurd (omega arith)
write_loop-IsDefined (suc fuel) s segment count now v level low inside small_ring fits =
    let (r, sends, events, keeps) =
      packet_stream s segment.seq segment.flags (sub32 segment.seq s.snd_una) count now v inside
        fits in
    let close : ltb (1024 * 1024 * 64) (sub32 segment.seq s.snd_una) ≡ false =
      ground (arith, inside, small_ring, v.filled) in
    rw close (
      IsDefined-next _ r sends
        (elim r.0
          as (λ w. IsDefined (elim w as (λ x. Option Sent) [
            | write_success ↦ some (sent count r.1)
            | write_too_large ↦ shrink 11 r.1 count >>= next
            | write_fail ↦ some (failed r.1)
          ])) [
            | write_success ↦ IsDefined-some _
            | write_fail ↦ IsDefined-some _
            | write_too_large ↦
                let (t, shrunk, smaller) =
                  shrink_lem 11 r.1 count (omega (arith, keeps.same_level))
                    (omega (arith, keeps.same_level)) in
                IsDefined-next _ t shrunk (
                  IsDefined-if t.0 _ _
                    (λ more.
                      let (later, small, below, same, una) = smaller more in
                      let una' : t.1.snd_una ≡ s.snd_una = una ∙ keeps.same_una in
                      let buffer : t.1.sbuf ≡ s.sbuf = same ∙ keeps.same_buffer in
                      write_loop-IsDefined fuel t.1 segment t.1.mss now
                        (subst IsFifo (sym buffer) v) small (omega (arith, later, keeps.same_level))
                        (omega (arith, inside, below, una', ap (λ b. b.data_length) buffer))
                        (omega (arith, small_ring, ap (λ b. b.buffer_length) buffer))
                        (omega (arith, below, fits)))
                    (λ none. IsDefined-some _))
          ]))
  where
    next : Bool × Socket → Option Sent
    next (more, s2) =
        let rest = write_loop fuel s2 segment s2.mss now in if more then rest else some (failed s2)
