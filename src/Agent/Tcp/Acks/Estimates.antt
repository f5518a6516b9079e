-- ===== src/Agent/Tcp/Acks/Estimates.antt =====
-- The estimates of the round-trip time stay in their bounds.
use libnice4android.Prelude.{
  ℕ, ◌+◌, ◌*◌, ◌-◌, ◌/◌, ◌%◌, ◌^◌, ◌<◌, ◌≤◌, ◌≡◌, arith, refl, inl, inr, Bool-cases, leb, ◌==◌,
  if◌then◌else◌,
}
use libnice4android.Agent.Fifo.{lesser}
use libnice4android.Agent.Tcp.{Socket, greater, min_rto, max_rto}
use libnice4android.Agent.Tcp.Time.{bound}
use libnice4android.Agent.Tcp.Acks.{update_rtt}

timeout :
    (srtt var : ℕ)
    → srtt < 2 ^ 28
    → var < 2 ^ 31
    → (min_rto ≤ bound min_rto ((srtt + greater 1 var) % 2 ^ 32) max_rto)
      × (bound min_rto ((srtt + greater 1 var) % 2 ^ 32) max_rto ≤ max_rto)
      × (lesser (srtt + 1) max_rto ≤ bound min_rto ((srtt + greater 1 var) % 2 ^ 32) max_rto)
unfolding bound
timeout srtt var h1 h2 = (ground arith, ground arith, ground arith)

smoothed :
    (old rtt : ℕ)
    → old < 2 ^ 28
    → rtt < 2 ^ 28
    → (let new = (7 * old % 2 ^ 32 + rtt) / 8 in (lesser old rtt ≤ new) × (new ≤ greater old rtt))
smoothed old rtt h1 h2 = (ground arith, ground arith)

varied : (old far : ℕ) → old < 2 ^ 28 → far < 2 ^ 28 → (3 * old + far) % 2 ^ 32 / 4 < 2 ^ 28
varied old far h1 h2 = omega arith

-- After a sample that, as the estimates before it, is below 2^28 milliseconds: the timeout lies
-- between its bounds, the smoothed round-trip time lies between the old one and the sample, or is the
-- sample when there was none, and unless it is cut at the upper bound the timeout is above it.
pub update_rtt_bounds :
    (s : Socket) (rtt : ℕ)
    → s.rx_srtt < 2 ^ 28
    → s.rx_rttvar < 2 ^ 28
    → rtt < 2 ^ 28
    → (let s' = update_rtt s rtt in
        (min_rto ≤ s'.rx_rto)
        × (s'.rx_rto ≤ max_rto)
        × (s.rx_srtt ≡ 0 → s'.rx_srtt ≡ rtt)
        × (0 < s.rx_srtt
            → (lesser s.rx_srtt rtt ≤ s'.rx_srtt) × (s'.rx_srtt ≤ greater s.rx_srtt rtt))
        × (lesser (s'.rx_srtt + 1) max_rto ≤ s'.rx_rto)
        × (s'.rx_rttvar < 2 ^ 28))
unfolding update_rtt
update_rtt_bounds s rtt h1 h2 h3 = elim (Bool-cases (s.rx_srtt == 0)) [
  | inl e ↦
      let (a, b, c) = timeout rtt (4 * (rtt / 2) % 2 ^ 32) h3 (omega arith) in
      (
        rw e a,
        rw e b,
        (λ h. rw e refl),
        (λ h. absurd (ground (arith, e, h))),
        rw e c,
        rw e (omega arith),
      )
  | inr e ↦
      let (a, b, c) =
        timeout ((7 * s.rx_srtt % 2 ^ 32 + rtt) / 8)
          (4 * ((3 * s.rx_rttvar + far) % 2 ^ 32 / 4) % 2 ^ 32) (omega arith)
          (omega (arith, varied s.rx_rttvar far h2 near)) in
      (
        rw e a,
        rw e b,
        (λ h. absurd (ground (arith, e, h))),
        (λ h. rw e (smoothed s.rx_srtt rtt h1 h3)),
        rw e c,
        rw e (varied s.rx_rttvar far h2 near),
      )
]
  where
    far : ℕ
    far = if leb s.rx_srtt rtt then rtt - s.rx_srtt else s.rx_srtt - rtt

    near : far < 2 ^ 28
    near = ground arith
