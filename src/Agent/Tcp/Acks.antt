-- ===== src/Agent/Tcp/Acks.antt =====
-- The acknowledgement in a segment: round-trip times, the windows and retransmission, in `process`.
pub mod Freed
pub mod Estimates
use libnice4android.Prelude.{
  ℕ, zero, suc, ◌+◌, ◌*◌, ◌-◌, ◌/◌, ◌%◌, ◌^◌, Bool, true, false, not, ◌&&◌, ◌||◌, Option, none,
  some, List, [], ◌∷◌, ltb, leb, ◌==◌, if◌then◌else◌, ◌>>=◌,
}
use libnice4android.Agent.Fifo.{Fifo, consume_read_data, lesser}
use libnice4android.Agent.Tcp.{
  Socket, Segment, SSegment, Errno, econnaborted, closedown_local, greater, add32, sub32, min_rto,
  max_rto,
}
use libnice4android.Agent.Tcp.Time.{bound, time_diff, larger, larger_or_equal, smaller_or_equal}
use libnice4android.Agent.Tcp.States.{has_sent_fin}
use libnice4android.Agent.Tcp.Send.{transmit, closedown}

-- A part of `process`, which may return FALSE before the end.
pub data Step {ℓ} (A : Type ℓ) : Type ℓ where
  stop : Socket → Step A
  go : A → Socket → Step A

-- The estimates of the round-trip time after a sample of `rtt` milliseconds.
unfoldable pub update_rtt : Socket → ℕ → Socket
update_rtt s rtt =
    let far = if leb s.rx_srtt rtt then rtt - s.rx_srtt else s.rx_srtt - rtt in
    let first = s.rx_srtt == 0 in
    let rttvar = if first then rtt / 2 else (3 * s.rx_rttvar + far) % 2 ^ 32 / 4 in
    let srtt = if first then rtt else (7 * s.rx_srtt % 2 ^ 32 + rtt) / 8 in
    record s {
      rx_rttvar = rttvar;
      rx_srtt = srtt;
      rx_rto = bound min_rto ((srtt + greater 1 (4 * rttvar % 2 ^ 32)) % 2 ^ 32) max_rto;
    }

-- A sample below 0 is invalid.
sample_rtt : Socket → ℕ → ℕ → Option Socket
sample_rtt s tsecr now =
    if tsecr == 0
    then some s
    else (let rtt = time_diff now tsecr in
        if ltb rtt (2 ^ 31) then some (update_rtt s rtt) else none)

-- `seg->wnd << priv->swnd_scale`: a shift by 32 bits or more is undefined.
unfoldable pub scaled_window : Socket → ℕ → Option ℕ
scaled_window s wnd = if ltb s.swnd_scale 32 then some (wnd * 2 ^ s.swnd_scale % 2 ^ 32) else none

-- The loop over the segments that `count` acknowledged bytes cover: the segments left, and the
-- largest one that was acknowledged. The assertion is that there are enough.
unfoldable pub free_segments : ℕ → List SSegment → ℕ → Option (List SSegment × ℕ)
free_segments zero slist largest = some (slist, largest)
free_segments (suc n) [] largest = none
free_segments (suc n) (sseg ∷ more) largest =
    if ltb (suc n) sseg.len
    then some (record sseg { len = sseg.len - suc n; seq = add32 sseg.seq (suc n) } ∷ more, largest)
    else free_segments (suc n - sseg.len) more (greater sseg.len largest)

-- A retransmission of the oldest segment; the connection is closed if it fails.
retransmit : Socket → ℕ → Option (Step (Unit {0}))
retransmit s now = elim s.slist [
  | [] ↦ none
  | sseg ∷ more ↦ do
    (done, s1) ← transmit s sseg.address now
    if done
        then some (go tt s1)
        else (do s2 ← closedown s1 econnaborted closedown_local; some (stop s2))
]

-- The congestion window after an acknowledgement of `count` bytes.
congestion : Socket → ℕ → ℕ → Option (Step (Unit {0}))
unfolding retransmit
congestion s count now =
    if leb 3 s.dup_acks
    then (if larger_or_equal s.snd_una s.recover
        then (let in_flight = sub32 s.snd_nxt s.snd_una in
            some
              (go tt (record s { cwnd = lesser s.ssthresh (add32 in_flight s.mss); dup_acks = 0 })))
        else (do
          outcome ← retransmit s now
          elim outcome [
            | stop s1 ↦ some (stop s1)
            | go _ s1 ↦
                some
                  (go tt (record s1 { cwnd = add32 s1.cwnd (sub32 s1.mss (lesser count s1.cwnd)) }))
          ]))
    else (let s1 = record s { dup_acks = 0 } in
        if ltb s1.cwnd s1.ssthresh
        then some (go tt (record s1 { cwnd = add32 s1.cwnd s1.mss }))
        else (if s1.cwnd == 0
            then none
            else some (
                go tt (record s1 {
                  cwnd = add32 s1.cwnd (greater 1 (s1.mss * s1.mss % 2 ^ 32 / s1.cwnd));
                }))))

-- A valuable acknowledgement. The value says whether it acknowledges a FIN.
unfoldable pub valuable_ack : Socket → Segment → ℕ → Option (Step Bool)
unfolding sample_rtt congestion
valuable_ack s seg now = elim (sample_rtt s seg.tsecr now) [
  | none ↦ some (stop s)
  | some s1 ↦ do
    snd_wnd ← scaled_window s1 seg.wnd
    let acked = sub32 seg.ack s1.snd_una
    let is_fin_ack = acked == s1.sbuf.data_length + 1 && has_sent_fin s1.state
    let count = if is_fin_ack then acked - 1 else acked
    sbuf ← consume_read_data s1.sbuf count
    freed ← free_segments count s1.slist s1.largest
    outcome ←
        congestion
          (record s1 {
            snd_wnd = snd_wnd;
            snd_una = seg.ack;
            rto_base = if seg.ack == s1.snd_nxt then 0 else now;
            sbuf = sbuf;
            slist = freed.0;
            largest = freed.1;
          })
          count now
    elim outcome [ stop s2 ↦ some (stop s2) | go _ s2 ↦ some (go is_fin_ack s2) ]
]

-- The third duplicate acknowledgement retransmits, the later ones widen the window.
unfoldable pub count_duplicate : Socket → ℕ → Option (Step (Unit {0}))
unfolding retransmit
count_duplicate s0 now =
    let s = record s0 { dup_acks = (s0.dup_acks + 1) % 2 ^ 8 } in
    if s.dup_acks == 3
    then (do
      outcome ← retransmit s now
      elim outcome [
        | stop s1 ↦ some (stop s1)
        | go _ s1 ↦
            let ssthresh = greater (sub32 s1.snd_nxt s1.snd_una / 2) (2 * s1.mss % 2 ^ 32) in
            some (
              go tt (record s1 {
                recover = s1.snd_nxt;
                ssthresh = ssthresh;
                cwnd = add32 ssthresh (3 * s1.mss);
              }))
      ])
    else some (go tt (if ltb 3 s.dup_acks then record s { cwnd = add32 s.cwnd s.mss } else s))

unfoldable pub duplicate_ack : Socket → Segment → ℕ → Option (Step (Unit {0}))
duplicate_ack s seg now = do
  snd_wnd ← scaled_window s seg.wnd
  let s1 = record s { snd_wnd = snd_wnd }
  if ltb 0 seg.len
      then some (go tt s1)
      else (if not (s1.snd_una == s1.snd_nxt)
          then count_duplicate s1 now
          else some (go tt (record s1 { dup_acks = 0 })))

-- Whether the segment acknowledges a FIN.
unfoldable pub process_ack : Socket → Segment → ℕ → Option (Step Bool)
process_ack s seg now =
    if larger seg.ack s.snd_una && smaller_or_equal seg.ack s.snd_nxt
    then valuable_ack s seg now
    else (if seg.ack == s.snd_una
        then (do
          outcome ← duplicate_ack s seg now
          elim outcome [ stop s1 ↦ some (stop s1) | go _ s1 ↦ some (go false s1) ])
        else some (go false s))
