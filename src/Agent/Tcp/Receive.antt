-- ===== src/Agent/Tcp/Receive.antt =====
-- The data of a segment that was received: the second half of `process`.
pub mod Trim
pub mod Ranges
pub mod Invariant
pub mod Next
use libnice4android.Prelude.{
  ℕ, zero, suc, ◌+◌, ◌*◌, ◌-◌, ◌/◌, ◌%◌, ◌^◌, bit_and, Bool, true, false, not, ◌&&◌, ◌||◌, Option,
  none, some, List, [], ◌∷◌, ◌++◌, ltb, leb, ◌==◌, if◌then◌else◌, ◌>>=◌, length, take, drop,
}
use libnice4android.Agent.Fifo.{Fifo, get_write_remaining, write_offset, consume_write_buffer}
use libnice4android.Agent.Tcp.{
  Socket, Segment, RSegment, SendFlags, sf_none, sf_delayed_ack, sf_immediate_ack, Shutdown,
  sd_none, sd_graceful, sd_forceful, flag_fin, flag_ctl, add32, sub32,
}
use libnice4android.Agent.Tcp.Time.{larger, smaller, smaller_or_equal}

abbrev pub has : ℕ → ℕ → Bool
has flags flag = not (bit_and flags flag == 0)

-- Which acknowledgement the segment calls for, and the number that a FIN takes up.
unfoldable pub acknowledge : Socket → Segment → SendFlags × Socket
acknowledge s seg =
    if not (seg.seq == s.rcv_nxt)
    then (sf_immediate_ack, s)
    else (if not (seg.len == 0)
        then ((if s.ack_delay == 0 then sf_immediate_ack else sf_delayed_ack), s)
        else (if has seg.flags flag_fin
            then (sf_immediate_ack, record s { rcv_nxt = add32 s.rcv_nxt 1 })
            else (sf_none, s)))

-- Bytes that were received before are cut off the front.
unfoldable pub trim_front : ℕ → Segment → Segment
trim_front rcv_nxt seg =
    if smaller seg.seq rcv_nxt
    then (let adjust = sub32 rcv_nxt seg.seq in
        if ltb adjust seg.len
        then record seg {
          seq = add32 seg.seq adjust;
          bytes = drop adjust seg.bytes;
          len = seg.len - adjust;
        }
        else record seg { len = 0 })
    else seg

-- Bytes for which there is no space are cut off the end; `available_space` is a `gsize`.
unfoldable pub trim_back : ℕ → ℕ → Segment → Segment
trim_back rcv_nxt available_space seg =
    let end = sub32 (add32 seg.seq seg.len) rcv_nxt in
    if ltb available_space end
    then (let adjust = (end - available_space) % 2 ^ 32 in
        if ltb adjust seg.len
        then record seg { len = seg.len - adjust }
        else record seg { len = 0 })
    else seg

-- `bIgnoreData`
unfoldable pub ignores_data : Socket → Segment → Bool
ignores_data s seg =
    has seg.flags flag_ctl
    || not s.support_fin_ack && elim s.shutdown [ sd_none ↦ false | _ ↦ true ]

-- `n` more bytes of the buffer are ready to be read.
unfoldable pub advance : Socket → ℕ → Option Socket
advance s n = do
  rbuf ← consume_write_buffer s.rbuf n
  some (record s { rbuf = rbuf; rcv_nxt = add32 s.rcv_nxt n; rcv_wnd = sub32 s.rcv_wnd n })

-- One range that begins at or before the next number: what of it is new is ready.
unfoldable pub recover_range : RSegment → Socket → SendFlags → Option (SendFlags × Socket)
recover_range range s sflags =
    let end = add32 range.seq range.len in
    if larger end s.rcv_nxt
    then (do s1 ← advance s (sub32 end s.rcv_nxt); some (sf_immediate_ack, s1))
    else some (sflags, s)

-- The ranges that were received before, as far as they join the bytes that are ready.
unfoldable pub recover_ranges : List RSegment → Socket → SendFlags → Option (SendFlags × Socket)
recover_ranges [] s sflags = some (sflags, record s { rlist = [] })
recover_ranges (range ∷ more) s sflags =
    if smaller_or_equal range.seq s.rcv_nxt
    then (do (sflags1, s1) ← recover_range range s sflags; recover_ranges more s1 sflags1)
    else some (sflags, record s { rlist = range ∷ more })

-- A new range is put in order of the sequence numbers.
unfoldable pub insert_range : List RSegment → RSegment → List RSegment
insert_range [] range = range ∷ []
insert_range (r ∷ more) range =
    let rest = insert_range more range in
    if smaller r.seq range.seq then r ∷ rest else range ∷ r ∷ more

-- Data that is not ignored; the flag is `bNewData`. The assertion is that all of it fits.
unfoldable pub store : Socket → Segment → SendFlags → Option (Bool × SendFlags × Socket)
store s seg sflags = do
  (res, rbuf) ← write_offset s.rbuf (take seg.len seg.bytes) (sub32 seg.seq s.rcv_nxt)
  let s1 = record s { rbuf = rbuf }
  if not (res == seg.len)
      then none
      else (if seg.seq == s.rcv_nxt
          then (do
            s2 ← advance s1 seg.len
            recovered ← recover_ranges s2.rlist s2 sflags
            some (true, recovered.0, recovered.1))
          else some (
            false,
            sflags,
            record s1 { rlist = insert_range s1.rlist (record { seq = seg.seq; len = seg.len }) },
          ))

-- From the acknowledgement to the data: `bNewData`, the flags for `attempt_send`, and the socket.
unfoldable pub receive : Socket → Segment → Option (Bool × SendFlags × Socket)
receive s0 seg0 =
    let decided = acknowledge s0 seg0 in
    let sflags = decided.0 in
    let s = decided.1 in
    let seg = trim_back s.rcv_nxt (get_write_remaining s.rbuf) (trim_front s.rcv_nxt seg0) in
    if has seg.flags flag_fin
    then some (
      false,
      sflags,
      if seg.seq == s.rcv_nxt then record s { rcv_nxt = add32 s.rcv_nxt 1 } else s,
    )
    else (if seg.len == 0
        then some (false, sflags, s)
        else (if ignores_data s seg
            then some (
              false,
              sflags,
              if seg.seq == s.rcv_nxt then record s { rcv_nxt = add32 s.rcv_nxt seg.len } else s,
            )
            else store s seg sflags))
