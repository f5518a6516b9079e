-- ===== src/Agent/Tcp/Send.antt =====
-- The queue of segments, and sending them: `queue`, `transmit`, `attempt_send` and `closedown`.
pub mod Segments
pub mod Ends
use libnice4android.Prelude.{
  ℕ, zero, suc, ◌+◌, ◌*◌, ◌-◌, ◌/◌, ◌%◌, ◌^◌, bit_and, Bool, true, false, not, ◌&&◌, ◌||◌, Option,
  none, some, List, [], ◌∷◌, ◌++◌, ltb, leb, ◌==◌, if◌then◌else◌, ◌>>=◌, length, take, get_elem?,
}
use libnice4android.Agent.Fifo.{get_buffered, get_write_remaining, write_fifo, lesser}
use libnice4android.Agent.Tcp.{
  State, listen, syn_sent, syn_received, established, closed, fin_wait_1, fin_wait_2, closing,
  time_wait, close_wait, last_ack, same_state, Socket, SSegment, SendFlags, sf_none, sf_delayed_ack,
  sf_immediate_ack, sf_fin, sf_rst, ClosedownSource, closedown_local, closedown_remote, sd_forceful,
  Errno, WriteResult, write_success, write_too_large, write_fail, flag_fin, flag_ctl, flag_rst,
  packet_maximums, packet_overhead, add32, sub32,
}
use libnice4android.Agent.Tcp.Time.{get_current_time, time_diff}
use libnice4android.Agent.Tcp.Packet.{packet}
use libnice4android.Agent.Tcp.States.{set_state, set_state_closed}
use libnice4android.Agent.Tcp.Options.{connect_bytes}
use Segments.{last_segment, find_segment, set_segment, insert_segment, insert_address}

-- Whether a last segment of the same kind, which was not sent yet, can take more bytes.
joins : Option SSegment → ℕ → Bool
joins none flags = false
joins (some sseg) flags = sseg.flags == flags && sseg.xmit == 0

-- The segment list after `len` bytes were queued.
enqueue : Socket → ℕ → ℕ → Socket
unfolding joins
enqueue s len flags = elim (last_segment s.slist) [
  | none ↦ fresh
  | some sseg ↦
      if joins (some sseg) flags
      then record s { slist = set_segment s.slist (record sseg { len = add32 sseg.len len }) }
      else fresh
]
  where
    fresh : Socket
    fresh = record s {
      slist =
          s.slist
          ++ record {
            address = s.next_address;
            seq = (s.snd_una + get_buffered s.sbuf) % 2 ^ 32;
            len = len;
            xmit = 0;
            flags = flags;
          }
            ∷ [];
      unsent_slist = s.unsent_slist ++ s.next_address ∷ [];
      next_address = s.next_address + 1;
    }

-- `queue`: the number of bytes queued.
unfoldable pub queue : Socket → List ℕ → ℕ → Option (ℕ × Socket)
unfolding enqueue
queue s bytes flags =
    let available_space = get_write_remaining s.sbuf in
    if ltb available_space (length bytes) && not (flags == 0) then none else (do
      let input = take (lesser (length bytes) available_space) bytes
      let s1 = enqueue s (length input) flags
      (written, sbuf) ← write_fifo s1.sbuf input
      some (written, record s1 { sbuf = sbuf }))

unfoldable pub queue_connect_message : Socket → Option Socket
queue_connect_message s = do
  let bytes = connect_bytes s
  (written, s1) ← queue (record s { snd_wnd = length bytes }) bytes flag_ctl
  some s1

unfoldable pub queue_fin_message : Socket → Option Socket
queue_fin_message s =
    if s.support_fin_ack then (do (written, s1) ← queue s [] flag_fin; some s1) else none

unfoldable pub queue_rst_message : Socket → Option Socket
queue_rst_message s =
    if s.support_fin_ack then (do (written, s1) ← queue s [] flag_rst; some s1) else none

-- The inner loop of `transmit`: the next smaller packet sizes, up to one that is below `count`. The
-- flag is false when there is none left. A level goes up in each round, so ten rounds are enough.
unfoldable pub shrink : ℕ → Socket → ℕ → Option (Bool × Socket)
shrink zero s count = none
shrink (suc fuel) s count = do
  maximum ← get_elem? packet_maximums (s.msslevel + 1)
  let mss = maximum - packet_overhead
  let s1 = record s { msslevel = s.msslevel + 1; mss = mss; cwnd = 2 * mss }
  let rest = shrink fuel s1 count
  if maximum == 0 then some (false, s) else (if ltb mss count then some (true, s1) else rest)

-- The outer loop of `transmit`: the number of bytes that were sent, or a failure.
pub data Sent : Type 0 where
  sent : ℕ → Socket → Sent
  failed : Socket → Sent

-- The rounds go down in the packet size, so ten of them are enough.
unfoldable pub write_loop : ℕ → Socket → SSegment → ℕ → ℕ → Option Sent
write_loop zero s segment count now = none
write_loop (suc fuel) s segment count now =
    if ltb (1024 * 1024 * 64) (sub32 segment.seq s.snd_una) then none else (do
      (wres, s1) ← packet s segment.seq segment.flags (sub32 segment.seq s.snd_una) count now
      elim wres [
        | write_success ↦ some (sent count s1)
        | write_fail ↦ some (failed s1)
        | write_too_large ↦ do
          (more, s2) ← shrink 11 s1 count
          let rest = write_loop fuel s2 segment s2.mss now
          if more then rest else some (failed s2)
      ])

-- The rest of a segment of which only `count` bytes are to be sent becomes a segment of its own,
-- which is also unsent unless it was transmitted before.
split_segment : Socket → SSegment → ℕ → ℕ → Option Socket
split_segment s segment count xmit =
    let subseg : SSegment = record {
      address = s.next_address;
      seq = add32 segment.seq count;
      len = segment.len - count;
      xmit = xmit;
      flags = segment.flags;
    } in
    do
      slist ←
          insert_segment (set_segment s.slist (record segment { len = count })) segment.address
            subseg
      unsent ←
          if xmit == 0
          then insert_address s.unsent_slist segment.address subseg.address
          else some s.unsent_slist
      some (record s { slist = slist; unsent_slist = unsent; next_address = s.next_address + 1 })

-- The first transmission takes the segment off the head of the unsent ones.
first_sent : Socket → SSegment → Option Socket
first_sent s segment = elim s.unsent_slist [
  | [] ↦ none
  | address ∷ unsent ↦
      if address == segment.address
      then some (record s {
        unsent_slist = unsent;
        snd_nxt = add32 s.snd_nxt (
            segment.len
            + (if segment.len == 0 && not (bit_and segment.flags flag_fin == 0) then 1 else 0));
      })
      else none
]

-- `transmit` of the segment at an address; `none` is also a segment that is not there.
unfoldable pub transmit : Socket → ℕ → ℕ → Option (Bool × Socket)
unfolding split_segment first_sent
transmit s address now = do
  segment ← find_segment s.slist address
  if leb (if same_state s.state established then 15 else 30) segment.xmit
      then some (false, s)
      else (do
        outcome ← write_loop 11 s segment (lesser segment.len s.mss) now
        elim outcome [
          | failed s1 ↦ some (false, s1)
          | sent count s1 ↦ do
            let segment1 = record segment { len = count }
            s2 ←
                if ltb count segment.len
                then split_segment s1 segment count segment.xmit
                else some s1
            s3 ← if segment.xmit == 0 then first_sent s2 segment1 else some s2
            let s4 = record s3 {
              slist = set_segment s3.slist (record segment1 { xmit = (segment.xmit + 1) % 2 ^ 8 });
            }
            some (true, if s4.rto_base == 0 then record s4 { rto_base = now } else s4)
        ])

-- Whether FIN or RST is forced out.
unfoldable pub forced : SendFlags → Bool
forced sf_none = false
forced sf_delayed_ack = false
forced sf_immediate_ack = false
forced sf_fin = true
forced sf_rst = true

-- The acknowledgement flags are spent with the first segment.
spent : SendFlags → SendFlags
spent sf_none = sf_none
spent sf_delayed_ack = sf_none
spent sf_immediate_ack = sf_none
spent sf_fin = sf_fin
spent sf_rst = sf_rst

-- `nAvailable`, how many bytes the windows and the queue let go now.
unfoldable pub available : Socket → ℕ
available s =
    let limited =
      if s.dup_acks == 1 || s.dup_acks == 2 then add32 s.cwnd (s.dup_acks * s.mss) else s.cwnd in
    let window = lesser s.snd_wnd limited in
    let in_flight = sub32 s.snd_nxt s.snd_una in
    let useable = if ltb in_flight window then window - in_flight else 0 in
    let snd_buffered = get_buffered s.sbuf in
    let queued =
      if ltb snd_buffered in_flight then 0 else lesser (snd_buffered - in_flight) s.mss in
    if ltb useable queued
    then (if ltb (useable * 4 % 2 ^ 32) window then 0 else useable)
    else queued

-- With nothing to send: an acknowledgement now, or a delayed one.
no_more : Socket → SendFlags → ℕ → Option Socket
no_more s sf_none now = some s
no_more s sf_immediate_ack now = do (wres, s1) ← packet s s.snd_nxt 0 0 0 now; some s1
no_more s sf_delayed_ack now =
    if s.t_ack == 0
    then some (record s { t_ack = now })
    else (do (wres, s1) ← packet s s.snd_nxt 0 0 0 now; some s1)
no_more s sf_fin now = some s
no_more s sf_rst now = some s

-- The loop of `attempt_send`. A round sends a segment, or returns.
unfoldable pub send_loop : ℕ → Socket → SendFlags → ℕ → Option Socket
unfolding no_more spent split_segment
send_loop zero s sflags now = none
send_loop (suc fuel) s sflags now =
    let count = available s in
    if count == 0 && not (forced sflags)
    then no_more s sflags now
    else (if s.use_nagling && not (forced sflags) && ltb s.snd_una s.snd_nxt && ltb count s.mss
        then some s
        else elim s.unsent_slist [
          | [] ↦ some s
          | address ∷ unsent ↦ do
            sseg ← find_segment s.slist address
            s1 ←
                if ltb count sseg.len && not (forced sflags)
                then split_segment s sseg count 0
                else some s
            (done, s2) ← transmit s1 address now
            let rest = send_loop fuel s2 (spent sflags) now
            if done then rest else some s2
        ])

-- The fuel of `attempt_send`: as many rounds as there are bytes in the buffer and segments in the
-- queue.
unfoldable pub rounds : Socket → ℕ
rounds s = suc (s.sbuf.buffer_length + length s.slist + length s.unsent_slist)

unfoldable pub attempt_send : Socket → SendFlags → Option Socket
attempt_send s sflags =
    let now = get_current_time s in
    let elapsed = time_diff now s.lastsend in
    let s1 =
      if ltb elapsed (2 ^ 31) && ltb s.rx_rto elapsed then record s { cwnd = s.mss } else s in
    send_loop (rounds s1) s1 sflags now

-- The walk of `closedown` through the states, to where CLOSED can be reached.
unfoldable pub walk_down : Socket → Option Socket
walk_down s = elim s.state [
  | syn_received ↦ from_open s
  | established ↦ from_open s
  | fin_wait_1 ↦ from_fin_wait_1 s
  | fin_wait_2 ↦ set_state s time_wait
  | closing ↦ set_state s time_wait
  | close_wait ↦ set_state s last_ack
  | _ ↦ some s
]
  where
    from_fin_wait_1 : Socket → Option Socket
    from_fin_wait_1 t = do t1 ← set_state t fin_wait_2; set_state t1 time_wait

    from_open : Socket → Option Socket
    from_open t = do t1 ← set_state t fin_wait_1; from_fin_wait_1 t1

-- The RST segment that `closedown` sends, unless the other end asked for it.
unfoldable pub abort : Socket → ClosedownSource → Option Socket
abort s closedown_remote = some s
abort s closedown_local =
    if s.support_fin_ack
    then (do s1 ← queue_rst_message s; attempt_send s1 sf_rst)
    else some (record s { shutdown = sd_forceful })

unfoldable pub closedown : Socket → Errno → ClosedownSource → Option Socket
closedown s err source = do s1 ← abort s source; s2 ← walk_down s1; set_state_closed s2 err
