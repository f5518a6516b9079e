-- ===== src/Agent/Tcp/Process.antt =====
-- `process`: what a socket does with a segment.
use libnice4android.Prelude.{
  ℕ, ◌+◌, ◌-◌, ◌/◌, ◌%◌, ◌^◌, Bool, true, false, not, ◌&&◌, ◌||◌, Option, none, some, List, [], ◌∷◌,
  ltb, ◌==◌, if◌then◌else◌, ◌>>=◌, length, take, drop, get_elem?,
}
use libnice4android.Agent.Fifo.{get_buffered}
use libnice4android.Agent.Tcp.{
  listen, syn_sent, syn_received, established, closed, fin_wait_1, fin_wait_2, closing, time_wait,
  close_wait, last_ack, same_state, Socket, Segment, no_error, econnreset, closedown_local,
  closedown_remote, writable, readable, flag_fin, flag_ctl, flag_rst, ctl_connect, header_size,
  max_packet, add32,
}
use libnice4android.Agent.Tcp.Time.{get_current_time, smaller, smaller_or_equal}
use libnice4android.Agent.Tcp.Packet.{segment_of}
use libnice4android.Agent.Tcp.States.{
  has_sent_fin, set_state, set_state_established, set_state_closed,
}
use libnice4android.Agent.Tcp.Options.{parse_options}
use libnice4android.Agent.Tcp.Send.{queue_connect_message, attempt_send, closedown}
use libnice4android.Agent.Tcp.Receive.{has, receive}
use libnice4android.Agent.Tcp.Acks.{Step, stop, go, process_ack}

-- What a connect message changes in the state.
connected : Socket → Option Socket
connected s = elim s.state [
  | listen ↦ do s1 ← set_state s syn_received; queue_connect_message s1
  | syn_sent ↦ set_state_established s
  | _ ↦ some s
]

-- Control data. The value is `bConnect`.
unfoldable pub control : Socket → Segment → Option (Step Bool)
unfolding connected
control s seg =
    if not (has seg.flags flag_ctl)
    then some (go false s)
    else (if seg.len == 0 then some (stop s) else (do
      code ← get_elem? seg.bytes 0
      if not (code == ctl_connect) then some (stop s) else (do
        s1 ← parse_options s (drop 1 seg.bytes) (seg.len - 1)
        s2 ← connected s1
        some (go true s2))))

unfoldable pub update_timestamp : Socket → Segment → Socket
update_timestamp s seg =
    if smaller_or_equal seg.seq s.ts_lastack && smaller s.ts_lastack (add32 seg.seq seg.len)
    then record s { ts_recent = seg.tsval }
    else s

-- The transitions on a FIN, and on the acknowledgement of a FIN.
unfoldable pub close_transitions : Socket → Bool → Bool → Option Socket
close_transitions s fin is_fin_ack = elim s.state [
  | established ↦ if fin then set_state s close_wait else some s
  | closing ↦ if is_fin_ack then set_state s time_wait else some s
  | last_ack ↦ if is_fin_ack then set_state_closed s no_error else some s
  | fin_wait_1 ↦
      if is_fin_ack && fin
      then set_state s time_wait
      else (if is_fin_ack
          then set_state s fin_wait_2
          else (if fin then set_state s closing else some s))
  | fin_wait_2 ↦ if fin then set_state s time_wait else some s
  | _ ↦ some s
]

-- A FIN segment with data is not processed further.
close_step : Socket → Segment → Bool → Option (Step (Unit {0}))
close_step s seg is_fin_ack =
    if not s.support_fin_ack
    then some (go tt s)
    else (if has seg.flags flag_fin && not (seg.len == 0)
        then some (stop s)
        else (do s1 ← close_transitions s (has seg.flags flag_fin) is_fin_ack; some (go tt s1)))

-- The application is told when less than the ideal amount is left to send.
notify_writable : Socket → Socket
notify_writable s =
    if s.write_enable && ltb (get_buffered s.sbuf) ((s.sbuf_len + s.rbuf_len) % 2 ^ 32 / 2)
    then record s { write_enable = false; events = writable ∷ s.events }
    else s

-- From the acknowledgement to the end.
process_data : Socket → Segment → Bool → Option (Bool × Socket)
unfolding close_step notify_writable
process_data s0 seg connect = do
  acked ← process_ack s0 seg (get_current_time s0)
  elim acked [
    | stop s ↦ some (false, s)
    | go is_fin_ack s ↦ do
      s1 ←
          if same_state s.state syn_received && not connect then set_state_established s else some s
      ended ← close_step s1 seg is_fin_ack
      elim ended [
        | stop s2 ↦ some (false, s2)
        | go _ s2 ↦ do
          (new_data, sflags, s3) ← receive (notify_writable s2) seg
          s4 ← attempt_send s3 sflags
          some (
            true,
            if new_data && s4.read_enable then record s4 { events = readable ∷ s4.events } else s4,
          )
      ]
  ]

unfoldable pub process : Socket → Segment → Option (Bool × Socket)
unfolding process_data
process s0 seg =
    if not (seg.conv == s0.conv)
    then some (false, s0)
    else (let now = get_current_time s0 in
        let s = record s0 { last_traffic = now; lastrecv = now; outgoing = false } in
        if same_state s.state closed || has_sent_fin s.state && ltb 0 seg.len
        then (if not (has seg.flags flag_rst)
            then (do s1 ← closedown s no_error closedown_local; some (false, s1))
            else some (false, s))
        else (if has seg.flags flag_rst
            then (do s1 ← closedown s econnreset closedown_remote; some (false, s1))
            else (do
              controlled ← control s seg
              elim controlled [
                | stop s1 ↦ some (false, s1)
                | go connect s1 ↦ process_data (update_timestamp s1 seg) seg connect
              ])))

unfoldable pub parse : Socket → List ℕ → List ℕ → Option (Bool × Socket)
parse s header_buf data_buf =
    if not (length header_buf == header_size)
    then some (false, s)
    else (do seg ← segment_of header_buf data_buf; process s seg)

-- `pseudo_tcp_socket_notify_packet`
unfoldable pub notify_packet : Socket → List ℕ → Option (Bool × Socket)
notify_packet s buffer =
    if ltb max_packet (length buffer)
    then some (false, s)
    else (if ltb (length buffer) header_size
        then some (false, s)
        else parse s (take header_size buffer) (drop header_size buffer))

-- `pseudo_tcp_socket_notify_message`: one buffer, or a header and the data, of which the message has
-- `len` bytes. `none` is also a message that claims more bytes than its buffers hold.
unfoldable pub notify_message : Socket → List (List ℕ) → ℕ → Option (Bool × Socket)
notify_message s [] len = none
notify_message s (buffer ∷ []) len = notify_packet s buffer
notify_message s (header_buf ∷ data_buf ∷ []) len =
    if not (length header_buf == header_size)
    then none
    else (if ltb max_packet len
        then some (false, s)
        else (if ltb len header_size
            then some (false, s)
            else (if ltb (length data_buf) (len - header_size)
                then none
                else parse s header_buf (take (len - header_size) data_buf))))
notify_message s (_ ∷ _ ∷ _ ∷ _) len = none
