-- ===== src/Agent/Tcp/Operations.antt =====
-- The operations of a pseudo-TCP socket that an application calls.
use libnice4android.Prelude.{
  ℕ, ◌+◌, ◌*◌, ◌-◌, ◌/◌, ◌%◌, ◌^◌, Bool, true, false, not, ◌&&◌, ◌||◌, Option, none, some, List, [],
  ◌∷◌, ltb, leb, ◌==◌, if◌then◌else◌, ◌>>=◌, length,
}
use libnice4android.Agent.Fifo.{get_buffered, get_write_remaining, read_fifo, lesser}
use libnice4android.Agent.Tcp.{
  State, listen, syn_sent, syn_received, established, closed, fin_wait_1, time_wait, close_wait,
  last_ack, number, same_state, Socket, sf_none, sf_immediate_ack, sf_fin, ShutdownHow, shutdown_rd,
  shutdown_wr, shutdown_rdwr, sd_none, sd_graceful, sd_forceful, no_error, einval, enotconn, epipe,
  ewouldblock, econnaborted, closedown_local, closedown_remote, greater, add32, sub32, def_rto,
  max_rto,
}
use libnice4android.Agent.Tcp.Time.{get_current_time, time_diff, not_positive}
use libnice4android.Agent.Tcp.Packet.{packet}
use libnice4android.Agent.Tcp.States.{
  set_state, set_state_closed, adjust_mtu, has_sent_fin, has_received_fin, is_closed,
}
use libnice4android.Agent.Tcp.Send.{
  queue, queue_connect_message, queue_fin_message, transmit, attempt_send, closedown,
}

-- `pseudo_tcp_socket_connect`
unfoldable pub connect : Socket → Option (Bool × Socket)
connect s =
    if not (same_state s.state listen) then some (false, record s { error = einval }) else (do
      s1 ← set_state s syn_sent
      s2 ← queue_connect_message s1
      s3 ← attempt_send s2 sf_none
      some (true, s3))

unfoldable pub notify_mtu : Socket → ℕ → Socket
notify_mtu s mtu =
    let s1 = record s { mtu_advise = mtu } in
    if same_state s1.state established then adjust_mtu s1 else s1

unfoldable pub get_available_bytes : Socket → Option ℕ
get_available_bytes s = if same_state s.state established then some (get_buffered s.rbuf) else none

unfoldable pub get_available_send_space : Socket → ℕ × Socket
get_available_send_space s =
    let space = if same_state s.state established then get_write_remaining s.sbuf else 0 in
    (space, if space == 0 then record s { write_enable = true } else s)

unfoldable pub can_send : Socket → Bool × Socket
can_send s = (ltb 0 (get_available_send_space s).0, (get_available_send_space s).1)

-- The results of `pseudo_tcp_socket_recv`: bytes, or -1 with `error` set.
pub data Received : Type 0 where
  received : List ℕ → Received
  refused : Received

-- The window is opened again when enough space is free; its opening is told at once if it was shut.
reopen : Socket → Option Socket
reopen s =
    let available_space = get_write_remaining s.rbuf in
    if leb (lesser (s.rbuf_len / 2) s.mss) ((available_space + 2 ^ 64 - s.rcv_wnd) % 2 ^ 64)
    then (let s1 = record s { rcv_wnd = available_space % 2 ^ 32 } in
        if s.rcv_wnd == 0 then attempt_send s1 sf_immediate_ack else some s1)
    else some s

unfoldable pub recv : Socket → ℕ → Option (Received × Socket)
unfolding reopen
recv s len =
    if s.support_fin_ack && (s.shutdown_reads || has_received_fin s.state)
    then some (received [], s)
    else (if not s.support_fin_ack && is_closed s
        then some (received [], s)
        else (if not s.support_fin_ack && not (same_state s.state established)
            then some (refused, record s { error = enotconn })
            else (if len == 0 then some (received [], s) else (do
              (bytes, rbuf) ← read_fifo s.rbuf len
              let s1 = record s { rbuf = rbuf }
              if length bytes == 0
                  then some (refused, record s1 { read_enable = true; error = ewouldblock })
                  else (do s2 ← reopen s1; some (received bytes, s2))))))

-- `pseudo_tcp_socket_send`: the number of bytes taken, or `none` inside for -1.
unfoldable pub send : Socket → List ℕ → Option (Option ℕ × Socket)
send s bytes =
    if not (same_state s.state established)
    then some (none, record s { error = if has_sent_fin s.state then epipe else enotconn })
    else (if get_write_remaining s.sbuf == 0
        then some (none, record s { write_enable = true; error = ewouldblock })
        else (do
          (written, s1) ← queue s bytes 0
          s2 ← attempt_send s1 sf_none
          some (
            some written,
            if ltb 0 written && ltb written (length bytes)
                then record s2 { write_enable = true }
                else s2,
          )))

-- The FIN of a socket that is closed in good order.
send_fin : Socket → State → Option Socket
send_fin s next = do s1 ← queue_fin_message s; s2 ← attempt_send s1 sf_fin; set_state s2 next

-- With data that was not read yet the connection is reset.
close_open : Socket → Option Socket
unfolding send_fin
close_open s = elim (get_available_bytes s) [
  | none ↦ send_fin s fin_wait_1
  | some n ↦ if ltb 0 n then closedown s econnaborted closedown_local else send_fin s fin_wait_1
]

-- The write half of `pseudo_tcp_socket_shutdown`.
unfoldable pub close_writes : Socket → Option Socket
unfolding close_open send_fin
close_writes s = elim s.state [
  | listen ↦ set_state_closed s no_error
  | syn_sent ↦ set_state_closed s no_error
  | syn_received ↦ close_open s
  | established ↦ close_open s
  | close_wait ↦ send_fin s last_ack
  | _ ↦ some s
]

-- Without FIN-ACK support.
shutdown_graceful : Socket → Socket
shutdown_graceful s = elim s.shutdown [ sd_none ↦ record s { shutdown = sd_graceful } | _ ↦ s ]

unfoldable pub shutdown_socket : Socket → ShutdownHow → Option Socket
unfolding shutdown_graceful
shutdown_socket s how = if not s.support_fin_ack then some (shutdown_graceful s) else elim how [
  | shutdown_rd ↦ some (record s { shutdown_reads = true })
  | shutdown_wr ↦ close_writes s
  | shutdown_rdwr ↦ close_writes (record s { shutdown_reads = true })
]

unfoldable pub close : Socket → Bool → Option Socket
close s force =
    if force && not (same_state s.state closed)
    then closedown s econnaborted closedown_local
    else shutdown_socket s shutdown_rdwr

-- The retransmission of `pseudo_tcp_socket_notify_clock`. The flag is false if the socket was closed.
unfoldable pub clock_retransmit : Socket → ℕ → Option (Bool × Socket)
clock_retransmit s now =
    if not (s.rto_base == 0) && not_positive (time_diff (add32 s.rto_base s.rx_rto) now)
    then elim s.slist [
      | [] ↦ none
      | sseg ∷ more ↦ do
        (done, s1) ← transmit s sseg.address now
        if not done
            then (do s2 ← closedown s1 econnaborted closedown_local; some (false, s2))
            else (let rto_limit =
                  if ltb (number s1.state) (number established) then def_rto else max_rto in
                some (
                  true,
                  record s1 {
                    ssthresh = greater (sub32 s1.snd_nxt s1.snd_una / 2) (2 * s1.mss % 2 ^ 32);
                    cwnd = s1.mss;
                    rx_rto = lesser rto_limit (s1.rx_rto * 2 % 2 ^ 32);
                    rto_base = now;
                  },
                ))
    ]
    else some (true, s)

-- The probe of a closed window.
unfoldable pub clock_probe : Socket → ℕ → Option (Bool × Socket)
clock_probe s now =
    if s.snd_wnd == 0 && not_positive (time_diff (add32 s.lastsend s.rx_rto) now)
    then (let silent = time_diff now s.lastrecv in
        if ltb silent (2 ^ 31) && leb 15000 silent
        then (do s1 ← closedown s econnaborted closedown_local; some (false, s1))
        else (do
          (wres, s1) ← packet s (sub32 s.snd_nxt 1) 0 0 0 now
          some (
            true,
            record s1 { lastsend = now; rx_rto = lesser max_rto (s1.rx_rto * 2 % 2 ^ 32) },
          )))
    else some (true, s)

-- The delayed acknowledgement.
clock_ack : Socket → ℕ → Option Socket
clock_ack s now =
    if not (s.t_ack == 0) && not_positive (time_diff (add32 s.t_ack s.ack_delay) now)
    then (do (wres, s1) ← packet s s.snd_nxt 0 0 0 now; some s1)
    else some s

unfoldable pub notify_clock : Socket → Option Socket
unfolding clock_ack
notify_clock s =
    let now = get_current_time s in
    if same_state s.state closed then some s else (do
      s1 ←
          if s.support_fin_ack && same_state s.state time_wait
          then set_state_closed s no_error
          else some s
      s2 ←
          if s1.support_fin_ack && same_state s1.state last_ack
          then (do q ← queue_fin_message s1; attempt_send q sf_fin)
          else some s1
      (open1, s3) ← clock_retransmit s2 now
      if not open1 then some s3 else (do
        (open2, s4) ← clock_probe s3 now
        if not open2 then some s4 else clock_ack s4 now))

-- `pseudo_tcp_socket_get_next_clock`: the time of the next call of `notify_clock`, or nothing more to
-- do. `timeout` is a `guint64`.
unfoldable pub due : Socket → ℕ → ℕ → ℕ
due s now timeout =
    let t0 = lesser timeout (add32 now 4000) in
    let t1 = if not (s.t_ack == 0) then lesser t0 (add32 s.t_ack s.ack_delay) else t0 in
    let t2 = if not (s.rto_base == 0) then lesser t1 (add32 s.rto_base s.rx_rto) else t1 in
    if s.snd_wnd == 0 then lesser t2 (add32 s.lastsend s.rx_rto) else t2

-- Without FIN-ACK support: whether the shutdown can be completed now.
shut : Socket → Bool
shut s = elim s.shutdown [
  | sd_none ↦ false
  | sd_forceful ↦ true
  | sd_graceful ↦ not (same_state s.state established) || get_buffered s.sbuf == 0 && s.t_ack == 0
]

unfoldable pub get_next_clock : Socket → ℕ → Option (Option ℕ × Socket)
unfolding shut
get_next_clock s timeout =
    let now = get_current_time s in
    let waiting = s.support_fin_ack && same_state s.state time_wait in
    let closed_timeout = if waiting then 1 else 60 * 1000 in
    if shut s
    then (do s1 ← closedown s no_error closedown_remote; some (none, s1))
    else (if s.support_fin_ack && same_state s.state closed
        then some (none, s)
        else (let t =
              if timeout == 0 || ltb timeout now then add32 now closed_timeout else timeout in
            some (
              some (
                  if waiting
                  then lesser t (add32 now 1)
                  else (if same_state s.state closed && not s.support_fin_ack
                      then lesser t (add32 now (60 * 1000))
                      else due s now t)),
              s,
            )))
