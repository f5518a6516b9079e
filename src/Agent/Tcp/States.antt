-- ===== src/Agent/Tcp/States.antt =====
-- The states of a socket and the changes between them.
use libnice4android.Prelude.{
  ℕ, ◌+◌, ◌*◌, ◌%◌, ◌^◌, Bool, true, false, ◌&&◌, ◌||◌, Option, none, some, List, [], ◌∷◌, leb,
  ◌==◌, if◌then◌else◌, ◌>>=◌,
}
use libnice4android.Agent.Tcp.{
  State, listen, syn_sent, syn_received, established, closed, fin_wait_1, fin_wait_2, closing,
  time_wait, close_wait, last_ack, same_state, Socket, Errno, no_error, opened, closed_with,
  packet_maximums, packet_overhead, greater, sub32,
}

-- `pseudo_tcp_state_has_sent_fin`
unfoldable pub has_sent_fin : State → Bool
has_sent_fin listen = false
has_sent_fin syn_sent = false
has_sent_fin syn_received = false
has_sent_fin established = false
has_sent_fin close_wait = false
has_sent_fin closed = true
has_sent_fin fin_wait_1 = true
has_sent_fin fin_wait_2 = true
has_sent_fin closing = true
has_sent_fin time_wait = true
has_sent_fin last_ack = true

-- `pseudo_tcp_state_has_received_fin`
unfoldable pub has_received_fin : State → Bool
has_received_fin listen = false
has_received_fin syn_sent = false
has_received_fin syn_received = false
has_received_fin established = false
has_received_fin fin_wait_1 = false
has_received_fin fin_wait_2 = false
has_received_fin closed = true
has_received_fin closing = true
has_received_fin time_wait = true
has_received_fin close_wait = true
has_received_fin last_ack = true

-- The assertion of `set_state`, in the order of the source.
unfoldable pub transition : State → State → Bool
transition old_state new_state =
    from closed syn_sent
    || from syn_sent closed
    || from closed listen
    || from listen closed
    || from listen syn_sent
    || from listen syn_received
    || from syn_sent syn_received
    || from syn_received established
    || from syn_sent established
    || from syn_received fin_wait_1
    || from established fin_wait_1
    || from established close_wait
    || from fin_wait_1 fin_wait_2
    || from fin_wait_1 closing
    || from close_wait last_ack
    || from fin_wait_2 time_wait
    || from closing time_wait
    || from last_ack closed
    || from time_wait closed
    || from syn_received listen
    || from fin_wait_1 time_wait
  where
    from : State → State → Bool
    from old new = same_state old_state old && same_state new_state new

-- `none` is a failed assertion.
unfoldable pub set_state : Socket → State → Option Socket
set_state s new_state =
    if same_state new_state s.state
    then some s
    else (if transition s.state new_state then some (record s { state = new_state }) else none)

-- The loop of `adjustMTU` from a level on: the first maximum that is at most `mtu`, or the last one.
level_of : List ℕ → ℕ → ℕ → ℕ
level_of [] mtu level = level
level_of (m ∷ []) mtu level = level
level_of (m ∷ next ∷ more) mtu level =
    let rest = level_of (next ∷ more) mtu (level + 1) in
    if next == 0 then level else (if leb m mtu then level else rest)

unfoldable pub adjust_mtu : Socket → Socket
unfolding level_of
adjust_mtu s =
    let mss = sub32 s.mtu_advise packet_overhead in
    record s {
      msslevel = level_of packet_maximums s.mtu_advise 0;
      mss = mss;
      ssthresh = greater s.ssthresh (2 * mss % 2 ^ 32);
      cwnd = greater s.cwnd mss;
    }

unfoldable pub set_state_established : Socket → Option Socket
set_state_established s = do
  s1 ← set_state s established
  let s2 = adjust_mtu s1
  some (record s2 { events = opened ∷ s2.events })

-- The callback is called only with an error.
unfoldable pub report : Errno → Socket → Socket
report no_error s = s
report err s = record s { events = closed_with err ∷ s.events }

unfoldable pub set_state_closed : Socket → Errno → Option Socket
set_state_closed s err = do s1 ← set_state s closed; some (report err s1)

unfoldable pub is_closed : Socket → Bool
is_closed s = same_state s.state closed

unfoldable pub is_closed_remotely : Socket → Bool
is_closed_remotely s = has_received_fin s.state
