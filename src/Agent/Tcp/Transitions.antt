-- ===== src/Agent/Tcp/Transitions.antt =====
-- The states that RFC 793 gives for a closing segment, and how a socket moves in it.
use libnice4android.Prelude.{
  ◌≡◌, ◌≢◌, refl, ap, ◌∙◌, if◌then◌else◌, Bool, true, false, Option, some, List, ◌∷◌, inl, inr,
  ◌>>=◌, Option-cases,
}
use libnice4android.Agent.Tcp.{
  State, listen, syn_sent, syn_received, established, closed, fin_wait_1, fin_wait_2, closing,
  time_wait, close_wait, last_ack, Socket, Errno, no_error, einval, enotconn, epipe, ewouldblock,
  econnaborted, econnreset, Event, ClosedownSource, closed_with,
}
use libnice4android.Agent.Tcp.States.{report, transition, set_state, set_state_closed}
use libnice4android.Agent.Tcp.Process.{close_transitions}
use libnice4android.Agent.Tcp.Send.{walk_down, abort, closedown}

-- What the acknowledgement of the socket's own FIN does to a state in RFC 793, p. 73.
unfoldable pub after_fin_ack : State → State
after_fin_ack fin_wait_1 = fin_wait_2
after_fin_ack closing = time_wait
after_fin_ack last_ack = closed
after_fin_ack listen = listen
after_fin_ack syn_sent = syn_sent
after_fin_ack syn_received = syn_received
after_fin_ack established = established
after_fin_ack closed = closed
after_fin_ack fin_wait_2 = fin_wait_2
after_fin_ack time_wait = time_wait
after_fin_ack close_wait = close_wait

-- What a FIN of the peer does to a state in RFC 793, p. 75.
unfoldable pub after_fin : State → State
after_fin syn_received = close_wait
after_fin established = close_wait
after_fin fin_wait_1 = closing
after_fin fin_wait_2 = time_wait
after_fin listen = listen
after_fin syn_sent = syn_sent
after_fin closed = closed
after_fin closing = closing
after_fin time_wait = time_wait
after_fin close_wait = close_wait
after_fin last_ack = last_ack

-- On a segment, RFC 793 looks at the acknowledgement first and at the FIN last.
unfoldable pub segment_arrives : State → (fin is_fin_ack : Bool) → State
segment_arrives state fin is_fin_ack =
    let acked = if is_fin_ack then after_fin_ack state else state in
    if fin then after_fin acked else acked

-- In every state but SYN-RECEIVED, and whether or not the segment has a FIN and acknowledges one, the
-- socket goes to the state that RFC 793 reaches by the acknowledgement first and the FIN then; no
-- assertion of `set_state` fails, and nothing else of the socket changes.
pub close_transitions-segment_arrives :
    (s : Socket) (fin is_fin_ack : Bool)
    → s.state ≢ syn_received
    → close_transitions s fin is_fin_ack
      ≡ some (record s { state = segment_arrives s.state fin is_fin_ack })
unfolding close_transitions set_state set_state_closed transition report segment_arrives after_fin
    after_fin_ack
close_transitions-segment_arrives s fin is_fin_ack = moves s.state fin is_fin_ack
  where
    moves :
        (from : State) (fin' acked : Bool)
        → from ≢ syn_received
        → close_transitions (record s { state = from }) fin' acked
          ≡ some (record s { state = segment_arrives from fin' acked })
    moves listen true true h = refl
    moves listen true false h = refl
    moves listen false true h = refl
    moves listen false false h = refl
    moves syn_sent true true h = refl
    moves syn_sent true false h = refl
    moves syn_sent false true h = refl
    moves syn_sent false false h = refl
    moves established true true h = refl
    moves established true false h = refl
    moves established false true h = refl
    moves established false false h = refl
    moves closed true true h = refl
    moves closed true false h = refl
    moves closed false true h = refl
    moves closed false false h = refl
    moves fin_wait_1 true true h = refl
    moves fin_wait_1 true false h = refl
    moves fin_wait_1 false true h = refl
    moves fin_wait_1 false false h = refl
    moves fin_wait_2 true true h = refl
    moves fin_wait_2 true false h = refl
    moves fin_wait_2 false true h = refl
    moves fin_wait_2 false false h = refl
    moves closing true true h = refl
    moves closing true false h = refl
    moves closing false true h = refl
    moves closing false false h = refl
    moves time_wait true true h = refl
    moves time_wait true false h = refl
    moves time_wait false true h = refl
    moves time_wait false false h = refl
    moves close_wait true true h = refl
    moves close_wait true false h = refl
    moves close_wait false true h = refl
    moves close_wait false false h = refl
    moves last_ack true true h = refl
    moves last_ack true false h = refl
    moves last_ack false true h = refl
    moves last_ack false false h = refl
    moves syn_received f a h = absurd (h refl)

-- The notification of a closed connection.
abbrev pub told : Errno → List Event → List Event
told no_error events = events
told err events = closed_with err ∷ events

report-told : (err : Errno) (s : Socket) → report err s ≡ record s { events = told err s.events }
unfolding report
report-told no_error s = refl
report-told einval s = refl
report-told enotconn s = refl
report-told epipe s = refl
report-told ewouldblock s = refl
report-told econnaborted s = refl
report-told econnreset s = refl

-- The walk of `closedown` through the states can end in CLOSED from each of them.
walk_down-closed :
    (s : Socket) (from : State) (k : Socket → Option Socket)
    → (walk_down (record s { state = from }) >>= (λ s2. (set_state s2 closed >>= k)))
      ≡ k (record s { state = closed })
unfolding walk_down set_state transition
walk_down-closed s listen k = refl
walk_down-closed s syn_sent k = refl
walk_down-closed s syn_received k = refl
walk_down-closed s established k = refl
walk_down-closed s closed k = refl
walk_down-closed s fin_wait_1 k = refl
walk_down-closed s fin_wait_2 k = refl
walk_down-closed s closing k = refl
walk_down-closed s time_wait k = refl
walk_down-closed s close_wait k = refl
walk_down-closed s last_ack k = refl

-- No assertion of `set_state` fails in `closedown`: from every state, when the reset segment went into
-- the queue and to the network, the socket ends in CLOSED, the application is told of an error, and
-- nothing else of the socket changes.
pub closedown-abort :
    (s : Socket) (err : Errno) (source : ClosedownSource)
    → closedown s err source ≡ (
        abort s source >>= (λ s1. some (record s1 { state = closed; events = told err s1.events })))
unfolding closedown set_state_closed
closedown-abort s err source = elim (Option-cases (abort s source)) [
  | inl e ↦ rw e refl
  | inr (s1, e) ↦ rw e (
      walk_down-closed s1 s1.state (λ t. some (report err t))
      ∙ ap some (report-told err (record s1 { state = closed })))
]
