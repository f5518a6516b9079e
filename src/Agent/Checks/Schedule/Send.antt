-- ===== src/Agent/Checks/Schedule/Send.antt =====
-- agent/conncheck.c: how one check is sent.
use libnice4android.Prelude.{
  ℕ, ◌+◌, ◌*◌, ◌/◌, ◌%◌, ◌^◌, true, not, ◌&&◌, Option, none, some, List, ◌∷◌, ◌==◌, if◌then◌else◌,
}
use libnice4android.Stun.Timer
use libnice4android.Stun.Timer.{Timeval, TimerReturn, remainder}
use libnice4android.Stun.Agent.{SavedId}
use libnice4android.Agent.Candidate.{tcp_active}
use libnice4android.Agent.Checks.{
  in_progress, Component, Stream, CheckPair, Context, sent_check, Environment,
}
use libnice4android.Agent.Checks.CheckList.{compute_conncheck_timer, set_pair}
use libnice4android.Agent.Checks.Components.{find_component, set_component}

-- `g_time_val_add`, for microseconds that are not negative.
unfoldable pub time_val_add : Timeval → ℕ → Timeval
time_val_add t microseconds = record {
  sec = t.sec + (t.usec + microseconds) / 1000000;
  usec = (t.usec + microseconds) % 1000000;
}

-- The socket of a check: for an active TCP candidate a new one, if it can be connected.
socket_for : Environment → CheckPair → ℕ
socket_for env pair =
    if not (env.has_fileno pair.sockptr) && pair.local.info.transport == tcp_active
    then elim (env.tcp_active_connect pair.sockptr pair.remote.addr) [
      | none ↦ pair.sockptr
      | some new_socket ↦ new_socket
    ]
    else pair.sockptr

-- The message of a check, sent if there is one.
unfoldable pub send_with :
    Environment
    → Context
    → Stream
    → Component
    → CheckPair
    → Option (List ℕ × List SavedId)
    → Context × Stream
unfolding socket_for
send_with env agent stream c pair none = (
  agent,
  record stream {
    conncheck_list = set_pair stream.conncheck_list (record pair { stun_message = none });
  },
)
send_with env agent stream c pair (some (id, table)) =
    let timer =
      if env.is_reliable pair.sockptr
      then Timer.start_reliable agent.monotonic 7900
      else Timer.start agent.monotonic (compute_conncheck_timer agent stream.conncheck_list) 3 in
    let socket = socket_for env pair in
    (
      record agent { events = sent_check socket pair.remote.addr id ∷ agent.events },
      record stream {
        components = set_component stream.components (record c { sent_ids = table });
        conncheck_list = set_pair stream.conncheck_list (record pair {
          stun_message = some id;
          timer = timer;
          sockptr = socket;
          next_tick = time_val_add agent.now (remainder timer agent.monotonic * 1000 % 2 ^ 32);
        });
      },
    )

unfoldable pub send_for :
    Environment → Context → Stream → CheckPair → Option Component → Context × Stream
send_for env agent stream pair none = (agent, stream)
send_for env agent stream pair (some c) =
    let pair1 = if agent.controlling_mode then record pair { nominated = true } else pair in
    send_with env agent stream c pair1 (env.conncheck_create agent c pair1)

-- `conn_check_send`, for a pair of the stream.
unfoldable pub conn_check_send : Environment → Context → Stream → CheckPair → Context × Stream
conn_check_send env agent stream pair =
    send_for env agent stream pair (find_component stream.components pair.component_id)

-- `priv_conn_check_initiate`
unfoldable pub initiate : Environment → Context → Stream → CheckPair → Context × Stream
initiate env agent stream pair =
    let pair1 = record pair {
      next_tick = time_val_add agent.now (agent.timer_ta * 1000 % 2 ^ 32);
      state = in_progress;
    } in
    conn_check_send env agent
      (record stream { conncheck_list = set_pair stream.conncheck_list pair1 }) pair1
