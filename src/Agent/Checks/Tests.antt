-- ===== src/Agent/Checks/Tests.antt =====
-- The theorems about the check lists at concrete inputs, and runs of a small agent.
use libnice4android.Prelude.{
  ℕ, ◌≤◌, ◌<◌, Bool, true, false, none, some, List, [], ◌∷◌, ◌==◌, ◌≡◌, ◌↔◌, refl, arith, All, take,
  length, if◌then◌else◌,
}
use libnice4android.Stun.Timer.{Timeval}
use libnice4android.Stun.Message.{bytes_eq}
use libnice4android.Agent.Address.{ip4}
use libnice4android.Agent.Checks.{
  CheckState, waiting, in_progress, frozen, succeeded, ComponentState, ready, rfc5245, oc2007r2,
  NiceCandidate, CheckPair, Component, Stream, Context, NiceAgent, Environment,
}
use libnice4android.Agent.Checks.CheckList.{
  count_pairs, find_next_waiting, prune_cancelled, limit_loop, limit_conn_check_list_size,
  prune_pending_checks,
}
use libnice4android.Agent.Checks.CheckList.Sorted.{IsNext, find_next_waiting-IsNext}
use libnice4android.Agent.Checks.CheckList.Limit.{prune_cancelled-limit_conn_check_list_size}
use libnice4android.Agent.Checks.CheckList.Pending.{
  is_active, is_chosen, IsSettled, prune_pending_checks_lem,
}
use libnice4android.Agent.Checks.Components.{
  update_state_for_ready, find_component, all_components_ready,
}
use libnice4android.Agent.Checks.Components.Ready.{
  IsConcluded, state_of, update_state_for_ready-IsConcluded,
}
use libnice4android.Agent.Checks.Pairs.{add_for_candidate}
use libnice4android.Agent.Checks.Pairs.Invariant.{HasCheckList, add_for_candidate-HasCheckList}
use libnice4android.Agent.Checks.Schedule.Tick.{
  conn_check_tick, begin_tick, end_tick, initiate_next, tick_streams, tick_stream, process_stream,
  tick_pairs, tick_pair, lacks_nomination,
}
use libnice4android.Agent.Checks.Schedule.Unfreeze.{
  unfreeze_loop, unfreeze_others, unfreeze_next, max_frozen, unfreeze_related, set_stream,
}
use libnice4android.Agent.Checks.Schedule.Progress.{total_work, shape, IsFresh}
use libnice4android.Agent.Checks.Schedule.Related.{
  Unfrozen, unfreeze_related-Unfrozen, unfreeze_others-nothing,
}
use libnice4android.Agent.Checks.Schedule.Liveness.{
  NoPending, run_ticks, run_ticks-NoPending, conn_check_tick-progress,
}
use libnice4android.Agent.Checks.Schedule.Stop.{IsDone, conn_check_tick-IsDone}
use libnice4android.Agent.Checks.Triggered.{find_triggered, is_triggered, schedule_triggered_check}
use libnice4android.Agent.Checks.Triggered.Started.{state_at, schedule_triggered_check-state_at}
use libnice4android.Agent.Checks.Usernames.{
  create_username, join, own_or, gen_username, name_for, padded_name,
}
use libnice4android.Agent.Checks.Usernames.Bounds.{create_username-le}

abbrev clock : Timeval
clock = record { sec = 100; usec = 0 }

-- The clocks at three ticks.
abbrev three_ticks : List (Timeval × Timeval)
three_ticks = (clock, clock) ∷ (clock, clock) ∷ (clock, clock) ∷ []

abbrev env : Environment
env = record {
  conncheck_create = λ agent c p. some (1 ∷ 2 ∷ [], c.sent_ids);
  is_reliable = λ s. false;
  has_fileno = λ s. true;
  tcp_active_connect = λ s a. none;
}

abbrev context : Context
context = record {
  controlling_mode = true;
  compatibility = rfc5245;
  timer_ta = 20;
  max_conn_checks = 2;
  reliable = false;
  tie_breaker = 5;
  discovery_list = [];
  conncheck_timer = true;
  keepalive_timer = false;
  now = clock;
  monotonic = clock;
  next_address = 1;
  events = [];
}

abbrev candidate : ℕ → ℕ → NiceCandidate
candidate address priority = record {
  address = address;
  info = record { type = 0; transport = 0; component_id = 1 };
  addr = ip4 0x0a000001 3478;
  priority = priority;
  foundation = 49 ∷ [];
  sockptr = 7;
}

abbrev component : Component
component = record {
  id = 1;
  state = ComponentState.connecting;
  local_candidates = candidate 90 20 ∷ candidate 91 10 ∷ [];
  remote_candidates = candidate 92 15 ∷ [];
  incoming_checks = [];
  selected_pair = none;
  sent_ids = [];
}

abbrev pair : ℕ → ℕ → CheckState → Bool → CheckPair
pair address priority state nominated = record {
  address = address;
  stream_id = 1;
  component_id = 1;
  local = candidate 90 20;
  remote = candidate 92 15;
  sockptr = 7;
  foundation = 49 ∷ 58 ∷ 49 ∷ [];
  state = state;
  nominated = nominated;
  controlling = true;
  timer_restarted = false;
  priority = priority;
  next_tick = clock;
  timer = record { deadline = clock; delay = 0; retransmissions = 0; max_retransmissions = 0 };
  stun_message = none;
}

abbrev stream_with : List CheckPair → Stream
stream_with pairs = record {
  id = 1;
  n_components = 1;
  components = component ∷ [];
  conncheck_list = pairs;
}

-- A pair that waits and one that is frozen.
abbrev two_pairs : List CheckPair
two_pairs = pair 2 9 waiting false ∷ pair 1 8 frozen false ∷ []

abbrev agent : NiceAgent
agent = record { context = context; streams = stream_with two_pairs ∷ [] }

two_pairs-IsFresh : IsFresh (shape two_pairs)
two_pairs-IsFresh = ((refl, tt), omega arith, (tt, omega arith, tt))

-- A pair that was nominated, and one in progress with a lower priority.
abbrev chosen : List CheckPair
chosen = pair 2 9 succeeded true ∷ pair 1 8 in_progress false ∷ []

abbrev idle : NiceAgent
idle = record { context = context; streams = stream_with (pair 2 9 succeeded true ∷ []) ∷ [] }

find_next_waiting-IsNext_example : IsNext two_pairs (find_next_waiting two_pairs)
find_next_waiting-IsNext_example = find_next_waiting-IsNext two_pairs (omega arith)

prune_cancelled-limit_conn_check_list_size_example :
    prune_cancelled (limit_conn_check_list_size two_pairs 1) ≡ take 1 (prune_cancelled two_pairs)
prune_cancelled-limit_conn_check_list_size_example =
    prune_cancelled-limit_conn_check_list_size two_pairs 1

limit_run : prune_cancelled (limit_conn_check_list_size two_pairs 1) ≡ pair 2 9 waiting false ∷ []
unfolding prune_cancelled limit_conn_check_list_size limit_loop
limit_run = refl

prune_pending_checks_lem_example :
    All (IsSettled 1) (prune_pending_checks chosen 1).1
    × ((prune_pending_checks chosen 1).0
        ≡ count_pairs (is_active 1) (prune_pending_checks chosen 1).1)
    × (count_pairs (is_chosen 1) (prune_pending_checks chosen 1).1
        ≡ count_pairs (is_chosen 1) chosen)
prune_pending_checks_lem_example = prune_pending_checks_lem chosen 1

component_found : find_component (component ∷ []) 1 ≡ some component
unfolding find_component
component_found = refl

update_state_for_ready-IsConcluded_example :
    (state_of (update_state_for_ready context (stream_with chosen) 1).1.components 1 ≡ some ready)
    ↔ IsConcluded (update_state_for_ready context (stream_with chosen) 1).1.conncheck_list 1
update_state_for_ready-IsConcluded_example =
    update_state_for_ready-IsConcluded context (stream_with chosen) 1 component component_found refl

add_for_candidate-HasCheckList_example : HasCheckList (
  (add_for_candidate component.local_candidates context (stream_with []) 1 (candidate 92 15)).1,
  (add_for_candidate component.local_candidates context (stream_with []) 1 (candidate 92 15)).2,
)
add_for_candidate-HasCheckList_example =
    add_for_candidate-HasCheckList component.local_candidates context (stream_with []) 1
      (candidate 92 15)
      (record { sorted = tt; distinct = tt; used = tt; prioritized = tt; of_stream = tt })

unfreeze_related-Unfrozen_example :
    (pairs' : List CheckPair) × (n : ℕ) × Unfrozen (49 ∷ 58 ∷ 49 ∷ []) two_pairs pairs' n
    × (unfreeze_related
          (stream_with two_pairs ∷ [])
          (stream_with two_pairs)
          (pair 3 7 succeeded false)
        ≡ some (
            let thawed_streams =
              set_stream
                (stream_with two_pairs ∷ [])
                (record (stream_with two_pairs) { conncheck_list = pairs' }) in
            if n == 0 then (unfreeze_next thawed_streams).1 else thawed_streams))
unfreeze_related-Unfrozen_example =
    unfreeze_related-Unfrozen (stream_with two_pairs ∷ []) (stream_with two_pairs)
      (pair 3 7 succeeded false) refl refl (refl, (refl, tt))

unfreeze_run :
    unfreeze_related (stream_with two_pairs ∷ []) (stream_with two_pairs) (pair 3 7 succeeded false)
    ≡ some (stream_with (pair 2 9 waiting false ∷ pair 1 8 waiting false ∷ []) ∷ [])
unfolding unfreeze_related unfreeze_loop unfreeze_others set_stream unfreeze_next max_frozen
    bytes_eq all_components_ready
unfreeze_run = refl

-- Another stream with a frozen pair.
abbrev other_stream : Stream
other_stream = record {
  id = 2;
  n_components = 1;
  components = component ∷ [];
  conncheck_list = two_pairs;
}

unfreeze_others-nothing_example :
    unfreeze_others
      (stream_with two_pairs ∷ other_stream ∷ [])
      (pair 3 7 succeeded false)
      0
      two_pairs
    ≡ (0, two_pairs)
unfreeze_others-nothing_example =
    unfreeze_others-nothing (stream_with two_pairs ∷ other_stream ∷ []) (pair 3 7 succeeded false) 0
      two_pairs (refl, (refl, tt))

conn_check_tick-progress_example :
    ((conn_check_tick env agent).0 ≡ true)
    × (total_work (conn_check_tick env agent).1.streams < total_work agent.streams)
conn_check_tick-progress_example =
    conn_check_tick-progress env agent (two_pairs-IsFresh, tt) (omega arith)

run_ticks-NoPending_example :
    All (λ s. NoPending s.conncheck_list) (run_ticks env three_ticks agent).streams
run_ticks-NoPending_example =
    run_ticks-NoPending env three_ticks agent (two_pairs-IsFresh, tt) (omega arith)

idle_tick : (conn_check_tick env idle).0 ≡ false
unfolding conn_check_tick end_tick begin_tick initiate_next find_next_waiting unfreeze_next
    max_frozen tick_streams tick_stream process_stream tick_pairs tick_pair count_pairs
    lacks_nomination
idle_tick = refl

conn_check_tick-IsDone_example :
    All (λ s. All IsDone s.conncheck_list) (conn_check_tick env idle).1.streams
conn_check_tick-IsDone_example =
    conn_check_tick-IsDone env idle ((tt, omega arith, tt), tt) idle_tick

two_pairs_triggered : find_triggered two_pairs 1 7 92 ≡ some (pair 2 9 waiting false)
unfolding find_triggered is_triggered
two_pairs_triggered = refl

schedule_triggered_check-state_at_example :
    ((schedule_triggered_check env context
        (stream_with two_pairs)
        component
        7
        (candidate 92 15)
        false).0
      ≡ true)
    × (state_at
          (schedule_triggered_check env context
            (stream_with two_pairs)
            component
            7
            (candidate 92 15)
            false).2.conncheck_list
          2
        ≡ some in_progress)
schedule_triggered_check-state_at_example =
    schedule_triggered_check-state_at env context (stream_with two_pairs) component 7
      (candidate 92 15) false (pair 2 9 waiting false) two_pairs-IsFresh two_pairs_triggered refl

create_username-le_example :
    length (
      create_username
        (λ text. text)
        oc2007r2
        1
        none
        none
        (some (b'r' ∷ []))
        (some (b'l' ∷ []))
        64
        true)
    ≤ 64
create_username-le_example =
    create_username-le (λ text. text) oc2007r2 1 none none (some (b'r' ∷ [])) (some (b'l' ∷ [])) 64
      true

username_run :
    create_username
      (λ text. text)
      oc2007r2
      1
      none
      none
      (some (b'r' ∷ []))
      (some (b'l' ∷ []))
      64
      true
    ≡ b'l' ∷ b':' ∷ b'r' ∷ 0 ∷ []
unfolding create_username join own_or gen_username name_for padded_name
username_run = refl
