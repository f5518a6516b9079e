-- ===== src/Agent/Checks/Schedule/Tick.antt =====
-- agent/conncheck.c: the tick of the timer for the checks.
use libnice4android.Prelude.{
  ℕ, ◌*◌, ◌%◌, ◌^◌, Bool, true, false, not, ◌&&◌, ◌||◌, Option, none, some, List, [], ◌∷◌, ltb, leb,
  ◌==◌, if◌then◌else◌,
}
use libnice4android.Stun.Timer
use libnice4android.Stun.Timer.{Timeval, TimerReturn, remainder}
use libnice4android.Stun.Agent.{forget_transaction}
use libnice4android.Agent.Checks.{
  in_progress, failed, is, Component, Stream, CheckPair, Context, sent_check, NiceAgent,
  Environment,
}
use libnice4android.Agent.Checks.CheckList.{count_pairs, find_next_waiting, is_valid}
use libnice4android.Agent.Checks.Components.{
  find_component, set_component, update_failed_components, update_state_for_ready,
}
use libnice4android.Agent.Checks.Schedule.Send.{time_val_add, initiate}
use libnice4android.Agent.Checks.Schedule.Unfreeze.{unfreeze_next}

-- `priv_timer_expired`
unfoldable pub timer_expired : Timeval → Timeval → Bool
timer_expired timer now =
    if now.sec == timer.sec then leb timer.usec now.usec else leb timer.sec now.sec

-- `candidate_check_pair_fail`: the pair, and the components with the transaction forgotten.
unfoldable pub pair_fail : List Component → CheckPair → List Component × CheckPair
pair_fail components p =
    let failed_pair = record p { state = failed; stun_message = none } in
    elim p.stun_message [
      | none ↦ (components, failed_pair)
      | some id ↦ elim (find_component components p.component_id) [
        | none ↦ (components, failed_pair)
        | some c ↦ (
          set_component components (record c { sent_ids = (forget_transaction c.sent_ids id).1 }),
          failed_pair,
        )
      ]
    ]

-- What the loop of `priv_conn_check_tick_stream` works on: `keep_timer_going`, the agent and the
-- components of the stream.
pub record Ticking : Type 0 where
  pub keep_timer_going : Bool
  pub agent : Context
  pub components : List Component

-- A pair in progress with a message whose time has come.
unfoldable pub refresh_pair : Ticking → CheckPair → List ℕ → Ticking × CheckPair
refresh_pair t p id =
    let refreshed = Timer.refresh p.timer t.agent.monotonic in
    let next = time_val_add t.agent.now (remainder refreshed.1 t.agent.monotonic * 1000 % 2 ^ 32) in
    elim refreshed.0 [
      | TimerReturn.timeout ↦
          let gone = pair_fail t.components (record p { timer = refreshed.1 }) in
          (record t { components = gone.0 }, gone.1)
      | TimerReturn.retransmit ↦ (
        record t {
          keep_timer_going = true;
          agent = record (t.agent) {
            events = sent_check p.sockptr p.remote.addr id ∷ t.agent.events;
          };
        },
        record p { timer = refreshed.1; next_tick = next },
      )
      | TimerReturn.success ↦
          (record t { keep_timer_going = true }, record p { timer = refreshed.1; next_tick = next })
    ]

unfoldable pub tick_pair : Ticking → CheckPair → Ticking × CheckPair
tick_pair t p =
    if is p.state in_progress
    then elim p.stun_message [
      | none ↦ (t, record p { state = failed })
      | some id ↦ if timer_expired p.next_tick t.agent.now then refresh_pair t p id else (t, p)
    ]
    else (t, p)

unfoldable pub tick_pairs : Ticking → List CheckPair → Ticking × List CheckPair
tick_pairs t [] = (t, [])
tick_pairs t (p ∷ more) =
    let first = tick_pair t p in let rest = tick_pairs first.0 more in (rest.0, first.1 ∷ rest.1)

-- The first pair of a component that is SUCCEEDED or DISCOVERED.
unfoldable pub find_valid : List CheckPair → ℕ → Option CheckPair
find_valid [] component_id = none
find_valid (p ∷ more) component_id =
    let rest = find_valid more component_id in
    if p.component_id == component_id && is_valid p then some p else rest

-- The nomination by the controlling agent.
unfoldable pub nominate_pair : Environment → Context → Stream → Option CheckPair → Context × Stream
nominate_pair env agent stream none = (agent, stream)
nominate_pair env agent stream (some p) = initiate env agent stream (record p { nominated = true })

unfoldable pub nominate : Environment → List Component → Context → Stream → Context × Stream
nominate env [] agent stream = (agent, stream)
nominate env (c ∷ more) agent stream =
    let next = nominate_pair env agent stream (find_valid stream.conncheck_list c.id) in
    nominate env more next.0 next.1

-- Whether a component may have no nominated pair, although a pair can be nominated.
unfoldable pub lacks_nomination : Stream → Bool
lacks_nomination stream =
    ltb (count_pairs (λ p. is_valid p && p.nominated) stream.conncheck_list) stream.n_components
    && ltb 0 (count_pairs (λ p. is_valid p && not p.nominated) stream.conncheck_list)

-- The first loop of `priv_conn_check_tick_stream`, with `keep_timer_going` after it.
unfoldable pub process_stream : Context → Stream → Bool × Context × Stream
process_stream agent stream =
    let ticked =
      tick_pairs
        (record { keep_timer_going = false; agent = agent; components = stream.components })
        stream.conncheck_list in
    (
      ticked.0.keep_timer_going || ltb 0 (count_pairs (λ p. is p.state in_progress) ticked.1),
      ticked.0.agent,
      record stream { components = ticked.0.components; conncheck_list = ticked.1 },
    )

unfoldable pub nominate_if : Environment → Bool → Context → Stream → Context × Stream
nominate_if env true agent stream = nominate env stream.components agent stream
nominate_if env false agent stream = (agent, stream)

-- `priv_conn_check_tick_stream`
unfoldable pub tick_stream : Environment → Context → Stream → Bool × Context × Stream
tick_stream env agent stream =
    let ticked = process_stream agent stream in
    let lacks = lacks_nomination ticked.2 in
    let next = nominate_if env (lacks && ticked.1.controlling_mode) ticked.1 ticked.2 in
    (ticked.0 || lacks, next.0, next.1)

unfoldable pub tick_streams : Environment → Context → List Stream → Bool × Context × List Stream
tick_streams env agent [] = (false, agent, [])
tick_streams env agent (stream ∷ more) =
    let first = tick_stream env agent stream in
    let rest = tick_streams env first.1 more in (first.0 || rest.0, rest.1, first.2 ∷ rest.2)

-- The waiting check with the highest priority, of the first stream that has one, if there is any.
unfoldable pub initiate_next : Environment → Context → List Stream → Bool × Context × List Stream
initiate_next env agent [] = (false, agent, [])
initiate_next env agent (stream ∷ more) =
    let rest = initiate_next env agent more in
    elim (find_next_waiting stream.conncheck_list) [
      | some pair ↦ let next = initiate env agent stream pair in (true, next.0, next.1 ∷ more)
      | none ↦ (rest.0, rest.1, stream ∷ rest.2)
    ]

-- The update of the components, when no work is left.
unfoldable pub conclude_components : List Component → Context → Stream → Context × Stream
conclude_components [] agent stream = (agent, stream)
conclude_components (c ∷ more) agent stream =
    let next = update_state_for_ready agent stream c.id in conclude_components more next.0 next.1

unfoldable pub conclude : Context → List Stream → Context × List Stream
conclude agent [] = (agent, [])
conclude agent (stream ∷ more) =
    let updated = update_failed_components agent stream in
    let next = conclude_components updated.1.components updated.0 updated.1 in
    let rest = conclude next.0 more in (rest.0, next.1 ∷ rest.1)

-- The first step of a tick: a check is made, or one is unfrozen for the next tick.
unfoldable pub begin_tick : Environment → NiceAgent → Bool × NiceAgent
begin_tick env agent =
    let next = initiate_next env agent.context agent.streams in
    let unfrozen = unfreeze_next agent.streams in
    if next.0
    then (true, record { context = next.1; streams = next.2 })
    else (unfrozen.0, record agent { streams = unfrozen.1 })

-- The end of a tick, where the timer is stopped if no work is left.
unfoldable pub end_tick : Bool → Context → List Stream → Bool × NiceAgent
end_tick true agent streams = (true, record { context = agent; streams = streams })
end_tick false agent streams =
    let done = conclude agent streams in
    (false, record { context = record (done.0) { conncheck_timer = false }; streams = done.1 })

-- `priv_conn_check_tick_unlocked`
unfoldable pub conn_check_tick : Environment → NiceAgent → Bool × NiceAgent
conn_check_tick env agent =
    let begun = begin_tick env agent in
    let ticked = tick_streams env begun.1.context begun.1.streams in
    end_tick (begun.0 || ticked.0) ticked.1 ticked.2

-- `conn_check_schedule_next`; the timers run afterwards.
unfoldable pub conn_check_schedule_next : Environment → NiceAgent → Bool × NiceAgent
conn_check_schedule_next env agent =
    let unfrozen = unfreeze_next agent.streams in
    let ticked = conn_check_tick env (record agent { streams = unfrozen.1 }) in
    let context = ticked.1.context in
    (
      ticked.0,
      record (ticked.1) {
        context = record context {
          conncheck_timer = context.conncheck_timer || ticked.0;
          keepalive_timer = true;
        };
      },
    )
