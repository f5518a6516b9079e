-- ===== src/Agent/Checks/Triggered.antt =====
-- agent/conncheck.c: the checks that an incoming check triggers.
pub mod Started
use libnice4android.Prelude.{
  ℕ, Bool, true, false, not, ◌&&◌, ◌||◌, Option, none, some, List, [], ◌∷◌, ◌==◌, if◌then◌else◌,
}
use libnice4android.Stun.Timer
use libnice4android.Agent.Address.{Address, equal}
use libnice4android.Agent.Candidate.{tcp_passive}
use libnice4android.Agent.Checks.{
  CheckState, waiting, in_progress, succeeded, failed, frozen, discovered, cancelled, is,
  Compatibility, NiceCandidate, Component, Stream, CheckPair, Context, Event, sent_reply,
  Environment,
}
use libnice4android.Agent.Checks.CheckList.{set_pair, compute_conncheck_timer}
use libnice4android.Agent.Checks.Components.{update_state_for_ready, mark_pair_nominated}
use libnice4android.Agent.Checks.Schedule.Send.{initiate}
use libnice4android.Agent.Checks.Pairs.{add_new_check_pair, prunes_reflexive}

-- Whether a pair is that of a remote candidate and of the socket on which its check came in.
unfoldable pub is_triggered : ℕ → ℕ → ℕ → CheckPair → Bool
is_triggered component_id local_socket remote_cand p =
    p.component_id == component_id
    && p.remote.address == remote_cand
    && (if p.local.info.transport == tcp_passive then p.sockptr else p.local.sockptr)
      == local_socket

unfoldable pub find_triggered : List CheckPair → ℕ → ℕ → ℕ → Option CheckPair
find_triggered [] component_id local_socket remote_cand = none
find_triggered (p ∷ more) component_id local_socket remote_cand =
    let rest = find_triggered more component_id local_socket remote_cand in
    if is_triggered component_id local_socket remote_cand p then some p else rest

-- What is done with a pair that is found, by its state; `again` says that a new check nominates it.
unfoldable pub retrigger_as :
    Environment → Bool → Context → Stream → CheckPair → CheckState → Context × Stream
retrigger_as env again agent stream p waiting = initiate env agent stream p
retrigger_as env again agent stream p frozen = initiate env agent stream p
retrigger_as env again agent stream p failed = initiate env agent stream p
retrigger_as env again agent stream p in_progress =
    if not (env.is_reliable p.sockptr) && not p.timer_restarted
    then (let timer =
          Timer.start agent.monotonic (compute_conncheck_timer agent stream.conncheck_list) 3 in
        (
          agent,
          record stream {
            conncheck_list =
                set_pair stream.conncheck_list (record p { timer = timer; timer_restarted = true });
          },
        ))
    else (agent, stream)
retrigger_as env again agent stream p succeeded =
    let next = update_state_for_ready agent stream p.component_id in
    if again then initiate env next.0 next.1 p else next
retrigger_as env again agent stream p discovered =
    let next = update_state_for_ready agent stream p.component_id in
    if again then initiate env next.0 next.1 p else next
retrigger_as env again agent stream p cancelled = (agent, stream)

unfoldable pub find_local : List NiceCandidate → ℕ → Option NiceCandidate
find_local [] local_socket = none
find_local (c ∷ more) local_socket =
    let rest = find_local more local_socket in if c.sockptr == local_socket then some c else rest

-- The pair found, or else the local candidate of the socket.
unfoldable pub trigger :
    Environment
    → Context
    → Stream
    → ℕ
    → NiceCandidate
    → Bool
    → Option CheckPair
    → Option NiceCandidate
    → Bool × Context × Stream
trigger env agent stream component_id remote_cand use_candidate (some p) local =
    let next =
      retrigger_as env (prunes_reflexive agent.compatibility && agent.controlling_mode) agent stream
        p p.state in
    (true, next.0, next.1)
trigger env agent stream component_id remote_cand use_candidate none (some local) =
    let next =
      add_new_check_pair agent stream component_id local remote_cand waiting use_candidate in
    (true, next.0, next.1)
trigger env agent stream component_id remote_cand use_candidate none none = (false, agent, stream)

-- `priv_schedule_triggered_check`, for a component of the stream.
unfoldable pub schedule_triggered_check :
    Environment → Context → Stream → Component → ℕ → NiceCandidate → Bool → Bool × Context × Stream
schedule_triggered_check env agent stream c local_socket remote_cand use_candidate =
    trigger env agent stream c.id remote_cand use_candidate
      (find_triggered stream.conncheck_list c.id local_socket remote_cand.address)
      (find_local c.local_candidates local_socket)

-- `priv_reply_to_conn_check`; `none` is a failed assertion.
unfoldable pub reply_to_conn_check :
    Environment
    → Context
    → Stream
    → Component
    → Option NiceCandidate
    → Address
    → ℕ
    → Bool
    → Option (Context × Stream)
reply_to_conn_check env agent stream c none toaddr sockptr use_candidate =
    some (record agent { events = sent_reply sockptr toaddr ∷ agent.events }, stream)
reply_to_conn_check env agent stream c (some rcand) toaddr sockptr use_candidate =
    let replied = record agent { events = sent_reply sockptr toaddr ∷ agent.events } in
    let triggered = schedule_triggered_check env replied stream c sockptr rcand use_candidate in
    if not (equal rcand.addr toaddr)
    then none
    else some (
        if use_candidate
        then mark_pair_nominated triggered.1 triggered.2 c.id rcand.address
        else (triggered.1, triggered.2))
