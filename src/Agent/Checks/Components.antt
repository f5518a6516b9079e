-- ===== src/Agent/Checks/Components.antt =====
-- The components of a stream: their states, and the pairs that are selected for them.
pub mod Ready
use libnice4android.Prelude.{
  ℕ, zero, suc, ◌+◌, ◌-◌, ◌*◌, ◌%◌, ◌^◌, Bool, true, false, not, ◌&&◌, ◌||◌, Option, none, some,
  List, [], ◌∷◌, ltb, leb, ◌==◌, if◌then◌else◌, ◌>>=◌, take,
}
use libnice4android.Stun.Message.{bytes_eq}
use libnice4android.Agent.Candidate.{pair_priority}
use libnice4android.Agent.Checks.{
  CheckState, failed, is, ComponentState, ready, connected, Component, Stream, NiceCandidate,
  CheckPair, CandidatePair, Context, Event, state_changed, keepalives, new_selected_pair,
}
use libnice4android.Agent.Checks.CheckList.{is_valid, find_pair, set_pair, prune_pending_checks}

-- `stream_find_component_by_id`
unfoldable pub find_component : List Component → ℕ → Option Component
find_component [] id = none
find_component (c ∷ more) id =
    let rest = find_component more id in if c.id == id then some c else rest

-- A store through a pointer to a component.
unfoldable pub set_component : List Component → Component → List Component
set_component [] component = []
set_component (c ∷ more) component =
    let rest = set_component more component in
    if c.id == component.id then component ∷ more else c ∷ rest

abbrev pub state_number : ComponentState → ℕ
state_number ComponentState.disconnected = 0
state_number ComponentState.gathering = 1
state_number ComponentState.connecting = 2
state_number ComponentState.connected = 3
state_number ComponentState.ready = 4
state_number ComponentState.failed = 5

abbrev pub same_state : ComponentState → ComponentState → Bool
same_state s t = state_number s == state_number t

-- `stream_all_components_ready`
unfoldable pub all_components_ready : List Component → Bool
all_components_ready [] = true
all_components_ready (c ∷ more) =
    (same_state c.state connected || same_state c.state ready) && all_components_ready more

-- `agent_signal_component_state_change`, for a component of the stream.
unfoldable pub signal_state_change : Context → Stream → ℕ → ComponentState → Context × Stream
signal_state_change agent stream component_id state =
    elim (find_component stream.components component_id) [
      | none ↦ (agent, stream)
      | some c ↦ if same_state c.state state then (agent, stream) else (
        record agent { events = state_changed stream.id component_id state ∷ agent.events },
        record stream { components = set_component stream.components (record c { state = state }) },
      )
    ]

-- Whether all pairs of a component failed.
unfoldable pub all_failed : List CheckPair → ℕ → Bool
all_failed [] component_id = true
all_failed (p ∷ more) component_id =
    (not (p.component_id == component_id) || is p.state failed) && all_failed more component_id

has_remote : Component → Bool
has_remote c = elim c.remote_candidates [ [] ↦ false | r ∷ more ↦ true ]

-- What `priv_update_check_list_failed_components` does with one component, if the stream has it.
unfoldable pub fail_component : Context → Stream → ℕ → Option Component → Context × Stream
unfolding has_remote
fail_component agent stream id none = (agent, stream)
fail_component agent stream id (some comp) =
    if all_failed stream.conncheck_list id && has_remote comp
    then signal_state_change agent stream id ComponentState.failed
    else (agent, stream)

-- Its loop, over the components from `c + 1` on.
unfoldable pub failed_loop : ℕ → ℕ → Context → Stream → Context × Stream
failed_loop zero c agent stream = (agent, stream)
failed_loop (suc rounds) c agent stream =
    let next = fail_component agent stream (c + 1) (find_component stream.components (c + 1)) in
    failed_loop rounds (c + 1) next.0 next.1

-- `priv_update_check_list_failed_components`: not while a discovery is known.
unfoldable pub update_failed_components : Context → Stream → Context × Stream
update_failed_components agent stream = elim agent.discovery_list [
  | [] ↦ failed_loop stream.n_components 0 agent stream
  | d ∷ more ↦ (agent, stream)
]

unfoldable pub has_nominated : List CheckPair → ℕ → Bool
has_nominated [] component_id = false
has_nominated (p ∷ more) component_id =
    p.component_id == component_id && is_valid p && p.nominated || has_nominated more component_id

-- `priv_update_check_list_state_for_ready`
unfoldable pub update_state_for_ready : Context → Stream → ℕ → Context × Stream
update_state_for_ready agent stream component_id =
    if has_nominated stream.conncheck_list component_id
    then (let pruned = prune_pending_checks stream.conncheck_list component_id in
        let stream1 = record stream { conncheck_list = pruned.1 } in
        if pruned.0 == 0
        then signal_state_change agent stream1 component_id ready
        else (agent, stream1))
    else (agent, stream)

-- `agent_candidate_pair_priority`
unfoldable pub candidate_pair_priority : Context → NiceCandidate → NiceCandidate → ℕ
candidate_pair_priority agent local remote =
    if agent.controlling_mode
    then pair_priority local.priority remote.priority
    else pair_priority remote.priority local.priority

find_foundation : List NiceCandidate → List ℕ → Option NiceCandidate
find_foundation [] foundation = none
find_foundation (c ∷ more) foundation =
    let rest = find_foundation more foundation in
    if bytes_eq c.foundation foundation then some c else rest

-- `component_find_pair`; the foundations are texts of at most 32 characters.
unfoldable pub component_find_pair : Context → Component → List ℕ → List ℕ → Option CandidatePair
unfolding find_foundation
component_find_pair agent cmp lfoundation rfoundation = do
  local ← find_foundation cmp.local_candidates lfoundation
  remote ← find_foundation cmp.remote_candidates rfoundation
  some (record {
    local = local;
    remote = remote;
    priority = candidate_pair_priority agent local remote;
  })

selected_priority : Component → ℕ
selected_priority c = elim c.selected_pair [ none ↦ 0 | some pair ↦ pair.priority ]

-- `priv_update_selected_pair`, on a component whose TURN servers were not cleared. The keepalives are
-- those of `priv_conn_keepalive_tick_unlocked`.
unfoldable pub update_selected_pair : Context → Stream → ℕ → CheckPair → Context × Stream
unfolding selected_priority
update_selected_pair agent stream component_id pair =
    elim (find_component stream.components component_id) [
      | none ↦ (agent, stream)
      | some c ↦
          if ltb (selected_priority c) pair.priority
          then elim (component_find_pair agent c pair.local.foundation pair.remote.foundation) [
            | none ↦ (agent, stream)
            | some cpair ↦ (
              record agent {
                events =
                    new_selected_pair pair.stream_id component_id pair.local pair.remote
                    ∷ keepalives
                    ∷ agent.events;
              },
              record stream {
                components =
                    set_component stream.components (record c { selected_pair = some cpair });
              },
            )
          ]
          else (agent, stream)
    ]

-- What `priv_mark_pair_nominated` does at one pair of the list.
unfoldable pub mark_one : Context → Stream → ℕ → ℕ → ℕ → Context × Stream
mark_one agent stream component_id remotecand address =
    elim (find_pair stream.conncheck_list address) [
      | none ↦ (agent, stream)
      | some pair ↦
          if pair.remote.address == remotecand
          then (let nominated = record pair { nominated = true } in
              let stream1 = record stream {
                conncheck_list = set_pair stream.conncheck_list nominated;
              } in
              let next : Context × Stream =
                if is_valid nominated
                then update_selected_pair agent stream1 component_id nominated
                else (agent, stream1) in
              update_state_for_ready next.0 next.1 component_id)
          else (agent, stream)
    ]

unfoldable pub mark_loop : List CheckPair → Context → Stream → ℕ → ℕ → Context × Stream
mark_loop [] agent stream component_id remotecand = (agent, stream)
mark_loop (p ∷ more) agent stream component_id remotecand =
    let next = mark_one agent stream component_id remotecand p.address in
    mark_loop more next.0 next.1 component_id remotecand

-- `priv_mark_pair_nominated`; the remote candidate is known by its address in memory.
unfoldable pub mark_pair_nominated : Context → Stream → ℕ → ℕ → Context × Stream
mark_pair_nominated agent stream component_id remotecand =
    mark_loop stream.conncheck_list agent stream component_id remotecand
