-- ===== src/Agent/Checks/Pairs.antt =====
-- The pairs that are made of candidates, and their priorities after a change of the role.
pub mod Invariant
use libnice4android.Prelude.{
  ℕ, zero, suc, ◌+◌, Bool, true, false, not, ◌&&◌, ◌||◌, Option, none, some, List, [], ◌∷◌, ◌++◌,
  take, length, ltb, leb, ◌==◌, if◌then◌else◌,
}
use libnice4android.Stun.Timer.{Timeval, Timer}
use libnice4android.Agent.Address.{Address, other, ip4, ip6}
use libnice4android.Agent.Candidate.{
  Candidate, tcp_active, tcp_passive, server_reflexive, peer_reflexive,
}
use libnice4android.Agent.Checks.{
  CheckState, waiting, in_progress, succeeded, failed, frozen, discovered, is, ComponentState,
  connected, ready, connecting, Compatibility, rfc5245, wlm2009, oc2007r2, NiceCandidate,
  CandidatePair, IncomingCheck, Component, Stream, CheckPair, Context, NiceAgent, Environment,
}
use libnice4android.Agent.Checks.CheckList.{
  insert_sorted, limit_conn_check_list_size, find_pair, set_pair,
}
use libnice4android.Agent.Checks.Components.{
  find_component, set_component, same_state, signal_state_change, candidate_pair_priority,
}
use libnice4android.Agent.Checks.Schedule.Tick.{pair_fail}

-- A pair in fresh memory; its foundation has at most 65 characters.
unfoldable pub new_pair :
    Context → ℕ → ℕ → NiceCandidate → NiceCandidate → ℕ → CheckState → Bool → CheckPair
new_pair agent stream_id component_id local remote sockptr state nominated = record {
  address = agent.next_address;
  stream_id = stream_id;
  component_id = component_id;
  local = local;
  remote = remote;
  sockptr = sockptr;
  foundation = take 65 (local.foundation ++ b':' ∷ remote.foundation);
  state = state;
  nominated = nominated;
  controlling = agent.controlling_mode;
  timer_restarted = false;
  priority = candidate_pair_priority agent local remote;
  next_tick = record { sec = 0; usec = 0 };
  timer = record {
    deadline = record { sec = 0; usec = 0 };
    delay = 0;
    retransmissions = 0;
    max_retransmissions = 0;
  };
  stun_message = none;
}

is_rfc5245 : Compatibility → Bool
is_rfc5245 rfc5245 = true
is_rfc5245 _ = false

-- `priv_add_new_check_pair`, for a component of the stream.
unfoldable pub add_new_check_pair :
    Context → Stream → ℕ → NiceCandidate → NiceCandidate → CheckState → Bool → Context × Stream
unfolding is_rfc5245
add_new_check_pair agent stream component_id local remote initial_state use_candidate =
    let sockptr = if remote.info.type == peer_reflexive then remote.sockptr else local.sockptr in
    let pair =
      new_pair agent stream.id component_id local remote sockptr initial_state use_candidate in
    let pairs = insert_sorted stream.conncheck_list pair in
    (
      record agent { next_address = suc agent.next_address },
      record stream {
        conncheck_list =
            if is_rfc5245 agent.compatibility
            then limit_conn_check_list_size pairs agent.max_conn_checks
            else pairs;
      },
    )

-- `conn_check_match_transport`
unfoldable pub match_transport : ℕ → ℕ
match_transport transport =
    if transport == tcp_active
    then tcp_passive
    else (if transport == tcp_passive then tcp_active else transport)

-- `priv_conn_check_add_for_candidate_pair_matched`
unfoldable pub add_for_candidate_pair_matched :
    Context → Stream → Component → NiceCandidate → NiceCandidate → CheckState → Context × Stream
add_for_candidate_pair_matched agent stream c local remote initial_state =
    let added = add_new_check_pair agent stream c.id local remote initial_state false in
    signal_state_change added.0 added.1 c.id
      (if same_state c.state connected || same_state c.state ready then connected else connecting)

-- The test on `sa_family`.
same_family : Address → Address → Bool
same_family other other = true
same_family (ip4 a p) (ip4 b q) = true
same_family (ip6 a p s) (ip6 b q t) = true
same_family _ _ = false

-- The compatibilities that prune server-reflexive local candidates.
unfoldable pub prunes_reflexive : Compatibility → Bool
prunes_reflexive rfc5245 = true
prunes_reflexive wlm2009 = true
prunes_reflexive oc2007r2 = true
prunes_reflexive _ = false

-- Whether `conn_check_add_for_candidate_pair` makes a pair.
unfoldable pub is_paired : Compatibility → NiceCandidate → NiceCandidate → Bool
unfolding same_family prunes_reflexive
is_paired compatibility local remote =
    not (prunes_reflexive compatibility && local.info.type == server_reflexive)
    && not (local.info.transport == tcp_passive)
    && local.info.transport == match_transport remote.info.transport
    && same_family local.addr remote.addr

-- `conn_check_add_for_candidate_pair`, for a component if the stream has it.
unfoldable pub add_for_candidate_pair :
    Context → Stream → Option Component → NiceCandidate → NiceCandidate → Bool × Context × Stream
add_for_candidate_pair agent stream none local remote = (false, agent, stream)
add_for_candidate_pair agent stream (some c) local remote =
    let added = add_for_candidate_pair_matched agent stream c local remote frozen in
    if is_paired agent.compatibility local remote
    then (true, added.0, added.1)
    else (false, agent, stream)

-- `conn_check_add_for_candidate`, over the local candidates and for the component as it is by then, with the number of pairs that are added.
unfoldable pub add_for_candidate :
    List NiceCandidate → Context → Stream → ℕ → NiceCandidate → ℕ × Context × Stream
add_for_candidate [] agent stream component_id remote = (0, agent, stream)
add_for_candidate (local ∷ more) agent stream component_id remote =
    let first =
      add_for_candidate_pair agent stream (find_component stream.components component_id) local
        remote in
    let rest = add_for_candidate more first.1 first.2 component_id remote in
    ((if first.0 then suc rest.0 else rest.0), rest.1, rest.2)

-- `conn_check_add_for_local_candidate`, over the remote candidates.
unfoldable pub add_for_local_candidate :
    List NiceCandidate → Context → Stream → ℕ → NiceCandidate → ℕ × Context × Stream
add_for_local_candidate [] agent stream component_id local = (0, agent, stream)
add_for_local_candidate (remote ∷ more) agent stream component_id local =
    let first =
      add_for_candidate_pair agent stream (find_component stream.components component_id) local
        remote in
    let rest = add_for_local_candidate more first.1 first.2 component_id local in
    ((if first.0 then suc rest.0 else rest.0), rest.1, rest.2)

-- `conn_check_stop`
unfoldable pub conn_check_stop : Context → Context
conn_check_stop agent = record agent { conncheck_timer = false }

-- `conn_check_free`
unfoldable pub free_lists : List Stream → List Stream
free_lists [] = []
free_lists (stream ∷ more) = record stream { conncheck_list = [] } ∷ free_lists more

unfoldable pub conn_check_free : NiceAgent → NiceAgent
unfolding conn_check_stop
conn_check_free agent = record {
  context = conn_check_stop agent.context;
  streams = free_lists agent.streams;
}

-- The list of one stream freed, and whether a list that is not empty is left.
unfoldable pub free_one : List Stream → ℕ → List Stream
free_one [] id = []
free_one (s ∷ more) id =
    (if s.id == id then record s { conncheck_list = [] } else s) ∷ free_one more id

unfoldable pub has_checks : List Stream → Bool
has_checks [] = false
has_checks (s ∷ more) = ltb 0 (length s.conncheck_list) || has_checks more

-- `conn_check_prune_stream`
unfoldable pub conn_check_prune_stream : NiceAgent → ℕ → NiceAgent
unfolding conn_check_stop
conn_check_prune_stream agent id =
    let streams = free_one agent.streams id in
    record {
      context = if has_checks streams then agent.context else conn_check_stop agent.context;
      streams = streams;
    }

-- The loop of `conn_check_prune_socket`.
unfoldable pub prune_socket_loop :
    List Component → List CheckPair → ℕ → List Component × List CheckPair
prune_socket_loop components [] sock = (components, [])
prune_socket_loop components (p ∷ more) sock =
    let gone = p.local.sockptr == sock || p.remote.sockptr == sock in
    let first : List Component × CheckPair =
      if gone then pair_fail components p else (components, p) in
    let rest = prune_socket_loop first.0 more sock in (rest.0, first.1 ∷ rest.1)

selected_uses : Component → ℕ → Bool
selected_uses c sock = elim c.selected_pair [
  | none ↦ false
  | some pair ↦ pair.local.sockptr == sock
]

-- `conn_check_prune_socket`, for a component of the stream.
unfoldable pub conn_check_prune_socket : Context → Stream → Component → ℕ → Context × Stream
unfolding selected_uses
conn_check_prune_socket agent stream c sock =
    let next : Context × Stream =
      if selected_uses c sock && same_state c.state ready
      then signal_state_change agent stream c.id ComponentState.failed
      else (agent, stream) in
    let pruned = prune_socket_loop next.1.components next.1.conncheck_list sock in
    (next.0, record (next.1) { components = pruned.0; conncheck_list = pruned.1 })

-- `priv_recalculate_pair_priorities`: the lists keep their order.
unfoldable pub recalculate_list : Context → List CheckPair → List CheckPair
recalculate_list agent [] = []
recalculate_list agent (p ∷ more) =
    record p { priority = candidate_pair_priority agent p.local p.remote }
    ∷ recalculate_list agent more

unfoldable pub recalculate_pair_priorities : Context → List Stream → List Stream
recalculate_pair_priorities agent [] = []
recalculate_pair_priorities agent (stream ∷ more) =
    record stream { conncheck_list = recalculate_list agent stream.conncheck_list }
    ∷ recalculate_pair_priorities agent more

-- `priv_check_for_role_conflict`
unfoldable pub check_for_role_conflict : NiceAgent → Bool → NiceAgent
check_for_role_conflict agent control =
    let context = record (agent.context) { controlling_mode = control } in
    if (if control then agent.context.controlling_mode else not agent.context.controlling_mode)
    then agent
    else record { context = context; streams = recalculate_pair_priorities context agent.streams }

-- `priv_add_peer_reflexive_pair`: the pair and its stream.
unfoldable pub add_peer_reflexive_pair :
    Context → Stream → ℕ → NiceCandidate → CheckPair → CheckPair × Context × Stream
add_peer_reflexive_pair agent stream component_id local_cand parent_pair =
    let pair =
      new_pair agent stream.id component_id local_cand parent_pair.remote local_cand.sockptr
        discovered false in
    (
      pair,
      record agent { next_address = suc agent.next_address },
      record stream { conncheck_list = insert_sorted stream.conncheck_list pair },
    )

-- NICE_AGENT_MAX_REMOTE_CANDIDATES
abbrev pub max_remote_candidates : ℕ
max_remote_candidates = 25

-- `priv_store_pending_check`: whether it is stored, and the component.
unfoldable pub store_pending_check : Component → IncomingCheck → Bool × Component
store_pending_check c icheck =
    if leb max_remote_candidates (length c.incoming_checks)
    then (false, c)
    else (true, record c { incoming_checks = c.incoming_checks ++ icheck ∷ [] })
