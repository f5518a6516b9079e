-- ===== src/Agent/Checks/Replies.antt =====
-- agent/conncheck.c: what the reply to a check does. The reply was validated and read before.
use libnice4android.Prelude.{
  ℕ, Bool, true, false, not, ◌&&◌, Option, none, some, List, [], ◌∷◌, ◌==◌, if◌then◌else◌, ◌>>=◌,
}
use libnice4android.Stun.Message.{bytes_eq}
use libnice4android.Agent.Address.{Address, equal}
use libnice4android.Agent.Checks.{
  waiting, succeeded, failed, NiceCandidate, connected, ready, Component, Stream, CheckPair,
  Context, NiceAgent,
}
use libnice4android.Agent.Checks.CheckList.{find_pair, set_pair, prune_cancelled}
use libnice4android.Agent.Checks.Components.{
  find_component, same_state, signal_state_change, update_selected_pair, update_state_for_ready,
}
use libnice4android.Agent.Checks.Schedule.Unfreeze.{find_stream, set_stream, unfreeze_related}
use libnice4android.Agent.Checks.Pairs.{add_peer_reflexive_pair, check_for_role_conflict}

-- What stun_usage_ice_conncheck_process returns, with the mapped address.
pub data IceReturn : Type 0 where
  mapped_address : Address → IceReturn
  no_mapped_address role_conflict invalid error : IceReturn

-- discovery_add_peer_reflexive_candidate: from the mapped address, the socket and the candidates that the
-- reply belongs to, the new local candidate and the stream that has it.
pub record Discovery : Type 0 where
  pub add_peer_reflexive :
      Context
      → Stream
      → ℕ
      → Address
      → ℕ
      → Option NiceCandidate
      → Option NiceCandidate
      → NiceCandidate × Stream

-- The pair whose check has a transaction id.
unfoldable pub find_transaction : List CheckPair → List ℕ → Option CheckPair
find_transaction [] id = none
find_transaction (p ∷ more) id =
    let rest = find_transaction more id in
    elim p.stun_message [
      | none ↦ rest
      | some discovery_id ↦ if bytes_eq discovery_id id then some p else rest
    ]

unfoldable pub find_address : List NiceCandidate → Address → Option NiceCandidate
find_address [] mapped = none
find_address (c ∷ more) mapped =
    let rest = find_address more mapped in if equal mapped c.addr then some c else rest

-- The first pair of two candidates; NULL is the remote candidate of no pair.
unfoldable pub find_candidates : List CheckPair → ℕ → Option NiceCandidate → Option CheckPair
find_candidates pairs local none = none
find_candidates [] local (some remote) = none
find_candidates (p ∷ more) local (some remote) =
    let rest = find_candidates more local (some remote) in
    if p.local.address == local && p.remote.address == remote.address then some p else rest

unfoldable pub store_pair : NiceAgent → Stream → CheckPair → NiceAgent
store_pair agent stream p = record agent {
  streams =
      set_stream agent.streams
        (record stream { conncheck_list = set_pair stream.conncheck_list p });
}

-- A check that succeeds; `none` is a failed assertion.
unfoldable pub succeed : NiceAgent → Stream → CheckPair → Option NiceAgent
succeed agent stream p =
    let p1 = record p { state = succeeded } in
    let agent1 = store_pair agent stream p1 in
    do
      stream1 ← find_stream agent1.streams stream.id
      streams ← unfreeze_related agent1.streams stream1 p1
      some (record agent1 { streams = streams })

-- `priv_process_response_check_for_peer_reflexive`, by the local candidate with the mapped address: the
-- agent, and the address of the pair that is returned.
unfoldable pub process_response :
    Discovery
    → NiceAgent
    → Stream
    → Component
    → CheckPair
    → ℕ
    → Address
    → Option NiceCandidate
    → Option NiceCandidate
    → Option NiceCandidate
    → Option (NiceAgent × ℕ)
process_response d agent stream c p sockptr mapped local_candidate remote_candidate (some cand) = do
  agent1 ← succeed agent stream p
  let new_pair = find_candidates stream.conncheck_list cand.address remote_candidate
  some (agent1, elim new_pair [ none ↦ p.address | some q ↦ q.address ])
process_response d agent stream c p sockptr mapped local_candidate remote_candidate none =
    let found =
      d.add_peer_reflexive agent.context stream c.id mapped sockptr local_candidate
        remote_candidate in
    let stream1 = record (found.1) {
      conncheck_list = set_pair found.1.conncheck_list (record p { state = failed });
    } in
    let added = add_peer_reflexive_pair agent.context stream1 c.id found.0 p in
    some (record { context = added.1; streams = set_stream agent.streams added.2 }, added.0.address)

-- The updates after a check that succeeded: of the selected pair, of the component and of the list.
unfoldable pub update_nominated : Context → Stream → ℕ → CheckPair → Context × Stream
update_nominated agent stream component_id ok_pair =
    let selected = update_selected_pair agent stream component_id ok_pair in
    elim (find_component selected.1.components component_id) [
      | none ↦ selected
      | some c ↦
          if same_state c.state ready
          then selected
          else signal_state_change selected.0 selected.1 component_id connected
    ]

unfoldable pub conclude_success : NiceAgent → ℕ → ℕ → ℕ → Option NiceAgent
conclude_success agent stream_id component_id ok_address = do
  stream ← find_stream agent.streams stream_id
  ok_pair ← find_pair stream.conncheck_list ok_address
  let next =
      if ok_pair.nominated
      then update_nominated agent.context stream component_id ok_pair
      else (agent.context, stream)
  let last = update_state_for_ready next.0 next.1 component_id
  some (record { context = last.0; streams = set_stream agent.streams last.1 })

-- The reply to the check of a pair, whose message is cleared in `p`.
unfoldable pub process_reply :
    Discovery
    → NiceAgent
    → Stream
    → Component
    → CheckPair
    → ℕ
    → Address
    → Option NiceCandidate
    → Option NiceCandidate
    → IceReturn
    → Option NiceAgent
process_reply d agent stream c p sockptr from local_candidate remote_candidate
      (mapped_address mapped) =
    if equal from p.remote.addr
    then (do
      next ←
          process_response d agent stream c p sockptr mapped local_candidate remote_candidate
            (find_address c.local_candidates mapped)
      conclude_success next.0 stream.id c.id next.1)
    else some (store_pair agent stream (record p { state = failed }))
process_reply d agent stream c p sockptr from local_candidate remote_candidate no_mapped_address =
    if equal from p.remote.addr
    then (do next ← succeed agent stream p; conclude_success next stream.id c.id p.address)
    else some (store_pair agent stream (record p { state = failed }))
process_reply d agent stream c p sockptr from local_candidate remote_candidate role_conflict =
    let switched = check_for_role_conflict agent (not p.controlling) in
    do
      stream1 ← find_stream switched.streams stream.id
      p1 ← find_pair stream1.conncheck_list p.address
      some (store_pair switched stream1 (record p1 { stun_message = none; state = waiting }))
process_reply d agent stream c p sockptr from local_candidate remote_candidate _ =
    some (store_pair agent stream p)

-- The end of the reply's processing: the cancelled pairs go.
unfoldable pub drop_cancelled : NiceAgent → ℕ → NiceAgent
drop_cancelled agent stream_id = elim (find_stream agent.streams stream_id) [
  | none ↦ agent
  | some stream ↦ record agent {
    streams =
        set_stream agent.streams
          (record stream { conncheck_list = prune_cancelled stream.conncheck_list });
  }
]

-- `priv_map_reply_to_conn_check_request`: whether the transaction was found.
unfoldable pub map_reply_to_conn_check_request :
    Discovery
    → NiceAgent
    → Stream
    → Component
    → ℕ
    → Address
    → Option NiceCandidate
    → Option NiceCandidate
    → List ℕ
    → IceReturn
    → Option (Bool × NiceAgent)
map_reply_to_conn_check_request d agent stream c sockptr from local_candidate remote_candidate
      response_id res =
    elim (find_transaction stream.conncheck_list response_id) [
      | none ↦ some (false, drop_cancelled agent stream.id)
      | some p ↦ do
        next ←
            process_reply d agent stream c (record p { stun_message = none }) sockptr from
              local_candidate remote_candidate res
        some (true, drop_cancelled next stream.id)
    ]
