-- ===== src/Agent/Checks/Schedule/Unfreeze.antt =====
-- agent/conncheck.c: how frozen pairs come to wait for their check.
use libnice4android.Prelude.{
  ℕ, suc, ◌+◌, Bool, true, false, not, ◌&&◌, Option, none, some, List, [], ◌∷◌, ltb, ◌==◌,
  if◌then◌else◌,
}
use libnice4android.Stun.Message.{bytes_eq}
use libnice4android.Agent.Checks.{waiting, succeeded, frozen, is, Stream, CheckPair}
use libnice4android.Agent.Checks.CheckList.{set_pair}
use libnice4android.Agent.Checks.Components.{all_components_ready}

-- The frozen pair of a list with the highest priority above `highest`.
unfoldable pub max_frozen : List CheckPair → ℕ → Option CheckPair → Option CheckPair
max_frozen [] highest best = best
max_frozen (p ∷ more) highest best =
    let better = is p.state frozen && ltb highest p.priority in
    max_frozen more (if better then p.priority else highest) (if better then some p else best)

-- `priv_conn_check_unfreeze_next`, over the streams of the agent.
unfoldable pub unfreeze_next : List Stream → Bool × List Stream
unfreeze_next [] = (false, [])
unfreeze_next (stream ∷ more) =
    let rest = unfreeze_next more in
    elim (max_frozen stream.conncheck_list 0 none) [
      | some pair ↦ (
        true,
        record stream {
          conncheck_list = set_pair stream.conncheck_list (record pair { state = waiting });
        }
            ∷ more,
      )
      | none ↦ (rest.0, stream ∷ rest.1)
    ]

-- A loop of `priv_conn_check_unfreeze_related`: the frozen pairs with a foundation, of those that a
-- test on the number of their stream selects, and how many they are.
unfoldable pub unfreeze_loop : (ℕ → Bool) → List ℕ → List CheckPair → ℕ × List CheckPair
unfreeze_loop selects foundation [] = (0, [])
unfreeze_loop selects foundation (p ∷ more) =
    let rest = unfreeze_loop selects foundation more in
    if selects p.stream_id && (is p.state frozen && bytes_eq p.foundation foundation)
    then (suc rest.0, record p { state = waiting } ∷ rest.1)
    else (rest.0, p ∷ rest.1)

-- Step 2, over the streams of the agent: each round goes through the list of the stream of the check.
unfoldable pub unfreeze_others : List Stream → CheckPair → ℕ → List CheckPair → ℕ × List CheckPair
unfreeze_others [] ok_check unfrozen pairs = (unfrozen, pairs)
unfreeze_others (s ∷ more) ok_check unfrozen pairs =
    let round =
      unfreeze_loop (λ id. id == s.id && not (id == ok_check.stream_id)) ok_check.foundation
        pairs in
    let rest = unfreeze_others more ok_check (unfrozen + round.0) round.1 in
    if ltb 0 (unfrozen + round.0) then (unfrozen + round.0, round.1) else rest

unfoldable pub find_stream : List Stream → ℕ → Option Stream
find_stream [] id = none
find_stream (s ∷ more) id = let rest = find_stream more id in if s.id == id then some s else rest

unfoldable pub set_stream : List Stream → Stream → List Stream
set_stream [] stream = []
set_stream (s ∷ more) stream =
    let rest = set_stream more stream in if s.id == stream.id then stream ∷ more else s ∷ rest

-- `priv_conn_check_unfreeze_related`; `none` is a failed assertion.
unfoldable pub unfreeze_related : List Stream → Stream → CheckPair → Option (List Stream)
unfreeze_related streams stream ok_check =
    if not (is ok_check.state succeeded && stream.id == ok_check.stream_id)
    then none
    else (let first =
          unfreeze_loop (λ id. id == ok_check.stream_id) ok_check.foundation
            stream.conncheck_list in
        let second : ℕ × List CheckPair =
          if all_components_ready stream.components
          then unfreeze_others streams ok_check first.0 first.1
          else first in
        let streams1 = set_stream streams (record stream { conncheck_list = second.1 }) in
        some (if second.0 == 0 then (unfreeze_next streams1).1 else streams1))
