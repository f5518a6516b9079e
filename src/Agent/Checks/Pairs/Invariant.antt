-- ===== src/Agent/Checks/Pairs/Invariant.antt =====
-- What a check list is, and that the pairs that are added keep it so.
use libnice4android.Prelude.{
  ℕ, suc, ◌+◌, ◌<◌, Bool, true, false, not, ◌&&◌, Option, none, some, List, [], ◌∷◌, ◌==◌, ltb,
  if◌then◌else◌, ◌≡◌, refl, sym, arith, All, All-mono, Bool-cases, inl, inr,
}
use mathlib.Core.Path.{subst₂}
use libnice4android.Agent.Checks.{
  CheckState, frozen, cancelled, is, CheckPair, NiceCandidate, ComponentState, Component, Stream,
  Context, Event,
}
use libnice4android.Agent.Checks.CheckList.{
  insert_sorted, comes_before, limit_loop, limit_conn_check_list_size,
}
use libnice4android.Agent.Checks.CheckList.Sorted.{
  IsSorted, All-insert_sorted, insert_sorted-IsSorted, All-limit_loop, limit_loop-IsSorted,
}
use libnice4android.Agent.Checks.Components.{
  find_component, signal_state_change, candidate_pair_priority,
}
use libnice4android.Agent.Checks.Pairs.{
  new_pair, is_paired, add_new_check_pair, add_for_candidate_pair_matched, add_for_candidate_pair,
  add_for_candidate,
}

abbrev pub IsDistinct : List CheckPair → Type 0
IsDistinct [] = Unit
IsDistinct (p ∷ more) = All (λ q. (p.address == q.address) ≡ false) more × IsDistinct more

insert_sorted-IsDistinct :
    (pairs : List CheckPair) (pair : CheckPair)
    → All (λ q. q.address < pair.address) pairs
    → IsDistinct pairs
    → IsDistinct (insert_sorted pairs pair)
unfolding insert_sorted
insert_sorted-IsDistinct [] pair h d = (tt, tt)
insert_sorted-IsDistinct (p ∷ more) pair h d = elim (Bool-cases (comes_before pair p)) [
  | inl e ↦ rw e ((ground arith, All-mono _ _ more (λ q k. ground arith) h.1), d)
  | inr e ↦
      rw e (
        All-insert_sorted _ more pair d.0 (ground arith),
        insert_sorted-IsDistinct more pair h.1 d.1,
      )
]

limit_loop-IsDistinct :
    (pairs : List CheckPair) (upper_limit valid : ℕ)
    → IsDistinct pairs
    → IsDistinct (limit_loop pairs upper_limit valid)
unfolding limit_loop
limit_loop-IsDistinct [] upper_limit valid h = tt
limit_loop-IsDistinct (p ∷ more) upper_limit valid h =
    let live = not (is p.state cancelled) in
    let next = if live then valid + 1 else valid in
    let first =
      All-limit_loop (λ q. (p.address == q.address) ≡ false) more upper_limit next (λ q k. k) h.0 in
    let rest = limit_loop-IsDistinct more upper_limit next h.1 in
    elim (Bool-cases (live && ltb upper_limit (valid + 1))) [
      | inl e ↦ rw e (first, rest)
      | inr e ↦ rw e (first, rest)
    ]

-- The pairs are in descending order of their priorities, at distinct addresses that are not free, and
-- each is of the stream and has the priority that its candidates and the role of the agent give.
pub record IsCheckList (agent : Context) (stream_id : ℕ) (pairs : List CheckPair) : Type 0 where
  pub sorted : IsSorted pairs
  pub distinct : IsDistinct pairs
  pub used : All (λ p. p.address < agent.next_address) pairs
  pub prioritized : All (λ p. p.priority ≡ candidate_pair_priority agent p.local p.remote) pairs
  pub of_stream : All (λ p. p.stream_id ≡ stream_id) pairs

pub limit-IsCheckList :
    (agent : Context) (id : ℕ) (pairs : List CheckPair) (upper_limit : ℕ)
    → IsCheckList agent id pairs
    → IsCheckList agent id (limit_conn_check_list_size pairs upper_limit)
unfolding limit_conn_check_list_size
limit-IsCheckList agent id pairs upper_limit v = record {
  sorted = limit_loop-IsSorted pairs upper_limit 0 v.sorted;
  distinct = limit_loop-IsDistinct pairs upper_limit 0 v.distinct;
  used = All-limit_loop _ pairs upper_limit 0 (λ p h. h) v.used;
  prioritized = All-limit_loop _ pairs upper_limit 0 (λ p h. h) v.prioritized;
  of_stream = All-limit_loop _ pairs upper_limit 0 (λ p h. h) v.of_stream;
}

insert-IsCheckList :
    (agent : Context) (id component_id : ℕ) (local remote : NiceCandidate) (sockptr : ℕ)
    (state : CheckState) (nominated : Bool) (pairs : List CheckPair)
    → IsCheckList agent id pairs
    → IsCheckList
        (record agent { next_address = suc agent.next_address })
        id
        (insert_sorted pairs (new_pair agent id component_id local remote sockptr state nominated))
unfolding new_pair candidate_pair_priority
insert-IsCheckList agent id component_id local remote sockptr state nominated pairs v = record {
  sorted = insert_sorted-IsSorted pairs _ v.sorted;
  distinct = insert_sorted-IsDistinct pairs _ v.used v.distinct;
  used = All-insert_sorted _ pairs _ (All-mono _ _ pairs (λ p h. omega arith) v.used) (omega arith);
  prioritized = All-insert_sorted _ pairs _ v.prioritized refl;
  of_stream = All-insert_sorted _ pairs _ v.of_stream refl;
}

IsCheckList-if :
    (b : Bool) (agent : Context) (id : ℕ) (pairs others : List CheckPair)
    → IsCheckList agent id pairs
    → IsCheckList agent id others
    → IsCheckList agent id (if b then pairs else others)
IsCheckList-if true agent id pairs others v w = v
IsCheckList-if false agent id pairs others v w = w

-- An agent and a stream of which the check list is as it has to be.
abbrev pub HasCheckList : Context × Stream → Type 0
HasCheckList x = IsCheckList x.0 x.1.id x.1.conncheck_list

add_new_check_pair-HasCheckList :
    (agent : Context) (stream : Stream) (component_id : ℕ) (local remote : NiceCandidate)
    (state : CheckState) (use_candidate : Bool)
    → HasCheckList (agent, stream)
    → HasCheckList (add_new_check_pair agent stream component_id local remote state use_candidate)
unfolding add_new_check_pair
add_new_check_pair-HasCheckList agent stream component_id local remote state use_candidate v =
    let inserted =
      insert-IsCheckList agent stream.id component_id local remote _ state use_candidate
        stream.conncheck_list v in
    IsCheckList-if _ _ stream.id _ _
      (limit-IsCheckList _ stream.id _ agent.max_conn_checks inserted) inserted

-- What a change of state leaves alone.
signal_state_change-agent :
    (agent : Context) (stream : Stream) (id : ℕ) (state : ComponentState)
    → (signal_state_change agent stream id state).0
      ≡ record agent { events = (signal_state_change agent stream id state).0.events }
unfolding signal_state_change
signal_state_change-agent agent stream id state = ground arith

signal_state_change-stream :
    (agent : Context) (stream : Stream) (id : ℕ) (state : ComponentState)
    → (signal_state_change agent stream id state).1
      ≡ record stream { components = (signal_state_change agent stream id state).1.components }
unfolding signal_state_change
signal_state_change-stream agent stream id state = ground arith

HasCheckList-fields :
    (agent other : Context) (stream result : Stream) (events : List Event)
    (components : List Component)
    → HasCheckList (agent, stream)
    → other ≡ record agent { events = events }
    → result ≡ record stream { components = components }
    → HasCheckList (other, result)
unfolding candidate_pair_priority
HasCheckList-fields agent other stream result events components v e h =
    subst₂ (λ a s. HasCheckList (a, s)) (sym e) (sym h)
      (record {
        sorted = v.sorted;
        distinct = v.distinct;
        used = v.used;
        prioritized = v.prioritized;
        of_stream = v.of_stream;
      })

signal_state_change-HasCheckList :
    (agent : Context) (stream : Stream) (id : ℕ) (state : ComponentState)
    → HasCheckList (agent, stream)
    → HasCheckList (signal_state_change agent stream id state)
signal_state_change-HasCheckList agent stream id state v =
    HasCheckList-fields agent _ stream _ _ _ v (signal_state_change-agent agent stream id state)
      (signal_state_change-stream agent stream id state)

add_for_candidate_pair-HasCheckList :
    (agent : Context) (stream : Stream) (o : Option Component) (local remote : NiceCandidate)
    → HasCheckList (agent, stream)
    → HasCheckList (
      (add_for_candidate_pair agent stream o local remote).1,
      (add_for_candidate_pair agent stream o local remote).2,
    )
unfolding add_for_candidate_pair add_for_candidate_pair_matched
add_for_candidate_pair-HasCheckList agent stream none local remote v = v
add_for_candidate_pair-HasCheckList agent stream (some c) local remote v =
    elim (Bool-cases (is_paired agent.compatibility local remote)) [
      | inl e ↦ rw e (
          signal_state_change-HasCheckList _ _ c.id _
            (add_new_check_pair-HasCheckList agent stream c.id local remote frozen false v))
      | inr e ↦ rw e v
    ]

-- `conn_check_add_for_candidate` keeps the check list as it has to be: in descending order of priority, at
-- distinct addresses, and each pair of the stream and with the priority that its candidates and the role give.
pub add_for_candidate-HasCheckList :
    (locals : List NiceCandidate) (agent : Context) (stream : Stream) (component_id : ℕ)
    (remote : NiceCandidate)
    → HasCheckList (agent, stream)
    → HasCheckList (
      (add_for_candidate locals agent stream component_id remote).1,
      (add_for_candidate locals agent stream component_id remote).2,
    )
unfolding add_for_candidate
add_for_candidate-HasCheckList [] agent stream component_id remote v = v
add_for_candidate-HasCheckList (local ∷ more) agent stream component_id remote v =
    let c = find_component stream.components component_id in
    let first = add_for_candidate_pair agent stream c local remote in
    add_for_candidate-HasCheckList more first.1 first.2 component_id remote
      (add_for_candidate_pair-HasCheckList agent stream c local remote v)
