-- ===== src/Agent/Checks/Schedule/Liveness.antt =====
-- The ticks of the timer come to an end of the work.
use libnice4android.Prelude.{
  ℕ, zero, suc, ◌+◌, ◌≤◌, ◌<◌, Bool, true, false, ◌||◌, Option, none, some, ◌==◌, List, [], ◌∷◌,
  ◌≡◌, refl, ap, ap₂, sym, ◌∙◌, arith, Bool-cases, inl, inr, All, length,
}
use mathlib.Core.Path.{subst}
use native.Mathlib.Decide.{dec_lt}
use libnice4android.Stun.Timer.{Timeval}
use libnice4android.Agent.Checks.{
  CheckState, in_progress, frozen, waiting, succeeded, failed, cancelled, discovered, is, Stream,
  Component, CheckPair, ComponentState, ready, Context, NiceAgent, Environment,
}
use libnice4android.Agent.Checks.CheckList.{
  prune_pair, prune_loop, prune_pending_checks, highest_nominated,
}
use libnice4android.Agent.Checks.Components.{
  find_component, fail_component, failed_loop, has_nominated, update_failed_components,
  update_state_for_ready,
}
use libnice4android.Agent.Checks.Components.Ready.{conncheck_list-signal_state_change}
use libnice4android.Agent.Checks.Schedule.Tick.{
  begin_tick, tick_streams, conclude_components, conclude, end_tick, conn_check_tick,
}
use libnice4android.Agent.Checks.Schedule.Kept.{IsKept}
use libnice4android.Agent.Checks.Schedule.Progress.{weight, work, total_work, shape, IsFresh}
use libnice4android.Agent.Checks.Schedule.Advance.{
  shapes, Advances, begin_tick-Advances, begin_tick-idle, tick_streams_lem,
}

prune_pair-IsKept : (c highest : ℕ) (p : CheckPair) → IsKept p (prune_pair c highest p)
unfolding prune_pair
prune_pair-IsKept c highest p = ground arith

-- A list of which no pair comes to wait for a check.
abbrev KeepsList : List CheckPair → List CheckPair → Type 0
KeepsList before after = (shape after ≡ shape before) × (work after ≤ work before)

prune_loop-KeepsList :
    (pairs : List CheckPair) (c highest : ℕ) → KeepsList pairs (prune_loop pairs c highest).1
unfolding prune_loop
prune_loop-KeepsList [] c highest = (refl, omega arith)
prune_loop-KeepsList (p ∷ more) c highest =
    let kept = prune_pair-IsKept c highest p in
    let rest = prune_loop-KeepsList more c highest in
    (
      ap₂ (λ (a b : ℕ). (a, b) ∷ shape (prune_loop more c highest).1) kept.address_eq
            kept.priority_eq
          ∙ ap (λ (l : List (ℕ × ℕ)). (p.address, p.priority) ∷ l) rest.0,
      omega (arith, kept.weight_le, rest.1),
    )

update_state_for_ready-KeepsList :
    (agent : Context) (stream : Stream) (id : ℕ)
    → KeepsList stream.conncheck_list (update_state_for_ready agent stream id).1.conncheck_list
unfolding update_state_for_ready prune_pending_checks
update_state_for_ready-KeepsList agent stream id =
    let pruned = prune_pending_checks stream.conncheck_list id in
    let kept =
      prune_loop-KeepsList stream.conncheck_list id
        (highest_nominated stream.conncheck_list id 0) in
    elim (Bool-cases (has_nominated stream.conncheck_list id)) [
      | inl nominated ↦ elim (Bool-cases (pruned.0 == 0)) [
        | inl done ↦
            let same =
              conncheck_list-signal_state_change agent (record stream { conncheck_list = pruned.1 })
                id ready in
            rw (nominated, done)
              (
                ap (λ (l : List CheckPair). shape l) same ∙ kept.0,
                omega (arith, ap (λ (l : List CheckPair). work l) same, kept.1),
              )
        | inr more ↦ rw (nominated, more) kept
      ]
      | inr none_yet ↦ rw none_yet (refl, omega arith)
    ]

conclude_components-KeepsList :
    (components : List Component) (agent : Context) (stream : Stream)
    → KeepsList stream.conncheck_list (conclude_components components agent stream).1.conncheck_list
unfolding conclude_components
conclude_components-KeepsList [] agent stream = (refl, omega arith)
conclude_components-KeepsList (c ∷ more) agent stream =
    let first = update_state_for_ready-KeepsList agent stream c.id in
    let next = update_state_for_ready agent stream c.id in
    let rest = conclude_components-KeepsList more next.0 next.1 in
    (rest.0 ∙ first.0, omega (arith, rest.1, first.1))

fail_component-list :
    (agent : Context) (stream : Stream) (id : ℕ) (o : Option Component)
    → (fail_component agent stream id o).1.conncheck_list ≡ stream.conncheck_list
unfolding fail_component
fail_component-list agent stream id none = refl
fail_component-list agent stream id (some comp) =
    ground (arith, conncheck_list-signal_state_change agent stream id ComponentState.failed)

failed_loop-list :
    (rounds c : ℕ) (agent : Context) (stream : Stream)
    → (failed_loop rounds c agent stream).1.conncheck_list ≡ stream.conncheck_list
unfolding failed_loop
failed_loop-list zero c agent stream = refl
failed_loop-list (suc rounds) c agent stream =
    let next = fail_component agent stream (c + 1) (find_component stream.components (c + 1)) in
    failed_loop-list rounds (c + 1) next.0 next.1
    ∙ fail_component-list agent stream (c + 1) (find_component stream.components (c + 1))

pub update_failed_components-list :
    (agent : Context) (stream : Stream)
    → (update_failed_components agent stream).1.conncheck_list ≡ stream.conncheck_list
unfolding update_failed_components
update_failed_components-list agent stream =
    ground (arith, failed_loop-list stream.n_components 0 agent stream)

conclude-Advances :
    (agent : Context) (streams : List Stream) → Advances streams false (conclude agent streams).1
unfolding conclude
conclude-Advances agent [] = (refl, omega arith)
conclude-Advances agent (s ∷ more) =
    let updated = update_failed_components agent s in
    let first = conclude_components-KeepsList updated.1.components updated.0 updated.1 in
    let next = conclude_components updated.1.components updated.0 updated.1 in
    let rest = conclude-Advances next.0 more in
    let same = update_failed_components-list agent s in
    (
      ap₂ (λ (a : List (ℕ × ℕ)) (b : List (List (ℕ × ℕ))). a ∷ b)
          (first.0 ∙ ap (λ (l : List CheckPair). shape l) same) rest.0,
      omega (arith, first.1, ap (λ (l : List CheckPair). work l) same, rest.1),
    )

end_tick-Advances :
    (done : Bool) (agent : Context) (streams : List Stream)
    → Advances streams false (end_tick done agent streams).1.streams
unfolding end_tick
end_tick-Advances true agent streams = (refl, omega arith)
end_tick-Advances false agent streams = conclude-Advances agent streams

pub end_tick-flag :
    (done : Bool) (agent : Context) (streams : List Stream) → (end_tick done agent streams).0 ≡ done
unfolding end_tick
end_tick-flag true agent streams = refl
end_tick-flag false agent streams = refl

Advances-lt :
    (before after : List Stream) (done : Bool)
    → done ≡ true
    → Advances before done after
    → total_work after < total_work before
Advances-lt before after true e h = omega (arith, h.1)
Advances-lt before after false e h = cc

module _ (env : Environment) (agent : NiceAgent) (f : All IsFresh (shapes agent.streams)) where
  tick-Advances :
      Advances agent.streams (begin_tick env agent).0 (conn_check_tick env agent).1.streams
  unfolding conn_check_tick
  tick-Advances =
      let begun = begin_tick env agent in
      let first = begin_tick-Advances env agent f in
      let second =
        tick_streams_lem env begun.1.context begun.1.streams
          (subst (All IsFresh) (sym first.0) f) in
      let ticked = tick_streams env begun.1.context begun.1.streams in
      let third = end_tick-Advances (begun.0 || ticked.0) ticked.1 ticked.2 in
      (third.0 ∙ second.0 ∙ first.0, omega (arith, third.1, second.1, first.1))

  -- For pairs at distinct addresses and with priorities that are not 0: a tick that finds work (a pair that
  -- is frozen counts 2, one that waits counts 1) keeps the timer going and leaves less work.
  pub conn_check_tick-progress :
      0 < total_work agent.streams
      → ((conn_check_tick env agent).0 ≡ true)
        × (total_work (conn_check_tick env agent).1.streams < total_work agent.streams)
  unfolding conn_check_tick
  conn_check_tick-progress h = elim (Bool-cases (begin_tick env agent).0) [
    | inl e ↦
        let begun = begin_tick env agent in
        let ticked = tick_streams env begun.1.context begun.1.streams in
        (
          end_tick-flag (begun.0 || ticked.0) ticked.1 ticked.2
              ∙ ap (λ (b : Bool). b || ticked.0) e,
          Advances-lt agent.streams (conn_check_tick env agent).1.streams (begin_tick env agent).0 e
              tick-Advances,
        )
    | inr e ↦ absurd (omega (arith, begin_tick-idle env agent f e))
  ]

-- What the clocks say at a tick.
abbrev pub at_time : NiceAgent → Timeval × Timeval → NiceAgent
at_time agent time = record agent {
  context = record (agent.context) { now = time.0; monotonic = time.1 };
}

-- The agent after the tick at each of a list of times, on the wall clock and the monotonic one.
unfoldable pub run_ticks : Environment → List (Timeval × Timeval) → NiceAgent → NiceAgent
run_ticks env [] agent = agent
run_ticks env (time ∷ more) agent = run_ticks env more (conn_check_tick env (at_time agent time)).1

Advances-le :
    (before after : List Stream) (done : Bool)
    → Advances before done after
    → total_work after ≤ total_work before
Advances-le before after done h = omega (arith, h.1)

-- The work that is left after some ticks.
run_ticks-total_work :
    (env : Environment) (times : List (Timeval × Timeval)) (agent : NiceAgent)
    → All IsFresh (shapes agent.streams)
    → total_work agent.streams ≤ length times
    → total_work (run_ticks env times agent).streams ≡ 0
unfolding run_ticks
run_ticks-total_work env [] agent f h = omega arith
run_ticks-total_work env (time ∷ more) agent f h =
    let now_agent = at_time agent time in
    let next = (conn_check_tick env now_agent).1 in
    let advance = tick-Advances env now_agent f in
    let less = Advances-le now_agent.streams next.streams (begin_tick env now_agent).0 advance in
    run_ticks-total_work env more next (subst (All IsFresh) (sym advance.0) f)
      (elim (dec_lt 0 (total_work agent.streams)) [
        | yes p ↦ omega (arith, (conn_check_tick-progress env now_agent f p).1)
        | no p ↦ omega (arith, less)
      ])

-- No pair is frozen or waiting.
abbrev pub NoPending : List CheckPair → Type 0
NoPending = All (λ p. (is p.state frozen || is p.state waiting) ≡ false)

weight-pending : (s : CheckState) → weight s ≡ 0 → (is s frozen || is s waiting) ≡ false
weight-pending frozen h = absurd (omega arith)
weight-pending waiting h = absurd (omega arith)
weight-pending in_progress h = refl
weight-pending succeeded h = refl
weight-pending failed h = refl
weight-pending cancelled h = refl
weight-pending discovered h = refl

work-NoPending : (pairs : List CheckPair) → work pairs ≡ 0 → NoPending pairs
work-NoPending [] h = tt
work-NoPending (p ∷ more) h =
    (weight-pending p.state (omega arith), work-NoPending more (omega arith))

pub total_work-NoPending :
    (streams : List Stream) → total_work streams ≡ 0 → All (λ s. NoPending s.conncheck_list) streams
total_work-NoPending [] h = tt
total_work-NoPending (s ∷ more) h =
    (work-NoPending s.conncheck_list (omega arith), total_work-NoPending more (omega arith))

-- For pairs at distinct addresses and with priorities that are not 0: after as many ticks as there is work
-- (two for each pair that is frozen and one for each that waits), at whatever times, no pair of any
-- stream is frozen or waiting.
pub run_ticks-NoPending :
    (env : Environment) (times : List (Timeval × Timeval)) (agent : NiceAgent)
    → All IsFresh (shapes agent.streams)
    → total_work agent.streams ≤ length times
    → All (λ s. NoPending s.conncheck_list) (run_ticks env times agent).streams
run_ticks-NoPending env times agent f h =
    total_work-NoPending (run_ticks env times agent).streams
      (run_ticks-total_work env times agent f h)
