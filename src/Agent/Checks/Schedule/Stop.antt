-- ===== src/Agent/Checks/Schedule/Stop.antt =====
-- When the timer for the checks stops.
use libnice4android.Prelude.{
  ℕ, Bool, true, false, ◌&&◌, ◌||◌, List, [], ◌∷◌, ◌==◌, ltb, ◌≡◌, refl, ap, sym, ◌∙◌, arith,
  Bool-cases, inl, inr, All,
}
use mathlib.Core.Path.{subst}
use libnice4android.Agent.Checks.{
  ready, waiting, frozen, in_progress, is, CheckPair, Component, Stream, Context, NiceAgent,
  Environment,
}
use libnice4android.Agent.Checks.CheckList.{
  count_pairs, highest_nominated, prune_pair, prune_loop, prune_pending_checks,
}
use libnice4android.Agent.Checks.Components.{
  has_nominated, update_failed_components, update_state_for_ready,
}
use libnice4android.Agent.Checks.Components.Ready.{conncheck_list-signal_state_change}
use libnice4android.Agent.Checks.Schedule.Tick.{
  tick_pairs, process_stream, lacks_nomination, nominate_if, tick_stream, tick_streams,
  conclude_components, conclude, begin_tick, end_tick, conn_check_tick,
}
use libnice4android.Agent.Checks.Schedule.Progress.{IsFresh}
use libnice4android.Agent.Checks.Schedule.Advance.{
  shapes, begin_tick-Advances, begin_tick-idle, tick_streams_lem,
}
use libnice4android.Agent.Checks.Schedule.Liveness.{
  NoPending, total_work-NoPending, update_failed_components-list, end_tick-flag,
}

or_false : (a b : Bool) → (a || b) ≡ false → (a ≡ false) × (b ≡ false)
or_false true b h = cc
or_false false b h = (refl, h)

-- No pair is in progress.
abbrev NoneActive : List CheckPair → Type 0
NoneActive = All (λ p. is p.state in_progress ≡ false)

count-NoneActive :
    (pairs : List CheckPair)
    → ltb 0 (count_pairs (λ p. is p.state in_progress) pairs) ≡ false
    → NoneActive pairs
unfolding count_pairs
count-NoneActive [] h = tt
count-NoneActive (p ∷ more) h = (ground arith, count-NoneActive more (ground arith))

nominate_if-idle :
    (env : Environment) (needed : Bool) (agent : Context) (stream : Stream)
    → needed ≡ false
    → (nominate_if env needed agent stream).1 ≡ stream
unfolding nominate_if
nominate_if-idle env true agent stream h = cc
nominate_if-idle env false agent stream h = refl

process_stream-NoneActive :
    (agent : Context) (stream : Stream)
    → (process_stream agent stream).0 ≡ false
    → NoneActive (process_stream agent stream).2.conncheck_list
unfolding process_stream
process_stream-NoneActive agent stream h =
    let ticked =
      tick_pairs
        (record { keep_timer_going = false; agent = agent; components = stream.components })
        stream.conncheck_list in
    count-NoneActive ticked.1
      (or_false ticked.0.keep_timer_going
        (ltb 0 (count_pairs (λ p. is p.state in_progress) ticked.1)) h).1

tick_stream-NoneActive :
    (env : Environment) (agent : Context) (stream : Stream)
    → (tick_stream env agent stream).0 ≡ false
    → NoneActive (tick_stream env agent stream).2.conncheck_list
unfolding tick_stream
tick_stream-NoneActive env agent stream h =
    let ticked = process_stream agent stream in
    let parts = or_false ticked.0 (lacks_nomination ticked.2) h in
    let same =
      nominate_if-idle env (lacks_nomination ticked.2 && ticked.1.controlling_mode) ticked.1
        ticked.2 (ap (λ (b : Bool). b && ticked.1.controlling_mode) parts.1) in
    subst (λ s. NoneActive s.conncheck_list) (sym same)
      (process_stream-NoneActive agent stream parts.0)

tick_streams-NoneActive :
    (env : Environment) (agent : Context) (streams : List Stream)
    → (tick_streams env agent streams).0 ≡ false
    → All (λ s. NoneActive s.conncheck_list) (tick_streams env agent streams).2
unfolding tick_streams
tick_streams-NoneActive env agent [] h = tt
tick_streams-NoneActive env agent (s ∷ more) h =
    let first = tick_stream env agent s in
    let parts = or_false first.0 (tick_streams env first.1 more).0 h in
    (tick_stream-NoneActive env agent s parts.0, tick_streams-NoneActive env first.1 more parts.1)

-- A predicate on pairs that pruning keeps holds after the end of a tick.
module _ (P : CheckPair → Type 0)
    (keep : (c highest : ℕ) (p : CheckPair) → P p → P (prune_pair c highest p)) where
  prune_loop-All :
      (pairs : List CheckPair) (c highest : ℕ) → All P pairs → All P (prune_loop pairs c highest).1
  unfolding prune_loop
  prune_loop-All [] c highest h = tt
  prune_loop-All (p ∷ more) c highest h = (keep c highest p h.0, prune_loop-All more c highest h.1)

  update_state_for_ready-All :
      (agent : Context) (stream : Stream) (id : ℕ)
      → All P stream.conncheck_list
      → All P (update_state_for_ready agent stream id).1.conncheck_list
  unfolding update_state_for_ready prune_pending_checks
  update_state_for_ready-All agent stream id h =
      let pruned = prune_pending_checks stream.conncheck_list id in
      let kept =
        prune_loop-All stream.conncheck_list id (highest_nominated stream.conncheck_list id 0) h in
      elim (Bool-cases (has_nominated stream.conncheck_list id)) [
        | inl nominated ↦ elim (Bool-cases (pruned.0 == 0)) [
          | inl done ↦
              let same =
                conncheck_list-signal_state_change agent
                  (record stream { conncheck_list = pruned.1 }) id ready in
              rw (nominated, done) (subst (All P) (sym same) kept)
          | inr more ↦ rw (nominated, more) kept
        ]
        | inr none_yet ↦ rw none_yet h
      ]

  conclude_components-All :
      (components : List Component) (agent : Context) (stream : Stream)
      → All P stream.conncheck_list
      → All P (conclude_components components agent stream).1.conncheck_list
  unfolding conclude_components
  conclude_components-All [] agent stream h = h
  conclude_components-All (c ∷ more) agent stream h =
      let next = update_state_for_ready agent stream c.id in
      conclude_components-All more next.0 next.1 (update_state_for_ready-All agent stream c.id h)

  conclude-All :
      (agent : Context) (streams : List Stream)
      → All (λ s. All P s.conncheck_list) streams
      → All (λ s. All P s.conncheck_list) (conclude agent streams).1
  unfolding conclude
  conclude-All agent [] h = tt
  conclude-All agent (s ∷ more) h =
      let updated = update_failed_components agent s in
      let next = conclude_components updated.1.components updated.0 updated.1 in
      (
        conclude_components-All updated.1.components updated.0 updated.1
            (subst (All P) (sym (update_failed_components-list agent s)) h.0),
        conclude-All next.0 more h.1,
      )

  end_tick-All :
      (done : Bool) (agent : Context) (streams : List Stream)
      → All (λ s. All P s.conncheck_list) streams
      → All (λ s. All P s.conncheck_list) (end_tick done agent streams).1.streams
  unfolding end_tick
  end_tick-All true agent streams h = h
  end_tick-All false agent streams h = conclude-All agent streams h

-- Neither frozen nor waiting nor in progress.
abbrev pub IsDone : CheckPair → Type 0
IsDone p = ((is p.state frozen || is p.state waiting) ≡ false) × (is p.state in_progress ≡ false)

prune_pair-IsDone : (c highest : ℕ) (p : CheckPair) → IsDone p → IsDone (prune_pair c highest p)
unfolding prune_pair
prune_pair-IsDone c highest p h = ground arith

All-pair : (pairs : List CheckPair) → NoPending pairs → NoneActive pairs → All IsDone pairs
All-pair [] h k = tt
All-pair (p ∷ more) h k = ((h.0, k.0), All-pair more h.1 k.1)

All-both :
    (streams : List Stream)
    → All (λ s. NoPending s.conncheck_list) streams
    → All (λ s. NoneActive s.conncheck_list) streams
    → All (λ s. All IsDone s.conncheck_list) streams
All-both [] h k = tt
All-both (s ∷ more) h k = (All-pair s.conncheck_list h.0 k.0, All-both more h.1 k.1)

-- For pairs at distinct addresses and with priorities that are not 0: a tick stops the timer only when no
-- pair of any stream is frozen, waiting or in progress.
pub conn_check_tick-IsDone :
    (env : Environment) (agent : NiceAgent)
    → All IsFresh (shapes agent.streams)
    → (conn_check_tick env agent).0 ≡ false
    → All (λ s. All IsDone s.conncheck_list) (conn_check_tick env agent).1.streams
unfolding conn_check_tick
conn_check_tick-IsDone env agent f h =
    let begun = begin_tick env agent in
    let ticked = tick_streams env begun.1.context begun.1.streams in
    let parts =
      or_false begun.0 ticked.0 (sym (end_tick-flag (begun.0 || ticked.0) ticked.1 ticked.2) ∙ h) in
    let first = begin_tick-Advances env agent f in
    let second =
      tick_streams_lem env begun.1.context begun.1.streams (subst (All IsFresh) (sym first.0) f) in
    let idle =
      total_work-NoPending ticked.2
        (omega (arith, begin_tick-idle env agent f parts.0, first.1, second.1)) in
    end_tick-All IsDone prune_pair-IsDone (begun.0 || ticked.0) ticked.1 ticked.2
      (All-both ticked.2 idle (tick_streams-NoneActive env begun.1.context begun.1.streams parts.1))
