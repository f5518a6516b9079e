-- ===== src/Agent/Checks/Schedule/Advance.antt =====
-- What a tick does to the work of all streams.
use libnice4android.Prelude.{
  ℕ, ◌+◌, ◌≤◌, Bool, true, false, none, some, List, [], ◌∷◌, if◌then◌else◌, ◌≡◌, refl, ap, ap₂,
  arith, Bool-cases, Option-cases, inl, inr, All,
}
use libnice4android.Agent.Checks.{waiting, Stream, CheckPair, Context, NiceAgent, Environment}
use libnice4android.Agent.Checks.CheckList.{find_next_waiting, set_pair}
use libnice4android.Agent.Checks.Schedule.Send.{initiate}
use libnice4android.Agent.Checks.Schedule.Unfreeze.{max_frozen, unfreeze_next}
use libnice4android.Agent.Checks.Schedule.Tick.{
  initiate_next, begin_tick, tick_stream, tick_streams,
}
use libnice4android.Agent.Checks.Schedule.Started.{work-initiate, shape-initiate}
use libnice4android.Agent.Checks.Schedule.Kept.{tick_stream_lem}
use libnice4android.Agent.Checks.Schedule.Progress.{
  work, total_work, shape, IsFresh, weight-waiting, weight-frozen, find_pair-In, work-set_pair,
  shape-set_pair, find_next_waiting-In, max_frozen-In, work_over,
}

abbrev pub shapes : List Stream → List (List (ℕ × ℕ))
shapes [] = []
shapes (s ∷ more) = shape s.conncheck_list ∷ shapes more

-- The pairs stay the same but for their states, and the work falls if something was done.
abbrev pub Advances : List Stream → Bool → List Stream → Type 0
Advances before done after =
    (shapes after ≡ shapes before)
    × (total_work after + (if done then 1 else 0) ≤ total_work before)

-- One stream changes at the head of the list, or the rest does.
Advances-head :
    (s t : Stream) (more : List Stream)
    → shape t.conncheck_list ≡ shape s.conncheck_list
    → work t.conncheck_list + 1 ≤ work s.conncheck_list
    → Advances (s ∷ more) true (t ∷ more)
Advances-head s t more e h = (ap (λ (l : List (ℕ × ℕ)). l ∷ shapes more) e, omega arith)

Advances-tail :
    (s : Stream) (more after : List Stream) (done : Bool)
    → Advances more done after
    → Advances (s ∷ more) done (s ∷ after)
Advances-tail s more after done h =
    (ap (λ (l : List (List (ℕ × ℕ))). shape s.conncheck_list ∷ l) h.0, omega (arith, h.1))

module _ (stream : Stream) (more : List Stream) where
  unfreeze_next-some :
      (p : CheckPair)
      → max_frozen stream.conncheck_list 0 none ≡ some p
      → unfreeze_next (stream ∷ more) ≡ (
        true,
        record stream {
          conncheck_list = set_pair stream.conncheck_list (record p { state = waiting });
        }
            ∷ more,
      )
  unfolding unfreeze_next
  unfreeze_next-some p e = ground arith

  unfreeze_next-none :
      max_frozen stream.conncheck_list 0 none ≡ none
      → unfreeze_next (stream ∷ more) ≡ ((unfreeze_next more).0, stream ∷ (unfreeze_next more).1)
  unfolding unfreeze_next
  unfreeze_next-none e = ground arith

  initiate_next-some :
      (env : Environment) (agent : Context) (p : CheckPair)
      → find_next_waiting stream.conncheck_list ≡ some p
      → initiate_next env agent (stream ∷ more)
        ≡ (true, (initiate env agent stream p).0, (initiate env agent stream p).1 ∷ more)
  unfolding initiate_next
  initiate_next-some env agent p e = ground arith

  initiate_next-none :
      (env : Environment) (agent : Context)
      → find_next_waiting stream.conncheck_list ≡ none
      → initiate_next env agent (stream ∷ more) ≡ (
        (initiate_next env agent more).0,
        (initiate_next env agent more).1,
        stream ∷ (initiate_next env agent more).2,
      )
  unfolding initiate_next
  initiate_next-none env agent e = ground arith

pub unfreeze_next-Advances :
    (streams : List Stream)
    → All IsFresh (shapes streams)
    → Advances streams (unfreeze_next streams).0 (unfreeze_next streams).1
unfreeze_next-Advances [] f = unfold unfreeze_next in (refl, omega arith)
unfreeze_next-Advances (s ∷ more) f = elim (Option-cases (max_frozen s.conncheck_list 0 none)) [
  | inl e ↦
      rw (unfreeze_next-none s more e) (Advances-tail s more _ _ (unfreeze_next-Advances more f.1))
  | inr (p, e) ↦
      let frozen = max_frozen-In s.conncheck_list p e in
      let at = find_pair-In s.conncheck_list p frozen.0 f.0 in
      let woken = record p { state = waiting } in
      rw (unfreeze_next-some s more p e) (
        Advances-head s (record s { conncheck_list = set_pair s.conncheck_list woken }) more
          (shape-set_pair p woken s.conncheck_list at refl)
          (omega
            (arith, work-set_pair p woken s.conncheck_list at, weight-frozen p.state frozen.1)))
]

pub initiate_next-Advances :
    (env : Environment) (agent : Context) (streams : List Stream)
    → All IsFresh (shapes streams)
    → Advances streams (initiate_next env agent streams).0 (initiate_next env agent streams).2
initiate_next-Advances env agent [] f = unfold initiate_next in (refl, omega arith)
initiate_next-Advances env agent (s ∷ more) f =
    elim (Option-cases (find_next_waiting s.conncheck_list)) [
      | inl e ↦
          rw (initiate_next-none s more env agent e)
            (Advances-tail s more _ _ (initiate_next-Advances env agent more f.1))
      | inr (p, e) ↦
          let first = find_next_waiting-In s.conncheck_list p e in
          let at = find_pair-In s.conncheck_list p first.0 f.0 in
          rw (initiate_next-some s more env agent p e) (
            Advances-head s (initiate env agent s p).1 more (shape-initiate env agent s p p at refl)
              (omega
                (arith, work-initiate env agent s p p at refl, weight-waiting p.state first.1)))
    ]

-- Nothing to unfreeze and nothing to check, in any stream.
unfreeze_next-idle :
    (streams : List Stream)
    → (unfreeze_next streams).0 ≡ false
    → All (λ s. max_frozen s.conncheck_list 0 none ≡ none) streams
unfreeze_next-idle [] h = tt
unfreeze_next-idle (s ∷ more) h = elim (Option-cases (max_frozen s.conncheck_list 0 none)) [
  | inl e ↦ (e, unfreeze_next-idle more (rw (unfreeze_next-none s more e) at h))
  | inr (p, e) ↦ absurd (cc (rw (unfreeze_next-some s more p e) at h))
]

initiate_next-idle :
    (env : Environment) (agent : Context) (streams : List Stream)
    → (initiate_next env agent streams).0 ≡ false
    → All (λ s. find_next_waiting s.conncheck_list ≡ none) streams
initiate_next-idle env agent [] h = tt
initiate_next-idle env agent (s ∷ more) h =
    elim (Option-cases (find_next_waiting s.conncheck_list)) [
      | inl e ↦
          (e, initiate_next-idle env agent more (rw (initiate_next-none s more env agent e) at h))
      | inr (p, e) ↦ absurd (cc (rw (initiate_next-some s more env agent p e) at h))
    ]

total_work_over :
    (streams : List Stream)
    → All IsFresh (shapes streams)
    → All (λ s. max_frozen s.conncheck_list 0 none ≡ none) streams
    → All (λ s. find_next_waiting s.conncheck_list ≡ none) streams
    → total_work streams ≡ 0
total_work_over [] f h k = refl
total_work_over (s ∷ more) f h k =
    omega (arith, work_over s.conncheck_list f.0 h.0 k.0, total_work_over more f.1 h.1 k.1)

module _ (env : Environment) (agent : NiceAgent) (f : All IsFresh (shapes agent.streams)) where
  pub begin_tick-Advances :
      Advances agent.streams (begin_tick env agent).0 (begin_tick env agent).1.streams
  unfolding begin_tick
  begin_tick-Advances = elim (Bool-cases (initiate_next env agent.context agent.streams).0) [
    | inl e ↦
        let start = initiate_next-Advances env agent.context agent.streams f in rw e (rw e at start)
    | inr e ↦ rw e (unfreeze_next-Advances agent.streams f)
  ]

  -- A tick that begins with nothing to do finds no work.
  pub begin_tick-idle : (begin_tick env agent).0 ≡ false → total_work agent.streams ≡ 0
  unfolding begin_tick
  begin_tick-idle h = elim (Bool-cases (initiate_next env agent.context agent.streams).0) [
    | inl e ↦ absurd (cc (rw e at h))
    | inr e ↦
        total_work_over agent.streams f (unfreeze_next-idle agent.streams (rw e at h))
          (initiate_next-idle env agent.context agent.streams e)
  ]

pub tick_streams_lem :
    (env : Environment) (agent : Context) (streams : List Stream)
    → All IsFresh (shapes streams)
    → Advances streams false (tick_streams env agent streams).2
unfolding tick_streams
tick_streams_lem env agent [] f = (refl, omega arith)
tick_streams_lem env agent (s ∷ more) f =
    let first = tick_stream_lem env agent s f.0 in
    let rest = tick_streams_lem env (tick_stream env agent s).1 more f.1 in
    (
      ap₂ (λ (a : List (ℕ × ℕ)) (b : List (List (ℕ × ℕ))). a ∷ b) first.1 rest.0,
      omega (arith, first.0, rest.1),
    )
