-- ===== src/Agent/Checks/Components/Ready.antt =====
-- When a component becomes READY.
use libnice4android.Prelude.{
  ℕ, true, false, Option, none, some, List, [], ◌∷◌, ◌==◌, ltb, ◌≡◌, ◌↔◌, refl, sym, ◌∙◌, ap, arith,
  Bool-cases, some_injective, inl, inr, ==_iff,
}
use libnice4android.Agent.Checks.{
  ComponentState, ready, Component, Stream, CheckPair, Context, state_changed,
}
use libnice4android.Agent.Checks.CheckList.{count_pairs, prune_pending_checks}
use libnice4android.Agent.Checks.CheckList.Pending.{is_active, is_chosen, prune_pending_checks_lem}
use libnice4android.Agent.Checks.Components.{
  find_component, set_component, same_state, signal_state_change, has_nominated,
  update_state_for_ready,
}

pub find_component-id :
    (components : List Component) (id : ℕ) (c : Component)
    → find_component components id ≡ some c
    → c.id ≡ id
unfolding find_component
find_component-id [] id c h = cc
find_component-id (d ∷ more) id c h = elim (Bool-cases (d.id == id)) [
  | inl e ↦ ground (arith, ap (λ (r : Component). r.id) (some_injective d c (rw e at h)))
  | inr e ↦ find_component-id more id c (rw e at h)
]

pub find_component-set_component :
    (components : List Component) (id : ℕ) (c d : Component)
    → d.id ≡ id
    → find_component components id ≡ some c
    → find_component (set_component components d) id ≡ some d
unfolding find_component set_component
find_component-set_component [] id c d e h = cc
find_component-set_component (x ∷ more) id c d e h =
    ground (arith, find_component-set_component more id c d)

has_nominated-count :
    (pairs : List CheckPair) (id : ℕ)
    → has_nominated pairs id ≡ ltb 0 (count_pairs (is_chosen id) pairs)
unfolding has_nominated count_pairs
has_nominated-count [] id = refl
has_nominated-count (p ∷ more) id = ground (arith, has_nominated-count more id)

-- The state of a component of a list; `none` if it is not there.
abbrev pub state_of : List Component → ℕ → Option ComponentState
state_of components id = elim (find_component components id) [ none ↦ none | some c ↦ some c.state ]

-- A change of the state is signalled.
signal_state_change-eq :
    (agent : Context) (stream : Stream) (id : ℕ) (state : ComponentState) (c : Component)
    → find_component stream.components id ≡ some c
    → same_state c.state state ≡ false
    → signal_state_change agent stream id state ≡ (
      record agent { events = state_changed stream.id id state ∷ agent.events },
      record stream { components = set_component stream.components (record c { state = state }) },
    )
unfolding signal_state_change
signal_state_change-eq agent stream id state c h k = ground arith

pub state_of-signal_state_change :
    (agent : Context) (stream : Stream) (id : ℕ) (state : ComponentState) (c : Component)
    → find_component stream.components id ≡ some c
    → same_state c.state state ≡ false
    → state_of (signal_state_change agent stream id state).1.components id ≡ some state
state_of-signal_state_change agent stream id state c h k =
    rw (signal_state_change-eq agent stream id state c h k) (
      rw
        (
          state_of,
          find_component-set_component stream.components id c (record c { state = state })
              (find_component-id stream.components id c h) h,
        )
        refl)

pub conncheck_list-signal_state_change :
    (agent : Context) (stream : Stream) (id : ℕ) (state : ComponentState)
    → (signal_state_change agent stream id state).1.conncheck_list ≡ stream.conncheck_list
unfolding signal_state_change
conncheck_list-signal_state_change agent stream id state = ground arith

-- A nominated pair of the component in the list, and none of its pairs in progress.
abbrev pub IsConcluded : List CheckPair → ℕ → Type 0
IsConcluded pairs id = (has_nominated pairs id ≡ true) × (count_pairs (is_active id) pairs ≡ 0)

has_nominated-prune :
    (pairs : List CheckPair) (id : ℕ)
    → has_nominated (prune_pending_checks pairs id).1 id ≡ has_nominated pairs id
has_nominated-prune pairs id =
    has_nominated-count (prune_pending_checks pairs id).1 id
    ∙ ap (λ (n : ℕ). ltb 0 n) (prune_pending_checks_lem pairs id).2
    ∙ sym (has_nominated-count pairs id)

module _ (agent : Context) (stream : Stream) (id : ℕ) (c : Component)
    (found : find_component stream.components id ≡ some c) where
  state_of-found : state_of stream.components id ≡ some c.state
  state_of-found = rw (state_of, found) refl

  not_ready : same_state c.state ready ≡ false → state_of stream.components id ≡ some ready → ⊥
  not_ready other e =
      let same = some_injective c.state ready (sym state_of-found ∙ e) in
      cc (ap (λ (s : ComponentState). same_state s ready) same)

  -- For a component of the stream that is not READY, it is READY after
  -- `priv_update_check_list_state_for_ready` exactly if, in the check list that is left, it has a nominated
  -- pair that is SUCCEEDED or DISCOVERED and has no pair in progress.
  pub update_state_for_ready-IsConcluded :
      same_state c.state ready ≡ false
      → (state_of (update_state_for_ready agent stream id).1.components id ≡ some ready)
        ↔ IsConcluded (update_state_for_ready agent stream id).1.conncheck_list id
  unfolding update_state_for_ready
  update_state_for_ready-IsConcluded other =
      let pruned = prune_pending_checks stream.conncheck_list id in
      let stream1 = record stream { conncheck_list = pruned.1 } in
      let kept = prune_pending_checks_lem stream.conncheck_list id in
      elim (Bool-cases (has_nominated stream.conncheck_list id)) [
        | inl nominated ↦ elim (Bool-cases (pruned.0 == 0)) [
          | inl done ↦
              rw (nominated, done)
                (
                  (λ e.
                      let same = conncheck_list-signal_state_change agent stream1 id ready in
                      (
                        ap (λ (l : List CheckPair). has_nominated l id) same
                            ∙ has_nominated-prune stream.conncheck_list id
                            ∙ nominated,
                        ap (λ (l : List CheckPair). count_pairs (is_active id) l) same
                            ∙ sym kept.1
                            ∙ (==_iff pruned.0 0).0 done,
                      )),
                  (λ e. state_of-signal_state_change agent stream1 id ready c found other),
                )
          | inr more ↦
              rw (nominated, more)
                (
                  (λ e. absurd (not_ready other e)),
                  (λ e. absurd (cc ((==_iff pruned.0 0).1 (kept.1 ∙ e.1)))),
                )
        ]
        | inr none_yet ↦ rw none_yet ((λ e. absurd (not_ready other e)), (λ e. cc))
      ]
