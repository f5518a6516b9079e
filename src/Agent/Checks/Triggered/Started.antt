-- ===== src/Agent/Checks/Triggered/Started.antt =====
-- Which pairs an incoming check puts in progress.
use libnice4android.Prelude.{
  ℕ, Bool, true, ◌||◌, Option, none, some, List, [], ◌∷◌, ◌≡◌, refl, ap, sym, ◌∙◌, arith,
  Bool-cases, inl, inr, In, here, there, some_injective,
}
use mathlib.Core.Path.{subst}
use libnice4android.Agent.Checks.{
  CheckState, waiting, frozen, failed, in_progress, succeeded, cancelled, discovered, is, CheckPair,
  NiceCandidate, Component, Stream, Context, Environment,
}
use libnice4android.Agent.Checks.CheckList.{find_pair, set_pair}
use libnice4android.Agent.Checks.Schedule.Send.{initiate}
use libnice4android.Agent.Checks.Schedule.Started.{initiate-IsStarted}
use libnice4android.Agent.Checks.Schedule.Progress.{shape, IsFresh, find_pair-In}
use libnice4android.Agent.Checks.Triggered.{
  is_triggered, find_triggered, retrigger_as, trigger, schedule_triggered_check,
}

find_triggered-In :
    (pairs : List CheckPair) (id local_socket remote : ℕ) (p : CheckPair)
    → find_triggered pairs id local_socket remote ≡ some p
    → In p pairs
unfolding find_triggered
find_triggered-In [] id local_socket remote p h = cc
find_triggered-In (x ∷ more) id local_socket remote p h =
    elim (Bool-cases (is_triggered id local_socket remote x)) [
      | inl e ↦ subst (λ r. In r (x ∷ more)) (some_injective x p (rw e at h)) here
      | inr e ↦ there (find_triggered-In more id local_socket remote p (rw e at h))
    ]

find_pair-set_pair :
    (pairs : List CheckPair) (p q : CheckPair)
    → find_pair pairs q.address ≡ some p
    → find_pair (set_pair pairs q) q.address ≡ some q
unfolding find_pair set_pair
find_pair-set_pair [] p q h = cc
find_pair-set_pair (x ∷ more) p q h = ground (arith, find_pair-set_pair more p q)

-- The state of a pair of the list; `none` if it is not there.
abbrev pub state_at : List CheckPair → ℕ → Option CheckState
state_at pairs address = elim (find_pair pairs address) [ none ↦ none | some p ↦ some p.state ]

initiate-state_at :
    (env : Environment) (agent : Context) (stream : Stream) (p q : CheckPair)
    → find_pair stream.conncheck_list p.address ≡ some q
    → state_at (initiate env agent stream p).1.conncheck_list p.address ≡ some in_progress
initiate-state_at env agent stream p q h =
    let s = initiate-IsStarted env agent stream p in
    let at = ap (λ (a : ℕ). find_pair stream.conncheck_list a) s.address_eq ∙ h in
    ap (λ (l : List CheckPair). state_at l p.address) s.result_eq
    ∙ ap (λ (a : ℕ). state_at (set_pair stream.conncheck_list s.started) a) (sym s.address_eq)
    ∙ rw (state_at, find_pair-set_pair stream.conncheck_list q s.started at)
        (ap (λ (t : CheckState). some t) s.state_eq)

-- The states from which a check is made.
abbrev pub is_retried : CheckState → Bool
is_retried s = is s waiting || is s frozen || is s failed

retrigger_as-state_at :
    (env : Environment) (again : Bool) (agent : Context) (stream : Stream) (p q : CheckPair)
    (s : CheckState)
    → find_pair stream.conncheck_list p.address ≡ some q
    → is_retried s ≡ true
    → state_at (retrigger_as env again agent stream p s).1.conncheck_list p.address
      ≡ some in_progress
unfolding retrigger_as
retrigger_as-state_at env again agent stream p q waiting h e =
    initiate-state_at env agent stream p q h
retrigger_as-state_at env again agent stream p q frozen h e =
    initiate-state_at env agent stream p q h
retrigger_as-state_at env again agent stream p q failed h e =
    initiate-state_at env agent stream p q h
retrigger_as-state_at env again agent stream p q in_progress h e = cc
retrigger_as-state_at env again agent stream p q succeeded h e = cc
retrigger_as-state_at env again agent stream p q discovered h e = cc
retrigger_as-state_at env again agent stream p q cancelled h e = cc

-- For pairs at distinct addresses and with priorities that are not 0: if the first pair of an incoming
-- check (of its component, its remote candidate and its socket) waits, is frozen or failed, then
-- `priv_schedule_triggered_check` returns TRUE and this pair is IN_PROGRESS.
pub schedule_triggered_check-state_at :
    (env : Environment) (agent : Context) (stream : Stream) (c : Component) (local_socket : ℕ)
    (remote_cand : NiceCandidate) (use_candidate : Bool) (p : CheckPair)
    → IsFresh (shape stream.conncheck_list)
    → find_triggered stream.conncheck_list c.id local_socket remote_cand.address ≡ some p
    → is_retried p.state ≡ true
    → ((schedule_triggered_check env agent stream c local_socket remote_cand use_candidate).0
        ≡ true)
      × (state_at
            (schedule_triggered_check env agent stream c local_socket remote_cand
              use_candidate).2.conncheck_list
            p.address
          ≡ some in_progress)
unfolding schedule_triggered_check
schedule_triggered_check-state_at env agent stream c local_socket remote_cand use_candidate p f h
      e =
    let at =
      find_pair-In stream.conncheck_list p
        (find_triggered-In stream.conncheck_list c.id local_socket remote_cand.address p h) f in
    rw h (unfold trigger in (refl, retrigger_as-state_at env _ agent stream p p p.state at e))
