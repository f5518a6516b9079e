-- ===== src/Agent/Checks/Schedule/Kept.antt =====
-- What a tick does to the list of one stream.
use libnice4android.Prelude.{
  ℕ, ◌≤◌, Bool, true, false, ◌&&◌, ◌||◌, Option, none, some, List, [], ◌∷◌, ◌==◌, ◌≡◌, refl, ap,
  ap₂, sym, ◌∙◌, arith, Bool-cases, some_injective, inl, inr, In, here, there,
}
use mathlib.Core.Path.{subst}
use libnice4android.Stun.Timer
use libnice4android.Stun.Timer.{TimerReturn}
use libnice4android.Agent.Checks.{
  CheckState, frozen, waiting, in_progress, succeeded, failed, discovered, cancelled, is, Component,
  Stream, CheckPair, Context, Environment,
}
use libnice4android.Agent.Checks.CheckList.{is_valid}
use libnice4android.Agent.Checks.Schedule.Started.{work-initiate, shape-initiate}
use libnice4android.Agent.Checks.Schedule.Tick.{
  pair_fail, Ticking, refresh_pair, tick_pair, tick_pairs, find_valid, nominate_pair, nominate,
  nominate_if, lacks_nomination, process_stream, tick_stream,
}
use libnice4android.Agent.Checks.Schedule.Progress.{weight, work, shape, IsFresh, find_pair-In}

-- A pair that keeps its address and priority, and does not come to wait for a check.
pub record IsKept (p q : CheckPair) : Type 0 where
  pub address_eq : q.address ≡ p.address
  pub priority_eq : q.priority ≡ p.priority
  pub weight_le : weight q.state ≤ weight p.state

pair_fail-IsKept :
    (components : List Component) (p : CheckPair) → IsKept p (pair_fail components p).1
unfolding pair_fail
pair_fail-IsKept components p = ground arith

refresh_pair-IsKept : (t : Ticking) (p : CheckPair) (id : List ℕ) → IsKept p (refresh_pair t p id).1
unfolding refresh_pair
refresh_pair-IsKept t p id = ground (
  arith,
  pair_fail-IsKept t.components (record p { timer = (Timer.refresh p.timer t.agent.monotonic).1 }),
)

tick_pair-IsKept : (t : Ticking) (p : CheckPair) → IsKept p (tick_pair t p).1
unfolding tick_pair
tick_pair-IsKept t p = grind (arith, refresh_pair-IsKept)

pub tick_pairs_lem :
    (t : Ticking) (pairs : List CheckPair)
    → (work (tick_pairs t pairs).1 ≤ work pairs) × (shape (tick_pairs t pairs).1 ≡ shape pairs)
unfolding tick_pairs
tick_pairs_lem t [] = (omega arith, refl)
tick_pairs_lem t (p ∷ more) =
    let kept = tick_pair-IsKept t p in
    let rest = tick_pairs_lem (tick_pair t p).0 more in
    (
      omega (arith, kept.weight_le, rest.0),
      ap₂ (λ (a b : ℕ). (a, b) ∷ shape (tick_pairs (tick_pair t p).0 more).1) kept.address_eq
            kept.priority_eq
          ∙ ap (λ (l : List (ℕ × ℕ)). (p.address, p.priority) ∷ l) rest.1,
    )

weight_valid : (s : CheckState) → (is s succeeded || is s discovered) ≡ true → weight s ≡ 0
weight_valid succeeded h = refl
weight_valid discovered h = refl
weight_valid waiting h = cc
weight_valid in_progress h = cc
weight_valid failed h = cc
weight_valid frozen h = cc
weight_valid cancelled h = cc

pub find_valid-In :
    (pairs : List CheckPair) (id : ℕ) (p : CheckPair)
    → find_valid pairs id ≡ some p
    → In p pairs × (is_valid p ≡ true)
unfolding find_valid
find_valid-In [] id p h = cc
find_valid-In (x ∷ more) id p h = elim (Bool-cases (x.component_id == id && is_valid x)) [
  | inl e ↦
      subst (λ r. In r (x ∷ more) × (is_valid r ≡ true)) (some_injective x p (rw e at h))
        (here, ground arith)
  | inr e ↦ let rest = find_valid-In more id p (rw e at h) in (there rest.0, rest.1)
]

-- The nomination starts checks for pairs that are valid, for which no work was left.
nominate_pair_lem :
    (env : Environment) (agent : Context) (stream : Stream) (id : ℕ) (o : Option CheckPair)
    → IsFresh (shape stream.conncheck_list)
    → find_valid stream.conncheck_list id ≡ o
    → (work (nominate_pair env agent stream o).1.conncheck_list ≡ work stream.conncheck_list)
      × (shape (nominate_pair env agent stream o).1.conncheck_list ≡ shape stream.conncheck_list)
unfolding nominate_pair
nominate_pair_lem env agent stream id none f e = (refl, refl)
nominate_pair_lem env agent stream id (some p) f e =
    let valid = find_valid-In stream.conncheck_list id p e in
    let at = find_pair-In stream.conncheck_list p valid.0 f in
    let marked = record p { nominated = true } in
    let less = work-initiate env agent stream marked p at refl in
    (
      omega (arith, less, weight_valid p.state valid.1),
      shape-initiate env agent stream marked p at refl,
    )

pub nominate_lem :
    (env : Environment) (components : List Component) (agent : Context) (stream : Stream)
    → IsFresh (shape stream.conncheck_list)
    → (work (nominate env components agent stream).1.conncheck_list ≡ work stream.conncheck_list)
      × (shape (nominate env components agent stream).1.conncheck_list
          ≡ shape stream.conncheck_list)
unfolding nominate
nominate_lem env [] agent stream f = (refl, refl)
nominate_lem env (c ∷ more) agent stream f =
    let next = nominate_pair env agent stream (find_valid stream.conncheck_list c.id) in
    let first =
      nominate_pair_lem env agent stream c.id (find_valid stream.conncheck_list c.id) f refl in
    let rest = nominate_lem env more next.0 next.1 (subst IsFresh (sym first.1) f) in
    (rest.0 ∙ first.0, rest.1 ∙ first.1)

nominate_if_lem :
    (env : Environment) (needed : Bool) (agent : Context) (stream : Stream)
    → IsFresh (shape stream.conncheck_list)
    → (work (nominate_if env needed agent stream).1.conncheck_list ≡ work stream.conncheck_list)
      × (shape (nominate_if env needed agent stream).1.conncheck_list ≡ shape stream.conncheck_list)
unfolding nominate_if
nominate_if_lem env true agent stream f = nominate_lem env stream.components agent stream f
nominate_if_lem env false agent stream f = (refl, refl)

pub tick_stream_lem :
    (env : Environment) (agent : Context) (stream : Stream)
    → IsFresh (shape stream.conncheck_list)
    → (work (tick_stream env agent stream).2.conncheck_list ≤ work stream.conncheck_list)
      × (shape (tick_stream env agent stream).2.conncheck_list ≡ shape stream.conncheck_list)
unfolding tick_stream process_stream
tick_stream_lem env agent stream f =
    let first =
      tick_pairs_lem
        (record { keep_timer_going = false; agent = agent; components = stream.components })
        stream.conncheck_list in
    let ticked = process_stream agent stream in
    let needed = lacks_nomination ticked.2 && ticked.1.controlling_mode in
    let second = nominate_if_lem env needed ticked.1 ticked.2 (subst IsFresh (sym first.1) f) in
    (omega (arith, first.0, second.0), second.1 ∙ first.1)
