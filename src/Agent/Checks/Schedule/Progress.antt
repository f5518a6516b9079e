-- ===== src/Agent/Checks/Schedule/Progress.antt =====
-- The checks that are still to be made, and how an update of one pair changes their number.
use libnice4android.Prelude.{
  ℕ, ◌+◌, ◌<◌, true, false, ◌&&◌, Option, none, some, List, [], ◌∷◌, ◌==◌, ltb, ◌≡◌, ◌≢◌, refl, ap,
  ap₂, sym, ◌∙◌, arith, ◌⊎◌, All, In, here, there, Bool-cases, some_injective, inl, inr, ==_iff,
}
use mathlib.Core.Path.{subst}
use libnice4android.Agent.Checks.{
  CheckState, waiting, in_progress, succeeded, failed, frozen, cancelled, discovered, is, CheckPair,
  Stream,
}
use libnice4android.Agent.Checks.CheckList.{find_next_waiting, find_pair, set_pair}
use libnice4android.Agent.Checks.Schedule.Unfreeze.{max_frozen}

-- A frozen pair is unfrozen and then checked, a waiting one is checked.
abbrev pub weight : CheckState → ℕ
weight frozen = 2
weight waiting = 1
weight in_progress = 0
weight succeeded = 0
weight failed = 0
weight cancelled = 0
weight discovered = 0

abbrev pub work : List CheckPair → ℕ
work [] = 0
work (p ∷ more) = weight p.state + work more

-- The work of all streams.
abbrev pub total_work : List Stream → ℕ
total_work [] = 0
total_work (s ∷ more) = work s.conncheck_list + total_work more

pub weight-waiting : (s : CheckState) → is s waiting ≡ true → weight s ≡ 1
weight-waiting waiting h = refl
weight-waiting frozen h = cc
weight-waiting in_progress h = cc
weight-waiting succeeded h = cc
weight-waiting failed h = cc
weight-waiting cancelled h = cc
weight-waiting discovered h = cc

pub weight-frozen : (s : CheckState) → is s frozen ≡ true → weight s ≡ 2
weight-frozen frozen h = refl
weight-frozen waiting h = cc
weight-frozen in_progress h = cc
weight-frozen succeeded h = cc
weight-frozen failed h = cc
weight-frozen cancelled h = cc
weight-frozen discovered h = cc

pub weight_none : (s : CheckState) → is s frozen ≡ false → is s waiting ≡ false → weight s ≡ 0
weight_none frozen h k = cc
weight_none waiting h k = cc
weight_none in_progress h k = refl
weight_none succeeded h k = refl
weight_none failed h k = refl
weight_none cancelled h k = refl
weight_none discovered h k = refl

-- The address and the priority of each pair, which stay as they are while checks are made.
abbrev pub shape : List CheckPair → List (ℕ × ℕ)
shape [] = []
shape (p ∷ more) = (p.address, p.priority) ∷ shape more

-- Distinct addresses, and priorities that are not 0.
abbrev pub IsFresh : List (ℕ × ℕ) → Type 0
IsFresh [] = Unit
IsFresh (x ∷ more) = All (λ y. (x.0 == y.0) ≡ false) more × (0 < x.1) × IsFresh more

not_first :
    (x : ℕ × ℕ) (p : CheckPair) (pairs : List CheckPair)
    → In p pairs
    → All (λ y. (x.0 == y.0) ≡ false) (shape pairs)
    → (x.0 == p.address) ≡ false
not_first x p [] i h = elim i [ ]
not_first x p (q ∷ more) here h = h.0
not_first x p (q ∷ more) (there i) h = not_first x p more i h.1

pub find_pair-In :
    (pairs : List CheckPair) (p : CheckPair)
    → In p pairs
    → IsFresh (shape pairs)
    → find_pair pairs p.address ≡ some p
unfolding find_pair
find_pair-In [] p i h = elim i [ ]
find_pair-In (q ∷ more) p here h = ground arith
find_pair-In (q ∷ more) p (there i) h =
    rw (not_first (q.address, q.priority) p more i h.0) (find_pair-In more p i h.2)

module _ (p q : CheckPair) where
  pub work-set_pair :
      (pairs : List CheckPair)
      → find_pair pairs q.address ≡ some p
      → work (set_pair pairs q) + weight p.state ≡ work pairs + weight q.state
  unfolding find_pair set_pair
  work-set_pair [] h = cc
  work-set_pair (x ∷ more) h = elim (Bool-cases (x.address == q.address)) [
    | inl e ↦
        rw e
          (omega (arith, ap (λ (r : CheckPair). weight r.state) (some_injective x p (rw e at h))))
    | inr e ↦ rw e (omega (arith, work-set_pair more (rw e at h)))
  ]

  pub shape-set_pair :
      (pairs : List CheckPair)
      → find_pair pairs q.address ≡ some p
      → q.priority ≡ p.priority
      → shape (set_pair pairs q) ≡ shape pairs
  unfolding find_pair set_pair
  shape-set_pair [] h e = refl
  shape-set_pair (x ∷ more) h k = elim (Bool-cases (x.address == q.address)) [
    | inl e ↦ rw e (
        ap₂ (λ (a b : ℕ). (a, b) ∷ shape more) (sym ((==_iff x.address q.address).0 e))
          (k ∙ ap (λ (r : CheckPair). r.priority) (sym (some_injective x p (rw e at h)))))
    | inr e ↦ rw e (
        ap (λ (ys : List (ℕ × ℕ)). (x.address, x.priority) ∷ ys)
          (shape-set_pair more (rw e at h) k))
  ]

-- Of two stores to one pair the second remains.
pub set_pair-set_pair :
    (pairs : List CheckPair) (p q : CheckPair)
    → p.address ≡ q.address
    → set_pair (set_pair pairs p) q ≡ set_pair pairs q
unfolding set_pair
set_pair-set_pair [] p q h = refl
set_pair-set_pair (x ∷ more) p q h = ground (arith, set_pair-set_pair more p q h)

pub find_next_waiting-In :
    (pairs : List CheckPair) (p : CheckPair)
    → find_next_waiting pairs ≡ some p
    → In p pairs × (is p.state waiting ≡ true)
unfolding find_next_waiting
find_next_waiting-In [] p h = cc
find_next_waiting-In (x ∷ more) p h = elim (Bool-cases (is x.state waiting)) [
  | inl e ↦
      let same = some_injective x p (rw e at h) in
      subst (λ r. In r (x ∷ more) × (is r.state waiting ≡ true)) same (here, e)
  | inr e ↦ let rest = find_next_waiting-In more p (rw e at h) in (there rest.0, rest.1)
]

-- The best pair is the one that the search began with, or a frozen pair of the list.
max_frozen-some :
    (pairs : List CheckPair) (highest : ℕ) (best : Option CheckPair) (p : CheckPair)
    → max_frozen pairs highest best ≡ some p
    → (best ≡ some p) ⊎ (In p pairs × (is p.state frozen ≡ true))
unfolding max_frozen
max_frozen-some [] highest best p h = inl h
max_frozen-some (x ∷ more) highest best p h =
    elim (Bool-cases (is x.state frozen && ltb highest x.priority)) [
      | inl e ↦ elim (max_frozen-some more x.priority (some x) p (rw e at h)) [
        | inl same ↦ inr (
            subst (λ r. In r (x ∷ more) × (is r.state frozen ≡ true)) (some_injective x p same)
              (here, ground arith))
        | inr (i, f) ↦ inr (there i, f)
      ]
      | inr e ↦ elim (max_frozen-some more highest best p (rw e at h)) [
        | inl same ↦ inl same
        | inr (i, f) ↦ inr (there i, f)
      ]
    ]

pub max_frozen-In :
    (pairs : List CheckPair) (p : CheckPair)
    → max_frozen pairs 0 none ≡ some p
    → In p pairs × (is p.state frozen ≡ true)
max_frozen-In pairs p h = elim (max_frozen-some pairs 0 none p h) [ inl e ↦ cc | inr r ↦ r ]

max_frozen-ne-none :
    (pairs : List CheckPair) (highest : ℕ) (p : CheckPair)
    → max_frozen pairs highest (some p) ≢ none
unfolding max_frozen
max_frozen-ne-none [] highest p h = cc
max_frozen-ne-none (x ∷ more) highest p h =
    elim (Bool-cases (is x.state frozen && ltb highest x.priority)) [
      | inl e ↦ max_frozen-ne-none more x.priority x (rw e at h)
      | inr e ↦ max_frozen-ne-none more highest p (rw e at h)
    ]

-- With positive priorities, no pair is left to check when nothing is found to be unfrozen or to be sent.
pub work_over :
    (pairs : List CheckPair)
    → IsFresh (shape pairs)
    → max_frozen pairs 0 none ≡ none
    → find_next_waiting pairs ≡ none
    → work pairs ≡ 0
unfolding max_frozen find_next_waiting
work_over [] f h k = refl
work_over (x ∷ more) f h k = elim (Bool-cases (is x.state frozen && ltb 0 x.priority)) [
  | inl e ↦ absurd (max_frozen-ne-none more x.priority x (rw e at h))
  | inr e ↦ elim (Bool-cases (is x.state waiting)) [
    | inl w ↦ absurd (cc (rw w at k))
    | inr w ↦
        omega
          (arith, weight_none x.state (ground arith) w, work_over more f.2 (rw e at h) (rw w at k))
  ]
]
