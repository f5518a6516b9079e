-- ===== src/Agent/Checks/CheckList/Sorted.antt =====
-- The order of a check list: the highest priority stands first.
use libnice4android.Prelude.{
  ℕ, ◌+◌, ◌≤◌, true, false, not, ◌&&◌, Option, none, some, List, [], ◌∷◌, ltb, leb, if◌then◌else◌,
  ◌≡◌, arith, All, All-mono, In, here, there, inl, inr, Bool-cases,
}
use libnice4android.Agent.Checks.{waiting, cancelled, is, CheckPair}
use libnice4android.Agent.Checks.CheckList.{
  find_next_waiting, comes_before, insert_sorted, limit_loop,
}

abbrev pub IsSorted : List CheckPair → Type 0
IsSorted [] = Unit
IsSorted (p ∷ more) = All (λ q. q.priority ≤ p.priority) more × IsSorted more

pub All-insert_sorted {κ} :
    (P : CheckPair → Type κ) (pairs : List CheckPair) (pair : CheckPair)
    → All P pairs
    → P pair
    → All P (insert_sorted pairs pair)
unfolding insert_sorted
All-insert_sorted P [] pair h k = (k, tt)
All-insert_sorted P (p ∷ more) pair h k = elim (Bool-cases (comes_before pair p)) [
  | inl e ↦ rw e (k, h)
  | inr e ↦ rw e (h.0, All-insert_sorted P more pair h.1 k)
]

pub insert_sorted-IsSorted :
    (pairs : List CheckPair) (pair : CheckPair)
    → IsSorted pairs
    → IsSorted (insert_sorted pairs pair)
unfolding insert_sorted comes_before
insert_sorted-IsSorted [] pair h = (tt, tt)
insert_sorted-IsSorted (p ∷ more) pair h = elim (Bool-cases (leb p.priority pair.priority)) [
  | inl e ↦ rw e ((ground arith, All-mono _ _ more (λ q k. ground arith) h.0), h)
  | inr e ↦ rw e (
    All-insert_sorted (λ q. q.priority ≤ p.priority) more pair h.0 (ground arith),
    insert_sorted-IsSorted more pair h.1,
  )
]

-- What `limit_loop` leaves alone.
pub All-limit_loop {κ} :
    (P : CheckPair → Type κ) (pairs : List CheckPair) (upper_limit valid : ℕ)
    → ((p : CheckPair) → P p → P (record p { state = cancelled }))
    → All P pairs
    → All P (limit_loop pairs upper_limit valid)
unfolding limit_loop
All-limit_loop P [] upper_limit valid f h = tt
All-limit_loop P (p ∷ more) upper_limit valid f h =
    let live = not (is p.state cancelled) in
    let rest = All-limit_loop P more upper_limit (if live then valid + 1 else valid) f h.1 in
    elim (Bool-cases (live && ltb upper_limit (valid + 1))) [
      | inl e ↦ rw e (f p h.0, rest)
      | inr e ↦ rw e (h.0, rest)
    ]

pub limit_loop-IsSorted :
    (pairs : List CheckPair) (upper_limit valid : ℕ)
    → IsSorted pairs
    → IsSorted (limit_loop pairs upper_limit valid)
unfolding limit_loop
limit_loop-IsSorted [] upper_limit valid h = tt
limit_loop-IsSorted (p ∷ more) upper_limit valid h =
    let live = not (is p.state cancelled) in
    let next = if live then valid + 1 else valid in
    let first =
      All-limit_loop (λ q. q.priority ≤ p.priority) more upper_limit next (λ q k. k) h.0 in
    let rest = limit_loop-IsSorted more upper_limit next h.1 in
    elim (Bool-cases (live && ltb upper_limit (valid + 1))) [
      | inl e ↦ rw e (first, rest)
      | inr e ↦ rw e (first, rest)
    ]

-- What the next check of a list is to be: none if no pair waits, or else a waiting pair of the list
-- such that no waiting pair has a higher priority.
abbrev pub IsNext : List CheckPair → Option CheckPair → Type 0
IsNext pairs none = All (λ q. is q.state waiting ≡ false) pairs
IsNext pairs (some p) =
    In p pairs
    × (is p.state waiting ≡ true)
    × All (λ q. is q.state waiting ≡ true → q.priority ≤ p.priority) pairs

IsNext-skip :
    (p : CheckPair) (more : List CheckPair) (o : Option CheckPair)
    → is p.state waiting ≡ false
    → IsNext more o
    → IsNext (p ∷ more) o
IsNext-skip p more none e h = (e, h)
IsNext-skip p more (some q) e h = (there h.0, h.1, ((λ w. cc), h.2))

-- On a sorted list, `priv_conn_check_find_next_waiting` returns NULL exactly if no pair waits, and else a
-- waiting pair of the list such that no waiting pair of the list has a higher priority.
pub find_next_waiting-IsNext :
    (pairs : List CheckPair) → IsSorted pairs → IsNext pairs (find_next_waiting pairs)
unfolding find_next_waiting
find_next_waiting-IsNext [] h = tt
find_next_waiting-IsNext (p ∷ more) h = elim (Bool-cases (is p.state waiting)) [
  | inl e ↦ rw e (here, e, ((λ w. omega arith), All-mono _ _ more (λ q k w. k) h.0))
  | inr e ↦ rw e (IsNext-skip p more (find_next_waiting more) e (find_next_waiting-IsNext more h.1))
]
