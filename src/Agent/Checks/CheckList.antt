-- ===== src/Agent/Checks/CheckList.antt =====
-- The list of the pairs of a stream, sorted by their priorities.
pub mod Sorted
pub mod Limit
pub mod Pending
use libnice4android.Prelude.{
  ℕ, zero, suc, ◌+◌, ◌-◌, ◌*◌, ◌%◌, ◌^◌, Bool, true, false, not, ◌&&◌, ◌||◌, Option, none, some,
  List, [], ◌∷◌, ltb, leb, ◌==◌, if◌then◌else◌,
}
use libnice4android.Agent.Checks.{
  CheckState, waiting, in_progress, succeeded, failed, frozen, cancelled, discovered, is, CheckPair,
  Context,
}

-- `priv_conn_check_find_next_waiting`
unfoldable pub find_next_waiting : List CheckPair → Option CheckPair
find_next_waiting [] = none
find_next_waiting (p ∷ more) =
    let rest = find_next_waiting more in if is p.state waiting then some p else rest

-- Whether `conn_check_compare (a, b) <= 0`: `a` may stand in front of `b`.
unfoldable pub comes_before : CheckPair → CheckPair → Bool
comes_before a b = leb b.priority a.priority

-- `g_slist_insert_sorted` with `conn_check_compare`: in front of the first pair that may come behind.
unfoldable pub insert_sorted : List CheckPair → CheckPair → List CheckPair
insert_sorted [] pair = pair ∷ []
insert_sorted (p ∷ more) pair =
    let rest = insert_sorted more pair in if comes_before pair p then pair ∷ p ∷ more else p ∷ rest

unfoldable pub prune_cancelled : List CheckPair → List CheckPair
prune_cancelled [] = []
prune_cancelled (pair ∷ more) =
    let rest = prune_cancelled more in if is pair.state cancelled then rest else pair ∷ rest

-- The loop of `priv_limit_conn_check_list_size`; `valid` counts the pairs that are not cancelled.
unfoldable pub limit_loop : List CheckPair → ℕ → ℕ → List CheckPair
limit_loop [] upper_limit valid = []
limit_loop (pair ∷ more) upper_limit valid =
    let live = not (is pair.state cancelled) in
    (if live && ltb upper_limit (valid + 1) then record pair { state = cancelled } else pair)
    ∷ limit_loop more upper_limit (if live then valid + 1 else valid)

unfoldable pub limit_conn_check_list_size : List CheckPair → ℕ → List CheckPair
limit_conn_check_list_size pairs upper_limit = limit_loop pairs upper_limit 0

-- SUCCEEDED or DISCOVERED
abbrev pub is_valid : CheckPair → Bool
is_valid p = is p.state succeeded || is p.state discovered

-- The first loop of `priv_prune_pending_checks`.
unfoldable pub highest_nominated : List CheckPair → ℕ → ℕ → ℕ
highest_nominated [] component_id highest = highest
highest_nominated (p ∷ more) component_id highest = highest_nominated more component_id (
    if p.component_id == component_id && is_valid p && p.nominated && ltb highest p.priority
    then p.priority
    else highest)

-- What the second loop does with one pair.
unfoldable pub prune_pair : ℕ → ℕ → CheckPair → CheckPair
prune_pair component_id highest p =
    if p.component_id == component_id
    then (if is p.state frozen || is p.state waiting
        then record p { state = cancelled }
        else (if is p.state in_progress && not (highest == 0) && ltb p.priority highest
            then record p { stun_message = none; state = cancelled }
            else p))
    else p

-- Whether the pair is kept in progress, and counted.
unfoldable pub is_kept : ℕ → ℕ → CheckPair → Bool
is_kept component_id highest p =
    p.component_id == component_id
    && is p.state in_progress
    && (highest == 0 || leb highest p.priority)

unfoldable pub prune_loop : List CheckPair → ℕ → ℕ → ℕ × List CheckPair
prune_loop [] component_id highest = (0, [])
prune_loop (p ∷ more) component_id highest =
    let rest = prune_loop more component_id highest in
    (
      (if is_kept component_id highest p then suc rest.0 else rest.0),
      prune_pair component_id highest p ∷ rest.1,
    )

-- `priv_prune_pending_checks`: the number of pairs that are kept in progress.
unfoldable pub prune_pending_checks : List CheckPair → ℕ → ℕ × List CheckPair
prune_pending_checks pairs component_id =
    prune_loop pairs component_id (highest_nominated pairs component_id 0)

-- The pairs that `priv_compute_conncheck_timer` counts.
unfoldable pub waiting_and_in_progress : List CheckPair → ℕ
waiting_and_in_progress [] = 0
waiting_and_in_progress (pair ∷ more) =
    (if is pair.state in_progress || is pair.state waiting then 1 else 0)
    + waiting_and_in_progress more

unfoldable pub compute_conncheck_timer : Context → List CheckPair → ℕ
compute_conncheck_timer agent pairs =
    let rto = agent.timer_ta * waiting_and_in_progress pairs % 2 ^ 32 in
    if agent.reliable
    then (if ltb 500 rto then rto else 500)
    else (if ltb 100 rto then rto else 100)

-- An access through a pointer to a pair of the list.
unfoldable pub find_pair : List CheckPair → ℕ → Option CheckPair
find_pair [] address = none
find_pair (p ∷ more) address =
    let rest = find_pair more address in if p.address == address then some p else rest

unfoldable pub set_pair : List CheckPair → CheckPair → List CheckPair
set_pair [] pair = []
set_pair (p ∷ more) pair =
    let rest = set_pair more pair in if p.address == pair.address then pair ∷ more else p ∷ rest

unfoldable pub count_pairs : (CheckPair → Bool) → List CheckPair → ℕ
count_pairs test [] = 0
count_pairs test (p ∷ more) = (if test p then 1 else 0) + count_pairs test more
