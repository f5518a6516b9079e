-- ===== src/Agent/Checks/CheckList/Pending.antt =====
-- What `priv_prune_pending_checks` leaves of a list.
use libnice4android.Prelude.{ℕ, Bool, false, ◌&&◌, ◌||◌, List, [], ◌∷◌, ◌==◌, ◌≡◌, refl, arith, All}
use libnice4android.Agent.Checks.{waiting, in_progress, frozen, is, CheckPair}
use libnice4android.Agent.Checks.CheckList.{
  count_pairs, highest_nominated, prune_pair, is_kept, prune_loop, prune_pending_checks, is_valid,
}

-- In progress, for a component.
abbrev pub is_active : ℕ → CheckPair → Bool
is_active component_id p = p.component_id == component_id && is p.state in_progress

-- A nominated pair of a component, to which the check list agreed.
abbrev pub is_chosen : ℕ → CheckPair → Bool
is_chosen component_id p = p.component_id == component_id && is_valid p && p.nominated

-- Neither frozen nor waiting, if the pair is of the component.
abbrev pub IsSettled : ℕ → CheckPair → Type 0
IsSettled component_id p =
    p.component_id ≡ component_id → (is p.state frozen || is p.state waiting) ≡ false

prune_pair-IsSettled : (c highest : ℕ) (p : CheckPair) → IsSettled c (prune_pair c highest p)
unfolding prune_pair
prune_pair-IsSettled c highest p e = ground arith

prune_pair-is_active :
    (c highest : ℕ) (p : CheckPair) → is_active c (prune_pair c highest p) ≡ is_kept c highest p
unfolding prune_pair is_kept
prune_pair-is_active c highest p = ground arith

prune_pair-is_chosen :
    (c highest : ℕ) (p : CheckPair) → is_chosen c (prune_pair c highest p) ≡ is_chosen c p
unfolding prune_pair
prune_pair-is_chosen c highest p = ground arith

prune_loop_lem :
    (pairs : List CheckPair) (c highest : ℕ)
    → All (IsSettled c) (prune_loop pairs c highest).1
      × ((prune_loop pairs c highest).0 ≡ count_pairs (is_active c) (prune_loop pairs c highest).1)
      × (count_pairs (is_chosen c) (prune_loop pairs c highest).1 ≡ count_pairs (is_chosen c) pairs)
unfolding prune_loop count_pairs
prune_loop_lem [] c highest = (tt, refl, refl)
prune_loop_lem (p ∷ more) c highest =
    let rest = prune_loop_lem more c highest in
    (
      (prune_pair-IsSettled c highest p, rest.0),
      rw (prune_pair-is_active c highest p) (ground (arith, rest)),
      rw (prune_pair-is_chosen c highest p) (ground (arith, rest)),
    )

-- After `priv_prune_pending_checks`, no pair of the component is frozen or waiting, the number that it
-- returns is that of the pairs of the component that are in progress, and as many pairs of the
-- component as before are SUCCEEDED or DISCOVERED and nominated.
pub prune_pending_checks_lem :
    (pairs : List CheckPair) (component_id : ℕ)
    → All (IsSettled component_id) (prune_pending_checks pairs component_id).1
      × ((prune_pending_checks pairs component_id).0
          ≡ count_pairs (is_active component_id) (prune_pending_checks pairs component_id).1)
      × (count_pairs (is_chosen component_id) (prune_pending_checks pairs component_id).1
          ≡ count_pairs (is_chosen component_id) pairs)
unfolding prune_pending_checks
prune_pending_checks_lem pairs component_id =
    prune_loop_lem pairs component_id (highest_nominated pairs component_id 0)
