-- ===== src/Agent/Candidate/Priority.antt =====
-- Bounds and order of candidate priorities.
use libnice4android.Prelude.{
  ℕ, ◌+◌, ◌-◌, ◌*◌, ◌%◌, ◌^◌, ◌≤◌, ◌<◌, ◌≡◌, arith, Bool, true, false, not, ◌==◌,
}
use libnice4android.Agent.Candidate.{
  Candidate, ice_priority_full, ice_local_preference, ms_ice_local_preference, ice_type_preference,
  ice_priority, ms_ice_priority, udp,
}

-- The preferences are in the ranges that `nice_candidate_ice_priority_full` states.
local_range : (c : Candidate) → (1 ≤ ice_local_preference c) × (ice_local_preference c < 2 ^ 16)
unfolding ice_local_preference
local_range c = ground arith

ms_local_range :
    (c : Candidate) → (1 ≤ ms_ice_local_preference c) × (ms_ice_local_preference c < 2 ^ 16)
unfolding ms_ice_local_preference
ms_local_range c = ground arith

type_range : (c : Candidate) (reliable nat : Bool) → ice_type_preference c reliable nat ≤ 120
unfolding ice_type_preference
type_range c reliable nat = ground arith

-- A component number from 1 to 256.
abbrev pub IsComponent : Candidate → Type 0
IsComponent c = (1 ≤ c.component_id) × (c.component_id ≤ 256)

full_sum :
    (t l k : ℕ)
    → t ≤ 126
    → l < 2 ^ 16
    → 1 ≤ k
    → k ≤ 256
    → ice_priority_full t l k ≡ 0x1000000 * t + 0x100 * l + (256 - k)
unfolding ice_priority_full
full_sum t l k ht hl h1 h2 = omega arith

-- Both priorities of a candidate with a component number from 1 to 256 are between 1 and 0x7effffff,
-- the bounds that the source states.
pub priority_bounds :
    (c : Candidate) (reliable nat : Bool)
    → IsComponent c
    → (1 ≤ ice_priority c reliable nat)
      × (ice_priority c reliable nat ≤ 0x7effffff)
      × (1 ≤ ms_ice_priority c reliable nat)
      × (ms_ice_priority c reliable nat ≤ 0x7effffff)
unfolding ice_priority ms_ice_priority
priority_bounds c reliable nat k = omega (
  arith,
  local_range c,
  ms_local_range c,
  type_range c reliable nat,
  full_sum (ice_type_preference c reliable nat) (ice_local_preference c) c.component_id,
  full_sum (ice_type_preference c reliable nat) (ms_ice_local_preference c % 2 ^ 16) c.component_id,
)

-- The type preference comes first: of two candidates with component numbers from 1 to 256, the
-- one of the higher type preference has the higher priority, in both schemes, whatever the
-- transports and components.
pub priority_order :
    (c d : Candidate) (reliable nat : Bool)
    → IsComponent c
    → IsComponent d
    → ice_type_preference c reliable nat < ice_type_preference d reliable nat
    → (ice_priority c reliable nat < ice_priority d reliable nat)
      × (ms_ice_priority c reliable nat < ms_ice_priority d reliable nat)
unfolding ice_priority ms_ice_priority
priority_order c d reliable nat k j h = omega (
  arith,
  local_range c,
  ms_local_range c,
  type_range c reliable nat,
  full_sum (ice_type_preference c reliable nat) (ice_local_preference c) c.component_id,
  full_sum (ice_type_preference c reliable nat) (ms_ice_local_preference c % 2 ^ 16) c.component_id,
  local_range d,
  ms_local_range d,
  type_range d reliable nat,
  full_sum (ice_type_preference d reliable nat) (ice_local_preference d) d.component_id,
  full_sum (ice_type_preference d reliable nat) (ms_ice_local_preference d % 2 ^ 16) d.component_id,
)

-- Equal priorities come from equal type preferences, local preferences and component numbers, for
-- type preferences up to 126, local preferences below 2^16 and component numbers from 1 to 256.
pub full_injective :
    (t l k t' l' k' : ℕ)
    → t ≤ 126
    → l < 2 ^ 16
    → 1 ≤ k
    → k ≤ 256
    → t' ≤ 126
    → l' < 2 ^ 16
    → 1 ≤ k'
    → k' ≤ 256
    → ice_priority_full t l k ≡ ice_priority_full t' l' k'
    → (t ≡ t') × (l ≡ l') × (k ≡ k')
full_injective t l k t' l' k' a b c d a' b' c' d' e =
    omega (arith, full_sum t l k a b c d, full_sum t' l' k' a' b' c' d')

halved_preference :
    (c d : Candidate) (reliable nat : Bool)
    → c.type ≡ d.type
    → c.type ≤ 3
    → (c.transport == udp) ≡ reliable
    → (d.transport == udp) ≡ not reliable
    → ice_type_preference c reliable nat < ice_type_preference d reliable nat
unfolding ice_type_preference
halved_preference c d true nat same known hc hd = ground arith
halved_preference c d false nat same known hc hd = ground arith

-- Of two candidates of one of the four types with component numbers from 1 to 256, one over UDP
-- has the higher priority if the stream is unreliable, and one over TCP has it if the stream is
-- reliable.
pub preferred_transport :
    (c d : Candidate) (reliable nat : Bool)
    → IsComponent c
    → IsComponent d
    → c.type ≡ d.type
    → c.type ≤ 3
    → (c.transport == udp) ≡ reliable
    → (d.transport == udp) ≡ not reliable
    → (ice_priority c reliable nat < ice_priority d reliable nat)
      × (ms_ice_priority c reliable nat < ms_ice_priority d reliable nat)
preferred_transport c d reliable nat k j same known hc hd =
    priority_order c d reliable nat k j (halved_preference c d reliable nat same known hc hd)
