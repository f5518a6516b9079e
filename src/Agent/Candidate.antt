-- ===== src/Agent/Candidate.antt =====
-- agent/candidate.c: the priorities of candidates and of candidate pairs. `guint` has 32 bits.
pub mod Priority
pub mod Pairs
use libnice4android.Prelude.{
  ℕ, ◌+◌, ◌-◌, ◌*◌, ◌/◌, ◌%◌, ◌^◌, Bool, true, false, not, ◌&&◌, ◌||◌, ltb, ◌==◌, if◌then◌else◌,
}

-- The fields of a `NiceCandidate` that its priority depends on. The two enums are the numbers that C
-- keeps, since the code compares one of them with a constant that is no member of it.
pub record Candidate : Type 0 where
  pub type : ℕ
  pub transport : ℕ
  pub component_id : ℕ

-- `NiceCandidateType`
abbrev pub host : ℕ
host = 0

abbrev pub server_reflexive : ℕ
server_reflexive = 1

abbrev pub peer_reflexive : ℕ
peer_reflexive = 2

abbrev pub relayed : ℕ
relayed = 3

-- `NiceCandidateTransport`
abbrev pub udp : ℕ
udp = 0

abbrev pub tcp_active : ℕ
tcp_active = 1

abbrev pub tcp_passive : ℕ
tcp_passive = 2

abbrev pub tcp_so : ℕ
tcp_so = 3

-- NICE_CANDIDATE_TYPE_PREF_NAT_ASSISTED
abbrev pub pref_nat_assisted : ℕ
pref_nat_assisted = 105

unfoldable pub jingle_priority : Candidate → ℕ
jingle_priority c =
    if c.type == host
    then 1000
    else (if c.type == server_reflexive
        then 900
        else (if c.type == peer_reflexive then 900 else (if c.type == relayed then 500 else 0)))

unfoldable pub msn_priority : Candidate → ℕ
msn_priority c =
    if c.type == host
    then 830
    else (if c.type == server_reflexive
        then 550
        else (if c.type == peer_reflexive then 550 else (if c.type == relayed then 450 else 0)))

unfoldable pub ice_priority_full : ℕ → ℕ → ℕ → ℕ
ice_priority_full type_preference local_preference component_id =
    (0x1000000 * type_preference + 0x100 * local_preference + (2 ^ 32 + 0x100 - component_id))
    % 2 ^ 32

unfoldable pub ice_local_preference_full : ℕ → ℕ → ℕ
ice_local_preference_full direction_preference other_preference =
    (0x2000 * direction_preference + other_preference) % 2 ^ 32

is_reflexive : Candidate → Bool
is_reflexive c = c.type == server_reflexive || c.type == pref_nat_assisted

unfoldable pub ice_local_preference : Candidate → ℕ
unfolding ice_local_preference_full is_reflexive
ice_local_preference c =
    if c.transport == tcp_active
    then ice_local_preference_full (if is_reflexive c then 4 else 6) 1 % 2 ^ 16
    else (if c.transport == tcp_passive
        then ice_local_preference_full (if is_reflexive c then 2 else 4) 1 % 2 ^ 16
        else (if c.transport == tcp_so
            then ice_local_preference_full (if is_reflexive c then 6 else 2) 1 % 2 ^ 16
            else 1))

unfoldable pub ms_ice_local_preference_full : ℕ → ℕ → ℕ → ℕ
ms_ice_local_preference_full transport_preference direction_preference other_preference =
    (0x1000 * transport_preference + 0x200 * direction_preference + 0x1 * other_preference) % 2 ^ 32

unfoldable pub ms_ice_local_preference : Candidate → ℕ
unfolding ms_ice_local_preference_full
ms_ice_local_preference c =
    if c.transport == tcp_so || c.transport == tcp_active
    then ms_ice_local_preference_full 6 5 0
    else (if c.transport == tcp_passive
        then ms_ice_local_preference_full 6 2 0
        else ms_ice_local_preference_full 15 0 0)

preference_of_type : ℕ → Bool → ℕ
preference_of_type type nat_assisted =
    if type == host
    then 120
    else (if type == peer_reflexive
        then 110
        else (if type == server_reflexive
            then (if nat_assisted then pref_nat_assisted else 100)
            else (if type == relayed then 10 else 0)))

unfoldable pub ice_type_preference : Candidate → Bool → Bool → ℕ
unfolding preference_of_type
ice_type_preference c reliable nat_assisted =
    let preference = preference_of_type c.type nat_assisted in
    if reliable && c.transport == udp || not reliable && not (c.transport == udp)
    then preference / 2
    else preference

unfoldable pub ice_priority : Candidate → Bool → Bool → ℕ
ice_priority c reliable nat_assisted =
    ice_priority_full (ice_type_preference c reliable nat_assisted) (ice_local_preference c)
      c.component_id

-- The local preference goes through a `guint16`.
unfoldable pub ms_ice_priority : Candidate → Bool → Bool → ℕ
ms_ice_priority c reliable nat_assisted =
    ice_priority_full (ice_type_preference c reliable nat_assisted)
      (ms_ice_local_preference c % 2 ^ 16) c.component_id

-- `2 * max` is a product of 32 bits; the rest of the sum has 64.
unfoldable pub pair_priority : ℕ → ℕ → ℕ
pair_priority o_prio a_prio =
    let max = if ltb a_prio o_prio then o_prio else a_prio in
    let min = if ltb o_prio a_prio then o_prio else a_prio in
    (2 ^ 32 * min + 2 * max % 2 ^ 32 + (if ltb a_prio o_prio then 1 else 0)) % 2 ^ 64
