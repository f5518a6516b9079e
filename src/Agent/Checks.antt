-- ===== src/Agent/Checks.antt =====
-- agent/conncheck.c, with the structures of conncheck.h, component.h, stream.h and candidate.h that it
-- works on: the check lists of an ICE agent. Each group of operations is in a child module.
pub mod CheckList
pub mod Components
pub mod Schedule
pub mod Pairs
pub mod Triggered
pub mod Replies
pub mod Usernames
mod Tests
use libnice4android.Prelude.{ℕ, Bool, Option, List, ◌==◌}
use libnice4android.Stun.Timer.{Timeval, Timer}
use libnice4android.Stun.Agent.{SavedId}
use libnice4android.Agent.Address.{Address}
use libnice4android.Agent.Candidate.{Candidate}

-- `NiceCheckState`
pub data CheckState : Type 0 where
  waiting in_progress succeeded failed frozen cancelled discovered : CheckState

-- `NiceComponentState`
pub data ComponentState : Type 0 where
  disconnected gathering connecting connected ready failed : ComponentState

-- `NiceCompatibility`; draft 19 is rfc5245.
pub data Compatibility : Type 0 where
  rfc5245 google msn wlm2009 oc2007 oc2007r2 : Compatibility

-- The numbers of `NiceCheckState`; the code compares two states by them.
abbrev pub number : CheckState → ℕ
number waiting = 1
number in_progress = 2
number succeeded = 3
number failed = 4
number frozen = 5
number cancelled = 6
number discovered = 7

abbrev pub is : CheckState → CheckState → Bool
is s t = number s == number t

-- `NiceCandidate`, with its address in memory; `info` is what the priorities depend on. The foundation
-- is the text before its 0, and a socket is known by a number.
pub record NiceCandidate : Type 0 where
  pub address : ℕ
  pub info : Candidate
  pub addr : Address
  pub priority : ℕ
  pub foundation : List ℕ
  pub sockptr : ℕ

-- `CandidateCheckPair`, with its address in memory. Of the STUN message and its buffer the transaction
-- id is kept, `none` when the pointer to the buffer is NULL.
pub record CheckPair : Type 0 where
  pub address : ℕ
  pub stream_id : ℕ
  pub component_id : ℕ
  pub local : NiceCandidate
  pub remote : NiceCandidate
  pub sockptr : ℕ
  pub foundation : List ℕ
  pub state : CheckState
  pub nominated : Bool
  pub controlling : Bool
  pub timer_restarted : Bool
  pub priority : ℕ
  pub next_tick : Timeval
  pub timer : Timer
  pub stun_message : Option (List ℕ)

-- `CandidatePair`, the selected pair of a component.
pub record CandidatePair : Type 0 where
  pub local : NiceCandidate
  pub remote : NiceCandidate
  pub priority : ℕ

-- `IncomingCheck`
pub record IncomingCheck : Type 0 where
  pub from : Address
  pub local_socket : ℕ
  pub priority : ℕ
  pub use_candidate : Bool
  pub username : List ℕ

-- `Component`; `sent_ids` is the table of its STUN agent. `selected_pair` is `none` when it is cleared,
-- with priority 0.
pub record Component : Type 0 where
  pub id : ℕ
  pub state : ComponentState
  pub local_candidates : List NiceCandidate
  pub remote_candidates : List NiceCandidate
  pub incoming_checks : List IncomingCheck
  pub selected_pair : Option CandidatePair
  pub sent_ids : List SavedId

-- `Stream`
pub record Stream : Type 0 where
  pub id : ℕ
  pub n_components : ℕ
  pub components : List Component
  pub conncheck_list : List CheckPair

-- The packets that are sent, by the socket and the address they go to, and the signals to the client.
pub data Event : Type 0 where
  sent_check : ℕ → Address → List ℕ → Event
  sent_reply : ℕ → Address → Event
  keepalives : Event
  new_selected_pair : ℕ → ℕ → NiceCandidate → NiceCandidate → Event
  state_changed : ℕ → ℕ → ComponentState → Event

-- `NiceAgent` without its streams. `now` is what g_get_current_time returns and
-- `monotonic` what stun_gettime of stun/usages/timer.c returns, `discovery_list` says for
-- each discovery of which stream it is and whether it is done, and `next_address` is fresh memory.
pub record Context : Type 0 where
  pub controlling_mode : Bool
  pub compatibility : Compatibility
  pub timer_ta : ℕ
  pub max_conn_checks : ℕ
  pub reliable : Bool
  pub tie_breaker : ℕ
  pub discovery_list : List (ℕ × Bool)
  pub conncheck_timer : Bool
  pub keepalive_timer : Bool
  pub now : Timeval
  pub monotonic : Timeval
  pub next_address : ℕ
  pub events : List Event

pub record NiceAgent : Type 0 where
  pub context : Context
  pub streams : List Stream

-- What the check lists ask of the rest. `conncheck_create` is the username, the password and
-- stun_usage_ice_conncheck_create: the transaction id of the message and the table of the component's
-- STUN agent after it, or `none` for no credentials or no message.
pub record Environment : Type 0 where
  pub conncheck_create : Context → Component → CheckPair → Option (List ℕ × List SavedId)
  pub is_reliable : ℕ → Bool
  pub has_fileno : ℕ → Bool
  pub tcp_active_connect : ℕ → Address → Option ℕ
