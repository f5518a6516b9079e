-- ===== src/Stun/Types.antt =====
-- The enums, flags and constants of stun/stunmessage.h, stun/stunagent.h and stun/constants.h.
pub mod Class
pub mod Attribute
use libnice4android.Prelude.{ℕ, List, [], ◌∷◌, Bool, false}

-- `StunCompatibility`
pub data Compatibility : Type 0 where
  rfc3489 rfc5389 wlm2009 oc2007 : Compatibility

-- `StunAgentUsageFlags`, one field for each bit.
pub record UsageFlags : Type 0 where
  pub short_term_credentials : Bool
  pub long_term_credentials : Bool
  pub use_fingerprint : Bool
  pub add_software : Bool
  pub ignore_credentials : Bool
  pub no_indication_auth : Bool
  pub force_validater : Bool
  pub no_aligned_attributes : Bool

abbrev pub no_flags : UsageFlags
no_flags = record {
  short_term_credentials = false;
  long_term_credentials = false;
  use_fingerprint = false;
  add_software = false;
  ignore_credentials = false;
  no_indication_auth = false;
  force_validater = false;
  no_aligned_attributes = false;
}

-- The fields of a `StunAgent` that a message reads through its `agent` pointer. They are set once,
-- by `stun_agent_init`.
pub record Config : Type 0 where
  pub compatibility : Compatibility
  pub usage_flags : UsageFlags

-- `StunMessageReturn`
pub data MessageReturn : Type 0 where
  success not_found invalid not_enough_space unsupported_address : MessageReturn

-- The bytes of `htonl (STUN_MAGIC_COOKIE)`.
abbrev pub magic_cookie : List ℕ
magic_cookie = 0x21 ∷ 0x12 ∷ 0xA4 ∷ 0x42 ∷ []
