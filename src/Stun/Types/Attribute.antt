-- ===== src/Stun/Types/Attribute.antt =====
-- The members of `StunAttribute`, in stun/stunmessage.h, that the code names.
use libnice4android.Prelude.{ℕ}

abbrev pub username : ℕ
username = 0x0006

abbrev pub message_integrity : ℕ
message_integrity = 0x0008

abbrev pub error_code : ℕ
error_code = 0x0009

abbrev pub unknown_attributes : ℕ
unknown_attributes = 0x000A

abbrev pub realm : ℕ
realm = 0x0014

abbrev pub nonce : ℕ
nonce = 0x0015

abbrev pub software : ℕ
software = 0x8022

abbrev pub fingerprint : ℕ
fingerprint = 0x8028
