-- ===== src/Stun/Types/Class.antt =====
-- `StunClass` of stun/stunmessage.h.
use libnice4android.Prelude.{ℕ}

abbrev pub request : ℕ
request = 0

abbrev pub indication : ℕ
indication = 1

abbrev pub response : ℕ
response = 2

abbrev pub error : ℕ
error = 3
