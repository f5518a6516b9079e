-- ===== src/Stun/Hmac.antt =====
-- stun/stunhmac.c: what of a message and of credentials is hashed. The hash functions of sha1.c and
-- md5.c are parameters.
use libnice4android.Prelude.{
  ℕ, ◌-◌, ◌%◌, ◌^◌, Bool, ◌&&◌, ◌||◌, Option, none, some, List, [], ◌∷◌, ltb, ◌==◌, if◌then◌else◌,
  ◌>>=◌, length, replicate,
}
use libnice4android.Stun.Bytes.{word_bytes}
use libnice4android.Stun.Message.{read}

-- `hmac_sha1_vector` of a key and the vectors, and MD5 of the parts that `MD5Update` is given in turn.
pub record Hashes : Type 0 where
  pub hmac_sha1_vector : List ℕ → List (List ℕ) → List ℕ
  pub md5 : List (List ℕ) → List ℕ

-- `stun_sha1`; `none` is the failed assertion or a read outside the message.
unfoldable pub stun_sha1 : Hashes → List ℕ → ℕ → ℕ → List ℕ → Bool → Option (List ℕ)
stun_sha1 hashes msg len msg_len key padding = if ltb len 44 then none else (do
  head ← read msg 0 2
  body ← read msg 4 (len - 28)
  let rest = (len - 24) % 64
  let pad = if padding && ltb 0 rest then replicate (64 - rest) 0 ∷ [] else []
  some (hashes.hmac_sha1_vector key (head ∷ word_bytes (msg_len % 2 ^ 16) ∷ body ∷ pad)))

-- The first loop of `priv_trim_var`; `none` is a read behind the variable.
skip_quotes : List ℕ → Option (List ℕ)
skip_quotes [] = none
skip_quotes (b ∷ bytes) =
    let rest = skip_quotes bytes in if b == 0x22 then rest else some (b ∷ bytes)

-- The second loop; its reads go on in front of a variable that becomes empty.
trim_end : List ℕ → List ℕ
trim_end [] = []
trim_end (b ∷ bytes) =
    let rest = trim_end bytes in if length rest == 0 && (b == 0x22 || b == 0) then [] else b ∷ rest

unfoldable pub trim_var : List ℕ → Option (List ℕ)
unfolding skip_quotes trim_end
trim_var var = do
  bytes ← skip_quotes var
  let trimmed = trim_end bytes
  if length trimmed == 0 then none else some trimmed

unfoldable pub hash_creds : Hashes → List ℕ → List ℕ → List ℕ → Option (List ℕ)
hash_creds hashes realm username password = do
  username_trimmed ← trim_var username
  password_trimmed ← trim_var password
  realm_trimmed ← trim_var realm
  some (
      hashes.md5
        (username_trimmed ∷ (0x3a ∷ []) ∷ realm_trimmed ∷ (0x3a ∷ []) ∷ password_trimmed ∷ []))
