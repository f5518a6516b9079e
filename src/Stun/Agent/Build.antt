-- ===== src/Stun/Agent/Build.antt =====
-- stun/stunagent.c: how a message is started and finished. The random id of a request and the text of
-- SOFTWARE, which stun_message_append_software appends, are arguments; `none` is no text.
pub mod Remember
use libnice4android.Prelude.{
  ℕ, ◌+◌, ◌-◌, ◌*◌, ◌%◌, ◌^◌, Bool, true, false, not, ◌&&◌, ◌||◌, Option, none, some, List, [], ◌∷◌,
  ◌++◌, ltb, ◌==◌, if◌then◌else◌, ◌>>=◌, length,
}
use libnice4android.Stun.Types.{
  Compatibility, rfc3489, rfc5389, wlm2009, oc2007, Config, UsageFlags, success, magic_cookie,
}
use libnice4android.Stun.Types.Class
use libnice4android.Stun.Types.Attribute
use libnice4android.Stun.Bytes.{write, word_bytes}
use libnice4android.Stun.Message.{
  Message, no_room, appended, append, append_bytes, message_length, message_id, get_method,
  get_class, has_cookie, init,
}
use libnice4android.Stun.Values.{bytes32, append_error}
use libnice4android.Stun.Crc.{fingerprint}
use libnice4android.Stun.Hmac.{Hashes, stun_sha1, hash_creds}
use libnice4android.Stun.Unknowns.{find_unknowns}
use libnice4android.Stun.Agent.{SavedId, Agent, modern, value_of}

-- The cookie over the first four bytes of the id.
put_cookie : Agent → Message → Option Message
put_cookie agent msg =
    if modern agent.config.compatibility
    then (do b ← write msg.buffer 4 magic_cookie; some (record msg { buffer = b }))
    else some msg

-- SOFTWARE, whose failure is not looked at.
put_software : Agent → Option (List ℕ) → Message → Option Message
put_software agent none msg = some msg
put_software agent (some text) msg =
    if modern agent.config.compatibility
    then (do r ← append_bytes msg Attribute.software text; some r.1)
    else some msg

abbrev fresh : Agent → List ℕ → ℕ → Message
fresh agent buffer buffer_len = record {
  agent = some agent.config;
  buffer = buffer;
  buffer_len = buffer_len;
  key = none;
  long_term_key = [];
  long_term_valid = false;
}

-- `none` inside is FALSE.
unfoldable pub init_request :
    Agent → Option (List ℕ) → List ℕ → ℕ → ℕ → List ℕ → Option (Option Message)
unfolding put_cookie put_software
init_request agent software buffer buffer_len m id = do
  ret ← init (fresh agent buffer buffer_len) Class.request m id
  elim ret [
    | none ↦ some none
    | some msg ↦ do
      msg1 ← put_cookie agent msg
      msg2 ← put_software agent software msg1
      some (some msg2)
  ]

unfoldable pub init_indication : Agent → List ℕ → ℕ → ℕ → List ℕ → Option (Option Message)
unfolding put_cookie
init_indication agent buffer buffer_len m id = do
  ret ← init (fresh agent buffer buffer_len) Class.indication m id
  elim ret [ none ↦ some none | some msg ↦ do msg1 ← put_cookie agent msg; some (some msg1) ]

-- The message of a response or an error, with the id, the method and the keys of its request.
start_reply : Agent → Option (List ℕ) → List ℕ → ℕ → Message → ℕ → Option (Option Message)
unfolding put_software
start_reply agent software buffer buffer_len request class = do
  c ← get_class request
  if not (c == Class.request) then some none else (do
    id ← message_id request
    m ← get_method request
    ret ←
        init
          (record request { agent = some agent.config; buffer = buffer; buffer_len = buffer_len })
          class m id
    elim ret [
      | none ↦ some none
      | some msg ↦ do msg1 ← put_software agent software msg; some (some msg1)
    ])

unfoldable pub init_response :
    Agent → Option (List ℕ) → List ℕ → ℕ → Message → Option (Option Message)
unfolding start_reply
init_response agent software buffer buffer_len request =
    start_reply agent software buffer buffer_len request Class.response

-- An ERROR-CODE without room is FALSE.
unfoldable pub init_error :
    Agent → Option (List ℕ) → List ℕ → ℕ → Message → ℕ → Option (Option Message)
unfolding start_reply
init_error agent software buffer buffer_len request err = do
  started ← start_reply agent software buffer buffer_len request Class.error
  elim started [
    | none ↦ some none
    | some msg ↦ do r ← append_error msg err; some (elim r.0 [ success ↦ some r.1 | _ ↦ none ])
  ]

-- Whether all transactions of the table are in use.
unfoldable pub is_full : List SavedId → Bool
is_full [] = true
is_full (s ∷ more) = s.valid && is_full more

-- The first entry that is not in use is set.
unfoldable pub save : List SavedId → SavedId → List SavedId
save [] entry = []
save (s ∷ more) entry = let rest = save more entry in if s.valid then s ∷ rest else entry ∷ more

-- The key of the hash; `none` inside leaves MESSAGE-INTEGRITY out.
integrity_key : Hashes → Config → Message → List ℕ → Option (Option (List ℕ) × Message)
integrity_key hashes config msg key =
    if msg.long_term_valid
    then some
        (some (if config.usage_flags.long_term_credentials then msg.long_term_key else key), msg)
    else (if not config.usage_flags.long_term_credentials then some (some key, msg) else (do
      realm ← value_of msg Attribute.realm
      username ← value_of msg Attribute.username
      credentials realm username))
  where
    credentials : Option (List ℕ) → Option (List ℕ) → Option (Option (List ℕ) × Message)
    credentials none username = some (none, msg)
    credentials (some r) none = some (none, msg)
    credentials (some r) (some u) = do
      md5 ← hash_creds hashes r u key
      some (some md5, record msg { long_term_key = md5; long_term_valid = true })

-- The hash over a message that ends with its MESSAGE-INTEGRITY.
sent_hash : Hashes → Config → Message → List ℕ → Option (List ℕ)
sent_hash hashes config msg key = do
  len ← message_length msg
  elim config.compatibility [
    | rfc3489 ↦ stun_sha1 hashes msg.buffer len ((len + 2 ^ 64 - 20) % 2 ^ 64) key true
    | oc2007 ↦ stun_sha1 hashes msg.buffer len ((len + 2 ^ 64 - 20) % 2 ^ 64) key true
    | wlm2009 ↦
        stun_sha1 hashes msg.buffer len
          ((len + 2 ^ 64 - (if config.usage_flags.use_fingerprint then 12 else 20)) % 2 ^ 64) key
          true
    | rfc5389 ↦ stun_sha1 hashes msg.buffer len ((len + 2 ^ 64 - 20) % 2 ^ 64) key false
  ]

-- MESSAGE-INTEGRITY, if there is a key; false where there is no room for it.
unfoldable pub add_integrity : Hashes → Config → Message → Option (List ℕ) → Option (Bool × Message)
unfolding integrity_key sent_hash
add_integrity hashes config msg none = some (true, msg)
add_integrity hashes config msg (some key) = do
  k ← integrity_key hashes config msg key
  elim k.0 [
    | none ↦ some (true, k.1)
    | some hash_key ↦ do
      r ← append k.1 Attribute.message_integrity 20
      elim r [
        | no_room ↦ some (false, k.1)
        | appended p msg1 ↦ do
          sha ← sent_hash hashes config msg1 hash_key
          b ← write msg1.buffer p sha
          some (true, record msg1 { buffer = b })
      ]
  ]

is_wlm : Compatibility → Bool
is_wlm wlm2009 = true
is_wlm _ = false

-- FINGERPRINT, where the agent wants it; false where there is no room for it.
unfoldable pub add_fingerprint : Config → Message → Option (Bool × Message)
unfolding is_wlm
add_fingerprint config msg =
    if modern config.compatibility && config.usage_flags.use_fingerprint
    then (do
      r ← append msg Attribute.fingerprint 4
      elim r [
        | no_room ↦ some (false, msg)
        | appended p msg1 ↦ do
          len ← message_length msg1
          fpr ← fingerprint msg1.buffer len (is_wlm config.compatibility)
          b ← write msg1.buffer p (bytes32 fpr)
          some (true, record msg1 { buffer = b })
      ])
    else some (true, msg)

-- The result of `stun_agent_finish_message`, where a request is remembered.
unfoldable pub remembered :
    Agent → Message → Option (List ℕ) → ℕ → List ℕ → ℕ → ℕ → ℕ × Agent × Message
remembered agent msg key class id method len =
    let entry : SavedId = record {
      id = id;
      method = method;
      key = key;
      long_term_key = msg.long_term_key;
      long_term_valid = msg.long_term_valid;
      valid = true;
    } in
    (
      len,
      (if class == Class.request
          then record agent { sent_ids = save agent.sent_ids entry }
          else agent),
      record msg { key = key },
    )

unfoldable pub remember : Agent → Message → Option (List ℕ) → Option (ℕ × Agent × Message)
remember agent msg key = do
  class ← get_class msg
  id ← message_id msg
  method ← get_method msg
  len ← message_length msg
  some (remembered agent msg key class id method len)

-- The key of the message itself, or else the one that is given.
unfoldable pub own_key : Option (List ℕ) → Option (List ℕ) → Option (List ℕ)
own_key none key = key
own_key (some k) key = some k

-- `stun_agent_finish_message`: the length, 0 for a failure.
unfoldable pub finish_message :
    Hashes → Agent → Message → Option (List ℕ) → Option (ℕ × Agent × Message)
finish_message hashes agent msg key = do
  class ← get_class msg
  if class == Class.request && is_full agent.sent_ids then some (0, agent, msg) else (do
    integrity ← add_integrity hashes agent.config msg (own_key msg.key key)
    if not integrity.0 then some (0, agent, integrity.1) else (do
      finger ← add_fingerprint agent.config integrity.1
      if not finger.0
          then some (0, agent, finger.1)
          else remember agent finger.1 (own_key msg.key key)))

-- STUN_AGENT_MAX_UNKNOWN_ATTRIBUTES
abbrev max_unknown_attributes : ℕ
max_unknown_attributes = 256

-- The first type once more behind an odd number of them, for an agent of RFC 3489.
repeat_first : Bool → List ℕ → List ℕ
repeat_first cookie [] = []
repeat_first cookie (id ∷ more) =
    if not cookie && length (id ∷ more) % 2 == 1 then id ∷ more ++ id ∷ [] else id ∷ more

type_words : List ℕ → List ℕ
type_words [] = []
type_words (t ∷ more) = word_bytes t ++ type_words more

-- `stun_agent_build_unknown_attributes_error`; 0 is a failure.
unfoldable pub build_unknown_attributes_error :
    Hashes → Agent → Option (List ℕ) → List ℕ → ℕ → Message → Option (ℕ × Agent)
unfolding repeat_first type_words
build_unknown_attributes_error hashes agent software buffer buffer_len request = do
  ids ← find_unknowns agent.config agent.known_attributes request max_unknown_attributes
  started ← init_error agent software buffer buffer_len request 420
  elim started [
    | none ↦ some (0, agent)
    | some msg ↦ do
      cookie ← has_cookie request
      r ← append_bytes msg Attribute.unknown_attributes (type_words (repeat_first cookie ids))
      elim r.0 [
        | success ↦ do done ← finish_message hashes agent r.1 request.key; some (done.0, done.1)
        | _ ↦ some (0, agent)
      ]
  ]

forget_all : List SavedId → List SavedId
forget_all [] = []
forget_all (s ∷ more) = record s { valid = false } ∷ forget_all more

-- `stun_agent_init`, over the table that the memory of the agent holds.
unfoldable pub agent_init : List SavedId → List ℕ → Compatibility → UsageFlags → Agent
unfolding forget_all
agent_init memory known_attributes compatibility usage_flags = record {
  config = record { compatibility = compatibility; usage_flags = usage_flags };
  known_attributes = known_attributes;
  sent_ids = forget_all memory;
}
