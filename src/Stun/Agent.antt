-- ===== src/Stun/Agent.antt =====
-- stun/stunagent.c: the transactions that an agent remembers, and the validation of a message.
pub mod Once
pub mod Build
mod Tests
use libnice4android.Prelude.{
  ℕ, ◌+◌, ◌-◌, ◌%◌, ◌^◌, Bool, true, false, not, ◌&&◌, ◌||◌, Option, none, some, List, [], ◌∷◌, ltb,
  ◌==◌, if◌then◌else◌, ◌>>=◌, length,
}
use libnice4android.Stun.Types.{
  Compatibility, rfc3489, rfc5389, wlm2009, oc2007, UsageFlags, Config,
}
use libnice4android.Stun.Types.Class
use libnice4android.Stun.Types.Attribute
use libnice4android.Stun.Message.{
  Message, Found, missing, found, find, read, bytes_eq, message_length, message_id, has_cookie,
  get_method, get_class,
}
use libnice4android.Stun.Values.{Lookup, value, failed, find32, find_error}
use libnice4android.Stun.Validate.{
  BufferResult, invalid, incomplete, complete, validate_buffer_length,
}
use libnice4android.Stun.Crc.{fingerprint}
use libnice4android.Stun.Unknowns.{find_unknowns}
use libnice4android.Stun.Hmac.{Hashes, stun_sha1, hash_creds}

-- `StunAgentSavedIds`
pub record SavedId : Type 0 where
  pub id : List ℕ
  pub method : ℕ
  pub key : Option (List ℕ)
  pub long_term_key : List ℕ
  pub long_term_valid : Bool
  pub valid : Bool

-- `stun_agent_t`; the software attribute plays no part here.
pub record Agent : Type 0 where
  pub config : Config
  pub known_attributes : List ℕ
  pub sent_ids : List SavedId

-- `StunValidationStatus`
pub data ValidationStatus : Type 0 where
  validation_success not_stun incomplete_stun bad_request unauthorized_bad_request unauthorized
        unmatched_response unknown_request_attribute unknown_attribute :
      ValidationStatus

-- `StunMessageIntegrityValidate`: from the message, the username if there is one, and the key that is
-- known, the key to use; `none` is FALSE.
abbrev pub Validater : Type 0
Validater = Message → Option (List ℕ) → Option (List ℕ) → Option (Option (List ℕ))

unfoldable pub forget_transaction : List SavedId → List ℕ → Bool × List SavedId
forget_transaction [] id = (false, [])
forget_transaction (s ∷ more) id =
    let rest = forget_transaction more id in
    if s.valid && bytes_eq id s.id
    then (true, record s { valid = false } ∷ more)
    else (rest.0, s ∷ rest.1)

-- The loop over the saved transactions, for a response.
unfoldable pub find_sent : List SavedId → ℕ → List ℕ → Option SavedId
find_sent [] method id = none
find_sent (s ∷ more) method id =
    let rest = find_sent more method id in
    if s.valid && s.method == method && bytes_eq id s.id then some s else rest

-- The transaction that the loop found is not valid any more.
unfoldable pub complete_sent : List SavedId → ℕ → List ℕ → List SavedId
complete_sent [] method id = []
complete_sent (s ∷ more) method id =
    let rest = complete_sent more method id in
    if s.valid && s.method == method && bytes_eq id s.id
    then record s { valid = false } ∷ more
    else s ∷ rest

-- RFC5389 or WLM2009
pub modern : Compatibility → Bool
modern rfc5389 = true
modern wlm2009 = true
modern rfc3489 = false
modern oc2007 = false

is_wlm2009 : Compatibility → Bool
is_wlm2009 wlm2009 = true
is_wlm2009 _ = false

-- `stun_message_has_attribute`
unfoldable pub has_attribute : Message → ℕ → Option Bool
has_attribute msg type = do
  f ← find msg type
  some (elim f [ missing ↦ false | found p len ↦ true ])

-- FINGERPRINT, where the agent asks for it.
unfoldable pub check_fingerprint : Config → Message → Option Bool
unfolding modern is_wlm2009
check_fingerprint config msg =
    if modern config.compatibility && config.usage_flags.use_fingerprint
    then (do
      r ← find32 msg Attribute.fingerprint
      elim r [
        | failed e ↦ some false
        | value fpr ↦ do
          len ← message_length msg
          crc32 ← fingerprint msg.buffer len (is_wlm2009 config.compatibility)
          some (fpr == crc32)
      ])
    else some true

one_of : List ℕ → ℕ → Bool
one_of [] code = false
one_of (c ∷ codes) code = c == code || one_of codes code

-- Whether the message is an error response with one of the codes.
unfoldable pub is_error : Message → ℕ → List ℕ → Option Bool
unfolding one_of
is_error msg class codes =
    if class == Class.error
    then (do
      r ← find_error msg
      some (elim r [ failed e ↦ false | value code ↦ one_of codes code ]))
    else some false

-- `ignore_credentials`
unfoldable pub ignores_credentials : UsageFlags → Message → ℕ → Option Bool
ignores_credentials flags msg class = if flags.ignore_credentials then some true else (do
  e ← is_error msg class (400 ∷ 401 ∷ 438 ∷ [])
  some
      (e || class == Class.indication && (flags.long_term_credentials || flags.no_indication_auth)))

-- A request or an indication without the attributes that the credentials need. The searches return on
-- a message of a valid length, so they are all made first.
unfoldable pub lacks_credentials : UsageFlags → Message → ℕ → Option Bool
lacks_credentials flags msg class = do
  user ← has_attribute msg Attribute.username
  integrity ← has_attribute msg Attribute.message_integrity
  nonce ← has_attribute msg Attribute.nonce
  realm ← has_attribute msg Attribute.realm
  some (
      (class == Class.request || class == Class.indication)
      && (flags.short_term_credentials && (not user || not integrity)
          || flags.long_term_credentials
            && class == Class.request
            && (not user || not integrity || not nonce || not realm)
          || not flags.ignore_credentials && user && not integrity))

-- The value of an attribute; NULL is `none`.
unfoldable pub value_of : Message → ℕ → Option (Option (List ℕ))
value_of msg type = do
  f ← find msg type
  elim f [ missing ↦ some none | found p len ↦ do bytes ← read msg.buffer p len; some (some bytes) ]

-- The key of the long-term credentials; `none` inside is a missing REALM or USERNAME.
unfoldable pub long_term_hash :
    Hashes → Message → Option SavedId → List ℕ → Option (Option (List ℕ))
long_term_hash hashes msg saved key = elim saved [
  | some s ↦ if s.long_term_valid then some (some s.long_term_key) else computed
  | none ↦ computed
]
  where
    hashed : Option (List ℕ) → Option (List ℕ) → Option (Option (List ℕ))
    hashed none user = some none
    hashed (some r) none = some none
    hashed (some r) (some u) = do h ← hash_creds hashes r u key; some (some h)

    computed : Option (Option (List ℕ))
    computed = do
      realm ← value_of msg Attribute.realm
      user ← value_of msg Attribute.username
      hashed realm user

-- The hash that MESSAGE-INTEGRITY at `p` should hold.
unfoldable pub expected_hash : Hashes → Config → Message → ℕ → List ℕ → Option (List ℕ)
expected_hash hashes config msg p key = elim config.compatibility [
  | rfc3489 ↦ stun_sha1 hashes msg.buffer (p + 20) p key true
  | oc2007 ↦ stun_sha1 hashes msg.buffer (p + 20) p key true
  | wlm2009 ↦ do
    len ← message_length msg
    stun_sha1 hashes msg.buffer (p + 20) ((len + 2 ^ 64 - 20) % 2 ^ 64) key true
  | rfc5389 ↦ stun_sha1 hashes msg.buffer (p + 20) p key false
]

-- MESSAGE-INTEGRITY at `p`; the flag is false for UNAUTHORIZED. Twenty bytes are compared, whatever the
-- length of the attribute.
unfoldable pub compare_hash :
    Hashes → Config → Message → ℕ → List ℕ → List ℕ → Option (Bool × Message)
compare_hash hashes config msg p hash_key key = do
  sha ← expected_hash hashes config msg p hash_key
  hash ← read msg.buffer p 20
  some (if bytes_eq sha hash then (true, record msg { key = some key }) else (false, msg))

unfoldable pub check_integrity :
    Hashes → Config → Message → ℕ → Option SavedId → List ℕ → Option (Bool × Message)
check_integrity hashes config msg class saved key = do
  f ← find msg Attribute.message_integrity
  elim f [
    | missing ↦ do e ← is_error msg class (400 ∷ 401 ∷ []); some (e, msg)
    | found p len ↦
        if config.usage_flags.long_term_credentials
        then (do
          h ← long_term_hash hashes msg saved key
          elim h [
            | none ↦ some (false, msg)
            | some md5 ↦
                compare_hash hashes config
                  (record msg { long_term_key = md5; long_term_valid = true }) p md5 key
          ])
        else compare_hash hashes config msg p key key
  ]

is_null : Option (List ℕ) → Bool
is_null none = true
is_null (some bytes) = false

-- The key to check with: the one of the transaction, or the validater's; `none` inside is UNAUTHORIZED.
unfoldable pub choose_key :
    Config → Option Validater → Message → Bool → Option (List ℕ) → Option (Option (Option (List ℕ)))
unfolding is_null
choose_key config validater msg ignore key = do
  integrity ← has_attribute msg Attribute.message_integrity
  if integrity && (is_null key && not ignore || config.usage_flags.force_validater)
      then elim validater [
        | none ↦ some none
        | some ask ↦ do user ← value_of msg Attribute.username; some (ask msg user key)
      ]
      else some (some key)

-- Without a key, or with an empty one, nothing is checked.
unfoldable pub check_key :
    Hashes → Config → Message → ℕ → Option SavedId → Option (List ℕ) → Option (Bool × Message)
check_key hashes config msg class saved none = some (true, msg)
check_key hashes config msg class saved (some []) = some (true, msg)
check_key hashes config msg class saved (some (b ∷ bytes)) =
    check_integrity hashes config msg class saved (b ∷ bytes)

-- The end of `stun_agent_validate`, when the message is authentic.
unfoldable pub accept : Agent → Message → ℕ → Option ValidationStatus
accept agent msg class = do
  unknown ← find_unknowns agent.config agent.known_attributes msg 1
  some (
      if ltb 0 (length unknown)
      then (if class == Class.request then unknown_request_attribute else unknown_attribute)
      else validation_success)

-- From the credentials on, for a message that belongs to the transaction `saved`, if it is a response.
unfoldable pub authenticate :
    Hashes
    → Option Validater
    → Agent
    → Message
    → ℕ
    → Option SavedId
    → Agent
    → Option (ValidationStatus × Message × Agent)
unfolding is_null
authenticate hashes validater agent msg class saved completed = do
  ignore ← ignores_credentials agent.config.usage_flags msg class
  let key : Option (List ℕ) = elim saved [ none ↦ none | some s ↦ s.key ]
  lacks ← lacks_credentials agent.config.usage_flags msg class
  if is_null key && not ignore && lacks then some (unauthorized_bad_request, msg, agent) else (do
    chosen ← choose_key agent.config validater msg ignore key
    elim chosen [
      | none ↦ some (unauthorized, msg, agent)
      | some key1 ↦ do
        (ok, msg1) ←
            if ignore then some (true, msg) else check_key hashes agent.config msg class saved key1
        if not ok
            then some (unauthorized, msg1, agent)
            else (do status ← accept completed msg1 class; some (status, msg1, completed))
    ])

-- A message of a valid length: the cookie, the fingerprint and the transaction.
unfoldable pub validate_message :
    Hashes → Option Validater → Agent → Message → Option (ValidationStatus × Message × Agent)
unfolding modern
validate_message hashes validater agent msg = do
  cookie ← has_cookie msg
  if modern agent.config.compatibility && not cookie then some (bad_request, msg, agent) else (do
    genuine ← check_fingerprint agent.config msg
    if not genuine then some (bad_request, msg, agent) else (do
      class ← get_class msg
      id ← message_id msg
      method ← get_method msg
      if class == Class.response || class == Class.error
          then elim (find_sent agent.sent_ids method id) [
            | none ↦ some (unmatched_response, msg, agent)
            | some s ↦
                authenticate hashes validater agent msg class (some s)
                  (record agent { sent_ids = complete_sent agent.sent_ids method id })
          ]
          else authenticate hashes validater agent msg class none agent))

-- `stun_agent_validate`
unfoldable pub stun_agent_validate :
    Hashes
    → Option Validater
    → Agent
    → Message
    → List ℕ
    → ℕ
    → Option (ValidationStatus × Message × Agent)
stun_agent_validate hashes validater agent msg buffer buffer_len = do
  len ←
      validate_buffer_length buffer buffer_len (not agent.config.usage_flags.no_aligned_attributes)
  elim len [
    | invalid ↦ some (not_stun, msg, agent)
    | incomplete ↦ some (incomplete_stun, msg, agent)
    | complete n ↦
        if not (n == buffer_len % 2 ^ 32)
        then some (not_stun, msg, agent)
        else validate_message hashes validater agent (record msg {
          agent = some agent.config;
          buffer = buffer;
          buffer_len = buffer_len;
          key = none;
          long_term_valid = false;
        })
  ]
