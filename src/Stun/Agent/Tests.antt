-- ===== src/Stun/Agent/Tests.antt =====
-- An agent with one transaction, and its response.
use libnice4android.Prelude.{
  ℕ, ◌≡◌, refl, arith, inl, true, false, none, some, List, [], ◌∷◌, ◌++◌, replicate, Option, ◌>>=◌,
}
use libnice4android.Stun.Types.{rfc5389, no_flags, magic_cookie}
use libnice4android.Stun.Types.Class
use libnice4android.Stun.Bytes.{getw, padding, align}
use libnice4android.Stun.MessageType.{class_of_type, method_of_type}
use libnice4android.Stun.Message.{
  Message, has_cookie, get_class, get_method, find, find_loop, is_aligned, message_length,
  message_id, skip, swap_type, ends_search, bytes_eq,
}
use libnice4android.Stun.Validate.{validate_buffer_length, validate_fast, walk}
use libnice4android.Stun.Unknowns.{find_unknowns, unknowns_loop, is_unknown}
use libnice4android.Stun.Hmac.{Hashes}
use libnice4android.Stun.Agent.{
  Agent, SavedId, ValidationStatus, validation_success, unmatched_response, validate_message,
  complete_sent, stun_agent_validate, modern, check_fingerprint, find_sent, authenticate,
  ignores_credentials, is_error, lacks_credentials, accept, check_key, choose_key, has_attribute,
}
use libnice4android.Stun.Agent.Build.{
  finish_message, is_full, save, add_integrity, add_fingerprint, remember, remembered, own_key,
}
use libnice4android.Stun.Agent.Build.Remember.{IsRemembered, finish_message-IsRemembered}
use libnice4android.Stun.Agent.Once.{IsAnswer, validate_message-once}

-- Hashes of twenty and sixteen bytes, which need not be those of the standards here.
abbrev hashes : Hashes
hashes = record { hmac_sha1_vector = λ key vectors. replicate 20 0; md5 = λ parts. replicate 16 0 }

abbrev transaction : List ℕ
transaction = magic_cookie ++ replicate 12 9

-- A binding response without attributes.
abbrev response_bytes : List ℕ
response_bytes = 1 ∷ 1 ∷ 0 ∷ 0 ∷ transaction

abbrev response : Message
response = record {
  agent = none;
  buffer = response_bytes;
  buffer_len = 20;
  key = none;
  long_term_key = replicate 16 0;
  long_term_valid = false;
}

abbrev sent : SavedId
sent = record {
  id = transaction;
  method = 1;
  key = none;
  long_term_key = replicate 16 0;
  long_term_valid = false;
  valid = true;
}

abbrev agent : Agent
agent = record {
  config = record { compatibility = rfc5389; usage_flags = no_flags };
  known_attributes = 0 ∷ [];
  sent_ids = sent ∷ [];
}

status_of : Option (ValidationStatus × Message × Agent) → Option ValidationStatus
status_of result = result >>= (λ r. some r.0)

-- The first response is accepted.
first_response :
    status_of (stun_agent_validate hashes none agent response response_bytes 20)
    ≡ some validation_success
unfolding status_of stun_agent_validate validate_buffer_length validate_fast getw padding walk
    validate_message has_cookie check_fingerprint get_class get_method class_of_type find_sent
    method_of_type authenticate ignores_credentials is_error lacks_credentials accept check_key
    choose_key has_attribute complete_sent find find_loop is_aligned message_length skip swap_type
    ends_search align find_unknowns unknowns_loop is_unknown
first_response = refl

-- The agent that has accepted it.
abbrev answered : Agent
answered = record agent { sent_ids = record sent { valid = false } ∷ [] }

response-IsAnswer : IsAnswer agent.config response 1 transaction
unfolding has_cookie check_fingerprint get_class getw class_of_type get_method method_of_type
response-IsAnswer = record {
  cookie = refl;
  genuine = refl;
  class = Class.response;
  of_class = refl;
  answers = inl refl;
  of_id = refl;
  of_method = refl;
}

accepted :
    validate_message hashes none agent response ≡ some (validation_success, response, answered)
unfolding getw validate_message has_cookie check_fingerprint get_class get_method class_of_type
    find_sent method_of_type authenticate ignores_credentials is_error lacks_credentials accept
    check_key choose_key has_attribute complete_sent find find_loop is_aligned message_length skip
    swap_type ends_search align find_unknowns unknowns_loop is_unknown
accepted = refl

validate_message-once_example :
    validate_message hashes none answered response ≡ some (unmatched_response, response, answered)
unfolding bytes_eq
validate_message-once_example =
    validate_message-once hashes hashes none none agent answered response response response
      validation_success 1 transaction response-IsAnswer accepted (inl refl) (omega arith)
      response-IsAnswer

-- An agent with one transaction and room for another, and a request that it finishes.
abbrev asking : Agent
asking = record agent { sent_ids = record sent { valid = false } ∷ [] }

abbrev request : Message
request = record response { buffer = 0 ∷ 1 ∷ 0 ∷ 0 ∷ transaction }

abbrev finished : ℕ × Agent × Message
finished = (20, record asking { sent_ids = sent ∷ [] }, request)

finish_run : finish_message hashes asking request none ≡ some finished
unfolding finish_message is_full save add_integrity add_fingerprint remember remembered own_key
    get_class get_method message_id message_length getw class_of_type method_of_type modern
finish_run = refl

request-class : get_class request ≡ some Class.request
unfolding get_class getw class_of_type
request-class = refl

asking_room : is_full asking.sent_ids ≡ false
unfolding is_full
asking_room = refl

finish_message-IsRemembered_example : IsRemembered asking finished
finish_message-IsRemembered_example =
    finish_message-IsRemembered hashes asking request none finished finish_run (omega arith)
      asking_room request-class
