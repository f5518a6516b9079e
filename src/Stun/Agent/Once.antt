-- ===== src/Stun/Agent/Once.antt =====
-- A response completes its transaction.
use libnice4android.Prelude.{
  ℕ, ◌+◌, ◌≤◌, ◌≡◌, refl, arith, true, ◌&&◌, ◌||◌, Option, none, some, List, [], ◌∷◌, ◌==◌,
  if◌then◌else◌, inl, inr, Bool-cases, ◌⊎◌, sym, ◌∙◌, Option-cases,
}
use mathlib.Core.Path.{subst}
use libnice4android.Stun.Types.{Config}
use libnice4android.Stun.Types.Class
use libnice4android.Stun.Message.{Message, bytes_eq, has_cookie, message_id, get_method, get_class}
use libnice4android.Stun.Hmac.{Hashes}
use libnice4android.Stun.Agent.{
  Agent, SavedId, Validater, unmatched_response, find_sent, complete_sent, check_fingerprint,
  modern, validate_message, authenticate, ValidationStatus, validation_success, unknown_attribute,
}

-- How many valid transactions have a method and an id.
abbrev pub matches : List SavedId → ℕ → List ℕ → ℕ
matches [] method id = 0
matches (s ∷ more) method id =
    (if s.valid && s.method == method && bytes_eq id s.id then 1 else 0) + matches more method id

find_sent-none :
    (ids : List SavedId) (method : ℕ) (id : List ℕ)
    → matches ids method id ≡ 0
    → find_sent ids method id ≡ none
unfolding find_sent
find_sent-none [] method id h = refl
find_sent-none (s ∷ more) method id h =
    elim (Bool-cases (s.valid && s.method == method && bytes_eq id s.id)) [
      | inl e ↦ absurd (ground (arith, h, e))
      | inr e ↦ rw (e, find_sent-none more method id (ground (arith, h, e))) refl
    ]

find_sent-complete_sent :
    (ids : List SavedId) (method : ℕ) (id : List ℕ)
    → matches ids method id ≤ 1
    → find_sent (complete_sent ids method id) method id ≡ none
unfolding find_sent complete_sent
find_sent-complete_sent [] method id h = refl
find_sent-complete_sent (s ∷ more) method id h =
    elim (Bool-cases (s.valid && s.method == method && bytes_eq id s.id)) [
      | inl e ↦ rw e (find_sent-none more method id (ground (arith, h, e)))
      | inr e ↦ rw (e, find_sent-complete_sent more method id (ground (arith, h, e)), e) refl
    ]

-- A response that has the cookie and, where the agent asks for it, a right fingerprint.
pub record IsAnswer (config : Config) (msg : Message) (method : ℕ) (id : List ℕ) : Type 0 where
  pub cookie : has_cookie msg ≡ some true
  pub genuine : check_fingerprint config msg ≡ some true
  pub class : ℕ
  pub of_class : get_class msg ≡ some class
  pub answers : (class ≡ Class.response) ⊎ (class ≡ Class.error)
  pub of_id : message_id msg ≡ some id
  pub of_method : get_method msg ≡ some method

-- A response goes to the transaction that it answers, or to none.
response_lem :
    (hashes : Hashes) (validater : Option Validater) (agent : Agent) (msg : Message) {method : ℕ}
    {id : List ℕ}
    → (a : IsAnswer agent.config msg method id)
    → validate_message hashes validater agent msg ≡ elim (find_sent agent.sent_ids method id) [
      | none ↦ some (unmatched_response, msg, agent)
      | some s ↦
          authenticate hashes validater agent msg a.class
            (some s)
            (record agent { sent_ids = complete_sent agent.sent_ids method id })
    ]
unfolding validate_message
response_lem hashes validater agent msg {method} {id} a =
    let answer : (a.class == Class.response || a.class == Class.error) ≡ true =
      ground (arith, a.answers) in
    elim (Bool-cases (modern agent.config.compatibility)) [
      | inl e ↦ rw (a.cookie, e, a.genuine, a.of_class, a.of_id, a.of_method, answer) refl
      | inr e ↦ rw (a.cookie, e, a.genuine, a.of_class, a.of_id, a.of_method, answer) refl
    ]

-- The statuses of a message that is authentic.
abbrev pub IsAuthentic : ValidationStatus → Type 0
IsAuthentic status = (status ≡ validation_success) ⊎ (status ≡ unknown_attribute)

authenticate_completes :
    (hashes : Hashes) (validater : Option Validater) (agent : Agent) (msg : Message) (class : ℕ)
    (s : SavedId) (completed : Agent) {status : ValidationStatus} {msg1 : Message} {agent1 : Agent}
    → authenticate hashes validater agent msg class (some s) completed ≡ some (status, msg1, agent1)
    → IsAuthentic status
    → agent1 ≡ completed
unfolding authenticate
authenticate_completes hashes validater agent msg class s completed h ok = ground (arith, h, ok)

-- A response whose transaction is not in the table is unmatched, and the agent stays as it is.
unmatched_lem :
    (hashes : Hashes) (validater : Option Validater) (agent : Agent) (msg : Message) {method : ℕ}
    {id : List ℕ}
    → IsAnswer agent.config msg method id
    → find_sent agent.sent_ids method id ≡ none
    → validate_message hashes validater agent msg ≡ some (unmatched_response, msg, agent)
unmatched_lem hashes validater agent msg a gone =
    response_lem hashes validater agent msg a ∙ rw gone refl

-- The agent after an authentic response has completed the transaction.
completed_lem :
    (hashes : Hashes) (validater : Option Validater) (agent : Agent) (msg : Message) {method : ℕ}
    {id : List ℕ} {status : ValidationStatus} {msg1 : Message} {agent1 : Agent}
    → IsAnswer agent.config msg method id
    → validate_message hashes validater agent msg ≡ some (status, msg1, agent1)
    → IsAuthentic status
    → agent1 ≡ record agent { sent_ids = complete_sent agent.sent_ids method id }
completed_lem hashes validater agent msg {method} {id} a h ok =
    let answered = sym (response_lem hashes validater agent msg a) ∙ h in
    elim (Option-cases (find_sent agent.sent_ids method id)) [
      | inl e ↦ absurd (ground (arith, rw e at answered, ok))
      | inr (s, e) ↦
          authenticate_completes hashes validater agent msg a.class s
            (record agent { sent_ids = complete_sent agent.sent_ids method id }) (rw e at answered)
            ok
    ]

-- A response is authenticated once. When `stun_agent_validate` has found one authentic (with or without
-- unknown attributes), any later response of the same id and method, with the cookie and a right
-- fingerprint where the agent asks for one, does not match any more, whatever the hashes and the
-- validater, and leaves the agent as it is; the agent does not have the transaction twice.
pub validate_message-once :
    (hashes hashes' : Hashes) (validater validater' : Option Validater) (agent agent1 : Agent)
    (msg msg1 later : Message) (status : ValidationStatus) (method : ℕ) (id : List ℕ)
    → IsAnswer agent.config msg method id
    → validate_message hashes validater agent msg ≡ some (status, msg1, agent1)
    → IsAuthentic status
    → matches agent.sent_ids method id ≤ 1
    → IsAnswer agent.config later method id
    → validate_message hashes' validater' agent1 later ≡ some (unmatched_response, later, agent1)
validate_message-once hashes hashes' validater validater' agent agent1 msg msg1 later status method
      id a first ok single b =
    subst (λ g. validate_message hashes' validater' g later ≡ some (unmatched_response, later, g))
      (sym (completed_lem hashes validater agent msg a first ok))
      (unmatched_lem hashes' validater'
        (record agent { sent_ids = complete_sent agent.sent_ids method id }) later b
        (find_sent-complete_sent agent.sent_ids method id single))
