-- ===== src/Stun/Agent/Build/Remember.antt =====
-- What the agent remembers of the messages that it finishes.
use libnice4android.Prelude.{
  ℕ, true, false, ◌&&◌, Option, none, some, List, [], ◌∷◌, ◌==◌, ◌>>=◌, ◌≡◌, refl, ap, ap₂,
  some_injective, ◌<◌, sym, ◌∙◌, arith, Bool-cases, inl, inr,
}
use mathlib.Core.Path.{subst}
use libnice4android.Stun.Types.Class
use libnice4android.Stun.Message.{
  Message, bytes_eq, message_id, message_length, get_method, get_class,
}
use libnice4android.Stun.Hmac.{Hashes}
use libnice4android.Stun.Agent.{SavedId, Agent, find_sent}
use libnice4android.Stun.Agent.Build.{
  is_full, save, remembered, remember, add_integrity, add_fingerprint, own_key, finish_message,
}

pub bytes_eq_refl : (xs : List ℕ) → bytes_eq xs xs ≡ true
unfolding bytes_eq
bytes_eq_refl [] = refl
bytes_eq_refl (x ∷ xs) = ground (arith, bytes_eq_refl xs)

-- With an entry that is free and without one that a reply could be taken for, a reply to the message
-- is found with the data that was stored.
find_sent-save :
    (ids : List SavedId) (entry : SavedId)
    → is_full ids ≡ false
    → entry.valid ≡ true
    → find_sent ids entry.method entry.id ≡ none
    → find_sent (save ids entry) entry.method entry.id ≡ some entry
unfolding is_full save find_sent
find_sent-save [] entry f v h = cc
find_sent-save (s ∷ more) entry f v h =
    ground (arith, find_sent-save more entry, bytes_eq_refl entry.id)

-- Inversion of a step.
>>=-eq-some {ℓ κ} :
    {A : Type ℓ} {B : Type κ} (m : Option A) (f : A → Option B) {b : B}
    → (m >>= f) ≡ some b
    → (a : A) × (m ≡ some a) × (f a ≡ some b)
>>=-eq-some none f h = cc
>>=-eq-some (some a) f h = (a, refl, h)

-- A request that is finished is in the table.
abbrev pub IsRemembered : Agent → ℕ × Agent × Message → Type 0
IsRemembered agent r =
    (id : List ℕ) (method : ℕ)
    → message_id r.2 ≡ some id
    → get_method r.2 ≡ some method
    → find_sent agent.sent_ids method id ≡ none
    → (s : SavedId) × (find_sent r.1.sent_ids method id ≡ some s) × (s.key ≡ r.2.key)

remembered-IsRemembered :
    (agent : Agent) (msg : Message) (key : Option (List ℕ)) (class : ℕ) (id : List ℕ)
    (method len : ℕ)
    → get_class msg ≡ some class
    → message_id msg ≡ some id
    → get_method msg ≡ some method
    → is_full agent.sent_ids ≡ false
    → get_class (remembered agent msg key class id method len).2 ≡ some Class.request
    → IsRemembered agent (remembered agent msg key class id method len)
unfolding remembered message_id get_method get_class
remembered-IsRemembered agent msg key class id method len c i m f request id' method' i' m'
      none_yet =
    let is_request = some_injective class Class.request (sym c ∙ request) in
    let same_id = some_injective id id' (sym i ∙ i') in
    let same_method = some_injective method method' (sym m ∙ m') in
    let same = ap₂ (λ (a : ℕ) (b : List ℕ). find_sent agent.sent_ids a b) same_method same_id in
    let entry : SavedId = record {
      id = id;
      method = method;
      key = key;
      long_term_key = msg.long_term_key;
      long_term_valid = msg.long_term_valid;
      valid = true;
    } in
    let stored = find_sent-save agent.sent_ids entry f refl (same ∙ none_yet) in
    (
      entry,
      rw is_request (
          ap₂ (λ (a : ℕ) (b : List ℕ). find_sent (save agent.sent_ids entry) a b) (sym same_method)
            (sym same_id)
          ∙ stored),
      refl,
    )

remember-IsRemembered :
    (agent : Agent) (msg : Message) (key : Option (List ℕ)) (r : ℕ × Agent × Message)
    → remember agent msg key ≡ some r
    → is_full agent.sent_ids ≡ false
    → get_class r.2 ≡ some Class.request
    → IsRemembered agent r
unfolding remember
remember-IsRemembered agent msg key r h f request =
    let (class, c, h1) = >>=-eq-some (get_class msg) _ h in
    let (id, i, h2) = >>=-eq-some (message_id msg) _ h1 in
    let (method, m, h3) = >>=-eq-some (get_method msg) _ h2 in
    let (len, l, h4) = >>=-eq-some (message_length msg) _ h3 in
    let same = some_injective (remembered agent msg key class id method len) r h4 in
    subst (λ q. get_class q.2 ≡ some Class.request → IsRemembered agent q) same
      (remembered-IsRemembered agent msg key class id method len c i m f) request

-- A failure has the length 0.
not_failed :
    (agent : Agent) (msg : Message) (r : ℕ × Agent × Message)
    → some (0, agent, msg) ≡ some r
    → 0 < r.0
    → IsRemembered agent r
not_failed agent msg r h pos =
    absurd
      (omega (arith, ap (λ (q : ℕ × Agent × Message). q.0) (some_injective (0, agent, msg) r h)))

-- A request that `stun_agent_finish_message` finishes, with a length that is not 0, is remembered: a reply
-- with its id and its method is found in the table of the agent, with the key that the request was
-- finished with, if the table had room and no entry that this reply could be taken for.
pub finish_message-IsRemembered :
    (hashes : Hashes) (agent : Agent) (msg : Message) (key : Option (List ℕ))
    (r : ℕ × Agent × Message)
    → finish_message hashes agent msg key ≡ some r
    → 0 < r.0
    → is_full agent.sent_ids ≡ false
    → get_class r.2 ≡ some Class.request
    → IsRemembered agent r
unfolding finish_message
finish_message-IsRemembered hashes agent msg key r h pos f request =
    let (class, c, h1) = >>=-eq-some (get_class msg) _ h in
    elim (Bool-cases (class == Class.request && is_full agent.sent_ids)) [
      | inl e ↦ not_failed agent msg r (rw e at h1) pos
      | inr e ↦
          let (integrity, a, h2) =
            >>=-eq-some (add_integrity hashes agent.config msg (own_key msg.key key)) _
              (rw e at h1) in
          elim (Bool-cases integrity.0) [
            | inr no_room ↦ not_failed agent integrity.1 r (rw no_room at h2) pos
            | inl room ↦
                let (finger, b, h3) =
                  >>=-eq-some (add_fingerprint agent.config integrity.1) _ (rw room at h2) in
                elim (Bool-cases finger.0) [
                  | inr no_room ↦ not_failed agent finger.1 r (rw no_room at h3) pos
                  | inl room' ↦
                      remember-IsRemembered agent finger.1 (own_key msg.key key) r (rw room' at h3)
                        f request
                ]
          ]
    ]
