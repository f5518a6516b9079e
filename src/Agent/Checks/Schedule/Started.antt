-- ===== src/Agent/Checks/Schedule/Started.antt =====
-- What a check that is made does to the list of its pairs.
use libnice4android.Prelude.{
  ℕ, ◌+◌, Bool, true, false, Option, none, some, List, if◌then◌else◌, ◌≡◌, refl, ap, sym, ◌∙◌,
  arith,
}
use libnice4android.Stun.Agent.{SavedId}
use libnice4android.Agent.Checks.{
  CheckState, in_progress, Component, Stream, CheckPair, Context, Environment,
}
use libnice4android.Agent.Checks.CheckList.{set_pair, find_pair}
use libnice4android.Agent.Checks.Schedule.Send.{send_with, send_for, conn_check_send, initiate}
use libnice4android.Agent.Checks.Schedule.Progress.{
  weight, work, shape, work-set_pair, shape-set_pair, set_pair-set_pair,
}

-- A list with one pair replaced by one that is in progress.
pub record IsStarted (pairs : List CheckPair) (p : CheckPair) (result : List CheckPair)
    : Type 0 where
  pub started : CheckPair
  pub address_eq : started.address ≡ p.address
  pub priority_eq : started.priority ≡ p.priority
  pub state_eq : started.state ≡ in_progress
  pub result_eq : result ≡ set_pair pairs started

send_with-IsStarted :
    (env : Environment) (agent : Context) (stream : Stream) (c : Component) (p : CheckPair)
    (m : Option (List ℕ × List SavedId))
    → p.state ≡ in_progress
    → IsStarted stream.conncheck_list p (send_with env agent stream c p m).1.conncheck_list
unfolding send_with
send_with-IsStarted env agent stream c p none e = record {
  started = record p { stun_message = none };
  address_eq = refl;
  priority_eq = refl;
  state_eq = e;
  result_eq = refl;
}
send_with-IsStarted env agent stream c p (some (id, table)) e = record {
  started = _;
  address_eq = refl;
  priority_eq = refl;
  state_eq = e;
  result_eq = refl;
}

abbrev marked : Bool → CheckPair → CheckPair
marked controlling p = if controlling then record p { nominated = true } else p

marked_state : (b : Bool) (p : CheckPair) → (marked b p).state ≡ p.state
marked_state true p = refl
marked_state false p = refl

marked_address : (b : Bool) (p : CheckPair) → (marked b p).address ≡ p.address
marked_address true p = refl
marked_address false p = refl

marked_priority : (b : Bool) (p : CheckPair) → (marked b p).priority ≡ p.priority
marked_priority true p = refl
marked_priority false p = refl

-- A list of which the same pair was set before.
IsStarted-again :
    (pairs : List CheckPair) (p q : CheckPair) {before result : List CheckPair}
    → before ≡ set_pair pairs p
    → IsStarted before q result
    → q.address ≡ p.address
    → q.priority ≡ p.priority
    → IsStarted pairs p result
IsStarted-again pairs p q h s a b = record {
  started = s.started;
  address_eq = s.address_eq ∙ a;
  priority_eq = s.priority_eq ∙ b;
  state_eq = s.state_eq;
  result_eq =
      s.result_eq
      ∙ ap (λ (l : List CheckPair). set_pair l s.started) h
      ∙ set_pair-set_pair pairs p s.started (sym (s.address_eq ∙ a));
}

send_for-IsStarted :
    (env : Environment) (agent : Context) (stream : Stream) (pairs : List CheckPair) (p : CheckPair)
    (o : Option Component)
    → p.state ≡ in_progress
    → stream.conncheck_list ≡ set_pair pairs p
    → IsStarted pairs p (send_for env agent stream p o).1.conncheck_list
unfolding send_for
send_for-IsStarted env agent stream pairs p none e h = record {
  started = p;
  address_eq = refl;
  priority_eq = refl;
  state_eq = e;
  result_eq = h;
}
send_for-IsStarted env agent stream pairs p (some c) e h =
    let q = if agent.controlling_mode then record p { nominated = true } else p in
    let started = marked_state agent.controlling_mode p ∙ e in
    IsStarted-again pairs p q h (send_with-IsStarted env agent stream c q _ started)
      (marked_address agent.controlling_mode p) (marked_priority agent.controlling_mode p)

pub initiate-IsStarted :
    (env : Environment) (agent : Context) (stream : Stream) (p : CheckPair)
    → IsStarted stream.conncheck_list p (initiate env agent stream p).1.conncheck_list
unfolding initiate conn_check_send
initiate-IsStarted env agent stream p =
    let s = send_for-IsStarted env agent _ stream.conncheck_list _ _ refl refl in
    record {
      started = s.started;
      address_eq = s.address_eq;
      priority_eq = s.priority_eq;
      state_eq = s.state_eq;
      result_eq = s.result_eq;
    }

-- A check that is started for a pair of the list takes the work of this pair off.
module _ (env : Environment) (agent : Context) (stream : Stream) (p q : CheckPair)
    (found : find_pair stream.conncheck_list p.address ≡ some q)
    (same : p.priority ≡ q.priority) where
  pub work-initiate :
      work (initiate env agent stream p).1.conncheck_list + weight q.state
      ≡ work stream.conncheck_list
  work-initiate =
      let s = initiate-IsStarted env agent stream p in
      let at = ap (λ (a : ℕ). find_pair stream.conncheck_list a) s.address_eq ∙ found in
      omega (
        arith,
        ap (λ (l : List CheckPair). work l) s.result_eq,
        work-set_pair q s.started stream.conncheck_list at,
        ap (λ (t : CheckState). weight t) s.state_eq,
      )

  pub shape-initiate :
      shape (initiate env agent stream p).1.conncheck_list ≡ shape stream.conncheck_list
  shape-initiate =
      let s = initiate-IsStarted env agent stream p in
      let at = ap (λ (a : ℕ). find_pair stream.conncheck_list a) s.address_eq ∙ found in
      ap (λ (l : List CheckPair). shape l) s.result_eq
      ∙ shape-set_pair q s.started stream.conncheck_list at (s.priority_eq ∙ same)
