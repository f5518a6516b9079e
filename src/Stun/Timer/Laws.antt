-- ===== src/Stun/Timer/Laws.antt =====
-- When the timer fires, and how often.
use libnice4android.Prelude.{
  ℕ, zero, suc, ◌+◌, ◌-◌, ◌*◌, ◌/◌, ◌%◌, ◌^◌, ◌<◌, ◌≤◌, ◌≡◌, refl, sym, ap, ◌∙◌, arith, List, [],
  ◌∷◌, ltb, leb, ◌==◌, if◌then◌else◌, Bool-cases, inl, inr, ◌⊎◌, ◌≢◌,
}
use mathlib.Core.Path.{subst}
use native.Mathlib.Nat.{pow-suc}
use libnice4android.Stun.Timer.{
  Timeval, Timer, TimerReturn, success, retransmit, timeout, carry, add_delay, start, remainder,
  refresh,
}

-- A time in microseconds.
abbrev pub micros : Timeval → ℕ
micros ts = ts.sec * 1000000 + ts.usec

-- The loop ends with at most one second of microseconds, and keeps the time.
carry_lem :
    (fuel : ℕ) (ts : Timeval)
    → ts.usec ≤ fuel
    → (micros (carry fuel ts) ≡ micros ts) × ((carry fuel ts).usec ≤ 1000000)
unfolding carry
carry_lem zero ts h = omega arith
carry_lem (suc fuel) ts h =
    ground (arith, carry_lem fuel (record { sec = ts.sec + 1; usec = ts.usec - 1000000 }))

-- `add_delay` moves a time by exactly the delay, and leaves at most a million microseconds.
pub add_delay_lem :
    (ts : Timeval) (delay : ℕ)
    → (micros (add_delay ts delay) ≡ micros ts + delay * 1000)
      × ((add_delay ts delay).usec ≤ 1000000)
unfolding add_delay
add_delay_lem ts delay = omega (
  arith,
  carry_lem (ts.usec + delay % 1000 * 1000)
      (record { sec = ts.sec + delay / 1000; usec = ts.usec + delay % 1000 * 1000 }) (omega arith),
)

-- A deadline that has come leaves nothing.
pub remainder-zero :
    (timer : Timer) (now : Timeval)
    → timer.deadline.usec ≤ 1000000
    → now.usec < 1000000
    → micros timer.deadline ≤ micros now
    → remainder timer now ≡ 0
unfolding remainder
remainder-zero timer now hd hn h = ground arith

-- Up to a deadline less than a million seconds away, the remainder is the time left, in
-- milliseconds, to less than one millisecond. The microseconds of the deadline are at most a
-- million, and those of the clock below a million.
pub remainder_bounds :
    (timer : Timer) (now : Timeval)
    → timer.deadline.usec ≤ 1000000
    → now.usec < 1000000
    → micros now ≤ micros timer.deadline
    → timer.deadline.sec - now.sec < 1000000
    → (micros timer.deadline < micros now + remainder timer now * 1000 + 1000)
      × (micros now + remainder timer now * 1000 < micros timer.deadline + 1000)
unfolding remainder
remainder_bounds timer now hd hn h far = ground arith

-- What the timer keeps while it runs: the delay has doubled once for each retransmission.
pub record IsRunning (initial max : ℕ) (timer : Timer) : Type 0 where
  pub limit : timer.max_retransmissions ≡ max
  pub within : timer.retransmissions ≤ max
  pub doubled : timer.delay ≡ initial * 2 ^ timer.retransmissions % 2 ^ 32
  pub normal : timer.deadline.usec ≤ 1000000

pub start-IsRunning :
    (now : Timeval) (initial max : ℕ)
    → initial < 2 ^ 32
    → IsRunning initial max (start now initial max)
unfolding start
start-IsRunning now initial max h = record {
  limit = refl;
  within = omega arith;
  doubled = omega arith;
  normal = (add_delay_lem now initial).1;
}

-- Polls of the timer at given times.
unfoldable pub poll : Timer → List Timeval → List TimerReturn
poll timer [] = []
poll timer (now ∷ nows) = let (status, timer') = refresh timer now in status ∷ poll timer' nows

abbrev pub retransmits : List TimerReturn → ℕ
retransmits [] = 0
retransmits (retransmit ∷ rs) = suc (retransmits rs)
retransmits (success ∷ rs) = retransmits rs
retransmits (timeout ∷ rs) = retransmits rs

-- One poll: it retransmits only below the limit, and then counts, doubles the delay and moves the
-- deadline by the new delay.
refresh_cases :
    (timer : Timer) (now : Timeval)
    → timer.retransmissions < 2 ^ 31
    → ((refresh timer now).0 ≡ retransmit)
        × (timer.retransmissions < timer.max_retransmissions)
        × ((refresh timer now).1.retransmissions ≡ timer.retransmissions + 1)
        × ((refresh timer now).1.delay ≡ timer.delay * 2 % 2 ^ 32)
        × ((refresh timer now).1.max_retransmissions ≡ timer.max_retransmissions)
        × ((refresh timer now).1.deadline ≡ add_delay timer.deadline (timer.delay * 2 % 2 ^ 32))
      ⊎ ((refresh timer now).0 ≢ retransmit) × ((refresh timer now).1 ≡ timer)
unfolding refresh
refresh_cases timer now h = elim (Bool-cases (remainder timer now == 0)) [
  | inl e ↦ elim (Bool-cases (leb timer.max_retransmissions timer.retransmissions)) [
    | inl f ↦ inr (rw (e, f) (λ t. cc), rw (e, f))
    | inr f ↦
        inl (rw (e, f), ground arith, rw (e, f) (omega arith), rw (e, f), rw (e, f), rw (e, f))
  ]
  | inr e ↦ inr (rw e (λ t. cc), rw e)
]

-- A refresh keeps what a timer keeps while it runs with a limit below 2^31: the limit, a count of
-- retransmissions within it, a delay that has doubled once for each, modulo 2^32, and at most a
-- million microseconds in its deadline.
pub refresh-IsRunning :
    {initial max : ℕ} {timer : Timer} (now : Timeval)
    → max < 2 ^ 31
    → IsRunning initial max timer
    → IsRunning initial max (refresh timer now).1
refresh-IsRunning {initial} {max} {timer} now big v = elim (refresh_cases timer now (omega arith)) [
  | inl (s, below, r, d, m, dl) ↦
      let pow : initial * 2 ^ (timer.retransmissions + 1)
          ≡ 2 * (initial * 2 ^ timer.retransmissions) =
        ap (λ t. initial * 2 ^ t) {x = timer.retransmissions + 1} {y = suc timer.retransmissions}
          (omega arith)
        ∙ omega (arith, ap (λ (t : ℕ). initial * t) (pow-suc 2 timer.retransmissions)) in
      record {
        limit = m ∙ v.limit;
        within = omega (arith, v.limit);
        doubled = d ∙ omega (arith, v.doubled) ∙ ap (λ t. initial * 2 ^ t % 2 ^ 32) (sym r);
        normal = rw dl (add_delay_lem timer.deadline (timer.delay * 2 % 2 ^ 32)).1;
      }
  | inr (s, same) ↦ subst (IsRunning initial max) (sym same) v
]

retransmits-cons_other :
    (r : TimerReturn) (rs : List TimerReturn)
    → r ≢ retransmit
    → retransmits (r ∷ rs) ≡ retransmits rs
retransmits-cons_other success rs h = refl
retransmits-cons_other timeout rs h = refl
retransmits-cons_other retransmit rs h = absurd (h refl)

poll_bound :
    {initial max : ℕ} (nows : List Timeval) {timer : Timer}
    → max < 2 ^ 31
    → IsRunning initial max timer
    → retransmits (poll timer nows) + timer.retransmissions ≤ max
unfolding poll
poll_bound [] big v = omega (arith, v.within)
poll_bound (now ∷ nows) {timer} big v =
    let ih = poll_bound nows big (refresh-IsRunning now big v) in
    let rest = poll (refresh timer now).1 nows in
    elim (refresh_cases timer now (omega (arith, v.within))) [
      | inl (s, below, r, d, m, dl) ↦ omega (arith, ih, r, ap (λ x. retransmits (x ∷ rest)) s)
      | inr (s, same) ↦ omega (
        arith,
        ih,
        retransmits-cons_other (refresh timer now).0 rest s,
        ap (λ (t : Timer). t.retransmissions) same,
      )
    ]

-- From the start, and whatever the times at which it is polled, a timer asks for at most as many
-- retransmissions as it was started with, if these are below 2^31 and the first delay is below
-- 2^32.
pub poll-start :
    (now : Timeval) (initial max : ℕ) (nows : List Timeval)
    → initial < 2 ^ 32
    → max < 2 ^ 31
    → retransmits (poll (start now initial max) nows) ≤ max
poll-start now initial max nows h big =
    omega (arith, poll_bound nows big (start-IsRunning now initial max h))

-- A timer whose deadline has come asks for a retransmission while it has one left, and for the
-- end of the transaction after that. The microseconds of the deadline are at most a million, and
-- those of the clock below a million.
pub refresh_expired :
    (timer : Timer) (now : Timeval)
    → timer.deadline.usec ≤ 1000000
    → now.usec < 1000000
    → micros timer.deadline ≤ micros now
    → (refresh timer now).0
      ≡ (if ltb timer.retransmissions timer.max_retransmissions then retransmit else timeout)
unfolding refresh
refresh_expired timer now hd hn h = ground (arith, remainder-zero timer now hd hn h)
