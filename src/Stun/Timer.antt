-- ===== src/Stun/Timer.antt =====
-- stun/usages/timer.c: the retransmission timer. The clock is read by the caller, and passed in.
pub mod Laws
use libnice4android.Prelude.{
  ℕ, zero, suc, ◌+◌, ◌-◌, ◌*◌, ◌/◌, ◌%◌, ◌^◌, Bool, ◌&&◌, List, [], ◌∷◌, ltb, leb, ◌==◌,
  if◌then◌else◌,
}

-- `struct timeval`
pub record Timeval : Type 0 where
  pub sec : ℕ
  pub usec : ℕ

-- `struct stun_timer_s`
pub record Timer : Type 0 where
  pub deadline : Timeval
  pub delay : ℕ
  pub retransmissions : ℕ
  pub max_retransmissions : ℕ

-- `StunUsageTimerReturn`
pub data TimerReturn : Type 0 where
  success retransmit timeout : TimerReturn

-- The `while` loop of `add_delay`; each round takes 1000000 off `usec`, so `usec` rounds suffice.
unfoldable pub carry : ℕ → Timeval → Timeval
carry zero ts = ts
carry (suc fuel) ts =
    let rest = carry fuel (record { sec = ts.sec + 1; usec = ts.usec - 1000000 }) in
    if ltb 1000000 ts.usec then rest else ts

-- `delay` is in milliseconds.
unfoldable pub add_delay : Timeval → ℕ → Timeval
add_delay ts delay =
    let usec = ts.usec + delay % 1000 * 1000 in
    carry usec (record { sec = ts.sec + delay / 1000; usec = usec })

unfoldable pub start : Timeval → ℕ → ℕ → Timer
start now initial_timeout max_retransmissions = record {
  deadline = add_delay now initial_timeout;
  delay = initial_timeout;
  retransmissions = 0;
  max_retransmissions = max_retransmissions;
}

unfoldable pub start_reliable : Timeval → ℕ → Timer
unfolding start
start_reliable now initial_timeout = start now initial_timeout 0

-- `delay + (signed) (a - b) / 1000` on `unsigned`; the division rounds towards 0.
unfoldable pub add_millis : ℕ → ℕ → ℕ → ℕ
add_millis delay a b =
    if leb b a
    then (delay + (a - b) / 1000) % 2 ^ 32
    else (delay + 2 ^ 32 - (b - a) / 1000) % 2 ^ 32

unfoldable pub remainder : Timer → Timeval → ℕ
unfolding add_millis
remainder timer now =
    if ltb timer.deadline.sec now.sec
    then 0
    else (let delay = (timer.deadline.sec - now.sec) % 2 ^ 32 in
        if delay == 0 && leb timer.deadline.usec now.usec
        then 0
        else add_millis (delay * 1000 % 2 ^ 32) timer.deadline.usec now.usec)

-- The status, and the timer afterwards.
unfoldable pub refresh : Timer → Timeval → TimerReturn × Timer
refresh timer now =
    if remainder timer now == 0
    then (if leb timer.max_retransmissions timer.retransmissions
        then (timeout, timer)
        else (let delay = timer.delay * 2 % 2 ^ 32 in
            (
              retransmit,
              record timer {
                deadline = add_delay timer.deadline delay;
                delay = delay;
                retransmissions = (timer.retransmissions + 1) % 2 ^ 32;
              },
            )))
    else (success, timer)
