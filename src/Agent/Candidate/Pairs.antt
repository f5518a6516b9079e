-- ===== src/Agent/Candidate/Pairs.antt =====
-- The priority of a candidate pair against the formula of the ICE specification.
use libnice4android.Prelude.{ℕ, ◌+◌, ◌*◌, ◌^◌, ◌<◌, ◌≡◌, arith, ltb, if◌then◌else◌, ◌↔◌}
use Prim.Native.Nat.{min, max}
use libnice4android.Agent.Candidate.{pair_priority}

-- 2^32 * MIN(G, D) + 2 * MAX(G, D) + (G > D ? 1 : 0)
unfoldable pub specified_priority : ℕ → ℕ → ℕ
specified_priority g d = 2 ^ 32 * min g d + 2 * max g d + (if ltb d g then 1 else 0)

-- For priorities below 2^32, the code computes the priority of a pair that the ICE specification
-- gives exactly when both priorities are below 2^31.
pub pair_priority_iff :
    (o a : ℕ)
    → o < 2 ^ 32
    → a < 2 ^ 32
    → (pair_priority o a ≡ specified_priority o a) ↔ (max o a < 2 ^ 31)
unfolding pair_priority specified_priority
pair_priority_iff o a ho ha = (λ h. ground arith, λ h. ground arith)

-- Below 2^31 the priority of a pair determines both candidates' priorities, and which is whose.
pub pair_priority_injective :
    (o a o' a' : ℕ)
    → o < 2 ^ 31
    → a < 2 ^ 31
    → o' < 2 ^ 31
    → a' < 2 ^ 31
    → pair_priority o a ≡ pair_priority o' a'
    → (o ≡ o') × (a ≡ a')
unfolding pair_priority
pair_priority_injective o a o' a' h1 h2 h3 h4 e = ground arith
