-- ===== src/Agent/Checks/CheckList/Limit.antt =====
-- The limit on the number of checks of a list.
use libnice4android.Prelude.{
  ℕ, zero, suc, ◌+◌, ◌-◌, ◌<◌, List, [], ◌∷◌, ltb, ◌≡◌, refl, ap, sym, ◌∙◌, arith, take, Bool-cases,
  inl, inr,
}
use libnice4android.Agent.Checks.{cancelled, is, CheckPair}
use libnice4android.Agent.Checks.CheckList.{prune_cancelled, limit_loop, limit_conn_check_list_size}

take-cons {ℓ} :
    {A : Type ℓ} (n : ℕ) (x : A) (xs : List A) → 0 < n → take n (x ∷ xs) ≡ x ∷ take (n - 1) xs
take-cons zero x xs h = absurd (omega arith)
take-cons (suc n) x xs h = ap (λ (k : ℕ). x ∷ take k xs) {x = n} {y = suc n - 1} (omega arith)

take-nil {ℓ} : {A : Type ℓ} (n : ℕ) → ◌≡◌ {A = List A} [] (take n [])
take-nil zero = refl
take-nil (suc n) = refl

prune_cancelled-limit_loop :
    (pairs : List CheckPair) (upper_limit valid : ℕ)
    → prune_cancelled (limit_loop pairs upper_limit valid)
      ≡ take (upper_limit - valid) (prune_cancelled pairs)
unfolding prune_cancelled limit_loop
prune_cancelled-limit_loop [] upper_limit valid = take-nil (upper_limit - valid)
prune_cancelled-limit_loop (p ∷ more) upper_limit valid = elim (Bool-cases (is p.state cancelled)) [
  | inl e ↦ rw (e, e) (prune_cancelled-limit_loop more upper_limit valid)
  | inr e ↦ elim (Bool-cases (ltb upper_limit (valid + 1))) [
    | inl full ↦
        rw (e, full)
          (prune_cancelled-limit_loop more upper_limit (valid + 1)
            ∙ ap (λ (k : ℕ). take k (prune_cancelled more)) {x = upper_limit - (valid + 1)} {y = 0}
                (ground arith)
            ∙ ap (λ (k : ℕ). take k (p ∷ prune_cancelled more)) {x = 0} {y = upper_limit - valid}
                (ground arith))
    | inr room ↦
        rw (e, room, e)
          (ap (λ (ps : List CheckPair). p ∷ ps)
              (prune_cancelled-limit_loop more upper_limit (valid + 1)
                ∙ ap (λ (k : ℕ). take k (prune_cancelled more)) {x = upper_limit - (valid + 1)}
                    {y = upper_limit - valid - 1} (omega arith))
            ∙ sym (take-cons (upper_limit - valid) p (prune_cancelled more) (ground arith)))
  ]
]

-- After `priv_limit_conn_check_list_size`, the pairs of the list that are not cancelled are the first
-- `upper_limit` of those that were not cancelled before, unchanged and in their order (all of them, if
-- they were no more).
pub prune_cancelled-limit_conn_check_list_size :
    (pairs : List CheckPair) (upper_limit : ℕ)
    → prune_cancelled (limit_conn_check_list_size pairs upper_limit)
      ≡ take upper_limit (prune_cancelled pairs)
unfolding limit_conn_check_list_size
prune_cancelled-limit_conn_check_list_size pairs upper_limit =
    prune_cancelled-limit_loop pairs upper_limit 0
    ∙ ap (λ (k : ℕ). take k (prune_cancelled pairs)) {x = upper_limit - 0} {y = upper_limit}
        (omega arith)
