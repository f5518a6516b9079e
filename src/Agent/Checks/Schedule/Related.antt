-- ===== src/Agent/Checks/Schedule/Related.antt =====
-- Which pairs `priv_conn_check_unfreeze_related` of agent/conncheck.c unfreezes.
use libnice4android.Prelude.{
  ℕ, suc, ◌+◌, Bool, true, false, not, ◌&&◌, some, List, [], ◌∷◌, ◌==◌, if◌then◌else◌, ◌≡◌, ◌≢◌,
  ◌↔◌, ◌⊎◌, refl, ap, ap₂, arith, Bool-cases, inl, inr, All, All-mono, ==_iff,
}
use libnice4android.Stun.Message.{bytes_eq}
use libnice4android.Agent.Address.Laws.{bytes_eq→eq, bytes_eq_sym}
use libnice4android.Agent.Checks.Components.{all_components_ready}
use libnice4android.Agent.Checks.{
  CheckState, frozen, waiting, in_progress, succeeded, failed, cancelled, discovered, is, Stream,
  CheckPair,
}
use libnice4android.Agent.Checks.Schedule.Unfreeze.{
  unfreeze_loop, unfreeze_others, unfreeze_next, set_stream, unfreeze_related,
}

-- Where no pair is selected, the loop changes nothing.
unfreeze_loop_none :
    (selects : ℕ → Bool) (foundation : List ℕ) (pairs : List CheckPair)
    → All (λ p. selects p.stream_id ≡ false) pairs
    → unfreeze_loop selects foundation pairs ≡ (0, pairs)
unfolding unfreeze_loop
unfreeze_loop_none selects foundation [] h = refl
unfreeze_loop_none selects foundation (p ∷ more) h = rw h.0 (
    ap₂ (λ (n : ℕ) (l : List CheckPair). (n, p ∷ l))
      (ap (λ (r : ℕ × List CheckPair). r.0) (unfreeze_loop_none selects foundation more h.1))
      (ap (λ (r : ℕ × List CheckPair). r.1) (unfreeze_loop_none selects foundation more h.1)))

not_selected : (id s other : ℕ) → id ≡ other → (id == s && not (id == other)) ≡ false
not_selected id s other e = ground arith

-- Step 2 of `priv_conn_check_unfreeze_related` unfreezes nothing: it goes through the list of the stream
-- of the check for each stream of the agent, and the pairs of this list are all of that stream.
pub unfreeze_others-nothing :
    (streams : List Stream) (ok_check : CheckPair) (unfrozen : ℕ) (pairs : List CheckPair)
    → All (λ p. p.stream_id ≡ ok_check.stream_id) pairs
    → unfreeze_others streams ok_check unfrozen pairs ≡ (unfrozen, pairs)
unfolding unfreeze_others
unfreeze_others-nothing [] ok_check unfrozen pairs h = refl
unfreeze_others-nothing (s ∷ more) ok_check unfrozen pairs h =
    let idle =
      unfreeze_loop_none (λ id. id == s.id && not (id == ok_check.stream_id)) ok_check.foundation
        pairs (All-mono _ _ pairs (λ p e. not_selected p.stream_id s.id ok_check.stream_id e) h) in
    rw idle (ground (arith, unfreeze_others-nothing more ok_check (unfrozen + 0) pairs h))

-- The frozen pairs of the foundation come to wait, `n` of them; every other pair stays as it is.
pub data Unfrozen (foundation : List ℕ) : List CheckPair → List CheckPair → ℕ → Type 0 where
  nil : Unfrozen foundation [] [] 0
  thawed :
      {p : CheckPair} {more more' : List CheckPair} {n : ℕ}
      → p.state ≡ frozen
      → p.foundation ≡ foundation
      → Unfrozen foundation more more' n
      → Unfrozen foundation (p ∷ more) (record p { state = waiting } ∷ more') (suc n)
  kept :
      {p : CheckPair} {more more' : List CheckPair} {n : ℕ}
      → (p.state ≢ frozen) ⊎ (p.foundation ≢ foundation)
      → Unfrozen foundation more more' n
      → Unfrozen foundation (p ∷ more) (p ∷ more') n

is_frozen_iff : (s : CheckState) → (is s frozen ≡ true) ↔ (s ≡ frozen)
is_frozen_iff frozen = ((λ h. refl), (λ h. refl))
is_frozen_iff waiting = ((λ h. cc), (λ h. cc))
is_frozen_iff in_progress = ((λ h. cc), (λ h. cc))
is_frozen_iff succeeded = ((λ h. cc), (λ h. cc))
is_frozen_iff failed = ((λ h. cc), (λ h. cc))
is_frozen_iff cancelled = ((λ h. cc), (λ h. cc))
is_frozen_iff discovered = ((λ h. cc), (λ h. cc))

-- The first loop, on a list whose pairs all have the stream of the check.
unfreeze_loop-Unfrozen :
    (id : ℕ) (foundation : List ℕ) (pairs : List CheckPair)
    → All (λ p. p.stream_id ≡ id) pairs
    → (let r = unfreeze_loop (λ k. k == id) foundation pairs in Unfrozen foundation pairs r.1 r.0)
unfolding unfreeze_loop
unfreeze_loop-Unfrozen id foundation [] h = nil
unfreeze_loop-Unfrozen id foundation (p ∷ more) h =
    let here : (p.stream_id == id) ≡ true = (==_iff p.stream_id id).1 h.0 in
    let rest = unfreeze_loop-Unfrozen id foundation more h.1 in
    elim (Bool-cases (is p.state frozen)) [
      | inl e ↦ elim (Bool-cases (bytes_eq p.foundation foundation)) [
        | inl f ↦
            rw (here, e, f)
              (thawed ((is_frozen_iff p.state).0 e) (bytes_eq→eq p.foundation foundation f) rest)
        | inr f ↦
            rw (here, e, f) (kept (inr (λ same. other_text p.foundation foundation same f)) rest)
      ]
      | inr e ↦ rw (here, e) (kept (inl (λ same. thawing p.state same e)) rest)
    ]
  where
    other_text : (xs ys : List ℕ) → xs ≡ ys → ¬ (bytes_eq xs ys ≡ false)
    other_text xs ys same f = cc (f, bytes_eq_sym xs ys same)

    thawing : (s : CheckState) → s ≡ frozen → ¬ (is s frozen ≡ false)
    thawing s same e = cc (e, (is_frozen_iff s).1 same)

Unfrozen-All :
    {foundation : List ℕ} {pairs pairs' : List CheckPair} {n : ℕ} (id : ℕ)
    → Unfrozen foundation pairs pairs' n
    → All (λ p. p.stream_id ≡ id) pairs
    → All (λ p. p.stream_id ≡ id) pairs'
Unfrozen-All id nil h = tt
Unfrozen-All id (thawed e f rest) h = (h.0, Unfrozen-All id rest h.1)
Unfrozen-All id (kept e rest) h = (h.0, Unfrozen-All id rest h.1)

-- After the check of a pair succeeded, in a stream whose pairs all have its number:
-- `priv_conn_check_unfreeze_related` lets exactly the frozen pairs of the stream that have the foundation
-- of the pair wait, and changes no other pair and nothing else of them; where there is none, it goes on
-- with `priv_conn_check_unfreeze_next`. No assertion fails, and the other streams stay as they are
-- otherwise.
pub unfreeze_related-Unfrozen :
    (streams : List Stream) (stream : Stream) (ok_check : CheckPair)
    → is ok_check.state succeeded ≡ true
    → stream.id ≡ ok_check.stream_id
    → All (λ p. p.stream_id ≡ ok_check.stream_id) stream.conncheck_list
    → (pairs' : List CheckPair) × (n : ℕ) × Unfrozen ok_check.foundation stream.conncheck_list
        pairs' n
      × (unfreeze_related streams stream ok_check
          ≡ some (
              let thawed_streams = set_stream streams (record stream { conncheck_list = pairs' }) in
              if n == 0 then (unfreeze_next thawed_streams).1 else thawed_streams))
unfolding unfreeze_related
unfreeze_related-Unfrozen streams stream ok_check ended own all =
    let r =
      unfreeze_loop (λ k. k == ok_check.stream_id) ok_check.foundation stream.conncheck_list in
    let step =
      unfreeze_loop-Unfrozen ok_check.stream_id ok_check.foundation stream.conncheck_list all in
    let here : (stream.id == ok_check.stream_id) ≡ true =
      (==_iff stream.id ok_check.stream_id).1 own in
    let idle =
      unfreeze_others-nothing streams ok_check r.0 r.1 (Unfrozen-All ok_check.stream_id step all) in
    (
      r.1,
      r.0,
      step,
      elim (Bool-cases (all_components_ready stream.components)) [
        | inl e ↦ rw (ended, here, e, idle) refl
        | inr e ↦ rw (ended, here, e) refl
      ],
    )
