-- ===== src/Agent/Tcp/Acks/Freed.antt =====
-- The queue of segments covers the bytes that are not acknowledged yet, without gaps.
use libnice4android.Prelude.{
  ℕ, zero, suc, ◌+◌, ◌-◌, ◌^◌, ◌<◌, ◌≤◌, ◌≡◌, refl, ap, arith, some, List, [], ◌∷◌, ltb, inl, inr,
  Bool-cases,
}
use mathlib.Core.Path.{subst}
use libnice4android.Agent.Tcp.{SSegment, add32, greater}
use libnice4android.Agent.Tcp.Acks.{free_segments}

-- Each segment begins where the one before it ends, the first one at `seq`.
abbrev pub Tiles : ℕ → List SSegment → Type 0
Tiles seq [] = Unit
Tiles seq (sseg ∷ more) = (sseg.seq ≡ seq) × Tiles (add32 seq sseg.len) more

abbrev pub total : List SSegment → ℕ
total [] = 0
total (sseg ∷ more) = sseg.len + total more

-- Segments that tile the bytes from `seq` on and hold at least `count` bytes: the assertion holds,
-- and the segments left tile the bytes after the first `count`, all of them.
pub free_segments-Tiles :
    (count : ℕ) (slist : List SSegment) (largest seq : ℕ)
    → Tiles seq slist
    → seq < 2 ^ 32
    → count ≤ total slist
    → (r : List SSegment × ℕ) × (free_segments count slist largest ≡ some r)
      × Tiles (add32 seq count) r.0
      × (total r.0 + count ≡ total slist)
      × (largest ≤ r.1)
unfolding free_segments
free_segments-Tiles zero slist largest seq t h fits = (
  (slist, largest),
  refl,
  subst (λ k. Tiles k slist) {x = seq} {y = add32 seq 0} (omega arith) t,
  omega arith,
  omega arith,
)
free_segments-Tiles (suc n) [] largest seq t h fits = absurd (omega arith)
free_segments-Tiles (suc n) (sseg ∷ more) largest seq (here, t) h fits =
    elim (Bool-cases (ltb (suc n) sseg.len)) [
      | inl e ↦ (
        (record sseg { len = sseg.len - suc n; seq = add32 sseg.seq (suc n) } ∷ more, largest),
        rw e refl,
        (
          ap (λ k. add32 k (suc n)) here,
          subst (λ k. Tiles k more) {x = add32 seq sseg.len} (ground (arith, e)) t,
        ),
        ground (arith, e),
        omega arith,
      )
      | inr e ↦
          let (r, eq, t1, all, low) =
            free_segments-Tiles (suc n - sseg.len) more (greater sseg.len largest)
              (add32 seq sseg.len) t (omega arith) (ground (arith, e)) in
          (
            r,
            rw e eq,
            subst (λ k. Tiles k r.0) (ground (arith, e)) t1,
            ground (arith, e, all),
            ground (arith, low),
          )
    ]
