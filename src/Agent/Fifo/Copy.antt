-- ===== src/Agent/Fifo/Copy.antt =====
-- The two copies of a write, around the end of the ring.
use libnice4android.Prelude.{
  ℕ, ◌+◌, ◌-◌, ◌%◌, ◌<◌, ◌≤◌, ◌≡◌, refl, sym, ap, ◌∙◌, arith, List, ◌++◌, ltb, if◌then◌else◌,
  length, take, drop, get_or, length-append, length-take, length-drop, Bool-cases, ltb→lt, inl, inr,
}
use native.Mathlib.Nat.{mod-lt, mod-add-mod, add-mod_right}
use libnice4android.Stun.Bytes.{blit}
use libnice4android.Stun.Bytes.Laws.{
  length-blit, get_or-blit_inside, get_or-blit_before, get_or-blit_after,
}
use libnice4android.Agent.Fifo.{lesser}
use libnice4android.Agent.Fifo.Ring.{
  wrapped, list_ext, get_or-take, get_or-drop, get_or-append, tabulate, length-tabulate,
  get_or-tabulate, at,
}

-- The ring's array after the two copies of a write at position `p`.
abbrev pub copied_in : List ℕ → ℕ → ℕ → List ℕ → List ℕ
copied_in buffer p copy input =
    let tail = lesser copy (length buffer - p) in
    blit (blit buffer p (take tail input)) 0 (take (copy - tail) (drop tail input))

-- Around the ring from `p` on, the written bytes come first and the others are as they were.
copied_in-at :
    (buffer : List ℕ) (p copy : ℕ) (input : List ℕ) (i : ℕ)
    → p < length buffer
    → copy ≤ length buffer
    → copy ≤ length input
    → i < length buffer
    → get_or (copied_in buffer p copy input) ((p + i) % length buffer) 0
      ≡ (if ltb i copy then get_or input i 0 else at buffer p i)
copied_in-at buffer p copy input i hp hc hi h = grind (
  arith,
  wrapped (p + i) (length buffer),
  straight,
  turned,
  ap (λ k. get_or buffer k 0) {x = (p + i) % length buffer},
)
  where
    tail : ℕ
    tail = lesser copy (length buffer - p)

    first : List ℕ
    first = take tail input

    second : List ℕ
    second = take (copy - tail) (drop tail input)

    long1 : length first ≡ tail
    long1 = ground (arith, length-take tail input)

    long2 : length second ≡ copy - tail
    long2 = ground (arith, length-take (copy - tail) (drop tail input), length-drop tail input)

    inner : ℕ → ℕ
    inner q = get_or (blit buffer p first) q 0

    outer : ℕ → ℕ
    outer q = get_or (copied_in buffer p copy input) q 0

    straight :
        p + i < length buffer
        → outer (p + i) ≡ (if ltb i copy then get_or input i 0 else get_or buffer (p + i) 0)
    straight lt =
        get_or-blit_after (blit buffer p first) 0 second (p + i) (ground (arith, long2))
        ∙ elim (Bool-cases (ltb i copy)) [
          | inl e ↦ rw e (
              get_or-blit_inside buffer p first (p + i) (ground (arith, long1)) (omega arith)
                (ground (arith, long1, e))
              ∙ ap (λ k. get_or first k 0) (omega arith)
              ∙ get_or-take tail input i (ground (arith, e)))
          | inr e ↦ rw e (get_or-blit_after buffer p first (p + i) (ground (arith, long1, e)))
        ]

    turned :
        length buffer ≤ p + i
        → outer (p + i - length buffer)
          ≡ (if ltb i copy then get_or input i 0 else get_or buffer (p + i - length buffer) 0)
    turned le = elim (Bool-cases (ltb i copy)) [
      | inl e ↦ rw e (
          get_or-blit_inside (blit buffer p first) 0 second (p + i - length buffer)
            (ground (arith, long2, length-blit buffer p first)) (omega arith)
            (ground (arith, long2, e))
          ∙ ap (λ k. get_or second k 0) {x = p + i - length buffer - 0} {y = p + i - length buffer}
              (omega arith)
          ∙ get_or-take (copy - tail) (drop tail input) (p + i - length buffer) (ground (arith, e))
          ∙ get_or-drop tail input (p + i - length buffer)
          ∙ ap (λ k. get_or input k 0) {x = tail + (p + i - length buffer)} {y = i}
              (ground (arith, e)))
      | inr e ↦ rw e (
          get_or-blit_after (blit buffer p first) 0 second (p + i - length buffer)
            (ground (arith, long2, e))
          ∙ get_or-blit_before buffer p first (p + i - length buffer) (omega arith))
    ]

pub copied_in-length :
    (buffer : List ℕ) (p copy : ℕ) (input : List ℕ)
    → length (copied_in buffer p copy input) ≡ length buffer
copied_in-length buffer p copy input =
    length-blit (blit buffer p (take (lesser copy (length buffer - p)) input)) 0
      (take (copy - lesser copy (length buffer - p)) (drop (lesser copy (length buffer - p)) input))
    ∙ length-blit buffer p (take (lesser copy (length buffer - p)) input)

-- A write right after `n` bytes of the ring extends them, if it does not come round to them.
module _ (buffer : List ℕ) (start n copy : ℕ) (input : List ℕ) (inside : start < length buffer)
    (free : n + copy ≤ length buffer) (given : copy ≤ length input) where
  abbrev pub next : ℕ
  next = (start + n) % length buffer

  abbrev pub copied : List ℕ
  copied = copied_in buffer next copy input

  at_place :
      (i k : ℕ)
      → i < length buffer
      → (next + i) % length buffer ≡ (start + k) % length buffer
      → at copied start k ≡ (if ltb i copy then get_or input i 0 else at buffer start k)
  at_place i k lt e =
      rw (copied_in-length buffer next copy input, ← e)
        (copied_in-at buffer next copy input i (mod-lt (start + n) (omega arith)) (omega arith)
          given lt)

  old_place : (k : ℕ) → k < n → at copied start k ≡ at buffer start k
  old_place k lt =
      at_place (k + length buffer - n) k (omega arith) (
        mod-add-mod (start + n) (length buffer) (k + length buffer - n)
        ∙ ap (λ t. t % length buffer) {x = start + n + (k + length buffer - n)}
            {y = start + k + length buffer} (omega arith)
        ∙ add-mod_right (start + k) (length buffer))
      ∙ ground arith

  new_place : (i : ℕ) → i < copy → at copied start (n + i) ≡ get_or input i 0
  new_place i lt =
      at_place i (n + i) (omega arith) (
        mod-add-mod (start + n) (length buffer) i
        ∙ ap (λ t. t % length buffer) {x = start + n + i} {y = start + (n + i)} (omega arith))
      ∙ ground arith

  pub run_extended :
      tabulate (n + copy) (at copied start) ≡ tabulate n (at buffer start) ++ take copy input
  run_extended =
      list_ext (tabulate (n + copy) (at copied start)) (olds ++ take copy input)
        (omega (
          arith,
          length-tabulate (n + copy) (at copied start),
          length-append olds (take copy input),
          length-tabulate n (at buffer start),
          length-take copy input,
        ))
        entry
    where
      olds : List ℕ
      olds = tabulate n (at buffer start)

      entry :
          (k : ℕ)
          → k < length (tabulate (n + copy) (at copied start))
          → get_or (tabulate (n + copy) (at copied start)) k 0
            ≡ get_or (olds ++ take copy input) k 0
      entry k lt =
          let lt' : k < n + copy = omega (arith, length-tabulate (n + copy) (at copied start)) in
          get_or-tabulate (n + copy) (at copied start) k lt' ∙ elim (Bool-cases (ltb k n)) [
            | inl e ↦
                old_place k (ltb→lt k n e)
                ∙ sym (get_or-tabulate n (at buffer start) k (ltb→lt k n e))
                ∙ sym (
                    get_or-append olds (take copy input) k
                    ∙ rw (length-tabulate n (at buffer start), e) refl)
            | inr e ↦
                let le : n ≤ k = ground arith in
                ap (at copied start) {x = k} {y = n + (k - n)} (omega arith)
                ∙ new_place (k - n) (omega arith)
                ∙ sym (get_or-take copy input (k - n) (omega arith))
                ∙ sym (
                    get_or-append olds (take copy input) k
                    ∙ rw (length-tabulate n (at buffer start), e) refl)
          ]
