-- ===== src/Agent/Fifo/Ring.antt =====
-- What the ring holds, and what a copy out of it and into it does.
use libnice4android.Prelude.{
  ℕ, zero, suc, ◌+◌, ◌-◌, ◌%◌, ◌^◌, ◌<◌, ◌≤◌, ◌≡◌, refl, sym, ap, ap₂, ◌∙◌, arith, some, List, [],
  ◌∷◌, ◌++◌, ltb, if◌then◌else◌, length, take, drop, get_or, length-append, length-take,
  length-drop,
}
use native.Mathlib.Nat.{mod-eq_of_lt, mod-eq-sub-mod}
use libnice4android.Stun.Message.{read}
use libnice4android.Agent.Fifo.{Fifo, lesser, copy_out}

-- The invariant of an allocated ring. The bound keeps the sums of positions below 2^64.
pub record IsFifo (b : Fifo) : Type 0 where
  pub sized : length b.buffer ≡ b.buffer_length
  pub some_room : 0 < b.buffer_length
  pub small : b.buffer_length < 2 ^ 61
  pub filled : b.data_length ≤ b.buffer_length
  pub inside : b.read_position < b.buffer_length

-- A position modulo the length of the ring, less than one turn too far.
pub wrapped : (x size : ℕ) → x < size + size → x % size ≡ (if ltb x size then x else x - size)
wrapped x size h = grind (
  arith,
  mod-eq_of_lt {n = x} {m = size},
  mod-eq_of_lt {n = x - size} {m = size},
  mod-eq-sub-mod {n = x} {m = size},
)

-- Lists of the same length with the same entries are equal.
pub list_ext :
    (xs ys : List ℕ)
    → length xs ≡ length ys
    → ((i : ℕ) → i < length xs → get_or xs i 0 ≡ get_or ys i 0)
    → xs ≡ ys
list_ext [] [] h same = refl
list_ext [] (y ∷ ys) h same = absurd (omega arith)
list_ext (x ∷ xs) [] h same = absurd (omega arith)
list_ext (x ∷ xs) (y ∷ ys) h same =
    ap₂ ◌∷◌ (same 0 (omega arith))
      (list_ext xs ys (omega arith) (λ i lt. same (suc i) (omega arith)))

pub get_or-take : (n : ℕ) (xs : List ℕ) (i : ℕ) → i < n → get_or (take n xs) i 0 ≡ get_or xs i 0
get_or-take zero xs i h = absurd (omega arith)
get_or-take (suc n) [] i h = refl
get_or-take (suc n) (x ∷ xs) zero h = refl
get_or-take (suc n) (x ∷ xs) (suc i) h = get_or-take n xs i (omega arith)

pub get_or-drop : (n : ℕ) (xs : List ℕ) (i : ℕ) → get_or (drop n xs) i 0 ≡ get_or xs (n + i) 0
get_or-drop zero xs i = ap (λ k. get_or xs k 0) {x = i} {y = 0 + i} (omega arith)
get_or-drop (suc n) [] i = refl
get_or-drop (suc n) (x ∷ xs) i =
    get_or-drop n xs i
    ∙ ap (λ k. get_or (x ∷ xs) k 0) {x = suc (n + i)} {y = suc n + i} (omega arith)

pub get_or-append :
    (xs ys : List ℕ) (i : ℕ)
    → get_or (xs ++ ys) i 0
      ≡ (if ltb i (length xs) then get_or xs i 0 else get_or ys (i - length xs) 0)
get_or-append [] ys i = ground arith
get_or-append (x ∷ xs) ys zero = ground arith
get_or-append (x ∷ xs) ys (suc i) = get_or-append xs ys i ∙ ground arith

-- The `n` values of `f` from 0 on.
abbrev pub tabulate : ℕ → (ℕ → ℕ) → List ℕ
tabulate zero f = []
tabulate (suc n) f = f 0 ∷ tabulate n (λ i. f (suc i))

pub length-tabulate : (n : ℕ) (f : ℕ → ℕ) → length (tabulate n f) ≡ n
length-tabulate zero f = refl
length-tabulate (suc n) f = ap suc (length-tabulate n (λ i. f (suc i)))

pub get_or-tabulate : (n : ℕ) (f : ℕ → ℕ) (i : ℕ) → i < n → get_or (tabulate n f) i 0 ≡ f i
get_or-tabulate zero f i h = absurd (omega arith)
get_or-tabulate (suc n) f zero h = refl
get_or-tabulate (suc n) f (suc i) h = get_or-tabulate n (λ j. f (suc j)) i (omega arith)

-- The byte `i` places after position `p` in a ring.
abbrev pub at : List ℕ → ℕ → ℕ → ℕ
at buffer p i = get_or buffer ((p + i) % length buffer) 0

-- The bytes that a ring holds, oldest first.
unfoldable pub contents : Fifo → List ℕ
contents b = tabulate b.data_length (at b.buffer b.read_position)

read_inside : (xs : List ℕ) (p n : ℕ) → p + n ≤ length xs → read xs p n ≡ some (take n (drop p xs))
unfolding read
read_inside xs p n h = ground arith

-- A copy out of the ring stays inside it, and gives the bytes in their order around the ring.
pub copy_out_lem :
    (buffer : List ℕ) (p copy : ℕ)
    → p < length buffer
    → copy ≤ length buffer
    → copy_out buffer p (lesser copy (length buffer - p)) copy ≡ some (tabulate copy (at buffer p))
unfolding copy_out
copy_out_lem buffer p copy hp hc =
    rw (read_inside buffer p tail (ground arith), read_inside buffer 0 (copy - tail) (ground arith))
      (ap some (
        list_ext both (tabulate copy (at buffer p))
          (long ∙ sym (length-tabulate copy (at buffer p))) same))
  where
    tail : ℕ
    tail = lesser copy (length buffer - p)

    both : List ℕ
    both = take tail (drop p buffer) ++ take (copy - tail) buffer

    first : length (take tail (drop p buffer)) ≡ tail
    first = ground (arith, length-take tail (drop p buffer), length-drop p buffer)

    long : length both ≡ copy
    long = ground (
      arith,
      length-append (take tail (drop p buffer)) (take (copy - tail) buffer),
      first,
      length-take (copy - tail) buffer,
    )

    same : (i : ℕ) → i < length both → get_or both i 0 ≡ get_or (tabulate copy (at buffer p)) i 0
    same i lt = grind (
      arith,
      long,
      first,
      get_or-tabulate copy (at buffer p) i,
      wrapped (p + i) (length buffer),
      get_or-append (take tail (drop p buffer)) (take (copy - tail) buffer) i,
      get_or-take tail (drop p buffer) i,
      get_or-drop p buffer i,
      get_or-take (copy - tail) buffer (i - tail),
    )
