-- ===== src/Agent/Fifo/Queue.antt =====
-- The ring buffer is a bounded queue of bytes.
use libnice4android.Prelude.{
  ℕ, zero, suc, ◌+◌, ◌-◌, ◌%◌, ◌^◌, ◌<◌, ◌≤◌, ◌≡◌, refl, sym, ap, ◌∙◌, arith, false, some, List, [],
  ◌∷◌, leb, ◌==◌, length, take, drop, get_or, length-take, length-drop, Bool-cases, leb→le, inl,
  inr,
}
use native.Mathlib.Nat.{mod-lt, mod-add-mod}
use libnice4android.Agent.Fifo.{Fifo, lesser, read_offset, read_fifo}
use libnice4android.Agent.Fifo.Ring.{
  IsFifo, list_ext, get_or-take, get_or-drop, tabulate, length-tabulate, get_or-tabulate, at,
  contents, copy_out_lem,
}

-- A run of values from `offset` on is a part of the whole run.
tabulate-slice :
    (f g : ℕ → ℕ) (n offset k m : ℕ)
    → m ≡ lesser k (n - offset)
    → ((i : ℕ) → i < m → g i ≡ f (offset + i))
    → tabulate m g ≡ take k (drop offset (tabulate n f))
tabulate-slice f g n offset k m e same =
    list_ext (tabulate m g) slice (ground (arith, long, length-tabulate m g)) entry
  where
    slice : List ℕ
    slice = take k (drop offset (tabulate n f))

    long : length slice ≡ m
    long = ground (
      arith,
      length-take k (drop offset (tabulate n f)),
      length-drop offset (tabulate n f),
      length-tabulate n f,
    )

    entry : (i : ℕ) → i < length (tabulate m g) → get_or (tabulate m g) i 0 ≡ get_or slice i 0
    entry i lt =
        let lt' : i < m = omega (arith, length-tabulate m g) in
        get_or-tabulate m g i lt'
        ∙ same i lt'
        ∙ sym (get_or-tabulate n f (offset + i) (ground arith))
        ∙ sym (get_or-drop offset (tabulate n f) i)
        ∙ sym (get_or-take k (drop offset (tabulate n f)) i (ground arith))

drop_all : (n : ℕ) (xs : List ℕ) → length xs ≤ n → drop n xs ≡ []
drop_all zero [] h = refl
drop_all zero (x ∷ xs) h = absurd (omega arith)
drop_all (suc n) [] h = refl
drop_all (suc n) (x ∷ xs) h = drop_all n xs (omega arith)

take_nil : (n : ℕ) → take {A = ℕ} n [] ≡ []
take_nil zero = refl
take_nil (suc n) = refl

pub length-contents : (b : Fifo) → length (contents b) ≡ b.data_length
unfolding contents
length-contents b = length-tabulate b.data_length (at b.buffer b.read_position)

-- A run of the ring's bytes that starts `offset` places on.
run_moved :
    (buffer : List ℕ) (p n bytes offset : ℕ)
    → tabulate (lesser bytes (n - offset)) (at buffer ((p + offset) % length buffer))
      ≡ take bytes (drop offset (tabulate n (at buffer p)))
run_moved buffer p n bytes offset =
    tabulate-slice (at buffer p) (at buffer ((p + offset) % length buffer)) n offset bytes
      (lesser bytes (n - offset)) refl
      (λ i lt.
        ap (λ k. get_or buffer k 0)
          (mod-add-mod (p + offset) (length buffer) i
            ∙ ap (λ k. k % length buffer) {x = p + offset + i} {y = p + (offset + i)}
                (omega arith)))

-- On a ring that keeps its invariant, a read at an offset below 2^61 gives the bytes of the queue
-- from there on, up to `bytes` of them, with every access inside the ring.
pub read_offset-contents :
    {b : Fifo} (bytes offset : ℕ)
    → IsFifo b
    → offset < 2 ^ 61
    → read_offset b bytes offset ≡ some (take bytes (drop offset (contents b)))
unfolding read_offset
read_offset-contents {b} bytes offset v h = elim (Bool-cases (leb b.data_length offset)) [
  | inl e ↦
      let none_left : drop offset (contents b) ≡ [] =
        drop_all offset (contents b)
          (omega (arith, length-contents b, leb→le b.data_length offset e)) in
      rw (occupied, e, none_left, take_nil) refl
  | inr e ↦
      let left : (b.data_length + 2 ^ 64 - offset) % 2 ^ 64 ≡ b.data_length - offset =
        ground (arith, v.filled, v.small) in
      let moved : (b.read_position + offset) % 2 ^ 64 ≡ b.read_position + offset =
        omega (arith, v.inside, v.small) in
      rw (occupied, e, left, moved, sym v.sized)
        (copy_out_lem b.buffer ((b.read_position + offset) % length b.buffer)
            (lesser bytes (b.data_length - offset))
            (mod-lt (b.read_position + offset) (omega (arith, v.sized, v.some_room)))
            (ground (arith, v.sized, v.filled))
          ∙ ap some
              (unfold contents in run_moved b.buffer b.read_position b.data_length bytes offset))
]
  where
    occupied : (b.buffer_length == 0) ≡ false
    occupied = ground (arith, v.some_room)

drop-length-take : (n : ℕ) (xs : List ℕ) → drop (length (take n xs)) xs ≡ drop n xs
drop-length-take zero xs = refl
drop-length-take (suc n) [] = refl
drop-length-take (suc n) (x ∷ xs) = drop-length-take n xs

pub take_all : (n : ℕ) (xs : List ℕ) → length xs ≤ n → take n xs ≡ xs
take_all zero [] h = refl
take_all zero (x ∷ xs) h = absurd (omega arith)
take_all (suc n) [] h = refl
take_all (suc n) (x ∷ xs) h = ap (◌∷◌ x) (take_all n xs (omega arith))

-- Moving the start by `offset` places drops as many bytes.
run_dropped :
    (buffer : List ℕ) (p n offset : ℕ)
    → tabulate (n - offset) (at buffer ((p + offset) % length buffer))
      ≡ drop offset (tabulate n (at buffer p))
run_dropped buffer p n offset =
    ap (λ k. tabulate k (at buffer ((p + offset) % length buffer))) {x = n - offset}
      {y = lesser n (n - offset)} (ground arith)
    ∙ run_moved buffer p n n offset
    ∙ take_all n (drop offset (tabulate n (at buffer p))) (
        omega
          (arith, length-drop offset (tabulate n (at buffer p)), length-tabulate n (at buffer p)))

-- On a ring that keeps its invariant, a read gives the oldest bytes of the queue, up to `bytes`
-- of them, leaves the others, and keeps the invariant.
pub read_fifo-contents :
    {b : Fifo} (bytes : ℕ)
    → IsFifo b
    → (b' : Fifo) × (read_fifo b bytes ≡ some (take bytes (contents b), b'))
      × IsFifo b'
      × (contents b' ≡ drop bytes (contents b))
unfolding read_fifo
read_fifo-contents {b} bytes v = (
  after,
  rw (read_offset-contents bytes 0 v (omega arith)) refl,
  record {
    sized = v.sized;
    some_room = v.some_room;
    small = v.small;
    filled = omega (arith, v.filled);
    inside = mod-lt _ v.some_room;
  },
  unfold contents in
      ap (λ k. tabulate (b.data_length - copy) (at b.buffer k)) turned
      ∙ run_dropped b.buffer b.read_position b.data_length copy
      ∙ drop-length-take bytes (tabulate b.data_length (at b.buffer b.read_position)),
)
  where
    copy : ℕ
    copy = length (take bytes (contents b))

    after : Fifo
    after = record b {
      read_position = (b.read_position + copy) % 2 ^ 64 % b.buffer_length;
      data_length = b.data_length - copy;
    }

    turned :
        (b.read_position + copy) % 2 ^ 64 % b.buffer_length
        ≡ (b.read_position + copy) % length b.buffer
    turned = rw (v.sized) (
        ap (λ k. k % b.buffer_length)
          (omega (
            arith,
            v.inside,
            v.small,
            v.filled,
            length-take bytes (contents b),
            length-contents b,
          )))
