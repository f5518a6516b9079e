-- ===== src/Agent/Fifo/Write.antt =====
-- Writes into the ring buffer append to the queue.
use libnice4android.Prelude.{
  ℕ, zero, suc, ◌+◌, ◌-◌, ◌%◌, ◌^◌, ◌<◌, ◌≤◌, ◌≡◌, refl, sym, ap, ◌∙◌, arith, false, some, List, [],
  ◌∷◌, ◌++◌, ltb, leb, ◌==◌, length, take, drop, length-take, Bool-cases, inl, inr,
}
use native.Mathlib.Nat.{mod-lt}
use libnice4android.Stun.Bytes.{write, blit}
use libnice4android.Stun.Bytes.Laws.{length-blit, write_fits}
use libnice4android.Agent.Fifo.{Fifo, lesser, write_offset, write_fifo}
use libnice4android.Agent.Fifo.Ring.{IsFifo, tabulate, at, contents}
use libnice4android.Agent.Fifo.Queue.{take_all}
use libnice4android.Agent.Fifo.Copy.{copied_in, copied_in-length, run_extended}

take-lesser : (n : ℕ) (xs : List ℕ) → take (lesser (length xs) n) xs ≡ take n xs
take-lesser n xs = elim (Bool-cases (ltb (length xs) n)) [
  | inl e ↦ rw e (take_all (length xs) xs (omega arith) ∙ sym (take_all n xs (ground (arith, e))))
  | inr e ↦ rw e refl
]

blit_nil : (xs : List ℕ) (p : ℕ) → blit xs p [] ≡ xs
unfolding blit
blit_nil [] p = refl
blit_nil (x ∷ xs) zero = refl
blit_nil (x ∷ xs) (suc p) = ap (◌∷◌ x) (blit_nil xs p)

copied_in_nothing : (buffer : List ℕ) (p : ℕ) (input : List ℕ) → copied_in buffer p 0 input ≡ buffer
copied_in_nothing buffer p input =
    let zero_tail : lesser 0 (length buffer - p) ≡ 0 = ground arith in
    rw zero_tail (blit_nil (blit buffer p []) 0 ∙ blit_nil buffer p)

-- The two copies of a write stay inside the ring.
module _ (buffer : List ℕ) (p copy : ℕ) (input : List ℕ) (hp : p < length buffer)
    (hc : copy ≤ length buffer) where
  abbrev pub tail_copy : ℕ
  tail_copy = lesser copy (length buffer - p)

  pub first_fits :
      write buffer p (take tail_copy input) ≡ some (blit buffer p (take tail_copy input))
  first_fits =
      write_fits buffer p (take tail_copy input) (ground (arith, length-take tail_copy input))

  pub second_fits :
      write
        (blit buffer p (take tail_copy input))
        0
        (take (copy - tail_copy) (drop tail_copy input))
      ≡ some (copied_in buffer p copy input)
  second_fits =
      write_fits (blit buffer p (take tail_copy input)) 0
        (take (copy - tail_copy) (drop tail_copy input))
        (ground (
          arith,
          length-blit buffer p (take tail_copy input),
          length-take (copy - tail_copy) (drop tail_copy input),
        ))

write_fifo_run :
    {b : Fifo} (input : List ℕ)
    → IsFifo b
    → length input < 2 ^ 61
    → write_fifo b input
      ≡ some (
        lesser (length input) (b.buffer_length - b.data_length),
        record b {
          buffer =
              copied_in b.buffer
                ((b.read_position + b.data_length) % length b.buffer)
                (lesser (length input) (b.buffer_length - b.data_length))
                input;
          data_length = b.data_length + lesser (length input) (b.buffer_length - b.data_length);
        },
      )
unfolding write_fifo write_offset
write_fifo_run {b} input v h = elim (Bool-cases (leb b.buffer_length b.data_length)) [
  | inl e ↦
      let nothing : lesser (length input) (b.buffer_length - b.data_length) ≡ 0 =
        ground (arith, e) in
      rw
        (
          occupied,
          filled,
          e,
          nothing,
          copied_in_nothing b.buffer ((b.read_position + b.data_length) % length b.buffer) input,
        )
        (ap (λ k. some (0, record b { data_length = k })) {x = (b.data_length + 0) % 2 ^ 64}
          {y = b.data_length + 0} (omega arith))
  | inr e ↦
      rw
        (
          occupied,
          filled,
          e,
          room,
          place,
          sym v.sized,
          first_fits b.buffer next copy input inside fits,
          second_fits b.buffer next copy input inside fits,
        )
        (ap
          (λ k. some (
            copy,
            record b {
              buffer = copied_in b.buffer next copy input;
              buffer_length = length b.buffer;
              data_length = k;
            },
          ))
          cut)
]
  where
    occupied : (b.buffer_length == 0) ≡ false
    occupied = ground (arith, v.some_room)

    filled : (b.data_length + 0) % 2 ^ 64 ≡ b.data_length
    filled = omega (arith, v.filled, v.small)

    room :
        (b.buffer_length + 2 ^ 64 - b.data_length + 2 ^ 64 - 0) % 2 ^ 64
        ≡ b.buffer_length - b.data_length
    room = omega (arith, v.filled, v.small)

    place : (b.read_position + b.data_length + 0) % 2 ^ 64 ≡ b.read_position + b.data_length
    place = omega (arith, v.filled, v.small, v.inside)

    next : ℕ
    next = (b.read_position + b.data_length) % length b.buffer

    copy : ℕ
    copy = lesser (length input) (length b.buffer - b.data_length)

    inside : next < length b.buffer
    inside = mod-lt (b.read_position + b.data_length) (omega (arith, v.sized, v.some_room))

    fits : copy ≤ length b.buffer
    fits = ground arith

    cut : (b.data_length + copy) % 2 ^ 64 ≡ b.data_length + copy
    cut = ground (arith, v.sized, v.filled, v.small)

-- On a ring that keeps its invariant, a write of fewer than 2^61 bytes appends to the queue as
-- many of them as there is room for, reports how many, keeps the invariant and the capacity, and
-- stays inside the ring.
pub write_fifo-contents :
    {b : Fifo} (input : List ℕ)
    → IsFifo b
    → length input < 2 ^ 61
    → (b' : Fifo) × (write_fifo b input
        ≡ some (lesser (length input) (b.buffer_length - b.data_length), b'))
      × IsFifo b'
      × (b'.buffer_length ≡ b.buffer_length)
      × (contents b' ≡ contents b ++ take (b.buffer_length - b.data_length) input)
unfolding write_fifo write_offset
write_fifo-contents {b} input v h = (after, run, after-IsFifo, refl, unfold contents in joined)
  where
    room : ℕ
    room = b.buffer_length - b.data_length

    copy : ℕ
    copy = lesser (length input) room

    copy_room : copy ≤ room
    copy_room = ground arith

    given : copy ≤ length input
    given = ground arith

    next : ℕ
    next = (b.read_position + b.data_length) % length b.buffer

    buffer' : List ℕ
    buffer' = copied_in b.buffer next copy input

    after : Fifo
    after = record b { buffer = buffer'; data_length = b.data_length + copy }

    after-IsFifo : IsFifo after
    after-IsFifo = record {
      sized = copied_in-length b.buffer next copy input ∙ v.sized;
      some_room = v.some_room;
      small = v.small;
      filled = omega (arith, v.filled, copy_room);
      inside = v.inside;
    }

    same_take : take copy input ≡ take room input
    same_take = take-lesser room input

    joined :
        tabulate (b.data_length + copy) (at buffer' b.read_position)
        ≡ tabulate b.data_length (at b.buffer b.read_position) ++ take room input
    joined =
        run_extended b.buffer b.read_position b.data_length copy input
          (omega (arith, v.sized, v.inside)) (omega (arith, v.sized, v.filled, copy_room)) given
        ∙ ap (λ t. tabulate b.data_length (at b.buffer b.read_position) ++ t) same_take

    run : write_fifo b input ≡ some (copy, after)
    run = write_fifo_run input v h
