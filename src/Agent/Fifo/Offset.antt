-- ===== src/Agent/Fifo/Offset.antt =====
-- Writes at an offset behind the bytes that the ring holds, which are ready to be read later.
use libnice4android.Prelude.{
  ℕ, ◌+◌, ◌-◌, ◌%◌, ◌^◌, ◌<◌, ◌≤◌, ◌≡◌, refl, sym, ap, ◌∙◌, arith, false, some, List, ◌++◌, ltb,
  leb, ◌==◌, length,
}
use native.Mathlib.Nat.{mod-lt}
use libnice4android.Agent.Fifo.{
  Fifo, lesser, write_offset, consume_write_buffer, get_write_remaining,
}
use libnice4android.Agent.Fifo.Ring.{IsFifo, tabulate, at, contents}
use libnice4android.Agent.Fifo.Queue.{take_all}
use libnice4android.Agent.Fifo.Copy.{copied_in, copied_in-length, run_extended}
use libnice4android.Agent.Fifo.Write.{first_fits, second_fits}

-- The ring with `input` written `offset` bytes behind its contents.
abbrev pub written : Fifo → List ℕ → ℕ → Fifo
written b input offset = record b {
  buffer =
      copied_in b.buffer ((b.read_position + b.data_length + offset) % length b.buffer)
        (length input) input;
}

-- The free space of a ring, below 2^64.
pub get_write_remaining_lem :
    {b : Fifo} → IsFifo b → get_write_remaining b ≡ b.buffer_length - b.data_length
unfolding get_write_remaining
get_write_remaining_lem {b} v = omega (arith, v.filled, v.small)

-- With room for all of it, the whole input is written.
pub write_offset_lem :
    {b : Fifo} (input : List ℕ) (offset : ℕ)
    → IsFifo b
    → 0 < length input
    → offset + length input ≤ b.buffer_length - b.data_length
    → write_offset b input offset ≡ some (length input, written b input offset)
unfolding write_offset
write_offset_lem {b} input offset v h0 h =
    rw
      (
        occupied,
        before,
        free,
        whole,
        place,
        sym v.sized,
        first_fits b.buffer next (length input) input inside fits,
        second_fits b.buffer next (length input) input inside fits,
      )
      refl
  where
    occupied : (b.buffer_length == 0) ≡ false
    occupied = ground (arith, v.some_room)

    before : leb b.buffer_length ((b.data_length + offset) % 2 ^ 64) ≡ false
    before = ground (arith, v.small)

    free :
        (b.buffer_length + 2 ^ 64 - b.data_length + 2 ^ 64 - offset) % 2 ^ 64
        ≡ b.buffer_length - b.data_length - offset
    free = omega (arith, v.filled, v.small)

    whole : lesser (length input) (b.buffer_length - b.data_length - offset) ≡ length input
    whole = ground arith

    place :
        (b.read_position + b.data_length + offset) % 2 ^ 64
        ≡ b.read_position + b.data_length + offset
    place = omega (arith, v.filled, v.small, v.inside)

    next : ℕ
    next = (b.read_position + b.data_length + offset) % length b.buffer

    inside : next < length b.buffer
    inside = mod-lt (b.read_position + b.data_length + offset) (omega (arith, v.sized, v.some_room))

    fits : length input ≤ length b.buffer
    fits = omega (arith, v.sized)

pub written-IsFifo :
    {b : Fifo} (input : List ℕ) (offset : ℕ) → IsFifo b → IsFifo (written b input offset)
written-IsFifo {b} input offset v = record {
  sized =
      copied_in-length b.buffer ((b.read_position + b.data_length + offset) % length b.buffer)
        (length input) input
      ∙ v.sized;
  some_room = v.some_room;
  small = v.small;
  filled = v.filled;
  inside = v.inside;
}

-- The ring with `n` more bytes ready.
abbrev pub more : Fifo → ℕ → Fifo
more b n = record b { data_length = b.data_length + n }

pub consume_write_buffer_lem :
    {b : Fifo} (n : ℕ)
    → IsFifo b
    → n ≤ b.buffer_length - b.data_length
    → consume_write_buffer b n ≡ some (more b n)
unfolding consume_write_buffer
consume_write_buffer_lem {b} n v h =
    let free : (b.buffer_length + 2 ^ 64 - b.data_length) % 2 ^ 64
        ≡ b.buffer_length - b.data_length =
      omega (arith, v.filled, v.small) in
    let fits : ltb (b.buffer_length - b.data_length) n ≡ false = ground arith in
    rw (free, fits)
      (ap (λ k. some (record b { data_length = k })) {x = (b.data_length + n) % 2 ^ 64}
        {y = b.data_length + n} (omega (arith, v.small, v.filled)))

pub more-IsFifo :
    {b : Fifo} (n : ℕ) → IsFifo b → n ≤ b.buffer_length - b.data_length → IsFifo (more b n)
more-IsFifo {b} n v h = record {
  sized = v.sized;
  some_room = v.some_room;
  small = v.small;
  filled = omega (arith, v.filled);
  inside = v.inside;
}

-- Input that is written at offset 0 and then made ready is appended to the contents.
pub contents-more-written :
    {b : Fifo} (input : List ℕ)
    → IsFifo b
    → length input ≤ b.buffer_length - b.data_length
    → contents (more (written b input 0) (length input)) ≡ contents b ++ input
unfolding contents
contents-more-written {b} input v h =
    ap
      (λ k.
        tabulate (b.data_length + length input)
          (at (copied_in b.buffer (k % length b.buffer) (length input) input) b.read_position))
      {x = b.read_position + b.data_length + 0} {y = b.read_position + b.data_length} (omega arith)
    ∙ run_extended b.buffer b.read_position b.data_length (length input) input
        (omega (arith, v.sized, v.inside)) (omega (arith, v.sized, v.filled)) (omega arith)
    ∙ ap (λ t. tabulate b.data_length (at b.buffer b.read_position) ++ t)
        (take_all (length input) input (omega arith))
