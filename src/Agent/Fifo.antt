-- ===== src/Agent/Fifo.antt =====
-- agent/pseudotcp.c: `PseudoTcpFifo`, the ring buffer under the send and receive windows.
-- `gsize` has 64 bits. `none` is an access outside an array, a division by zero or a failed
-- assertion.
pub mod Ring
pub mod Queue
pub mod Copy
pub mod Write
pub mod Offset
use libnice4android.Prelude.{
  ℕ, ◌+◌, ◌-◌, ◌%◌, ◌^◌, Bool, true, false, Option, none, some, List, [], ◌∷◌, ◌++◌, ltb, leb, ◌==◌,
  if◌then◌else◌, ◌>>=◌, length, take, drop, replicate,
}
use libnice4android.Stun.Bytes.{write}
use libnice4android.Stun.Message.{read}

pub record Fifo : Type 0 where
  pub buffer : List ℕ
  pub buffer_length : ℕ
  pub data_length : ℕ
  pub read_position : ℕ

abbrev pub lesser : ℕ → ℕ → ℕ
lesser a b = if ltb a b then a else b

-- `pseudo_tcp_fifo_init` on a structure of zeros. The bytes of the allocation are not set; here they
-- are zeros.
unfoldable pub init : ℕ → Fifo
init size = record {
  buffer = replicate size 0;
  buffer_length = size;
  data_length = 0;
  read_position = 0;
}

unfoldable pub clear : Fifo → Fifo
clear b = record b { buffer = []; buffer_length = 0 }

unfoldable pub get_buffered : Fifo → ℕ
get_buffered b = b.data_length

unfoldable pub get_write_remaining : Fifo → ℕ
get_write_remaining b = (b.buffer_length + 2 ^ 64 - b.data_length) % 2 ^ 64

-- The copy out of the ring in two parts, to its end and from its start.
unfoldable pub copy_out : List ℕ → ℕ → ℕ → ℕ → Option (List ℕ)
copy_out buffer position tail_copy copy = do
  tail ← read buffer position tail_copy
  rest ← read buffer 0 (copy - tail_copy)
  some (tail ++ rest)

unfoldable pub set_capacity : Fifo → ℕ → Option (Bool × Fifo)
set_capacity b size =
    if ltb size b.data_length
    then some (false, b)
    else (if size == b.data_length then some (true, b) else (do
      let copy = b.data_length
      let tail_copy = lesser copy ((b.buffer_length + 2 ^ 64 - b.read_position) % 2 ^ 64)
      bytes ← copy_out b.buffer b.read_position tail_copy copy
      buffer ← write (replicate size 0) 0 bytes
      some (true, record b { buffer = buffer; buffer_length = size; read_position = 0 })))

unfoldable pub consume_read_data : Fifo → ℕ → Option Fifo
consume_read_data b size =
    if ltb b.data_length size
    then none
    else (if b.buffer_length == 0
        then none
        else some (record b {
          read_position = (b.read_position + size) % 2 ^ 64 % b.buffer_length;
          data_length = b.data_length - size;
        }))

unfoldable pub consume_write_buffer : Fifo → ℕ → Option Fifo
consume_write_buffer b size =
    if ltb ((b.buffer_length + 2 ^ 64 - b.data_length) % 2 ^ 64) size
    then none
    else some (record b { data_length = (b.data_length + size) % 2 ^ 64 })

-- The bytes that are copied; their number is what the source returns.
unfoldable pub read_offset : Fifo → ℕ → ℕ → Option (List ℕ)
read_offset b bytes offset =
    if b.buffer_length == 0
    then none
    else (let available = (b.data_length + 2 ^ 64 - offset) % 2 ^ 64 in
        let read_position = (b.read_position + offset) % 2 ^ 64 % b.buffer_length in
        let copy = lesser bytes available in
        let tail_copy = lesser copy (b.buffer_length - read_position) in
        if leb b.data_length offset
        then some []
        else copy_out b.buffer read_position tail_copy copy)

-- The caller's buffer is the list `input`. The number of bytes written, and the
-- ring.
unfoldable pub write_offset : Fifo → List ℕ → ℕ → Option (ℕ × Fifo)
write_offset b input offset =
    if b.buffer_length == 0
    then none
    else (let available = (b.buffer_length + 2 ^ 64 - b.data_length + 2 ^ 64 - offset) % 2 ^ 64 in
        let write_position =
          (b.read_position + b.data_length + offset) % 2 ^ 64 % b.buffer_length in
        let copy = lesser (length input) available in
        let tail_copy = lesser copy (b.buffer_length - write_position) in
        if leb b.buffer_length ((b.data_length + offset) % 2 ^ 64) then some (0, b) else (do
          tail ← write b.buffer write_position (take tail_copy input)
          buffer ← write tail 0 (take (copy - tail_copy) (drop tail_copy input))
          some (copy, record b { buffer = buffer })))

unfoldable pub read_fifo : Fifo → ℕ → Option (List ℕ × Fifo)
read_fifo b bytes = do
  copied ← read_offset b bytes 0
  let copy = length copied
  some (
    copied,
    record b {
      read_position = (b.read_position + copy) % 2 ^ 64 % b.buffer_length;
      data_length = b.data_length - copy;
    },
  )

unfoldable pub write_fifo : Fifo → List ℕ → Option (ℕ × Fifo)
write_fifo b input = do
  (copy, b') ← write_offset b input 0
  some (copy, record b' { data_length = (b'.data_length + copy) % 2 ^ 64 })
