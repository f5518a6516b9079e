-- ===== src/Stun/Message/Limits.antt =====
-- `stun_message_append` at the end of the buffer.
use libnice4android.Prelude.{
  ℕ, zero, suc, ◌+◌, ◌%◌, ◌<◌, ◌≤◌, ◌^◌, ◌≡◌, arith, Option, none, List, length, le→ltb, replicate,
  length-replicate,
}
use libnice4android.Stun.Types.{Config}
use libnice4android.Stun.Bytes.{word_bytes}
use libnice4android.Stun.Bytes.Laws.{word, padding_lem, write_outside, length-blit}
use libnice4android.Stun.Message.{Message, swap_type, add_padding, pad_of, append}
use libnice4android.Stun.Message.Attributes.{Attr, IsMessage}
use libnice4android.Stun.Message.Append.{setw_fits, length_field_lem, lengths, b1, b2}
use libnice4android.Stun.Message.Append.Extends.{typed}
use libnice4android.Stun.Message.Find.{message_length_lem}

pub pad_of-le : (agent : Option Config) (len : ℕ) → pad_of agent len ≤ 3
unfolding pad_of
pad_of-le agent len = ground (arith, padding_lem len)

add_padding_outside :
    (xs : List ℕ) (p n : ℕ) → p ≤ length xs → length xs < p + n → add_padding xs p n ≡ none
unfolding add_padding
add_padding_outside xs p zero h k = absurd (omega arith)
add_padding_outside xs p (suc n) h k =
    write_outside xs p (replicate (suc n) 32) (omega (arith, length-replicate {A = ℕ} n 32))

-- On a message that holds some attributes, where the value of a new one fits the rest of the
-- buffer and its padding does not, `stun_message_append` writes outside the buffer.
pub append_overrun :
    {msg : Message} {attrs : List Attr} (type len : ℕ)
    → IsMessage msg attrs
    → 24 + word msg.buffer 2 + len ≤ msg.buffer_len
    → msg.buffer_len < 24 + word msg.buffer 2 + len + pad_of msg.agent len
    → append msg type len ≡ none
unfolding append
append_overrun {msg} {attrs} type len v room short =
    let mlen = 20 + word msg.buffer 2 in
    let t = swap_type msg.agent type in
    let pad = pad_of msg.agent len in
    let (field, hf, hs, small) =
      length_field_lem (typed msg type) len
        (omega (
          arith,
          length-blit msg.buffer (20 + word msg.buffer 2) (word_bytes (swap_type msg.agent type)),
        ))
        (omega (arith, pad_of-le msg.agent len)) in
    let ls = lengths msg.buffer mlen t field len pad 0 in
    rw (
      message_length_lem v,
      le→ltb msg.buffer_len ((mlen + 4 + len) % 2 ^ 64) (omega arith),
      setw_fits msg.buffer mlen t (omega arith),
      hf,
      setw_fits (b1 msg.buffer mlen t field len pad 0) (mlen + 2) field (omega arith),
      add_padding_outside (b2 msg.buffer mlen t field len pad 0) (mlen + 4 + len) pad (omega arith)
          (omega arith),
    )
