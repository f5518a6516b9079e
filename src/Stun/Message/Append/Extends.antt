-- ===== src/Stun/Message/Append/Extends.antt =====
-- `stun_message_append` adds one attribute to those that the buffer holds.
use libnice4android.Prelude.{
  ℕ, ◌+◌, ◌-◌, ◌%◌, ◌<◌, ◌≤◌, ◌^◌, ◌≡◌, arith, Option, none, some, List, [], ◌∷◌, ◌++◌, length,
  get_or, ◌∙◌, ap, le→ltb, some_injective, sym, inr,
}
use libnice4android.Stun.Types.{Config}
use libnice4android.Stun.Bytes.{blit, word_bytes}
use libnice4android.Stun.Bytes.Laws.{
  IsBytes, word_bytes-IsBytes, word, length-blit, blit-IsBytes, get_or-blit_before,
}
use mathlib.Core.Path.{subst}
use libnice4android.Stun.Message.Cookie.{stated_length, length_field-stated}
use libnice4android.Stun.Message.{
  Message, is_aligned, skip, swap_type, length_field, pad_of, append, appended, Appended,
}
use libnice4android.Stun.Message.Attributes.{Attr, IsMessage, Parses-frame, Parses-snoc}
use libnice4android.Stun.Message.Find.{message_length_lem}
use libnice4android.Stun.Message.Append.{
  edited, lengths, b1, b2, b3, length-edited, setw_fits, add_padding_fits, length_field_lem,
  get_or-edited, word-edited, edited-IsBytes,
}

pub swap_type-lt :
    (agent : Option Config) (type : ℕ) → type < 2 ^ 16 → swap_type agent type < 2 ^ 16
unfolding swap_type
swap_type-lt none type h = h
swap_type-lt (some agent) type h = ground arith

-- The attribute that `stun_message_append` adds to a message whose attributes end at `mlen`.
abbrev pub new_attr : Message → ℕ → ℕ → Attr
new_attr msg type field = record {
  type = swap_type msg.agent type;
  pos = 24 + word msg.buffer 2;
  len = field;
}

-- The message after an append of `len` bytes whose length field is `field`.
abbrev pub after_append : Message → ℕ → ℕ → ℕ → Message
after_append msg type len field = record msg {
  buffer =
      edited msg.buffer (20 + word msg.buffer 2) (swap_type msg.agent type) field len
        (pad_of msg.agent len)
        ((20 + word msg.buffer 2 + pad_of msg.agent len + 4 + len) % 2 ^ 16 + 2 ^ 16 - 20);
}

-- The buffer after the type of the new attribute is written.
abbrev pub typed : Message → ℕ → Message
typed msg type = record msg {
  buffer = blit msg.buffer (20 + word msg.buffer 2) (word_bytes (swap_type msg.agent type));
}

append_room :
    {msg : Message} {attrs : List Attr} (type len field : ℕ)
    → IsMessage msg attrs
    → 24 + word msg.buffer 2 + len + pad_of msg.agent len ≤ msg.buffer_len
    → length_field (typed msg type) len ≡ some field
    → append msg type len
      ≡ some (appended (24 + word msg.buffer 2) (after_append msg type len field))
unfolding append
append_room {msg} {attrs} type len field v room hf =
    let mlen = 20 + word msg.buffer 2 in
    let t = swap_type msg.agent type in
    let pad = pad_of msg.agent len in
    let n = (mlen + pad + 4 + len) % 2 ^ 16 + 2 ^ 16 - 20 in
    let ls = lengths msg.buffer mlen t field len pad n in
    rw
      (
        message_length_lem v,
        le→ltb msg.buffer_len ((mlen + 4 + len) % 2 ^ 64) (omega arith),
        setw_fits msg.buffer mlen t (omega arith),
        hf,
        setw_fits (b1 msg.buffer mlen t field len pad n) (mlen + 2) field (omega arith),
        add_padding_fits (b2 msg.buffer mlen t field len pad n) (mlen + 4 + len) pad (omega arith),
        setw_fits (b3 msg.buffer mlen t field len pad n) 2 n (omega arith),
      )
      (ap {B = Option Appended} (λ p. some (appended p (after_append msg type len field)))
        (omega arith))

after_append-IsMessage :
    {msg : Message} {attrs : List Attr} (type len field : ℕ)
    → IsMessage msg attrs
    → type < 2 ^ 16
    → 24 + word msg.buffer 2 + len + pad_of msg.agent len ≤ msg.buffer_len
    → skip (is_aligned msg.agent) field ≡ len + pad_of msg.agent len
    → field < 2 ^ 16
    → IsMessage (after_append msg type len field) (attrs ++ new_attr msg type field ∷ [])
after_append-IsMessage {msg} {attrs} type len field v ht room hs small =
    let mlen = 20 + word msg.buffer 2 in
    let t = swap_type msg.agent type in
    let pad = pad_of msg.agent len in
    let n = (mlen + pad + 4 + len) % 2 ^ 16 + 2 ^ 16 - 20 in
    let al = is_aligned msg.agent in
    let ws = word-edited msg.buffer mlen t field len pad n (omega arith) (omega arith) in
    let total : 20 + word (edited msg.buffer mlen t field len pad n) 2 ≡ mlen + 4 + skip al field =
      omega arith in
    record {
      bytes = edited-IsBytes msg.buffer mlen t field len pad n (omega arith) (omega arith) v.bytes;
      sized = length-edited msg.buffer mlen t field len pad n ∙ v.sized;
      small = v.small;
      fits = omega arith;
      parses = rw total (
          Parses-snoc al (edited msg.buffer mlen t field len pad n) 20 mlen attrs
            (new_attr msg type field)
            (Parses-frame al msg.buffer (edited msg.buffer mlen t field len pad n) 20 mlen attrs
              (λ j lo hi.
                get_or-edited msg.buffer mlen t field len pad n (omega arith) (omega arith) j
                  (inr (omega arith)) hi)
              v.parses)
            (omega (arith, swap_type-lt msg.agent type ht)));
    }

-- The new attribute behind the header of a message leaves the cookie as it was.
typed-stated :
    (msg : Message) (type len : ℕ) → stated_length (typed msg type) len ≡ stated_length msg len
typed-stated msg type len =
    let bytes = word_bytes (swap_type msg.agent type) in
    let same : (j : ℕ) → j < 20 → get_or (typed msg type).buffer j 0 ≡ get_or msg.buffer j 0 =
      λ j h. get_or-blit_before msg.buffer (20 + word msg.buffer 2) bytes j (omega (arith, h)) in
    rw (same 4 (omega arith), same 5 (omega arith), same 6 (omega arith), same 7 (omega arith))

-- On a message with room for the value and its padding, `stun_message_append` stays inside the
-- buffer and adds one attribute at the end, with the stated length, whose value is reached and skipped
-- as a reader does.
pub append-IsMessage :
    {msg : Message} {attrs : List Attr} (type len : ℕ)
    → IsMessage msg attrs
    → type < 2 ^ 16
    → 24 + word msg.buffer 2 + len + pad_of msg.agent len ≤ msg.buffer_len
    → (append msg type len
        ≡ some
            (appended (24 + word msg.buffer 2) (after_append msg type len (stated_length msg len))))
      × IsMessage
          (after_append msg type len (stated_length msg len))
          (attrs ++ new_attr msg type (stated_length msg len) ∷ [])
      × (skip (is_aligned msg.agent) (stated_length msg len) ≡ len + pad_of msg.agent len)
append-IsMessage {msg} {attrs} type len v ht room =
    let long : 20 ≤ length (typed msg type).buffer = omega (
      arith,
      v.sized,
      v.fits,
      length-blit msg.buffer (20 + word msg.buffer 2) (word_bytes (swap_type msg.agent type)),
    ) in
    let bytes : IsBytes (typed msg type).buffer =
      blit-IsBytes msg.buffer (20 + word msg.buffer 2) (word_bytes (swap_type msg.agent type))
        v.bytes (word_bytes-IsBytes (swap_type msg.agent type)) in
    let (field, hf, hs, small) = length_field_lem (typed msg type) len long (omega arith) in
    let stated : field ≡ stated_length msg len =
      some_injective field (stated_length (typed msg type) len)
        (sym hf ∙ length_field-stated (typed msg type) len bytes long (omega (arith, v.small)))
      ∙ typed-stated msg type len in
    subst
      (λ f.
        (append msg type len
          ≡ some (appended (24 + word msg.buffer 2) (after_append msg type len f)))
        × IsMessage (after_append msg type len f) (attrs ++ new_attr msg type f ∷ [])
        × (skip (is_aligned msg.agent) f ≡ len + pad_of msg.agent len))
      stated
      (
        append_room type len field v room hf,
        after_append-IsMessage type len field v ht room hs small,
        hs,
      )
