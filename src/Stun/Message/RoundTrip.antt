-- ===== src/Stun/Message/RoundTrip.antt =====
-- What is appended to a message is found in it.
use libnice4android.Prelude.{
  ℕ, ◌+◌, ◌<◌, ◌≤◌, ◌^◌, ◌≡◌, refl, arith, Bool, false, Option, some, List, [], ◌∷◌, ◌++◌, length,
  get_or, ◌∙◌, ap, ◌≢◌,
}
use libnice4android.Stun.Types.{MessageReturn, success}
use libnice4android.Stun.Bytes.{blit}
use libnice4android.Stun.Bytes.Laws.{
  IsBytes, word, write_fits, length-blit, blit-IsBytes, get_or-blit_before, get_or-blit_inside,
}
use libnice4android.Stun.Message.{
  Message, is_aligned, skip, ends_search, swap_type, pad_of, append_bytes, copy_in, find, found,
}
use libnice4android.Stun.Message.Attributes.{Attr, Parses, IsMessage, search}
use libnice4android.Stun.Message.Find.{find-search}
use libnice4android.Stun.Message.Cookie.{stated_length}
use libnice4android.Stun.Message.Append.{blit-nil}
use libnice4android.Stun.Message.Append.Extends.{new_attr, after_append, append-IsMessage}

last_pos :
    (aligned : Bool) (buf : List ℕ) (off stop : ℕ) (attrs : List Attr) (a : Attr)
    → Parses aligned buf off stop (attrs ++ a ∷ [])
    → (off + 4 ≤ a.pos) × (a.pos + skip aligned a.len ≡ stop)
last_pos aligned buf off stop [] a p = omega arith
last_pos aligned buf off stop (b ∷ attrs) a p =
    omega (arith, last_pos aligned buf (off + 4 + skip aligned b.len) stop attrs a p.4)

-- The value of the last attribute may change.
Parses-frame_last :
    (aligned : Bool) (buf buf' : List ℕ) (off stop : ℕ) (attrs : List Attr) (a : Attr)
    → ((j : ℕ) → off ≤ j → j < a.pos → get_or buf' j 0 ≡ get_or buf j 0)
    → Parses aligned buf off stop (attrs ++ a ∷ [])
    → Parses aligned buf' off stop (attrs ++ a ∷ [])
Parses-frame_last aligned buf buf' off stop [] a same (t, q, l, h, rest) = (
  omega
      (arith, t, same off (omega arith) (omega arith), same (off + 1) (omega arith) (omega arith)),
  q,
  omega (
    arith,
    l,
    same (off + 2) (omega arith) (omega arith),
    same (off + 2 + 1) (omega arith) (omega arith),
  ),
  h,
  rest,
)
Parses-frame_last aligned buf buf' off stop (b ∷ attrs) a same (t, q, l, h, rest) =
    let far = last_pos aligned buf (off + 4 + skip aligned b.len) stop attrs a rest in
    (
      omega (
        arith,
        t,
        same off (omega arith) (omega arith),
        same (off + 1) (omega arith) (omega arith),
      ),
      q,
      omega (
        arith,
        l,
        same (off + 2) (omega arith) (omega arith),
        same (off + 2 + 1) (omega arith) (omega arith),
      ),
      h,
      Parses-frame_last aligned buf buf' (off + 4 + skip aligned b.len) stop attrs a
          (λ j lo hi. same j (omega arith) hi) rest,
    )

-- Writing the value of the last attribute keeps the view.
value_write :
    {msg : Message} (attrs : List Attr) (a : Attr) (bytes : List ℕ)
    → IsMessage msg (attrs ++ a ∷ [])
    → IsBytes bytes
    → length bytes ≤ skip (is_aligned msg.agent) a.len
    → IsMessage (record msg { buffer = blit msg.buffer a.pos bytes }) (attrs ++ a ∷ [])
value_write {msg} attrs a bytes v hb fit =
    let far =
      last_pos (is_aligned msg.agent) msg.buffer 20 (20 + word msg.buffer 2) attrs a v.parses in
    let same : (j : ℕ)
        → j < a.pos
        → get_or (blit msg.buffer a.pos bytes) j 0 ≡ get_or msg.buffer j 0 =
      λ j h. get_or-blit_before msg.buffer a.pos bytes j h in
    let total : word (blit msg.buffer a.pos bytes) 2 ≡ word msg.buffer 2 =
      omega (arith, same 2 (omega arith), same 3 (omega arith)) in
    record {
      bytes = blit-IsBytes msg.buffer a.pos bytes v.bytes hb;
      sized = length-blit msg.buffer a.pos bytes ∙ v.sized;
      small = v.small;
      fits = omega arith;
      parses = rw total (
          Parses-frame_last (is_aligned msg.agent) msg.buffer (blit msg.buffer a.pos bytes) 20
            (20 + word msg.buffer 2) attrs a (λ j lo hi. same j hi) v.parses);
    }

-- No attribute of `attrs` has the type, or ends the search for it.
abbrev pub Passes : ℕ → List Attr → Type 0
Passes type [] = Unit {0}
Passes type (b ∷ attrs) = (b.type ≢ type) × (ends_search b.type type ≡ false) × Passes type attrs

pub search-append :
    (type : ℕ) (attrs : List Attr) (a : Attr) (rest : List Attr)
    → Passes type attrs
    → a.type ≡ type
    → search type (attrs ++ a ∷ rest) ≡ found a.pos a.len
unfolding search
search-append type [] a rest p e = ground arith
search-append type (b ∷ attrs) a rest p e = ground (arith, search-append type attrs a rest p.2 e)

copy_in_fits :
    (xs : List ℕ) (p : ℕ) (bytes : List ℕ)
    → p + length bytes ≤ length xs
    → copy_in xs p bytes ≡ some (blit xs p bytes)
unfolding copy_in
copy_in_fits xs p [] h = rw blit-nil
copy_in_fits xs p (b ∷ bytes) h = write_fits xs p (b ∷ bytes) h

-- The message after its value is copied in.
abbrev pub after_bytes : Message → ℕ → List ℕ → Message
after_bytes msg type bytes =
    let m = after_append msg type (length bytes) (stated_length msg (length bytes)) in
    record m { buffer = blit m.buffer (24 + word msg.buffer 2) bytes }

-- What `stun_message_append_bytes` has done when it succeeds.
pub record Stored (msg : Message) (attrs : List Attr) (type : ℕ) (bytes : List ℕ)
    (result : Option (MessageReturn × Message)) : Type 0 where
  pub returns : result ≡ some (success, after_bytes msg type bytes)
  pub view :
      IsMessage
        (after_bytes msg type bytes)
        (attrs ++ new_attr msg type (stated_length msg (length bytes)) ∷ [])
  pub padded :
      skip (is_aligned msg.agent) (stated_length msg (length bytes))
      ≡ length bytes + pad_of msg.agent (length bytes)
  pub value :
      (i : ℕ)
      → i < length bytes
      → get_or (after_bytes msg type bytes).buffer (24 + word msg.buffer 2 + i) 0 ≡ get_or bytes i 0

-- With room for the value and its padding, `stun_message_append_bytes` succeeds inside the buffer:
-- the message holds its old attributes, then one of the type, whose value begins with the bytes. Its
-- header states the number of the bytes, rounded up to a multiple of four only where the message is
-- aligned and has no cookie, and a reader skips the bytes and their padding.
pub append_bytes-Stored :
    {msg : Message} {attrs : List Attr} (type : ℕ) (bytes : List ℕ)
    → IsMessage msg attrs
    → type < 2 ^ 16
    → IsBytes bytes
    → 24 + word msg.buffer 2 + length bytes + pad_of msg.agent (length bytes) ≤ msg.buffer_len
    → Stored msg attrs type bytes (append_bytes msg type bytes)
unfolding append_bytes
append_bytes-Stored {msg} {attrs} type bytes v ht hb room =
    let field = stated_length msg (length bytes) in
    let (e, w, hs) = append-IsMessage type (length bytes) v ht room in
    let m = after_append msg type (length bytes) field in
    let p = 24 + word msg.buffer 2 in
    let inside : p + length bytes ≤ length m.buffer = omega (arith, w.sized) in
    record {
      returns = rw (e, copy_in_fits m.buffer p bytes inside);
      view = value_write attrs (new_attr msg type field) bytes w hb (omega arith);
      padded = hs;
      value = λ i h.
          get_or-blit_inside m.buffer p bytes (p + i) inside (omega arith) (omega arith)
          ∙ ap (λ k. get_or bytes k 0) (omega arith);
    }

-- After a successful append, `stun_message_find` returns the position of the new value and the number
-- of the bytes (rounded up to a multiple of four where the message is aligned and has no cookie), and
-- the bytes stand there, if no earlier attribute of the message has its type or ends the search for it.
pub find-append_bytes :
    {msg : Message} {attrs : List Attr} (type : ℕ) (bytes : List ℕ)
    → IsMessage msg attrs
    → type < 2 ^ 16
    → IsBytes bytes
    → 24 + word msg.buffer 2 + length bytes + pad_of msg.agent (length bytes) ≤ msg.buffer_len
    → Passes (swap_type msg.agent type) attrs
    → (msg' : Message) × (append_bytes msg type bytes ≡ some (success, msg'))
      × (find msg' type ≡ some (found (24 + word msg.buffer 2) (stated_length msg (length bytes))))
      × (skip (is_aligned msg.agent) (stated_length msg (length bytes))
          ≡ length bytes + pad_of msg.agent (length bytes))
      × ((i : ℕ)
          → i < length bytes
          → get_or msg'.buffer (24 + word msg.buffer 2 + i) 0 ≡ get_or bytes i 0)
find-append_bytes {msg} {attrs} type bytes v ht hb room passes =
    let s = append_bytes-Stored type bytes v ht hb room in
    (
      after_bytes msg type bytes,
      s.returns,
      find-search type s.view
          ∙ ap some (
              search-append (swap_type msg.agent type) attrs
                (new_attr msg type (stated_length msg (length bytes))) [] passes refl),
      s.padded,
      s.value,
    )
