-- ===== src/Stun/Message/Find.antt =====
-- `stun_message_find` against the list of attributes.
use libnice4android.Prelude.{
  ℕ, zero, suc, ◌+◌, ◌<◌, ◌≤◌, ◌≡◌, arith, Bool, some, List, [], ◌∷◌, length, le→ltb,
}
use libnice4android.Stun.Bytes.Laws.{IsBytes, word, getw_lem}
use libnice4android.Stun.Message.{
  Message, message_length, is_aligned, skip, swap_type, find_loop, find,
}
use libnice4android.Stun.Message.Attributes.{Attr, Parses, search, IsMessage}

pub message_length_lem :
    {msg : Message} {attrs : List Attr}
    → IsMessage msg attrs
    → message_length msg ≡ some (20 + word msg.buffer 2)
unfolding message_length
message_length_lem {msg} v = ground (arith, getw_lem msg.buffer 2 v.bytes (omega arith))

find_loop-search :
    (attrs : List Attr) (fuel : ℕ) (buf : List ℕ) (aligned : Bool) (type stop off : ℕ)
    → IsBytes buf
    → stop ≤ length buf
    → stop < off + fuel
    → Parses aligned buf off stop attrs
    → find_loop fuel buf aligned type stop off ≡ some (search type attrs)
unfolding find_loop search
find_loop-search [] zero buf aligned type stop off bytes room enough p = absurd (omega arith)
find_loop-search [] (suc fuel) buf aligned type stop off bytes room enough p =
    rw (le→ltb off stop (omega arith))
find_loop-search (a ∷ attrs) zero buf aligned type stop off bytes room enough p =
    absurd (omega arith)
find_loop-search (a ∷ attrs) (suc fuel) buf aligned type stop off bytes room enough p = ground (
  arith,
  getw_lem buf off bytes (omega arith),
  getw_lem buf (off + 2) bytes (omega arith),
  find_loop-search attrs fuel buf aligned type stop (off + 4 + skip aligned a.len) bytes room
      (omega arith) p.4,
)

pub find-search :
    {msg : Message} {attrs : List Attr} (type : ℕ)
    → IsMessage msg attrs
    → find msg type ≡ some (search (swap_type msg.agent type) attrs)
unfolding find
find-search {msg} {attrs} type v = rw (message_length_lem v) (
    find_loop-search attrs (suc (20 + word msg.buffer 2)) msg.buffer (is_aligned msg.agent)
      (swap_type msg.agent type) (20 + word msg.buffer 2) 20 v.bytes (omega arith) (omega arith)
      v.parses)
