-- ===== src/Stun/Message/Attributes.antt =====
-- The abstract view of a message: the attributes that its buffer holds, in order.
use libnice4android.Prelude.{
  ℕ, ◌+◌, ◌<◌, ◌≤◌, ◌^◌, ◌≡◌, arith, Bool, true, false, List, [], ◌∷◌, ◌++◌, ◌==◌, if◌then◌else◌,
  length, get_or,
}
use libnice4android.Stun.Bytes.Laws.{IsBytes, word, align_lem}
use libnice4android.Stun.Message.{Message, is_aligned, skip, ends_search, Found, missing, found}

-- An attribute: its type, the index of its value, and the length that its header states.
pub record Attr : Type 0 where
  pub type : ℕ
  pub pos : ℕ
  pub len : ℕ

-- The attributes tile the buffer from `off` to `stop`.
abbrev pub Parses : Bool → List ℕ → ℕ → ℕ → List Attr → Type 0
Parses aligned buf off stop [] = off ≡ stop
Parses aligned buf off stop (a ∷ attrs) =
    (a.type ≡ word buf off)
    × (a.pos ≡ off + 4)
    × (a.len ≡ word buf (off + 2))
    × (off + 4 + skip aligned a.len ≤ stop)
    × Parses aligned buf (off + 4 + skip aligned a.len) stop attrs

-- What `stun_message_find` is to return, on the list of attributes.
unfoldable pub search : ℕ → List Attr → Found
search type [] = missing
search type (a ∷ attrs) =
    if a.type == type
    then found a.pos a.len
    else (if ends_search a.type type then missing else search type attrs)

-- A message whose buffer holds exactly the attributes `attrs` after its header.
pub record IsMessage (msg : Message) (attrs : List Attr) : Type 0 where
  pub bytes : IsBytes msg.buffer
  pub sized : length msg.buffer ≡ msg.buffer_len
  pub small : msg.buffer_len < 2 ^ 16
  pub fits : 20 + word msg.buffer 2 ≤ msg.buffer_len
  pub parses : Parses (is_aligned msg.agent) msg.buffer 20 (20 + word msg.buffer 2) attrs

pub le-skip : (aligned : Bool) (n : ℕ) → n < 2 ^ 32 → n ≤ skip aligned n
unfolding skip
le-skip true n h = omega (arith, align_lem n h)
le-skip false n h = omega arith

pub skip-le : (aligned : Bool) (n : ℕ) → n < 2 ^ 32 → skip aligned n ≤ n + 3
unfolding skip
skip-le true n h = omega (arith, align_lem n h)
skip-le false n h = omega arith

pub Parses-le :
    (aligned : Bool) (buf : List ℕ) (off stop : ℕ) (attrs : List Attr)
    → Parses aligned buf off stop attrs
    → off ≤ stop
Parses-le aligned buf off stop [] p = omega arith
Parses-le aligned buf off stop (a ∷ attrs) p = omega arith

-- The view depends only on the bytes that it covers.
pub Parses-frame :
    (aligned : Bool) (buf buf' : List ℕ) (off stop : ℕ) (attrs : List Attr)
    → ((j : ℕ) → off ≤ j → j < stop → get_or buf' j 0 ≡ get_or buf j 0)
    → Parses aligned buf off stop attrs
    → Parses aligned buf' off stop attrs
Parses-frame aligned buf buf' off stop [] same p = p
Parses-frame aligned buf buf' off stop (a ∷ attrs) same (t, q, l, h, rest) = (
  omega
      (arith, t, same off (omega arith) (omega arith), same (off + 1) (omega arith) (omega arith)),
  q,
  omega (
    arith,
    l,
    same (off + 2) (omega arith) (omega arith),
    same (off + 2 + 1) (omega arith) (omega arith),
  ),
  h,
  Parses-frame aligned buf buf' (off + 4 + skip aligned a.len) stop attrs
      (λ j lo hi. same j (omega arith) hi) rest,
)

-- One more attribute at the end.
pub Parses-snoc :
    (aligned : Bool) (buf : List ℕ) (off mid : ℕ) (attrs : List Attr) (a : Attr)
    → Parses aligned buf off mid attrs
    → Parses aligned buf mid (mid + 4 + skip aligned a.len) (a ∷ [])
    → Parses aligned buf off (mid + 4 + skip aligned a.len) (attrs ++ a ∷ [])
Parses-snoc aligned buf off mid [] a p q = rw p q
Parses-snoc aligned buf off mid (b ∷ attrs) a (t, r, l, h, rest) q = (
  t,
  r,
  l,
  omega arith,
  Parses-snoc aligned buf (off + 4 + skip aligned b.len) mid attrs a rest q,
)
