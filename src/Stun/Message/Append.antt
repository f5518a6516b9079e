-- ===== src/Stun/Message/Append.antt =====
-- `stun_message_append` against the list of attributes: what the buffer holds afterwards.
pub mod Extends
use libnice4android.Prelude.{
  ℕ, zero, suc, ◌+◌, ◌-◌, ◌%◌, ◌<◌, ◌≤◌, ◌^◌, ◌≡◌, refl, arith, Bool, true, false, Option, none,
  some, List, [], ◌∷◌, ◌++◌, if◌then◌else◌, length, get_or, ◌∙◌, ap, ◌>>=◌, le→ltb, replicate,
  some_injective, sym, length-replicate, take, drop, le→leb, ◌⊎◌, inl, inr,
}
use libnice4android.Stun.Types.{Config}
use libnice4android.Stun.Bytes.{setw, blit, word_bytes, padding, align}
use libnice4android.Stun.Bytes.Laws.{
  IsBytes, word_bytes-IsBytes, replicate-IsBytes, word, padding_lem, align_lem, write_fits,
  length-blit, blit-IsBytes, get_or-blit_before, get_or-blit_after, word-blit_self,
}
use mathlib.Core.Path.{subst}
use libnice4android.Stun.Message.Cookie.{stated_length, length_field-stated}
use libnice4android.Stun.Message.{
  Message, has_cookie, bytes_eq, is_aligned, skip, swap_type, add_padding, length_field, pad_of,
  append, appended, Appended,
}
use libnice4android.Stun.Message.Attributes.{Attr, IsMessage, Parses-frame, Parses-snoc}
use libnice4android.Stun.Message.Find.{message_length_lem}

pub setw_fits :
    (xs : List ℕ) (p v : ℕ) → p + 2 ≤ length xs → setw xs p v ≡ some (blit xs p (word_bytes v))
unfolding setw
setw_fits xs p v h = write_fits xs p (word_bytes v) (omega arith)

pub blit-nil : (xs : List ℕ) (p : ℕ) → blit xs p [] ≡ xs
unfolding blit
blit-nil [] p = refl
blit-nil (x ∷ xs) zero = refl
blit-nil (x ∷ xs) (suc p) = ap (λ ys. x ∷ ys) (blit-nil xs p)

pub add_padding_fits :
    (xs : List ℕ) (p n : ℕ)
    → p + n ≤ length xs
    → add_padding xs p n ≡ some (blit xs p (replicate n 32))
unfolding add_padding
add_padding_fits xs p zero h = rw blit-nil
add_padding_fits xs p (suc n) h =
    write_fits xs p (replicate (suc n) 32) (omega (arith, length-replicate {A = ℕ} n 32))

pub has_cookie_total :
    (msg : Message) → 20 ≤ length msg.buffer → (b : Bool) × (has_cookie msg ≡ some b)
unfolding has_cookie
has_cookie_total msg h = (
  bytes_eq (take 4 (take 16 (drop 4 msg.buffer))) (0x21 ∷ 0x12 ∷ 0xA4 ∷ 0x42 ∷ []),
  rw (le→leb 20 (length msg.buffer) h),
)

-- The length field makes a reader skip the value and its padding.
pub length_field_lem :
    (msg : Message) (len : ℕ)
    → 20 ≤ length msg.buffer
    → len + pad_of msg.agent len < 2 ^ 16
    → (f : ℕ) × (length_field msg len ≡ some f)
      × (skip (is_aligned msg.agent) f ≡ len + pad_of msg.agent len)
      × (f < 2 ^ 16)
unfolding length_field pad_of skip
length_field_lem msg len room small = go (is_aligned msg.agent) (has_cookie_total msg room) small
  where
    go :
        (al : Bool)
        → (b : Bool) × (has_cookie msg ≡ some b)
        → len + (if al then padding len else 0) < 2 ^ 16
        → (f : ℕ) × ((if al
              then (has_cookie msg >>= λ cookie. some (if cookie then len else align len))
              else some len)
            ≡ some f)
          × ((if al then align f else f) ≡ len + (if al then padding len else 0))
          × (f < 2 ^ 16)
    go false c s = (len, refl, omega arith, omega arith)
    go true (true, e) s =
        (len, rw e, omega (arith, padding_lem len, align_lem len (omega arith)), omega arith)
    go true (false, e) s = (
      align len,
      rw e,
      omega (
        arith,
        padding_lem len,
        align_lem len (omega arith),
        align_lem (align len) (omega (arith, align_lem len (omega arith))),
      ),
      omega (arith, padding_lem len, align_lem len (omega arith)),
    )

-- The four writes of `stun_message_append`: type, length, padding, and the message length.
module _ (buf : List ℕ) (mlen t f len pad n : ℕ) where
  abbrev pub b1 : List ℕ
  b1 = blit buf mlen (word_bytes t)

  abbrev pub b2 : List ℕ
  b2 = blit b1 (mlen + 2) (word_bytes f)

  abbrev pub b3 : List ℕ
  b3 = blit b2 (mlen + 4 + len) (replicate pad 32)

  abbrev pub edited : List ℕ
  edited = blit b3 2 (word_bytes n)

  pub lengths :
      (length b1 ≡ length buf)
      × (length b2 ≡ length buf)
      × (length b3 ≡ length buf)
      × (length edited ≡ length buf)
  lengths = omega (
    arith,
    length-blit buf mlen (word_bytes t),
    length-blit b1 (mlen + 2) (word_bytes f),
    length-blit b2 (mlen + 4 + len) (replicate pad 32),
    length-blit b3 2 (word_bytes n),
  )

  pub length-edited : length edited ≡ length buf
  length-edited = lengths.3

  module _ (header : 20 ≤ mlen) (room : mlen + 4 + len + pad ≤ length buf) where
    -- Outside the length field and the new attribute nothing changes.
    pub get_or-edited : (j : ℕ) → (j < 2) ⊎ (4 ≤ j) → j < mlen → get_or edited j 0 ≡ get_or buf j 0
    get_or-edited j (inl h2) h =
        get_or-blit_before b3 2 (word_bytes n) j h2
        ∙ get_or-blit_before b2 (mlen + 4 + len) (replicate pad 32) j (omega arith)
        ∙ get_or-blit_before b1 (mlen + 2) (word_bytes f) j (omega arith)
        ∙ get_or-blit_before buf mlen (word_bytes t) j h
    get_or-edited j (inr h4) h =
        get_or-blit_after b3 2 (word_bytes n) j h4
        ∙ get_or-blit_before b2 (mlen + 4 + len) (replicate pad 32) j (omega arith)
        ∙ get_or-blit_before b1 (mlen + 2) (word_bytes f) j (omega arith)
        ∙ get_or-blit_before buf mlen (word_bytes t) j h

    b2_below : (j : ℕ) → mlen + 2 ≤ j → j < mlen + 4 → get_or edited j 0 ≡ get_or b2 j 0
    b2_below j lo hi =
        get_or-blit_after b3 2 (word_bytes n) j (omega arith)
        ∙ get_or-blit_before b2 (mlen + 4 + len) (replicate pad 32) j (omega arith)

    b1_below : (j : ℕ) → mlen ≤ j → j < mlen + 2 → get_or edited j 0 ≡ get_or b1 j 0
    b1_below j lo hi =
        get_or-blit_after b3 2 (word_bytes n) j (omega arith)
        ∙ get_or-blit_before b2 (mlen + 4 + len) (replicate pad 32) j (omega arith)
        ∙ get_or-blit_before b1 (mlen + 2) (word_bytes f) j (omega arith)

    pub word-edited :
        (word edited mlen ≡ t % 2 ^ 16)
        × (word edited (mlen + 2) ≡ f % 2 ^ 16)
        × (word edited 2 ≡ n % 2 ^ 16)
    word-edited = (
      omega (
        arith,
        b1_below mlen (omega arith) (omega arith),
        b1_below (mlen + 1) (omega arith) (omega arith),
        word-blit_self buf mlen t (omega arith),
      ),
      omega (
        arith,
        b2_below (mlen + 2) (omega arith) (omega arith),
        b2_below (mlen + 2 + 1) (omega arith) (omega arith),
        word-blit_self b1 (mlen + 2) f (omega (arith, lengths)),
      ),
      word-blit_self b3 2 n (omega (arith, lengths)),
    )

    pub edited-IsBytes : IsBytes buf → IsBytes edited
    edited-IsBytes bytes =
        blit-IsBytes b3 2 (word_bytes n)
          (blit-IsBytes b2 (mlen + 4 + len) (replicate pad 32)
            (blit-IsBytes b1 (mlen + 2) (word_bytes f)
              (blit-IsBytes buf mlen (word_bytes t) bytes (word_bytes-IsBytes t))
              (word_bytes-IsBytes f))
            (replicate-IsBytes pad))
          (word_bytes-IsBytes n)
