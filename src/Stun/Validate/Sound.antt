-- ===== src/Stun/Validate/Sound.antt =====
-- `stun_message_validate_buffer_length` accepts exactly the well-formed messages, and reads nothing
-- outside the `length` bytes that it is given.
use libnice4android.Prelude.{
  ℕ, suc, ◌+◌, ◌-◌, ◌%◌, ◌/◌, ◌<◌, ◌≤◌, ◌^◌, ◌≡◌, refl, arith, Bool, true, some, List, [], ◌∷◌,
  ◌==◌, if◌then◌else◌, length, get_or, ◌∙◌, ap, ltb, le→leb, inl, inr, Bool-cases, ◌↔◌,
  get_elem?-eq-get_or,
}
use mathlib.Core.Path.{subst}
use libnice4android.Stun.Bytes.Laws.{IsBytes, word, getw_lem, padding_lem}
use libnice4android.Stun.Message.Attributes.{Attr, Parses}
use libnice4android.Stun.Validate.Walk.{Parses-at, walk_total, walk-Parses, Parses-walk}
use libnice4android.Stun.Validate.{
  BufferResult, invalid, incomplete, complete, counted, validate_fast, walk, walk_message,
  validate_buffer_length, check_length,
}

-- The verdict of the fast check on the first `n` bytes of an array.
verdict : List ℕ → ℕ → Bool → BufferResult
verdict msg n aligned =
    if n == 0
    then invalid
    else (if get_or msg 0 0 / 2 ^ 6 == 0
        then (if ltb n 4 then incomplete else check_length (word msg 2 + 20) n aligned)
        else invalid)

module _ (msg : List ℕ) (n : ℕ) (aligned : Bool) (bytes : IsBytes msg) (room : n ≤ length msg) where
  fast-verdict :
      validate_fast (record { buffer = some msg; size = n } ∷ []) (counted 1) n aligned
      ≡ some (verdict msg n aligned)
  unfolding validate_fast verdict check_length
  fast-verdict = elim (Bool-cases (ltb n 1)) [
    | inl e ↦ ground arith
    | inr e ↦ elim (Bool-cases (ltb n 4)) [
      | inl s ↦ rw (e, get_elem?-eq-get_or msg 0 0 (ground arith), s) (ground arith)
      | inr s ↦
          rw
            (
              e,
              get_elem?-eq-get_or msg 0 0 (ground arith),
              s,
              le→leb 4 n (ground arith),
              getw_lem msg 2 bytes (ground arith),
            )
            (ground arith)
    ]
  ]

  -- What the fast check knows of a message that it takes for complete.
  record Looks (mlen : ℕ) : Type 0 where
    first : get_or msg 0 0 < 64
    stated : mlen ≡ 20 + word msg 2
    fits : mlen ≤ n
    padded : aligned ≡ true → mlen % 4 ≡ 0

  verdict-Looks : (mlen : ℕ) → verdict msg n aligned ≡ complete mlen → Looks mlen
  unfolding verdict check_length
  verdict-Looks mlen h = record {
    first = ground arith;
    stated = ground arith;
    fits = ground arith;
    padded = λ e. ground (arith, padding_lem (word msg 2 + 20));
  }

  Looks-verdict : (mlen : ℕ) → Looks mlen → verdict msg n aligned ≡ complete mlen
  unfolding verdict check_length
  Looks-verdict mlen l =
      ground (arith, padding_lem (word msg 2 + 20), l.first, l.stated, l.fits, l.padded)

  walk_message_total :
      (r : BufferResult)
      → verdict msg n aligned ≡ r
      → (q : BufferResult) × (walk_message msg aligned r ≡ some q)
  unfolding walk_message
  walk_message_total invalid e = (invalid, refl)
  walk_message_total incomplete e = (incomplete, refl)
  walk_message_total (complete mlen) e =
      let l = verdict-Looks mlen e in
      let (b, w) =
        walk_total msg aligned bytes (suc (mlen - 20)) 20 (mlen - 20) (omega arith)
          (omega (arith, l.stated, l.fits)) in
      (if b then complete mlen else invalid, rw w)

-- A STUN message of `mlen` bytes stands at the start of the `n` bytes: the first byte is that of a
-- message type, the length field states `mlen`, and attributes tile what follows the header.
pub record IsStun (msg : List ℕ) (n : ℕ) (aligned : Bool) (mlen : ℕ) : Type 0 where
  pub first : get_or msg 0 0 < 64
  pub stated : mlen ≡ 20 + word msg 2
  pub fits : mlen ≤ n
  pub padded : aligned ≡ true → mlen % 4 ≡ 0
  pub attrs : List Attr
  pub parses : Parses aligned msg 20 mlen attrs

module _ (msg : List ℕ) (n : ℕ) (aligned : Bool) (bytes : IsBytes msg) (room : n ≤ length msg) where
  walked-IsStun :
      (m : ℕ)
      → Looks msg n aligned bytes room m
      → walk (suc (m - 20)) msg aligned 20 (m - 20) ≡ some true
      → IsStun msg n aligned m
  walked-IsStun m l w =
      let (attrs, ps) =
        walk-Parses msg aligned bytes (suc (m - 20)) 20 (m - 20) (omega (arith, l.stated, l.fits))
          w in
      record {
        first = l.first;
        stated = l.stated;
        fits = l.fits;
        padded = l.padded;
        attrs = attrs;
        parses = Parses-at msg aligned bytes attrs refl (omega (arith, l.stated)) ps;
      }

  accepted-IsStun :
      (r : BufferResult) (mlen : ℕ)
      → verdict msg n aligned ≡ r
      → walk_message msg aligned r ≡ some (complete mlen)
      → IsStun msg n aligned mlen
  unfolding walk_message
  accepted-IsStun invalid mlen e h = absurd (cc)
  accepted-IsStun incomplete mlen e h = absurd (cc)
  accepted-IsStun (complete m) mlen e h =
      let l = verdict-Looks msg n aligned bytes room m e in
      let (b, w) =
        walk_total msg aligned bytes (suc (m - 20)) 20 (m - 20) (omega arith)
          (omega (arith, l.stated, l.fits)) in
      let good : b ≡ true = ground (arith, w) in
      let same : m ≡ mlen = ground (arith, w) in
      subst (IsStun msg n aligned) same (walked-IsStun m l (w ∙ ap some good))

  IsStun-accepted :
      (mlen : ℕ)
      → IsStun msg n aligned mlen
      → walk_message msg aligned (verdict msg n aligned) ≡ some (complete mlen)
  unfolding walk_message
  IsStun-accepted mlen s = rw (
    Looks-verdict msg n aligned bytes room mlen
        (record { first = s.first; stated = s.stated; fits = s.fits; padded = s.padded }),
    Parses-walk msg aligned bytes s.attrs (suc (mlen - 20)) 20 (mlen - 20) (omega arith)
        (omega (arith, s.stated, s.fits))
        (Parses-at msg aligned bytes s.attrs refl (omega (arith, s.stated)) s.parses),
  )

module _ (msg : List ℕ) (n : ℕ) (aligned : Bool) where
  -- `stun_message_validate_buffer_length` returns on any array of bytes that has at least the
  -- length it is given, and every read is inside the array.
  pub validate_buffer_length_total :
      IsBytes msg
      → n ≤ length msg
      → (r : BufferResult) × (validate_buffer_length msg n aligned ≡ some r)
  unfolding validate_buffer_length
  validate_buffer_length_total bytes room =
      rw (fast-verdict msg n aligned bytes room)
        (walk_message_total msg n aligned bytes room (verdict msg n aligned) refl)

  -- `stun_message_validate_buffer_length`, on an array of bytes that has at least the length it
  -- is given, returns a message length exactly when the first bytes are a STUN message of that
  -- length: the two top bits are zero, the header states the length, the bytes given hold it, it
  -- is padded as asked, and attributes fill the message to its end.
  pub validate_buffer_length_iff :
      (mlen : ℕ)
      → IsBytes msg
      → n ≤ length msg
      → (validate_buffer_length msg n aligned ≡ some (complete mlen)) ↔ IsStun msg n aligned mlen
  unfolding validate_buffer_length
  validate_buffer_length_iff mlen bytes room =
      let fast = fast-verdict msg n aligned bytes room in
      (
        (λ h.
            accepted-IsStun msg n aligned bytes room (verdict msg n aligned) mlen refl
              (rw fast at h)),
        (λ s. rw fast (IsStun-accepted msg n aligned bytes room mlen s)),
      )
