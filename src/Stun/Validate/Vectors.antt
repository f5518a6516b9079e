-- ===== src/Stun/Validate/Vectors.antt =====
-- The vectored check sees the same message however it is cut into buffers.
use libnice4android.Prelude.{
  ℕ, suc, ◌+◌, ◌-◌, ◌%◌, ◌<◌, ◌≤◌, ◌^◌, ◌≡◌, refl, sym, arith, Bool, some, List, [], ◌∷◌, ◌++◌,
  if◌then◌else◌, length, ◌∙◌, ap, ◌>>=◌, ltb, leb, le→ltb, lt→ltb, le→leb, Bool-cases, inl, inr,
  get_elem?, get_elem?-append_left, get_elem?-append_right, length-append,
}
use libnice4android.Stun.Bytes.{getw}
use libnice4android.Stun.Validate.{
  InputVector, counted, skip_bytes, first_byte, read_split, slow_length, validate_fast,
}

-- The array of buffers for a list of byte strings.
abbrev pub vectors : List (List ℕ) → List InputVector
vectors [] = []
vectors (p ∷ ps) = record { buffer = some p; size = length p } ∷ vectors ps

abbrev pub joined : List (List ℕ) → List ℕ
joined [] = []
joined (p ∷ ps) = p ++ joined ps

-- Every buffer holds a byte, and has a size that fits a `size_t`.
abbrev pub NonEmpty : List (List ℕ) → Type 0
NonEmpty [] = Unit {0}
NonEmpty (p ∷ ps) = (0 < length p) × (length p < 2 ^ 32) × NonEmpty ps

getw_left : (xs ys : List ℕ) (i : ℕ) → i + 1 < length xs → getw (xs ++ ys) i ≡ getw xs i
unfolding getw
getw_left xs ys i h =
    rw (get_elem?-append_left xs ys i (omega arith), get_elem?-append_left xs ys (i + 1) h)

getw_right : (xs ys : List ℕ) (i : ℕ) → length xs ≤ i → getw (xs ++ ys) i ≡ getw ys (i - length xs)
unfolding getw
getw_right xs ys i h =
    let e : i ≡ length xs + (i - length xs) = omega arith in
    let e' : i + 1 ≡ length xs + (i - length xs + 1) = omega arith in
    rw (
      ap (get_elem? (xs ++ ys)) e ∙ get_elem?-append_right xs ys (i - length xs),
      ap (get_elem? (xs ++ ys)) e' ∙ get_elem?-append_right xs ys (i - length xs + 1),
    )

first_byte-joined :
    (ps : List (List ℕ)) → NonEmpty ps → first_byte (vectors ps) ≡ get_elem? (joined ps) 0
unfolding first_byte
first_byte-joined [] ne = refl
first_byte-joined (p ∷ ps) ne = sym (get_elem?-append_left p (joined ps) 0 ne.0)

read_split-joined :
    (p : List ℕ) (ps : List (List ℕ)) (skip : ℕ)
    → NonEmpty (p ∷ ps)
    → skip < length p
    → read_split (vectors (p ∷ ps)) skip ≡ getw (p ++ joined ps) skip
unfolding read_split getw
read_split-joined p ps skip ne h = elim (Bool-cases (ltb 1 (length p - skip))) [
  | inl e ↦
      rw (lt→ltb 1 ((length p + 2 ^ 64 - skip) % 2 ^ 64) (ground arith))
        (sym (getw_left p (joined ps) skip (ground arith)))
  | inr e ↦
      let next : skip + 1 ≡ length p + 0 = ground arith in
      rw (
        le→ltb 1 ((length p + 2 ^ 64 - skip) % 2 ^ 64) (ground arith),
        get_elem?-append_left p (joined ps) skip h,
        first_byte-joined ps ne.2,
        ap (get_elem? (p ++ joined ps)) next ∙ get_elem?-append_right p (joined ps) 0,
      )
]

skip_bytes-joined :
    (ps : List (List ℕ)) (skip : ℕ)
    → NonEmpty ps
    → skip < length (joined ps)
    → (skip_bytes (vectors ps) (counted (length ps)) skip >>= λ place.
        read_split place.at place.skip)
      ≡ getw (joined ps) skip
unfolding skip_bytes
skip_bytes-joined [] skip ne h = absurd (omega arith)
skip_bytes-joined (p ∷ ps) skip ne h = elim (Bool-cases (leb (length p) skip)) [
  | inl e ↦ rw e (
      skip_bytes-joined ps (skip - length p) ne.2 (ground (arith, length-append p (joined ps)))
      ∙ sym (getw_right p (joined ps) skip (ground arith)))
  | inr e ↦ rw e (read_split-joined p ps skip ne (ground arith))
]

-- Where the length field is read from.
length-joined :
    (p : List ℕ) (ps : List (List ℕ))
    → NonEmpty (p ∷ ps)
    → 4 ≤ length (p ++ joined ps)
    → (if leb 4 (length p)
        then getw p 2
        else slow_length (vectors (p ∷ ps)) (counted (suc (length ps))))
      ≡ getw (p ++ joined ps) 2
unfolding slow_length
length-joined p ps ne h = elim (Bool-cases (leb 4 (length p))) [
  | inl e ↦ rw e (sym (getw_left p (joined ps) 2 (ground arith)))
  | inr e ↦ rw e (skip_bytes-joined (p ∷ ps) 2 ne (omega arith))
]

-- However a buffer is cut into non-empty pieces, the vectored check gives the verdict that it gives
-- on the whole buffer.
pub validate_fast-joined :
    (ps : List (List ℕ)) (has_padding : Bool)
    → NonEmpty ps
    → validate_fast (vectors ps) (counted (length ps)) (length (joined ps)) has_padding
      ≡ validate_fast (vectors (joined ps ∷ [])) (counted 1) (length (joined ps)) has_padding
unfolding validate_fast
validate_fast-joined [] has_padding ne = refl
validate_fast-joined (p ∷ ps) has_padding ne = elim (Bool-cases (ltb (length (p ++ joined ps)) 4)) [
  | inl e ↦ rw (e, get_elem?-append_left p (joined ps) 0 ne.0)
  | inr e ↦ rw (
    e,
    get_elem?-append_left p (joined ps) 0 ne.0,
    length-joined p ps ne (ground arith),
    le→leb 4 (length (p ++ joined ps)) (ground arith),
  )
]
