-- ===== src/Stun/Bytes/Laws.antt =====
-- Alignment as arithmetic, and what a read gives after a write.
use libnice4android.Prelude.{
  ℕ, zero, suc, ◌+◌, ◌-◌, ◌*◌, ◌/◌, ◌%◌, ◌^◌, ◌≤◌, ◌<◌, ◌≡◌, refl, Bool, true, ◌&&◌, ltb, ap, ◌∙◌,
  arith, none, some, List, [], ◌∷◌, length, get_or, or_disjoint, bit_and_mask, bit_and-digit,
  get_elem?-eq-get_or, replicate,
}
use libnice4android.Stun.Bytes.{padding, align, getw, blit, write, word_bytes}

pub padding_lem : (l : ℕ) → padding l ≡ (4 - l % 4) % 4
unfolding padding
padding_lem l = rw (bit_and_mask 2 l, bit_and_mask 2 (4 - l % 4))

pub align_lem : (l : ℕ) → l < 2 ^ 32 → align l ≡ (l + 3) / 4 * 4
unfolding align
align_lem l h = omega (
  arith,
  bit_and-digit ((l + 3) % 2 ^ 64) (2 ^ 64 - 4),
  bit_and-digit ((l + 3) % 2 ^ 64 / 2) (2 ^ 63 - 2),
  bit_and_mask 62 ((l + 3) % 2 ^ 64 / 2 / 2),
)

-- Padding is what alignment adds.
pub add-padding : (l : ℕ) → l < 2 ^ 32 → l + padding l ≡ align l
add-padding l h = omega (arith, padding_lem l, align_lem l h)

-- Every element is a byte; outside the array the default 0 is read.
abbrev pub IsBytes : List ℕ → Type 0
IsBytes xs = (i : ℕ) → get_or xs i 0 < 256

-- The big-endian word at an index.
abbrev pub word : List ℕ → ℕ → ℕ
word xs i = get_or xs i 0 * 256 + get_or xs (i + 1) 0

pub getw_lem : (xs : List ℕ) (i : ℕ) → IsBytes xs → i + 1 < length xs → getw xs i ≡ some (word xs i)
unfolding getw
getw_lem xs i bytes h = ground (
  arith,
  get_elem?-eq-get_or xs i 0,
  get_elem?-eq-get_or xs (i + 1) 0,
  or_disjoint (get_or xs i 0) (get_or xs (i + 1) 0) 8 (bytes (i + 1)),
)

pub word-lt : (xs : List ℕ) (i : ℕ) → IsBytes xs → word xs i < 2 ^ 16
word-lt xs i bytes = omega (arith, bytes i, bytes (i + 1))

pub length-blit : (xs : List ℕ) (p : ℕ) (bs : List ℕ) → length (blit xs p bs) ≡ length xs
unfolding blit
length-blit [] p bs = refl
length-blit (x ∷ xs) (suc p) bs = ap suc (length-blit xs p bs)
length-blit (x ∷ xs) zero [] = refl
length-blit (x ∷ xs) zero (b ∷ bs) = ap suc (length-blit xs zero bs)

pub get_or-blit_inside :
    (xs : List ℕ) (p : ℕ) (bs : List ℕ) (j : ℕ)
    → p + length bs ≤ length xs
    → p ≤ j
    → j < p + length bs
    → get_or (blit xs p bs) j 0 ≡ get_or bs (j - p) 0
unfolding blit
get_or-blit_inside [] p bs j h lo hi = absurd (omega arith)
get_or-blit_inside (x ∷ xs) (suc p) bs zero h lo hi = absurd (omega arith)
get_or-blit_inside (x ∷ xs) (suc p) bs (suc j) h lo hi =
    get_or-blit_inside xs p bs j (omega arith) (omega arith) (omega arith)
    ∙ ap (λ k. get_or bs k 0) (omega arith)
get_or-blit_inside (x ∷ xs) zero [] j h lo hi = absurd (omega arith)
get_or-blit_inside (x ∷ xs) zero (b ∷ bs) zero h lo hi = refl
get_or-blit_inside (x ∷ xs) zero (b ∷ bs) (suc j) h lo hi =
    ground (arith, get_or-blit_inside xs zero bs j)

pub get_or-blit_before :
    (xs : List ℕ) (p : ℕ) (bs : List ℕ) (j : ℕ) → j < p → get_or (blit xs p bs) j 0 ≡ get_or xs j 0
unfolding blit
get_or-blit_before [] p bs j h = refl
get_or-blit_before (x ∷ xs) (suc p) bs zero h = refl
get_or-blit_before (x ∷ xs) (suc p) bs (suc j) h = get_or-blit_before xs p bs j (omega arith)
get_or-blit_before (x ∷ xs) zero bs j h = absurd (omega arith)

pub get_or-blit_after :
    (xs : List ℕ) (p : ℕ) (bs : List ℕ) (j : ℕ)
    → p + length bs ≤ j
    → get_or (blit xs p bs) j 0 ≡ get_or xs j 0
unfolding blit
get_or-blit_after [] p bs j h = refl
get_or-blit_after (x ∷ xs) (suc p) bs zero h = absurd (omega arith)
get_or-blit_after (x ∷ xs) (suc p) bs (suc j) h = get_or-blit_after xs p bs j (omega arith)
get_or-blit_after (x ∷ xs) zero [] j h = refl
get_or-blit_after (x ∷ xs) zero (b ∷ bs) zero h = absurd (omega arith)
get_or-blit_after (x ∷ xs) zero (b ∷ bs) (suc j) h = get_or-blit_after xs zero bs j (omega arith)

pub write_fits :
    (xs : List ℕ) (p : ℕ) (bs : List ℕ)
    → p + length bs ≤ length xs
    → write xs p bs ≡ some (blit xs p bs)
unfolding write
write_fits xs p bs h = ground arith

pub write_outside :
    (xs : List ℕ) (p : ℕ) (bs : List ℕ) → length xs < p + length bs → write xs p bs ≡ none
unfolding write
write_outside xs p bs h = ground arith

pub blit-IsBytes :
    (xs : List ℕ) (p : ℕ) (bs : List ℕ) → IsBytes xs → IsBytes bs → IsBytes (blit xs p bs)
unfolding blit
blit-IsBytes [] p bs hx hb i = omega arith
blit-IsBytes (x ∷ xs) (suc p) bs hx hb zero = hx 0
blit-IsBytes (x ∷ xs) (suc p) bs hx hb (suc i) = blit-IsBytes xs p bs (λ k. hx (suc k)) hb i
blit-IsBytes (x ∷ xs) zero [] hx hb i = hx i
blit-IsBytes (x ∷ xs) zero (b ∷ bs) hx hb zero = hb 0
blit-IsBytes (x ∷ xs) zero (b ∷ bs) hx hb (suc i) =
    blit-IsBytes xs zero bs (λ k. hx (suc k)) (λ k. hb (suc k)) i

pub word_bytes_lem : (v : ℕ) → word_bytes v ≡ v % 2 ^ 16 / 256 ∷ v % 256 ∷ []
word_bytes_lem v = ground (arith, bit_and_mask 8 (v % 2 ^ 16))

pub word_bytes-IsBytes : (v : ℕ) → IsBytes (word_bytes v)
word_bytes-IsBytes v zero = omega arith
word_bytes-IsBytes v (suc zero) = omega (arith, bit_and_mask 8 (v % 2 ^ 16))
word_bytes-IsBytes v (suc (suc i)) = omega arith

pub replicate-IsBytes : (n : ℕ) → IsBytes (replicate n 32)
replicate-IsBytes zero i = omega arith
replicate-IsBytes (suc n) zero = omega arith
replicate-IsBytes (suc n) (suc i) = replicate-IsBytes n i

-- A word written into the array is read back.
pub word-blit_self :
    (xs : List ℕ) (p v : ℕ) → p + 2 ≤ length xs → word (blit xs p (word_bytes v)) p ≡ v % 2 ^ 16
word-blit_self xs p v h = rw word_bytes_lem (
    omega (
      arith,
      get_or-blit_inside xs p (v % 2 ^ 16 / 256 ∷ v % 256 ∷ []) p h (omega arith) (omega arith),
      get_or-blit_inside xs p (v % 2 ^ 16 / 256 ∷ v % 256 ∷ []) (p + 1) h (omega arith)
          (omega arith),
      ap (λ k. get_or (v % 2 ^ 16 / 256 ∷ v % 256 ∷ []) k 0) (sub_self p),
      ap (λ k. get_or (v % 2 ^ 16 / 256 ∷ v % 256 ∷ []) k 0) (sub_next p),
    ))
  where
    sub_self : (p : ℕ) → p - p ≡ 0
    sub_self p = omega arith

    sub_next : (p : ℕ) → p + 1 - p ≡ 1
    sub_next p = omega arith

-- To check a concrete array.
unfoldable pub all_bytes : List ℕ → Bool
all_bytes [] = true
all_bytes (x ∷ xs) = ltb x 256 && all_bytes xs

pub all_bytes-IsBytes : (xs : List ℕ) → all_bytes xs ≡ true → IsBytes xs
unfolding all_bytes
all_bytes-IsBytes [] h i = omega arith
all_bytes-IsBytes (x ∷ xs) h zero = ground arith
all_bytes-IsBytes (x ∷ xs) h (suc i) = all_bytes-IsBytes xs (ground arith) i
