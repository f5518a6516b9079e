-- ===== src/Stun/Validate/Walk.antt =====
-- The loop of `stun_message_validate_buffer_length` over the attributes.
use libnice4android.Prelude.{
  ℕ, zero, suc, ◌+◌, ◌-◌, ◌<◌, ◌≤◌, ◌≡◌, refl, sym, ap₂, arith, Bool, true, false, some, List, [],
  ◌∷◌, ◌==◌, length, ◌∙◌, ap, ltb, ◌⊎◌, inl, inr, Bool-cases,
}
use mathlib.Core.Path.{subst₂}
use libnice4android.Stun.Bytes.{getw}
use libnice4android.Stun.Bytes.Laws.{IsBytes, word, getw_lem}
use libnice4android.Stun.Message.{skip}
use libnice4android.Stun.Message.Attributes.{Attr, Parses}
use libnice4android.Stun.Validate.{walk}

module _ (msg : List ℕ) (aligned : Bool) (bytes : IsBytes msg) where
  -- How far the attribute at an offset reaches.
  abbrev reach : ℕ → ℕ
  reach off = 4 + skip aligned (word msg (off + 2))

  pub Parses-at :
      (attrs : List Attr) {o o' e e' : ℕ}
      → o ≡ o'
      → e ≡ e'
      → Parses aligned msg o e attrs
      → Parses aligned msg o' e' attrs
  Parses-at attrs p q h = subst₂ (λ o e. Parses aligned msg o e attrs) p q h

  -- One round of the loop: it ends at the end, it rejects a value that does not fit, or it goes on
  -- behind the attribute.
  walk_cases :
      (fuel off len : ℕ)
      → off + len ≤ length msg
      → (len ≡ 0) × (walk (suc fuel) msg aligned off len ≡ some true)
        ⊎ (0 < len) × (len < reach off) × (walk (suc fuel) msg aligned off len ≡ some false)
        ⊎ (reach off ≤ len)
          × (walk (suc fuel) msg aligned off len
              ≡ walk fuel msg aligned (off + reach off) (len - reach off))
  unfolding walk skip
  walk_cases fuel off len room = elim (Bool-cases (len == 0)) [
    | inl e ↦ inl (ground arith, ground arith)
    | inr e ↦ elim (Bool-cases (ltb len 4)) [
      | inl s ↦ inr (inl (ground arith, ground arith, ground arith))
      | inr s ↦ long e s (getw_lem msg (off + 2) bytes (ground arith))
    ]
  ]
    where
      long :
          (len == 0) ≡ false
          → ltb len 4 ≡ false
          → getw msg (off + 2) ≡ some (word msg (off + 2))
          → (len ≡ 0) × (walk (suc fuel) msg aligned off len ≡ some true)
            ⊎ (0 < len) × (len < reach off) × (walk (suc fuel) msg aligned off len ≡ some false)
            ⊎ (reach off ≤ len)
              × (walk (suc fuel) msg aligned off len
                  ≡ walk fuel msg aligned (off + reach off) (len - reach off))
      long e s g = elim (Bool-cases (ltb (len - 4) (skip aligned (word msg (off + 2))))) [
        | inl t ↦ inr (inl (ground arith, ground arith, rw (e, s, g, t)))
        | inr t ↦ inr (
            inr (
              ground arith,
              rw (e, s, g, t) (ap₂ (walk fuel msg aligned) (omega arith) (omega arith)),
            ))
      ]

  pub walk_total :
      (fuel off len : ℕ)
      → len < fuel
      → off + len ≤ length msg
      → (b : Bool) × (walk fuel msg aligned off len ≡ some b)
  walk_total zero off len h room = absurd (omega arith)
  walk_total (suc fuel) off len h room = elim (walk_cases fuel off len room) [
    | inl (e, w) ↦ (true, w)
    | inr (inl (p, q, w)) ↦ (false, w)
    | inr (inr (p, w)) ↦
        let (b, ih) =
          walk_total fuel (off + reach off) (len - reach off) (omega arith) (omega arith) in
        (b, w ∙ ih)
  ]

  -- What the walk accepts is tiled by attributes.
  pub walk-Parses :
      (fuel off len : ℕ)
      → off + len ≤ length msg
      → walk fuel msg aligned off len ≡ some true
      → (attrs : List Attr) × Parses aligned msg off (off + len) attrs
  walk-Parses zero off len room h = absurd (unfold walk in cc)
  walk-Parses (suc fuel) off len room h = elim (walk_cases fuel off len room) [
    | inl (e, w) ↦ ([], omega arith)
    | inr (inl (p, q, w)) ↦ absurd (cc)
    | inr (inr (p, w)) ↦
        let (attrs, ps) =
          walk-Parses fuel (off + reach off) (len - reach off) (omega arith) (sym w ∙ h) in
        let a : Attr = record { type = word msg off; pos = off + 4; len = word msg (off + 2) } in
        (a ∷ attrs, (refl, refl, refl, omega arith, Parses-at attrs (omega arith) (omega arith) ps))
  ]

  pub Parses-walk :
      (attrs : List Attr) (fuel off len : ℕ)
      → len < fuel
      → off + len ≤ length msg
      → Parses aligned msg off (off + len) attrs
      → walk fuel msg aligned off len ≡ some true
  Parses-walk attrs zero off len enough room p = absurd (omega arith)
  Parses-walk [] (suc fuel) off len enough room p = unfold walk in ground arith
  Parses-walk (a ∷ attrs) (suc fuel) off len enough room (t, q, l, h, rest) =
      elim (walk_cases fuel off len room) [
        | inl (e, w) ↦ w
        | inr (inl (z, q, w)) ↦ absurd (omega (arith, ap (skip aligned) l))
        | inr (inr (z, w)) ↦
            w
            ∙ Parses-walk attrs fuel (off + reach off) (len - reach off) (omega arith) (omega arith)
                (Parses-at attrs (omega (arith, ap (skip aligned) l)) (omega arith) rest)
      ]
