-- ===== src/Text/Laws.antt =====
-- Spaces round a text, and the case of its letters.
use mathlib.Core.List.{reverse, reverse-append, reverse-reverse, append_assoc, map-append}
use dex_backend.Base.{ℕ, ◌≡◌, refl, ◌↔◌, true, false, [], ◌∷◌, ◌++◌, arith, inl, inr, Bool-cases}
use dex_backend.Text.Bytes.{
  Str, str_eq, is_space, trim_left, trim_space, upper, lower, to_upper, to_lower,
}

pub str_eq_iff : (s t : Str) → (str_eq s t ≡ true) ↔ (s ≡ t)
str_eq_iff [] [] = ground arith
str_eq_iff [] (d ∷ t) = ground arith
str_eq_iff (c ∷ s) [] = ground arith
str_eq_iff (c ∷ s) (d ∷ t) = ground (arith, str_eq_iff s t)

-- Only white space.
abbrev pub IsBlank : Str → Type 0
IsBlank [] = Unit
IsBlank (c ∷ s) = (is_space c ≡ true) × IsBlank s

trim_left-append : (p s : Str) → IsBlank p → trim_left (p ++ s) ≡ trim_left s
unfolding trim_left
trim_left-append [] s h = refl
trim_left-append (c ∷ p) s (hc, hp) = rw hc (trim_left-append p s hp)

IsBlank-append : (p q : Str) → IsBlank p → IsBlank q → IsBlank (p ++ q)
IsBlank-append [] q hp hq = hq
IsBlank-append (c ∷ p) q (hc, hp) hq = (hc, IsBlank-append p q hp hq)

IsBlank-reverse : (p : Str) → IsBlank p → IsBlank (reverse p)
IsBlank-reverse [] h = h
IsBlank-reverse (c ∷ p) (hc, hp) =
    rw (reverse-append (c ∷ []) p)
      (IsBlank-append (reverse p) (c ∷ []) (IsBlank-reverse p hp) (hc, tt))

-- What stands in front of blanks at the end is all that is left once the front is trimmed.
trim_left-blank : (p : Str) → IsBlank p → trim_left p ≡ []
unfolding trim_left
trim_left-blank [] h = refl
trim_left-blank (c ∷ p) (hc, hp) = rw hc (trim_left-blank p hp)

trim-trailing :
    (s q : Str)
    → IsBlank q
    → trim_left (reverse (trim_left (s ++ q))) ≡ trim_left (reverse (trim_left s))
unfolding trim_left
trim-trailing [] q h = rw (trim_left-blank q h)
trim-trailing (c ∷ s) q h = elim (Bool-cases (is_space c)) [
  | inl blank ↦ rw blank (trim-trailing s q h)
  | inr word ↦
      rw (word, reverse-append (c ∷ s) q)
        (trim_left-append (reverse q) (reverse (c ∷ s)) (IsBlank-reverse q h))
]

-- White space round a text is no part of it.
pub trim_space-blank :
    (p s q : Str) → IsBlank p → IsBlank q → trim_space (p ++ s ++ q) ≡ trim_space s
unfolding trim_space
trim_space-blank p s q hp hq =
    rw (append_assoc, trim_left-append p (s ++ q) hp, trim-trailing s q hq)

-- The case of the letters is no matter to trimming, nor to `to_upper`.
trim_left-map_lower : (s : Str) → trim_left (to_lower s) ≡ to_lower (trim_left s)
unfolding trim_left
trim_left-map_lower [] = refl
trim_left-map_lower (c ∷ s) =
    let same : is_space (lower c) ≡ is_space c = ground arith in
    rw same (elim (Bool-cases (is_space c)) [
      | inl blank ↦ rw blank (trim_left-map_lower s)
      | inr word ↦ rw word
    ])

reverse-to_lower : (s : Str) → reverse (to_lower s) ≡ to_lower (reverse s)
reverse-to_lower [] = refl
reverse-to_lower (c ∷ s) =
    rw (reverse-append (lower c ∷ []) (to_lower s), reverse-append (c ∷ []) s, map-append)
      (rw (reverse-to_lower s))

pub trim_space-to_lower : (s : Str) → trim_space (to_lower s) ≡ to_lower (trim_space s)
unfolding trim_space
trim_space-to_lower s = simp (trim_left-map_lower, reverse-to_lower)

upper-lower : (c : ℕ) → upper (lower c) ≡ upper c
upper-lower c = ground arith

pub to_upper-to_lower : (s : Str) → to_upper (to_lower s) ≡ to_upper s
to_upper-to_lower [] = refl
to_upper-to_lower (c ∷ s) = cc (upper-lower c, to_upper-to_lower s)

-- No white space.
abbrev pub IsSolid : Str → Type 0
IsSolid [] = Unit {0}
IsSolid (c ∷ s) = (is_space c ≡ false) × IsSolid s

pub IsSolid-append : (s t : Str) → IsSolid s → IsSolid t → IsSolid (s ++ t)
IsSolid-append [] t hs ht = ht
IsSolid-append (c ∷ s) t (hc, hs) ht = (hc, IsSolid-append s t hs ht)

IsSolid-reverse : (s : Str) → IsSolid s → IsSolid (reverse s)
IsSolid-reverse [] h = h
IsSolid-reverse (c ∷ s) (hc, h) =
    rw (reverse-append (c ∷ []) s)
      (IsSolid-append (reverse s) (c ∷ []) (IsSolid-reverse s h) (hc, tt))

trim_left_solid : (s : Str) → IsSolid s → trim_left s ≡ s
unfolding trim_left
trim_left_solid [] h = refl
trim_left_solid (c ∷ s) (hc, h) = rw hc refl

pub trim_space_solid : (s : Str) → IsSolid s → trim_space s ≡ s
unfolding trim_space
trim_space_solid s h =
    rw (trim_left_solid s h, trim_left_solid (reverse s) (IsSolid-reverse s h)) (reverse-reverse s)
