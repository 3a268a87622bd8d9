-- ===== src/Base/Text/Trim.antt =====
-- Trimming and lower-casing a text twice is the same as once.
use Prim.Native.Char.{Char, code}
use Prim.Native.String.{String, [], ◌∷◌}
use mathlib.Core.Path.{◌≡◌, refl, sym, ap, ap₂, ◌∙◌}
use mathlib.Core.Logic.{◌⊎◌, inl, inr}
use mathlib.Core.Bool.{Bool, true, not, ◌&&◌}
use native.Mathlib.Omega.{arith}
use text.Mathlib.TextEquality.{Char-path}
use onecatch.Base.Tests.{eqb, Bool-cases}
use onecatch.Base.Text.{
  is_space, is_nil, trim_left, trim_right, trim_space, lower_from, lower, uppers, lowers, to_lower,
}

trim_left_idem : (s : String) → trim_left (trim_left s) ≡ trim_left s
unfolding trim_left
trim_left_idem [] = refl
trim_left_idem (c ∷ s) = elim (Bool-cases (is_space (code c))) [
  | inl blank ↦ rw (blank, trim_left) (trim_left_idem s)
  | inr kept ↦ rw (kept, trim_left) (rw (kept, trim_left))
]

trim_right_idem : (s : String) → trim_right (trim_right s) ≡ trim_right s
unfolding trim_right
trim_right_idem [] = refl
trim_right_idem (c ∷ s) = elim (Bool-cases (is_space (code c) && is_nil (trim_right s))) [
  | inl blank ↦ rw (blank, trim_right)
  | inr kept ↦ rw (kept, trim_right) (rw (trim_right_idem s) (rw (kept, trim_right)))
]

is_nil-eq : (s : String) → is_nil s ≡ true → s ≡ []
is_nil-eq [] h = refl
is_nil-eq (c ∷ s) h = cc

trim_left-trim_right : (s : String) → trim_left (trim_right s) ≡ trim_right (trim_left s)
unfolding trim_left trim_right
trim_left-trim_right [] = refl
trim_left-trim_right (c ∷ s) = elim (Bool-cases (is_space (code c))) [
  | inr kept ↦ rw (kept, trim_left, trim_right) (rw (kept, trim_left))
  | inl blank ↦ elim (Bool-cases (is_nil (trim_right s))) [
    | inl nothing ↦
        rw (blank, nothing, trim_left, trim_right)
          (sym (ap trim_left (is_nil-eq (trim_right s) nothing)) ∙ trim_left-trim_right s)
    | inr rest ↦
        rw (blank, rest, trim_left, trim_right) (rw (blank, trim_left) (trim_left-trim_right s))
  ]
]

pub trim_space_idem : (s : String) → trim_space (trim_space s) ≡ trim_space s
unfolding trim_space
trim_space_idem s =
    ap trim_right (trim_left-trim_right (trim_left s))
    ∙ trim_right_idem (trim_left (trim_left s))
    ∙ ap trim_right (trim_left_idem s)

-- A test that every character of a text passes.
abbrev all_chars : (Char → Bool) → String → Bool
all_chars p [] = true
all_chars p (c ∷ s) = p c && all_chars p s

-- What `lower` returns is its argument, not listed among the capitals, or one of the small letters.
lower_from_cases :
    (p q : Char → Bool) (us ls : String) (c : Char)
    → all_chars p us ≡ true
    → all_chars q ls ≡ true
    → ((lower_from us ls c ≡ c))
      ⊎ (q (lower_from us ls c) ≡ true) × ((u : Char) × (p u ≡ true) × (code u ≡ code c))
unfolding lower_from
lower_from_cases p q [] ls c h k = inl refl
lower_from_cases p q (u ∷ us) [] c h k = inl refl
lower_from_cases p q (u ∷ us) (l ∷ ls) c h k = elim (Bool-cases (eqb (code u) (code c))) [
  | inl here ↦ rw (here, lower_from) (inr (ground arith, (u, ground arith, ground arith)))
  | inr there ↦ rw (there, lower_from) (lower_from_cases p q us ls c (ground arith) (ground arith))
]

abbrev visible : Char → Bool
visible c = not (is_space (code c))

-- The small letters are visible, and their own lower case.
abbrev settled : Char → Bool
settled c = visible c && eqb (code (lower c)) (code c)

capitals_visible : all_chars visible uppers ≡ true
unfolding is_space
capitals_visible = refl

smalls_settled : all_chars settled lowers ≡ true
unfolding is_space lower_from
smalls_settled = refl

lower_cases :
    (c : Char)
    → (lower c ≡ c)
      ⊎ (settled (lower c) ≡ true) × ((u : Char) × (visible u ≡ true) × (code u ≡ code c))
lower_cases c = lower_from_cases visible settled uppers lowers c capitals_visible smalls_settled

lower_idem : (c : Char) → lower (lower c) ≡ lower c
lower_idem c = elim (lower_cases c) [
  | inl same ↦ ap lower same
  | inr (small, _) ↦ Char-path (lower (lower c)) (lower c) (ground (arith, small))
]

is_space-lower : (c : Char) → is_space (code (lower c)) ≡ is_space (code c)
is_space-lower c = elim (lower_cases c) [
  | inl same ↦ ap (λ d. is_space (code d)) same
  | inr (small, (u, seen, e)) ↦ ground (arith, small, seen, ap is_space e)
]

to_lower_idem : (s : String) → to_lower (to_lower s) ≡ to_lower s
unfolding to_lower
to_lower_idem [] = refl
to_lower_idem (c ∷ s) = ap₂ ◌∷◌ (lower_idem c) (to_lower_idem s)

is_nil-to_lower : (s : String) → is_nil (to_lower s) ≡ is_nil s
unfolding to_lower
is_nil-to_lower [] = refl
is_nil-to_lower (c ∷ s) = refl

trim_left-to_lower : (s : String) → trim_left (to_lower s) ≡ to_lower (trim_left s)
unfolding trim_left to_lower
trim_left-to_lower [] = refl
trim_left-to_lower (c ∷ s) = elim (Bool-cases (is_space (code c))) [
  | inl blank ↦ rw (is_space-lower c, blank, trim_left) (trim_left-to_lower s)
  | inr kept ↦ rw (is_space-lower c, kept, trim_left) refl
]

trim_right-to_lower : (s : String) → trim_right (to_lower s) ≡ to_lower (trim_right s)
unfolding trim_right to_lower
trim_right-to_lower [] = refl
trim_right-to_lower (c ∷ s) =
    rw (is_space-lower c, trim_right-to_lower s, is_nil-to_lower (trim_right s), trim_right)
      (elim (Bool-cases (is_space (code c) && is_nil (trim_right s))) [
        | inl blank ↦ rw blank refl
        | inr kept ↦ rw kept refl
      ])

-- What `Normalize` does to a reasoning effort.
pub to_lower-trim_space_idem :
    (s : String) → to_lower (trim_space (to_lower (trim_space s))) ≡ to_lower (trim_space s)
unfolding trim_space
to_lower-trim_space_idem s =
    ap to_lower (
      ap trim_right (trim_left-to_lower (trim_right (trim_left s)))
      ∙ trim_right-to_lower (trim_left (trim_right (trim_left s))))
    ∙ to_lower_idem (trim_right (trim_left (trim_right (trim_left s))))
    ∙ ap to_lower (trim_space_idem s)
