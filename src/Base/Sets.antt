-- ===== src/Base/Sets.antt =====
-- Lists of texts without repetition, and a counting argument about them.
use Prim.Native.Nat.{suc, ◌≤◌}
use Prim.Native.String.{String}
use mathlib.Core.Path.{◌≡◌, refl}
use mathlib.Core.Logic.{inl, inr}
use mathlib.Core.Bool.{true, false}
use mathlib.Core.List.{List, [], ◌∷◌, ◌++◌}
use native.Mathlib.Omega.{arith}
use onecatch.Base.Tests.{if◌then◌else◌, ◌==◌, Bool-cases}
use onecatch.Base.Lists.{length, contains, contains_head, contains-snoc}

abbrev pub Unique : List String → Type 0
Unique [] = Unit
Unique (x ∷ xs) = (contains xs x ≡ false) × Unique xs

pub Unique-snoc :
    (xs : List String) (c : String) → Unique xs → contains xs c ≡ false → Unique (xs ++ c ∷ [])
Unique-snoc [] c u n = (refl, tt)
Unique-snoc (x ∷ xs) c (fresh, u) n =
    (ground (arith, contains-snoc xs c x), Unique-snoc xs c u (ground arith))

abbrev pub Subset : List String → List String → Type 0
Subset xs ys = (x : String) → contains xs x ≡ true → contains ys x ≡ true

-- The list without the first occurrence of an element.
abbrev remove : String → List String → List String
remove x [] = []
remove x (y ∷ ys) = if y == x then ys else y ∷ remove x ys

length-remove :
    (x : String) (ys : List String) → contains ys x ≡ true → suc (length (remove x ys)) ≡ length ys
length-remove x [] m = cc
length-remove x (y ∷ ys) m = ground (arith, length-remove x ys)

contains-remove :
    (x z : String) (ys : List String)
    → contains ys z ≡ true
    → (x == z) ≡ false
    → contains (remove x ys) z ≡ true
contains-remove x z [] m n = m
contains-remove x z (y ∷ ys) m n = ground (arith, contains-remove x z ys)

pub length_le-Subset : (xs ys : List String) → Unique xs → Subset xs ys → length xs ≤ length ys
length_le-Subset [] ys u s = omega arith
length_le-Subset (x ∷ xs) ys (new, u) s = omega (
  arith,
  length-remove x ys (s x (contains_head x xs)),
  length_le-Subset xs (remove x ys) u
      (λ z m. contains-remove x z ys (s z (ground arith)) (ground arith)),
)

-- A list without repetition that lies in a list no longer than it holds all of that list.
pub Subset_of_length :
    (xs ys : List String) → Unique xs → Subset xs ys → length ys ≤ length xs → Subset ys xs
Subset_of_length xs ys u s h y m = elim (Bool-cases (contains xs y)) [
  | inl p ↦ p
  | inr n ↦ absurd (omega (arith, length_le-Subset (y ∷ xs) ys (n, u) (λ z k. ground (arith, s z))))
]
