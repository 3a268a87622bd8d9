-- ===== src/Base/Text.antt =====
-- What the program uses of Go's `strings`, `fmt` and `regexp` on texts. A text is a native string of
-- Unicode characters; a Go string that is not valid UTF-8 has no counterpart.
pub mod Trim
use Prim.Native.Nat.{ℕ, zero, suc, ◌/◌, ◌%◌, ◌<◌}
use Prim.Native.Char.{Char, code}
use Prim.Native.String.{String, [], ◌∷◌, char_at}
use mathlib.Core.Path.{◌≡◌, refl}
use mathlib.Core.Bool.{Bool, true, false, ◌&&◌, ◌||◌}
use mathlib.Core.Logic.{dite}
use mathlib.Core.WellFounded.{Acc}
use native.Mathlib.Decide.{dec_lt}
use native.Mathlib.Omega.{arith}
use onecatch.Base.Tests.{leb, eqb, if◌then◌else◌, ◌==◌}
use onecatch.Base.Order.{lt_wf}

abbrev between : ℕ → ℕ → ℕ → Bool
between lo hi c = leb lo c && leb c hi

-- `unicode.IsSpace`: the characters with the property White_Space.
unfoldable pub is_space : ℕ → Bool
is_space c =
    between 9 13 c
    || eqb c 0x20
    || eqb c 0x85
    || eqb c 0xa0
    || eqb c 0x1680
    || between 0x2000 0x200a c
    || eqb c 0x2028
    || eqb c 0x2029
    || eqb c 0x202f
    || eqb c 0x205f
    || eqb c 0x3000

unfoldable pub trim_left : String → String
trim_left [] = []
trim_left (c ∷ s) = if is_space (code c) then trim_left s else c ∷ s

abbrev pub is_nil : String → Bool
is_nil [] = true
is_nil (c ∷ s) = false

unfoldable pub trim_right : String → String
trim_right [] = []
trim_right (c ∷ s) =
    let rest = trim_right s in if is_space (code c) && is_nil rest then [] else c ∷ rest

-- `strings.TrimSpace`.
unfoldable pub trim_space : String → String
trim_space s = trim_right (trim_left s)

-- `strings.TrimSpace(s) == ""`.
abbrev pub is_blank : String → Bool
is_blank s = trim_space s == ""

-- `strings.ToLower` on ASCII letters and on the two other characters whose lower case is ASCII
-- (U+0130 and U+212A). The remaining case pairs of Unicode are left as they are: the program compares
-- the result with ASCII words only.
-- Walks the two alphabets side by side.
unfoldable pub lower_from : String → String → Char → Char
lower_from (u ∷ us) (l ∷ ls) c = if eqb (code u) (code c) then l else lower_from us ls c
lower_from [] _ c = c
lower_from (u ∷ us) [] c = c

abbrev pub uppers : String
uppers = "ABCDEFGHIJKLMNOPQRSTUVWXYZİK"

abbrev pub lowers : String
lowers = "abcdefghijklmnopqrstuvwxyzik"

abbrev pub lower : Char → Char
lower = lower_from uppers lowers

unfoldable pub to_lower : String → String
to_lower [] = []
to_lower (c ∷ s) = lower c ∷ to_lower s

decimal : (n : ℕ) → Acc ◌<◌ n → String → String
decimal n (Acc.intro _ smaller) out =
    dite (dec_lt 9 n)
      (λ h. decimal (n / 10) (smaller (n / 10) (omega arith)) (char_at "0123456789" (n % 10) ∷ out))
      (λ _. char_at "0123456789" n ∷ out)

-- `%d` of a number that is not negative.
unfoldable pub show_nat : ℕ → String
unfolding decimal lt_wf dec_lt
show_nat n = decimal n (lt_wf.apply n) ""

is_lower : ℕ → Bool
is_lower c = between b'a' b'z' c

is_word : ℕ → Bool
unfolding is_lower
is_word c = is_lower c || between b'0' b'9' c || eqb c b'_' || eqb c b'-'

-- At most `n` characters, each a word character.
word_tail : ℕ → String → Bool
unfolding is_word
word_tail n [] = true
word_tail zero (c ∷ s) = false
word_tail (suc n) (c ∷ s) = is_word (code c) && word_tail n s

-- `^[a-z][a-z0-9_-]{0,63}$`, the pattern `identifierPattern` of internal/domain/workflows.
unfoldable pub is_identifier : String → Bool
unfolding is_lower word_tail
is_identifier [] = false
is_identifier (c ∷ s) = is_lower (code c) && word_tail 63 s

-- `strings.HasPrefix(text, s)`
unfoldable pub has_prefix : String → String → Bool
has_prefix [] text = true
has_prefix (c ∷ s) [] = false
has_prefix (c ∷ s) (e ∷ text) = eqb (code c) (code e) && has_prefix s text

-- `len`, in characters.
unfoldable pub text_length : String → ℕ
text_length [] = 0
text_length (c ∷ s) = suc (text_length s)

-- `text[:n]`
unfoldable pub first_chars : ℕ → String → String
first_chars zero s = ""
first_chars (suc n) [] = ""
first_chars (suc n) (c ∷ s) = c ∷ first_chars n s

show_nat_test : show_nat 1203 ≡ "1203"
unfolding show_nat
show_nat_test = refl

to_lower_test : to_lower "XHigh" ≡ "xhigh"
unfolding to_lower lower_from
to_lower_test = refl

trim_space_test : trim_space " \t a b \n" ≡ "a b"
unfolding trim_space trim_left trim_right is_space
trim_space_test = refl

is_identifier_test : is_identifier "a-9_z" ≡ true
unfolding is_identifier
is_identifier_test = refl
