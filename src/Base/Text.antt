-- ===== src/Base/Text.antt =====
-- Texts as the code points of their UTF-8, with what the code uses of Go's `strings`, `unicode` and
-- `strconv`.
use honryu.Base.Tests.{leb, ltb, ◌==◌, if◌then◌else◌}
use honryu.Base.Lists.{is_empty}
use honryu.Base.Ints.{ℤ, pos, negsuc}
use Prim.Native.Nat.{ℕ, zero, suc, ◌+◌, ◌-◌, ◌*◌, ◌^◌, ◌/◌, ◌%◌}
use Prim.Native.Char.{code}
use Prim.Native.String.{String}
use mathlib.Core.Path.{◌≡◌}
use mathlib.Core.Logic.{◌↔◌}
use mathlib.Core.Bool.{Bool, true, false, ◌&&◌, ◌||◌}
use mathlib.Core.Option.{Option, none, some}
use mathlib.Core.List.{List, [], ◌∷◌, reverse}
use native.Mathlib.Omega.{arith}

abbrev pub Text : Type 0
Text = List ℕ

abbrev pub newline : ℕ
newline = 10

-- `unicode.IsSpace`
unfoldable pub is_space : ℕ → Bool
is_space c =
    (leb 9 c && leb c 13)
    || c == 32
    || c == 0x85
    || c == 0xA0
    || c == 0x1680
    || (leb 0x2000 c && leb c 0x200a)
    || c == 0x2028
    || c == 0x2029
    || c == 0x202f
    || c == 0x205f
    || c == 0x3000

unfoldable pub trim_left : Text → Text
unfolding is_space
trim_left [] = []
trim_left (c ∷ cs) = let rest = trim_left cs in if is_space c then rest else c ∷ cs

-- `strings.TrimSpace`, `bytes.TrimSpace`
unfoldable pub trim_space : Text → Text
unfolding trim_left
trim_space s = reverse (trim_left (reverse (trim_left s)))

-- The code points of a literal.
abbrev pub chars : String → Text
chars String.[] = []
chars (String.◌∷◌ c s) = code c ∷ chars s

unfoldable pub same_text : Text → Text → Bool
same_text [] [] = true
same_text [] (_ ∷ _) = false
same_text (_ ∷ _) [] = false
same_text (c ∷ cs) (d ∷ ds) = c == d && same_text cs ds

pub same_text_iff : (s t : Text) → (same_text s t ≡ true) ↔ (s ≡ t)
unfolding same_text
same_text_iff [] [] = ground arith
same_text_iff [] (d ∷ ds) = ground arith
same_text_iff (c ∷ cs) [] = ground arith
same_text_iff (c ∷ cs) (d ∷ ds) = ground (arith, same_text_iff cs ds)

-- `strings.ToLower`, as far as its result is compared with ASCII texts: of the other letters only the
-- Kelvin sign and the dotted capital I have an ASCII letter as their lower case.
unfoldable pub to_lower : Text → Text
to_lower [] = []
to_lower (c ∷ cs) =
    (if leb 65 c && leb c 90
      then c + 32
      else if c == 0x212A
      then 107
      else if c == 0x130
      then 105
      else c)
    ∷ to_lower cs

-- `strings.HasPrefix(s, prefix)`
unfoldable pub has_prefix : Text → Text → Bool
has_prefix s [] = true
has_prefix [] (_ ∷ _) = false
has_prefix (c ∷ cs) (d ∷ ds) = c == d && has_prefix cs ds

-- `strings.Contains(s, substr)`
unfoldable pub contains : Text → Text → Bool
unfolding has_prefix
contains [] sub = is_empty sub
contains (c ∷ cs) sub = has_prefix (c ∷ cs) sub || contains cs sub

-- A text of decimal digits, read after the number that is read already.
unfoldable pub digits_from : ℕ → Text → Option ℕ
digits_from n [] = some n
digits_from n (c ∷ cs) =
    let rest = digits_from (n * 10 + (c - 48)) cs in if leb 48 c && leb c 57 then rest else none

unfoldable pub unsigned : Text → Option ℕ
unfolding digits_from
unsigned cs = if is_empty cs then none else digits_from 0 cs

-- `strconv.Atoi`, whose error is `none`: an optional sign, then digits, in the range of an `int`.
unfoldable pub atoi : Text → Option ℤ
unfolding unsigned
atoi [] = none
atoi (c ∷ cs) =
    let n = unsigned (if c == 45 || c == 43 then cs else c ∷ cs) in
    elim n [
      | none ↦ none
      | some n ↦
          if c == 45
          then if leb n (2 ^ 63) then some (elim n [ zero ↦ pos 0 | suc m ↦ negsuc m ]) else none
          else if ltb n (2 ^ 63)
          then some (pos n)
          else none
    ]

-- The first `n` code points: `string(runes[:n])`.
unfoldable pub take_runes : ℕ → Text → Text
take_runes zero s = []
take_runes (suc n) [] = []
take_runes (suc n) (c ∷ cs) = c ∷ take_runes n cs

-- `<` on texts: their UTF-8 compares as their code points do.
unfoldable pub text_lt : Text → Text → Bool
text_lt s [] = false
text_lt [] (d ∷ ds) = true
text_lt (c ∷ cs) (d ∷ ds) =
    let rest = text_lt cs ds in if ltb c d then true else if ltb d c then false else rest

-- The decimal digits of a number, with fuel for that many of them.
unfoldable pub decimal : ℕ → ℕ → Text → Text
decimal zero n digits = digits
decimal (suc fuel) n digits =
    let more = decimal fuel (n / 10) ((n % 10 + 48) ∷ digits) in
    if ltb n 10 then (n + 48) ∷ digits else more

-- `strconv.Itoa`, `strconv.FormatInt(x, 10)`: an `int64` has 19 digits at most.
unfoldable pub itoa : ℤ → Text
unfolding decimal
itoa (pos n) = decimal 19 n []
itoa (negsuc n) = 45 ∷ decimal 19 (suc n) []

-- `len` of a text: the bytes of its UTF-8.
unfoldable pub byte_length : Text → ℕ
byte_length [] = 0
byte_length (c ∷ cs) =
    (if ltb c 0x80 then 1 else if ltb c 0x800 then 2 else if ltb c 0x10000 then 3 else 4)
    + byte_length cs
