-- ===== src/Common/Text.antt =====
-- Text as a list of code points, with what the source uses of Go's strings and strconv.
use Prim.Native.Nat.{ℕ, zero, suc, ◌+◌, ◌-◌, ◌*◌, ◌^◌}
use Prim.Native.Char.{code}
use Prim.Native.String.{String}
use mathlib.Core.Bool.{Bool, true, false, ◌&&◌, ◌||◌}
use mathlib.Core.List.{List, [], ◌∷◌}
use mathlib.Core.Option.{Option, none, some}
use mathlib.Core.Path.{◌≡◌, refl}
use native.Mathlib.Omega.{arith}
use belady.Common.Tests.{ltb, leb, ◌==◌, if◌then◌else◌, ◌>>=◌}
use belady.Common.Int.{ℤ, pos, negsuc}

abbrev pub Text : Type 0
Text = List ℕ

abbrev pub codes : String → Text
codes String.[] = []
codes (String.◌∷◌ c s) = code c ∷ codes s

unfoldable pub same_text : Text → Text → Bool
same_text [] [] = true
same_text [] (b ∷ bs) = false
same_text (a ∷ as') [] = false
same_text (a ∷ as') (b ∷ bs) = if a == b then same_text as' bs else false

pub same_text-eq : (a b : Text) → same_text a b ≡ true → a ≡ b
unfolding same_text
same_text-eq [] [] h = refl
same_text-eq [] (y ∷ b) h = cc
same_text-eq (x ∷ a) [] h = cc
same_text-eq (x ∷ a) (y ∷ b) h = ground (arith, same_text-eq a b)

pub same_text_refl : (a : Text) → same_text a a ≡ true
unfolding same_text
same_text_refl [] = refl
same_text_refl (x ∷ a) = ground (arith, same_text_refl a)

-- `unicode.IsSpace`
unfoldable pub is_space : ℕ → Bool
is_space c =
    (leb 9 c && leb c 13)
    || c == 32
    || c == 0x85
    || c == 0xA0
    || c == 0x1680
    || (leb 0x2000 c && leb c 0x200A)
    || c == 0x2028
    || c == 0x2029
    || c == 0x202F
    || c == 0x205F
    || c == 0x3000

unfoldable pub trim_left : Text → Text
trim_left [] = []
trim_left (c ∷ s) = let rest = trim_left s in if is_space c then rest else c ∷ s

unfoldable pub trim_right : Text → Text
trim_right [] = []
trim_right (c ∷ s) = elim (trim_right s) [
  | [] ↦ if is_space c then [] else c ∷ []
  | d ∷ t ↦ c ∷ d ∷ t
]

-- `strings.TrimSpace`
unfoldable pub trim_space : Text → Text
trim_space s = trim_right (trim_left s)

-- `strings.Cut` at one character: `none` where it does not stand.
unfoldable pub cut : ℕ → Text → Option (Text × Text)
cut c [] = none
cut c (d ∷ s) =
    let rest = cut c s in
    if d == c then some ([], s) else (rest >>= λ parts. some (d ∷ parts.0, parts.1))

-- The parts of a text between the characters of a kind.
unfoldable pub split_by : (ℕ → Bool) → Text → List Text
split_by sep [] = [] ∷ []
split_by sep (c ∷ s) = elim (split_by sep s) [
  | [] ↦ []
  | part ∷ parts ↦ if sep c then [] ∷ part ∷ parts else (c ∷ part) ∷ parts
]

-- `strings.Split` at one character.
unfoldable pub split : ℕ → Text → List Text
split c s = split_by (λ d. d == c) s

unfoldable pub is_empty : Text → Bool
is_empty [] = true
is_empty (c ∷ s) = false

unfoldable pub non_empty : List Text → List Text
non_empty [] = []
non_empty (s ∷ ss) = let rest = non_empty ss in if is_empty s then rest else s ∷ rest

-- `strings.Fields`
unfoldable pub fields : Text → List Text
fields s = non_empty (split_by is_space s)

-- `strings.HasPrefix` and `strings.HasSuffix`, with what is left: `CutPrefix` and `CutSuffix`.
unfoldable pub cut_prefix : Text → Text → Option Text
cut_prefix s [] = some s
cut_prefix [] (p ∷ ps) = none
cut_prefix (c ∷ s) (p ∷ ps) = if c == p then cut_prefix s ps else none

unfoldable pub cut_suffix : Text → Text → Option Text
cut_suffix [] suffix = if is_empty suffix then some [] else none
cut_suffix (c ∷ s) suffix =
    let rest = cut_suffix s suffix in
    if same_text (c ∷ s) suffix then some [] else (rest >>= λ t. some (c ∷ t))

unfoldable pub digits_from : ℕ → Text → Option ℕ
digits_from acc [] = some acc
digits_from acc (c ∷ s) = if leb 48 c && leb c 57 then digits_from (acc * 10 + (c - 48)) s else none

-- Decimal digits, at least one.
unfoldable pub digits : Text → Option ℕ
digits s = if is_empty s then none else digits_from 0 s

unfoldable pub minus : ℕ → ℤ
minus zero = pos 0
minus (suc n) = negsuc n

-- `strconv.ParseInt` to base 10, for integers of the given number of bits.
unfoldable pub parse_int : ℕ → Text → Option ℤ
parse_int bits [] = none
parse_int bits (c ∷ s) =
    if c == b'-'
    then (digits s >>= λ n. if leb n (2 ^ (bits - 1)) then some (minus n) else none)
    else (digits (if c == b'+' then s else c ∷ s) >>= λ n.
        if ltb n (2 ^ (bits - 1)) then some (pos n) else none)
