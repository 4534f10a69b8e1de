-- ===== src/Base/Text.antt =====
-- Texts. A text is a native `String`, its code points; `units` are the UTF-16 code units that
-- JavaScript's `length`, `charCodeAt`, `trim` and `includes` walk over.
use Prim.Native.Nat.{ℕ, ◌+◌, ◌-◌, ◌/◌, ◌%◌}
use Prim.Native.Char.{code}
use Prim.Native.String.{String}
use mathlib.Core.Bool.{Bool, true, false, ◌&&◌, ◌||◌}
use mathlib.Core.Option.{Option, none, some}
use mathlib.Core.List.{List, [], ◌∷◌, reverse}
use text.Mathlib.Text.{◌==◌}
use winbridge.Base.Tests.{ltb, leb, nat_eq, if◌then◌else◌}

abbrev pub str_eq : String → String → Bool
str_eq a b = a == b

abbrev pub codes : String → List ℕ
codes String.[] = []
codes (String.◌∷◌ c s) = code c ∷ codes s

-- One unit below 0x10000, else a surrogate pair.
abbrev pub encode_units : List ℕ → List ℕ
encode_units [] = []
encode_units (c ∷ cs) =
    if ltb c 0x10000
    then c ∷ encode_units cs
    else (0xd800 + (c - 0x10000) / 0x400) ∷ (0xdc00 + (c - 0x10000) % 0x400) ∷ encode_units cs

abbrev pub units : String → List ℕ
units s = encode_units (codes s)

-- The white space of `trim` and of `\s`.
abbrev pub is_space : ℕ → Bool
is_space c =
    (leb 9 c && leb c 13)
    || nat_eq c 32
    || nat_eq c 0xa0
    || nat_eq c 0x1680
    || (leb 0x2000 c && leb c 0x200a)
    || nat_eq c 0x2028
    || nat_eq c 0x2029
    || nat_eq c 0x202f
    || nat_eq c 0x205f
    || nat_eq c 0x3000
    || nat_eq c 0xfeff

abbrev pub trim_start : List ℕ → List ℕ
trim_start [] = []
trim_start (c ∷ cs) = if is_space c then trim_start cs else c ∷ cs

abbrev pub trim : List ℕ → List ℕ
trim cs = reverse (trim_start (reverse (trim_start cs)))

abbrev pub same_units : List ℕ → List ℕ → Bool
same_units [] [] = true
same_units (a ∷ as') (b ∷ bs) = nat_eq a b && same_units as' bs
same_units _ _ = false

abbrev pub is_prefix : List ℕ → List ℕ → Bool
is_prefix [] cs = true
is_prefix (p ∷ ps) [] = false
is_prefix (p ∷ ps) (c ∷ cs) = nat_eq p c && is_prefix ps cs

-- `text.includes(part)`
abbrev pub includes : List ℕ → List ℕ → Bool
includes [] part = is_prefix part []
includes (c ∷ cs) part = is_prefix part (c ∷ cs) || includes cs part

-- `if (text)`: an empty text counts as absent.
abbrev pub non_empty : Option String → Option String
non_empty none = none
non_empty (some s) = if str_eq s "" then none else some s
