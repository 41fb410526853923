-- ===== src/Text.antt =====
-- Rust's `str`, as its list of code points, and the methods that the crates call on it. The order
-- of `str` is that of its UTF-8 bytes, which is the order of its code points.
pub mod Order
pub mod Prefix
pub mod Decimal
pub mod Split
pub mod SortedMap
pub mod Window
use Prim.Native.Char.{code}
use Prim.Native.String.{String}
use msgbus.Prelude.{
  ℕ, zero, suc, ◌+◌, ◌/◌, ◌%◌, Bool, true, false, ◌&&◌, ◌||◌, Option, none, some, List, [], ◌∷◌,
  ◌++◌, reverse, ltb, leb, ◌==◌, if◌then◌else◌,
}

abbrev pub Str : Type 0
Str = List ℕ

-- A literal of the source.
abbrev pub codes : String → Str
codes String.[] = []
codes (String.◌∷◌ c s) = code c ∷ codes s

unfoldable pub str_eq : Str → Str → Bool
str_eq [] [] = true
str_eq [] (y ∷ ys) = false
str_eq (x ∷ xs) [] = false
str_eq (x ∷ xs) (y ∷ ys) = x == y && str_eq xs ys

unfoldable pub str_lt : Str → Str → Bool
str_lt [] [] = false
str_lt [] (y ∷ ys) = true
str_lt (x ∷ xs) [] = false
str_lt (x ∷ xs) (y ∷ ys) = ltb x y || (x == y && str_lt xs ys)

-- `str::starts_with`, the prefix second
unfoldable pub starts_with : Str → Str → Bool
starts_with s [] = true
starts_with [] (p ∷ ps) = false
starts_with (c ∷ s) (p ∷ ps) = c == p && starts_with s ps

-- `str::strip_prefix`
unfoldable pub strip_prefix : Str → Str → Option Str
strip_prefix s [] = some s
strip_prefix [] (p ∷ ps) = none
strip_prefix (c ∷ s) (p ∷ ps) = if c == p then strip_prefix s ps else none

-- `str::is_empty`
abbrev pub is_empty : Str → Bool
is_empty [] = true
is_empty (c ∷ s) = false

-- `str::contains` of a character
unfoldable pub contains : Str → ℕ → Bool
contains [] c = false
contains (x ∷ s) c = x == c || contains s c

-- `char::is_whitespace`: the property White_Space of Unicode
unfoldable pub is_whitespace : ℕ → Bool
is_whitespace c =
    (leb 9 c && leb c 13)
    || c == 0x20
    || c == 0x85
    || c == 0xa0
    || c == 0x1680
    || (leb 0x2000 c && leb c 0x200a)
    || c == 0x2028
    || c == 0x2029
    || c == 0x202f
    || c == 0x205f
    || c == 0x3000

unfoldable pub trim_start : Str → Str
unfolding is_whitespace
trim_start [] = []
trim_start (c ∷ s) = let rest = trim_start s in if is_whitespace c then rest else c ∷ s

-- `str::trim`
unfoldable pub trim : Str → Str
unfolding trim_start
trim s = reverse (trim_start (reverse (trim_start s)))

-- the first piece of a split is longer by `c`
abbrev pub push_front : ℕ → List Str → List Str
push_front c [] = (c ∷ []) ∷ []
push_front c (p ∷ ps) = (c ∷ p) ∷ ps

-- `str::split` at a character: one piece more than there are separators
unfoldable pub split : ℕ → Str → List Str
split sep [] = [] ∷ []
split sep (c ∷ s) = let rest = split sep s in if c == sep then [] ∷ rest else push_front c rest

-- `{:0w}` of a number below 10 ^ w
unfoldable pub zero_padded : ℕ → ℕ → Str
zero_padded zero n = []
zero_padded (suc w) n = zero_padded w (n / 10) ++ (48 + n % 10) ∷ []

unfoldable pub strip_zeros : Str → Str
strip_zeros [] = []
strip_zeros (c ∷ []) = c ∷ []
strip_zeros (c ∷ d ∷ s) = let rest = strip_zeros (d ∷ s) in if c == 48 then rest else c ∷ d ∷ s

-- `{}` of a `u64`
unfoldable pub decimal : ℕ → Str
unfolding zero_padded strip_zeros
decimal n = strip_zeros (zero_padded 20 n)
