-- ===== src/Prelude/Text.antt =====
-- Rust strings as lists of code points, with the methods of `str` that the program calls.
pub mod Digits
use Prim.Native.Nat.{ℕ, zero, suc, ◌+◌, ◌-◌, ◌*◌, ◌/◌, ◌%◌, ◌^◌}
use Prim.Native.Char.{code}
use Prim.Native.String.{String}
use mathlib.Core.Path.{◌≡◌, refl}
use mathlib.Core.Bool.{Bool, true, false, ◌&&◌, ◌||◌}
use mathlib.Core.Option
use mathlib.Core.Option.{Option, none, some}
use mathlib.Core.List.{List, [], ◌∷◌, reverse}
use vm_authn_scope.Prelude.Tests.{ltb, leb, if◌then◌else◌, ◌==◌, nat_eq, text_eq, text_dec}
use native.Mathlib.Decide.{ℕ_discrete}

abbrev pub Text : Type 0
Text = List ℕ

-- A literal.
abbrev pub lit : String → Text
lit String.[] = []
lit (String.◌∷◌ c s) = code c ∷ lit s

-- `char::is_whitespace`: the Unicode property White_Space.
pub is_whitespace : ℕ → Bool
is_whitespace c =
    (leb 9 c && leb c 13)
    || (leb 0x2000 c && leb c 0x200a)
    || c == 0x20
    || c == 0x85
    || c == 0xa0
    || c == 0x1680
    || c == 0x2028
    || c == 0x2029
    || c == 0x202f
    || c == 0x205f
    || c == 0x3000

unfoldable pub trim_start : Text → Text
unfolding is_whitespace
trim_start [] = []
trim_start (c ∷ s) = if is_whitespace c then trim_start s else c ∷ s

-- `str::trim`
unfoldable pub trim : Text → Text
unfolding trim_start
trim s = reverse (trim_start (reverse (trim_start s)))

-- The first piece and those behind it: a text that is split has at least one piece.
abbrev cons_head : ℕ → List Text → List Text
cons_head c [] = (c ∷ []) ∷ []
cons_head c (p ∷ ps) = (c ∷ p) ∷ ps

-- `str::split(char)`
unfoldable pub split : ℕ → Text → List Text
split sep [] = [] ∷ []
split sep (c ∷ s) = let rest = split sep s in if c == sep then [] ∷ rest else cons_head c rest

-- `str::splitn(n, char)`, for `n` above zero: the last piece is the unsplit rest.
unfoldable pub splitn : ℕ → ℕ → Text → List Text
splitn zero sep s = []
splitn (suc zero) sep s = s ∷ []
splitn (suc (suc n)) sep [] = [] ∷ []
splitn (suc (suc n)) sep (c ∷ s) =
    let piece = splitn (suc n) sep s in
    let longer = cons_head c (splitn (suc (suc n)) sep s) in if c == sep then [] ∷ piece else longer

-- `Iterator::last` and `slice::first`
abbrev pub last {ℓ} : {A : Type ℓ} → List A → Option A
last [] = none
last (x ∷ []) = some x
last (x ∷ y ∷ ys) = last (y ∷ ys)

abbrev pub first {ℓ} : {A : Type ℓ} → List A → Option A
first [] = none
first (x ∷ xs) = some x

abbrev pub is_some {ℓ} : {A : Type ℓ} → Option A → Bool
is_some none = false
is_some (some a) = true

abbrev pub is_none {ℓ} : {A : Type ℓ} → Option A → Bool
is_none none = true
is_none (some a) = false

-- `str::starts_with`, as what follows the prefix.
unfoldable pub strip_prefix : Text → Text → Option Text
strip_prefix [] s = some s
strip_prefix (p ∷ ps) [] = none
strip_prefix (p ∷ ps) (c ∷ s) = if c == p then strip_prefix ps s else none

-- `str::strip_suffix`
unfoldable pub strip_suffix : Text → Text → Option Text
unfolding strip_prefix
strip_suffix suffix s = Option.map reverse (strip_prefix (reverse suffix) (reverse s))

-- `str::contains(&str)`
unfoldable pub contains : Text → Text → Bool
unfolding strip_prefix
contains p [] = is_some (strip_prefix p [])
contains p (c ∷ s) = is_some (strip_prefix p (c ∷ s)) || contains p s

-- `str::lines`: the pieces between line feeds, less a last empty one; a carriage return before a
-- line feed goes too.
abbrev strip_cr : Text → Text
strip_cr s = Option.get_or (strip_suffix (b'\r' ∷ []) s) s

unfoldable pub lines_of : List Text → List Text
unfolding strip_suffix
lines_of [] = []
lines_of ([] ∷ []) = []
lines_of ((c ∷ s) ∷ []) = (c ∷ s) ∷ []
lines_of (p ∷ q ∷ ps) = strip_cr p ∷ lines_of (q ∷ ps)

unfoldable pub lines : Text → List Text
unfolding lines_of split
lines s = lines_of (split b'\n' s)

-- The decimal digits of a number, behind those of the rest. A number has fewer digits than its
-- successor, so that is fuel enough.
show_fuel : ℕ → ℕ → Text → Text
show_fuel zero n out = out
show_fuel (suc f) n out =
    let digit = (b'0' + n % 10) ∷ out in
    let rest = show_fuel f (n / 10) digit in if ltb n 10 then digit else rest

-- `{}` of an unsigned integer.
unfoldable pub show : ℕ → Text
unfolding show_fuel
show n = show_fuel (suc n) n []

-- `str::parse` to an unsigned integer below a bound: an optional `+`, then digits, with a check for
-- overflow at each.
parse_digits : ℕ → Text → ℕ → Option ℕ
parse_digits bound [] n = some n
parse_digits bound (c ∷ s) n =
    let rest = parse_digits bound s (n * 10 + (c - b'0')) in
    if ltb c b'0' || ltb b'9' c || leb bound (n * 10 + (c - b'0')) then none else rest

unsigned_digits : ℕ → Text → Option ℕ
unsigned_digits bound [] = none
unsigned_digits bound (c ∷ s) = parse_digits bound (c ∷ s) 0

unfoldable pub parse_unsigned : ℕ → Text → Option ℕ
unfolding parse_digits unsigned_digits
parse_unsigned bound [] = none
parse_unsigned bound (c ∷ s) =
    if c == b'+' then unsigned_digits bound s else unsigned_digits bound (c ∷ s)

abbrev pub parse_u32 : Text → Option ℕ
parse_u32 = parse_unsigned (2 ^ 32)

abbrev pub parse_u64 : Text → Option ℕ
parse_u64 = parse_unsigned (2 ^ 64)

-- `str::split_whitespace`
abbrev starts_word : Text → Bool
starts_word [] = false
starts_word (c ∷ s) = if is_whitespace c then false else true

unfoldable pub words : Text → List Text
unfolding is_whitespace
words [] = []
words (c ∷ s) =
    let rest = words s in
    if is_whitespace c then rest else if starts_word s then cons_head c rest else (c ∷ []) ∷ rest

show_sample : show 4194304 ≡ lit "4194304"
unfolding show ℕ_discrete
show_sample = refl

text_sample :
    (trim (lit " a b\t") ≡ lit "a b")
    × (split b',' (lit "a,,b") ≡ lit "a" ∷ [] ∷ lit "b" ∷ [])
    × (splitn 3 b':' (lit "unix:bin:/a:b") ≡ lit "unix" ∷ lit "bin" ∷ lit "/a:b" ∷ [])
    × (lines (lit "ab\r\nc\n") ≡ lit "ab" ∷ lit "c" ∷ [])
    × (strip_suffix (lit ".service") (lit "a.service") ≡ some (lit "a"))
    × (contains (lit ".service") (lit "x.services") ≡ true)
    × (parse_u32 (lit "+4294967295") ≡ some 4294967295)
    × (parse_u32 (lit "4294967296") ≡ none)
    × (words (lit " VmRSS:\t 12 kB ") ≡ lit "VmRSS:" ∷ lit "12" ∷ lit "kB" ∷ [])
    × ((lit "abc" == lit "abc") ≡ true)
unfolding trim split splitn lines strip_suffix contains parse_unsigned words ℕ_discrete text_dec
text_sample = (refl, refl, refl, refl, refl, refl, refl, refl, refl, refl)
