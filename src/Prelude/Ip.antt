-- ===== src/Prelude/Ip.antt =====
-- `IpAddr::from_str`, as the parser of the standard library reads it.
use Prim.Native.Nat.{ℕ, zero, suc, ◌+◌, ◌-◌, ◌*◌}
use mathlib.Core.Path.{◌≡◌, refl}
use mathlib.Core.Bool.{Bool, true, false, not, ◌&&◌, ◌||◌}
use mathlib.Core.Option.{Option, none, some}
use mathlib.Core.List.{List, [], ◌∷◌, ◌++◌}
use vm_authn_scope.Prelude.Tests.{ltb, leb, if◌then◌else◌, ◌==◌, nat_eq}
use vm_authn_scope.Prelude.Lists.{length}
use vm_authn_scope.Prelude.Result.{Result, ok, err}
use vm_authn_scope.Prelude.Text.{Text, lit}
use native.Mathlib.Decide.{ℕ_discrete}

-- The four bytes, or the eight groups.
pub data IpAddr : Type 0 where
  v4 : ℕ → ℕ → ℕ → ℕ → IpAddr
  v6 : List ℕ → IpAddr

-- What a step of the parser reads, and the text behind it.
abbrev Read : Type 0 → Type 0
Read A = Option (A × Text)

infixl 5 ◌>>=◌
abbrev ◌>>=◌ : {A B : Type 0} → Option A → (A → Option B) → Option B
none >>= f = none
some a >>= f = f a

-- `char::to_digit`, for the radices 10 and 16.
digit_of : ℕ → ℕ → Option ℕ
digit_of radix c =
    if leb b'0' c && leb c b'9'
    then some (c - b'0')
    else if radix == 16 && leb b'a' c && leb c b'f'
    then some (c - b'a' + 10)
    else if radix == 16 && leb b'A' c && leb c b'F'
    then some (c - b'A' + 10)
    else none

-- The digits at the front.
digits : ℕ → Text → List ℕ × Text
digits radix [] = ([], [])
digits radix (c ∷ s) =
    let (ds, rest) = digits radix s in
    elim (digit_of radix c) [ none ↦ ([], c ∷ s) | some d ↦ (d ∷ ds, rest) ]

value : ℕ → ℕ → List ℕ → ℕ
value radix n [] = n
value radix n (d ∷ ds) = value radix (n * radix + d) ds

starts_with_zero : List ℕ → Bool
starts_with_zero [] = false
starts_with_zero (d ∷ ds) = d == 0

-- `read_number`: how many digits there may be, the largest value, and whether zeros may lead.
read_number : ℕ → ℕ → ℕ → Bool → Text → Read ℕ
read_number radix max_digits max zeros s =
    let (ds, rest) = digits radix s in
    if length ds == 0
      || ltb max_digits (length ds)
      || ltb max (value radix 0 ds)
      || (not zeros && starts_with_zero ds && ltb 1 (length ds))
    then none
    else some (value radix 0 ds, rest)

-- `read_given_char`
expect : ℕ → Text → Option Text
expect c [] = none
expect c (d ∷ s) = if d == c then some s else none

octet : Text → Read ℕ
octet = read_number 10 3 255 false

read_ipv4 : Text → Option (ℕ × ℕ × ℕ × ℕ × Text)
read_ipv4 s = do
  (a, s) ← octet s
  s ← expect b'.' s
  (b, s) ← octet s
  s ← expect b'.' s
  (c, s) ← octet s
  s ← expect b'.' s
  (d, s) ← octet s
  some (a, b, c, d, s)

-- `read_separator`: a colon in front of every group but the first.
separated : Bool → Text → Option Text
separated true s = some s
separated false s = expect b':' s

embedded : ℕ → Bool → Text → Option (ℕ × ℕ × ℕ × ℕ × Text)
embedded zero first s = none
embedded (suc n) first s = separated first s >>= read_ipv4

-- `read_groups`, with the groups that are left: what was read, whether it ends in an IPv4 address,
-- and the rest.
read_groups : ℕ → Bool → Text → List ℕ × Bool × Text
read_groups zero first s = ([], false, s)
read_groups (suc n) first s = elim (embedded n first s) [
  | some (a, b, c, d, rest) ↦ ((a * 256 + b) ∷ (c * 256 + d) ∷ [], true, rest)
  | none ↦ elim (separated first s >>= read_number 16 4 65535 true) [
    | none ↦ ([], false, s)
    | some (g, rest) ↦ let (gs, ends, rest') = read_groups n false rest in (g ∷ gs, ends, rest')
  ]
]

zeros : ℕ → List ℕ
zeros zero = []
zeros (suc n) = 0 ∷ zeros n

-- The `::` and the groups behind it.
read_tail : List ℕ → Text → Read (List ℕ)
read_tail head s = do
  s ← expect b':' s
  s ← expect b':' s
  let (tail, _, rest) = read_groups (8 - (length head + 1)) true s
  some (head ++ (zeros (8 - length head - length tail) ++ tail), rest)

read_ipv6 : Text → Read (List ℕ)
read_ipv6 s =
    let (head, ends_in_v4, rest) = read_groups 8 true s in
    if length head == 8 then some (head, rest) else if ends_in_v4 then none else read_tail head rest

-- Nothing may stand behind the address.
at_end : IpAddr → Text → Option IpAddr
at_end ip [] = some ip
at_end ip (_ ∷ _) = none

parsed : Text → Option IpAddr
parsed s = elim (read_ipv4 s) [
  | some (a, b, c, d, rest) ↦ at_end (v4 a b c d) rest
  | none ↦ read_ipv6 s >>= λ (groups, rest). at_end (v6 groups) rest
]

or_syntax : Option IpAddr → Result Text IpAddr
or_syntax none = err (lit "invalid IP address syntax")
or_syntax (some ip) = ok ip

unfoldable pub parse_ip : Text → Result Text IpAddr
unfolding digit_of digits value starts_with_zero read_number expect octet read_ipv4 separated
    embedded read_groups zeros read_tail read_ipv6 at_end parsed or_syntax
parse_ip s = or_syntax (parsed s)

ip_sample :
    (parse_ip (lit "127.0.0.1") ≡ ok (v4 127 0 0 1))
    × (parse_ip (lit "::1") ≡ ok (v6 (0 ∷ 0 ∷ 0 ∷ 0 ∷ 0 ∷ 0 ∷ 0 ∷ 1 ∷ [])))
    × (parse_ip (lit "fe80::1:10.0.0.1") ≡ ok (v6 (0xfe80 ∷ 0 ∷ 0 ∷ 0 ∷ 0 ∷ 1 ∷ 0xa00 ∷ 1 ∷ [])))
    × (parse_ip (lit "1:2:3:4:5:6:7:8") ≡ ok (v6 (1 ∷ 2 ∷ 3 ∷ 4 ∷ 5 ∷ 6 ∷ 7 ∷ 8 ∷ [])))
    × (parse_ip (lit "10.0.0.256") ≡ err (lit "invalid IP address syntax"))
    × (parse_ip (lit "10.0.0.01") ≡ err (lit "invalid IP address syntax"))
    × (parse_ip (lit "10.0.0.1 ") ≡ err (lit "invalid IP address syntax"))
unfolding parse_ip ℕ_discrete
ip_sample = (refl, refl, refl, refl, refl, refl, refl)
