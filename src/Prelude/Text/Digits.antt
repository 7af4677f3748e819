-- ===== src/Prelude/Text/Digits.antt =====
-- A number is read back from its digits.
use Prim.Native.Nat.{ℕ, zero, suc, ◌+◌, ◌*◌, ◌/◌, ◌%◌, ◌<◌}
use mathlib.Core.Path.{◌≡◌, refl, ◌∙◌}
use mathlib.Core.Logic.{◌≢◌, inl, inr}
use mathlib.Core.Option.{some}
use mathlib.Core.List.{[], ◌∷◌}
use native.Mathlib.Omega.{arith}
use vm_authn_scope.Prelude.Tests.{ltb, nat_eq, Bool-cases}
use vm_authn_scope.Prelude.Text.{
  Text, show, show_fuel, parse_digits, unsigned_digits, parse_unsigned,
}

parse_digit :
    (bound n m : ℕ) (out : Text)
    → n ≡ m * 10 + n % 10
    → n < bound
    → parse_digits bound ((b'0' + n % 10) ∷ out) m ≡ parse_digits bound out n
unfolding parse_digits
parse_digit bound n m out ends small = ground (arith, ends, small)

parse-show_fuel :
    (bound f n : ℕ) (out : Text)
    → n < f
    → n < bound
    → parse_digits bound (show_fuel f n out) 0 ≡ parse_digits bound out n
unfolding show_fuel
parse-show_fuel bound zero n out fuel small = absurd (omega (arith, fuel))
parse-show_fuel bound (suc f) n out fuel small = elim (Bool-cases (ltb n 10)) [
  | inl last ↦ rw last (parse_digit bound n 0 out (ground (arith, last)) small)
  | inr more ↦ rw more (
      parse-show_fuel bound f (n / 10) ((b'0' + n % 10) ∷ out) (ground (arith, more, fuel))
        (ground (arith, small))
      ∙ parse_digit bound n (n / 10) out (omega arith) small)
]

starts_digit :
    (bound : ℕ) (s : Text) (n m : ℕ)
    → parse_digits bound s m ≡ some n
    → s ≢ []
    → parse_unsigned bound s ≡ parse_digits bound s 0
unfolding parse_unsigned parse_digits unsigned_digits
starts_digit bound [] n m e full = absurd (full refl)
starts_digit bound (c ∷ s) n m e full = ground (arith, e)

show_fuel_full : (f n d : ℕ) (out : Text) → show_fuel f n (d ∷ out) ≢ []
unfolding show_fuel
show_fuel_full zero n d out e = cc (e)
show_fuel_full (suc f) n d out e =
    ground (arith, e, show_fuel_full f (n / 10) (b'0' + n % 10) (d ∷ out))

show_full : (n : ℕ) → show n ≢ []
unfolding show show_fuel
show_full n e = ground (arith, e, show_fuel_full n (n / 10) (b'0' + n % 10) [])

-- What is printed of a number below the bound is parsed as that number.
pub parse_unsigned-show : (bound n : ℕ) → n < bound → parse_unsigned bound (show n) ≡ some n
unfolding show parse_digits
parse_unsigned-show bound n small =
    let read : parse_digits bound (show_fuel (suc n) n []) 0 ≡ some n =
      parse-show_fuel bound (suc n) n [] (omega arith) small in
    starts_digit bound (show_fuel (suc n) n []) n 0 read (show_full n) ∙ read
