-- ===== src/Prelude/Utf8.antt =====
-- `std::str::from_utf8`: which bytes are a string, by the table of well-formed sequences.
use Prim.Native.Nat.{ℕ, zero, suc}
use mathlib.Core.Path.{◌≡◌, refl}
use mathlib.Core.Bool.{Bool, true, false, ◌&&◌}
use mathlib.Core.List.{List, [], ◌∷◌}
use vm_authn_scope.Prelude.Tests.{ltb, leb, if◌then◌else◌}

-- Between two bytes: at the end of a character, or with a byte in this range to come, and so many
-- others behind it.
pub data Utf8 : Type 0 where
  whole malformed : Utf8
  want : ℕ → ℕ → ℕ → Utf8

-- The first byte of a character.
lead : ℕ → Utf8
lead b =
    if ltb b 0x80
    then whole
    else if ltb b 0xc2
    then malformed
    else if ltb b 0xe0
    then want 0 0x80 0xbf
    else if ltb b 0xe1
    then want 1 0xa0 0xbf
    else if ltb b 0xed
    then want 1 0x80 0xbf
    else if ltb b 0xee
    then want 1 0x80 0x9f
    else if ltb b 0xf0
    then want 1 0x80 0xbf
    else if ltb b 0xf1
    then want 2 0x90 0xbf
    else if ltb b 0xf4
    then want 2 0x80 0xbf
    else if ltb b 0xf5
    then want 2 0x80 0x8f
    else malformed

behind : ℕ → Utf8
behind zero = whole
behind (suc n) = want n 0x80 0xbf

feed : Utf8 → ℕ → Utf8
feed whole b = lead b
feed malformed b = malformed
feed (want n lo hi) b = if leb lo b && leb b hi then behind n else malformed

is_whole : Utf8 → Bool
is_whole whole = true
is_whole _ = false

utf8_from : Utf8 → List ℕ → Bool
utf8_from u [] = is_whole u
utf8_from u (b ∷ bs) = utf8_from (feed u b) bs

unfoldable pub is_utf8 : List ℕ → Bool
unfolding lead behind feed is_whole utf8_from
is_utf8 bytes = utf8_from whole bytes

utf8_sample :
    (is_utf8 (0x41 ∷ 0xc3 ∷ 0xa9 ∷ 0xe2 ∷ 0x82 ∷ 0xac ∷ []) ≡ true)
    × (is_utf8 (0xf0 ∷ 0x9f ∷ 0x98 ∷ 0x80 ∷ []) ≡ true)
    × (is_utf8 (0xc3 ∷ []) ≡ false)
    × (is_utf8 (0xed ∷ 0xa0 ∷ 0x80 ∷ []) ≡ false)
    × (is_utf8 (0xc0 ∷ 0x80 ∷ []) ≡ false)
unfolding is_utf8
utf8_sample = (refl, refl, refl, refl, refl)
