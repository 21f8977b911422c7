-- ===== src/Base/Int64.antt =====
-- Go's int64: an integer in [-2^63, 2^63), whose operations wrap around.
use Prim.Native.Nat.{ℕ, ◌+◌, ◌-◌, ◌%◌, ◌≤◌, ◌<◌}
use mathlib.Core.Path.{◌≡◌}
use native.Mathlib.Omega.{arith}
use mathlib.Core.Bool.{Bool, ◌&&◌}
use openpay.Base.Tests.{ltb, leb, if◌then◌else◌}
use openpay.Base.Int.{
  ℤ, pos, negsuc, pos_part, neg_part, magnitude, ◌+ℤ◌, ◌-ℤ◌, ◌*ℤ◌, neg, magnitude-+ℤ, magnitude-sub,
  *ℤ_one, *ℤ_minus_one, one_*ℤ, minus_one_*ℤ,
}

abbrev pub half : ℕ
half = 9223372036854775808

abbrev pub modulus : ℕ
modulus = 18446744073709551616

-- The signed reading of a 64-bit pattern.
abbrev pub signed_of : ℕ → ℤ
signed_of r = if ltb r half then pos r else negsuc (modulus - r - 1)

-- The representative of an integer modulo 2^64 in [-2^63, 2^63).
unfoldable pub wrap : ℤ → ℤ
wrap z = signed_of ((pos_part z + (modulus - neg_part z % modulus)) % modulus)

abbrev pub InRange : ℤ → Type 0
InRange z = (pos_part z < half) × (neg_part z ≤ half)

-- Does a BIGINT column take the value?
abbrev pub fits : ℤ → Bool
fits z = ltb (pos_part z) half && leb (neg_part z) half

pub wrap-InRange : (z : ℤ) → InRange (wrap z)
unfolding wrap
wrap-InRange z = ground arith

pub wrap_of_InRange : (z : ℤ) → InRange z → wrap z ≡ z
unfolding wrap
wrap_of_InRange (pos n) h = ground arith
wrap_of_InRange (negsuc n) h = ground arith

unfoldable pub add64 : ℤ → ℤ → ℤ
add64 a b = wrap (a +ℤ b)

unfoldable pub sub64 : ℤ → ℤ → ℤ
sub64 a b = wrap (a -ℤ b)

unfoldable pub mul64 : ℤ → ℤ → ℤ
mul64 a b = wrap (a *ℤ b)

unfoldable pub neg64 : ℤ → ℤ
neg64 a = wrap (neg a)

pub wrap_of_small : (z : ℤ) → magnitude z < half → wrap z ≡ z
wrap_of_small z h = wrap_of_InRange z (omega arith)

pub add64_exact : (a b : ℤ) → magnitude a + magnitude b < half → add64 a b ≡ a +ℤ b
unfolding add64
add64_exact a b h = wrap_of_small (a +ℤ b) (omega (arith, magnitude-+ℤ a b))

pub sub64_exact : (a b : ℤ) → magnitude a + magnitude b < half → sub64 a b ≡ a -ℤ b
unfolding sub64
sub64_exact a b h = wrap_of_small (a -ℤ b) (omega (arith, magnitude-sub a b))

pub neg64_exact : (a : ℤ) → magnitude a < half → neg64 a ≡ neg a
unfolding neg64 neg
neg64_exact a h = wrap_of_small (neg a) (unfold neg in ground arith)

pub mul64_one : (a : ℤ) → magnitude a < half → mul64 a (pos 1) ≡ a
unfolding mul64
mul64_one a h = rw (*ℤ_one a) (wrap_of_small a h)

pub mul64_minus_one : (a : ℤ) → magnitude a < half → mul64 a (negsuc 0) ≡ neg a
unfolding mul64
mul64_minus_one a h = rw (*ℤ_minus_one a) (wrap_of_small (neg a) (unfold neg in ground arith))

pub one_mul64 : (a : ℤ) → magnitude a < half → mul64 (pos 1) a ≡ a
unfolding mul64
one_mul64 a h = rw (one_*ℤ a) (wrap_of_small a h)

pub minus_one_mul64 : (a : ℤ) → magnitude a < half → mul64 (negsuc 0) a ≡ neg a
unfolding mul64
minus_one_mul64 a h = rw (minus_one_*ℤ a) (wrap_of_small (neg a) (unfold neg in ground arith))
