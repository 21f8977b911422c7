-- ===== src/Money/Residues.antt =====
-- Go's int64 as the integers modulo 2^64.
use openpay.Base.{ℕ, ◌+◌, ◌-◌, ◌%◌, ◌≡◌, arith}
use openpay.Base.Int.{ℤ, pos, negsuc, pos_part, neg_part, ◌+ℤ◌, ◌-ℤ◌, int_laws}
use openpay.Base.Int64.{modulus, InRange, wrap}

abbrev pub residue : ℤ → ℕ
residue z = (pos_part z + (modulus - neg_part z % modulus)) % modulus

pub residue-wrap : (z : ℤ) → residue (wrap z) ≡ residue z
unfolding wrap
residue-wrap z = ground arith

pub residue-+ℤ : (a b : ℤ) → residue (a +ℤ b) ≡ (residue a + residue b) % modulus
residue-+ℤ a b = omega int_laws

pub residue--ℤ : (a b : ℤ) → (residue (a -ℤ b) + residue b) % modulus ≡ residue a
residue--ℤ a b = omega int_laws

pub eq_of_residue : (a b : ℤ) → InRange a → InRange b → residue a ≡ residue b → a ≡ b
eq_of_residue (pos m) (pos n) h k e = ground (arith, h, k, e)
eq_of_residue (pos m) (negsuc n) h k e = ground (arith, h, k, e)
eq_of_residue (negsuc m) (pos n) h k e = ground (arith, h, k, e)
eq_of_residue (negsuc m) (negsuc n) h k e = ground (arith, h, k, e)
