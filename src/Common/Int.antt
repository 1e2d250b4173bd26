-- ===== src/Common/Int.antt =====
-- Signed integers over the native numbers: Go's `int`, `int64` and `time.Duration`.
use Prim.Native.Nat.{ℕ, suc, ◌+◌, ◌-◌, ◌*◌, ◌%◌, ◌^◌, ◌≤◌, ◌<◌}
use mathlib.Core.Path.{◌≡◌, ap, sym, ◌∙◌}
use mathlib.Core.Bool.{Bool}
use mathlib.Core.List.{◌∷◌}
use native.Mathlib.Omega.{arith}
use workspaces.Common.Tests.{ltb, leb, ◌==◌, if◌then◌else◌}
use workspaces.Common.Strings.{Text, decimal}

-- `negsuc n` is -(n + 1).
pub data ℤ : Type 0 where
  pos : ℕ → ℤ
  negsuc : ℕ → ℤ

abbrev pub pos_part : ℤ → ℕ
pos_part (pos n) = n
pos_part (negsuc n) = 0

abbrev pub neg_part : ℤ → ℕ
neg_part (pos n) = 0
neg_part (negsuc n) = suc n

-- a - b, as an integer.
abbrev pub sub_ℕ : ℕ → ℕ → ℤ
sub_ℕ a b = if leb b a then pos (a - b) else negsuc (b - a - 1)

infixl 65 ◌+ℤ◌ ◌-ℤ◌
infix 50 ◌≤ℤ◌
unfoldable pub ◌+ℤ◌ : ℤ → ℤ → ℤ
a +ℤ b = sub_ℕ (pos_part a + pos_part b) (neg_part a + neg_part b)

unfoldable pub ◌-ℤ◌ : ℤ → ℤ → ℤ
a -ℤ b = sub_ℕ (pos_part a + neg_part b) (neg_part a + pos_part b)

abbrev pub ◌≤ℤ◌ : ℤ → ℤ → Type 0
a ≤ℤ b = pos_part a + neg_part b ≤ pos_part b + neg_part a

abbrev pub ltb_ℤ : ℤ → ℤ → Bool
ltb_ℤ a b = ltb (pos_part a + neg_part b) (pos_part b + neg_part a)

pub +ℤ_parts :
    (a b : ℤ)
    → pos_part (a +ℤ b) + neg_part a + neg_part b ≡ neg_part (a +ℤ b) + pos_part a + pos_part b
unfolding ◌+ℤ◌
+ℤ_parts a b = ground arith

pub -ℤ_parts :
    (a b : ℤ)
    → pos_part (a -ℤ b) + neg_part a + pos_part b ≡ neg_part (a -ℤ b) + pos_part a + neg_part b
unfolding ◌-ℤ◌
-ℤ_parts a b = ground arith

pub eq_of_parts : (a b : ℤ) → pos_part a + neg_part b ≡ pos_part b + neg_part a → a ≡ b
eq_of_parts a b h = ground arith

pub ruleset int_laws = (arith, +ℤ_parts, -ℤ_parts, eq_of_parts)

-- `%d`.
unfoldable pub decimal_ℤ : ℤ → Text
decimal_ℤ (pos n) = decimal n
decimal_ℤ (negsuc n) = b'-' ∷ decimal (suc n)

-- The value of an `int64` whose bits, read without sign, are those of the number.
abbrev pub from_bits : ℕ → ℤ
from_bits v = if ltb v (2 ^ 63) then pos v else negsuc (2 ^ 64 - v - 1)

-- The low 64 bits of an integer.
low_bits : ℤ → ℕ
low_bits (pos n) = n % 2 ^ 64
low_bits (negsuc n) = (2 ^ 64 - suc n % 2 ^ 64) % 2 ^ 64

-- Conversion to `int64`, which keeps the low 64 bits.
unfoldable pub int64 : ℤ → ℤ
unfolding low_bits
int64 a = from_bits (low_bits a)

-- A product with a constant, before it is cut to its width.
abbrev pub scale : ℕ → ℤ → ℤ
scale k (pos n) = pos (k * n)
scale k (negsuc n) = if k == 0 then pos 0 else negsuc (k * suc n - 1)

abbrev pub neg_ℤ : ℤ → ℤ
neg_ℤ a = sub_ℕ (neg_part a) (pos_part a)

-- `a + b` on `int` and `int64`.
unfoldable pub add64 : ℤ → ℤ → ℤ
unfolding int64 ◌+ℤ◌
add64 a b = int64 (a +ℤ b)

pub add64_comm : (a b : ℤ) → add64 a b ≡ add64 b a
unfolding add64
add64_comm a b = ground arith

low_bits-from_bits : (v : ℕ) → v < 2 ^ 64 → low_bits (from_bits v) ≡ v
unfolding low_bits
low_bits-from_bits v h = ground arith

low_bits-lt : (a : ℤ) → low_bits a < 2 ^ 64
unfolding low_bits
low_bits-lt (pos n) = omega arith
low_bits-lt (negsuc n) = omega arith

low_bits-+ℤ : (a b : ℤ) → low_bits (a +ℤ b) ≡ (low_bits a + low_bits b) % 2 ^ 64
unfolding low_bits ◌+ℤ◌
low_bits-+ℤ (pos m) (pos n) = ground arith
low_bits-+ℤ (pos m) (negsuc n) = ground arith
low_bits-+ℤ (negsuc m) (pos n) = ground arith
low_bits-+ℤ (negsuc m) (negsuc n) = ground arith

low_bits-add64 : (a b : ℤ) → low_bits (add64 a b) ≡ (low_bits a + low_bits b) % 2 ^ 64
low_bits-add64 a b =
    unfold add64 in low_bits-from_bits (low_bits (a +ℤ b)) (low_bits-lt (a +ℤ b)) ∙ low_bits-+ℤ a b

add64-bits : (a b : ℤ) → add64 a b ≡ from_bits ((low_bits a + low_bits b) % 2 ^ 64)
add64-bits a b = unfold add64 in ap from_bits (low_bits-+ℤ a b)

pub add64_assoc : (a b c : ℤ) → add64 (add64 a b) c ≡ add64 a (add64 b c)
add64_assoc a b c =
    add64-bits (add64 a b) c
    ∙ ap from_bits (omega (arith, low_bits-add64 a b, low_bits-add64 b c))
    ∙ sym (add64-bits a (add64 b c))
