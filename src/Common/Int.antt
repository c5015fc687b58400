-- ===== src/Common/Int.antt =====
-- Go's `int` and `int64` as integers; a model that reaches the ends of the range says so.
use Prim.Native.Nat.{ℕ, suc, ◌+◌, ◌-◌, ◌*◌, ◌%◌, ◌^◌, ◌≤◌}
use mathlib.Core.Path.{◌≡◌, refl}
use mathlib.Core.Bool.{Bool, true}
use native.Mathlib.Omega.{arith}
use doq.Common.Tests.{ltb, leb, ◌==◌, if◌then◌else◌}

-- `negsuc n` is -(n + 1).
pub data ℤ : Type 0 where
  pos : ℕ → ℤ
  negsuc : ℕ → ℤ

abbrev pub pos_part : ℤ → ℕ
pos_part (pos n) = n
pos_part (negsuc n) = 0

abbrev pub neg_part : ℤ → ℕ
neg_part (pos n) = 0
neg_part (negsuc n) = suc n

abbrev pub sub_ℕ : ℕ → ℕ → ℤ
sub_ℕ a b = if leb b a then pos (a - b) else negsuc (b - a - 1)

infixl 65 ◌+ℤ◌ ◌-ℤ◌
unfoldable pub ◌+ℤ◌ : ℤ → ℤ → ℤ
a +ℤ b = sub_ℕ (pos_part a + pos_part b) (neg_part a + neg_part b)

unfoldable pub ◌-ℤ◌ : ℤ → ℤ → ℤ
a -ℤ b = sub_ℕ (pos_part a + neg_part b) (neg_part a + pos_part b)

abbrev pub ltb_ℤ : ℤ → ℤ → Bool
ltb_ℤ a b = ltb (pos_part a + neg_part b) (pos_part b + neg_part a)

abbrev pub leb_ℤ : ℤ → ℤ → Bool
leb_ℤ a b = leb (pos_part a + neg_part b) (pos_part b + neg_part a)

abbrev pub eqb_ℤ : ℤ → ℤ → Bool
eqb_ℤ a b = pos_part a + neg_part b == pos_part b + neg_part a

-- The int64 that is left of an integer.
unfoldable pub wrap_int64 : ℤ → ℤ
wrap_int64 (pos n) = let r = n % 2 ^ 64 in if ltb r (2 ^ 63) then pos r else negsuc (2 ^ 64 - 1 - r)
wrap_int64 (negsuc n) =
    let r = n % 2 ^ 64 in if ltb r (2 ^ 63) then negsuc r else pos (2 ^ 64 - 1 - r)

abbrev pub times_billion : ℤ → ℤ
times_billion (pos n) = pos (n * 1000000000)
times_billion (negsuc n) = negsuc (suc n * 1000000000 - 1)

-- time.Duration(n) * time.Second, in nanoseconds.
unfoldable pub of_seconds : ℤ → ℤ
unfolding wrap_int64
of_seconds n = wrap_int64 (times_billion (wrap_int64 n))

-- Up to about 292 years, the product does not wrap around.
pub of_seconds-small : (k : ℕ) → k ≤ 9223372036 → of_seconds (pos k) ≡ pos (k * 1000000000)
unfolding of_seconds wrap_int64
of_seconds-small k h =
    let small : k % 2 ^ 64 ≡ k = omega arith in
    let product : k * 1000000000 % 2 ^ 64 ≡ k * 1000000000 = omega arith in
    let t : ltb k (2 ^ 63) ≡ true = ground arith in
    let t' : ltb (k * 1000000000) (2 ^ 63) ≡ true = ground arith in
    rw (small, t) (rw (product, t') refl)

pub eq_of_eqb_ℤ : (a b : ℤ) → eqb_ℤ a b ≡ true → a ≡ b
eq_of_eqb_ℤ (pos m) (pos n) h = ground arith
eq_of_eqb_ℤ (pos m) (negsuc n) h = ground arith
eq_of_eqb_ℤ (negsuc m) (pos n) h = ground arith
eq_of_eqb_ℤ (negsuc m) (negsuc n) h = ground arith

pub eqb_ℤ_refl : (a : ℤ) → eqb_ℤ a a ≡ true
eqb_ℤ_refl a = ground arith
