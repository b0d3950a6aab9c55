-- ===== src/Prelude/Int.antt =====
-- Signed integers over the native numbers, and Go's 32-bit wrap-around.
use Prim.Native.Nat.{ℕ, suc, ◌+◌, ◌-◌, ◌%◌, ◌^◌, ◌≤◌, ◌<◌}
use mathlib.Core.Path.{◌≡◌, refl, sym, ◌∙◌}
use mathlib.Core.Bool.{Bool}
use native.Mathlib.Omega.{arith}
use k8s_pod_manager_graphql.Prelude.Tests.{ltb, leb, if◌then◌else◌}

-- `negsuc n` is -(n + 1).
pub data ℤ : Type 0 where
  pos : ℕ → ℤ
  negsuc : ℕ → ℤ

abbrev pub pos_part : ℤ → ℕ
pos_part (pos n) = n
pos_part (negsuc n) = 0

abbrev pub neg_part : ℤ → ℕ
neg_part (pos n) = 0
neg_part (negsuc n) = suc n

-- a - b, as an integer.
abbrev pub sub_ℕ : ℕ → ℕ → ℤ
sub_ℕ a b = if leb b a then pos (a - b) else negsuc (b - a - 1)

infixl 65 ◌+ℤ◌ ◌-ℤ◌
infix 50 ◌≤ℤ◌ ◌<ℤ◌
unfoldable pub ◌+ℤ◌ : ℤ → ℤ → ℤ
a +ℤ b = sub_ℕ (pos_part a + pos_part b) (neg_part a + neg_part b)

unfoldable pub ◌-ℤ◌ : ℤ → ℤ → ℤ
a -ℤ b = sub_ℕ (pos_part a + neg_part b) (neg_part a + pos_part b)

abbrev pub ◌≤ℤ◌ : ℤ → ℤ → Type 0
a ≤ℤ b = pos_part a + neg_part b ≤ pos_part b + neg_part a

abbrev pub ◌<ℤ◌ : ℤ → ℤ → Type 0
a <ℤ b = pos_part a + neg_part b < pos_part b + neg_part a

abbrev pub ltb_ℤ : ℤ → ℤ → Bool
ltb_ℤ a b = ltb (pos_part a + neg_part b) (pos_part b + neg_part a)

abbrev pub leb_ℤ : ℤ → ℤ → Bool
leb_ℤ a b = leb (pos_part a + neg_part b) (pos_part b + neg_part a)

abbrev pub eqb_ℤ : ℤ → ℤ → Bool
eqb_ℤ a b = if leb_ℤ a b then leb_ℤ b a else leb_ℤ a b

abbrev pub int32_mod : ℕ
int32_mod = 2 ^ 32

-- Go's conversion to int32: the value modulo 2^32, read as a signed number.
unfoldable pub wrap_int32 : ℤ → ℤ
wrap_int32 a =
    let u = (pos_part a + (int32_mod - neg_part a % int32_mod)) % int32_mod in
    if ltb u (2 ^ 31) then pos u else negsuc (int32_mod - u - 1)

abbrev pub InInt32 : ℤ → Type 0
InInt32 a = (pos_part a < 2 ^ 31) × (neg_part a ≤ 2 ^ 31)

pub wrap_int32-InInt32 : (a : ℤ) → InInt32 (wrap_int32 a)
unfolding wrap_int32
wrap_int32-InInt32 a = ground arith

pub wrap_int32_id : (a : ℤ) → InInt32 a → wrap_int32 a ≡ a
unfolding wrap_int32
wrap_int32_id (pos n) h = ground arith
wrap_int32_id (negsuc n) h = ground arith

-- The number modulo 2^32, which alone decides what the conversion to int32 gives
residue : ℤ → ℕ
residue a = (pos_part a + (int32_mod - neg_part a % int32_mod)) % int32_mod

wrap_of-residue : (a b : ℤ) → residue a ≡ residue b → wrap_int32 a ≡ wrap_int32 b
unfolding residue wrap_int32
wrap_of-residue a b h = rw h refl

residue-wrap_int32 : (a : ℤ) → residue (wrap_int32 a) ≡ residue a
unfolding residue wrap_int32
residue-wrap_int32 a = ground arith

residue-+ℤ : (a b : ℤ) → residue (a +ℤ b) ≡ (residue a + residue b) % int32_mod
unfolding residue ◌+ℤ◌
residue-+ℤ a b = ground arith

-- A sum in int32 may be wrapped at the end instead of after each step.
pub wrap_int32-+ℤ : (a b : ℤ) → wrap_int32 (wrap_int32 a +ℤ b) ≡ wrap_int32 (a +ℤ b)
wrap_int32-+ℤ a b =
    wrap_of-residue _ _
      (residue-+ℤ (wrap_int32 a) b ∙ rw (residue-wrap_int32 a) (sym (residue-+ℤ a b)))

pub +ℤ_assoc : (a b c : ℤ) → (a +ℤ b) +ℤ c ≡ a +ℤ (b +ℤ c)
unfolding ◌+ℤ◌
+ℤ_assoc a b c = ground arith

pub +ℤ-zero : (a : ℤ) → a +ℤ pos 0 ≡ a
unfolding ◌+ℤ◌
+ℤ-zero a = ground arith

pub zero-+ℤ : (a : ℤ) → pos 0 +ℤ a ≡ a
unfolding ◌+ℤ◌
zero-+ℤ a = ground arith
