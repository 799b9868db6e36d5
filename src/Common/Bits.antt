-- ===== src/Common/Bits.antt =====
-- When the bits of two numbers differ in no place, and when neither has one.
use Prim.Native.Nat.{
  ℕ, zero, suc, ◌/◌, ◌%◌, ◌≤◌, max, differ, digits, bit_or, bit_xor, bit_or-bitwise,
  bit_xor-bitwise,
}
use mathlib.Core.Path.{◌≡◌, refl, sym, ◌∙◌}
use native.Mathlib.Omega.{arith}

differ-eq : (x y : ℕ) → differ x y ≡ 0 → x ≡ y
differ-eq zero y h = sym h
differ-eq (suc x) zero h = h
differ-eq (suc x) (suc y) h = omega (arith, differ-eq x y h)

differ_self : (x : ℕ) → differ x x ≡ 0
differ_self zero = refl
differ_self (suc x) = differ_self x

digits-eq : (n a b : ℕ) → a ≤ n → digits (λ b. b) differ n a b ≡ 0 → a ≡ b
digits-eq zero zero b h e = sym e
digits-eq zero (suc a) b h e = absurd (omega arith)
digits-eq (suc n) zero b h e = sym e
digits-eq (suc n) (suc a) b h e =
    let high = digits-eq n (suc a / 2) (b / 2) (omega arith) (omega arith) in
    let low = differ-eq (suc a % 2) (b % 2) (omega arith) in omega arith

digits_self : (n a : ℕ) → a ≤ n → digits (λ b. b) differ n a a ≡ 0
digits_self zero zero h = refl
digits_self zero (suc a) h = absurd (omega arith)
digits_self (suc n) zero h = refl
digits_self (suc n) (suc a) h =
    omega (arith, digits_self n (suc a / 2) (omega arith), differ_self (suc a % 2))

digits-zero : (n a b : ℕ) → a ≤ n → digits (λ b. b) max n a b ≡ 0 → (a ≡ 0) × (b ≡ 0)
digits-zero zero zero b h e = (refl, e)
digits-zero zero (suc a) b h e = absurd (omega arith)
digits-zero (suc n) zero b h e = (refl, e)
digits-zero (suc n) (suc a) b h e =
    let high = digits-zero n (suc a / 2) (b / 2) (omega arith) (omega arith) in
    (omega (arith, high.0), omega (arith, high.0, high.1))

pub bit_xor-eq : (a b : ℕ) → bit_xor a b ≡ 0 → a ≡ b
bit_xor-eq a b e = digits-eq a a b (omega arith) (sym (bit_xor-bitwise a b) ∙ e)

pub bit_xor_self : (a : ℕ) → bit_xor a a ≡ 0
bit_xor_self a = bit_xor-bitwise a a ∙ digits_self a a (omega arith)

pub bit_or-zero : (a b : ℕ) → bit_or a b ≡ 0 → (a ≡ 0) × (b ≡ 0)
bit_or-zero a b e = digits-zero a a b (omega arith) (sym (bit_or-bitwise a b) ∙ e)
