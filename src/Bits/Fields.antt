-- ===== src/Bits/Fields.antt =====
-- Or and and at variables: fields side by side, and masks.
use Prim.Native.Nat.{bit_or, bit_or-bitwise, bit_and, bit_and-bitwise}
use native.Mathlib.Nat.{
  le_refl, pow-suc, pow-succ', div-add-mod', mod-lt, mod-eq_of_lt, add-mul-mod_self_right,
  mul_left_comm,
}
use air_ferry_i_os_source.Prelude.{
  ℕ, zero, suc, ◌+◌, ◌-◌, ◌*◌, ◌/◌, ◌%◌, ◌^◌, ◌≤◌, ◌<◌, min, max, ◌≡◌, refl, sym, ap, ◌∙◌, arith,
}
use air_ferry_i_os_source.Bits.{digits_fuel}

bit_or_zero : (b : ℕ) → bit_or 0 b ≡ b
bit_or_zero b = simp bit_or-bitwise refl

bit_or_halves : (x y : ℕ) → bit_or x y ≡ max (x % 2) (y % 2) + bit_or (x / 2) (y / 2) * 2
bit_or_halves zero y = simp bit_or-bitwise (omega arith)
bit_or_halves (suc x) y =
    simp bit_or-bitwise
      (omega (arith, digits_fuel (λ t. t) max x (suc x / 2) (y / 2) (omega arith)))

-- `|` of a k-bit number and one that is shifted behind it adds them.
pub bit_or_shift : (k a b : ℕ) → a < 2 ^ k → bit_or a (b * 2 ^ k) ≡ a + b * 2 ^ k
bit_or_shift zero zero b h = bit_or_zero (b * 2 ^ 0) ∙ omega arith
bit_or_shift zero (suc a) b h = absurd (omega arith)
bit_or_shift (suc k) a b h =
    let e : b * 2 ^ suc k ≡ 2 * (b * 2 ^ k) = simp (pow-suc 2 k) (omega arith) in
    let half : b * 2 ^ suc k / 2 ≡ b * 2 ^ k = omega (arith, e) in
    let low : b * 2 ^ suc k % 2 ≡ 0 = omega (arith, e) in
    let step = bit_or_halves a (b * 2 ^ suc k) in
    let rest = bit_or_shift k (a / 2) b (omega (arith, pow-suc 2 k)) in
    omega (
      arith,
      step ∙ ap (λ h. max (a % 2) (b * 2 ^ suc k % 2) + bit_or (a / 2) h * 2) half,
      rest,
      low,
      e,
    )

bit_and_halves : (x y : ℕ) → bit_and x y ≡ min (x % 2) (y % 2) + bit_and (x / 2) (y / 2) * 2
bit_and_halves zero y = simp bit_and-bitwise (omega arith)
bit_and_halves (suc x) y =
    simp bit_and-bitwise
      (omega (arith, digits_fuel (λ t. 0) min x (suc x / 2) (y / 2) (omega arith)))

no_bits : (n a : ℕ) → a ≤ n → bit_and a 0 ≡ 0
no_bits zero a h = simp bit_and-bitwise (let z : a ≡ 0 = omega arith in rw z refl)
no_bits (suc n) zero h = simp bit_and-bitwise refl
no_bits (suc n) (suc a) h =
    omega (arith, bit_and_halves (suc a) 0, no_bits n (suc a / 2) (omega arith))

-- The digits of a remainder by an even number.
mod_double : (x m : ℕ) → 0 < m → x % (2 * m) ≡ x / 2 % m * 2 + x % 2
mod_double x m pos =
    let q = x / 2 in
    let d = q / m in
    let t = q % m * 2 + x % 2 in
    let split : x ≡ t + d * (2 * m) = omega (arith, div-add-mod' q m, mul_left_comm d 2 m) in
    ap (λ y. y % (2 * m)) split
    ∙ add-mul-mod_self_right t d (2 * m)
    ∙ mod-eq_of_lt (omega (arith, mod-lt q pos))

pub two_pow_pos : (k : ℕ) → 0 < 2 ^ k
two_pow_pos zero = omega arith
two_pow_pos (suc k) = omega (arith, pow-suc 2 k, two_pow_pos k)

-- `x & ((1 << k) - 1)` is the remainder.
pub bit_and_mask : (k x : ℕ) → bit_and x (2 ^ k - 1) ≡ x % 2 ^ k
bit_and_mask zero x = no_bits x x (le_refl _) ∙ omega arith
bit_and_mask (suc k) x =
    let half : (2 ^ suc k - 1) / 2 ≡ 2 ^ k - 1 = omega (arith, pow-suc 2 k) in
    let low : (2 ^ suc k - 1) % 2 ≡ 1 = omega (arith, pow-suc 2 k, two_pow_pos k) in
    bit_and_halves x (2 ^ suc k - 1)
    ∙ ap (λ h. min (x % 2) ((2 ^ suc k - 1) % 2) + bit_and (x / 2) h * 2) half
    ∙ omega (arith, low, bit_and_mask k (x / 2))
    ∙ sym (mod_double x (2 ^ k) (two_pow_pos k))
    ∙ ap (λ m. x % m) (sym (pow-succ' 2 k))
