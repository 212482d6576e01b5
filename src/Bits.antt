-- ===== src/Bits.antt =====
-- Exclusive or at variables: one equation for the lowest digit, and cancellation.
pub mod Fields
use Prim.Native.Nat.{digits, bit_xor, bit_xor-bitwise, differ}
use native.Mathlib.Nat.{le_refl, pow-suc}
use air_ferry_i_os_source.Prelude.{
  ℕ, zero, suc, ◌+◌, ◌*◌, ◌/◌, ◌%◌, ◌^◌, ◌≤◌, ◌<◌, ◌≡◌, refl, ◌∙◌, le-or-lt, inl, inr, arith,
}

-- One unit of fuel more than enough.
digits_extra :
    (rest : ℕ → ℕ) (op : ℕ → ℕ → ℕ) (fuel low high : ℕ)
    → low ≤ fuel
    → digits rest op (suc fuel) low high ≡ digits rest op fuel low high
digits_extra rest op zero zero high h = refl
digits_extra rest op zero (suc low) high h = absurd (omega arith)
digits_extra rest op (suc fuel) zero high h = refl
digits_extra rest op (suc fuel) (suc low) high h =
    rw (digits_extra rest op fuel (suc low / 2) (high / 2) (omega arith))

-- The left operand is fuel enough.
pub digits_fuel :
    (rest : ℕ → ℕ) (op : ℕ → ℕ → ℕ) (fuel low high : ℕ)
    → low ≤ fuel
    → digits rest op fuel low high ≡ digits rest op low low high
digits_fuel rest op zero zero high h = refl
digits_fuel rest op zero (suc low) high h = absurd (omega arith)
digits_fuel rest op (suc fuel) low high h = elim (le-or-lt low fuel) [
  | inl le ↦ digits_extra rest op fuel low high le ∙ digits_fuel rest op fuel low high le
  | inr lt ↦ let same : low ≡ suc fuel = omega arith in rw same refl
]

pub bit_xor_step : (a b : ℕ) → bit_xor a b ≡ bit_xor (a / 2) (b / 2) * 2 + differ (a % 2) (b % 2)
bit_xor_step zero b = simp bit_xor-bitwise (omega arith)
bit_xor_step (suc a) b =
    simp bit_xor-bitwise
      (omega (arith, digits_fuel (λ y. y) differ a (suc a / 2) (b / 2) (omega arith)))

differ-lt : (x y : ℕ) → x < 2 → y < 2 → differ x y < 2
differ-lt zero y p q = q
differ-lt (suc zero) zero p q = omega arith
differ-lt (suc zero) (suc y) p q = omega arith
differ-lt (suc (suc x)) y p q = absurd (omega arith)

differ-cancel_left : (x y z : ℕ) → x < 2 → y < 2 → z < 2 → differ x y ≡ differ x z → y ≡ z
differ-cancel_left zero y z p q r e = e
differ-cancel_left (suc zero) zero zero p q r e = refl
differ-cancel_left (suc zero) zero (suc z) p q r e = absurd (omega arith)
differ-cancel_left (suc zero) (suc y) zero p q r e = absurd (omega arith)
differ-cancel_left (suc zero) (suc y) (suc z) p q r e = omega arith
differ-cancel_left (suc (suc x)) y z p q r e = absurd (omega arith)

differ_comm : (x y : ℕ) → differ x y ≡ differ y x
differ_comm zero zero = refl
differ_comm zero (suc y) = refl
differ_comm (suc x) zero = refl
differ_comm (suc x) (suc y) = differ_comm x y

-- Both recur with the sum of the arguments as fuel.
xor_comm_fuel : (n a b : ℕ) → a + b ≤ n → bit_xor a b ≡ bit_xor b a
xor_comm_fuel zero zero zero h = refl
xor_comm_fuel zero zero (suc b) h = absurd (omega arith)
xor_comm_fuel zero (suc a) b h = absurd (omega arith)
xor_comm_fuel (suc n) zero zero h = refl
xor_comm_fuel (suc n) zero (suc b) h = omega (
  arith,
  bit_xor_step 0 (suc b),
  bit_xor_step (suc b) 0,
  differ_comm (suc b % 2) 0,
  xor_comm_fuel n 0 (suc b / 2) (omega arith),
)
xor_comm_fuel (suc n) (suc a) b h = omega (
  arith,
  bit_xor_step (suc a) b,
  bit_xor_step b (suc a),
  differ_comm (suc a % 2) (b % 2),
  xor_comm_fuel n (suc a / 2) (b / 2) (omega arith),
)

pub bit_xor_comm : (a b : ℕ) → bit_xor a b ≡ bit_xor b a
bit_xor_comm a b = xor_comm_fuel (a + b) a b (le_refl _)

xor_halves :
    (a b c : ℕ)
    → bit_xor a b ≡ bit_xor a c
    → (bit_xor (a / 2) (b / 2) ≡ bit_xor (a / 2) (c / 2)) × (b % 2 ≡ c % 2)
xor_halves a b c e =
    let db = differ-lt (a % 2) (b % 2) (omega arith) (omega arith) in
    let dc = differ-lt (a % 2) (c % 2) (omega arith) (omega arith) in
    (
      omega (arith, bit_xor_step a b, bit_xor_step a c),
      differ-cancel_left (a % 2) (b % 2) (c % 2) (omega arith) (omega arith) (omega arith)
          (omega (arith, bit_xor_step a b, bit_xor_step a c)),
    )

xor_cancel_fuel : (n a b c : ℕ) → a + b + c ≤ n → bit_xor a b ≡ bit_xor a c → b ≡ c
xor_cancel_fuel zero a b c h e = omega arith
xor_cancel_fuel (suc n) zero zero zero h e = refl
xor_cancel_fuel (suc n) a b c h e =
    let (high, low) = xor_halves a b c e in
    omega (arith, xor_cancel_fuel n (a / 2) (b / 2) (c / 2) (omega arith) high)

pub bit_xor-cancel_left : (a b c : ℕ) → bit_xor a b ≡ bit_xor a c → b ≡ c
bit_xor-cancel_left a b c e = xor_cancel_fuel (a + b + c) a b c (le_refl _) e

pub bit_xor-cancel_right : (a b c : ℕ) → bit_xor a c ≡ bit_xor b c → a ≡ b
bit_xor-cancel_right a b c e = bit_xor-cancel_left c a b (bit_xor_comm c a ∙ e ∙ bit_xor_comm b c)

-- `^` of two k-bit numbers has k bits.
pub bit_xor-lt : (k a b : ℕ) → a < 2 ^ k → b < 2 ^ k → bit_xor a b < 2 ^ k
bit_xor-lt zero zero zero p q = omega arith
bit_xor-lt zero zero (suc b) p q = absurd (omega arith)
bit_xor-lt zero (suc a) b p q = absurd (omega arith)
bit_xor-lt (suc k) a b p q = omega (
  arith,
  pow-suc 2 k,
  bit_xor_step a b,
  differ-lt (a % 2) (b % 2) (omega arith) (omega arith),
  bit_xor-lt k (a / 2) (b / 2) (omega (arith, pow-suc 2 k)) (omega (arith, pow-suc 2 k)),
)
