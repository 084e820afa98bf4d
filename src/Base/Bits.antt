-- ===== src/Base/Bits.antt =====
-- Shifts, `&` and `|` of machine words as arithmetic, at every width.
use Prim.Native.Nat.{
  ℕ, zero, suc, ◌+◌, ◌-◌, ◌*◌, ◌/◌, ◌%◌, ◌^◌, ◌≤◌, ◌<◌, min, max, bit_and, bit_or, digits,
  bit_and-bitwise, bit_or-bitwise,
}
use mathlib.Core.Path.{◌≡◌, refl, ap}
use native.Mathlib.Nat.{pow-suc, one-le-pow, div-div-eq-div-mul, le_refl}
use native.Mathlib.Omega.{arith}

infixl 75 ◌<<<◌ ◌>>>◌
abbrev pub ◌<<<◌ : ℕ → ℕ → ℕ
x <<< k = x * 2 ^ k

abbrev pub ◌>>>◌ : ℕ → ℕ → ℕ
x >>> k = x / 2 ^ k

abbrev pub u8 : ℕ → ℕ
u8 x = x % 2 ^ 8

abbrev pub u16 : ℕ → ℕ
u16 x = x % 2 ^ 16

abbrev pub u32 : ℕ → ℕ
u32 x = x % 2 ^ 32

abbrev pub u64 : ℕ → ℕ
u64 x = x % 2 ^ 64

-- `bit_and` and `bit_or` run `digits` on as many digits as the first number is large. What they
-- compute is shown for every count of digits that is enough, by induction on that count.
doubled : (q k : ℕ) → q * 2 ^ suc k ≡ 2 * (q * 2 ^ k)
doubled q k = let size = pow-suc 2 k in ground (arith, ap (λ (t : ℕ). q * t) size)

digits_mask : (n k a : ℕ) → a ≤ n → digits (λ y. 0) min n a (2 ^ k - 1) ≡ a % 2 ^ k
digits_mask zero k zero h = omega (arith, one-le-pow k 2)
digits_mask zero k (suc a) h = absurd (omega arith)
digits_mask (suc n) k zero h = omega (arith, one-le-pow k 2)
digits_mask (suc n) zero (suc a) h = omega (arith, digits_mask n zero (suc a / 2) (omega arith))
digits_mask (suc n) (suc k) (suc a) h =
    let half : (2 ^ suc k - 1) / 2 ≡ 2 ^ k - 1 = omega (arith, pow-suc 2 k, one-le-pow k 2) in
    let low_half : 2 ^ suc k ≡ 2 * 2 ^ k = omega (arith, pow-suc 2 k) in
    let rest : digits (λ y. 0) min n (suc a / 2) ((2 ^ suc k - 1) / 2) ≡ suc a / 2 % 2 ^ k =
      rw half (digits_mask n k (suc a / 2) (omega arith)) in
    ground (
      arith,
      half,
      low_half,
      rest,
      one-le-pow k 2,
      div-div-eq-div-mul (suc a) 2 (2 ^ k),
      doubled (suc a / 2 ^ suc k) k,
    )

zero_bit : (k : ℕ) → 0 / 2 ^ k % 2 * 2 ^ k ≡ 0
zero_bit k = ground (arith, one-le-pow k 2)

digits_bit : (n k a : ℕ) → a ≤ n → digits (λ y. 0) min n a (2 ^ k) ≡ a / 2 ^ k % 2 * 2 ^ k
digits_bit zero k zero h = omega (arith, zero_bit k)
digits_bit zero k (suc a) h = absurd (omega arith)
digits_bit (suc n) k zero h = omega (arith, zero_bit k)
digits_bit (suc n) zero (suc a) h = omega (arith, digits_mask n zero (suc a / 2) (omega arith))
digits_bit (suc n) (suc k) (suc a) h =
    let half : 2 ^ suc k / 2 ≡ 2 ^ k = omega (arith, pow-suc 2 k) in
    let low_half : 2 ^ suc k ≡ 2 * 2 ^ k = omega (arith, pow-suc 2 k) in
    let rest = digits_bit n k (suc a / 2) (omega arith) in
    ground (
      arith,
      half,
      low_half,
      rest,
      div-div-eq-div-mul (suc a) 2 (2 ^ k),
      doubled (suc a / 2 ^ suc k % 2) k,
    )

digits_join :
    (n k q r a : ℕ) → a ≤ n → a ≡ q * 2 ^ k → r < 2 ^ k → digits (λ y. y) max n a r ≡ a + r
digits_join zero k q r zero h e fits = omega arith
digits_join zero k q r (suc a) h e fits = absurd (omega arith)
digits_join (suc n) k q r zero h e fits = omega arith
digits_join (suc n) zero q r (suc a) h e fits = omega (
  arith,
  digits_join n zero (suc a / 2) (r / 2) (suc a / 2) (omega arith) (omega arith) (omega arith),
)
digits_join (suc n) (suc k) q r (suc a) h e fits =
    let twice = doubled q k in
    let size = pow-suc 2 k in
    let rest = digits_join n k q (r / 2) (suc a / 2) (omega arith) (omega arith) (omega arith) in
    ground (arith, twice, rest)

pub zero-bit_or : (b : ℕ) → bit_or 0 b ≡ b
zero-bit_or b = bit_or-bitwise 0 b

-- Fields that do not overlap are joined by `|` as by `+`.
pub bit_or_fields : (k q r : ℕ) → r < 2 ^ k → bit_or (q * 2 ^ k) r ≡ q * 2 ^ k + r
bit_or_fields k q r fits =
    simp bit_or-bitwise (digits_join (q * 2 ^ k) k q r (q * 2 ^ k) (le_refl _) refl fits)

-- A mask of the `k` low bits is the remainder by `2 ^ k`.
pub bit_and_mask : (k a : ℕ) → bit_and a (2 ^ k - 1) ≡ a % 2 ^ k
bit_and_mask k a = simp bit_and-bitwise (digits_mask a k a (le_refl _))

-- A single bit is read by a division and a remainder.
pub bit_and_two_pow : (k a : ℕ) → bit_and a (2 ^ k) ≡ a / 2 ^ k % 2 * 2 ^ k
bit_and_two_pow k a = simp bit_and-bitwise (digits_bit a k a (le_refl _))
