-- ===== src/Base/Bits.antt =====
-- The exclusive or of native numbers, digit by digit.
use Prim.Native.Nat.{
  ℕ, zero, suc, ◌+◌, ◌*◌, ◌/◌, ◌%◌, ◌^◌, ◌≤◌, ◌<◌, min, bit_and, bit_and-bitwise, bit_xor, digits,
  differ, bit_xor-bitwise,
}
use mathlib.Core.Path.{◌≡◌, refl, ap, sym, ◌∙◌}
use native.Mathlib.Omega.{arith}
use native.Mathlib.Nat.{pow-suc, div-div-eq-div-mul, div-one, mod-one, div-add-mod}

abbrev xor_digits : ℕ → ℕ → ℕ → ℕ
xor_digits fuel x y = digits (λ d. d) differ fuel x y

-- The fuel does not matter once it reaches the first number.
xor_digits_fuel : (k l x y : ℕ) → x ≤ k → x ≤ l → xor_digits k x y ≡ xor_digits l x y
xor_digits_fuel zero zero x y le le' = refl
xor_digits_fuel zero (suc l) zero y le le' = refl
xor_digits_fuel zero (suc l) (suc x) y le le' = absurd (omega arith)
xor_digits_fuel (suc k) zero zero y le le' = refl
xor_digits_fuel (suc k) zero (suc x) y le le' = absurd (omega arith)
xor_digits_fuel (suc k) (suc l) zero y le le' = refl
xor_digits_fuel (suc k) (suc l) (suc x) y le le' =
    omega (arith, xor_digits_fuel k l (suc x / 2) (y / 2) (omega arith) (omega arith))

differ_small : (x y : ℕ) → x ≤ 1 → y ≤ 1 → differ x y ≡ (x + y) % 2
differ_small zero y p q = omega arith
differ_small (suc zero) zero p q = refl
differ_small (suc zero) (suc zero) p q = refl
differ_small (suc zero) (suc (suc y)) p q = absurd (omega arith)
differ_small (suc (suc x)) y p q = absurd (omega arith)

pub zero-bit_xor : (b : ℕ) → bit_xor 0 b ≡ b
zero-bit_xor b = bit_xor-bitwise 0 b

pub bit_xor_step : (a b : ℕ) → bit_xor a b ≡ bit_xor (a / 2) (b / 2) * 2 + (a + b) % 2
bit_xor_step zero b = omega (arith, zero-bit_xor b, zero-bit_xor (b / 2))
bit_xor_step (suc a) b = omega (
  arith,
  bit_xor-bitwise (suc a) b,
  bit_xor-bitwise (suc a / 2) (b / 2),
  xor_digits_fuel a (suc a / 2) (suc a / 2) (b / 2) (omega arith) (omega arith),
  differ_small (suc a % 2) (b % 2) (omega arith) (omega arith),
)

half-bit_xor : (a b : ℕ) → bit_xor a b / 2 ≡ bit_xor (a / 2) (b / 2)
half-bit_xor a b = omega (arith, bit_xor_step a b)

bit_xor_comm_fuel : (n a b : ℕ) → a + b ≤ n → bit_xor a b ≡ bit_xor b a
bit_xor_comm_fuel zero zero zero h = refl
bit_xor_comm_fuel zero zero (suc b) h = absurd (omega arith)
bit_xor_comm_fuel zero (suc a) b h = absurd (omega arith)
bit_xor_comm_fuel (suc n) zero zero h = refl
bit_xor_comm_fuel (suc n) a b h =
    omega
      (arith, bit_xor_step a b, bit_xor_step b a, bit_xor_comm_fuel n (a / 2) (b / 2) (omega arith))

pub bit_xor_comm : (a b : ℕ) → bit_xor a b ≡ bit_xor b a
bit_xor_comm a b = bit_xor_comm_fuel (a + b) a b (omega arith)

pub bit_xor-zero : (a : ℕ) → bit_xor a 0 ≡ a
bit_xor-zero a = bit_xor_comm a 0 ∙ zero-bit_xor a

bit_xor_assoc_fuel :
    (n a b c : ℕ) → a + b + c ≤ n → bit_xor (bit_xor a b) c ≡ bit_xor a (bit_xor b c)
bit_xor_assoc_fuel zero zero zero zero h = refl
bit_xor_assoc_fuel zero zero zero (suc c) h = absurd (omega arith)
bit_xor_assoc_fuel zero zero (suc b) c h = absurd (omega arith)
bit_xor_assoc_fuel zero (suc a) b c h = absurd (omega arith)
bit_xor_assoc_fuel (suc n) zero zero zero h = refl
bit_xor_assoc_fuel (suc n) a b c h = omega (
  arith,
  bit_xor_step a b,
  bit_xor_step b c,
  bit_xor_step (bit_xor a b) c,
  bit_xor_step a (bit_xor b c),
  ap (λ t. bit_xor t (c / 2)) (half-bit_xor a b),
  ap (λ t. bit_xor (a / 2) t) (half-bit_xor b c),
  bit_xor_assoc_fuel n (a / 2) (b / 2) (c / 2) (omega arith),
)

pub bit_xor_assoc : (a b c : ℕ) → bit_xor (bit_xor a b) c ≡ bit_xor a (bit_xor b c)
bit_xor_assoc a b c = bit_xor_assoc_fuel (a + b + c) a b c (omega arith)

div-two-pow-suc : (x k : ℕ) → x / 2 ^ suc k ≡ x / 2 / 2 ^ k
div-two-pow-suc x k =
    ap (λ t. x / t) (omega (arith, pow-suc 2 k)) ∙ sym (div-div-eq-div-mul x 2 (2 ^ k))

mod-two-pow-suc : (x k : ℕ) → x % 2 ^ suc k ≡ x / 2 % 2 ^ k * 2 + x % 2
mod-two-pow-suc x k = omega (
  arith,
  div-add-mod x (2 ^ suc k),
  ap (λ t. 2 ^ suc k * t) (div-two-pow-suc x k),
  ap (λ t. t * (x / 2 / 2 ^ k)) (pow-suc 2 k),
  div-add-mod (x / 2) (2 ^ k),
)

-- Division by a power of two goes through.
pub div-bit_xor : (k a b : ℕ) → bit_xor a b / 2 ^ k ≡ bit_xor (a / 2 ^ k) (b / 2 ^ k)
div-bit_xor zero a b = simp div-one
div-bit_xor (suc k) a b =
    rw (div-two-pow-suc (bit_xor a b) k, div-two-pow-suc a k, div-two-pow-suc b k, half-bit_xor a b)
      (div-bit_xor k (a / 2) (b / 2))

-- So does the remainder.
pub mod-bit_xor : (k a b : ℕ) → bit_xor a b % 2 ^ k ≡ bit_xor (a % 2 ^ k) (b % 2 ^ k)
mod-bit_xor zero a b = simp mod-one
mod-bit_xor (suc k) a b =
    let low = λ (x : ℕ). mod-two-pow-suc x k in
    let half : (x : ℕ) → x % 2 ^ suc k / 2 ≡ x / 2 % 2 ^ k = λ x. omega (arith, low x) in
    omega (
      arith,
      low (bit_xor a b),
      low a,
      low b,
      ap (λ t. t % 2 ^ k) (half-bit_xor a b),
      mod-bit_xor k (a / 2) (b / 2),
      bit_xor_step a b,
      bit_xor_step (a % 2 ^ suc k) (b % 2 ^ suc k),
      ap (λ t. bit_xor t (b % 2 ^ suc k / 2)) (half a),
      ap (λ t. bit_xor (a / 2 % 2 ^ k) t) (half b),
    )

pub bit_xor-lt : (k a b : ℕ) → a < 2 ^ k → b < 2 ^ k → bit_xor a b < 2 ^ k
bit_xor-lt zero zero zero p q = omega arith
bit_xor-lt zero (suc a) b p q = absurd (omega arith)
bit_xor-lt zero zero (suc b) p q = absurd (omega arith)
bit_xor-lt (suc k) a b p q =
    let half = pow-suc 2 k in
    omega (arith, half, bit_xor_step a b, bit_xor-lt k (a / 2) (b / 2) (omega arith) (omega arith))

and_digits-le : (fuel x y : ℕ) → digits (λ d. 0) min fuel x y ≤ y
and_digits-le zero x y = omega arith
and_digits-le (suc k) zero y = omega arith
and_digits-le (suc k) (suc x) y = omega (arith, and_digits-le k (suc x / 2) (y / 2))

-- A mask bounds what it leaves.
pub bit_and-le : (x y : ℕ) → bit_and x y ≤ y
bit_and-le x y = omega (arith, bit_and-bitwise x y, and_digits-le x x y)
