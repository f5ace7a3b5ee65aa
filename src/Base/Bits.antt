-- ===== src/Base/Bits.antt =====
-- Laws of the bit operations: masks of low bits, and sums of fields that do not overlap.
use Prim.Native.Nat.{
  ℕ, zero, suc, ◌+◌, ◌-◌, ◌*◌, ◌/◌, ◌%◌, ◌^◌, ◌≤◌, ◌<◌, min, max, bit_and, bit_or,
}
use Prim.Native.Nat.{digits, bit_and-bitwise, bit_or-bitwise}
use mathlib.Core.Path.{◌≡◌, refl, ap, ap₂, sym, ◌∙◌}
use native.Mathlib.Omega.{arith}

-- The count of digits to go does not matter once it covers the first number.
module _ (z : ℕ → ℕ) (f : ℕ → ℕ → ℕ) where
  digits-enough : (n m a b : ℕ) → a ≤ n → a ≤ m → digits z f n a b ≡ digits z f m a b
  digits-enough zero zero zero b p q = refl
  digits-enough zero (suc m) zero b p q = refl
  digits-enough (suc n) zero zero b p q = refl
  digits-enough (suc n) (suc m) zero b p q = refl
  digits-enough zero m (suc a) b p q = absurd (omega arith)
  digits-enough (suc n) zero (suc a) b p q = absurd (omega arith)
  digits-enough (suc n) (suc m) (suc a) b p q =
      ap (λ d. d * 2 + f (suc a % 2) (b % 2))
        (digits-enough n m (suc a / 2) (b / 2) (omega arith) (omega arith))

-- Both operations from the lowest digit on.
bit_and-halves : (a b : ℕ) → bit_and a b ≡ bit_and (a / 2) (b / 2) * 2 + min (a % 2) (b % 2)
bit_and-halves zero b = omega (arith, bit_and-bitwise 0 b, bit_and-bitwise 0 (b / 2))
bit_and-halves (suc a) b = omega (
  arith,
  bit_and-bitwise (suc a) b,
  bit_and-bitwise (suc a / 2) (b / 2),
  digits-enough (λ _. 0) min a (suc a / 2) (suc a / 2) (b / 2) (omega arith) (omega arith),
)

bit_or-halves : (a b : ℕ) → bit_or a b ≡ bit_or (a / 2) (b / 2) * 2 + max (a % 2) (b % 2)
bit_or-halves zero b = omega (arith, bit_or-bitwise 0 b, bit_or-bitwise 0 (b / 2))
bit_or-halves (suc a) b = omega (
  arith,
  bit_or-bitwise (suc a) b,
  bit_or-bitwise (suc a / 2) (b / 2),
  digits-enough (λ y. y) max a (suc a / 2) (suc a / 2) (b / 2) (omega arith) (omega arith),
)

bit_and-none : (n a : ℕ) → a ≤ n → bit_and a 0 ≡ 0
bit_and-none n zero h = bit_and-bitwise 0 0
bit_and-none zero (suc a) h = absurd (omega arith)
bit_and-none (suc n) (suc a) h =
    omega (arith, bit_and-halves (suc a) 0, bit_and-none n (suc a / 2) (omega arith))

bit_or-none : (n a : ℕ) → a ≤ n → bit_or a 0 ≡ a
bit_or-none n zero h = bit_or-bitwise 0 0
bit_or-none zero (suc a) h = absurd (omega arith)
bit_or-none (suc n) (suc a) h =
    omega (arith, bit_or-halves (suc a) 0, bit_or-none n (suc a / 2) (omega arith))

bit_and-zero : (a : ℕ) → bit_and a 0 ≡ 0
bit_and-zero a = bit_and-none a a (omega arith)

bit_or-zero : (a : ℕ) → bit_or a 0 ≡ a
bit_or-zero a = bit_or-none a a (omega arith)

zero-bit_or : (b : ℕ) → bit_or 0 b ≡ b
zero-bit_or b = bit_or-bitwise 0 b

pow-double : (k : ℕ) → 2 ^ suc k ≡ 2 * 2 ^ k
pow-double k = omega arith

pub pow-pos : (k : ℕ) → 0 < 2 ^ k
pow-pos zero = omega arith
pow-pos (suc k) = omega (arith, pow-double k, pow-pos k)

mod-double : (a p : ℕ) → 0 < p → a % (2 * p) ≡ a / 2 % p * 2 + a % 2
mod-double a p h = grind arith

div-double : (a p : ℕ) → 0 < p → a / (2 * p) ≡ a / 2 / p
div-double a p h = grind arith

-- A number above bit `k`, and one below it, side by side.
pub bit_or-fields : (k a b : ℕ) → b < 2 ^ k → bit_or (a * 2 ^ k) b ≡ a * 2 ^ k + b
bit_or-fields zero a b h = ground (arith, bit_or-zero (a * 1))
bit_or-fields (suc k) a b h =
    let e : a * 2 ^ suc k ≡ 2 * (a * 2 ^ k) = omega (arith, ap (λ (t : ℕ). a * t) (pow-double k)) in
    let low : b / 2 < 2 ^ k = omega (arith, pow-double k) in
    let half : a * 2 ^ suc k / 2 ≡ a * 2 ^ k = omega (arith, e) in
    let even : a * 2 ^ suc k % 2 ≡ 0 = omega (arith, e) in
    bit_or-halves (a * 2 ^ suc k) b
    ∙ ap₂ (λ x y. bit_or x (b / 2) * 2 + max y (b % 2)) half even
    ∙ omega (arith, bit_or-fields k a (b / 2) low, e)

-- The `k` lowest bits.
pub bit_and-mod : (k a : ℕ) → bit_and a (2 ^ k - 1) ≡ a % 2 ^ k
bit_and-mod zero a = omega (arith, bit_and-zero a)
bit_and-mod (suc k) a =
    let e : 2 ^ suc k ≡ 2 * 2 ^ k = pow-double k in
    let pos : 0 < 2 ^ k = pow-pos k in
    let half : (2 ^ suc k - 1) / 2 ≡ 2 ^ k - 1 = omega (arith, e, pos) in
    let odd : (2 ^ suc k - 1) % 2 ≡ 1 = omega (arith, e, pos) in
    bit_and-halves a (2 ^ suc k - 1)
    ∙ ap₂ (λ x y. bit_and (a / 2) x * 2 + min (a % 2) y) half odd
    ∙ omega (arith, bit_and-mod k (a / 2), mod-double a (2 ^ k) pos, ap (λ (t : ℕ). a % t) e)

-- A single bit.
pub bit_and-bit : (k a : ℕ) → bit_and a (2 ^ k) ≡ a / 2 ^ k % 2 * 2 ^ k
bit_and-bit zero a = bit_and-halves a 1 ∙ omega (arith, bit_and-zero (a / 2))
bit_and-bit (suc k) a =
    let e : 2 ^ suc k ≡ 2 * 2 ^ k = pow-double k in
    let half : 2 ^ suc k / 2 ≡ 2 ^ k = omega (arith, e) in
    let even : 2 ^ suc k % 2 ≡ 0 = omega (arith, e) in
    let twice : a / 2 ^ suc k ≡ a / 2 / 2 ^ k =
      ap (λ (t : ℕ). a / t) e ∙ div-double a (2 ^ k) (pow-pos k) in
    bit_and-halves a (2 ^ suc k)
    ∙ ap₂ (λ x y. bit_and (a / 2) x * 2 + min (a % 2) y) half even
    ∙ omega (
      arith,
      bit_and-bit k (a / 2),
      ap (λ (t : ℕ). t % 2 * 2 ^ suc k) twice,
      ap (λ (t : ℕ). a / 2 / 2 ^ k % 2 * t) e,
    )

-- `n` bits above bit `k`.
pub bit_and-high : (k n a : ℕ) → bit_and a ((2 ^ n - 1) * 2 ^ k) ≡ a / 2 ^ k % 2 ^ n * 2 ^ k
bit_and-high zero n a =
    ap (bit_and a) (unit (2 ^ n - 1))
    ∙ bit_and-mod n a
    ∙ ap (λ (t : ℕ). t % 2 ^ n) (sym (whole a))
    ∙ sym (unit (a / 2 ^ 0 % 2 ^ n))
  where
    unit : (x : ℕ) → x * 2 ^ 0 ≡ x
    unit x = omega arith

    whole : (x : ℕ) → x / 2 ^ 0 ≡ x
    whole x = omega arith
bit_and-high (suc k) n a =
    let e : (2 ^ n - 1) * 2 ^ suc k ≡ 2 * ((2 ^ n - 1) * 2 ^ k) =
      omega (arith, ap (λ (t : ℕ). (2 ^ n - 1) * t) (pow-double k)) in
    let half : (2 ^ n - 1) * 2 ^ suc k / 2 ≡ (2 ^ n - 1) * 2 ^ k = omega (arith, e) in
    let even : (2 ^ n - 1) * 2 ^ suc k % 2 ≡ 0 = omega (arith, e) in
    let twice : a / 2 ^ suc k ≡ a / 2 / 2 ^ k =
      ap (λ (t : ℕ). a / t) (pow-double k) ∙ div-double a (2 ^ k) (pow-pos k) in
    bit_and-halves a ((2 ^ n - 1) * 2 ^ suc k)
    ∙ ap₂ (λ x y. bit_and (a / 2) x * 2 + min (a % 2) y) half even
    ∙ omega (
      arith,
      bit_and-high k n (a / 2),
      ap (λ (t : ℕ). t % 2 ^ n * 2 ^ suc k) twice,
      ap (λ (t : ℕ). a / 2 / 2 ^ k % 2 ^ n * t) (pow-double k),
    )

pub div-lt : (a p q : ℕ) → 0 < q → a < p * q → a / q < p
div-lt a p q h lt = grind arith

pub div-mul-le : (a q : ℕ) → a / q * q ≤ a
div-mul-le a q = grind arith
