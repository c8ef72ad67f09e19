-- ===== src/Prelude/Bits.antt =====
-- `&` with a mask of four ones and `|` of fields that share no bit, as arithmetic.
use native.Mathlib.Nat.{pow-suc, div-div-eq-div-mul, mul-div-mul_right}
use Prim.Native.Nat.{
  ℕ, zero, suc, ◌+◌, ◌*◌, ◌/◌, ◌%◌, ◌^◌, ◌≤◌, ◌<◌, min, max, bit_and, bit_or, digits,
  bit_and-bitwise, bit_or-bitwise,
}
use mathlib.Core.Path.{◌≡◌, refl, ap, sym, ◌∙◌}
use native.Mathlib.Omega.{arith}

-- more fuel than the first number changes nothing
module _ (z : ℕ → ℕ) (g : ℕ → ℕ → ℕ) where
  enough : (a b n m : ℕ) → a ≤ n → a ≤ m → digits z g n a b ≡ digits z g m a b
  enough zero b zero zero hn hm = refl
  enough zero b zero (suc m) hn hm = refl
  enough zero b (suc n) zero hn hm = refl
  enough zero b (suc n) (suc m) hn hm = refl
  enough (suc a) b zero m hn hm = absurd (omega arith)
  enough (suc a) b (suc n) zero hn hm = absurd (omega arith)
  enough (suc a) b (suc n) (suc m) hn hm =
      rw (enough (suc a / 2) (b / 2) n m (omega arith) (omega arith))

-- the lowest digit apart
lowest_digit : (a b : ℕ) → bit_and a b ≡ bit_and (a / 2) (b / 2) * 2 + min (a % 2) (b % 2)
lowest_digit zero b = simp bit_and-bitwise (omega arith)
lowest_digit (suc a) b = simp bit_and-bitwise (
    omega
      (arith, enough (λ y. 0) min (suc a / 2) (b / 2) a (suc a / 2) (omega arith) (omega arith)))

and_zero : (n a : ℕ) → a ≤ n → bit_and a 0 ≡ 0
and_zero n zero h = refl
and_zero zero (suc a) h = absurd (omega arith)
and_zero (suc n) (suc a) h =
    omega (arith, lowest_digit (suc a) 0, and_zero n (suc a / 2) (omega arith))

pub low_nibble : (a : ℕ) → bit_and a 15 ≡ a % 16
low_nibble a = omega (
  arith,
  lowest_digit a 15,
  lowest_digit (a / 2) 7,
  lowest_digit (a / 2 / 2) 3,
  lowest_digit (a / 2 / 2 / 2) 1,
  and_zero (a / 2 / 2 / 2 / 2) (a / 2 / 2 / 2 / 2) (omega arith),
)

-- Four bits under a shifted mask, shifted down, are a hexadecimal digit.
pub nibble : (k a : ℕ) → bit_and a (15 * 2 ^ k) / 2 ^ k ≡ a / 2 ^ k % 16
nibble zero a = omega (arith, low_nibble a)
nibble (suc k) a =
    let d = pow-suc 2 k in
    let mask : 15 * 2 ^ suc k ≡ 15 * 2 ^ k * 2 = omega (arith, d) in
    let half : 15 * 2 ^ suc k / 2 ≡ 15 * 2 ^ k = omega (arith, d) in
    let even : 15 * 2 ^ suc k % 2 ≡ 0 = omega (arith, d) in
    let step : bit_and a (15 * 2 ^ suc k) ≡ bit_and (a / 2) (15 * 2 ^ k) * 2 =
      lowest_digit a (15 * 2 ^ suc k) ∙ rw (half, even) (omega arith) in
    let low : a / 2 ^ suc k ≡ a / 2 / 2 ^ k =
      rw d (ap (λ n. a / n) (omega arith) ∙ sym (div-div-eq-div-mul a 2 (2 ^ k))) in
    rw (step, low)
      (ap (λ n. bit_and (a / 2) (15 * 2 ^ k) * 2 / n) d
        ∙ mul-div-mul_right {m = 2} (bit_and (a / 2) (15 * 2 ^ k)) (2 ^ k) (omega arith)
        ∙ nibble k (a / 2))

lowest_or : (a b : ℕ) → bit_or a b ≡ bit_or (a / 2) (b / 2) * 2 + max (a % 2) (b % 2)
lowest_or zero b = simp bit_or-bitwise (omega arith)
lowest_or (suc a) b = simp bit_or-bitwise (
    omega
      (arith, enough (λ y. y) max (suc a / 2) (b / 2) a (suc a / 2) (omega arith) (omega arith)))

or_zero : (n a : ℕ) → a ≤ n → bit_or a 0 ≡ a
or_zero n zero h = refl
or_zero zero (suc a) h = absurd (omega arith)
or_zero (suc n) (suc a) h = omega (arith, lowest_or (suc a) 0, or_zero n (suc a / 2) (omega arith))

-- A number whose low `k` bits are zero, with the low bits put in.
pub bit_or-fields : (k q r : ℕ) → r < 2 ^ k → bit_or (q * 2 ^ k) r ≡ q * 2 ^ k + r
bit_or-fields zero q r h =
    let none_left : r ≡ 0 = omega arith in
    rw none_left (or_zero (q * 2 ^ 0) (q * 2 ^ 0) (omega arith) ∙ omega arith)
bit_or-fields (suc k) q r h =
    let d : q * 2 ^ suc k ≡ q * 2 ^ k * 2 = rw (pow-suc 2 k) (omega arith) in
    let d' = pow-suc 2 k in
    let half : q * 2 ^ suc k / 2 ≡ q * 2 ^ k = omega (arith, d) in
    let even : q * 2 ^ suc k % 2 ≡ 0 = omega (arith, d) in
    lowest_or (q * 2 ^ suc k) r
    ∙ rw (half, even) (omega (arith, d, bit_or-fields k q (r / 2) (omega arith)))
