-- ===== src/Prelude/Bits.antt =====
-- `|` of words that share no bit, and `&` with a mask of ones.
use Prim.Native.Nat.{
  ℕ, zero, suc, ◌+◌, ◌-◌, ◌*◌, ◌/◌, ◌%◌, ◌^◌, ◌≤◌, ◌<◌, max, min, bit_or, bit_and, digits,
  bit_or-bitwise, bit_and-bitwise,
}
use mathlib.Core.Path.{◌≡◌, refl, ap, ◌∙◌, sym}
use native.Mathlib.Nat.{pow-suc}
use native.Mathlib.Omega.{arith}

-- A native operation on words that is given digit by digit: `join` on two binary digits, `rest`
-- where the first word has no digit left.
module _ (rest : ℕ → ℕ) (join : ℕ → ℕ → ℕ) where
  more_fuel : (x y k l : ℕ) → x ≤ k → x ≤ l → digits rest join k x y ≡ digits rest join l x y
  more_fuel zero y zero zero h i = refl
  more_fuel zero y zero (suc l) h i = refl
  more_fuel zero y (suc k) zero h i = refl
  more_fuel zero y (suc k) (suc l) h i = refl
  more_fuel (suc x) y zero l h i = absurd (omega arith)
  more_fuel (suc x) y (suc k) zero h i = absurd (omega arith)
  more_fuel (suc x) y (suc k) (suc l) h i =
      ap (λ t. t * 2 + join (suc x % 2) (y % 2))
        (more_fuel (suc x / 2) (y / 2) k l (omega arith) (omega arith))

  -- The lowest digit and the others.
  lowest :
      (word : ℕ → ℕ → ℕ)
      → ((x y : ℕ) → word x y ≡ digits rest join x x y)
      → ((y : ℕ) → word 0 y ≡ word 0 (y / 2) * 2 + join 0 (y % 2))
      → (x y : ℕ) → word x y ≡ word (x / 2) (y / 2) * 2 + join (x % 2) (y % 2)
  lowest word law none_left zero y = none_left y
  lowest word law none_left (suc x) y =
      law (suc x) y
      ∙ ap (λ t. t * 2 + join (suc x % 2) (y % 2))
          (more_fuel (suc x / 2) (y / 2) x (suc x / 2) (omega arith) (omega arith)
            ∙ sym (law (suc x / 2) (y / 2)))

pub zero-bit_or : (y : ℕ) → bit_or 0 y ≡ y
zero-bit_or y = bit_or-bitwise 0 y

bit_or_step : (x y : ℕ) → bit_or x y ≡ bit_or (x / 2) (y / 2) * 2 + max (x % 2) (y % 2)
bit_or_step =
    lowest (λ y. y) max bit_or bit_or-bitwise
      (λ y. omega (arith, zero-bit_or y, zero-bit_or (y / 2)))

-- A low half below `2 ^ k` and a high half shifted by `k` are put together by `|` as by `+`.
pub bit_or_disjoint : (k lo hi : ℕ) → lo < 2 ^ k → bit_or lo (hi * 2 ^ k) ≡ lo + hi * 2 ^ k
bit_or_disjoint zero zero hi h = omega (arith, zero-bit_or (hi * 2 ^ 0))
bit_or_disjoint zero (suc lo) hi h = absurd (omega arith)
bit_or_disjoint (suc k) lo hi h =
    let double : hi * 2 ^ suc k ≡ 2 * (hi * 2 ^ k) = ap (λ t. hi * t) (pow-suc 2 k) ∙ omega arith in
    let half : hi * 2 ^ suc k / 2 ≡ hi * 2 ^ k = omega (arith, double) in
    let smaller : lo / 2 < 2 ^ k = omega (arith, pow-suc 2 k) in
    bit_or_step lo (hi * 2 ^ suc k)
    ∙ ap (λ t. bit_or (lo / 2) t * 2 + max (lo % 2) (hi * 2 ^ suc k % 2)) half
    ∙ omega (arith, bit_or_disjoint k (lo / 2) hi smaller, double)

zero-bit_and : (y : ℕ) → bit_and 0 y ≡ 0
zero-bit_and y = bit_and-bitwise 0 y

bit_and_step : (x y : ℕ) → bit_and x y ≡ bit_and (x / 2) (y / 2) * 2 + min (x % 2) (y % 2)
bit_and_step =
    lowest (λ y. zero) min bit_and bit_and-bitwise
      (λ y. omega (arith, zero-bit_and y, zero-bit_and (y / 2)))

-- A bound on the first word carries the recursion on its half.
none_below : (bound x : ℕ) → x < bound → bit_and x 0 ≡ 0
none_below zero x h = absurd (omega arith)
none_below (suc bound) zero h = zero-bit_and 0
none_below (suc bound) (suc x) h =
    omega (arith, bit_and_step (suc x) 0, none_below bound (suc x / 2) (omega arith))

mod-double : (a m : ℕ) → 0 < m → a % (2 * m) ≡ (a / 2 % m) * 2 + a % 2
mod-double a m h = grind arith

pow-pos : (k : ℕ) → 0 < 2 ^ k
pow-pos zero = omega arith
pow-pos (suc k) = omega (arith, pow-suc 2 k, pow-pos k)

-- `a & (2^k - 1)` keeps the low `k` bits.
pub bit_and_mask : (k a : ℕ) → bit_and a (2 ^ k - 1) ≡ a % 2 ^ k
bit_and_mask zero a = omega (arith, none_below (suc a) a (omega arith))
bit_and_mask (suc k) a =
    let double : 2 ^ suc k ≡ 2 * 2 ^ k = omega (arith, pow-suc 2 k) in
    let some_power : 0 < 2 ^ k = pow-pos k in
    let half : (2 ^ suc k - 1) / 2 ≡ 2 ^ k - 1 = omega (arith, double) in
    bit_and_step a (2 ^ suc k - 1)
    ∙ ap (λ t. bit_and (a / 2) t * 2 + min (a % 2) ((2 ^ suc k - 1) % 2)) half
    ∙ omega (arith, bit_and_mask k (a / 2), mod-double a (2 ^ k) some_power, double)
    ∙ ap (λ t. a % t) (sym double)
