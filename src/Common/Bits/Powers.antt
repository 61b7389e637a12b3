-- ===== src/Common/Bits/Powers.antt =====
-- Powers of two, and quotients and remainders by them.
use Prim.Native.Nat.{ℕ, zero, suc, ◌+◌, ◌-◌, ◌*◌, ◌/◌, ◌%◌, ◌^◌, ◌≤◌, ◌<◌}
use mathlib.Core.Path.{◌≡◌, ap, ◌∙◌}
use native.Mathlib.Nat.{
  pow-suc, one-le-pow, mul-add-div_right, div-eq_of_lt, div-add-mod', mod-lt, mul-le-mul_left,
  div-lt_iff_lt-mul,
}
use native.Mathlib.Omega.{arith}

pub two_pow_pos : (k : ℕ) → 1 ≤ 2 ^ k
two_pow_pos k = one-le-pow k 2 (omega arith)

pub two_pow-suc : (k : ℕ) → 2 ^ suc k ≡ 2 * 2 ^ k
two_pow-suc k = omega (arith, pow-suc 2 k)

pub two_pow-add : (j k : ℕ) → 2 ^ (j + k) ≡ 2 ^ j * 2 ^ k
two_pow-add zero k = omega (arith, ap (λ (t : ℕ). 2 ^ t) (zero_add k))
  where
    zero_add : (k : ℕ) → zero + k ≡ k
    zero_add k = omega arith
two_pow-add (suc j) k = omega (
  arith,
  ap (λ (t : ℕ). 2 ^ t) (suc_add j k),
  two_pow-suc (j + k),
  two_pow-add j k,
  ap (λ (t : ℕ). t * 2 ^ k) (two_pow-suc j),
)
  where
    suc_add : (j k : ℕ) → suc j + k ≡ suc (j + k)
    suc_add j k = omega arith

pub two_pow_mono : (j k : ℕ) → j ≤ k → 2 ^ j ≤ 2 ^ k
two_pow_mono zero k h = two_pow_pos k
two_pow_mono (suc j) zero h = absurd (omega arith)
two_pow_mono (suc j) (suc k) h =
    omega (arith, two_pow-suc j, two_pow-suc k, two_pow_mono j k (omega arith))

-- A quotient and a remainder are known from the two fields that they split.
pub div-fields : (q p r : ℕ) → r < p → (q * p + r) / p ≡ q
div-fields q p r h = omega (arith, mul-add-div_right {m = p} (omega arith) q r, div-eq_of_lt h)

pub mod-fields : (q p r : ℕ) → r < p → (q * p + r) % p ≡ r
mod-fields q p r h = omega (
  arith,
  div-fields q p r h,
  div-add-mod' (q * p + r) p,
  ap (λ (t : ℕ). t * p) (div-fields q p r h),
)

pub div-two_pow-zero : (a : ℕ) → a / 2 ^ zero ≡ a
div-two_pow-zero a = omega arith

pub div_unique : (a q p r : ℕ) → a ≡ q * p + r → r < p → a / p ≡ q
div_unique a q p r e h = ap (λ t. t / p) e ∙ div-fields q p r h

pub mod_unique : (a q p r : ℕ) → a ≡ q * p + r → r < p → a % p ≡ r
mod_unique a q p r e h = ap (λ t. t % p) e ∙ mod-fields q p r h

-- The quotient by a product, digit by digit.
module _ (a b c : ℕ) where
  two_digits : a ≡ a / b / c * (b * c) + (a / b % c * b + a % b)
  two_digits = omega (arith, div-add-mod' a b, ap (λ (t : ℕ). t * b) (div-add-mod' (a / b) c))

  low_digit-lt : 1 ≤ b → 1 ≤ c → a / b % c * b + a % b < b * c
  low_digit-lt hb hc = omega (
    arith,
    mod-lt a {m = b} hb,
    mul-le-mul_left {m = a / b % c + 1} {n = c} b (omega (arith, mod-lt (a / b) {m = c} hc)),
  )

  pub div-mul : 1 ≤ b → 1 ≤ c → a / (b * c) ≡ a / b / c
  div-mul hb hc = div_unique a (a / b / c) (b * c) _ two_digits (low_digit-lt hb hc)

  pub mod-mul : 1 ≤ b → 1 ≤ c → a % (b * c) ≡ a / b % c * b + a % b
  mod-mul hb hc = mod_unique a (a / b / c) (b * c) _ two_digits (low_digit-lt hb hc)

pub div-two_pow-suc : (a k : ℕ) → a / 2 ^ suc k ≡ a / 2 / 2 ^ k
div-two_pow-suc a k = rw two_pow-suc (div-mul a 2 (2 ^ k) (omega arith) (two_pow_pos k))

pub mod-two_pow-suc : (a k : ℕ) → a % 2 ^ suc k ≡ 2 * (a / 2 % 2 ^ k) + a % 2
mod-two_pow-suc a k =
    rw two_pow-suc (omega (arith, mod-mul a 2 (2 ^ k) (omega arith) (two_pow_pos k)))

pub div-two_pow-add : (a j k : ℕ) → a / 2 ^ (j + k) ≡ a / 2 ^ j / 2 ^ k
div-two_pow-add a j k = rw two_pow-add (div-mul a (2 ^ j) (2 ^ k) (two_pow_pos j) (two_pow_pos k))

-- Two fields side by side fit their joint width.
pub fields-lt : (v n d x : ℕ) {j : ℕ} → v < 2 ^ n → x < 2 ^ d → j ≡ n + d → v * 2 ^ d + x < 2 ^ j
fields-lt v n d x hv hx e =
    rw (e, two_pow-add n d)
      (omega (arith, mul-le-mul_left {m = v + 1} {n = 2 ^ n} (2 ^ d) (omega arith)))

pub div-lt : (v b s : ℕ) {j : ℕ} → v < 2 ^ j → j ≡ b + s → v / 2 ^ s < 2 ^ b
div-lt v b s h e = (div-lt_iff_lt-mul (two_pow_pos s)).1 (rw (← two_pow-add b s) (rw e at h))

-- Cutting to `j` bits and then to fewer is cutting to the fewer.
pub mod-mod_le : (a n d : ℕ) {j : ℕ} → j ≡ n + d → a % 2 ^ j % 2 ^ n ≡ a % 2 ^ n
mod-mod_le a n d e =
    rw (e, two_pow-add n d, mod-mul a (2 ^ n) (2 ^ d) (two_pow_pos n) (two_pow_pos d))
      (mod-fields (a / 2 ^ n % 2 ^ d) (2 ^ n) (a % 2 ^ n) (mod-lt a (two_pow_pos n)))

pub mul-two_pow : (a s t : ℕ) {j : ℕ} → j ≡ s + t → a * 2 ^ s * 2 ^ t ≡ a * 2 ^ j
mul-two_pow a s t e = rw (e, two_pow-add s t) (omega arith)

-- A left shift that runs over the word's end keeps the low bits.
pub shift-mod : (v s d : ℕ) {j : ℕ} → j ≡ s + d → v * 2 ^ d % 2 ^ j ≡ v % 2 ^ s * 2 ^ d
shift-mod v s d {j} e = mod_unique (v * 2 ^ d) (v / 2 ^ s) (2 ^ j) (v % 2 ^ s * 2 ^ d) split below
  where
    split : v * 2 ^ d ≡ v / 2 ^ s * 2 ^ j + v % 2 ^ s * 2 ^ d
    split =
        rw (e, two_pow-add s d) (omega (arith, ap (λ (t : ℕ). t * 2 ^ d) (div-add-mod' v (2 ^ s))))

    below : v % 2 ^ s * 2 ^ d < 2 ^ j
    below = omega (arith, fields-lt (v % 2 ^ s) s d 0 (mod-lt v (two_pow_pos s)) (two_pow_pos d) e)

-- A word of ones shifted right.
pub ones-shift : (n d : ℕ) {j : ℕ} → j ≡ n + d → (2 ^ j - 1) / 2 ^ d ≡ 2 ^ n - 1
ones-shift n d {j} e = div_unique (2 ^ j - 1) (2 ^ n - 1) (2 ^ d) (2 ^ d - 1) split below
  where
    split : 2 ^ j - 1 ≡ (2 ^ n - 1) * 2 ^ d + (2 ^ d - 1)
    split =
        rw (e, two_pow-add n d)
          (omega (
            arith,
            two_pow_pos n,
            two_pow_pos d,
            mul-le-mul_left {m = 1} {n = 2 ^ n} (2 ^ d) (two_pow_pos n),
            minus_one (2 ^ n) (2 ^ d) (two_pow_pos n),
          ))
      where
        minus_one : (a b : ℕ) → 1 ≤ a → (a - 1) * b + b ≡ a * b
        minus_one a b h = omega (arith, ap (λ (t : ℕ). t * b) whole)
          where
            whole : a - 1 + 1 ≡ a
            whole = omega arith

    below : 2 ^ d - 1 < 2 ^ d
    below = omega (arith, two_pow_pos d)

pub div_mono : (d a b : ℕ) → a ≤ b → a / 2 ^ d ≤ b / 2 ^ d
div_mono zero a b h = omega (arith, div-two_pow-zero a, div-two_pow-zero b)
div_mono (suc d) a b h =
    omega
      (arith, div-two_pow-suc a d, div-two_pow-suc b d, div_mono d (a / 2) (b / 2) (omega arith))
