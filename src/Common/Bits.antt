-- ===== src/Common/Bits.antt =====
-- Powers of two, `&` with a low mask and `|` of disjoint fields as arithmetic, and how both
-- operations behave under a right shift.
mod Halves
mod Powers
pub use Halves.{bit_and-halve, bit_or-halve, zero-bit_and, zero-bit_or}
pub use Powers.*
use Prim.Native.Nat.{
  ℕ, zero, suc, ◌+◌, ◌-◌, ◌*◌, ◌/◌, ◌%◌, ◌^◌, ◌≤◌, ◌<◌, min, max, bit_and, bit_or,
}
use mathlib.Core.Path.{◌≡◌, refl, ap}
use mathlib.Core.WellFounded.{Acc}
use native.Mathlib.Omega.{arith}

bit_and-zero_below : (k a : ℕ) → a ≤ k → bit_and a 0 ≡ 0
bit_and-zero_below zero zero h = refl
bit_and-zero_below zero (suc a) h = absurd (omega arith)
bit_and-zero_below (suc k) zero h = refl
bit_and-zero_below (suc k) (suc a) h =
    omega (arith, bit_and-halve (suc a) 0, bit_and-zero_below k (suc a / 2) (omega arith))

pub bit_and-zero : (a : ℕ) → bit_and a 0 ≡ 0
bit_and-zero a = bit_and-zero_below a a (omega arith)

bit_or-zero_below : (k a : ℕ) → a ≤ k → bit_or a 0 ≡ a
bit_or-zero_below zero zero h = refl
bit_or-zero_below zero (suc a) h = absurd (omega arith)
bit_or-zero_below (suc k) zero h = refl
bit_or-zero_below (suc k) (suc a) h =
    omega (arith, bit_or-halve (suc a) 0, bit_or-zero_below k (suc a / 2) (omega arith))

pub bit_or-zero : (a : ℕ) → bit_or a 0 ≡ a
bit_or-zero a = bit_or-zero_below a a (omega arith)

-- `x & ((1 << k) - 1)` keeps the low `k` bits.
pub bit_and-mask : (k a : ℕ) → bit_and a (2 ^ k - 1) ≡ a % 2 ^ k
bit_and-mask zero a = omega (arith, bit_and-zero a)
bit_and-mask (suc k) a = omega (
  arith,
  bit_and-halve a (2 ^ suc k - 1),
  two_pow-suc k,
  two_pow_pos k,
  ap (bit_and (a / 2)) half,
  bit_and-mask k (a / 2),
  mod-two_pow-suc a k,
)
  where
    half : (2 ^ suc k - 1) / 2 ≡ 2 ^ k - 1
    half = omega (arith, two_pow-suc k, two_pow_pos k)

-- `x | y` of a number with `k` low zero bits and one below `1 << k` is their sum.
pub bit_or-fields : (k q r : ℕ) → r < 2 ^ k → bit_or (q * 2 ^ k) r ≡ q * 2 ^ k + r
bit_or-fields zero q r h = ground (arith, bit_or-zero q)
bit_or-fields (suc k) q r h = omega (
  arith,
  bit_or-halve (q * 2 ^ suc k) r,
  ap (λ (t : ℕ). q * t) (two_pow-suc k),
  two_pow-suc k,
  ap (λ (t : ℕ). bit_or t (r / 2)) half,
  bit_or-fields k q (r / 2) (omega (arith, two_pow-suc k)),
)
  where
    half : q * 2 ^ suc k / 2 ≡ q * 2 ^ k
    half = omega (arith, ap (λ (t : ℕ). q * t) (two_pow-suc k))

pub bit_and-shift : (s a b : ℕ) → bit_and a b / 2 ^ s ≡ bit_and (a / 2 ^ s) (b / 2 ^ s)
bit_and-shift zero a b = simp div-two_pow-zero
bit_and-shift (suc s) a b = simp (div-two_pow-suc, half) (bit_and-shift s (a / 2) (b / 2))
  where
    half : bit_and a b / 2 ≡ bit_and (a / 2) (b / 2)
    half = omega (arith, bit_and-halve a b)

pub bit_or-shift : (s a b : ℕ) → bit_or a b / 2 ^ s ≡ bit_or (a / 2 ^ s) (b / 2 ^ s)
bit_or-shift zero a b = simp div-two_pow-zero
bit_or-shift (suc s) a b = simp (div-two_pow-suc, half) (bit_or-shift s (a / 2) (b / 2))
  where
    half : bit_or a b / 2 ≡ bit_or (a / 2) (b / 2)
    half = omega (arith, bit_or-halve a b)

bit_and-le_below : (k a b : ℕ) → a ≤ k → (bit_and a b ≤ a) × (bit_and a b ≤ b)
bit_and-le_below k zero b h = omega (arith, bit_and-halve 0 b, zero_and b)
  where
    zero_and : (b : ℕ) → bit_and 0 b ≡ 0
    zero_and b = Halves.zero-bit_and b
bit_and-le_below zero (suc a) b h = absurd (omega arith)
bit_and-le_below (suc k) (suc a) b h =
    omega (arith, bit_and-halve (suc a) b, bit_and-le_below k (suc a / 2) (b / 2) (omega arith))

pub bit_and-le : (a b : ℕ) → (bit_and a b ≤ a) × (bit_and a b ≤ b)
bit_and-le a b = bit_and-le_below a a b (omega arith)

le-bit_or_below : (k a b : ℕ) → a ≤ k → (a ≤ bit_or a b) × (b ≤ bit_or a b)
le-bit_or_below k zero b h = omega (arith, Halves.zero-bit_or b)
le-bit_or_below zero (suc a) b h = absurd (omega arith)
le-bit_or_below (suc k) (suc a) b h =
    omega (arith, bit_or-halve (suc a) b, le-bit_or_below k (suc a / 2) (b / 2) (omega arith))

pub le-bit_or : (a b : ℕ) → (a ≤ bit_or a b) × (b ≤ bit_or a b)
le-bit_or a b = le-bit_or_below a a b (omega arith)

pub bit_and_self : (a : ℕ) → bit_and a a ≡ a
bit_and_self a = below a a (omega arith)
  where
    below : (k a : ℕ) → a ≤ k → bit_and a a ≡ a
    below k zero h = Halves.zero-bit_and 0
    below zero (suc a) h = absurd (omega arith)
    below (suc k) (suc a) h =
        omega (arith, bit_and-halve (suc a) (suc a), below k (suc a / 2) (omega arith))

pub bit_or_self : (a : ℕ) → bit_or a a ≡ a
bit_or_self a = below a a (omega arith)
  where
    below : (k a : ℕ) → a ≤ k → bit_or a a ≡ a
    below k zero h = Halves.zero-bit_or 0
    below zero (suc a) h = absurd (omega arith)
    below (suc k) (suc a) h =
        omega (arith, bit_or-halve (suc a) (suc a), below k (suc a / 2) (omega arith))

pub bit_or-lt : (k a b : ℕ) → a < 2 ^ k → b < 2 ^ k → bit_or a b < 2 ^ k
bit_or-lt zero zero zero p q = omega (arith, Halves.zero-bit_or 0)
bit_or-lt zero zero (suc b) p q = absurd (omega arith)
bit_or-lt zero (suc a) b p q = absurd (omega arith)
bit_or-lt (suc k) a b p q = omega (
  arith,
  two_pow-suc k,
  bit_or-halve a b,
  bit_or-lt k (a / 2) (b / 2) (omega (arith, two_pow-suc k)) (omega (arith, two_pow-suc k)),
)

pub bit_or_comm : (a b : ℕ) → bit_or a b ≡ bit_or b a
bit_or_comm a b = below a a b (omega arith)
  where
    below : (k a b : ℕ) → a ≤ k → bit_or a b ≡ bit_or b a
    below k zero b h = omega (arith, Halves.zero-bit_or b, bit_or-zero b)
    below zero (suc a) b h = absurd (omega arith)
    below (suc k) (suc a) b h = omega (
      arith,
      bit_or-halve (suc a) b,
      bit_or-halve b (suc a),
      below k (suc a / 2) (b / 2) (omega arith),
    )
