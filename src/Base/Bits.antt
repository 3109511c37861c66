-- ===== src/Base/Bits.antt =====
-- `&` with a mask of low or of high ones, and `|` of disjoint fields, as arithmetic at every width.
use Prim.Native.Nat.{ℕ, zero, suc, ◌+◌, ◌-◌, ◌*◌, ◌/◌, ◌%◌, ◌^◌, ◌≤◌, ◌<◌, min, max}
use Prim.Native.Nat.{digits, bitwise, bit_and, bit_or, bit_and-bitwise, bit_or-bitwise}
use mathlib.Core.Path.{◌≡◌, refl, ap, sym, ◌∙◌}
use native.Mathlib.Nat.{pow-suc, one-le-pow}
use native.Mathlib.Decide.{ℕ_discrete}
use native.Mathlib.Omega.{arith}

-- The recursion on digits takes as much fuel as its first number; more changes nothing.
more_fuel :
    (z : ℕ → ℕ) (f : ℕ → ℕ → ℕ) (fuel x y : ℕ)
    → x ≤ fuel
    → digits z f (suc fuel) x y ≡ digits z f fuel x y
more_fuel z f zero zero y h = refl
more_fuel z f zero (suc x) y h = absurd (omega arith)
more_fuel z f (suc fuel) zero y h = refl
more_fuel z f (suc fuel) (suc x) y h = rw (more_fuel z f fuel (suc x / 2) (y / 2) (omega arith))

digits-eq-bitwise :
    (z : ℕ → ℕ) (f : ℕ → ℕ → ℕ) (fuel x y : ℕ) → x ≤ fuel → digits z f fuel x y ≡ bitwise z f x y
digits-eq-bitwise z f zero zero y h = refl
digits-eq-bitwise z f zero (suc x) y h = absurd (omega arith)
digits-eq-bitwise z f (suc fuel) x y h = elim (ℕ_discrete x (suc fuel)) [
  | yes exact ↦ ap (λ n. digits z f n x y) (sym exact)
  | no less ↦ more_fuel z f fuel x y (omega arith) ∙ digits-eq-bitwise z f fuel x y (omega arith)
]

-- The lowest digit of a disjunction and of a conjunction.
bit_or_step : (x y : ℕ) → bit_or x y ≡ bit_or (x / 2) (y / 2) * 2 + max (x % 2) (y % 2)
bit_or_step zero y = simp bit_or-bitwise (omega arith)
bit_or_step (suc x) y =
    let halves = digits-eq-bitwise (λ n. n) max x (suc x / 2) (y / 2) (omega arith) in
    simp bit_or-bitwise (omega (arith, halves))

bit_and_step : (x y : ℕ) → bit_and x y ≡ bit_and (x / 2) (y / 2) * 2 + min (x % 2) (y % 2)
bit_and_step zero y = simp bit_and-bitwise (omega arith)
bit_and_step (suc x) y =
    let halves = digits-eq-bitwise (λ n. 0) min x (suc x / 2) (y / 2) (omega arith) in
    simp bit_and-bitwise (omega (arith, halves))

-- Halving ends at 0 within `bound` steps.
bit_and-zero_below : (bound x : ℕ) → x ≤ bound → bit_and x 0 ≡ 0
bit_and-zero_below bound zero small = refl
bit_and-zero_below zero (suc x) small = absurd (omega arith)
bit_and-zero_below (suc bound) (suc x) small =
    let half = bit_and-zero_below bound (suc x / 2) (omega arith) in
    omega (arith, half, bit_and_step (suc x) 0)

pub bit_and-zero : (x : ℕ) → bit_and x 0 ≡ 0
bit_and-zero x = bit_and-zero_below x x (omega arith)

bit_or-zero_below : (bound x : ℕ) → x ≤ bound → bit_or x 0 ≡ x
bit_or-zero_below bound zero small = refl
bit_or-zero_below zero (suc x) small = absurd (omega arith)
bit_or-zero_below (suc bound) (suc x) small =
    let half = bit_or-zero_below bound (suc x / 2) (omega arith) in
    omega (arith, half, bit_or_step (suc x) 0)

-- A field moved up by one more bit.
field_up : (k field : ℕ) → field * 2 ^ suc k ≡ field * 2 ^ k + field * 2 ^ k
field_up k field =
    let double = ap (λ (power : ℕ). field * power) (pow-suc 2 k) in omega (arith, double)

-- Both operations work on the fields below and above bit `k` apart.
pub bit_and_fields :
    (k q r m n : ℕ)
    → r < 2 ^ k
    → n < 2 ^ k
    → bit_and (q * 2 ^ k + r) (m * 2 ^ k + n) ≡ bit_and q m * 2 ^ k + bit_and r n
bit_and_fields zero q zero m zero hr hn =
    let left : q * 2 ^ 0 + 0 ≡ q = omega arith in
    let right : m * 2 ^ 0 + 0 ≡ m = omega arith in rw (left, right) (omega arith)
bit_and_fields zero q (suc r) m n hr hn = absurd (omega arith)
bit_and_fields zero q zero m (suc n) hr hn = absurd (omega arith)
bit_and_fields (suc k) q r m n hr hn = ground (
  arith,
  bit_and_step (q * 2 ^ suc k + r) (m * 2 ^ suc k + n),
  bit_and_step r n,
  field_up k q,
  field_up k m,
  field_up k (bit_and q m),
  pow-suc 2 k,
  bit_and_fields k q (r / 2) m (n / 2) (omega (arith, pow-suc 2 k)) (omega (arith, pow-suc 2 k)),
)

-- Fields that do not overlap add up.
pub bit_or_fields : (k q r : ℕ) → r < 2 ^ k → bit_or (q * 2 ^ k) r ≡ q * 2 ^ k + r
bit_or_fields zero q r fits = ground (arith, bit_or-zero_below q q (omega arith))
bit_or_fields (suc k) q r fits =
    let halves = bit_or_fields k q (r / 2) (omega (arith, pow-suc 2 k)) in
    ground (arith, halves, field_up k q, bit_or_step (q * 2 ^ suc k) r)

low_fields : (k r : ℕ) → r < 2 ^ k → bit_and r (2 ^ k - 1) ≡ r
low_fields zero zero h = refl
low_fields zero (suc r) h = absurd (omega arith)
low_fields (suc k) r h =
    ground
      (arith, bit_and_step r (2 ^ suc k - 1), pow-suc 2 k, one-le-pow k 2, low_fields k (r / 2))

-- A mask of the low `k` ones is the remainder by `2 ^ k`.
pub bit_and_low : (k a : ℕ) → bit_and a (2 ^ k - 1) ≡ a % 2 ^ k
bit_and_low k a = ground (
  arith,
  one-le-pow k 2,
  bit_and_fields k (a / 2 ^ k) (a % 2 ^ k) 0 (2 ^ k - 1),
  low_fields k (a % 2 ^ k),
  bit_and-zero (a / 2 ^ k),
)

-- A mask of `w` ones above `k` zeros clears the low `k` bits, and those above.
pub bit_and_high : (k w a : ℕ) → bit_and a ((2 ^ w - 1) * 2 ^ k) ≡ a / 2 ^ k % 2 ^ w * 2 ^ k
bit_and_high k w a = ground (
  arith,
  one-le-pow k 2,
  bit_and_fields k (a / 2 ^ k) (a % 2 ^ k) (2 ^ w - 1) 0,
  bit_and_low w (a / 2 ^ k),
  bit_and-zero (a % 2 ^ k),
)
