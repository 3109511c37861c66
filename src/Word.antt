-- ===== src/Word.antt =====
-- The fixed-width arithmetic of C on a little-endian host: wrapping sums, complements, shifts,
-- the byte swaps behind `rte_be_to_cpu_16` and its kin, and 64-bit counters.
use natasha.Base.{ℕ, ◌+◌, ◌-◌, ◌*◌, ◌/◌, ◌%◌, ◌^◌, ◌<◌, ◌≡◌, ◌≢◌, arith}
use natasha.Base.{ltb, if◌then◌else◌, ℤ, pos, negsuc}

abbrev pub u8 : ℕ → ℕ
u8 n = n % 2 ^ 8

abbrev pub u16 : ℕ → ℕ
u16 n = n % 2 ^ 16

abbrev pub u32 : ℕ → ℕ
u32 n = n % 2 ^ 32

abbrev pub u64 : ℕ → ℕ
u64 n = n % 2 ^ 64

-- `~x` of a `uint32_t` and of a `uint16_t`
abbrev pub not32 : ℕ → ℕ
not32 x = 2 ^ 32 - 1 - x

abbrev pub not16 : ℕ → ℕ
not16 x = 2 ^ 16 - 1 - x

infixl 75 ◌>>>◌
abbrev pub ◌>>>◌ : ℕ → ℕ → ℕ
x >>> k = x / 2 ^ k

-- `counter++` on a `uint64_t`
abbrev pub incr64 : ℕ → ℕ
incr64 n = u64 (n + 1)

-- `rte_be_to_cpu_16`, `rte_cpu_to_be_16`, `htons`
unfoldable pub bswap16 : ℕ → ℕ
bswap16 x = x % 256 * 256 + x / 256 % 256

-- `rte_be_to_cpu_32`, `rte_cpu_to_be_32`
unfoldable pub bswap32 : ℕ → ℕ
bswap32 x = x % 256 * 2 ^ 24 + x / 256 % 256 * 2 ^ 16 + x / 2 ^ 16 % 256 * 256 + x / 2 ^ 24 % 256

pub bswap16-bswap16 : (x : ℕ) → x < 2 ^ 16 → bswap16 (bswap16 x) ≡ x
unfolding bswap16
bswap16-bswap16 x h = omega arith

pub bswap32-bswap32 : (x : ℕ) → x < 2 ^ 32 → bswap32 (bswap32 x) ≡ x
unfolding bswap32
bswap32-bswap32 x h = omega arith

pub bswap32-lt : (x : ℕ) → bswap32 x < 2 ^ 32
unfolding bswap32
bswap32-lt x = omega arith

pub bswap16-lt : (x : ℕ) → bswap16 x < 2 ^ 16
unfolding bswap16
bswap16-lt x = omega arith

pub bswap32_ne_zero : (x : ℕ) → x < 2 ^ 32 → x ≢ 0 → bswap32 x ≢ 0
unfolding bswap32
bswap32_ne_zero x h ne e = ne (omega (arith, bswap32-bswap32 x h))

-- `rte_cpu_to_be_64`
unfoldable pub bswap64 : ℕ → ℕ
bswap64 x = bswap32 (x % 2 ^ 32) * 2 ^ 32 + bswap32 (x / 2 ^ 32)

-- a `size_t` returned as an `int`
unfoldable pub to_int32 : ℕ → ℤ
to_int32 n = if ltb (u32 n) (2 ^ 31) then pos (u32 n) else negsuc (2 ^ 32 - 1 - u32 n)
