-- ===== src/Bytes.antt =====
-- The bytes of a packet buffer, addressed from `rte_pktmbuf_mtod`, and little-endian access to
-- fields of several bytes. A buffer is larger than any offset that the program reads, so the model
-- sets no end to it.
use native.Mathlib.Nat.{pow-suc}
use natasha.Base.{ℕ, zero, suc, ◌+◌, ◌*◌, ◌/◌, ◌%◌, ◌^◌, ◌≤◌, ◌<◌, ◌≡◌, refl, ap₂}
use natasha.Base.{◌⊎◌, arith, ltb, leb, ◌==◌, ◌&&◌, if◌then◌else◌}

abbrev pub Bytes : Type 0
Bytes = ℕ → ℕ

abbrev pub update {ℓ} : {A : Type ℓ} → (ℕ → A) → ℕ → A → ℕ → A
update f i v j = if i == j then v else f j

-- The number of `w` bytes at `p`, the lowest first
unfoldable pub load : Bytes → ℕ → ℕ → ℕ
load m p zero = 0
load m p (suc w) = m p + 256 * load m (p + 1) w

unfoldable pub store : Bytes → ℕ → ℕ → ℕ → Bytes
store m p zero v = m
store m p (suc w) v = store (update m p (v % 256)) (p + 1) w (v / 256)

-- `memset(m + p, 0, n)`
unfoldable pub zero_fill : Bytes → ℕ → ℕ → Bytes
zero_fill m p n i = if leb p i && ltb i (p + n) then 0 else m i

abbrev pub IsBytes : Bytes → Type 0
IsBytes m = (i : ℕ) → m i < 256

abbrev pub Apart : ℕ → ℕ → ℕ → ℕ → Type 0
Apart p w q v = (p + w ≤ q) ⊎ (q + v ≤ p)

-- A store changes no byte outside of its field.
pub store_frame : (m : Bytes) (p w v i : ℕ) → (i < p) ⊎ (p + w ≤ i) → store m p w v i ≡ m i
unfolding store
store_frame m p zero v i h = refl
store_frame m p (suc w) v i h =
    ground (arith, store_frame (update m p (v % 256)) (p + 1) w (v / 256) i (omega arith))

pub load_ext :
    (m n : Bytes) (p w : ℕ) → ((i : ℕ) → p ≤ i → i < p + w → m i ≡ n i) → load m p w ≡ load n p w
unfolding load
load_ext m n p zero h = refl
load_ext m n p (suc w) h =
    ap₂ (λ a b. a + 256 * b) (h p (omega arith) (omega arith))
      (load_ext m n (p + 1) w (λ i lo hi. h i (omega arith) (omega arith)))

pub load-store-Apart :
    (m : Bytes) (p w v q u : ℕ) → Apart p w q u → load (store m p w v) q u ≡ load m q u
load-store-Apart m p w v q u h = load_ext _ _ q u λ i lo hi. store_frame m p w v i (aside h lo hi)
  where
    aside : {i : ℕ} → Apart p w q u → q ≤ i → i < q + u → (i < p) ⊎ (p + w ≤ i)
    aside a lo hi = omega arith

pub load-store_self : (m : Bytes) (p w v : ℕ) → v < 256 ^ w → load (store m p w v) p w ≡ v
unfolding load store
load-store_self m p zero v h = omega arith
load-store_self m p (suc w) v h = ground (
  arith,
  store_frame (update m p (v % 256)) (p + 1) w (v / 256) p (omega arith),
  load-store_self (update m p (v % 256)) (p + 1) w (v / 256) (omega (arith, pow-suc 256 w)),
)

pub load-lt : (m : Bytes) (p w : ℕ) → IsBytes m → load m p w < 256 ^ w
unfolding load
load-lt m p zero h = omega arith
load-lt m p (suc w) h = omega (arith, h p, load-lt m (p + 1) w h, pow-suc 256 w)

pub store-IsBytes : (m : Bytes) (p w v : ℕ) → IsBytes m → IsBytes (store m p w v)
unfolding store
store-IsBytes m p zero v h = h
store-IsBytes m p (suc w) v h =
    store-IsBytes (update m p (v % 256)) (p + 1) w (v / 256) (λ i. ground (arith, h i))

pub zero_fill-IsBytes : (m : Bytes) (p n : ℕ) → IsBytes m → IsBytes (zero_fill m p n)
unfolding zero_fill
zero_fill-IsBytes m p n h i = ground (arith, h i)
