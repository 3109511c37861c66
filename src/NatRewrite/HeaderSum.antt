-- ===== src/NatRewrite/HeaderSum.antt =====
-- Sums of 16-bit words, which a receiver of a packet compares modulo 65535, under the updates that
-- src/action_nat.c makes with `cksum_update`.
use natasha.Base.{ℕ, ◌+◌, ◌*◌, ◌%◌, ◌≤◌, ◌<◌, ◌≡◌, refl, subst, arith, inl, inr, zero, suc, ◌⊎◌}
use natasha.Bytes.{Bytes, IsBytes, load, load-lt}
use natasha.Checksum.{cksum_update}
use natasha.Checksum.Congruence.{cksum_update_congruence}
use natasha.Packet.{get16, get32}

-- the sum of `n` 16-bit words from an offset on, as the host reads them
unfoldable pub word_sum : Bytes → ℕ → ℕ → ℕ
word_sum b p zero = 0
word_sum b p (suc n) = get16 b p + word_sum b (p + 2) n

pub word_sum_ext :
    (b b' : Bytes) (p n : ℕ)
    → ((i : ℕ) → p ≤ i → i < p + 2 * n → b' i ≡ b i)
    → word_sum b' p n ≡ word_sum b p n
unfolding word_sum load
word_sum_ext b b' p zero same = refl
word_sum_ext b b' p (suc n) same = ground (
  arith,
  same p (omega arith) (omega arith),
  same (p + 1) (omega arith) (omega arith),
  word_sum_ext b b' (p + 2) n (λ i lo hi. same i (omega arith) (omega arith)),
)

word_sum_split :
    (b : Bytes) (p k n : ℕ) → word_sum b p (k + n) ≡ word_sum b p k + word_sum b (p + 2 * k) n
unfolding word_sum
word_sum_split b p zero n = ground arith
word_sum_split b p (suc k) n =
    let step : suc k + n ≡ suc (k + n) = omega arith in
    let shift : p + 2 * suc k ≡ p + 2 + 2 * k = omega arith in
    rw (step, shift) (omega (arith, word_sum_split b (p + 2) k n))

-- A change of `w` words in the middle changes the sum by the sum of those words.
pub word_sum_change :
    (b b' : Bytes) (p k w m at : ℕ)
    → at ≡ p + 2 * k
    → ((i : ℕ) → (i < at) ⊎ (at + 2 * w ≤ i) → b' i ≡ b i)
    → word_sum b' p (k + (w + m)) + word_sum b at w ≡ word_sum b p (k + (w + m)) + word_sum b' at w
word_sum_change b b' p k w m at here same = rw here (
    omega (
      arith,
      word_sum_split b p k (w + m),
      word_sum_split b' p k (w + m),
      word_sum_split b (p + 2 * k) w m,
      word_sum_split b' (p + 2 * k) w m,
      word_sum_ext b b' p k (λ i lo hi. same i (inl (omega arith))),
      word_sum_ext b b' (p + 2 * k + 2 * w) m (λ i lo hi. same i (inr (omega arith))),
    ))

pub load_four : (b : Bytes) (p : ℕ) → get32 b p ≡ get16 b p + 65536 * get16 b (p + 2)
unfolding load
load_four b p = ground arith

-- A change of one 32-bit word, and then of a checksum by the update for it.
pub word_sum-cksum_update :
    (b b1 b2 : Bytes) (p k m at k' m' at' n : ℕ)
    → at ≡ p + 2 * k
    → at' ≡ p + 2 * k'
    → k + (2 + m) ≡ n
    → k' + (1 + m') ≡ n
    → IsBytes b
    → IsBytes b1
    → ((i : ℕ) → (i < at) ⊎ (at + 4 ≤ i) → b1 i ≡ b i)
    → ((i : ℕ) → (i < at') ⊎ (at' + 2 ≤ i) → b2 i ≡ b1 i)
    → get16 b1 at' ≡ get16 b at'
    → get16 b2 at' ≡ cksum_update (get16 b at') (get32 b at) (get32 b1 at)
    → word_sum b2 p n % 65535 ≡ word_sum b p n % 65535
unfolding word_sum
word_sum-cksum_update b b1 b2 p k m at k' m' at' n here here' size size' wb wb1 same same' kept
      updated =
    let one : word_sum b1 p n + word_sum b at 2 ≡ word_sum b p n + word_sum b1 at 2 =
      subst (λ x. word_sum b1 p x + word_sum b at 2 ≡ word_sum b p x + word_sum b1 at 2) size
        (word_sum_change b b1 p k 2 m at here same) in
    let two : word_sum b2 p n + word_sum b1 at' 1 ≡ word_sum b1 p n + word_sum b2 at' 1 =
      subst (λ x. word_sum b2 p x + word_sum b1 at' 1 ≡ word_sum b1 p x + word_sum b2 at' 1) size'
        (word_sum_change b1 b2 p k' 1 m' at' here' same') in
    omega (
      arith,
      one,
      two,
      kept,
      updated,
      load_four b at,
      load_four b1 at,
      cksum_update_congruence (get16 b at') (get32 b at) (get32 b1 at) (load-lt b at' 2 wb)
          (load-lt b at 4 wb) (load-lt b1 at 4 wb1),
    )
