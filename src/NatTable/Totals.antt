-- ===== src/NatTable/Totals.antt =====
-- The loops over the arrays of the table in src/action_nat.c that add up.
use natasha.Base.{ℕ, zero, suc, ◌+◌, ◌<◌, ◌≤◌, ◌≡◌, ◌≢◌, refl, sym, ap, ◌∙◌, arith}
use natasha.Base.{◌==◌, ==_refl, ==_ne, ==_iff, Bool-cases, inl, inr}
use natasha.Bytes.{update}

-- a loop that adds up, from `i` on
unfoldable pub total : (ℕ → ℕ) → ℕ → ℕ → ℕ
total f i zero = 0
total f i (suc rounds) = f i + total f (i + 1) rounds

total-same :
    (f g : ℕ → ℕ) (i rounds : ℕ)
    → ((j : ℕ) → i ≤ j → j < i + rounds → g j ≡ f j)
    → total g i rounds ≡ total f i rounds
unfolding total
total-same f g i zero h = refl
total-same f g i (suc rounds) h = omega (
  arith,
  h i (omega arith) (omega arith),
  total-same f g (i + 1) rounds (λ j lo hi. h j (omega arith) (omega arith)),
)

-- One term of the sum changes.
total-change :
    (f g : ℕ → ℕ) (i rounds k : ℕ)
    → i ≤ k
    → k < i + rounds
    → ((j : ℕ) → k ≢ j → g j ≡ f j)
    → total g i rounds + f k ≡ total f i rounds + g k
unfolding total
total-change f g i zero k lo hi h = absurd (omega arith)
total-change f g i (suc rounds) k lo hi h = elim (Bool-cases (i == k)) [
  | inl same ↦
      let e = (==_iff i k).0 same in
      omega (
        arith,
        total-same f g (i + 1) rounds (λ j lo' hi'. h j (λ e'. absurd (omega arith))),
        ap f e,
        ap g e,
      )
  | inr other ↦
      let ne : i ≢ k = ground arith in
      omega (
        arith,
        h i (λ e. ne (sym e)),
        total-change f g (i + 1) rounds k (omega arith) (omega arith) h,
      )
]

pub total-zero : (i rounds : ℕ) → total (λ j. 0) i rounds ≡ 0
unfolding total
total-zero i zero = refl
total-zero i (suc rounds) = omega (arith, total-zero (i + 1) rounds)

update-other {ℓ} : {A : Type ℓ} (f : ℕ → A) (i : ℕ) (v : A) (j : ℕ) → i ≢ j → update f i v j ≡ f j
update-other f i v j ne = rw (==_ne i j ne) refl

update_self {ℓ} : {A : Type ℓ} (f : ℕ → A) (i : ℕ) (v : A) → update f i v i ≡ v
update_self f i v = rw (==_refl i) refl

-- Storing in an array changes the number of what is freed at that place only.
pub total-update {ℓ} :
    {A : Type ℓ} (free : A → ℕ) (f : ℕ → A) (i : ℕ) (v : A)
    → i < 256
    → total (λ j. free (update f i v j)) 0 256 + free (f i) ≡ total (λ j. free (f j)) 0 256 + free v
total-update free f i v h =
    total-change (λ j. free (f j)) (λ j. free (update f i v j)) 0 256 i (omega arith) (omega arith)
      (λ j ne. ap free (update-other f i v j ne))
    ∙ ap (λ w. total (λ j. free (f j)) 0 256 + free w) (update_self f i v)
