-- ===== src/Rules/Outcome.antt =====
-- What the rules of src/ipv4.c come to: they go on, or an action has ended them.
use natasha.Base.{ℕ, ℤ, pos, negsuc, minus_one, ◌≡◌, ◌⊎◌, inl, inr, ◌≢◌, refl, ap, sym, arith}
use natasha.Config.{Node, null, seq}
use natasha.Core.{Core}
use natasha.NatRewrite.{lookup_and_rewrite}
use natasha.Parse.{build_sequence}

-- Either the rules go on, or a breaking action has ended them.
pub data Outcome : Type 0 where
  go_on : Core → Outcome
  stop : Core → Outcome

-- as a result of the C functions
abbrev pub result : Outcome → ℤ × Core
result (go_on c) = (pos 0, c)
result (stop c) = (minus_one, c)

abbrev pub outcome : ℤ × Core → Outcome
outcome (pos n, c) = go_on c
outcome (negsuc n, c) = stop c

abbrev pub and_then : Outcome → (Core → Outcome) → Outcome
and_then (go_on c) f = f c
and_then (stop c) f = stop c

pub pos_ne_negsuc : {m n : ℕ} → pos m ≢ negsuc n
pos_ne_negsuc h = cc

-- `build_sequence` leaves out an empty side.
pub build_sequence_cases :
    (l r : Node)
    → ((l ≡ null) × (build_sequence l r ≡ r))
      ⊎ (((r ≡ null) × (build_sequence l r ≡ l)) ⊎ (build_sequence l r ≡ seq l r))
unfolding build_sequence
build_sequence_cases null r = inl (refl, refl)
build_sequence_cases l null = inr (inl (refl, refl))
build_sequence_cases l r = inr (inr refl)

pub lookup_and_rewrite-result :
    (p ip field : ℕ) (c : Core)
    → lookup_and_rewrite p ip field c ≡ result (outcome (lookup_and_rewrite p ip field c))
unfolding lookup_and_rewrite
lookup_and_rewrite-result p ip field c = ground arith

pub result-eq-go_on :
    (o : Outcome) (c : Core) → ◌≡◌ {A = ℤ × Core} (pos 0, c) (result o) → o ≡ go_on c
result-eq-go_on (go_on c1) c h = ap (λ (r : ℤ × Core). go_on r.1) (sym h)
result-eq-go_on (stop c1) c h = absurd (pos_ne_negsuc (ap (λ (r : ℤ × Core). r.0) h))

pub and_then_go_on :
    (o : Outcome) (g : Core → Outcome) → ((c : Core) → g c ≡ go_on c) → and_then o g ≡ o
and_then_go_on (go_on c) g h = h c
and_then_go_on (stop c) g h = refl
