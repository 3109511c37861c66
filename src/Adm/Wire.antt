-- ===== src/Adm/Wire.antt =====
-- The numbers in the replies of src/adm.c, as a client reads them.
use natasha.Base.{ℕ, zero, suc, ◌+◌, ◌*◌, ◌^◌, ◌<◌, ◌≡◌, ap, arith}
use natasha.Base.{List, [], ◌∷◌, ◌++◌}
use mathlib.Core.List.{append_assoc}
use natasha.Word.{bswap32, bswap64}
use natasha.Core.{Stats}
use natasha.Adm.{bytes_of, app_stats_bytes}

-- the number of `w` bytes at the head of a message, the highest first, and what follows it
unfoldable pub read_be : ℕ → ℕ → List ℕ → ℕ × List ℕ
read_be zero acc l = (acc, l)
read_be (suc w) acc [] = (acc, [])
read_be (suc w) acc (x ∷ l) = read_be w (acc * 256 + x) l

-- the counters of a core at the head of a message, and what follows them
unfoldable pub read_stats : List ℕ → Stats × List ℕ
unfolding read_be
read_stats l =
    let (drop_no_rule, l1) = read_be 8 0 l in
    let (drop_nat_condition, l2) = read_be 8 0 l1 in
    let (drop_bad_l3_cksum, l3) = read_be 8 0 l2 in
    let (rx_bad_l4_cksum, l4) = read_be 8 0 l3 in
    let (drop_unknown_icmp, l5) = read_be 8 0 l4 in
    let (drop_unhandled_ethertype, l6) = read_be 8 0 l5 in
    let (drop_tx_notsent, l7) = read_be 8 0 l6 in
    (
      record {
        drop_no_rule = drop_no_rule;
        drop_nat_condition = drop_nat_condition;
        drop_bad_l3_cksum = drop_bad_l3_cksum;
        rx_bad_l4_cksum = rx_bad_l4_cksum;
        drop_unknown_icmp = drop_unknown_icmp;
        drop_unhandled_ethertype = drop_unhandled_ethertype;
        drop_tx_notsent = drop_tx_notsent;
      },
      l7,
    )

-- Every counter fits its 64 bits.
pub record IsCounters (st : Stats) : Type 0 where
  pub drop_no_rule_lt : st.drop_no_rule < 2 ^ 64
  pub drop_nat_condition_lt : st.drop_nat_condition < 2 ^ 64
  pub drop_bad_l3_cksum_lt : st.drop_bad_l3_cksum < 2 ^ 64
  pub rx_bad_l4_cksum_lt : st.rx_bad_l4_cksum < 2 ^ 64
  pub drop_unknown_icmp_lt : st.drop_unknown_icmp < 2 ^ 64
  pub drop_unhandled_ethertype_lt : st.drop_unhandled_ethertype < 2 ^ 64
  pub drop_tx_notsent_lt : st.drop_tx_notsent < 2 ^ 64

read_be-bytes_of :
    (v : ℕ) (rest : List ℕ) → v < 2 ^ 64 → read_be 8 0 (bytes_of 8 (bswap64 v) ++ rest) ≡ (v, rest)
unfolding read_be bytes_of bswap64 bswap32
read_be-bytes_of v rest h = ap (λ n. (n, rest)) (omega arith)

-- A client reads back the counters that a core has.
pub read_stats-app_stats_bytes :
    (st : Stats) (rest : List ℕ)
    → IsCounters st
    → read_stats (app_stats_bytes st ++ rest) ≡ (st, rest)
unfolding read_stats app_stats_bytes
read_stats-app_stats_bytes st rest v = simp append_assoc (
    rw (
      read_be-bytes_of st.drop_no_rule _ v.drop_no_rule_lt,
      read_be-bytes_of st.drop_nat_condition _ v.drop_nat_condition_lt,
      read_be-bytes_of st.drop_bad_l3_cksum _ v.drop_bad_l3_cksum_lt,
      read_be-bytes_of st.rx_bad_l4_cksum _ v.rx_bad_l4_cksum_lt,
      read_be-bytes_of st.drop_unknown_icmp _ v.drop_unknown_icmp_lt,
      read_be-bytes_of st.drop_unhandled_ethertype _ v.drop_unhandled_ethertype_lt,
      read_be-bytes_of st.drop_tx_notsent _ v.drop_tx_notsent_lt,
    ))
