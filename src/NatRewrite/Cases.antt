-- ===== src/NatRewrite/Cases.antt =====
-- The cases TCP, UDP and UDP-Lite of the switch in `action_nat_rewrite_impl` of src/action_nat.c.
use natasha.Base.{
  ℕ, ◌+◌, ◌%◌, ◌^◌, ◌≤◌, ◌<◌, ◌≡◌, ◌⊎◌, inl, inr, refl, ap, ◌∙◌, arith, Bool, true, false,
  if◌then◌else◌, ◌==◌, ◌||◌, bit_or,
}
use natasha.Bytes.{Bytes, IsBytes, store_frame, load_ext, load-store_self}
use natasha.Platform.{Platform, Mbuf}
use natasha.Packet.{get16, put16, next_proto_id, tcp_cksum, dgram_cksum, is_frag, is_first_frag}
use natasha.Checksum.{cksum_update}
use natasha.NatRewrite.{update_l4, l4_proto, ipproto_tcp, ipproto_udp, ipproto_udplite}
use natasha.NatRewrite.Sums.{put16-cksum_update}

-- The bytes behind the IPv4 header are the same but for the two of the checksum at `at`.
abbrev pub SameData : ℕ → Mbuf → Mbuf → Type 0
SameData at m m' = (i : ℕ) → 34 ≤ i → (i < at) ⊎ (at + 2 ≤ i) → m'.bytes i ≡ m.bytes i

-- The checksum at `at` stays; or it is right for the address `new` if it was right for `old`, as the
-- complement of a checksum counts as the sum of the words that it covers; or it is left to the
-- device. Only the last sets a flag.
abbrev pub Maintains : Bool → Bool → ℕ → ℕ → ℕ → ℕ → Mbuf → Mbuf → Type 0
Maintains keeps first at flag old new m m' =
    if keeps
    then (get16 m'.bytes at ≡ get16 m.bytes at) × (m'.ol_flags ≡ m.ol_flags)
    else if first
    then ((get16 m'.bytes at + new) % 65535 ≡ (get16 m.bytes at + old) % 65535)
      × (m'.ol_flags ≡ m.ol_flags)
    else (get16 m'.bytes at ≡ 0) × (m'.ol_flags ≡ bit_or m.ol_flags flag)

abbrev pub Carries : Bool → Bool → ℕ → ℕ → ℕ → ℕ → Mbuf → Mbuf → Type 0
Carries keeps first at flag old new m m' =
    SameData at m m' × Maintains keeps first at flag old new m m'

Maintains-from :
    (keeps first : Bool) (at flag old new : ℕ) (m1 m m' : Mbuf)
    → get16 m1.bytes at ≡ get16 m.bytes at
    → m1.ol_flags ≡ m.ol_flags
    → Maintains keeps first at flag old new m1 m'
    → Maintains keeps first at flag old new m m'
Maintains-from true first at flag old new m1 m m' same flags (a, b) = (a ∙ same, b ∙ flags)
Maintains-from false true at flag old new m1 m m' same flags (a, b) =
    (a ∙ ap (λ n. (n + old) % 65535) same, b ∙ flags)
Maintains-from false false at flag old new m1 m m' same flags (a, b) =
    (a, b ∙ ap (λ n. bit_or n flag) flags)

-- the packet when only its header is rewritten
pub Carries-from :
    (keeps first : Bool) (at flag old new : ℕ) (m m' : Mbuf) (b : Bytes)
    → 34 ≤ at
    → ((i : ℕ) → 34 ≤ i → b i ≡ m.bytes i)
    → Carries keeps first at flag old new (record m { bytes = b }) m'
    → Carries keeps first at flag old new m m'
Carries-from keeps first at flag old new m m' b far tail (frame, cksum) = (
  λ i h aside. frame i h aside ∙ tail i h,
  Maintains-from keeps first at flag old new (record m { bytes = b }) m m'
      (load_ext b m.bytes at 2 (λ i lo hi. tail i (omega arith))) refl cksum,
)

module _ (e : Platform) (old new : ℕ) (ho : old < 2 ^ 32) (hn : new < 2 ^ 32) (m : Mbuf)
    (wb : IsBytes m.bytes) where
  kept : (at flag : ℕ) (first : Bool) → Carries true first at flag old new m m
  kept at flag first = (λ i h aside. refl, (refl, refl))

  updated :
      (at flag : ℕ)
      → Carries false true at flag old new m
          (record m { bytes = put16 m.bytes at (cksum_update (get16 m.bytes at) old new) })
  updated at flag = (
    λ i h aside. store_frame m.bytes at 2 _ i aside,
    (put16-cksum_update m.bytes at old new wb ho hn, refl),
  )

  offloaded :
      (at flag : ℕ)
      → Carries false false at flag old new m
          (record m { bytes = put16 m.bytes at 0; ol_flags = bit_or m.ol_flags flag })
  offloaded at flag = (
    λ i h aside. store_frame m.bytes at 2 0 i aside,
    (load-store_self m.bytes at 2 0 (omega arith), refl),
  )

  pub update_l4_tcp :
      (frag first : Bool)
      → is_frag m.bytes ≡ frag
      → is_first_frag m.bytes ≡ first
      → m.bytes next_proto_id ≡ ipproto_tcp
      → Carries frag first tcp_cksum e.pkt_tx_tcp_cksum old new m (update_l4 e old new m)
  unfolding update_l4 l4_proto
  update_l4_tcp true first hf hs tcp = rw hf (kept tcp_cksum e.pkt_tx_tcp_cksum first)
  update_l4_tcp false true hf hs tcp = rw (hf, tcp, hs) (updated tcp_cksum e.pkt_tx_tcp_cksum)
  update_l4_tcp false false hf hs tcp = rw (hf, tcp, hs) (offloaded tcp_cksum e.pkt_tx_tcp_cksum)

  pub update_l4_udp :
      (frag missing first : Bool)
      → is_frag m.bytes ≡ frag
      → (get16 m.bytes dgram_cksum == 0) ≡ missing
      → is_first_frag m.bytes ≡ first
      → (m.bytes next_proto_id ≡ ipproto_udp) ⊎ (m.bytes next_proto_id ≡ ipproto_udplite)
      → Carries
          (frag || missing)
          first
          dgram_cksum
          e.pkt_tx_udp_cksum
          old
          new
          m
          (update_l4 e old new m)
  unfolding update_l4 l4_proto
  update_l4_udp true missing first hf hm hs udp = rw hf (kept dgram_cksum e.pkt_tx_udp_cksum first)
  update_l4_udp false true first hf hm hs (inl udp) =
      rw (hf, udp, hm) (kept dgram_cksum e.pkt_tx_udp_cksum first)
  update_l4_udp false true first hf hm hs (inr udp) =
      rw (hf, udp, hm) (kept dgram_cksum e.pkt_tx_udp_cksum first)
  update_l4_udp false false true hf hm hs (inl udp) =
      rw (hf, udp, hm, hs) (updated dgram_cksum e.pkt_tx_udp_cksum)
  update_l4_udp false false true hf hm hs (inr udp) =
      rw (hf, udp, hm, hs) (updated dgram_cksum e.pkt_tx_udp_cksum)
  update_l4_udp false false false hf hm hs (inl udp) =
      rw (hf, udp, hm, hs) (offloaded dgram_cksum e.pkt_tx_udp_cksum)
  update_l4_udp false false false hf hm hs (inr udp) =
      rw (hf, udp, hm, hs) (offloaded dgram_cksum e.pkt_tx_udp_cksum)
