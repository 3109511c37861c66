-- ===== src/NatRewrite/Frame.antt =====
-- What `action_nat_rewrite` of src/action_nat.c leaves alone up to its switch on the protocol.
use natasha.Base.{ℕ, ◌≤◌, ◌<◌, ◌≡◌, refl, ◌∙◌, arith, inl}
use natasha.Base.{pos, some}
use natasha.Bytes.{Bytes, store_frame, load_ext}
use natasha.Packet.{get16, put32, fragment_offset, is_frag, is_first_frag}
use natasha.NatTable.{nat_lookup_ip}
use natasha.Base.{none, minus_one}
use natasha.Core.{pktmbuf_free, Core, bytes_of, put_bytes}
use natasha.NatRewrite.{lookup_and_rewrite, update_ipv4, l4_proto}

pub is_frag_ext : (b b' : Bytes) → ((i : ℕ) → i < 24 → b' i ≡ b i) → is_frag b' ≡ is_frag b
unfolding is_frag
is_frag_ext b b' h =
    let offset : get16 b' fragment_offset ≡ get16 b fragment_offset =
      load_ext b' b fragment_offset 2 (λ i lo hi. h i (omega arith)) in
    rw offset refl

pub is_first_frag_ext :
    (b b' : Bytes) → ((i : ℕ) → i < 24 → b' i ≡ b i) → is_first_frag b' ≡ is_first_frag b
unfolding is_first_frag
is_first_frag_ext b b' h =
    let offset : get16 b' fragment_offset ≡ get16 b fragment_offset =
      load_ext b' b fragment_offset 2 (λ i lo hi. h i (omega arith)) in
    rw offset refl

pub l4_proto_ext : (b b' : Bytes) → ((i : ℕ) → i < 24 → b' i ≡ b i) → l4_proto b' ≡ l4_proto b
unfolding l4_proto
l4_proto_ext b b' h = rw (is_frag_ext b b' h, h 23 (omega arith)) refl

-- The rewriting of an address and of the checksum leaves the bytes before the checksum alone.
pub rewritten_head :
    (b : Bytes) (field old v i : ℕ)
    → 26 ≤ field
    → i < 24
    → update_ipv4 field old (put32 b field v) i ≡ b i
unfolding update_ipv4
rewritten_head b field old v i far h =
    store_frame (put32 b field v) 24 2 _ i (inl h) ∙ store_frame b field 4 v i (inl (omega arith))

pub lookup_and_rewrite_found :
    (p ip field v : ℕ) (c : Core)
    → nat_lookup_ip c.app_config.nat_lookup ip ≡ some v
    → lookup_and_rewrite p ip field c ≡ (pos 0, put_bytes p (put32 (bytes_of p c) field v) c)
unfolding lookup_and_rewrite
lookup_and_rewrite_found p ip field v c found = rw (found, lookup_and_rewrite) refl

pub lookup_and_rewrite_missing :
    (p ip field : ℕ) (c : Core)
    → nat_lookup_ip c.app_config.nat_lookup ip ≡ none
    → lookup_and_rewrite p ip field c ≡ (minus_one, pktmbuf_free p c)
unfolding lookup_and_rewrite
lookup_and_rewrite_missing p ip field c missing = rw (missing, lookup_and_rewrite) refl
