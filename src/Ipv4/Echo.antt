-- ===== src/Ipv4/Echo.antt =====
-- What `icmp_echo` of src/ipv4.c answers.
use natasha.Base.{ℕ, ◌+◌, ◌<◌, ◌≤◌, ◌≡◌, ◌⊎◌, ◌∙◌, arith}
use natasha.Bytes.{
  Bytes, IsBytes, load, update, load_ext, store_frame, load-store-Apart, load-store_self, load-lt,
  store-IsBytes,
}
use natasha.Platform.{Platform}
use natasha.Packet.{
  get32, put32, get_ether, put_ether, d_addr, s_addr, src_addr, dst_addr, icmp_type,
}
use natasha.Ipv4.{echo_reply, icmp_echo_reply}

-- `b'` goes back the way that `b` came, as an echo reply.
pub record IsEcho (b b' : Bytes) : Type 0 where
  pub type : b' icmp_type ≡ icmp_echo_reply
  pub to_ether : get_ether b' d_addr ≡ get_ether b s_addr
  pub from_ether : get_ether b' s_addr ≡ get_ether b d_addr
  pub to_ip : get32 b' dst_addr ≡ get32 b src_addr
  pub from_ip : get32 b' src_addr ≡ get32 b dst_addr
  -- the identifier, the sequence number and what follows
  pub payload : (i : ℕ) → 38 ≤ i → b' i ≡ b i

module _ (b : Bytes) (wb : IsBytes b) where
  abbrev b1 : Bytes
  b1 = update b icmp_type icmp_echo_reply

  abbrev b2 : Bytes
  b2 = put_ether b1 s_addr (get_ether b1 d_addr)

  abbrev b3 : Bytes
  b3 = put_ether b2 d_addr (get_ether b1 s_addr)

  abbrev b4 : Bytes
  b4 = put32 b3 src_addr (get32 b3 dst_addr)

  abbrev b5 : Bytes
  b5 = put32 b4 dst_addr (get32 b3 src_addr)

  wb1 : IsBytes b1
  wb1 i = ground (arith, wb i)

  wb3 : IsBytes b3
  wb3 = store-IsBytes b2 d_addr 6 _ (store-IsBytes b1 s_addr 6 _ wb1)

  -- The type is apart from the other fields.
  first : (q u : ℕ) → (35 ≤ q) ⊎ (q + u ≤ 34) → load b1 q u ≡ load b q u
  first q u h = load_ext b1 b q u (λ i lo hi. ground arith)

  -- So are the checksums that are written last.
  last :
      (e : Platform) (q u : ℕ)
      → (q + u ≤ 24) ⊎ (26 ≤ q)
      → (q + u ≤ 36) ⊎ (38 ≤ q)
      → load (echo_reply e b) q u ≡ load b5 q u
  unfolding echo_reply
  last e q u h k =
      load-store-Apart _ 36 2 _ q u (omega arith)
      ∙ load-store-Apart _ 36 2 _ q u (omega arith)
      ∙ load-store-Apart _ 24 2 _ q u (omega arith)
      ∙ load-store-Apart _ 24 2 _ q u (omega arith)

  -- Behind the IPv4 header only the type and the ICMP checksum are written.
  behind : (e : Platform) (i : ℕ) → 34 ≤ i → (i < 36) ⊎ (38 ≤ i) → echo_reply e b i ≡ b1 i
  unfolding echo_reply
  behind e i h k =
      store_frame _ 36 2 _ i k
      ∙ store_frame _ 36 2 _ i k
      ∙ store_frame _ 24 2 _ i (omega arith)
      ∙ store_frame _ 24 2 _ i (omega arith)
      ∙ store_frame b4 30 4 _ i (omega arith)
      ∙ store_frame b3 26 4 _ i (omega arith)
      ∙ store_frame b2 0 6 _ i (omega arith)
      ∙ store_frame b1 6 6 _ i (omega arith)

  -- For a request whose bytes are below 256: the reply has the type of an echo reply, the two
  -- addresses of the Ethernet header and those of the IPv4 header are exchanged, and the
  -- identifier, the sequence number and the data are those of the request.
  pub echo_reply-IsEcho : (e : Platform) → IsEcho b (echo_reply e b)
  echo_reply-IsEcho e = record {
    type = behind e 34 (omega arith) (omega arith);
    to_ether =
        last e 0 6 (omega arith) (omega arith)
        ∙ load-store-Apart b4 30 4 _ 0 6 (omega arith)
        ∙ load-store-Apart b3 26 4 _ 0 6 (omega arith)
        ∙ load-store_self b2 0 6 _ (load-lt b1 6 6 wb1)
        ∙ first 6 6 (omega arith);
    from_ether =
        last e 6 6 (omega arith) (omega arith)
        ∙ load-store-Apart b4 30 4 _ 6 6 (omega arith)
        ∙ load-store-Apart b3 26 4 _ 6 6 (omega arith)
        ∙ load-store-Apart b2 0 6 _ 6 6 (omega arith)
        ∙ load-store_self b1 6 6 _ (load-lt b1 0 6 wb1)
        ∙ first 0 6 (omega arith);
    to_ip =
        last e 30 4 (omega arith) (omega arith)
        ∙ load-store_self b4 30 4 _ (load-lt b3 26 4 wb3)
        ∙ load-store-Apart b2 0 6 _ 26 4 (omega arith)
        ∙ load-store-Apart b1 6 6 _ 26 4 (omega arith)
        ∙ first 26 4 (omega arith);
    from_ip =
        last e 26 4 (omega arith) (omega arith)
        ∙ load-store-Apart b4 30 4 _ 26 4 (omega arith)
        ∙ load-store_self b3 26 4 _ (load-lt b3 30 4 wb3)
        ∙ load-store-Apart b2 0 6 _ 30 4 (omega arith)
        ∙ load-store-Apart b1 6 6 _ 30 4 (omega arith)
        ∙ first 30 4 (omega arith);
    payload = λ i far. behind e i (omega arith) (omega arith) ∙ ground arith;
  }
