-- ===== src/Arp/Reply.antt =====
-- What `arp_request` of src/arp.c answers.
use natasha.Base.{ℕ, ◌+◌, ◌^◌, ◌<◌, ◌≡◌, ◌∙◌, arith, ◌⊎◌, ◌≤◌}
use natasha.Word.{bswap16, bswap32, bswap16-lt, bswap32-lt, bswap32-bswap32}
use natasha.Bytes.{Bytes, IsBytes, load, load-store-Apart, load-store_self, load-lt, store-IsBytes}
use natasha.Packet.{
  get16, get32, put16, put32, get_ether, put_ether, d_addr, s_addr, arp_op, arp_sha, arp_sip,
  arp_tha, arp_tip,
}
use natasha.Arp.{forge_reply, arp_op_reply}

-- `b'` answers the request `b` for a port with the address `mac`.
pub record IsReply (mac : ℕ) (b b' : Bytes) : Type 0 where
  pub operation : get16 b' arp_op ≡ bswap16 arp_op_reply
  pub to_ether : get_ether b' d_addr ≡ get_ether b s_addr
  pub from_ether : get_ether b' s_addr ≡ mac
  pub target_ether : get_ether b' arp_tha ≡ get_ether b arp_sha
  pub sender_ether : get_ether b' arp_sha ≡ mac
  pub target_ip : get32 b' arp_tip ≡ get32 b arp_sip
  pub sender_ip : get32 b' arp_sip ≡ get32 b arp_tip

module _ (mac : ℕ) (small : mac < 256 ^ 6) (b : Bytes) (wb : IsBytes b) where
  abbrev b1 : Bytes
  b1 = put16 b arp_op (bswap16 arp_op_reply)

  abbrev b2 : Bytes
  b2 = put_ether b1 d_addr (get_ether b1 s_addr)

  abbrev b3 : Bytes
  b3 = put_ether b2 s_addr mac

  abbrev b4 : Bytes
  b4 = put_ether b3 arp_tha (get_ether b3 arp_sha)

  abbrev b5 : Bytes
  b5 = put_ether b4 arp_sha mac

  abbrev b6 : Bytes
  b6 = put32 b5 arp_tip (bswap32 (bswap32 (get32 b arp_sip)))

  wb1 : IsBytes b1
  wb1 = store-IsBytes b arp_op 2 _ wb

  wb3 : IsBytes b3
  wb3 = store-IsBytes b2 s_addr 6 _ (store-IsBytes b1 d_addr 6 _ wb1)

  -- A field that the last three stores do not touch.
  past_last :
      (q u : ℕ)
      → (28 ≤ q) ⊎ (q + u ≤ 22)
      → (42 ≤ q) ⊎ (q + u ≤ 38)
      → (32 ≤ q) ⊎ (q + u ≤ 28)
      → load (forge_reply mac b) q u ≡ load b4 q u
  unfolding forge_reply
  past_last q u h5 h6 h7 =
      load-store-Apart b6 28 4 _ q u (omega arith)
      ∙ load-store-Apart b5 38 4 _ q u (omega arith)
      ∙ load-store-Apart b4 22 6 _ q u (omega arith)

  -- For a port's Ethernet address of 48 bits and a request whose bytes are below 256: the reply
  -- has the operation of a reply, goes to the Ethernet address that the request came from, has the
  -- port's address as its source and as the sender's, names the sender of the request as its
  -- target, and has the address that was asked for as the sender's.
  pub forge_reply-IsReply : IsReply mac b (forge_reply mac b)
  unfolding forge_reply
  forge_reply-IsReply = record {
    operation =
        past_last 20 2 (omega arith) (omega arith) (omega arith)
        ∙ load-store-Apart b3 32 6 _ 20 2 (omega arith)
        ∙ load-store-Apart b2 6 6 _ 20 2 (omega arith)
        ∙ load-store-Apart b1 0 6 _ 20 2 (omega arith)
        ∙ load-store_self b 20 2 _ (bswap16-lt arp_op_reply);
    to_ether =
        past_last 0 6 (omega arith) (omega arith) (omega arith)
        ∙ load-store-Apart b3 32 6 _ 0 6 (omega arith)
        ∙ load-store-Apart b2 6 6 _ 0 6 (omega arith)
        ∙ load-store_self b1 0 6 _ (load-lt b1 6 6 wb1)
        ∙ load-store-Apart b 20 2 _ 6 6 (omega arith);
    from_ether =
        past_last 6 6 (omega arith) (omega arith) (omega arith)
        ∙ load-store-Apart b3 32 6 _ 6 6 (omega arith)
        ∙ load-store_self b2 6 6 mac small;
    target_ether =
        past_last 32 6 (omega arith) (omega arith) (omega arith)
        ∙ load-store_self b3 32 6 _ (load-lt b3 22 6 wb3)
        ∙ load-store-Apart b2 6 6 _ 22 6 (omega arith)
        ∙ load-store-Apart b1 0 6 _ 22 6 (omega arith)
        ∙ load-store-Apart b 20 2 _ 22 6 (omega arith);
    sender_ether =
        load-store-Apart b6 28 4 _ 22 6 (omega arith)
        ∙ load-store-Apart b5 38 4 _ 22 6 (omega arith)
        ∙ load-store_self b4 22 6 mac small;
    target_ip =
        load-store-Apart b6 28 4 _ 38 4 (omega arith)
        ∙ load-store_self b5 38 4 _ (bswap32-lt (bswap32 (get32 b arp_sip)))
        ∙ bswap32-bswap32 (get32 b arp_sip) (load-lt b 28 4 wb);
    sender_ip =
        load-store_self b6 28 4 _ (bswap32-lt (bswap32 (get32 b arp_tip)))
        ∙ bswap32-bswap32 (get32 b arp_tip) (load-lt b 38 4 wb);
  }
