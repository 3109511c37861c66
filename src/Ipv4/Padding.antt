-- ===== src/Ipv4/Padding.antt =====
-- What `fix_nexus9000_padding_bug` of src/ipv4.c writes: the padding behind the IPv4 packet.
use natasha.Base.{ℕ, ◌+◌, ◌^◌, ◌<◌, ◌≡◌, arith, ltb, leb, ◌&&◌, if◌then◌else◌}
use natasha.Word.{bswap16, bswap16-lt}
use natasha.Bytes.{zero_fill}
use natasha.Platform.{Mbuf}
use natasha.Packet.{get16, total_length, ether_len}
use natasha.Ipv4.{padding_len, fix_nexus9000_padding_bug}

-- For a packet of less than 2 GB, the bytes from the end of the IPv4 packet, by the total length
-- in its header, to the end of the frame are 0 after the fix, and every other byte is as it was.
pub fix_nexus9000_padding_bug_bytes :
    (m : Mbuf) (i : ℕ)
    → m.pkt_len < 2 ^ 31
    → fix_nexus9000_padding_bug m i ≡ (
        if leb (ether_len + bswap16 (get16 m.bytes total_length)) i && ltb i m.pkt_len
        then 0
        else m.bytes i)
unfolding fix_nexus9000_padding_bug padding_len zero_fill
fix_nexus9000_padding_bug_bytes m i small = ground (arith, bswap16-lt (get16 m.bytes total_length))
