-- ===== src/Tests/Parts.antt =====
-- The theorems on the conditions, the answers and the addresses at concrete packets.
use natasha.Base.{◌+◌, ◌-◌, ◌/◌, ◌^◌, ◌≡◌, ◌↔◌, arith, true, ltb, leb, ◌&&◌, if◌then◌else◌}
use natasha.Word.{bswap16}
use natasha.Packet.{get16, total_length}
use natasha.Cond.{ipv4_in_network}
use natasha.Cond.Network.{ipv4_in_network_iff}
use natasha.Arp.{forge_reply}
use natasha.Arp.Reply.{IsReply, forge_reply-IsReply}
use natasha.Ipv4.{fix_nexus9000_padding_bug, echo_reply}
use natasha.Ipv4.Echo.{IsEcho, echo_reply-IsEcho}
use natasha.Ipv4.Padding.{fix_nexus9000_padding_bug_bytes}
use natasha.Ports.{is_natasha_ip}
use natasha.Ports.Members.{Owns, is_natasha_ip_iff}
use natasha.Tests.{inside, test_platform, test_core, test_mbuf, error_bytes, test_packet-IsBytes}

ipv4_in_network_iff_example :
    (ipv4_in_network test_platform inside (record { ip = 0x0a000000; mask = 8 }) ≡ true)
    ↔ (inside / 2 ^ (32 - 8) ≡ 0x0a000000 / 2 ^ (32 - 8))
ipv4_in_network_iff_example =
    ipv4_in_network_iff test_platform inside (record { ip = 0x0a000000; mask = 8 }) (omega arith)
      (omega arith) (omega arith) (omega arith)

forge_reply-IsReply_example : IsReply 5 error_bytes (forge_reply 5 error_bytes)
forge_reply-IsReply_example = forge_reply-IsReply 5 (omega arith) error_bytes test_packet-IsBytes

fix_nexus9000_padding_bug_bytes_example : fix_nexus9000_padding_bug (test_mbuf error_bytes) 97 ≡ (
    if leb (14 + bswap16 (get16 error_bytes total_length)) 97 && ltb 97 98
    then 0
    else error_bytes 97)
fix_nexus9000_padding_bug_bytes_example =
    fix_nexus9000_padding_bug_bytes (test_mbuf error_bytes) 97 (omega arith)

is_natasha_ip_iff_example :
    (is_natasha_ip test_platform test_core.app_config 0x0a0000fe 0 ≡ true)
    ↔ Owns test_core.app_config 0x0a0000fe 0 0 2
is_natasha_ip_iff_example =
    is_natasha_ip_iff test_platform test_core.app_config 0x0a0000fe 0 (omega arith)

echo_reply-IsEcho_example : IsEcho error_bytes (echo_reply test_platform error_bytes)
echo_reply-IsEcho_example = echo_reply-IsEcho error_bytes test_packet-IsBytes test_platform
