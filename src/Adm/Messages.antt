-- ===== src/Adm/Messages.antt =====
-- The commands and the bytes of the replies of src/adm.c and src/cli.h, and the system that carries them.
use natasha.Base.{ℕ, zero, suc, ◌-◌, ◌/◌, ◌%◌, Bool, false, ℤ, pos, negsuc, minus_one}
use natasha.Base.{List, [], ◌∷◌, ◌++◌, if◌then◌else◌, ◌==◌}
use natasha.Word.{u8, bswap64}
use natasha.Core.{Stats}

-- `struct rte_eth_stats`: the counters that the code swaps, and the bytes of the others
pub record EthStats : Type 0 where
  pub ipackets : ℕ
  pub opackets : ℕ
  pub ibytes : ℕ
  pub obytes : ℕ
  pub imissed : ℕ
  pub ierrors : ℕ
  pub oerrors : ℕ
  pub rx_nombuf : ℕ
  pub queues : List ℕ

-- What the server takes from the system and from DPDK. The first argument of a call is the number
-- of calls of `send` before it.
pub record System : Type 0 where
  -- `send(fd, bytes)`: its result, the number of bytes that the socket took or -1
  pub send : ℕ → ℕ → List ℕ → ℤ
  -- the worker cores of `RTE_LCORE_FOREACH_SLAVE`, with the counters of each
  pub slaves : List ℕ
  pub stats : ℕ → Stats
  pub eth_dev_count : ℕ
  pub eth_stats_reset : ℕ → ℤ
  pub eth_stats_get : ℕ → ℤ × EthStats
  -- the result of `app_config_reload_all`, after the calls of `send` so far
  pub reload : ℕ → ℤ
  -- GIT_VERSION, without the final 0
  pub version : List ℕ
  -- what `data_size` of a reply is on the stack before the code writes to it
  pub stack : ℕ → ℕ

-- The calls of `send`, what each socket took, and whether SIGTERM was raised.
pub record Io : Type 0 where
  pub calls : ℕ
  pub out : ℕ → List ℕ
  pub sigterm : Bool

-- `enum natasha_cmd_type`
abbrev pub cmd_status : ℕ
cmd_status = 1

abbrev pub cmd_exit : ℕ
cmd_exit = 2

abbrev pub cmd_reload : ℕ
cmd_reload = 3

abbrev pub cmd_reset_stats : ℕ
cmd_reset_stats = 4

abbrev pub cmd_dpdk_stats : ℕ
cmd_dpdk_stats = 5

abbrev pub cmd_app_stats : ℕ
cmd_app_stats = 7

abbrev pub cmd_version : ℕ
cmd_version = 8

-- an `int` stored in a `uint8_t`
abbrev pub status_of : ℤ → ℕ
status_of (pos n) = u8 n
status_of (negsuc n) = 255 - u8 n

-- `if (ret) status = ret;` and `if (ret != 0) status = -1;`
abbrev pub status_after : ℕ → ℤ → ℕ
status_after status (pos zero) = status
status_after status ret = status_of ret

abbrev pub status_after_get : ℕ → ℤ → ℕ
status_after_get status (pos zero) = status
status_after_get status ret = 255

-- `nb == size`
abbrev pub is_size : ℤ → ℕ → Bool
is_size (pos n) size = n == size
is_size (negsuc n) size = false

-- 0 or -1, for whether a message was sent
abbrev pub result_of : Bool → ℤ
result_of sent = if sent then pos 0 else minus_one

-- how many bytes a call with the result `nb` took
abbrev pub taken_by : ℤ → ℕ
taken_by (pos n) = n
taken_by (negsuc n) = 0

-- the lowest byte first, as the host stores a number of `w` bytes
unfoldable pub bytes_of : ℕ → ℕ → List ℕ
bytes_of zero v = []
bytes_of (suc w) v = v % 256 ∷ bytes_of w (v / 256)

-- `struct natasha_cmd_reply`, with `data_size` as it is stored
unfoldable pub reply_bytes : ℕ → ℕ → ℕ → List ℕ
reply_bytes type status data_size = type ∷ status ∷ bytes_of 2 data_size

-- `cpu_to_be_app_stats`, as bytes
unfoldable pub app_stats_bytes : Stats → List ℕ
app_stats_bytes st =
    bytes_of 8 (bswap64 st.drop_no_rule)
    ++ (bytes_of 8 (bswap64 st.drop_nat_condition)
        ++ (bytes_of 8 (bswap64 st.drop_bad_l3_cksum)
            ++ (bytes_of 8 (bswap64 st.rx_bad_l4_cksum)
                ++ (bytes_of 8 (bswap64 st.drop_unknown_icmp)
                    ++ (bytes_of 8 (bswap64 st.drop_unhandled_ethertype)
                        ++ bytes_of 8 (bswap64 st.drop_tx_notsent))))))

-- `cpu_to_be_port_stats`, as bytes
unfoldable pub port_stats_bytes : EthStats → List ℕ
port_stats_bytes st =
    bytes_of 8 (bswap64 st.ipackets)
    ++ (bytes_of 8 (bswap64 st.opackets)
        ++ (bytes_of 8 (bswap64 st.ibytes)
            ++ (bytes_of 8 (bswap64 st.obytes)
                ++ (bytes_of 8 (bswap64 st.imissed)
                    ++ (bytes_of 8 (bswap64 st.ierrors)
                        ++ (bytes_of 8 (bswap64 st.oerrors)
                            ++ (bytes_of 8 (bswap64 st.rx_nombuf) ++ st.queues)))))))

-- the entries of `natasha_commands`, each with its function
pub data Handler : Type 0 where
  handle_cmd_status : Handler
  handle_cmd_exit : Handler
  handle_cmd_reload : Handler
  handle_cmd_reset_stats : Handler
  handle_cmd_version : Handler
  handle_cmd_dpdk_stats : Handler
  handle_cmd_app_stats : Handler

abbrev pub natasha_commands : List (ℕ × Handler)
natasha_commands =
    (cmd_status, handle_cmd_status)
    ∷ (cmd_exit, handle_cmd_exit)
    ∷ (cmd_reload, handle_cmd_reload)
    ∷ (cmd_reset_stats, handle_cmd_reset_stats)
    ∷ (cmd_version, handle_cmd_version)
    ∷ (cmd_dpdk_stats, handle_cmd_dpdk_stats)
    ∷ (cmd_app_stats, handle_cmd_app_stats)
    ∷ []
