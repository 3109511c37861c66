-- ===== src/Lib.antt =====
-- natasha, a stateless NAT on DPDK.
--
-- A worker (src/core.c, `main_loop`) polls the ports of the machine. Each packet goes through
-- `dispatch_packet` to the ARP or the IPv4 input. The IPv4 input answers pings to the program's own
-- addresses and walks the tree of rules of the configuration for everything else; a rule translates
-- an address with the NAT table, sends the packet to a port, or drops it. Packets that are sent wait
-- in a queue of 32 per port, which is flushed when it is full and at the end of each round. The
-- master core sets up the ports, launches the workers and then runs the administration server,
-- which answers its clients with the counters of the workers and on request reloads the
-- configuration.
--
-- Where the program's parts are modelled:
-- - Base, Word, Bytes: numbers of fixed width with their wrap-around, and the bytes of a packet
--   with little-endian access to fields.
-- - Platform: DPDK, the devices and the compiler, as a record that every definition using them
--   takes as an argument. The number of device calls so far is an argument of each device
--   operation.
-- - Packet, Checksum: src/network_headers.h, the header fields and `cksum_update`.
-- - Config, Core: the structures of src/natasha.h. `Core` is the state of a worker: its queues
--   and counters, the packets in memory by address, and what was freed and sent.
-- - NatTable: the lookup table of src/action_nat.c, with the loading of rules (Load) and
--   `nat_iter` (Iter). NatRewrite: `action_nat_rewrite` with every checksum that it updates.
-- - TxQueue, Ports: src/pkt.c. Arp: src/arp.c. Ipv4: src/ipv4.c without its rules.
-- - Cond: src/cond_network.c and src/cond_vlan.c. Parse: the semantic actions of
--   src/parseconfig.y for the rules. Rules: src/action_drop.c, src/action_out.c,
--   src/action_log.c (Print) and `process_rules` of src/ipv4.c.
-- - Dispatch: `dispatch_packet`, `handle_port` and one round of `main_loop` of src/core.c; Loop
--   has any number of rounds.
-- - Reload: the switch of configurations in src/config.c against the loop of the worker, as
--   steps.
-- - Adm: src/adm.c, with its replies in Messages. Wire has the counters as a client reads them,
--   Slots one round of `adm_loop` with the client slots, Listen the socket of `adm_server`. The
--   results of the calls of the system are arguments; a list of events stands for the rounds of
--   the endless loop.
-- - Startup: `setup_queues` and `setup_port` of src/core.c; App has `check_ports_link_status`,
--   `setup_app`, `run_workers`, `natasha_exit` and `main`. The state has the calls of DPDK so
--   far, and the result of a call depends on them (Device); Plan has the calls that are meant,
--   without the code's tests.
-- - Memory: the calls of the allocator in src/parseconfig.y, and `app_config_free` of
--   src/config.c; Load has the items of a file, the phrases that a syntax error leaves
--   unfinished, and `app_config_load`, whose arguments and files are parameters. Blocks are
--   counted, as in NatTable/Reset those of the lookup table; Lost says which ones nothing frees.
--   Reload/Sequence is `app_config_reload_all` from the master's side.
-- - Tests: a small configuration, with the theorems applied to it.
--
-- A handler takes the address of its packet and the state, and returns the result of the C function
-- with the state after it. Writes to a packet are writes to the memory at its address, so that two
-- names of one packet see each other's writes. The loops over ports and over the arrays of the table
-- recurse on the rounds that are left, which is the bound of the loop less its counter, so no fuel
-- can run out; `is_natasha_ip` has three rounds, as the third ends or reads behind the array of the
-- ports, after which its result is a parameter. The endless loops of the worker and of the server
-- are modelled one round at a time, and over lists of rounds of any length.
--
-- The bytes of a packet have no end in the model, as the code reads and writes its headers without
-- a test of the length; only the padding fix computes a bound. Multi-segment buffers are not
-- modelled. The IPv4 header is taken to be 20 bytes long, as in the code.
--
-- Not modelled: the lexer and the scanner that is generated from it, so that a file is the list of
-- its items up to the end or an error, with what the parser then holds of an unfinished one; the
-- printing of NAT rules and all logging but that of `action_print`; `sigterm_handler`; the
-- initialisation of DPDK in `main`. Of `struct rte_eth_conf` only the fields that depend on the
-- configuration are modelled.
pub mod Base
pub mod Word
pub mod Bytes
pub mod Checksum
pub mod Platform
pub mod Packet
pub mod NatTable
pub mod Config
pub mod Core
pub mod TxQueue
pub mod Ports
pub mod Cond
pub mod NatRewrite
pub mod Rules
pub mod Parse
pub mod Arp
pub mod Ipv4
pub mod Dispatch
pub mod Reload
pub mod Adm
pub mod Startup
pub mod Memory
pub mod Tests
