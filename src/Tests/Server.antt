-- ===== src/Tests/Server.antt =====
-- A server with two worker cores, whose sockets take all that they are given.
use natasha.Base.{ℕ, ◌%◌, ◌≡◌, ◌≢◌, refl, ap, arith, true, false, ℤ, pos, negsuc}
use natasha.Base.{[], ◌∷◌, length, ◌==◌}
use natasha.Core.{Stats}
use natasha.Adm.{System, Io, EthStats, handle_client_query, cmd_app_stats, cmd_exit}
use natasha.Adm.Wire.{IsCounters}
use natasha.Adm.Protocol.{Answers, handle_client_query-Answers}
use natasha.Adm.Session.{read_cores, cores_bytes, app_stats_session}
use natasha.Adm.Slots.{Events}
use natasha.Adm.Listen.{SocketCalls, adm_server, IsClean, adm_server-IsClean}

abbrev stats_of : ℕ → Stats
stats_of core = record {
  drop_no_rule = core % 256;
  drop_nat_condition = 300;
  drop_bad_l3_cksum = 0;
  rx_bad_l4_cksum = 0;
  drop_unknown_icmp = 5;
  drop_unhandled_ethertype = 0;
  drop_tx_notsent = 70000;
}

abbrev no_stats : EthStats
no_stats = record {
  ipackets = 0;
  opackets = 0;
  ibytes = 0;
  obytes = 0;
  imissed = 0;
  ierrors = 0;
  oerrors = 0;
  rx_nombuf = 0;
  queues = [];
}

abbrev sys : System
sys = record {
  send = λ calls fd l. pos (length l);
  slaves = 1 ∷ 2 ∷ [];
  stats = stats_of;
  eth_dev_count = 2;
  eth_stats_reset = λ port. pos 0;
  eth_stats_get = λ port. (pos 0, no_stats);
  reload = λ calls. pos 0;
  version = 118 ∷ 49 ∷ [];
  stack = λ calls. 0;
}

abbrev io : Io
io = record { calls = 0; out = λ fd. []; sigterm = false }

handle_client_query-Answers_example : Answers 7 cmd_exit io (handle_client_query sys 7 cmd_exit io)
handle_client_query-Answers_example = handle_client_query-Answers sys 7 cmd_exit io

stats_of-IsCounters : (core : ℕ) → IsCounters (stats_of core)
stats_of-IsCounters core = record {
  drop_no_rule_lt = omega arith;
  drop_nat_condition_lt = omega arith;
  drop_bad_l3_cksum_lt = omega arith;
  rx_bad_l4_cksum_lt = omega arith;
  drop_unknown_icmp_lt = omega arith;
  drop_unhandled_ethertype_lt = omega arith;
  drop_tx_notsent_lt = omega arith;
}

app_stats_session_example :
    let (ret, io') = handle_client_query sys 7 cmd_app_stats io in
    let follows = cores_bytes sys (1 ∷ 2 ∷ []) in
    (ret ≡ pos 0)
    × (io'.out 7 ≡ cmd_app_stats ∷ 0 ∷ 0 ∷ 114 ∷ follows)
    × (read_cores 2 follows ≡ (1, stats_of 1) ∷ (2, stats_of 2) ∷ [])
unfolding cores_bytes natasha.Adm.app_stats_bytes natasha.Adm.bytes_of
app_stats_session_example =
    app_stats_session sys (λ calls fd l. refl) 7 io (omega arith)
      (omega arith, stats_of-IsCounters 1, (omega arith, stats_of-IsCounters 2, tt))

-- a client connects on descriptor 5, asks for the end, and leaves
abbrev connects : Events
connects = record {
  select = pos 1;
  interrupted = false;
  ready = λ fd. fd == 4;
  running = λ core. true;
  accept = pos 5;
  fcntl = pos 0;
  read = λ fd. (pos 0, 0);
}

abbrev asks : Events
asks = record connects { ready = λ fd. fd == 5; read = λ fd. (pos 1, cmd_exit) }

abbrev leaves : Events
leaves = record connects { ready = λ fd. fd == 5 }

abbrev calls : SocketCalls
calls = record { socket = pos 4; setsockopt = pos 0; fcntl = pos 0; bind = pos 0; listen = pos 0 }

pos-ne : (n : ℕ) → n ≢ 0 → pos n ≢ pos 0
pos-ne n h e = h (ap number e)
  where
    number : ℤ → ℕ
    number (pos m) = m
    number (negsuc m) = 0

nonzero : pos 5 ≢ pos 0
nonzero = pos-ne 5 (omega arith)

adm_server-IsClean_example :
    IsClean (4 ∷ []) (adm_server sys calls (connects ∷ asks ∷ leaves ∷ []) io)
adm_server-IsClean_example =
    adm_server-IsClean sys calls (connects ∷ asks ∷ leaves ∷ []) io (λ e. pos-ne 4 (omega arith) e)
      (nonzero, (nonzero, (nonzero, tt)))
