-- ===== src/Adm.antt =====
-- The administration server of src/adm.c: the replies to the commands of a client.
pub mod Wire
pub mod Protocol
pub mod Session
pub mod Slots
pub mod Places
pub mod Descriptors
pub mod Listen
mod Messages
unfoldable pub use Messages.*
use natasha.Base.{
  ℕ, zero, suc, ◌+◌, ◌-◌, ◌*◌, ◌/◌, ◌%◌, ◌^◌, Bool, true, false, ℤ, pos, negsuc, minus_one,
}
use natasha.Base.{List, [], ◌∷◌, ◌++◌, length, take, if◌then◌else◌, ◌==◌, not}
use natasha.Word.{u8, u16, bswap16, bswap64}
use natasha.Bytes.{update}
use natasha.Core.{Stats}

module _ (s : System) where
  -- `nb = send(fd, ...); if (nb != size) return -1;`, with whether the code goes on
  unfoldable pub send_bytes : ℕ → List ℕ → Io → Bool × Io
  send_bytes fd l io =
      let nb = s.send io.calls fd l in
      (
        is_size nb (length l),
        record io {
          calls = io.calls + 1;
          out = update io.out fd (io.out fd ++ take (taken_by nb) l);
        },
      )

  -- two messages, the second if the first was sent whole
  unfoldable pub send_both : ℕ → List ℕ → List ℕ → Io → Bool × Io
  send_both fd l l' io =
      let (sent, io1) = send_bytes fd l io in
      let (sent', io2) = send_bytes fd l' io1 in if sent then (sent', io2) else (false, io1)

  -- `for (port = 0; ...) if ((ret = rte_eth_stats_reset(port))) reply.status = ret;`
  unfoldable pub reset_status : ℕ → ℕ → ℕ → ℕ
  reset_status port zero status = status
  reset_status port (suc rounds) status =
      reset_status (port + 1) rounds (status_after status (s.eth_stats_reset port))

  -- the loop over the ports of `handle_cmd_dpdk_stats`, with the array that it fills
  unfoldable pub get_stats : ℕ → ℕ → ℕ → ℕ × List ℕ
  get_stats port zero status = (status, [])
  get_stats port (suc rounds) status =
      let (ret, st) = s.eth_stats_get port in
      let (status', bytes) = get_stats (port + 1) rounds (status_after_get status ret) in
      (status', port_stats_bytes st ++ bytes)

  -- the loop over the cores of `handle_cmd_app_stats`
  unfoldable pub send_stats : ℕ → List ℕ → Io → Bool × Io
  send_stats fd [] io = (true, io)
  send_stats fd (core ∷ cores) io =
      let (sent, io1) = send_both fd (u8 core ∷ []) (app_stats_bytes (s.stats core)) io in
      let (sent', io2) = send_stats fd cores io1 in if sent then (sent', io2) else (false, io1)

  unfoldable pub run_handler : Handler → ℕ → ℕ → Io → ℤ × Io
  run_handler handle_cmd_status fd type io =
      let (sent, io1) = send_bytes fd (reply_bytes type 0 (s.stack io.calls)) io in
      (result_of sent, io1)
  run_handler handle_cmd_reload fd type io =
      let status = status_of (s.reload io.calls) in
      let (sent, io1) = send_bytes fd (reply_bytes type status (s.stack io.calls)) io in
      (result_of sent, io1)
  run_handler handle_cmd_exit fd type io =
      let (sent, io1) = send_bytes fd (reply_bytes type 0 (s.stack io.calls)) io in
      if sent then (pos 0, record io1 { sigterm = true }) else (minus_one, io1)
  run_handler handle_cmd_reset_stats fd type io =
      let status = reset_status 0 s.eth_dev_count 0 in
      let (sent, io1) = send_bytes fd (reply_bytes type status (s.stack io.calls)) io in
      (result_of sent, io1)
  run_handler handle_cmd_version fd type io =
      let reply = reply_bytes type 0 (bswap16 (u16 (length s.version))) in
      let (sent, io1) = send_both fd reply s.version io in (result_of sent, io1)
  run_handler handle_cmd_dpdk_stats fd type io =
      let (status, port_stats) = get_stats 0 s.eth_dev_count 0 in
      let reply = reply_bytes type status (bswap16 (u16 (length port_stats))) in
      let (sent, io1) = send_both fd reply port_stats io in (result_of sent, io1)
  run_handler handle_cmd_app_stats fd type io =
      -- `sizeof(core_stats) + sizeof(coreid)`, for every core but the master
      let data_size = (56 + 1) * length s.slaves in
      let reply = reply_bytes type 0 (bswap16 (u16 data_size)) in
      let (sent, io1) = send_bytes fd reply io in
      let (sent', io2) = send_stats fd s.slaves io1 in
      if sent then (result_of sent', io2) else (minus_one, io1)

  -- the search in `natasha_commands`
  unfoldable pub find_command : List (ℕ × Handler) → ℕ → ℕ → Io → ℤ × Io
  find_command [] fd type io = (minus_one, io)
  find_command ((cmd_type, func) ∷ commands) fd type io =
      let rest = find_command commands fd type io in
      if cmd_type == type then run_handler func fd type io else rest

  unfoldable pub handle_client_query : ℕ → ℕ → Io → ℤ × Io
  handle_client_query fd type io = find_command natasha_commands fd type io
