-- ===== src/Adm/Session.antt =====
-- A client of src/adm.c that asks for the counters of the cores, and takes all that it is sent.
use mathlib.Core.List.{append_assoc, append-nil}
use natasha.Base.{ℕ, zero, suc, ◌+◌, ◌*◌, ◌/◌, ◌%◌, ◌^◌, ◌<◌, ◌≡◌, refl, sym, ap, ap₂, ◌∙◌, arith}
use natasha.Base.{List, [], ◌∷◌, ◌++◌, length, map, true, length-append, ==_refl, pos}
use natasha.Word.{u8, u16, bswap16}
use natasha.Core.{Stats}
use natasha.Adm.{
  System, Io, cmd_app_stats, send_bytes, send_both, send_stats, run_handler, handle_client_query,
  find_command, bytes_of, reply_bytes, app_stats_bytes,
}
use natasha.Adm.Wire.{read_stats, IsCounters, read_stats-app_stats_bytes}
use natasha.Adm.Protocol.{take-length}

-- what a client makes of the bytes behind the reply: for each core its number and its counters
unfoldable pub read_cores : ℕ → List ℕ → List (ℕ × Stats)
unfolding read_stats
read_cores zero l = []
read_cores (suc n) [] = []
read_cores (suc n) (core ∷ l) = let (st, rest) = read_stats l in (core, st) ∷ read_cores n rest

-- what the loop over the cores sends
unfoldable pub cores_bytes : System → List ℕ → List ℕ
cores_bytes s [] = []
cores_bytes s (core ∷ cores) = u8 core ∷ (app_stats_bytes (s.stats core) ++ cores_bytes s cores)

-- Numbers of cores that fit a byte, with counters that fit 64 bits.
abbrev pub IsCores : System → List ℕ → Type 0
IsCores s [] = Unit
IsCores s (core ∷ cores) = (core < 256) × IsCounters (s.stats core) × IsCores s cores

length-bytes_of : (w v : ℕ) → length (bytes_of w v) ≡ w
unfolding bytes_of
length-bytes_of zero v = refl
length-bytes_of (suc w) v = ap suc (length-bytes_of w (v / 256))

length-app_stats_bytes : (st : Stats) → length (app_stats_bytes st) ≡ 56
unfolding app_stats_bytes bytes_of
length-app_stats_bytes st = refl

length-cores_bytes :
    (s : System) (cores : List ℕ) → length (cores_bytes s cores) ≡ 57 * length cores
unfolding cores_bytes
length-cores_bytes s [] = omega arith
length-cores_bytes s (core ∷ cores) = omega (
  arith,
  length-append (app_stats_bytes (s.stats core)) (cores_bytes s cores),
  length-app_stats_bytes (s.stats core),
  length-cores_bytes s cores,
)

read_cores-cons :
    (core n : ℕ) (st : Stats) (rest : List ℕ)
    → core < 256
    → IsCounters st
    → read_cores (suc n) (u8 core ∷ (app_stats_bytes st ++ rest)) ≡ (core, st) ∷ read_cores n rest
unfolding read_cores
read_cores-cons core n st rest h v =
    let small : core % 2 ^ 8 ≡ core = omega (arith, h) in
    ap (λ (r : Stats × List ℕ). (u8 core, r.0) ∷ read_cores n r.1)
      (read_stats-app_stats_bytes st rest v)
    ∙ ap (λ c. (c, st) ∷ read_cores n rest) small

read_cores-cores_bytes :
    (s : System) (cores : List ℕ)
    → IsCores s cores
    → read_cores (length cores) (cores_bytes s cores) ≡ map (λ core. (core, s.stats core)) cores
unfolding cores_bytes
read_cores-cores_bytes s [] h = unfold read_cores in refl
read_cores-cores_bytes s (core ∷ cores) h =
    read_cores-cons core (length cores) (s.stats core) (cores_bytes s cores) h.0 h.1
    ∙ ap (λ t. (core, s.stats core) ∷ t) (read_cores-cores_bytes s cores h.2)

-- Every call takes all that it is given.
abbrev pub IsReliable : System → Type 0
IsReliable s = (calls fd : ℕ) (l : List ℕ) → s.send calls fd l ≡ pos (length l)

module _ (s : System) (reliable : IsReliable s) where
  send_bytes-done :
      (fd : ℕ) (l : List ℕ) (io : Io)
      → ((send_bytes s fd l io).0 ≡ true) × ((send_bytes s fd l io).1.out fd ≡ io.out fd ++ l)
  unfolding send_bytes
  send_bytes-done fd l io =
      rw (reliable io.calls fd l) (==_refl (length l), rw (==_refl fd, take-length l) refl)

  send_both-done :
      (fd : ℕ) (l l' : List ℕ) (io : Io)
      → ((send_both s fd l l' io).0 ≡ true)
        × ((send_both s fd l l' io).1.out fd ≡ io.out fd ++ (l ++ l'))
  unfolding send_both
  send_both-done fd l l' io =
      let (sent, own) = send_bytes-done fd l io in
      let (sent', own') = send_bytes-done fd l' (send_bytes s fd l io).1 in
      rw sent (sent', own' ∙ ap (λ t. t ++ l') own ∙ append_assoc (io.out fd) l l')

  send_stats-done :
      (fd : ℕ) (cores : List ℕ) (io : Io)
      → ((send_stats s fd cores io).0 ≡ true)
        × ((send_stats s fd cores io).1.out fd ≡ io.out fd ++ cores_bytes s cores)
  unfolding send_stats cores_bytes
  send_stats-done fd [] io = (refl, sym (append-nil (io.out fd)))
  send_stats-done fd (core ∷ cores) io =
      let head = u8 core ∷ [] in
      let body = app_stats_bytes (s.stats core) in
      let (sent, own) = send_both-done fd head body io in
      let (sent', own') = send_stats-done fd cores (send_both s fd head body io).1 in
      rw sent (
        sent',
        own'
            ∙ ap (λ t. t ++ cores_bytes s cores) own
            ∙ append_assoc (io.out fd) (head ++ body) (cores_bytes s cores),
      )

  -- Where the socket takes all that it is given, for less than 1150 worker cores with numbers below
  -- 256 and counters of 64 bits: the query for the counters has the result 0, the client is sent a
  -- reply with the type of the query, the status 0 and the length of what follows, and reads from
  -- what follows the counters of every worker core in order, seven of eight bytes each.
  pub app_stats_session :
      (fd : ℕ) (io : Io)
      → length s.slaves < 1150
      → IsCores s s.slaves
      → let (ret, io') = handle_client_query s fd cmd_app_stats io in
        let follows = cores_bytes s s.slaves in
        (ret ≡ pos 0)
        × (io'.out fd
            ≡ io.out fd
              ++ (cmd_app_stats ∷ 0 ∷ length follows / 256 ∷ length follows % 256 ∷ follows))
        × (read_cores (length s.slaves) follows ≡ map (λ core. (core, s.stats core)) s.slaves)
  unfolding handle_client_query find_command run_handler reply_bytes bytes_of bswap16
  app_stats_session fd io few cores =
      let size = bswap16 (u16 ((56 + 1) * length s.slaves)) in
      let reply = cmd_app_stats ∷ 0 ∷ size % 256 ∷ size / 256 % 256 ∷ [] in
      let follows = cores_bytes s s.slaves in
      let (sent, own) = send_bytes-done fd reply io in
      let (sent', own') = send_stats-done fd s.slaves (send_bytes s fd reply io).1 in
      let high : size % 256 ≡ length follows / 256 = omega (arith, length-cores_bytes s s.slaves) in
      let low : size / 256 % 256 ≡ length follows % 256 =
        omega (arith, length-cores_bytes s s.slaves) in
      rw (sent, sent')
        (
          refl,
          own'
              ∙ ap (λ t. t ++ follows) own
              ∙ append_assoc (io.out fd) reply follows
              ∙ ap₂ (λ a b. io.out fd ++ (cmd_app_stats ∷ 0 ∷ a ∷ b ∷ follows)) high low,
          read_cores-cores_bytes s s.slaves cores,
        )
