-- ===== src/Adm/Slots.antt =====
-- `adm_loop` of src/adm.c: the slots of the clients, one round of the loop at a time.
use natasha.Base.{ℕ, zero, suc, ◌+◌, Bool, true, false, ◌&&◌, ◌||◌, ℤ, pos, negsuc, is_neg}
use natasha.Base.{List, [], ◌∷◌, if◌then◌else◌, ◌==◌, leb}
use natasha.Adm.{System, Io, handle_client_query}

-- NATASHA_MAX_CLIENTS
abbrev pub max_clients : ℕ
max_clients = 2

-- The variables of the loop. A slot is the descriptor in it, 0 when it is free; its buffer is read
-- only in the round that wrote it. `accepted` and `closed` are the descriptors that `accept` gave
-- and that were given to `close`, newest first.
pub record Server : Type 0 where
  pub clients : List ℕ
  pub cur_clients : ℤ
  pub slaves_alive : ℕ
  pub accepted : List ℕ
  pub closed : List ℕ
  pub io : Io

-- What the calls of one round give.
pub record Events : Type 0 where
  pub select : ℤ
  -- `errno == EINTR`
  pub interrupted : Bool
  -- the descriptors that a `select` that does not fail leaves in its set
  pub ready : ℕ → Bool
  -- `rte_eal_get_lcore_state(core) == RUNNING`
  pub running : ℕ → Bool
  pub accept : ℤ
  pub fcntl : ℤ
  -- the result of `read`, and the first byte of the buffer after it
  pub read : ℕ → ℤ × ℕ

-- How a round ends: with the next round, with EXIT_FAILURE, or in `rte_exit`.
pub data Outcome : Type 0 where
  continues : Server → Outcome
  returns_failure : Server → Outcome
  exits : Server → Outcome

abbrev pub next_round : (Server → Outcome) → Outcome → Outcome
next_round f (continues v) = f v
next_round f (returns_failure v) = returns_failure v
next_round f (exits v) = exits v

-- `++cur_clients` and `--cur_clients`
abbrev pub incr : ℤ → ℤ
incr (pos n) = pos (n + 1)
incr (negsuc zero) = pos 0
incr (negsuc (suc n)) = negsuc n

abbrev pub decr : ℤ → ℤ
decr (pos zero) = negsuc 0
decr (pos (suc n)) = pos n
decr (negsuc n) = negsuc (suc n)

-- `cur_clients >= NATASHA_MAX_CLIENTS`
abbrev pub is_full : ℤ → Bool
is_full (pos n) = leb max_clients n
is_full (negsuc n) = false

-- `sizeof(struct natasha_query) == nbread`
abbrev pub is_query : ℤ → Bool
is_query (pos n) = n == 1
is_query (negsuc n) = false

abbrev pub is_member : ℕ → List ℕ → Bool
is_member fd [] = false
is_member fd (x ∷ xs) = (x == fd) || is_member fd xs

-- the first free slot is given the descriptor, with whether there was one
unfoldable pub place : ℕ → List ℕ → List ℕ × Bool
place cs [] = ([], false)
place cs (fd ∷ clients) =
    let (clients', placed) = place cs clients in
    if fd == 0 then (cs ∷ clients, true) else (fd ∷ clients', placed)

-- `close(cs)`
unfoldable pub close_fd : ℕ → Server → Server
close_fd fd v = record v { closed = fd ∷ v.closed }

-- `disconnect_client(&clients[i]); --cur_clients;`, but for the slot
unfoldable pub disconnect_client : ℕ → Server → Server
unfolding close_fd
disconnect_client fd v = record (close_fd fd v) { cur_clients = decr v.cur_clients }

-- what is done with the result of `accept`
unfoldable pub take_client : Events → ℤ → Server → Server
unfolding place close_fd
take_client e (negsuc n) v = v
take_client e (pos cs) v =
    let v' : Server = record v { accepted = cs ∷ v.accepted } in
    let (clients, placed) = place cs v.clients in
    if is_full v.cur_clients
    then close_fd cs v'
    else if is_neg e.fcntl
    then close_fd cs v'
    else if placed
    then record v' { clients = clients; cur_clients = incr v.cur_clients }
    else v'

-- `if (FD_ISSET(s, &readfds))`
unfoldable pub accept_client : Events → Server → Server
unfolding take_client
accept_client e v = take_client e e.accept v

-- `ok` of `check_slaves_alive`
unfoldable pub count_running : Events → List ℕ → ℕ
count_running e [] = 0
count_running e (core ∷ cores) = (if e.running core then 1 else 0) + count_running e cores

-- `readfds` after `select`, which leaves it as it was when it fails
unfoldable pub is_set : Events → ℕ → List ℕ → ℕ → Bool
is_set e s clients fd =
    ((fd == s) || ((if fd == 0 then false else true) && is_member fd clients))
    && (is_neg e.select || e.ready fd)

module _ (sys : System) where
  -- what a client that is ready is done: its slot after it, and the rest of the state
  unfoldable pub serve_client : Events → ℕ → Server → ℕ × Server
  unfolding disconnect_client
  serve_client e fd v =
      let (nbread, type) = e.read fd in
      let (ret, io) = handle_client_query sys fd type v.io in
      let answered : Server = record v { io = io } in
      if is_query nbread
      then (if is_neg ret then (0, disconnect_client fd answered) else (fd, answered))
      else (0, disconnect_client fd v)

  -- the loop over the slots, which ends at the first that is ready
  unfoldable pub read_clients : Events → (ℕ → Bool) → List ℕ → Server → List ℕ × Server
  unfolding serve_client
  read_clients e set [] v = ([], v)
  read_clients e set (fd ∷ clients) v =
      let (fd', v') = serve_client e fd v in
      let (clients', v'') = read_clients e set clients v in
      if set fd then (fd' ∷ clients, v') else (fd ∷ clients', v'')

  unfoldable pub adm_round : ℕ → Events → Server → Outcome
  unfolding accept_client count_running is_set read_clients
  adm_round s e v =
      let set = is_set e s v.clients in
      let ok = count_running e sys.slaves in
      let v1 = if set s then accept_client e v else v in
      let (clients, v2) = read_clients e set v1.clients v1 in
      if is_neg e.select && (if e.interrupted then false else true)
      then returns_failure v
      else if ok == 0
      then exits v
      else continues (record v2 { clients = clients; slaves_alive = ok })

  -- the rounds that a list of events drives
  unfoldable pub adm_loop : ℕ → List Events → Server → Outcome
  adm_loop s [] v = continues v
  adm_loop s (e ∷ events) v = next_round (λ v'. adm_loop s events v') (adm_round s e v)

-- the variables before the first round
unfoldable pub first_server : Io → Server
first_server io = record {
  clients = 0 ∷ 0 ∷ [];
  cur_clients = pos 0;
  slaves_alive = 0;
  accepted = [];
  closed = [];
  io = io;
}
