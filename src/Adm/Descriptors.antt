-- ===== src/Adm/Descriptors.antt =====
-- The descriptors of the clients through the rounds of `adm_loop` in src/adm.c.
use natasha.Base.{ℕ, suc, ◌+◌, ◌≡◌, ◌≢◌, refl, sym, ap, ◌∙◌, arith, inl, inr}
use natasha.Base.{Bool, true, false, Bool-cases, ◌&&◌, pos, is_neg, List, [], ◌∷◌}
use natasha.Base.{if◌then◌else◌, ◌==◌, ==_ne, length, count}
use natasha.Adm.{System, Io, handle_client_query}
use natasha.Adm.Slots.{
  Server, Events, Outcome, continues, returns_failure, exits, decr, is_query, close_fd,
  disconnect_client, accept_client, is_set, serve_client, read_clients, adm_round, adm_loop,
  next_round, first_server, count_running,
}
use natasha.Adm.Places.{occupied, IsServer, take_client-IsServer}

-- What the loop over the slots does with `k` more in use: each descriptor that leaves a slot is closed.
record Keeps (k : ℕ) (clients : List ℕ) (v : Server) (r : List ℕ × Server) : Type 0 where
  slots : length r.0 ≡ length clients
  cur : r.1.cur_clients ≡ pos (k + occupied r.0)
  accepted : r.1.accepted ≡ v.accepted
  owned : (q : ℕ) → q ≢ 0 → count q r.0 + count q r.1.closed ≡ count q clients + count q v.closed

occupied-cons :
    (k fd : ℕ) (clients : List ℕ)
    → fd ≢ 0
    → k + occupied (fd ∷ clients) ≡ suc (k + occupied clients)
occupied-cons k fd clients nz = ground arith

disconnect_client-Keeps :
    (k fd : ℕ) (clients : List ℕ) (v : Server) (io : Io)
    → fd ≢ 0
    → v.cur_clients ≡ pos (k + occupied (fd ∷ clients))
    → Keeps k (fd ∷ clients) v (0 ∷ clients, disconnect_client fd (record v { io = io }))
unfolding disconnect_client close_fd
disconnect_client-Keeps k fd clients v io nz cur = record {
  slots = refl;
  cur = ap decr (cur ∙ ap pos (occupied-cons k fd clients nz)) ∙ ap pos (omega arith);
  accepted = refl;
  owned = λ q ne. ground arith;
}

is_set-zero : (e : Events) (s : ℕ) (clients : List ℕ) → s ≢ 0 → is_set e s clients 0 ≡ false
unfolding is_set
is_set-zero e s clients sn = rw (==_ne 0 s (λ z. sn (sym z))) refl

-- `accept` never gives the descriptor 0.
abbrev pub IsNonzero : List Events → Type 0
IsNonzero [] = Unit
IsNonzero (e ∷ events) = (e.accept ≢ pos 0) × IsNonzero events

-- the variables when a round ends
abbrev pub server_of : Outcome → Server
server_of (continues v) = v
server_of (returns_failure v) = v
server_of (exits v) = v

next_round-IsServer :
    (f : Server → Outcome)
    → ((v : Server) → IsServer v → IsServer (server_of (f v)))
    → (o : Outcome) → IsServer (server_of o)
    → IsServer (server_of (next_round f o))
next_round-IsServer f h (continues v) w = h v w
next_round-IsServer f h (returns_failure v) w = w
next_round-IsServer f h (exits v) w = w

true≢false : true ≢ false
true≢false h = cc

module _ (sys : System) where
  serve_client-Keeps :
      (e : Events) (k fd : ℕ) (clients : List ℕ) (v : Server)
      → fd ≢ 0
      → v.cur_clients ≡ pos (k + occupied (fd ∷ clients))
      → Keeps k (fd ∷ clients) v (let r = serve_client sys e fd v in (r.0 ∷ clients, r.1))
  unfolding serve_client
  serve_client-Keeps e k fd clients v nz cur =
      let ret = (handle_client_query sys fd (e.read fd).1 v.io).0 in
      let io = (handle_client_query sys fd (e.read fd).1 v.io).1 in
      elim (Bool-cases (is_query (e.read fd).0)) [
        | inr bad ↦ rw bad (disconnect_client-Keeps k fd clients v v.io nz cur)
        | inl query ↦ elim (Bool-cases (is_neg ret)) [
          | inl failed ↦ rw (query, failed) (disconnect_client-Keeps k fd clients v io nz cur)
          | inr ok ↦
              rw (query, ok)
                (record { slots = refl; cur = cur; accepted = refl; owned = λ q ne. refl })
        ]
      ]

  read_clients-Keeps :
      (e : Events) (set : ℕ → Bool) (k : ℕ) (clients : List ℕ) (v : Server)
      → set 0 ≡ false
      → v.cur_clients ≡ pos (k + occupied clients)
      → Keeps k clients v (read_clients sys e set clients v)
  unfolding read_clients
  read_clients-Keeps e set k [] v h cur = record {
    slots = refl;
    cur = cur;
    accepted = refl;
    owned = λ q ne. refl;
  }
  read_clients-Keeps e set k (fd ∷ clients) v h cur = elim (Bool-cases (set fd)) [
    | inl ready ↦
        rw ready
          (serve_client-Keeps e k fd clients v (λ z. true≢false (sym ready ∙ ap set z ∙ h)) cur)
    | inr idle ↦
        let rest =
          read_clients-Keeps e set (k + (if fd == 0 then 0 else 1)) clients v h
            (cur ∙ ap pos (omega arith)) in
        rw idle (record {
          slots = ap suc rest.slots;
          cur = rest.cur ∙ ap pos (omega arith);
          accepted = rest.accepted;
          owned = λ q ne. omega (arith, rest.owned q ne);
        })
  ]

  read_clients-IsServer :
      (e : Events) (set : ℕ → Bool) (ok : ℕ) (v : Server)
      → set 0 ≡ false
      → IsServer v
      → IsServer (
          let (clients, v') = read_clients sys e set v.clients v in
          record v' { clients = clients; slaves_alive = ok })
  read_clients-IsServer e set ok v h w =
      let kept = read_clients-Keeps e set 0 v.clients v h (w.cur ∙ ap pos (omega arith)) in
      record {
        slots = kept.slots ∙ w.slots;
        cur = kept.cur ∙ ap pos (omega arith);
        owned = λ q ne. ap (count q) kept.accepted ∙ omega (arith, w.owned q ne, kept.owned q ne);
      }

  accept_client-IsServer :
      (set : Bool) (e : Events) (v : Server)
      → e.accept ≢ pos 0
      → IsServer v
      → IsServer (if set then accept_client e v else v)
  unfolding accept_client
  accept_client-IsServer true e v an w = take_client-IsServer e e.accept v an w
  accept_client-IsServer false e v an w = w

  adm_round-IsServer :
      (s : ℕ) (e : Events) (v : Server)
      → s ≢ 0
      → e.accept ≢ pos 0
      → IsServer v
      → IsServer (server_of (adm_round sys s e v))
  unfolding adm_round
  adm_round-IsServer s e v sn an w =
      let set = is_set e s v.clients in
      let free : set 0 ≡ false = is_set-zero e s v.clients sn in
      let v1 = if set s then accept_client e v else v in
      let ok = count_running e sys.slaves in
      elim (Bool-cases (is_neg e.select && (if e.interrupted then false else true))) [
        | inl failed ↦ rw failed w
        | inr fine ↦ elim (Bool-cases (ok == 0)) [
          | inl dead ↦ rw (fine, dead) w
          | inr alive ↦
              rw (fine, alive)
                (read_clients-IsServer e set ok v1 free (accept_client-IsServer (set s) e v an w))
        ]
      ]

  -- Where `accept` gives no descriptor 0: through any rounds of the loop on a socket other than 0
  -- there are two slots, `cur_clients` is the number of those in use, and each descriptor other
  -- than 0 was accepted as often as it stands in a slot or was closed, also when the loop ends.
  pub adm_loop-IsServer :
      (s : ℕ) (events : List Events) (v : Server)
      → s ≢ 0
      → IsNonzero events
      → IsServer v
      → IsServer (server_of (adm_loop sys s events v))
  unfolding adm_loop
  adm_loop-IsServer s [] v sn an w = w
  adm_loop-IsServer s (e ∷ events) v sn an w =
      next_round-IsServer (λ v'. adm_loop sys s events v')
        (λ v' w'. adm_loop-IsServer s events v' sn an.1 w') (adm_round sys s e v)
        (adm_round-IsServer s e v sn an.0 w)

pub first_server-IsServer : (io : Io) → IsServer (first_server io)
unfolding first_server
first_server-IsServer io = record { slots = refl; cur = refl; owned = λ q ne. ground arith }
