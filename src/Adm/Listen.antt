-- ===== src/Adm/Listen.antt =====
-- `adm_server` of src/adm.c: the socket that the clients connect to, and the loop on it.
use natasha.Base.{
  ℕ, ◌≡◌, ◌≢◌, ◌⊎◌, refl, sym, ap, subst, Bool-cases, inl, inr, ℤ, pos, negsuc, is_neg,
}
use natasha.Base.{List, [], ◌∷◌, if◌then◌else◌, Option, none, some}
use mathlib.Core.Option.{map}
use natasha.Adm.{System, Io}
use natasha.Adm.Slots.{Events, Outcome, adm_loop, first_server}
use natasha.Adm.Places.{IsServer}
use natasha.Adm.Descriptors.{IsNonzero, server_of, adm_loop-IsServer, first_server-IsServer}

-- the results of the calls, in order
pub record SocketCalls : Type 0 where
  pub socket : ℤ
  pub setsockopt : ℤ
  pub fcntl : ℤ
  pub bind : ℤ
  pub listen : ℤ

-- the calls after `socket`, each with `close(s); return EXIT_FAILURE;` when it fails: the descriptor
-- if none did, and the descriptors that are closed
unfoldable pub set_up_socket : List ℤ → ℕ → Option ℕ × List ℕ
set_up_socket [] s = (some s, [])
set_up_socket (ret ∷ rets) s =
    let rest = set_up_socket rets s in if is_neg ret then (none, s ∷ []) else rest

-- from the result of `socket` on
unfoldable pub open_socket : ℤ → List ℤ → Option ℕ × List ℕ
unfolding set_up_socket
open_socket (negsuc n) rets = (none, [])
open_socket (pos s) rets = set_up_socket rets s

-- the outcome of the loop, or `none` for EXIT_FAILURE before it
unfoldable pub adm_server : System → SocketCalls → List Events → Io → Option Outcome × List ℕ
unfolding open_socket
adm_server sys c events io =
    let (socket, closed) = open_socket c.socket (c.setsockopt ∷ c.fcntl ∷ c.bind ∷ c.listen ∷ []) in
    (map (λ s. adm_loop sys s events (first_server io)) socket, closed)

-- the descriptors that a result of `socket` stands for
abbrev pub opened : ℤ → List ℕ
opened (negsuc n) = []
opened (pos s) = s ∷ []

abbrev HasSocket : List ℕ → ℕ → Option ℕ × List ℕ → Type 0
HasSocket fds s r = (r ≡ (some s, [])) ⊎ (r ≡ (none, fds))

set_up_socket-HasSocket : (rets : List ℤ) (s : ℕ) → HasSocket (s ∷ []) s (set_up_socket rets s)
unfolding set_up_socket
set_up_socket-HasSocket [] s = inl refl
set_up_socket-HasSocket (ret ∷ rets) s = elim (Bool-cases (is_neg ret)) [
  | inl failed ↦ rw failed (inr refl)
  | inr ok ↦ rw ok (set_up_socket-HasSocket rets s)
]

-- what the server leaves: no socket but one closed, or a loop that keeps its descriptors in order
abbrev pub IsClean : List ℕ → Option Outcome × List ℕ → Type 0
IsClean fds (none, closed) = closed ≡ fds
IsClean fds (some o, closed) = (closed ≡ []) × IsServer (server_of o)

module _ (sys : System) (events : List Events) (io : Io) where
  abbrev served : Option ℕ × List ℕ → Option Outcome × List ℕ
  served r = (map (λ s. adm_loop sys s events (first_server io)) r.0, r.1)

  served-IsClean :
      (s : ℕ) (r : Option ℕ × List ℕ)
      → s ≢ 0
      → IsNonzero events
      → HasSocket (s ∷ []) s r
      → IsClean (s ∷ []) (served r)
  served-IsClean s r sn an (inl h) =
      subst (λ x. IsClean (s ∷ []) (served x)) (sym h)
        (refl, adm_loop-IsServer sys s events (first_server io) sn an (first_server-IsServer io))
  served-IsClean s r sn an (inr h) = subst (λ x. IsClean (s ∷ []) (served x)) (sym h) refl

  open_socket-IsClean :
      (socket : ℤ) (rets : List ℤ)
      → socket ≢ pos 0
      → IsNonzero events
      → IsClean (opened socket) (served (open_socket socket rets))
  unfolding open_socket
  open_socket-IsClean (negsuc n) rets sn an = refl
  open_socket-IsClean (pos s) rets sn an =
      served-IsClean s (set_up_socket rets s) (λ z. sn (ap pos z)) an
        (set_up_socket-HasSocket rets s)

-- Where `socket` and `accept` never give the descriptor 0, whatever the calls do: the server fails
-- with the socket that it opened, if any, closed once; or its loop runs with the socket open, has
-- two slots, of which `cur_clients` are in use, and has accepted each descriptor other than 0 as
-- often as it stands in a slot or was closed.
pub adm_server-IsClean :
    (sys : System) (c : SocketCalls) (events : List Events) (io : Io)
    → c.socket ≢ pos 0
    → IsNonzero events
    → IsClean (opened c.socket) (adm_server sys c events io)
unfolding adm_server
adm_server-IsClean sys c events io sn an =
    open_socket-IsClean sys events io c.socket (c.setsockopt ∷ c.fcntl ∷ c.bind ∷ c.listen ∷ []) sn
      an
