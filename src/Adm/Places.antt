-- ===== src/Adm/Places.antt =====
-- The slots of `adm_loop` in src/adm.c when a client is accepted.
use natasha.Base.{ℕ, zero, suc, ◌+◌, ◌<◌, ◌≡◌, ◌≢◌, refl, sym, ap, ◌∙◌, arith, inl, inr}
use natasha.Base.{true, false, Bool-cases, ℤ, pos, negsuc, is_neg, List, [], ◌∷◌}
use natasha.Base.{if◌then◌else◌, ◌==◌, leb, length, count}
use natasha.Adm.Slots.{Server, Events, incr, is_full, max_clients, place, close_fd, take_client}

-- the number of slots in use
abbrev pub occupied : List ℕ → ℕ
occupied [] = 0
occupied (fd ∷ clients) = (if fd == 0 then 0 else 1) + occupied clients

-- Two slots, as many of them in use as `cur_clients` says; each descriptor but 0 was accepted as
-- often as it stands in a slot or was closed.
pub record IsServer (v : Server) : Type 0 where
  pub slots : length v.clients ≡ max_clients
  pub cur : v.cur_clients ≡ pos (occupied v.clients)
  pub owned : (q : ℕ) → q ≢ 0 → count q v.accepted ≡ count q v.clients + count q v.closed

not-leb : (a b : ℕ) → leb a b ≡ false → b < a
not-leb a b h = ground arith

place_lem :
    (cs : ℕ) (clients : List ℕ)
    → cs ≢ 0
    → occupied clients < length clients
    → let (clients', placed) = place cs clients in
      (placed ≡ true)
      × (length clients' ≡ length clients)
      × (occupied clients' ≡ suc (occupied clients))
      × ((q : ℕ) → q ≢ 0 → count q clients' ≡ (if cs == q then 1 else 0) + count q clients)
unfolding place
place_lem cs [] nz h = absurd (omega arith)
place_lem cs (zero ∷ clients) nz h = (refl, refl, ground arith, λ q ne. ground arith)
place_lem cs (suc fd ∷ clients) nz h =
    let (placed, len, occ, counts) = place_lem cs clients nz (ground arith) in
    let used : (suc fd == 0) ≡ false = ground arith in
    rw used (placed, ap suc len, ground (arith, occ), λ q ne. ground (arith, counts q ne))

close_fd-IsServer :
    (cs : ℕ) (v : Server)
    → IsServer v
    → IsServer (close_fd cs (record v { accepted = cs ∷ v.accepted }))
unfolding close_fd
close_fd-IsServer cs v w = record {
  slots = w.slots;
  cur = w.cur;
  owned = λ q ne. omega (arith, w.owned q ne);
}

pub take_client-IsServer :
    (e : Events) (cs : ℤ) (v : Server) → cs ≢ pos 0 → IsServer v → IsServer (take_client e cs v)
unfolding take_client
take_client-IsServer e (negsuc n) v nz w = w
take_client-IsServer e (pos cs) v nz w = elim (Bool-cases (is_full v.cur_clients)) [
  | inl full ↦ rw full (close_fd-IsServer cs v w)
  | inr free ↦
      let few = not-leb max_clients (occupied v.clients) (sym (ap is_full w.cur) ∙ free) in
      let (placed, len, occ, counts) =
        place_lem cs v.clients (λ z. nz (ap pos z)) (omega (arith, w.slots, few)) in
      elim (Bool-cases (is_neg e.fcntl)) [
        | inl failed ↦ rw (free, failed) (close_fd-IsServer cs v w)
        | inr ok ↦
            rw (free, ok, placed)
              (record {
                slots = len ∙ w.slots;
                cur = ap incr w.cur ∙ ap pos (omega (arith, occ));
                owned = λ q ne. omega (arith, w.owned q ne, counts q ne);
              })
      ]
]
