-- ===== src/Adm/Protocol.antt =====
-- What a client of src/adm.c is sent in answer to a query.
use mathlib.Core.List.{append_assoc, append-nil}
use natasha.Base.{ℕ, ◌≡◌, ◌≢◌, refl, sym, ap, ◌∙◌, arith, inl, inr, ◌⊎◌}
use natasha.Base.{
  List, [], ◌∷◌, ◌++◌, length, take, Bool, true, false, Bool-cases, if◌then◌else◌, ◌==◌, ==_refl,
  ==_ne, ℤ, pos, negsuc, minus_one,
}
use natasha.Adm.{
  System, Io, Handler, handle_cmd_status, handle_cmd_exit, handle_cmd_reload,
  handle_cmd_reset_stats, handle_cmd_version, handle_cmd_dpdk_stats, handle_cmd_app_stats,
  natasha_commands, send_bytes, send_both, send_stats, run_handler, find_command,
  handle_client_query, is_size, taken_by, bytes_of, reply_bytes, result_of,
}

-- Between `io` and `io'` the socket `fd` took the bytes `l`, and no other socket took any.
pub record Took (fd : ℕ) (io io' : Io) (l : List ℕ) : Type 0 where
  pub own : io'.out fd ≡ io.out fd ++ l
  pub others : (q : ℕ) → q ≢ fd → io'.out q ≡ io.out q

-- The socket took some bytes, and all of `l` first if the result says so.
pub record Sends (fd : ℕ) (l : List ℕ) (io : Io) (r : Bool × Io) : Type 0 where
  pub bytes : List ℕ
  pub took : Took fd io r.1 bytes
  pub whole : r.0 ≡ true → (rest : List ℕ) × (bytes ≡ l ++ rest)

Took-refl : (fd : ℕ) (io : Io) → Took fd io io []
Took-refl fd io = record { own = sym (append-nil (io.out fd)); others = λ q ne. refl }

Took-trans :
    (fd : ℕ) {a b c : Io} {l l' : List ℕ} → Took fd a b l → Took fd b c l' → Took fd a c (l ++ l')
Took-trans fd {a} {l = l} {l' = l'} x y = record {
  own = y.own ∙ ap (λ t. t ++ l') x.own ∙ append_assoc (a.out fd) l l';
  others = λ q ne. y.others q ne ∙ x.others q ne;
}

pub take-length : (l : List ℕ) → take (length l) l ≡ l
take-length [] = refl
take-length (x ∷ l) = ap (λ t. x ∷ t) (take-length l)

is_size-eq : (nb : ℤ) (l : List ℕ) → is_size nb (length l) ≡ true → take (taken_by nb) l ≡ l
is_size-eq (pos n) l h = let e : n ≡ length l = ground arith in rw e (take-length l)
is_size-eq (negsuc n) l h = cc

module _ (s : System) where
  send_bytes-Sends : (fd : ℕ) (l : List ℕ) (io : Io) → Sends fd l io (send_bytes s fd l io)
  unfolding send_bytes
  send_bytes-Sends fd l io = record {
    bytes = take (taken_by (s.send io.calls fd l)) l;
    took = record {
      own = rw (==_refl fd) refl;
      others = λ q ne. rw (==_ne fd q (λ e. ne (sym e))) refl;
    };
    whole = λ h. ([], is_size-eq (s.send io.calls fd l) l h ∙ sym (append-nil l));
  }

  -- Going on after a message that was sent whole.
  Sends-then :
      (fd : ℕ) (l : List ℕ) (io : Io) (first next : Bool × Io)
      → Sends fd l io first
      → Sends fd [] first.1 next
      → Sends fd l io (if◌then◌else◌ {A = Bool × Io} first.0 next (false, first.1))
  Sends-then fd l io (true, io1) next x y = record {
    bytes = x.bytes ++ y.bytes;
    took = Took-trans fd x.took y.took;
    whole = λ h.
        let (rest, e) = x.whole refl in
        (rest ++ y.bytes, ap (λ t. t ++ y.bytes) e ∙ append_assoc l rest y.bytes);
  }
  Sends-then fd l io (false, io1) next x y = x

  -- A message of no bytes says nothing about the bytes.
  Sends-any : (fd : ℕ) {l : List ℕ} {io : Io} {r : Bool × Io} → Sends fd l io r → Sends fd [] io r
  Sends-any fd x = record { bytes = x.bytes; took = x.took; whole = λ h. (x.bytes, refl) }

  send_both-Sends : (fd : ℕ) (l l' : List ℕ) (io : Io) → Sends fd l io (send_both s fd l l' io)
  unfolding send_both
  send_both-Sends fd l l' io =
      Sends-then fd l io (send_bytes s fd l io) (send_bytes s fd l' (send_bytes s fd l io).1)
        (send_bytes-Sends fd l io) (Sends-any fd (send_bytes-Sends fd l' _))

  send_stats-Sends : (fd : ℕ) (cores : List ℕ) (io : Io) → Sends fd [] io (send_stats s fd cores io)
  unfolding send_stats
  send_stats-Sends fd [] io = record { bytes = []; took = Took-refl fd io; whole = λ h. ([], refl) }
  send_stats-Sends fd (core ∷ cores) io =
      Sends-then fd [] io _ (send_stats s fd cores _) (Sends-any fd (send_both-Sends fd _ _ io))
        (send_stats-Sends fd cores _)

-- The answer to a query of the type `type`: 0 after a reply that starts with this type, or -1.
pub record Answers (fd type : ℕ) (io : Io) (r : ℤ × Io) : Type 0 where
  pub bytes : List ℕ
  pub took : Took fd io r.1 bytes
  pub result : ((r.0 ≡ pos 0) × ((rest : List ℕ) × (bytes ≡ type ∷ rest))) ⊎ (r.0 ≡ minus_one)

-- from a message that was sent, or not
Answers-Sends :
    (fd type : ℕ) (l : List ℕ) (io : Io) (r : Bool × Io)
    → Sends fd (type ∷ l) io r
    → Answers fd type io (result_of r.0, r.1)
Answers-Sends fd type l io (true, io1) x = record {
  bytes = x.bytes;
  took = x.took;
  result = let (rest, e) = x.whole refl in inl (refl, (l ++ rest, e));
}
Answers-Sends fd type l io (false, io1) x = record {
  bytes = x.bytes;
  took = x.took;
  result = inr refl;
}

module _ (s : System) where
  reply-Answers :
      (fd type status size : ℕ) (io : Io)
      → Answers fd type io
          (let r = send_bytes s fd (reply_bytes type status size) io in (result_of r.0, r.1))
  unfolding reply_bytes
  reply-Answers fd type status size io =
      Answers-Sends fd type (status ∷ bytes_of 2 size) io _ (send_bytes-Sends s fd _ io)

  exit-Answers :
      (fd type : ℕ) (io : Io) (r : Bool × Io)
      → Answers fd type io (result_of r.0, r.1)
      → Answers fd type io
          (if◌then◌else◌ {A = ℤ × Io} r.0 (pos 0, record r.1 { sigterm = true }) (minus_one, r.1))
  exit-Answers fd type io (true, io1) x = record {
    bytes = x.bytes;
    took = record { own = x.took.own; others = x.took.others };
    result = x.result;
  }
  exit-Answers fd type io (false, io1) x = x

  app_stats-Answers :
      (fd type : ℕ) (l : List ℕ) (io : Io) (first next : Bool × Io)
      → Sends fd (type ∷ l) io first
      → Sends fd [] first.1 next
      → Answers fd type io
          (if◌then◌else◌ {A = ℤ × Io} first.0 (result_of next.0, next.1) (minus_one, first.1))
  app_stats-Answers fd type l io (true, io1) next x y =
      Answers-Sends fd type l io next (Sends-then s fd (type ∷ l) io (true, io1) next x y)
  app_stats-Answers fd type l io (false, io1) next x y = record {
    bytes = x.bytes;
    took = x.took;
    result = inr refl;
  }

  run_handler-Answers :
      (func : Handler) (fd type : ℕ) (io : Io) → Answers fd type io (run_handler s func fd type io)
  unfolding run_handler reply_bytes
  run_handler-Answers handle_cmd_status fd type io = reply-Answers fd type _ _ io
  run_handler-Answers handle_cmd_reload fd type io = reply-Answers fd type _ _ io
  run_handler-Answers handle_cmd_exit fd type io =
      exit-Answers fd type io _ (reply-Answers fd type _ _ io)
  run_handler-Answers handle_cmd_reset_stats fd type io = reply-Answers fd type _ _ io
  run_handler-Answers handle_cmd_version fd type io =
      Answers-Sends fd type _ io _ (send_both-Sends s fd _ s.version io)
  run_handler-Answers handle_cmd_dpdk_stats fd type io =
      Answers-Sends fd type _ io _ (send_both-Sends s fd _ _ io)
  run_handler-Answers handle_cmd_app_stats fd type io =
      app_stats-Answers fd type _ io _ _ (send_bytes-Sends s fd _ io)
        (send_stats-Sends s fd s.slaves _)

  unknown-Answers : (fd type : ℕ) (io : Io) → Answers fd type io (minus_one, io)
  unknown-Answers fd type io = record { bytes = []; took = Took-refl fd io; result = inr refl }

  find_command-Answers :
      (commands : List (ℕ × Handler)) (fd type : ℕ) (io : Io)
      → Answers fd type io (find_command s commands fd type io)
  unfolding find_command
  find_command-Answers [] fd type io = unknown-Answers fd type io
  find_command-Answers ((cmd_type, func) ∷ commands) fd type io =
      elim (Bool-cases (cmd_type == type)) [
        | inl same ↦ rw same (run_handler-Answers func fd type io)
        | inr ne ↦ rw ne (find_command-Answers commands fd type io)
      ]

  -- Whatever the sockets do, a query is answered on the socket that it came from and no other. The
  -- result is 0, after an answer that starts with the type of the query, or -1.
  pub handle_client_query-Answers :
      (fd type : ℕ) (io : Io) → Answers fd type io (handle_client_query s fd type io)
  unfolding handle_client_query
  handle_client_query-Answers fd type io = find_command-Answers natasha_commands fd type io
