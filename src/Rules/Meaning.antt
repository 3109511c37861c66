-- ===== src/Rules/Meaning.antt =====
-- What the rules of a configuration file mean, against `process_rules` of src/ipv4.c on the tree
-- that src/parseconfig.y builds.
use natasha.Base.{ℕ, ℤ, pos, Bool, true, false, ◌≡◌, inl, inr, refl, ap, sym, arith, ◌∙◌}
use natasha.Base.{if◌then◌else◌, ◌&&◌, ◌||◌}
use natasha.Platform.{Platform, Mbuf}
use natasha.Config.{
  Node, null, seq, if_node, cond_node, and_node, or_node, RewriteField, ipv4_src_addr,
  ipv4_dst_addr,
}
use natasha.Core.{Core}
use natasha.Cond.{cond_ipv4_src_in_network, cond_ipv4_dst_in_network, cond_vlan}
use natasha.NatRewrite.{action_nat_rewrite, action_nat_rewrite_impl, icmp_nat_handle}
use natasha.Parse.{
  Cond, and, or, in_network, on_vlan, Command, rewrite, send_out, print_it, drop_it, Content, Stmt,
  nothing, followed_by, semicolon, if_else, command, build_cond, build_action, build_sequence,
  build_content, build_stmt,
}
use natasha.Rules.{action_drop, action_out, of_bool, run_action, process_rules, checked, is_zero}
use natasha.Rules.Outcome.{
  Outcome, go_on, stop, result, outcome, and_then, build_sequence_cases, result-eq-go_on,
  and_then_go_on,
}

module _ (e : Platform) where
  nat_rewrite_result :
      (p : ℕ) (field : RewriteField) (c : Core)
      → action_nat_rewrite e p field c ≡ result (outcome (action_nat_rewrite e p field c))
  unfolding action_nat_rewrite action_nat_rewrite_impl icmp_nat_handle
  nat_rewrite_result p ipv4_src_addr c = ground arith
  nat_rewrite_result p ipv4_dst_addr c = ground arith

  unfoldable pub holds : Cond → Mbuf → Bool
  holds (and l r) m = holds l m && holds r m
  holds (or l r) m = holds l m || holds r m
  holds (in_network ipv4_src_addr n) m = cond_ipv4_src_in_network e m n
  holds (in_network ipv4_dst_addr n) m = cond_ipv4_dst_in_network e m n
  holds (on_vlan v) m = cond_vlan m v

  module _ (p port : ℕ) where
    unfoldable mutual
      pub exec : Content → Core → Outcome
      exec nothing c = go_on c
      exec (followed_by prev new) c = and_then (exec prev c) (exec_stmt new)

      pub exec_stmt : Stmt → Core → Outcome
      exec_stmt semicolon c = go_on c
      exec_stmt (if_else what body otherwise) c = elim (holds what (c.heap p)) [
        | true ↦ exec body c
        | false ↦ exec otherwise c
      ]
      exec_stmt (command a) c = outcome (run_action e (build_action a) p port c)

    process_and :
        (l r : Node) (x y : Bool) (c : Core)
        → process_rules e l p port c ≡ (of_bool x, c)
        → process_rules e r p port c ≡ (of_bool y, c)
        → process_rules e (and_node l r) p port c ≡ (of_bool (x && y), c)
    unfolding process_rules
    process_and l r true true c hl hr = rw (hl, hr)
    process_and l r true false c hl hr = rw (hl, hr)
    process_and l r false y c hl hr = rw hl

    process_or :
        (l r : Node) (x y : Bool) (c : Core)
        → process_rules e l p port c ≡ (of_bool x, c)
        → process_rules e r p port c ≡ (of_bool y, c)
        → process_rules e (or_node l r) p port c ≡ (of_bool (x || y), c)
    unfolding process_rules
    process_or l r true y c hl hr = rw hl
    process_or l r false true c hl hr = rw (hl, hr)
    process_or l r false false c hl hr = rw (hl, hr)

    -- A condition is evaluated as a Boolean, and leaves everything as it is.
    process_cond :
        (what : Cond) (c : Core)
        → process_rules e (build_cond what) p port c ≡ (of_bool (holds what (c.heap p)), c)
    unfolding process_rules build_cond holds run_action
    process_cond (and l r) c =
        process_and (build_cond l) (build_cond r) (holds l (c.heap p)) (holds r (c.heap p)) c
          (process_cond l c) (process_cond r c)
    process_cond (or l r) c =
        process_or (build_cond l) (build_cond r) (holds l (c.heap p)) (holds r (c.heap p)) c
          (process_cond l c) (process_cond r c)
    process_cond (in_network ipv4_src_addr n) c = refl
    process_cond (in_network ipv4_dst_addr n) c = refl
    process_cond (on_vlan v) c = refl

    -- An action returns 0 or -1.
    run_command :
        (a : Command) (c : Core)
        → run_action e (build_action a) p port c
          ≡ result (outcome (run_action e (build_action a) p port c))
    unfolding run_action build_action
    run_command (rewrite field) c = nat_rewrite_result p field c
    run_command (send_out o mac v) c = unfold action_out in refl
    run_command print_it c = refl
    run_command drop_it c = unfold action_drop in refl

    -- The tree `node` does what `f` says.
    abbrev Runs : Node → (Core → Outcome) → Type 0
    Runs node f = (c : Core) → process_rules e node p port c ≡ result (f c)

    after_else : (o : Outcome) → checked (result o) (λ _ c2. (pos 0, c2)) ≡ result o
    after_else (go_on c) = refl
    after_else (stop c) = refl

    Runs-seq :
        (l r : Node) (f g : Core → Outcome)
        → Runs l f
        → Runs r g
        → Runs (seq l r) (λ c. and_then (f c) g)
    unfolding process_rules
    Runs-seq l r f g hl hr c = rw (hl c) (after (f c))
      where
        after :
            (o : Outcome)
            → checked
                (result o)
                (λ _ c1. checked (process_rules e r p port c1) (λ _ c2. (pos 0, c2)))
              ≡ result (and_then o g)
        after (go_on c1) = rw (hr c1) (after_else (g c1))
        after (stop c1) = refl

    -- The null tree goes on with everything as it is.
    Runs-null : (l : Node) (f : Core → Outcome) → l ≡ null → Runs l f → (c : Core) → f c ≡ go_on c
    unfolding process_rules
    Runs-null l f e h c = result-eq-go_on (f c) c (rw e at (h c))

    Runs-sequence :
        (l r : Node) (f g : Core → Outcome)
        → Runs l f
        → Runs r g
        → Runs (build_sequence l r) (λ c. and_then (f c) g)
    Runs-sequence l r f g hl hr = elim (build_sequence_cases l r) [
      | inl (el, eb) ↦ λ c. rw (eb, Runs-null l f el hl c) (hr c)
      | inr (inl (er, eb)) ↦
          λ c. rw eb (hl c ∙ ap result (sym (and_then_go_on (f c) g (Runs-null r g er hr))))
      | inr (inr eb) ↦ rw eb (Runs-seq l r f g hl hr)
    ]

    -- the rest of an `if` after the result of its COND node
    abbrev or_else : Node → ℤ → Core → ℤ × Core
    or_else node ret c =
        if is_zero ret
        then checked (process_rules e node p port c) (λ _ c2. (pos 0, c2))
        else (pos 0, c)

    after_body :
        (otherwise : Node) (o : Outcome)
        → checked (checked (result o) (λ _ c2. (pos 1, c2))) (or_else otherwise) ≡ result o
    after_body otherwise (go_on c) = refl
    after_body otherwise (stop c) = refl

    process_if :
        (b : Bool) (what body otherwise : Node) (f g : Core → Outcome) (c : Core)
        → process_rules e what p port c ≡ (of_bool b, c)
        → Runs body f
        → Runs otherwise g
        → process_rules e (if_node (cond_node what body) otherwise) p port c
          ≡ result (elim b [ true ↦ f c | false ↦ g c ])
    unfolding process_rules
    process_if true what body otherwise f g c h hb ho = rw (h, hb c) (after_body otherwise (f c))
    process_if false what body otherwise f g c h hb ho = rw (h, ho c) (after_else (g c))

    mutual
      unfolding build_content build_stmt exec exec_stmt process_rules

      content_Runs : (r : Content) → Runs (build_content r) (exec r)
      content_Runs nothing = λ c. refl
      content_Runs (followed_by prev new) =
          Runs-sequence (build_content prev) (build_stmt new) (exec prev) (exec_stmt new)
            (content_Runs prev) (stmt_Runs new)

      stmt_Runs : (s : Stmt) → Runs (build_stmt s) (exec_stmt s)
      stmt_Runs semicolon = λ c. refl
      stmt_Runs (if_else what body otherwise) = λ c.
          process_if (holds what (c.heap p)) (build_cond what) (build_content body)
            (build_content otherwise) (exec body) (exec otherwise) c (process_cond what c)
            (content_Runs body) (content_Runs otherwise)
      stmt_Runs (command a) = run_command a

    -- The tree that the parser builds for the rules of a file makes `process_rules` run them as
    -- written: one after the other, of an `if` the branch that its condition selects, up to the
    -- first breaking action. The result is -1 after a breaking action, and 0 otherwise.
    pub process_rules-build_content :
        (rules : Content) (c : Core)
        → process_rules e (build_content rules) p port c ≡ result (exec rules c)
    process_rules-build_content rules = content_Runs rules
