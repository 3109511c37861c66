-- ===== src/Rules/Ending.antt =====
-- Rules that end in a breaking action on every path, as docs/CONFIGURATION.md asks for.
use natasha.Base.{ℕ, ◌≡◌, refl, Bool, true, false, ◌&&◌, ◌||◌, is_neg, ◌⊎◌, inl, inr, ◌∙◌}
use natasha.Platform.{Platform}
use natasha.Core.{Core}
use natasha.Parse.{
  Content, Stmt, nothing, followed_by, semicolon, if_else, command, rewrite, send_out, print_it,
  drop_it, build_content, build_action,
}
use natasha.Config.{Node}
use natasha.Rules.{run_action, process_rules, action_drop, action_out}
use natasha.Rules.Outcome.{Outcome, go_on, stop, and_then, result}
use natasha.Rules.Meaning.{exec, exec_stmt, holds, process_rules-build_content}

unfoldable mutual
  -- A `drop` or `out` on every path.
  pub ends : Content → Bool
  ends nothing = false
  ends (followed_by prev new) = ends prev || ends_stmt new

  pub ends_stmt : Stmt → Bool
  ends_stmt semicolon = false
  ends_stmt (if_else what body otherwise) = ends body && ends otherwise
  ends_stmt (command (send_out port mac v)) = true
  ends_stmt (command drop_it) = true
  ends_stmt (command a) = false

-- Rules that return -1 whatever the packet and the state.
abbrev pub IsBreaking : Platform → ℕ → ℕ → Node → Type 0
IsBreaking e p port node = (c : Core) → is_neg (process_rules e node p port c).0 ≡ true

abbrev stopped : Outcome → Bool
stopped (go_on c) = false
stopped (stop c) = true

stopped-and_then_left :
    (o : Outcome) (f : Core → Outcome) → stopped o ≡ true → stopped (and_then o f) ≡ true
stopped-and_then_left (go_on c) f h = cc
stopped-and_then_left (stop c) f h = refl

stopped-and_then_right :
    (o : Outcome) (f : Core → Outcome)
    → ((c : Core) → stopped (f c) ≡ true)
    → stopped (and_then o f) ≡ true
stopped-and_then_right (go_on c) f h = h c
stopped-and_then_right (stop c) f h = refl

or-cases : (a b : Bool) → (a || b) ≡ true → (a ≡ true) ⊎ (b ≡ true)
or-cases true b h = inl refl
or-cases false b h = inr h

and-both : (a b : Bool) → (a && b) ≡ true → (a ≡ true) × (b ≡ true)
and-both true b h = (refl, h)
and-both false b h = cc

is_neg-result : (o : Outcome) → is_neg (result o).0 ≡ stopped o
is_neg-result (go_on c) = refl
is_neg-result (stop c) = refl

module _ (e : Platform) (p port : ℕ) where
  branch-stopped :
      (b : Bool) (o q : Outcome)
      → stopped o ≡ true
      → stopped q ≡ true
      → stopped (elim b [ true ↦ o | false ↦ q ]) ≡ true
  branch-stopped true o q h k = h
  branch-stopped false o q h k = k

  mutual
    unfolding ends ends_stmt exec exec_stmt run_action build_action action_drop action_out

    ends-stopped :
        (rules : Content) → ends rules ≡ true → (c : Core) → stopped (exec e p port rules c) ≡ true
    ends-stopped nothing h c = cc
    ends-stopped (followed_by prev new) h c = elim (or-cases (ends prev) (ends_stmt new) h) [
      | inl first ↦
          stopped-and_then_left (exec e p port prev c) (exec_stmt e p port new)
            (ends-stopped prev first c)
      | inr last ↦
          stopped-and_then_right (exec e p port prev c) (exec_stmt e p port new)
            (ends_stmt-stopped new last)
    ]

    ends_stmt-stopped :
        (s : Stmt) → ends_stmt s ≡ true → (c : Core) → stopped (exec_stmt e p port s c) ≡ true
    ends_stmt-stopped semicolon h c = cc
    ends_stmt-stopped (if_else what body otherwise) h c =
        let both = and-both (ends body) (ends otherwise) h in
        branch-stopped (holds e what (c.heap p)) (exec e p port body c) (exec e p port otherwise c)
          (ends-stopped body both.0 c) (ends-stopped otherwise both.1 c)
    ends_stmt-stopped (command (send_out o mac v)) h c = refl
    ends_stmt-stopped (command drop_it) h c = refl
    ends_stmt-stopped (command (rewrite f)) h c = cc
    ends_stmt-stopped (command print_it) h c = cc

  -- The tree of rules that have a `drop` or an `out` on every path makes `process_rules` return a
  -- negative result, for every packet and state.
  pub build_content-IsBreaking :
      (rules : Content) → ends rules ≡ true → IsBreaking e p port (build_content rules)
  build_content-IsBreaking rules h c =
      rw process_rules-build_content
        (is_neg-result (exec e p port rules c) ∙ ends-stopped rules h c)
