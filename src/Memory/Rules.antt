-- ===== src/Memory/Rules.antt =====
-- The nodes that the semantic actions of src/parseconfig.y build, and that `reset_rules` of
-- src/config.c frees.
use natasha.Base.{
  ℕ, zero, suc, ◌+◌, ◌≡◌, sym, ap, ◌∙◌, arith, true, List, [], ◌∷◌, length, Option, some,
}
use natasha.Config.{
  IpVlan, Action, Node, null, action, seq, if_node, cond_node, and_node, or_node, ipv4_src_addr,
  ipv4_dst_addr,
}
use natasha.NatTable.{Allocator}
use natasha.Parse.{
  Cond, and, or, in_network, on_vlan, Content, nothing, followed_by, Stmt, semicolon, if_else,
  command, build_cond, build_action, build_sequence, build_content, build_stmt,
}
use natasha.Memory.{
  data_blocks, reset_rules, and_then, new_blocks, new_action, parse_cond, parse_sequence,
  parse_content, parse_stmt, parse_extra_ips,
}

module _ (malloc : Allocator) (ok : (i : ℕ) → malloc i ≡ true) where
  -- A semantic action gives `a` and takes so many blocks.
  abbrev pub Takes {ℓ} : {A : Type ℓ} → A → ℕ → (ℕ → Option A × ℕ) → Type ℓ
  Takes a cost f = (n : ℕ) → f n ≡ (some a, n + cost)

  Takes-then {ℓ ℓ'} :
      {A : Type ℓ} {B : Type ℓ'} (a : A) (b : B) (cost cost' : ℕ) (f : ℕ → Option A × ℕ)
      (g : A → ℕ → Option B × ℕ)
      → Takes a cost f
      → Takes b cost' (g a)
      → Takes b (cost + cost') (λ n. and_then (f n) g)
  Takes-then a b cost cost' f g h h' n =
      ap (λ x. and_then x g) (h n) ∙ h' (n + cost) ∙ ap (λ k. (some b, k)) (omega arith)

  pub new_blocks-Takes {ℓ} :
      {A : Type ℓ} (blocks : ℕ) (a : A) → Takes a blocks (λ n. new_blocks malloc blocks a n)
  unfolding new_blocks
  new_blocks-Takes zero a n = ap (λ k. (some a, k)) (omega arith)
  new_blocks-Takes (suc blocks) a n =
      rw (ok n) (new_blocks-Takes blocks a (n + 1) ∙ ap (λ k. (some a, k)) (omega arith))

  -- an action that takes what freeing its node gives back
  abbrev pub Owns : Node → (ℕ → Option Node × ℕ) → Type 0
  Owns node f = Takes node (reset_rules node) f

  new_action-Owns : (a : Action) → Owns (action a) (λ n. new_action malloc a n)
  unfolding new_action reset_rules
  new_action-Owns a n = new_blocks-Takes (data_blocks a + 1) (action a) n

  Owns-two :
      (l r node : Node) (blocks : ℕ) (f g : ℕ → Option Node × ℕ)
      (h : Node → Node → ℕ → Option Node × ℕ)
      → reset_rules node ≡ reset_rules l + (reset_rules r + blocks)
      → Owns l f
      → Owns r g
      → Takes node blocks (h l r)
      → Owns node (λ n. and_then (f n) (λ l' n1. and_then (g n1) (λ r' n2. h l' r' n2)))
  Owns-two l r node blocks f g h e hl hr last n =
      Takes-then l node (reset_rules l) (reset_rules r + blocks) f
        (λ l' n1. and_then (g n1) (λ r' n2. h l' r' n2)) hl
        (Takes-then r node (reset_rules r) blocks g (λ r' n2. h l r' n2) hr last) n
      ∙ ap (λ k. (some node, n + k)) (sym e)

  pub parse_cond-Owns : (c : Cond) → Owns (build_cond c) (λ n. parse_cond malloc c n)
  unfolding parse_cond build_cond reset_rules
  parse_cond-Owns (and lhs rhs) n =
      let l = build_cond lhs in
      let r = build_cond rhs in
      Owns-two l r (and_node l r) 1 _ (λ n. parse_cond malloc rhs n)
        (λ l' r' n2. new_blocks malloc 1 (and_node l' r') n2) (omega arith) (parse_cond-Owns lhs)
        (parse_cond-Owns rhs) (new_blocks-Takes 1 (and_node l r)) n
  parse_cond-Owns (or lhs rhs) n =
      let l = build_cond lhs in
      let r = build_cond rhs in
      Owns-two l r (or_node l r) 1 _ (λ n. parse_cond malloc rhs n)
        (λ l' r' n2. new_blocks malloc 1 (or_node l' r') n2) (omega arith) (parse_cond-Owns lhs)
        (parse_cond-Owns rhs) (new_blocks-Takes 1 (or_node l r)) n
  parse_cond-Owns (in_network ipv4_src_addr network) n = new_action-Owns _ n
  parse_cond-Owns (in_network ipv4_dst_addr network) n = new_action-Owns _ n
  parse_cond-Owns (on_vlan v) n = new_action-Owns _ n

  -- the blocks of the node that joins two statements, if any
  abbrev joint : Node → Node → ℕ
  joint null new = 0
  joint prev null = 0
  joint prev new = 1

  parse_sequence-Takes :
      (prev new : Node)
      → Takes (build_sequence prev new) (joint prev new) (λ n. parse_sequence malloc prev new n)
  unfolding parse_sequence build_sequence
  parse_sequence-Takes null new n = ap (λ k. (some new, k)) (omega arith)
  parse_sequence-Takes prev null n = ap (λ k. (some prev, k)) (omega arith)
  parse_sequence-Takes prev new n = new_blocks-Takes 1 (seq prev new) n

  joint_lem :
      (prev new : Node)
      → reset_rules (build_sequence prev new)
        ≡ reset_rules prev + (reset_rules new + joint prev new)
  unfolding build_sequence reset_rules
  joint_lem null new = omega arith
  joint_lem prev null = omega arith
  joint_lem prev new = omega arith

  mutual
    unfolding parse_content parse_stmt build_content build_stmt reset_rules

    pub parse_content-Owns : (c : Content) → Owns (build_content c) (λ n. parse_content malloc c n)
    parse_content-Owns nothing n = ap (λ k. (some null, k)) (omega arith)
    parse_content-Owns (followed_by prev new) n =
        let l = build_content prev in
        let r = build_stmt new in
        Owns-two l r (build_sequence l r) (joint l r) _ (λ n. parse_stmt malloc new n)
          (λ l' r' n2. parse_sequence malloc l' r' n2) (joint_lem l r) (parse_content-Owns prev)
          (parse_stmt-Owns new) (parse_sequence-Takes l r) n

    pub parse_stmt-Owns : (s : Stmt) → Owns (build_stmt s) (λ n. parse_stmt malloc s n)
    parse_stmt-Owns semicolon n = ap (λ k. (some null, k)) (omega arith)
    parse_stmt-Owns (if_else what body otherwise) n =
        let c = build_cond what in
        let b = build_content body in
        let e = build_content otherwise in
        let node = if_node (cond_node c b) e in
        Takes-then c node (reset_rules c) (reset_rules b + (reset_rules e + 2)) _ _
          (parse_cond-Owns what)
          (Takes-then b node (reset_rules b) (reset_rules e + 2) _ _ (parse_content-Owns body) (
            Takes-then e node (reset_rules e) 2 _
              (λ e' n3. new_blocks malloc 2 (if_node (cond_node c b) e') n3)
              (parse_content-Owns otherwise) (new_blocks-Takes 2 node)))
          n
        ∙ ap (λ k. (some node, n + k)) (omega arith)
    parse_stmt-Owns (command c) n = new_action-Owns (build_action c) n

  pub parse_extra_ips-Takes :
      (ips : List IpVlan) → Takes ips (length ips) (λ n. parse_extra_ips malloc ips n)
  unfolding parse_extra_ips
  parse_extra_ips-Takes [] n = ap (λ k. (some [], k)) (omega arith)
  parse_extra_ips-Takes (ip ∷ ips) n =
      Takes-then ips (ip ∷ ips) (length ips) 1 _ (λ next n1. new_blocks malloc 1 (ip ∷ next) n1)
        (parse_extra_ips-Takes ips) (new_blocks-Takes 1 (ip ∷ ips)) n
      ∙ ap (λ k. (some (ip ∷ ips), n + k)) (omega arith)
