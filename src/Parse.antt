-- ===== src/Parse.antt =====
-- The semantic actions of src/parseconfig.y for the section `rules`: the phrases of the grammar, as
-- data, and the tree of `struct app_config_node` that is built for each. Memory for the nodes is
-- taken to be there; `CHECK_PTR` rejects the file otherwise.
use natasha.Base.{ℕ, Option, none, some}
use natasha.Word.{u8}
use natasha.Config.{
  RewriteField, ipv4_src_addr, ipv4_dst_addr, Ipv4Network, Action, nat_rewrite, out, src_in_network,
  dst_in_network, vlan, Node, null, action, seq, if_node, cond_node, and_node, or_node,
}

-- the nonterminal `cond`; parentheses leave no trace
pub data Cond : Type 0 where
  and : Cond → Cond → Cond
  or : Cond → Cond → Cond
  in_network : RewriteField → Ipv4Network → Cond
  on_vlan : ℕ → Cond

-- the nonterminal `action`; the VLAN of `out` is optional
pub data Command : Type 0 where
  rewrite : RewriteField → Command
  send_out : ℕ → ℕ → Option ℕ → Command
  print_it : Command
  drop_it : Command

-- `rules_content` is left recursive; without `else` the third part of `if` is empty
mutual
  pub data Content : Type 0 where
    nothing : Content
    followed_by : Content → Stmt → Content

  pub data Stmt : Type 0 where
    semicolon : Stmt
    if_else : Cond → Content → Content → Stmt
    command : Command → Stmt

unfoldable pub build_cond : Cond → Node
build_cond (and l r) = and_node (build_cond l) (build_cond r)
build_cond (or l r) = or_node (build_cond l) (build_cond r)
build_cond (in_network ipv4_src_addr n) = action (src_in_network n)
build_cond (in_network ipv4_dst_addr n) = action (dst_in_network n)
build_cond (on_vlan v) = action (vlan v)

-- `action_out_opt_vlan`
abbrev pub opt_vlan : Option ℕ → ℕ
opt_vlan none = 0
opt_vlan (some v) = v

unfoldable pub build_action : Command → Action
build_action (rewrite field) = nat_rewrite field
build_action (send_out port mac v) =
    out (record { port = u8 port; vlan = opt_vlan v; next_hop = mac })
build_action print_it = Action.print
build_action drop_it = Action.drop

-- No sequence node for the first statement, nor for an empty one.
unfoldable pub build_sequence : Node → Node → Node
build_sequence null new = new
build_sequence prev null = prev
build_sequence prev new = seq prev new

unfoldable mutual
  pub build_content : Content → Node
  build_content nothing = null
  build_content (followed_by prev new) = build_sequence (build_content prev) (build_stmt new)

  pub build_stmt : Stmt → Node
  build_stmt semicolon = null
  build_stmt (if_else what body otherwise) =
      if_node (cond_node (build_cond what) (build_content body)) (build_content otherwise)
  build_stmt (command c) = action (build_action c)
