-- ===== src/Diff/Hashes.antt =====
-- Hashes are faithful if they are so for each pair of nodes, one of each tree.
use deep_agent_cli.Base.{
  ◌≡◌, refl, subst, inl, inr, true, List, [], ◌∷◌, ◌++◌, All, In, In-append_left, In-append_right,
  All-In,
}
use deep_agent_cli.IndexSync.{same_type}
use deep_agent_cli.Snapshot.{Node, Nodes, node, nil, cons, entry, to_list, children, files}
use deep_agent_cli.Diff.{same_hash}
use deep_agent_cli.Diff.Tree.{Sub, here, below, SameFiles, IsFaithful}

abbrev mutual
  pub nodes : Node → List Node
  nodes (node e cs) = node e cs ∷ nodes_all cs

  pub nodes_all : Nodes → List Node
  nodes_all nil = []
  nodes_all (cons n ns) = nodes n ++ nodes_all ns

nodes_self : (n : Node) → In n (nodes n)
nodes_self (node e cs) = inl refl

In-nodes_all : (m k : Node) (ns : Nodes) → In k (to_list ns) → In m (nodes k) → In m (nodes_all ns)
In-nodes_all m k nil h i = absurd h
In-nodes_all m k (cons n ns) (inl e) i =
    In-append_left m (nodes n) (nodes_all ns) (subst (λ x. In m (nodes x)) e i)
In-nodes_all m k (cons n ns) (inr h) i =
    In-append_right m (nodes n) (nodes_all ns) (In-nodes_all m k ns h i)

In-nodes_child : (m k n : Node) → In k (children n) → In m (nodes k) → In m (nodes n)
In-nodes_child m k (node e cs) h i = inr (In-nodes_all m k cs h i)

Sub-In : (m n : Node) → Sub m n → In m (nodes n)
Sub-In m n here = nodes_self m
Sub-In m n (below {k = k} i s) = In-nodes_child m k n i (Sub-In m k s)

-- Two nodes of one type with one hash have the same files.
abbrev pub Agree : Node → Node → Type 0
Agree n m =
    same_type (entry n).node_type (entry m).node_type ≡ true
    → same_hash (entry n) (entry m) ≡ true
    → SameFiles (files n) (files m)

pub Agree-IsFaithful : (p c : Node) → All (λ n. All (Agree n) (nodes c)) (nodes p) → IsFaithful p c
Agree-IsFaithful p c h n m i j =
    All-In (Agree n) m (nodes c)
      (All-In (λ x. All (Agree x) (nodes c)) n (nodes p) h (Sub-In n p i)) (Sub-In m c j)
