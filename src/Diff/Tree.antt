-- ===== src/Diff/Tree.antt =====
-- What the theorems ask of the trees that are compared.
use deep_agent_cli.Base.{
  ◌≤◌, ◌≡◌, refl, sym, ap, subst, inl, inr, true, Option, none, some, List, [], ◌∷◌, arith, All, In,
  In-append_left, In-append_right, All-append,
}
use deep_agent_cli.IndexSync.{NodeType, file, dir, same_type}
use deep_agent_cli.Snapshot.{
  Entry, Node, Nodes, node, nil, cons, entry, to_list, children, depth, depth_all, files, files_all,
}
use deep_agent_cli.Diff.{same_hash}
use deep_agent_cli.Diff.Keys.{Distinct}

-- A node type that the code supports.
abbrev pub IsSupported : NodeType → Type 0
IsSupported file = Unit
IsSupported dir = Unit
IsSupported (NodeType.other t) = ⊥

-- A tree of files and directories, in which no two children of a node have one path.
abbrev mutual
  pub IsTree : Node → Type 0
  IsTree (node e cs) = IsSupported e.node_type × Distinct (to_list cs) × AreTrees cs

  pub AreTrees : Nodes → Type 0
  AreTrees nil = Unit
  AreTrees (cons n ns) = IsTree n × AreTrees ns

-- `Sub m n`: `m` is `n` or below it.
pub data Sub (m : Node) : Node → Type 0 where
  here : Sub m m
  below : {k n : Node} → In k (children n) → Sub m k → Sub m n

-- A file of the list `es` has the path and the hash of `e`.
abbrev pub Kept : List Entry → Entry → Type 0
Kept es e = (k : Entry) × In k es × (k.path ≡ e.path) × (k.node_hash ≡ e.node_hash)

abbrev pub SameFiles : List Entry → List Entry → Type 0
SameFiles ps cs = All (Kept cs) ps × All (Kept ps) cs

-- Equal hashes stand for equal files, wherever the two trees are compared.
abbrev pub IsFaithful : Node → Node → Type 0
IsFaithful p c =
    (n m : Node)
    → Sub n p
    → Sub m c
    → same_type (entry n).node_type (entry m).node_type ≡ true
    → same_hash (entry n) (entry m) ≡ true
    → SameFiles (files n) (files m)

abbrev pub files_of : Option Node → List Entry
files_of none = []
files_of (some n) = files n

pub AreTrees-In : (k : Node) (ns : Nodes) → AreTrees ns → In k (to_list ns) → IsTree k
AreTrees-In k nil t h = absurd h
AreTrees-In k (cons n ns) t (inl e) = subst IsTree (sym e) t.0
AreTrees-In k (cons n ns) t (inr h) = AreTrees-In k ns t.1 h

pub depth-In : (k : Node) (ns : Nodes) → In k (to_list ns) → depth k ≤ depth_all ns
unfolding depth
depth-In k nil h = absurd h
depth-In k (cons n ns) (inl e) = omega (arith, ap depth e)
depth-In k (cons n ns) (inr h) = omega (arith, depth-In k ns h)

pub In-files_all :
    (a : Entry) (k : Node) (ns : Nodes) → In k (to_list ns) → In a (files k) → In a (files_all ns)
unfolding files
In-files_all a k nil h i = absurd h
In-files_all a k (cons n ns) (inl e) i =
    In-append_left a (files n) (files_all ns) (subst (λ m. In a (files m)) e i)
In-files_all a k (cons n ns) (inr h) i =
    In-append_right a (files n) (files_all ns) (In-files_all a k ns h i)

-- What holds of the files of each child holds of the files of all.
pub All-files_all :
    (P : Entry → Type 0) (ns : Nodes)
    → ((k : Node) → In k (to_list ns) → All P (files k))
    → All P (files_all ns)
unfolding files
All-files_all P nil h = tt
All-files_all P (cons n ns) h =
    All-append P (files n) (files_all ns) (h n (inl refl)) (All-files_all P ns (λ k i. h k (inr i)))

pub files-dir : (e : Entry) (cs : Nodes) → e.node_type ≡ dir → files (node e cs) ≡ files_all cs
unfolding files
files-dir e cs h = ground arith

pub files-file : (e : Entry) (cs : Nodes) → e.node_type ≡ file → files (node e cs) ≡ e ∷ []
unfolding files
files-file e cs h = ground arith
