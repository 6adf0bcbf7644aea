-- ===== src/Snapshot/Build/Tree.antt =====
-- What the tree of `BuildNodeTree` in internal/indexsync/snapshot/builder.go holds.
use deep_agent_cli.Base.{
  ℕ, suc, ◌≡◌, refl, sym, ap, ◌∙◌, subst, ◌⊎◌, inl, inr, Bool, true, false, false≢true, some, List,
  [], ◌∷◌, arith, ◌==◌, if◌then◌else◌, In,
}
use deep_agent_cli.Text.{Text}
use deep_agent_cli.Snapshot.{Entry, Node, Nodes, node, nil, cons, entry}
use deep_agent_cli.Snapshot.Build.{
  Result, built, failed, ◌>>=◌, parent_path, NodesByPath, node_at, placed_entry, relative,
  parent_of, append_child, attach,
}

-- `e` stands below the node, or among the nodes or below one of them.
abbrev mutual
  pub Has : Entry → Node → Type 0
  Has e (node x cs) = HasAny e cs

  pub HasAny : Entry → Nodes → Type 0
  HasAny e nil = ⊥
  HasAny e (cons n ns) = (e ≡ entry n) ⊎ Has e n ⊎ HasAny e ns

pub bind-built :
    {A B : Type 0} (m : Result A) (f : A → Result B) (b : B)
    → (m >>= f) ≡ built b
    → (a : A) × (m ≡ built a) × (f a ≡ built b)
bind-built (built a) f b h = (a, refl, h)
bind-built (failed e) f b h = absurd (ground arith)

pub built_injective : {A : Type 0} (a b : A) → built a ≡ built b → a ≡ b
built_injective a b h = ground arith

-- The entry of the list as the loop rewrites it.
pub record IsPlaced (entries : List Entry) (e : Entry) : Type 0 where
  pub source : Entry
  pub present : In source entries
  pub path : Text
  pub normalizes : relative source.path ≡ built path
  pub rewritten : e ≡ placed_entry source path

later : {x : Entry} {es : List Entry} {e : Entry} → IsPlaced es e → IsPlaced (x ∷ es) e
later k = record {
  source = k.source;
  present = inr k.present;
  path = k.path;
  normalizes = k.normalizes;
  rewritten = k.rewritten;
}

-- the number is that of a node
abbrev pub IsNode : ℕ → NodesByPath → Type 0
IsNode i [] = ⊥
IsNode i ((p, j) ∷ rest) = (i ≡ j) ⊎ IsNode i rest

node_at-IsNode :
    (path : Text) (nodes : NodesByPath) (i : ℕ) → node_at path nodes ≡ some i → IsNode i nodes
unfolding node_at
node_at-IsNode path [] i h = absurd (ground arith)
node_at-IsNode path ((p, j) ∷ rest) i h = ground (arith, node_at-IsNode path rest i)

parent_of-IsNode :
    (path : Text) (nodes : NodesByPath) (i : ℕ) → parent_of path nodes ≡ built i → IsNode i nodes
unfolding parent_of
parent_of-IsNode path nodes i h = ground (arith, node_at-IsNode (parent_path path) nodes i)

-- What a round appends for a node, by whether it is the parent.
HasAny-if :
    (b : Bool) (child : Node) (ns : Nodes) (e : Entry)
    → HasAny e (if b then cons child ns else ns)
    → ((e ≡ entry child) ⊎ Has e child) ⊎ HasAny e ns
HasAny-if true child ns e (inl q) = inl (inl q)
HasAny-if true child ns e (inr (inl q)) = inl (inr q)
HasAny-if true child ns e (inr (inr q)) = inr q
HasAny-if false child ns e h = inr h

if-HasAny_child :
    (b : Bool) (child : Node) (ns : Nodes) (e : Entry)
    → b ≡ true
    → ((e ≡ entry child) ⊎ Has e child)
    → HasAny e (if b then cons child ns else ns)
if-HasAny_child true child ns e q (inl h) = inl h
if-HasAny_child true child ns e q (inr h) = inr (inl h)
if-HasAny_child false child ns e q h = absurd (false≢true q)

if-HasAny :
    (b : Bool) (child : Node) (ns : Nodes) (e : Entry)
    → HasAny e ns
    → HasAny e (if b then cons child ns else ns)
if-HasAny true child ns e h = inr (inr h)
if-HasAny false child ns e h = h

same : (n : ℕ) → (n == n) ≡ true
same n = ground arith

-- The steps of a round that succeeds.
pub record Round (e : Entry) (es : List Entry) (nodes : NodesByPath) (n : ℕ) (f : ℕ → Nodes)
    : Type 0 where
  pub path : Text
  pub normalizes : relative e.path ≡ built path
  pub parent : ℕ
  pub found : parent_of path nodes ≡ built parent
  pub rest : ℕ → Nodes
  pub attached : attach es ((path, n) ∷ nodes) (suc n) ≡ built rest
  pub result : f ≡ append_child parent (node (placed_entry e path) (rest n)) rest

pub attach-Round :
    (e : Entry) (es : List Entry) (nodes : NodesByPath) (n : ℕ) (f : ℕ → Nodes)
    → attach (e ∷ es) nodes n ≡ built f
    → Round e es nodes n f
unfolding attach
attach-Round e es nodes n f h =
    let (path, a, h1) = bind-built (relative e.path) _ f h in
    let (parent, b, h2) = bind-built (parent_of path nodes) _ f h1 in
    let (rest, c, h3) = bind-built (attach es ((path, n) ∷ nodes) (suc n)) _ f h2 in
    record {
      path = path;
      normalizes = a;
      parent = parent;
      found = b;
      rest = rest;
      attached = c;
      result = sym (built_injective _ f h3);
    }

-- Everything that the loop appends is an entry of the list.
pub attach-sound :
    (es : List Entry) (nodes : NodesByPath) (n : ℕ) (f : ℕ → Nodes)
    → attach es nodes n ≡ built f
    → (i : ℕ) (e : Entry) → HasAny e (f i)
    → IsPlaced es e
unfolding attach
attach-sound [] nodes n f h i e m =
    absurd (subst (λ g. HasAny e (g i)) (sym (built_injective _ f h)) m)
attach-sound (x ∷ es) nodes n f h i e m =
    let r = attach-Round x es nodes n f h in
    let ih = attach-sound es ((r.path, n) ∷ nodes) (suc n) r.rest r.attached in
    elim (HasAny-if (i == r.parent) (node (placed_entry x r.path) (r.rest n)) (r.rest i) e
      (subst (λ g. HasAny e (g i)) r.result m)) [
        | inl (inl q) ↦ record {
          source = x;
          present = inl refl;
          path = r.path;
          normalizes = r.normalizes;
          rewritten = q;
        }
        | inl (inr q) ↦ later (ih n e q)
        | inr q ↦ later (ih i e q)
      ]

-- Every entry of the list is appended below one of the nodes that are there.
pub attach_complete :
    (es : List Entry) (nodes : NodesByPath) (n : ℕ) (f : ℕ → Nodes)
    → attach es nodes n ≡ built f
    → (x : Entry) → In x es
    → (path : Text) → relative x.path ≡ built path
    → (i : ℕ) × IsNode i nodes × HasAny (placed_entry x path) (f i)
unfolding attach
attach_complete [] nodes n f h x m path q = absurd m
attach_complete (y ∷ es) nodes n f h x (inl m) path q =
    let r = attach-Round y es nodes n f h in
    let child = node (placed_entry y r.path) (r.rest n) in
    let path_eq : path ≡ r.path =
      built_injective path r.path (sym q ∙ ap (λ t. relative t.path) m ∙ r.normalizes) in
    (
      r.parent,
      parent_of-IsNode r.path nodes r.parent r.found,
      subst (λ g. HasAny (placed_entry x path) (g r.parent)) (sym r.result)
          (if-HasAny_child (r.parent == r.parent) child (r.rest r.parent) (placed_entry x path)
            (same r.parent) (inl (placed_eq x y path r.path m path_eq))),
    )
  where
    placed_eq : (x y : Entry) (p q : Text) → x ≡ y → p ≡ q → placed_entry x p ≡ placed_entry y q
    placed_eq x y p q a b = ap (λ t. placed_entry t p) a ∙ ap (placed_entry y) b
attach_complete (y ∷ es) nodes n f h x (inr m) path q =
    let r = attach-Round y es nodes n f h in
    let child = node (placed_entry y r.path) (r.rest n) in
    let (i, known, has) =
      attach_complete es ((r.path, n) ∷ nodes) (suc n) r.rest r.attached x m path q in
    elim known [
      | inl is_new ↦ (
        r.parent,
        parent_of-IsNode r.path nodes r.parent r.found,
        subst (λ g. HasAny (placed_entry x path) (g r.parent)) (sym r.result)
            (if-HasAny_child (r.parent == r.parent) child (r.rest r.parent) (placed_entry x path)
              (same r.parent)
              (inr (subst (λ j. HasAny (placed_entry x path) (r.rest j)) is_new has))),
      )
      | inr old ↦ (
        i,
        old,
        subst (λ g. HasAny (placed_entry x path) (g i)) (sym r.result)
            (if-HasAny (i == r.parent) child (r.rest i) (placed_entry x path) has),
      )
    ]
