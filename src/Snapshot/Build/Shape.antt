-- ===== src/Snapshot/Build/Shape.antt =====
-- The tree of `BuildNodeTree` in internal/indexsync/snapshot/builder.go is one that the diff of two
-- snapshots takes.
use deep_agent_cli.Base.{
  ℕ, suc, ◌≡◌, refl, sym, ap, ◌∙◌, subst, ◌⊎◌, inl, inr, Bool, true, false, List, [], ◌∷◌, arith,
  ◌==◌, if◌then◌else◌, Bool-cases, All, In,
}
use deep_agent_cli.Base.Sort.{sort, insert, In-sort, All-sort}
use deep_agent_cli.Text.{Text}
use deep_agent_cli.Snapshot.{Entry, Node, Nodes, node, nil, cons, entry, to_list}
use deep_agent_cli.Snapshot.Build.{
  built, entry_le, child_le, of_list, sort_tree, sort_trees, NodesByPath, placed_entry, relative,
  attach,
}
use deep_agent_cli.Snapshot.Build.Tree.{HasAny, attach-Round, attach-sound, built_injective}
use deep_agent_cli.Diff.{paths}
use deep_agent_cli.Diff.Keys.{Distinct}
use deep_agent_cli.Diff.Tree.{IsSupported, IsTree, AreTrees}

paths-In :
    (p : Text) (ns : List Node) → In p (paths ns) → (m : Node) × In m ns × (p ≡ (entry m).path)
paths-In p [] h = absurd h
paths-In p (n ∷ ns) (inl e) = (n, inl refl, e)
paths-In p (n ∷ ns) (inr h) = let (m, i, e) = paths-In p ns h in (m, inr i, e)

In-to_list : (m : Node) (ns : Nodes) → In m (to_list ns) → HasAny (entry m) ns
In-to_list m nil h = absurd h
In-to_list m (cons n ns) (inl e) = inl (ap entry e)
In-to_list m (cons n ns) (inr h) = inr (inr (In-to_list m ns h))

-- No two entries normalize to one path, and each is a file or a directory.
abbrev pub IsListing : List Entry → Type 0
IsListing [] = Unit
IsListing (x ∷ es) =
    ((path : Text)
      → relative x.path ≡ built path
      → (y : Entry) → In y es
      → ¬ (relative y.path ≡ built path))
    × IsSupported x.node_type
    × IsListing es

abbrev pub WellShaped : Nodes → Type 0
WellShaped ns = Distinct (to_list ns) × AreTrees ns

WellShaped-if :
    (b : Bool) (child : Node) (ns : Nodes)
    → IsTree child
    → (¬ In (entry child).path (paths (to_list ns)))
    → WellShaped ns
    → WellShaped (if b then cons child ns else ns)
WellShaped-if true child ns t d h = ((d, h.0), (t, h.1))
WellShaped-if false child ns t d h = h

pub attach-WellShaped :
    (es : List Entry) (nodes : NodesByPath) (n : ℕ) (f : ℕ → Nodes)
    → attach es nodes n ≡ built f
    → IsListing es
    → (i : ℕ) → WellShaped (f i)
unfolding attach
attach-WellShaped [] nodes n f h l i =
    subst (λ g. WellShaped (g i)) (built_injective _ f h) (tt, tt)
attach-WellShaped (x ∷ es) nodes n f h l i =
    let r = attach-Round x es nodes n f h in
    let ih = attach-WellShaped es ((r.path, n) ∷ nodes) (suc n) r.rest r.attached l.2 in
    subst (λ g. WellShaped (g i)) (sym r.result)
      (WellShaped-if (i == r.parent) (node (placed_entry x r.path) (r.rest n)) (r.rest i)
        (l.1, (ih n).0, (ih n).1)
        (λ m.
          let (k, j, e) = paths-In r.path (to_list (r.rest i)) m in
          let p =
            attach-sound es ((r.path, n) ∷ nodes) (suc n) r.rest r.attached i (entry k)
              (In-to_list k (r.rest i) j) in
          l.0 r.path r.normalizes p.source p.present
            (p.normalizes ∙ ap built (sym (e ∙ ap (λ t. t.path) p.rewritten))))
        (ih i))

In-insert : (a x : Node) (xs : List Node) → In a (insert child_le x xs) → In a (x ∷ xs)
unfolding insert
In-insert a x [] h = h
In-insert a x (y ∷ xs) h = ground (arith, In-insert a x xs)

In-paths : (n : Node) (ns : List Node) → In n ns → In (entry n).path (paths ns)
In-paths n [] h = absurd h
In-paths n (m ∷ ns) (inl e) = inl (ap (λ k. (entry k).path) e)
In-paths n (m ∷ ns) (inr h) = inr (In-paths n ns h)

In-paths_insert :
    (p : Text) (x : Node) (xs : List Node)
    → In p (paths (insert child_le x xs))
    → (p ≡ (entry x).path) ⊎ In p (paths xs)
In-paths_insert p x xs h =
    let (m, i, e) = paths-In p (insert child_le x xs) h in
    elim (In-insert m x xs i) [
      | inl q ↦ inl (e ∙ ap (λ k. (entry k).path) q)
      | inr j ↦ inr (subst (λ t. In t (paths xs)) (sym e) (In-paths m xs j))
    ]

insert-Distinct :
    (x : Node) (xs : List Node)
    → Distinct xs
    → (¬ In (entry x).path (paths xs))
    → Distinct (insert child_le x xs)
unfolding insert
insert-Distinct x [] d h = (λ i. i, tt)
insert-Distinct x (y ∷ xs) d h = elim (Bool-cases (child_le x y)) [
  | inl e ↦ rw e (h, d)
  | inr e ↦ rw e (
    λ i. elim (In-paths_insert (entry y).path x xs i) [ inl q ↦ h (inl (sym q)) | inr j ↦ d.0 j ],
    insert-Distinct x xs d.1 (λ i. h (inr i)),
  )
]

sort-Distinct : (xs : List Node) → Distinct xs → Distinct (sort child_le xs)
unfolding sort
sort-Distinct [] d = tt
sort-Distinct (x ∷ xs) d = insert-Distinct x (sort child_le xs) (sort-Distinct xs d.1) (λ i.
    let (m, j, e) = paths-In (entry x).path (sort child_le xs) i in
    d.0 (subst (λ t. In t (paths xs)) (sym e) (In-paths m xs ((In-sort child_le m xs).0 j))))

to_list-of_list : (ns : List Node) → to_list (of_list ns) ≡ ns
to_list-of_list [] = refl
to_list-of_list (n ∷ ns) = ap (λ l. n ∷ l) (to_list-of_list ns)

of_list-AreTrees : (ns : List Node) → All IsTree ns → AreTrees (of_list ns)
of_list-AreTrees [] h = tt
of_list-AreTrees (n ∷ ns) h = (h.0, of_list-AreTrees ns h.1)

paths_sort_trees : (ns : Nodes) → paths (to_list (sort_trees ns)) ≡ paths (to_list ns)
unfolding sort_trees sort_tree
paths_sort_trees nil = refl
paths_sort_trees (cons (node e cs) ns) = ap (λ l. e.path ∷ l) (paths_sort_trees ns)

Distinct-paths : (xs ys : List Node) → paths xs ≡ paths ys → Distinct ys → Distinct xs
Distinct-paths [] ys h d = tt
Distinct-paths (x ∷ xs) [] h d = absurd (ground arith)
Distinct-paths (x ∷ xs) (y ∷ ys) h d = (
  λ i. d.0 (subst (λ t. In t (paths ys)) (first h) (subst (λ l. In (entry x).path l) (others h) i)),
  Distinct-paths xs ys (others h) d.1,
)
  where
    first : {a b : Text} {ps qs : List Text} → a ∷ ps ≡ b ∷ qs → a ≡ b
    first h = ground arith

    others : {a b : Text} {ps qs : List Text} → a ∷ ps ≡ b ∷ qs → ps ≡ qs
    others h = ground arith

mutual
  unfolding sort_tree sort_trees

  pub sort_tree-IsTree : (n : Node) → IsTree n → IsTree (sort_tree n)
  sort_tree-IsTree (node e cs) h =
      let d = Distinct-paths (to_list (sort_trees cs)) (to_list cs) (paths_sort_trees cs) h.1 in
      (
        h.0,
        subst Distinct (sym (to_list-of_list (sort child_le (to_list (sort_trees cs)))))
            (sort-Distinct (to_list (sort_trees cs)) d),
        of_list-AreTrees (sort child_le (to_list (sort_trees cs)))
            (All-sort child_le IsTree (to_list (sort_trees cs)) (sort_trees-All cs h.2)),
      )

  sort_trees-All : (ns : Nodes) → AreTrees ns → All IsTree (to_list (sort_trees ns))
  sort_trees-All nil h = tt
  sort_trees-All (cons n ns) h = (sort_tree-IsTree n h.0, sort_trees-All ns h.1)

IsListing-insert :
    (x : Entry) (es : List Entry) → IsListing (x ∷ es) → IsListing (insert entry_le x es)
unfolding insert
IsListing-insert x [] l = l
IsListing-insert x (y ∷ es) l = elim (Bool-cases (entry_le x y)) [
  | inl e ↦ rw e l
  | inr e ↦ rw e (
    λ p q z i. elim (In-insert_entry z x es i) [
      | inl s ↦ λ t. l.0 p (ap (λ u. relative u.path) (sym s) ∙ t) y (inl refl) q
      | inr j ↦ l.2.0 p q z j
    ],
    l.2.1,
    IsListing-insert x es (λ p q z i. l.0 p q z (inr i), l.1, l.2.2),
  )
]
  where
    In-insert_entry : (a x : Entry) (xs : List Entry) → In a (insert entry_le x xs) → In a (x ∷ xs)
    In-insert_entry a x [] h = h
    In-insert_entry a x (y ∷ xs) h = ground (arith, In-insert_entry a x xs)

pub IsListing-sort : (es : List Entry) → IsListing es → IsListing (sort entry_le es)
unfolding sort
IsListing-sort [] l = tt
IsListing-sort (x ∷ es) l =
    IsListing-insert x (sort entry_le es)
      (λ p q z i. l.0 p q z ((In-sort entry_le z es).0 i), l.1, IsListing-sort es l.2)
