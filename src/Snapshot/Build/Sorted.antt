-- ===== src/Snapshot/Build/Sorted.antt =====
-- Sorting the tree of `BuildNodeTree` in internal/indexsync/snapshot/builder.go keeps its entries.
use deep_agent_cli.Base.{◌≡◌, refl, sym, ap, ◌∙◌, subst, ◌↔◌, ◌⊎◌, inl, inr, List, [], ◌∷◌, In}
use deep_agent_cli.Base.Sort.{sort, In-sort}
use deep_agent_cli.Snapshot.{Entry, Node, Nodes, node, nil, cons, entry, to_list}
use deep_agent_cli.Snapshot.Build.{child_le, of_list, sort_tree, sort_trees}
use deep_agent_cli.Snapshot.Build.Tree.{Has, HasAny}

-- The entry is a node's own, or stands below it, for a node of the list.
Among : Entry → List Node → Type 0
Among e ns = (m : Node) × In m ns × ((e ≡ entry m) ⊎ Has e m)

HasAny-of_list : (e : Entry) (ns : List Node) → HasAny e (of_list ns) → Among e ns
unfolding Among
HasAny-of_list e [] h = absurd h
HasAny-of_list e (n ∷ ns) (inl q) = (n, inl refl, inl q)
HasAny-of_list e (n ∷ ns) (inr (inl q)) = (n, inl refl, inr q)
HasAny-of_list e (n ∷ ns) (inr (inr q)) = let (m, i, k) = HasAny-of_list e ns q in (m, inr i, k)

of_list-HasAny :
    (e : Entry) (ns : List Node) (m : Node)
    → In m ns
    → ((e ≡ entry m) ⊎ Has e m)
    → HasAny e (of_list ns)
of_list-HasAny e [] m i k = absurd i
of_list-HasAny e (n ∷ ns) m (inl q) (inl k) = inl (k ∙ ap entry q)
of_list-HasAny e (n ∷ ns) m (inl q) (inr k) = inr (inl (subst (Has e) q k))
of_list-HasAny e (n ∷ ns) m (inr i) k = inr (inr (of_list-HasAny e ns m i k))

of_list-to_list : (ns : Nodes) → of_list (to_list ns) ≡ ns
of_list-to_list nil = refl
of_list-to_list (cons n ns) = ap (cons n) (of_list-to_list ns)

-- Sorting the nodes of a list keeps what they have.
sort-HasAny :
    (e : Entry) (ns : Nodes) → HasAny e (of_list (sort child_le (to_list ns))) ↔ HasAny e ns
unfolding Among
sort-HasAny e ns = (
  λ h.
      let (m, i, k) = HasAny-of_list e (sort child_le (to_list ns)) h in
      subst (HasAny e) (of_list-to_list ns)
        (of_list-HasAny e (to_list ns) m ((In-sort child_le m (to_list ns)).0 i) k),
  λ h.
      let (m, i, k) =
        HasAny-of_list e (to_list ns) (subst (HasAny e) (sym (of_list-to_list ns)) h) in
      of_list-HasAny e (sort child_le (to_list ns)) m ((In-sort child_le m (to_list ns)).1 i) k,
)

mutual
  unfolding sort_tree sort_trees

  pub Has-sort_tree :
      (e : Entry) (n : Node) → (Has e (sort_tree n) → Has e n) × (Has e n → Has e (sort_tree n))
  Has-sort_tree e (node x cs) = (
    λ h. (HasAny-sort_trees e cs).0 ((sort-HasAny e (sort_trees cs)).0 h),
    λ h. (sort-HasAny e (sort_trees cs)).1 ((HasAny-sort_trees e cs).1 h),
  )

  HasAny-sort_trees :
      (e : Entry) (ns : Nodes)
      → (HasAny e (sort_trees ns) → HasAny e ns) × (HasAny e ns → HasAny e (sort_trees ns))
  HasAny-sort_trees e nil = (λ h. h, λ h. h)
  HasAny-sort_trees e (cons (node x cs) ns) = (
    λ h. elim h [
      | inl q ↦ inl q
      | inr k ↦ elim k [
        | inl q ↦ inr (inl ((Has-sort_tree e (node x cs)).0 q))
        | inr q ↦ inr (inr ((HasAny-sort_trees e ns).0 q))
      ]
    ],
    λ h. elim h [
      | inl q ↦ inl q
      | inr k ↦ elim k [
        | inl q ↦ inr (inl ((Has-sort_tree e (node x cs)).1 q))
        | inr q ↦ inr (inr ((HasAny-sort_trees e ns).1 q))
      ]
    ],
  )
