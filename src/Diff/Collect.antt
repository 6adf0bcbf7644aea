-- ===== src/Diff/Collect.antt =====
-- `collectSubtree`: one record for each file of a tree.
use deep_agent_cli.Base.{
  ◌≡◌, sym, ap, ◌∙◌, List, [], ◌∷◌, ◌++◌, map, append-nil, append_assoc, map-append,
}
use deep_agent_cli.IndexSync.{NodeType, file, dir}
use deep_agent_cli.Snapshot.{Entry, Node, Nodes, node, nil, cons, files, files_all, files_at}
use deep_agent_cli.Diff.{
  Changes, Result, ok, DeltaOp, collect_subtree, collect_all, collect_at, collect_file, FileDelta,
}
use deep_agent_cli.Diff.Tree.{IsTree, AreTrees, IsSupported}

module _ (op : DeltaOp) (one : Entry → FileDelta)
    (law : (e : Entry) (d : Changes) → collect_file e op d ≡ ok (d ++ (one e ∷ []))) where
  collect_at_lem :
      (t : NodeType) (e : Entry) (d : Changes) (below : Result Changes) (es : List Entry)
      → IsSupported t
      → below ≡ ok (d ++ map one es)
      → collect_at t e op d below ≡ ok (d ++ map one (files_at t e es))
  collect_at_lem file e d below es s h = law e d
  collect_at_lem dir e d below es s h = h
  collect_at_lem (NodeType.other t) e d below es s h = absurd s

  mutual
    unfolding collect_subtree files

    pub collect_subtree_lem :
        (n : Node) (d : Changes) → IsTree n → collect_subtree n op d ≡ ok (d ++ map one (files n))
    collect_subtree_lem (node e cs) d t =
        collect_at_lem e.node_type e d (collect_all cs op d) (files_all cs) t.0
          (collect_all_lem cs d t.2)

    collect_all_lem :
        (ns : Nodes) (d : Changes)
        → AreTrees ns
        → collect_all ns op d ≡ ok (d ++ map one (files_all ns))
    collect_all_lem nil d t = ap ok (sym (append-nil d))
    collect_all_lem (cons n ns) d t =
        rw (collect_subtree_lem n d t.0, collect_all_lem ns (d ++ map one (files n)) t.1)
          (ap ok (
            append_assoc d (map one (files n)) (map one (files_all ns))
            ∙ ap (λ l. d ++ l) (sym (map-append one (files n) (files_all ns)))))
