-- ===== src/Diff/Complete/Cases.antt =====
-- The cases of one comparison, each with the files that it covers.
use deep_agent_cli.Base.{
  ◌≡◌, refl, subst, inl, inr, Option, none, some, List, [], ◌∷◌, ◌++◌, map, All, In, In-append_left,
  In-append_right, All-map,
}
use deep_agent_cli.IndexSync.{NodeType, file, dir}
use deep_agent_cli.Text.{Text}
use deep_agent_cli.Snapshot.{Entry, Node, Nodes, node, entry, to_list, files, files_all}
use deep_agent_cli.Diff.{
  Changes, Result, add, delete, added, deleted, modified, child_at, child_keys, collect_subtree,
  diff_changed, diff_keys, collect_file, ◌>>=◌,
}
use deep_agent_cli.Diff.Keys.{child_at-In, child_at-find, In-child_keys, Distinct}
use deep_agent_cli.Diff.Tree.{
  IsTree, IsSupported, SameFiles, files_of, In-files_all, All-files_all, files-dir, files-file,
}
use deep_agent_cli.Diff.Collect.{collect_subtree_lem}
use deep_agent_cli.Diff.Complete.Loop.{
  Gone, New, Covers, Done, Gone-grows, New-grows, diff_keys-Done,
}

-- Adding the records of `es` for a tree that has no counterpart.
In-append_map :
    {A : Type 0} (f : Entry → A) (d : List A) (es : List Entry)
    → All (λ e. In (f e) (d ++ map f es)) es
In-append_map f d es = All-map (λ e i. In-append_right (f e) d (map f es) i) es (In-map es)
  where
    In-map : (es : List Entry) → All (λ e. In (f e) (map f es)) es
    In-map [] = tt
    In-map (e ∷ es) = (inl refl, All-map (λ x i. inr i) es (In-map es))

pub Covers-added : (cs : List Entry) (d : Changes) → Covers [] cs d (d ++ map added cs)
Covers-added cs d = record {
  grows = λ x i. In-append_left x d (map added cs) i;
  gone = tt;
  new = All-map (λ e i. inr (inl i)) cs (In-append_map added d cs);
}

pub Covers-deleted : (ps : List Entry) (d : Changes) → Covers ps [] d (d ++ map deleted ps)
Covers-deleted ps d = record {
  grows = λ x i. In-append_left x d (map deleted ps) i;
  gone = All-map (λ e i. inr (inl i)) ps (In-append_map deleted d ps);
  new = tt;
}

-- Records of the previous files alone, then of the current files alone, cover both.
pub Covers-both :
    (ps cs : List Entry) (d d₁ d₂ : Changes)
    → Covers ps [] d d₁
    → Covers [] cs d₁ d₂
    → Covers ps cs d d₂
Covers-both ps cs d d₁ d₂ a b = record {
  grows = λ x i. b.grows x (a.grows x i);
  gone = All-map (Gone-grows [] cs d₁ d₂ (λ x i. absurd i) b.grows) ps a.gone;
  new = All-map (New-grows [] ps d₂ d₂ (λ x i. absurd i) (λ x i. i)) cs b.new;
}

pub Covers-modified :
    (p c : Entry) (d : Changes) → Covers (p ∷ []) (c ∷ []) d (d ++ (modified p c ∷ []))
Covers-modified p c d =
    let i : In (modified p c) (d ++ (modified p c ∷ [])) =
      In-append_right (modified p c) d (modified p c ∷ []) (inl refl) in
    record {
      grows = λ x j. In-append_left x d (modified p c ∷ []) j;
      gone = (inr (inr (c, inl refl, i)), tt);
      new = (inr (inr (p, inl refl, i)), tt);
    }

pub Covers-same : (ps cs : List Entry) (d : Changes) → SameFiles ps cs → Covers ps cs d d
Covers-same ps cs d h = record {
  grows = λ x i. i;
  gone = All-map (λ e k. inl k) ps h.0;
  new = All-map (λ e k. inl k) cs h.1;
}

pub Done-replaced :
    (p c : Node) (d : Changes)
    → IsTree p
    → IsTree c
    → Done (collect_subtree p delete d >>= λ d'. collect_subtree c add d') (files p) (files c) d
unfolding collect_file
Done-replaced p c d t u =
    let d₁ = d ++ map deleted (files p) in
    (
      d₁ ++ map added (files c),
      rw (collect_subtree_lem delete deleted (λ e x. refl) p d t)
          (collect_subtree_lem add added (λ e x. refl) c d₁ u),
      Covers-both (files p) (files c) d d₁ (d₁ ++ map added (files c)) (Covers-deleted (files p) d)
          (Covers-added (files c) d₁),
    )

-- The files of a child that the map holds are among the files of all children.
In-child_files :
    (k : Text) (ns : Nodes) (o : Option Node)
    → child_at k (to_list ns) ≡ o
    → (x : Entry) → In x (files_of o)
    → In x (files_all ns)
In-child_files k ns none e x i = absurd i
In-child_files k ns (some n) e x i = In-files_all x n ns (child_at-In k (to_list ns) e).0 i

module _ (cs cs' : Nodes) (d : Changes)
    (visit : Option Node → Option Node → Changes → Result Changes) (t : Distinct (to_list cs))
    (u : Distinct (to_list cs'))
    (h : (k : Text) (d₁ : Changes)
      → Done
          (visit (child_at k (to_list cs)) (child_at k (to_list cs')) d₁)
          (files_of (child_at k (to_list cs)))
          (files_of (child_at k (to_list cs')))
          d₁) where
  -- The loop over the keys covers the files of all children.
  pub Done-children :
      Done
        (diff_keys visit (to_list cs) (to_list cs') (child_keys (to_list cs) (to_list cs')) d)
        (files_all cs)
        (files_all cs')
        d
  Done-children =
      let (d', e, g, each) =
        diff_keys-Done visit (to_list cs) (to_list cs') (child_keys (to_list cs) (to_list cs')) d
          h in
      (
        d',
        e,
        record {
          grows = g;
          gone = All-files_all (Gone (files_all cs') d') cs (λ n i.
              let k = (entry n).path in
              let b = each k (In-child_keys n (to_list cs) (to_list cs') (inl i)) in
              All-map
                (Gone-grows (files_of (child_at k (to_list cs'))) (files_all cs') d' d'
                  (In-child_files k cs' (child_at k (to_list cs')) refl) (λ x j. j))
                (files n)
                (subst (λ o. All (Gone (files_of (child_at k (to_list cs'))) d') (files_of o))
                  (child_at-find n (to_list cs) t i) b.gone));
          new = All-files_all (New (files_all cs) d') cs' (λ n i.
              let k = (entry n).path in
              let b = each k (In-child_keys n (to_list cs) (to_list cs') (inr i)) in
              All-map
                (New-grows (files_of (child_at k (to_list cs))) (files_all cs) d' d'
                  (In-child_files k cs (child_at k (to_list cs)) refl) (λ x j. j))
                (files n)
                (subst (λ o. All (New (files_of (child_at k (to_list cs))) d') (files_of o))
                  (child_at-find n (to_list cs') u i) b.new));
        },
      )

pub Done-changed :
    (t : NodeType) (e e' : Entry) (cs cs' : Nodes) (d : Changes) (below : Result Changes)
    → IsSupported t
    → e.node_type ≡ t
    → e'.node_type ≡ t
    → Done below (files_all cs) (files_all cs') d
    → Done (diff_changed t e e' d below) (files (node e cs)) (files (node e' cs')) d
Done-changed file e e' cs cs' d below s p q h = (
  d ++ (modified e e' ∷ []),
  refl,
  rw (files-file e cs p, files-file e' cs' q) (Covers-modified e e' d),
)
Done-changed dir e e' cs cs' d below s p q h = rw (files-dir e cs p, files-dir e' cs' q) h
Done-changed (NodeType.other t) e e' cs cs' d below s p q h = absurd s
