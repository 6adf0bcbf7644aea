-- ===== src/Diff/Sound.antt =====
-- A delta set invents nothing: every record speaks of files of the trees compared.
use deep_agent_cli.Base.{
  ℕ, zero, suc, ◌≡◌, refl, sym, ◌∙◌, subst, ◌⊎◌, inl, inr, false, Option, none, some, List, [], ◌∷◌,
  ◌++◌, arith, Bool-cases, All, In, In-append_left, In-append_right, All-append,
}
use deep_agent_cli.IndexSync.{NodeType, file, dir, same_type, same_type_iff}
use deep_agent_cli.Snapshot.{
  Entry, Node, Nodes, node, nil, cons, entry, to_list, Snapshot, files, files_all, files_at,
}
use deep_agent_cli.Text.{Text}
use deep_agent_cli.Base.Sort.{sort, All-sort}
use deep_agent_cli.Diff.{
  Changes, DiffError, Result, ok, err, DeltaOp, add, delete, added, deleted, modified, FileDelta,
  child_at, child_keys, diff_node, collect_subtree, collect_all, collect_at, diff_changed,
  same_hash, root_of, same_root, delta_le, delta_set, depth_of, SyncDeltaSet, diff_snapshots,
  diff_keys, collect_file, ◌>>=◌,
}
use deep_agent_cli.Diff.Keys.{child_at-In}
use deep_agent_cli.Diff.Tree.{files_of, In-files_all, files-dir, files-file}

-- An addition names a file of the current tree with its hashes, a deletion one of the previous
-- tree, and a modification a file of each under one path, whose hashes are not known to agree.
abbrev pub Justified : List Entry → List Entry → FileDelta → Type 0
Justified ps cs x =
    ((e : Entry) × In e cs × (x ≡ added e))
    ⊎ (((e : Entry) × In e ps × (x ≡ deleted e))
        ⊎ ((p : Entry) × (c : Entry) × In p ps
            × In c cs
            × (p.path ≡ c.path)
            × (same_hash p c ≡ false)
            × (x ≡ modified p c)))

-- Every record of the result is one of before, or has `P`.
abbrev Sound : (FileDelta → Type 0) → Changes → Result Changes → Type 0
Sound P d r = (d' : Changes) → r ≡ ok d' → All P d → All P d'

Sound-bind :
    (P : FileDelta → Type 0) (d : Changes) (r : Result Changes) (f : Changes → Result Changes)
    → Sound P d r
    → ((d₁ : Changes) → Sound P d₁ (f d₁))
    → Sound P d (r >>= f)
Sound-bind P d (ok d₁) f h k d' e a = k d₁ d' e (h d₁ refl a)
Sound-bind P d (err x) f h k d' e a = cc

Sound-err : (P : FileDelta → Type 0) (d : Changes) (x : DiffError) → Sound P d (err x)
Sound-err P d x d' e a = cc

Sound-append :
    (P : FileDelta → Type 0) (d : Changes) (x : FileDelta) → P x → Sound P d (ok (d ++ (x ∷ [])))
Sound-append P d x p d' e a = subst (All P) (ground arith) (All-append P d (x ∷ []) a (p, tt))

Sound-refl : (P : FileDelta → Type 0) (d : Changes) → Sound P d (ok d)
Sound-refl P d d' e a = subst (All P) (ground arith) a

module _ (P : FileDelta → Type 0) (op : DeltaOp) (one : Entry → FileDelta)
    (law : (e : Entry) (d : Changes) → collect_file e op d ≡ ok (d ++ (one e ∷ []))) where
  collect_at-Sound :
      (t : NodeType) (e : Entry) (d : Changes) (below : Result Changes) (es : List Entry)
      → ((x : Entry) → In x (files_at t e es) → P (one x))
      → (((x : Entry) → In x es → P (one x)) → Sound P d below)
      → Sound P d (collect_at t e op d below)
  collect_at-Sound file e d below es f g = rw (law e d) (Sound-append P d (one e) (f e (inl refl)))
  collect_at-Sound dir e d below es f g = g f
  collect_at-Sound (NodeType.other t) e d below es f g = Sound-err P d _

  mutual
    unfolding collect_subtree files

    collect_subtree-Sound :
        (n : Node) (d : Changes)
        → ((x : Entry) → In x (files n) → P (one x))
        → Sound P d (collect_subtree n op d)
    collect_subtree-Sound (node e cs) d f =
        collect_at-Sound e.node_type e d (collect_all cs op d) (files_all cs) f
          (collect_all-Sound cs d)

    collect_all-Sound :
        (ns : Nodes) (d : Changes)
        → ((x : Entry) → In x (files_all ns) → P (one x))
        → Sound P d (collect_all ns op d)
    collect_all-Sound nil d f = Sound-refl P d
    collect_all-Sound (cons n ns) d f =
        Sound-bind P d (collect_subtree n op d) (λ d'. collect_all ns op d')
          (collect_subtree-Sound n d (λ x i. f x (In-append_left x (files n) (files_all ns) i)))
          (λ d₁.
            collect_all-Sound ns d₁ (λ x i. f x (In-append_right x (files n) (files_all ns) i)))

-- Where the calls of the loop are sound, so is the loop.
diff_keys-Sound :
    (P : FileDelta → Type 0) (visit : Option Node → Option Node → Changes → Result Changes)
    (ps cs : List Node) (ks : List Text) (d : Changes)
    → ((k : Text) (d₁ : Changes) → Sound P d₁ (visit (child_at k ps) (child_at k cs) d₁))
    → Sound P d (diff_keys visit ps cs ks d)
unfolding diff_keys
diff_keys-Sound P visit ps cs [] d h = Sound-refl P d
diff_keys-Sound P visit ps cs (k ∷ ks) d h =
    Sound-bind P d (visit (child_at k ps) (child_at k cs) d) (λ d'. diff_keys visit ps cs ks d')
      (h k d) (λ d₁. diff_keys-Sound P visit ps cs ks d₁ h)

-- The nodes that are compared stand under one path.
abbrev pub SamePath : Option Node → Option Node → Type 0
SamePath (some p) (some c) = (entry p).path ≡ (entry c).path
SamePath _ _ = Unit

SamePath-child :
    (k : Text) (ps cs : List Node) (a b : Option Node)
    → child_at k ps ≡ a
    → child_at k cs ≡ b
    → SamePath a b
SamePath-child k ps cs (some p) (some c) e f = (child_at-In k ps e).1 ∙ sym (child_at-In k cs f).1
SamePath-child k ps cs none b e f = tt
SamePath-child k ps cs (some p) none e f = tt

In-child_files :
    (k : Text) (e : Entry) (ns : Nodes) (o : Option Node)
    → e.node_type ≡ dir
    → child_at k (to_list ns) ≡ o
    → (x : Entry) → In x (files_of o)
    → In x (files (node e ns))
In-child_files k e ns none t p x i = absurd i
In-child_files k e ns (some n) t p x i =
    rw (files-dir e ns t) (In-files_all x n ns (child_at-In k (to_list ns) p).0 i)

Justified-wider :
    (ps cs ps' cs' : List Entry)
    → ((x : Entry) → In x ps → In x ps')
    → ((x : Entry) → In x cs → In x cs')
    → (x : FileDelta) → Justified ps cs x
    → Justified ps' cs' x
Justified-wider ps cs ps' cs' f g x (inl (e, i, p)) = inl (e, g e i, p)
Justified-wider ps cs ps' cs' f g x (inr (inl (e, i, p))) = inr (inl (e, f e i, p))
Justified-wider ps cs ps' cs' f g x (inr (inr (p, c, i, j, q, h, m))) =
    inr (inr (p, c, f p i, g c j, q, h, m))

diff_changed-Sound :
    (P : FileDelta → Type 0) (t : NodeType) (p c : Entry) (d : Changes) (below : Result Changes)
    → (t ≡ file → P (modified p c))
    → (t ≡ dir → Sound P d below)
    → Sound P d (diff_changed t p c d below)
diff_changed-Sound P file p c d below f g = Sound-append P d (modified p c) (f refl)
diff_changed-Sound P dir p c d below f g = g refl
diff_changed-Sound P (NodeType.other t) p c d below f g = Sound-err P d _

diff_node-Sound :
    (fuel : ℕ) (p c : Option Node) (d : Changes) (P : FileDelta → Type 0)
    → SamePath p c
    → ((x : FileDelta) → Justified (files_of p) (files_of c) x → P x)
    → Sound P d (diff_node fuel p c d)
unfolding diff_node
diff_node-Sound fuel none none d P s f = Sound-refl P d
diff_node-Sound fuel none (some c) d P s f =
    unfold collect_file in
    collect_subtree-Sound P add added (λ e x. refl) c d (λ x i. f (added x) (inl (x, i, refl)))
diff_node-Sound fuel (some p) none d P s f =
    unfold collect_file in
    collect_subtree-Sound P delete deleted (λ e x. refl) p d
      (λ x i. f (deleted x) (inr (inl (x, i, refl))))
diff_node-Sound zero (some p) (some c) d P s f = Sound-err P d _
diff_node-Sound (suc fuel) (some (node e cs)) (some (node e' cs')) d P s f =
    elim (Bool-cases (same_type e.node_type e'.node_type)) [
      | inr other_type ↦ rw other_type (
          unfold collect_file in
          Sound-bind P d (collect_subtree (node e cs) delete d)
            (λ d'. collect_subtree (node e' cs') add d')
            (collect_subtree-Sound P delete deleted (λ x y. refl) (node e cs) d
              (λ x i. f (deleted x) (inr (inl (x, i, refl)))))
            (λ d₁.
              collect_subtree-Sound P add added (λ x y. refl) (node e' cs') d₁
                (λ x i. f (added x) (inl (x, i, refl)))))
      | inl one_type ↦ rw one_type (elim (Bool-cases (same_hash e e')) [
        | inl one_hash ↦ rw one_hash (Sound-refl P d)
        | inr changed ↦ rw changed (
            let same = sym ((same_type_iff e.node_type e'.node_type).0 one_type) in
            diff_changed-Sound P e.node_type e e' d _
              (λ t. f (modified e e') (
                inr (
                  inr (
                    e,
                    e',
                    rw (files-file e cs t) (inl refl),
                    rw (files-file e' cs' (same ∙ t)) (inl refl),
                    s,
                    changed,
                    refl,
                  ))))
              (λ t.
                diff_keys-Sound P (λ a b d'. diff_node fuel a b d') (to_list cs) (to_list cs')
                  (child_keys (to_list cs) (to_list cs')) d
                  (λ k d₁.
                    diff_node-Sound fuel (child_at k (to_list cs)) (child_at k (to_list cs')) d₁ P
                      (SamePath-child k (to_list cs) (to_list cs') _ _ refl refl)
                      (λ x j. f x (
                        Justified-wider (files_of (child_at k (to_list cs)))
                          (files_of (child_at k (to_list cs'))) (files (node e cs))
                          (files (node e' cs'))
                          (In-child_files k e cs (child_at k (to_list cs)) t refl)
                          (In-child_files k e' cs' (child_at k (to_list cs')) (same ∙ t) refl) x
                          j)))))
      ])
    ]

-- Whenever two snapshots whose roots stand under one path are compared without an error, every
-- record of the result is justified by the files of the two: an addition by a current file, a
-- deletion by a previous file, a modification by a file of each under one path whose hashes do not
-- agree.
pub diff_snapshots-Justified :
    (previous current : Option Snapshot) (s : SyncDeltaSet)
    → SamePath (root_of previous) (root_of current)
    → diff_snapshots previous current ≡ ok s
    → All (Justified (files_of (root_of previous)) (files_of (root_of current))) s.changes
unfolding diff_snapshots
diff_snapshots-Justified previous current s h e = elim (Bool-cases (same_root previous current)) [
  | inl same ↦ subst (All J) (let q : [] ≡ s.changes = ground arith in q) tt
  | inr differ ↦ sorted (diff_node (depth_of p) p c []) refl (ground arith)
]
  where
    p : Option Node
    p = root_of previous

    c : Option Node
    c = root_of current

    J : FileDelta → Type 0
    J = Justified (files_of p) (files_of c)

    sorted :
        (r : Result Changes)
        → diff_node (depth_of p) p c [] ≡ r
        → (r >>= λ d. ok (delta_set previous current (sort delta_le d))) ≡ ok s
        → All J s.changes
    sorted (ok d) q k =
        subst (All J) (let q : sort delta_le d ≡ s.changes = ground arith in q)
          (All-sort delta_le J d (diff_node-Sound (depth_of p) p c [] J h (λ x j. j) d q tt))
    sorted (err x) q k = cc
