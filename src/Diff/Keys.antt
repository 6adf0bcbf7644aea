-- ===== src/Diff/Keys.antt =====
-- The map of children by path and the sorted keys of two such maps.
use deep_agent_cli.Base.{
  ◌≡◌, refl, sym, ap, subst, ◌⊎◌, inl, inr, none, some, List, [], ◌∷◌, ◌++◌, arith, Option-cases,
  In, In-append_left, In-append_right,
}
use deep_agent_cli.Base.Sort.{In-sort}
use deep_agent_cli.Text.{Text, eq_iff, eq_refl, le, member_iff}
use deep_agent_cli.Snapshot.{Node, entry}
use deep_agent_cli.Diff.{child_at, paths, dedup, child_keys}

-- No two children of a list have one path.
abbrev pub Distinct : List Node → Type 0
Distinct [] = Unit
Distinct (n ∷ ns) = (¬ In (entry n).path (paths ns)) × Distinct ns

In-paths : (n : Node) (ns : List Node) → In n ns → In (entry n).path (paths ns)
In-paths n [] h = absurd h
In-paths n (m ∷ ns) (inl e) = inl (ap (λ k. (entry k).path) e)
In-paths n (m ∷ ns) (inr h) = inr (In-paths n ns h)

-- A child that the map holds is among the children, under its own path.
pub child_at-In :
    (path : Text) (ns : List Node) {n : Node}
    → child_at path ns ≡ some n
    → In n ns × ((entry n).path ≡ path)
unfolding child_at
child_at-In path [] h = absurd (ground arith)
child_at-In path (m ∷ ns) {n} h = elim (Option-cases (child_at path ns)) [
  | inl e ↦ ground (arith, eq_iff (entry m).path path)
  | inr (k, e) ↦ let (i, p) = child_at-In path ns e in ground arith
]

child_at-none : (path : Text) (ns : List Node) → (¬ In path (paths ns)) → child_at path ns ≡ none
unfolding child_at
child_at-none path [] h = refl
child_at-none path (m ∷ ns) h = ground (arith, child_at-none path ns, eq_iff (entry m).path path, h)

-- With distinct paths every child is found.
pub child_at-find :
    (n : Node) (ns : List Node) → Distinct ns → In n ns → child_at (entry n).path ns ≡ some n
unfolding child_at
child_at-find n [] d h = absurd h
child_at-find n (m ∷ ns) d (inl e) =
    subst (λ k. child_at (entry k).path (m ∷ ns) ≡ some k) (sym e)
      (rw (child_at-none (entry m).path ns d.0, eq_refl (entry m).path) refl)
child_at-find n (m ∷ ns) d (inr h) = rw (child_at-find n ns d.1 h) refl

In-dedup : (p : Text) (seen ps : List Text) → In p ps → (In p seen) ⊎ In p (dedup seen ps)
unfolding dedup
In-dedup p seen [] h = absurd h
In-dedup p seen (q ∷ ps) h =
    ground (arith, In-dedup p seen ps, In-dedup p (q ∷ seen) ps, member_iff q seen)

pub In-child_keys :
    (n : Node) (previous current : List Node)
    → In n previous ⊎ In n current
    → In (entry n).path (child_keys previous current)
unfolding child_keys
In-child_keys n previous current h =
    let all = paths previous ++ paths current in
    let listed : In (entry n).path all = elim h [
      | inl i ↦
          In-append_left (entry n).path (paths previous) (paths current) (In-paths n previous i)
      | inr j ↦
          In-append_right (entry n).path (paths previous) (paths current) (In-paths n current j)
    ] in
    (In-sort le (entry n).path (dedup [] all)).1
      (ground (arith, In-dedup (entry n).path [] all listed))
