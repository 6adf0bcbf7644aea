-- ===== src/Diff/Materialize/Exact.antt =====
-- The lists of changed files are exact, sorted and free of repetitions.
use deep_agent_cli.Base.{
  ◌≡◌, refl, sym, ◌∙◌, subst, ◌↔◌, ◌⊎◌, inl, inr, Bool, true, false, false≢true, List, [], ◌∷◌,
  if◌then◌else◌, Bool-cases, In, Unique,
}
use deep_agent_cli.Text.{Text, eq, le, le-IsOrder}
use deep_agent_cli.Text.Trim.{trim}
use deep_agent_cli.Base.Sort.{sort, In-sort, IsSorted, sort-IsSorted, sort-Unique}
use deep_agent_cli.Diff.{DeltaOp, add, modify, delete, FileDelta, SyncDeltaSet}
use deep_agent_cli.Diff.Materialize.{
  Seen, nothing_seen, visit, visit_upsert, visit_remove, collect_changes, materialize_changed_files,
}
use deep_agent_cli.Diff.Materialize.Marks.{IsSeen, visit-IsSeen, In-visit}

-- A change of the list names `p` and has an operation that `wanted` accepts.
abbrev pub Names : (DeltaOp → Bool) → Text → List FileDelta → Type 0
Names wanted p cs =
    (c : FileDelta) × In c cs × (wanted c.op ≡ true) × (trim c.path ≡ p) × (eq p [] ≡ false)

abbrev pub is_upsert : DeltaOp → Bool
is_upsert add = true
is_upsert modify = true
is_upsert _ = false

abbrev pub is_remove : DeltaOp → Bool
is_remove delete = true
is_remove _ = false

-- The two sets are filled independently: each is filled by the changes that it wants.
abbrev side_step : (DeltaOp → Bool) → FileDelta → Seen → Seen
side_step wanted c s =
    if eq (trim c.path) [] then s else if wanted c.op then visit (trim c.path) s else s

collect_side : (DeltaOp → Bool) → Seen → List FileDelta → Seen
collect_side wanted s [] = s
collect_side wanted s (c ∷ cs) = collect_side wanted (side_step wanted c s) cs

visit_upsert_lem :
    (op : DeltaOp) (path : Text) (s : Seen)
    → visit_upsert op path s ≡ (if is_upsert op then visit path s else s)
visit_upsert_lem add path s = refl
visit_upsert_lem _ path s = refl

visit_remove_lem :
    (op : DeltaOp) (path : Text) (s : Seen)
    → visit_remove op path s ≡ (if is_remove op then visit path s else s)
visit_remove_lem add path s = refl
visit_remove_lem _ path s = refl

collect_changes_lem :
    (u r : Seen) (cs : List FileDelta)
    → collect_changes u r cs ≡ (collect_side is_upsert u cs, collect_side is_remove r cs)
unfolding collect_changes collect_side
collect_changes_lem u r [] = refl
collect_changes_lem u r (c ∷ cs) =
    rw (visit_upsert_lem c.op (trim c.path) u, visit_remove_lem c.op (trim c.path) r)
      (collect_changes_lem (side_step is_upsert c u) (side_step is_remove c r) cs)

module _ (wanted : DeltaOp → Bool) where
  step-IsSeen : (c : FileDelta) (s : Seen) → IsSeen s → IsSeen (side_step wanted c s)
  step-IsSeen c s h = elim (Bool-cases (eq (trim c.path) [])) [
    | inl e ↦ rw e h
    | inr e ↦ rw e (elim (Bool-cases (wanted c.op)) [
      | inl w ↦ rw w (visit-IsSeen (trim c.path) s h)
      | inr w ↦ rw w h
    ])
  ]

  In-step :
      (p : Text) (c : FileDelta) (s : Seen)
      → IsSeen s
      → In p (side_step wanted c s).listed
        ↔ (In p s.listed ⊎ ((wanted c.op ≡ true) × (trim c.path ≡ p) × (eq p [] ≡ false)))
  In-step p c s h = elim (Bool-cases (eq (trim c.path) [])) [
    | inl e ↦ rw e (
      λ i. inl i,
      λ i. elim i [
        | inl j ↦ j
        | inr (w, q, z) ↦ absurd (false≢true (sym z ∙ subst (λ t. eq t [] ≡ true) q e))
      ],
    )
    | inr e ↦ rw e (elim (Bool-cases (wanted c.op)) [
      | inl w ↦ rw w (
        λ i. elim ((In-visit p (trim c.path) s h).0 i) [
          | inl j ↦ inl j
          | inr q ↦ inr (refl, sym q, subst (λ t. eq t [] ≡ false) (sym q) e)
        ],
        λ i.
            (In-visit p (trim c.path) s h).1
              (elim i [ inl j ↦ inl j | inr (v, q, z) ↦ inr (sym q) ]),
      )
      | inr w ↦ rw w (λ i. inl i, λ i. elim i [ inl j ↦ j | inr (v, q, z) ↦ absurd (false≢true v) ])
    ])
  ]

  collect_side-IsSeen :
      (s : Seen) (cs : List FileDelta) → IsSeen s → IsSeen (collect_side wanted s cs)
  unfolding collect_side
  collect_side-IsSeen s [] h = h
  collect_side-IsSeen s (c ∷ cs) h =
      collect_side-IsSeen (side_step wanted c s) cs (step-IsSeen c s h)

  In-collect_side :
      (p : Text) (s : Seen) (cs : List FileDelta)
      → IsSeen s
      → In p (collect_side wanted s cs).listed ↔ (In p s.listed ⊎ Names wanted p cs)
  unfolding collect_side
  In-collect_side p s [] h =
      (λ i. inl i, λ i. elim i [ inl j ↦ j | inr (c, k, w, q, z) ↦ absurd k ])
  In-collect_side p s (c ∷ cs) h =
      let s' = side_step wanted c s in
      let rest = In-collect_side p s' cs (step-IsSeen c s h) in
      let one = In-step p c s h in
      (
        λ i. elim (rest.0 i) [
          | inl j ↦ elim (one.0 j) [ inl k ↦ inl k | inr w ↦ inr (c, inl refl, w.0, w.1, w.2) ]
          | inr (x, k, w, q, z) ↦ inr (x, inr k, w, q, z)
        ],
        λ i. rest.1 (elim i [
          | inl j ↦ inl (one.1 (inl j))
          | inr (x, inl e, w, q, z) ↦ inl (
              one.1
                (inr (subst (λ y. wanted y.op ≡ true) e w, subst (λ y. trim y.path ≡ p) e q, z)))
          | inr (x, inr k, w, q, z) ↦ inr (x, k, w, q, z)
        ]),
      )

-- A list of changed files: sorted, each path once, and exactly the paths that are named.
pub record Lists (wanted : DeltaOp → Bool) (cs : List FileDelta) (ps : List Text) : Type 0 where
  pub sorted : IsSorted le ps
  pub unique : Unique ps
  pub exact : (p : Text) → In p ps ↔ Names wanted p cs

nothing_seen-IsSeen : IsSeen nothing_seen
nothing_seen-IsSeen = record { agrees = λ p. (λ i. i, λ i. i); unique = tt }

collect_side-Lists :
    (wanted : DeltaOp → Bool) (cs : List FileDelta)
    → Lists wanted cs (sort le (collect_side wanted nothing_seen cs).listed)
collect_side-Lists wanted cs =
    let s = collect_side wanted nothing_seen cs in
    let names = λ (p : Text). In-collect_side wanted p nothing_seen cs nothing_seen-IsSeen in
    record {
      sorted = sort-IsSorted le le-IsOrder s.listed;
      unique =
          sort-Unique le s.listed
            (collect_side-IsSeen wanted nothing_seen cs nothing_seen-IsSeen).unique;
      exact = λ p. (
        λ i. elim ((names p).0 ((In-sort le p s.listed).0 i)) [ inl j ↦ absurd j | inr w ↦ w ],
        λ w. (In-sort le p s.listed).1 ((names p).1 (inr w)),
      );
    }

-- The files to upsert are the trimmed, non-blank paths of the additions and modifications, and the
-- files to remove those of the deletions: each list sorted, with no path twice.
pub materialize_changed_files-Lists :
    (delta : SyncDeltaSet)
    → Lists is_upsert delta.changes (materialize_changed_files delta).files_to_upsert
      × Lists is_remove delta.changes (materialize_changed_files delta).files_to_remove
unfolding materialize_changed_files
materialize_changed_files-Lists delta =
    rw (collect_changes_lem nothing_seen nothing_seen delta.changes)
      (collect_side-Lists is_upsert delta.changes, collect_side-Lists is_remove delta.changes)
