-- ===== src/Indexing/Apply/Paths.antt =====
-- Which paths `collectDeltaPaths` of internal/indexing/delta_apply.go returns: the last change of a
-- path decides.
use deep_agent_cli.Base.{
  ◌≡◌, refl, sym, ap, ◌∙◌, subst, ◌↔◌, inl, inr, Bool, true, false, not, ◌&&◌, ◌||◌, false≢true,
  List, [], ◌∷◌, arith, if◌then◌else◌, Bool-cases, In, Unique,
}
use deep_agent_cli.Base.Sort.{sort, In-sort, IsSorted, sort-IsSorted, sort-Unique}
use deep_agent_cli.Text.{Text, eq, eq_iff, le, le-IsOrder, member, member_iff}
use deep_agent_cli.IndexSync.{DeltaAction, add, modify, delete, DeltaRecord, SyncDelta}
use deep_agent_cli.Indexing.{Result, done, failed, ◌>>=◌, done-bind, done_injective, relative}
use deep_agent_cli.Indexing.Apply.{
  remove, include, PathSets, record_action, is_skipped, collect_from, collect_delta_paths,
}

member-include : (p a : Text) (xs : List Text) → member p (include a xs) ≡ (eq p a || member p xs)
unfolding include member
member-include p a xs = elim (Bool-cases (member a xs)) [
  | inl e ↦ elim (Bool-cases (eq p a)) [
    | inl same ↦ rw (e, same) (ap (λ t. member t xs) ((eq_iff p a).0 same) ∙ e)
    | inr other ↦ rw (e, other) refl
  ]
  | inr e ↦ rw e refl
]

member-remove :
    (p a : Text) (xs : List Text) → member p (remove a xs) ≡ (not (eq p a) && member p xs)
unfolding remove member
member-remove p a [] = ground arith
member-remove p a (x ∷ xs) = elim (Bool-cases (eq a x)) [
  | inl e ↦ rw e (ground (arith, member-remove p a xs, eq_iff a x, eq_iff p a, eq_iff p x))
  | inr e ↦ rw e (ground (arith, member-remove p a xs, eq_iff a x, eq_iff p a, eq_iff p x))
]

include-Unique : (a : Text) (xs : List Text) → Unique xs → Unique (include a xs)
unfolding include
include-Unique a xs u = elim (Bool-cases (member a xs)) [
  | inl e ↦ rw e u
  | inr e ↦ rw e (λ i. false≢true (sym e ∙ (member_iff a xs).1 i), u)
]

right_true : (a b : Bool) → (not a && b) ≡ true → b ≡ true
right_true a b h = ground arith

In-remove : (p a : Text) (xs : List Text) → In p (remove a xs) → In p xs
In-remove p a xs i = (member_iff p xs).0 (
    right_true (eq p a) (member p xs)
      (sym (member-remove p a xs) ∙ (member_iff p (remove a xs)).1 i))

remove-Unique : (a : Text) (xs : List Text) → Unique xs → Unique (remove a xs)
unfolding remove
remove-Unique a [] u = tt
remove-Unique a (x ∷ xs) u = elim (Bool-cases (eq a x)) [
  | inl e ↦ rw e (remove-Unique a xs u.1)
  | inr e ↦ rw e (λ i. u.0 (In-remove x a xs i), remove-Unique a xs u.1)
]

-- Whether a path that normalizes is `p`.
unfoldable pub names : Text → Result Text → Bool
names p (done q) = eq p q
names p (failed e) = false

abbrev pub is_upsert : DeltaAction → Bool
is_upsert add = true
is_upsert modify = true
is_upsert _ = false

abbrev pub is_delete : DeltaAction → Bool
is_delete delete = true
is_delete _ = false

-- Whether the last change of `p` that counts has a kind of action; `b` if there is none.
unfoldable pub last_is : (DeltaAction → Bool) → List DeltaRecord → Text → Bool → Bool
unfolding names is_skipped
last_is kind [] p b = b
last_is kind (c ∷ cs) p b =
    last_is kind cs p
      (if is_skipped c.node_type then b else if names p (relative c.path) then kind c.action else b)

record IsAction (s s' : PathSets) (a : DeltaAction) (path : Text) : Type 0 where
  upserts :
      (p : Text) → member p s'.upserts ≡ (if eq p path then is_upsert a else member p s.upserts)
  deletes :
      (p : Text) → member p s'.deletes ≡ (if eq p path then is_delete a else member p s.deletes)

record_action-IsAction :
    (a : DeltaAction) (path : Text) (s s' : PathSets)
    → record_action a path s ≡ done s'
    → IsAction s s' a path
unfolding record_action
record_action-IsAction add path s s' h =
    subst (λ t. IsAction s t add path) (done_injective _ s' h)
      record {
        upserts = λ p. ground (arith, member-include p path s.upserts);
        deletes = λ p. ground (arith, member-remove p path s.deletes);
      }
record_action-IsAction modify path s s' h =
    subst (λ t. IsAction s t modify path) (done_injective _ s' h)
      record {
        upserts = λ p. ground (arith, member-include p path s.upserts);
        deletes = λ p. ground (arith, member-remove p path s.deletes);
      }
record_action-IsAction delete path s s' h =
    subst (λ t. IsAction s t delete path) (done_injective _ s' h)
      record {
        upserts = λ p. ground (arith, member-remove p path s.upserts);
        deletes = λ p. ground (arith, member-include p path s.deletes);
      }
record_action-IsAction (DeltaAction.other a) path s s' h = absurd (ground arith)

record UniqueSets (s : PathSets) : Type 0 where
  upserts : Unique s.upserts
  deletes : Unique s.deletes

record_action-UniqueSets :
    (a : DeltaAction) (path : Text) (s s' : PathSets)
    → record_action a path s ≡ done s'
    → UniqueSets s
    → UniqueSets s'
unfolding record_action
record_action-UniqueSets add path s s' h u = subst UniqueSets (done_injective _ s' h) record {
  upserts = include-Unique path s.upserts u.upserts;
  deletes = remove-Unique path s.deletes u.deletes;
}
record_action-UniqueSets modify path s s' h u = subst UniqueSets (done_injective _ s' h) record {
  upserts = include-Unique path s.upserts u.upserts;
  deletes = remove-Unique path s.deletes u.deletes;
}
record_action-UniqueSets delete path s s' h u = subst UniqueSets (done_injective _ s' h) record {
  upserts = remove-Unique path s.upserts u.upserts;
  deletes = include-Unique path s.deletes u.deletes;
}
record_action-UniqueSets (DeltaAction.other a) path s s' h u = absurd (ground arith)

-- What the loop does to two sets.
record IsCollection (cs : List DeltaRecord) (s s' : PathSets) : Type 0 where
  upserts : (p : Text) → member p s'.upserts ≡ last_is is_upsert cs p (member p s.upserts)
  deletes : (p : Text) → member p s'.deletes ≡ last_is is_delete cs p (member p s.deletes)
  unique : UniqueSets s → UniqueSets s'

collect-skipped :
    (c : DeltaRecord) (cs : List DeltaRecord) (s : PathSets)
    → is_skipped c.node_type ≡ true
    → collect_from (c ∷ cs) s ≡ collect_from cs s
unfolding collect_from
collect-skipped c cs s q = rw (q, collect_from) refl

collect-taken :
    (c : DeltaRecord) (cs : List DeltaRecord) (s : PathSets)
    → is_skipped c.node_type ≡ false
    → collect_from (c ∷ cs) s
      ≡ (relative c.path >>= λ path. record_action c.action path s >>= λ s'. collect_from cs s')
unfolding collect_from
collect-taken c cs s q = rw (q, collect_from) refl

collect_from-IsCollection :
    (cs : List DeltaRecord) (s s' : PathSets) → collect_from cs s ≡ done s' → IsCollection cs s s'
unfolding collect_from last_is names
collect_from-IsCollection [] s s' h =
    subst (λ t. IsCollection [] s t) (done_injective s s' h)
      record { upserts = λ p. refl; deletes = λ p. refl; unique = λ u. u }
collect_from-IsCollection (c ∷ cs) s s' h = elim (Bool-cases (is_skipped c.node_type)) [
  | inl q ↦
      let ih = collect_from-IsCollection cs s s' (sym (collect-skipped c cs s q) ∙ h) in
      record {
        upserts = λ p. rw q (ih.upserts p);
        deletes = λ p. rw q (ih.deletes p);
        unique = ih.unique;
      }
  | inr q ↦
      let (path, e, h1) = done-bind (relative c.path) _ s' (sym (collect-taken c cs s q) ∙ h) in
      let (mid, a, h2) = done-bind (record_action c.action path s) _ s' h1 in
      let ih = collect_from-IsCollection cs mid s' h2 in
      let act = record_action-IsAction c.action path s mid a in
      record {
        upserts = λ p. rw (q, e) (ih.upserts p ∙ ap (last_is is_upsert cs p) (act.upserts p));
        deletes = λ p. rw (q, e) (ih.deletes p ∙ ap (last_is is_delete cs p) (act.deletes p));
        unique = λ u. ih.unique (record_action-UniqueSets c.action path s mid a u);
      }
]

sorted_iff :
    (p : Text) (xs : List Text) (b : Bool) → member p xs ≡ b → In p (sort le xs) ↔ (b ≡ true)
sorted_iff p xs b e = (
  λ i. sym e ∙ (member_iff p xs).1 ((In-sort le p xs).0 i),
  λ t. (In-sort le p xs).1 ((member_iff p xs).0 (e ∙ t)),
)

exclusive : (a : DeltaAction) → (is_upsert a && is_delete a) ≡ false
exclusive add = refl
exclusive modify = refl
exclusive delete = refl
exclusive (DeltaAction.other a) = refl

both_if :
    (k t a b u d : Bool)
    → (a && b) ≡ false
    → (u && d) ≡ false
    → ((if k then a else if t then u else a) && (if k then b else if t then d else b)) ≡ false
both_if true t a b u d h g = h
both_if false true a b u d h g = g
both_if false false a b u d h g = h

true_both : (a b : Bool) → (a && b) ≡ false → a ≡ true → ¬ (b ≡ true)
true_both a b h e f = ground arith

not_both :
    (cs : List DeltaRecord) (p : Text) (a b : Bool)
    → (a && b) ≡ false
    → (last_is is_upsert cs p a && last_is is_delete cs p b) ≡ false
unfolding last_is names
not_both [] p a b h = h
not_both (c ∷ cs) p a b h = not_both cs p _ _ (
    both_if (is_skipped c.node_type) (names p (relative c.path)) a b (is_upsert c.action)
      (is_delete c.action) h (exclusive c.action))

-- The two lists of paths of a delta.
pub record IsCollected (delta : SyncDelta) (s : PathSets) : Type 0 where
  pub upserts : (p : Text) → In p s.upserts ↔ (last_is is_upsert delta.changes p false ≡ true)
  pub deletes : (p : Text) → In p s.deletes ↔ (last_is is_delete delta.changes p false ≡ true)
  pub disjoint : (p : Text) → In p s.upserts → ¬ In p s.deletes
  pub in_order : IsSorted le s.upserts × IsSorted le s.deletes
  pub unique : Unique s.upserts × Unique s.deletes

-- Where the paths of a delta can be collected, a path is upserted if the last change of a file
-- with that normalized path adds or modifies it, and deleted if that change deletes it; the lists
-- share no path, and each is sorted without duplicates.
pub collect_delta_paths-IsCollected :
    (delta : SyncDelta) (s : PathSets) → collect_delta_paths delta ≡ done s → IsCollected delta s
unfolding collect_delta_paths
collect_delta_paths-IsCollected delta s h =
    let (raw, e, h1) =
      done-bind (collect_from delta.changes record { upserts = []; deletes = [] }) _ s h in
    let c = collect_from-IsCollection delta.changes record { upserts = []; deletes = [] } raw e in
    let u = c.unique record { upserts = tt; deletes = tt } in
    let ups = λ (p : Text). sorted_iff p raw.upserts _ (c.upserts p) in
    let dels = λ (p : Text). sorted_iff p raw.deletes _ (c.deletes p) in
    subst (IsCollected delta) (done_injective _ s h1) record {
      upserts = ups;
      deletes = dels;
      disjoint = λ p i j.
          true_both _ _ (not_both delta.changes p false false refl) ((ups p).0 i) ((dels p).0 j);
      in_order = (sort-IsSorted le le-IsOrder raw.upserts, sort-IsSorted le le-IsOrder raw.deletes);
      unique = (sort-Unique le raw.upserts u.upserts, sort-Unique le raw.deletes u.deletes);
    }
