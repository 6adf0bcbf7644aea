-- ===== src/IndexStore/Rows/Store.antt =====
-- The well-formedness of the rows of `index_snapshots`, and that the statements of
-- internal/indexstore/sync_store.go keep it.
use deep_agent_cli.Base.{
  ℕ, ◌<◌, ◌≡◌, refl, sym, ap, ◌∙◌, subst, ◌⊎◌, inl, inr, Bool, true, false, Option, some, List, [],
  ◌∷◌, map, arith, if◌then◌else◌, Bool-cases, In, Unique,
}
use deep_agent_cli.Text.{Text, eq_iff}
use deep_agent_cli.IndexSync.{SnapshotRoot}
use deep_agent_cli.IndexStore.Rows.{in_scope, update_where, first_where}

abbrev pub SameScope : SnapshotRoot → SnapshotRoot → Type 0
SameScope a b = (a.session_id ≡ b.session_id) × (a.repo_root ≡ b.repo_root)

abbrev pub ids : List SnapshotRoot → List ℕ
ids rows = map (λ r. r.id) rows

-- The ids are distinct and below the next one, and a scope has at most one active snapshot.
pub record IsStore (next : ℕ) (rows : List SnapshotRoot) : Type 0 where
  pub fresh : (i : ℕ) → In i (ids rows) → i < next
  pub distinct : Unique (ids rows)
  pub one_active :
      (a b : SnapshotRoot)
      → In a rows
      → In b rows
      → a.is_active ≡ true
      → b.is_active ≡ true
      → SameScope a b
      → a.id ≡ b.id

pub In-ids : (a : SnapshotRoot) (rows : List SnapshotRoot) → In a rows → In a.id (ids rows)
In-ids a [] h = absurd h
In-ids a (r ∷ rs) (inl e) = inl (ap (λ x. x.id) e)
In-ids a (r ∷ rs) (inr h) = inr (In-ids a rs h)

pub same_id :
    (a b : SnapshotRoot) (rows : List SnapshotRoot)
    → Unique (ids rows)
    → In a rows
    → In b rows
    → a.id ≡ b.id
    → a ≡ b
same_id a b [] u i j h = absurd i
same_id a b (r ∷ rs) u (inl e) (inl f) h = e ∙ sym f
same_id a b (r ∷ rs) u (inl e) (inr k) h =
    absurd (u.0 (subst (λ i. In i (ids rs)) (sym h ∙ ap (λ x. x.id) e) (In-ids b rs k)))
same_id a b (r ∷ rs) u (inr k) (inl f) h =
    absurd (u.0 (subst (λ i. In i (ids rs)) (h ∙ ap (λ x. x.id) f) (In-ids a rs k)))
same_id a b (r ∷ rs) u (inr k) (inr l) h = same_id a b rs u.1 k l h

pub in_scope-parts :
    (s r : Text) (a : SnapshotRoot) → in_scope s r a ≡ true → (a.session_id ≡ s) × (a.repo_root ≡ r)
unfolding in_scope
in_scope-parts s r a h =
    ((eq_iff a.session_id s).0 (ground arith), (eq_iff a.repo_root r).0 (ground arith))

pub in_scope-SameScope :
    (a b : SnapshotRoot) → in_scope b.session_id b.repo_root a ≡ true → SameScope a b
in_scope-SameScope a b h = in_scope-parts b.session_id b.repo_root a h

pub SameScope-in_scope :
    (a b : SnapshotRoot) → SameScope a b → in_scope b.session_id b.repo_root a ≡ true
unfolding in_scope
SameScope-in_scope a b h =
    rw ((eq_iff a.session_id b.session_id).1 h.0, (eq_iff a.repo_root b.repo_root).1 h.1) refl

some_injective : (a b : SnapshotRoot) → some a ≡ some b → a ≡ b
some_injective a b h = ground arith

-- An update that keeps ids keeps their list, and each row comes from one.
module _ (test : SnapshotRoot → Bool) (change : SnapshotRoot → SnapshotRoot) where
  abbrev pub Came : SnapshotRoot → SnapshotRoot → Type 0
  Came a b = ((test b ≡ true) × (a ≡ change b)) ⊎ ((test b ≡ false) × (a ≡ b))

  pub ids-update_where :
      ((r : SnapshotRoot) → (change r).id ≡ r.id)
      → (rows : List SnapshotRoot) → ids (update_where test change rows) ≡ ids rows
  unfolding update_where
  ids-update_where k [] = refl
  ids-update_where k (r ∷ rs) = elim (Bool-cases (test r)) [
    | inl e ↦ rw (e, k r, ids-update_where k rs) refl
    | inr e ↦ rw (e, ids-update_where k rs) refl
  ]

  In-changed :
      (a r : SnapshotRoot) (rs rest : List SnapshotRoot)
      → (In a rest → (b : SnapshotRoot) × (In b rs × Came a b))
      → (c : Bool) → test r ≡ c
      → In a (if c then change r ∷ rest else r ∷ rest)
      → (b : SnapshotRoot) × (In b (r ∷ rs) × Came a b)
  In-changed a r rs rest k true e (inl f) = (r, (inl refl, inl (e, f)))
  In-changed a r rs rest k false e (inl f) = (r, (inl refl, inr (e, f)))
  In-changed a r rs rest k true e (inr h) = let (b, (i, c)) = k h in (b, (inr i, c))
  In-changed a r rs rest k false e (inr h) = let (b, (i, c)) = k h in (b, (inr i, c))

  pub In-update_where :
      (a : SnapshotRoot) (rows : List SnapshotRoot)
      → In a (update_where test change rows)
      → (b : SnapshotRoot) × (In b rows × Came a b)
  unfolding update_where
  In-update_where a [] h = absurd h
  In-update_where a (r ∷ rs) h =
      In-changed a r rs (update_where test change rs) (In-update_where a rs) (test r) refl h

  In-if_changed :
      (b r : SnapshotRoot) (rest : List SnapshotRoot) (c : Bool)
      → In b rest
      → In b (if c then change r ∷ rest else r ∷ rest)
  In-if_changed b r rest true h = inr h
  In-if_changed b r rest false h = inr h

  -- A row that is not selected stays.
  pub In-update_where_kept :
      (b : SnapshotRoot) (rows : List SnapshotRoot)
      → test b ≡ false
      → In b rows
      → In b (update_where test change rows)
  unfolding update_where
  In-update_where_kept b [] n h = absurd h
  In-update_where_kept b (r ∷ rs) n (inl e) = rw (sym (ap test e) ∙ n) (inl e)
  In-update_where_kept b (r ∷ rs) n (inr h) =
      In-if_changed b r (update_where test change rs) (test r) (In-update_where_kept b rs n h)

  first_where-if :
      (b r : SnapshotRoot) (rs rest : List SnapshotRoot) (first : Option SnapshotRoot)
      → (first ≡ some b → In b rs × ((test b ≡ true) × In (change b) rest))
      → (c : Bool) → test r ≡ c
      → (if c then some r else first) ≡ some b
      → In b (r ∷ rs) × ((test b ≡ true) × In (change b) (if c then change r ∷ rest else r ∷ rest))
  first_where-if b r rs rest first k true e h =
      let f = sym (some_injective r b h) in (inl f, (ap test f ∙ e, inl (ap change f)))
  first_where-if b r rs rest first k false e h = let (i, (t, j)) = k h in (inr i, (t, inr j))

  -- The first row that is selected is changed.
  pub first_where-In :
      (b : SnapshotRoot) (rows : List SnapshotRoot)
      → first_where test rows ≡ some b
      → In b rows × ((test b ≡ true) × In (change b) (update_where test change rows))
  unfolding first_where update_where
  first_where-In b [] h = absurd (ground arith)
  first_where-In b (r ∷ rs) h =
      first_where-if b r rs (update_where test change rs) (first_where test rs)
        (first_where-In b rs) (test r) refl h

-- `one_active` and the ids do not change when rows keep their id and scope and are active only if
-- they were.
pub record Kept (a b : SnapshotRoot) : Type 0 where
  pub same_ids : a.id ≡ b.id
  pub same_scope : SameScope a b
  pub still : a.is_active ≡ true → b.is_active ≡ true

pub one_active-Kept :
    (rows rows' : List SnapshotRoot)
    → ((a b : SnapshotRoot)
        → In a rows
        → In b rows
        → a.is_active ≡ true
        → b.is_active ≡ true
        → SameScope a b
        → a.id ≡ b.id)
    → ((a : SnapshotRoot)
        → In a rows'
        → a.is_active ≡ true
        → (b : SnapshotRoot) × (In b rows × Kept a b))
    → (a b : SnapshotRoot) → In a rows'
    → In b rows'
    → a.is_active ≡ true
    → b.is_active ≡ true
    → SameScope a b
    → a.id ≡ b.id
one_active-Kept rows rows' one from a b i j x y s =
    let (a', (i', k)) = from a i x in
    let (b', (j', l)) = from b j y in
    k.same_ids
    ∙ one a' b' i' j' (k.still x) (l.still y)
        (sym k.same_scope.0 ∙ s.0 ∙ l.same_scope.0, sym k.same_scope.1 ∙ s.1 ∙ l.same_scope.1)
    ∙ sym l.same_ids
