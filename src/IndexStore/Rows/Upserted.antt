-- ===== src/IndexStore/Rows/Upserted.antt =====
-- The upsert of a root into `index_snapshots`, of internal/indexstore/sync_store.go.
use deep_agent_cli.Base.{
  ℕ, suc, ◌<◌, ◌≡◌, refl, sym, ap, ◌∙◌, subst, ◌⊎◌, inl, inr, Bool, true, false, false≢true, List,
  [], ◌∷◌, ◌++◌, arith, if◌then◌else◌, In, In-append_cases, Unique, Unique-append_one,
}
use deep_agent_cli.Text.{eq_refl}
use deep_agent_cli.IndexSync.{Time, SnapshotRoot}
use deep_agent_cli.IndexStore.Rows.{in_scope, same_key, inserted, merged, upsert}
use deep_agent_cli.IndexStore.Rows.Store.{ids, IsStore, Kept, one_active-Kept}

In-ids_append : (i j : ℕ) (is : List ℕ) → In i (is ++ (j ∷ [])) → In i is ⊎ (i ≡ j)
In-ids_append i j is h = elim (In-append_cases i is (j ∷ []) h) [
  | inl k ↦ inl k
  | inr k ↦ elim k [ inl e ↦ inr e | inr z ↦ absurd z ]
]

module _ (root new : SnapshotRoot) where
  -- What an upsert makes of the rows, when it returns a row.
  pub record Upserted (rows : List SnapshotRoot) (r : SnapshotRoot × List SnapshotRoot)
      : Type 0 where
    pub present : In r.0 r.1
    pub same : same_key r.0 root ≡ true
    pub from :
        (a : SnapshotRoot) → In a r.1 → (a ≡ new) ⊎ ((b : SnapshotRoot) × (In b rows × Kept a b))
    pub same_ids : (ids r.1 ≡ ids rows) ⊎ (ids r.1 ≡ ids rows ++ (new.id ∷ []))

  Kept-self : (a b : SnapshotRoot) → a ≡ b → Kept a b
  Kept-self a b e = record {
    same_ids = ap (λ r. r.id) e;
    same_scope = (ap (λ r. r.session_id) e, ap (λ r. r.repo_root) e);
    still = λ x. sym (ap (λ r. r.is_active) e) ∙ x;
  }

  Kept-merged : (a r : SnapshotRoot) → a ≡ merged root r → Kept a r
  Kept-merged a r e = record {
    same_ids = ap (λ r. r.id) e;
    same_scope = (ap (λ r. r.session_id) e, ap (λ r. r.repo_root) e);
    still = λ x. sym (ap (λ r. r.is_active) e) ∙ x;
  }

  same_key-merged : (r : SnapshotRoot) → same_key (merged root r) root ≡ same_key r root
  unfolding same_key in_scope
  same_key-merged r = refl

  abbrev From : List SnapshotRoot → SnapshotRoot → Type 0
  From rows a = (a ≡ new) ⊎ ((b : SnapshotRoot) × (In b rows × Kept a b))

  From-merged :
      (r : SnapshotRoot) (rs : List SnapshotRoot) (a : SnapshotRoot)
      → In a (merged root r ∷ rs)
      → From (r ∷ rs) a
  From-merged r rs a (inl f) = inr (r, (inl refl, Kept-merged a r f))
  From-merged r rs a (inr h) = inr (a, (inr h, Kept-self a a refl))

  From-later :
      (r : SnapshotRoot) (rs : List SnapshotRoot) (a : SnapshotRoot)
      (later : SnapshotRoot × List SnapshotRoot)
      → ((a : SnapshotRoot) → In a later.1 → From rs a)
      → In a (r ∷ later.1)
      → From (r ∷ rs) a
  From-later r rs a later k (inl f) = inr (r, (inl refl, Kept-self a r f))
  From-later r rs a later k (inr h) = elim (k a h) [
    | inl e ↦ inl e
    | inr p ↦ inr (p.0, (inr p.1.0, p.1.1))
  ]

  Upserted-if :
      (r : SnapshotRoot) (rs : List SnapshotRoot) (later : SnapshotRoot × List SnapshotRoot)
      → Upserted rs later
      → (c : Bool) → same_key r root ≡ c
      → Upserted
          (r ∷ rs)
          (if c then (merged root r, merged root r ∷ rs) else (later.0, r ∷ later.1))
  Upserted-if r rs later u true e = record {
    present = inl refl;
    same = same_key-merged r ∙ e;
    from = λ a h. From-merged r rs a h;
    same_ids = inl refl;
  }
  Upserted-if r rs later u false e = record {
    present = inr u.present;
    same = u.same;
    from = λ a h. From-later r rs a later u.from h;
    same_ids = elim u.same_ids [
      | inl f ↦ inl (ap (λ is. r.id ∷ is) f)
      | inr f ↦ inr (ap (λ is. r.id ∷ is) f)
    ];
  }

  pub upsert-Upserted :
      same_key new root ≡ true → (rows : List SnapshotRoot) → Upserted rows (upsert root new rows)
  unfolding upsert
  upsert-Upserted k [] = record {
    present = inl refl;
    same = k;
    from = λ a h. elim h [ inl e ↦ inl e | inr z ↦ absurd z ];
    same_ids = inr refl;
  }
  upsert-Upserted k (r ∷ rs) =
      Upserted-if r rs (upsert root new rs) (upsert-Upserted k rs) (same_key r root) refl

module _ (root : SnapshotRoot) (next : ℕ) (started : Time) (rows : List SnapshotRoot)
    (h : IsStore next rows) where
  abbrev pub upserted : SnapshotRoot × List SnapshotRoot
  upserted = upsert root (inserted root next started) rows

  same_key-inserted : same_key (inserted root next started) root ≡ true
  unfolding same_key in_scope
  same_key-inserted =
      rw (eq_refl root.session_id, eq_refl root.repo_root, eq_refl root.root_hash) refl

  pub upsert-rows : Upserted root (inserted root next started) rows upserted
  upsert-rows = upsert-Upserted root (inserted root next started) same_key-inserted rows

  active-From :
      (a : SnapshotRoot)
      → From root (inserted root next started) rows a
      → a.is_active ≡ true
      → (b : SnapshotRoot) × (In b rows × Kept a b)
  active-From a (inl e) x = absurd (false≢true (sym (ap (λ r. r.is_active) e) ∙ x))
  active-From a (inr p) x = p

  distinct-ids : (is : List ℕ) → (is ≡ ids rows) ⊎ (is ≡ ids rows ++ (next ∷ [])) → Unique is
  distinct-ids is (inl e) = rw e h.distinct
  distinct-ids is (inr e) =
      rw e
        (Unique-append_one (ids rows) next h.distinct (λ i. absurd (omega (arith, h.fresh next i))))

  fresh-ids :
      (is : List ℕ)
      → (is ≡ ids rows) ⊎ (is ≡ ids rows ++ (next ∷ []))
      → (i : ℕ) → In i is
      → i < suc next
  fresh-ids is (inl e) i k = let f = h.fresh i (subst (λ l. In i l) e k) in omega arith
  fresh-ids is (inr e) i k = elim (In-ids_append i next (ids rows) (subst (λ l. In i l) e k)) [
    | inl j ↦ let f = h.fresh i j in omega arith
    | inr g ↦ omega (arith, g)
  ]

  pub upsert-IsStore : IsStore (suc next) upserted.1
  upsert-IsStore = record {
    fresh = fresh-ids (ids upserted.1) upsert-rows.same_ids;
    distinct = distinct-ids (ids upserted.1) upsert-rows.same_ids;
    one_active =
        one_active-Kept rows upserted.1 h.one_active (λ a i. active-From a (upsert-rows.from a i));
  }
