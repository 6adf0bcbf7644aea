-- ===== src/IndexStore/Rows/Activated.antt =====
-- Deactivating the other snapshots of a scope and activating one, in the rows of `index_snapshots`, as
-- internal/indexstore/sync_store.go does.
use deep_agent_cli.Base.{
  ℕ, ◌≡◌, refl, sym, ap, ◌∙◌, subst, inl, inr, Bool, true, false≢true, some, List, arith, In,
}
use deep_agent_cli.Text.{eq_refl}
use deep_agent_cli.IndexSync.{Time, SnapshotRoot}
use deep_agent_cli.IndexStore.Rows.{
  update_where, first_where, is_row, is_other_active, superseded_row,
}
use deep_agent_cli.IndexStore.Rows.Store.{
  SameScope, IsStore, in_scope-SameScope, SameScope-in_scope, same_id, Came, ids-update_where,
  In-update_where, In-update_where_kept, first_where-In, Kept, one_active-Kept,
}

-- The rows other than the saved one are deactivated in its scope.
module _ (saved : SnapshotRoot) (completed : Time) (rows : List SnapshotRoot) where
  abbrev pub others_off : List SnapshotRoot
  others_off = update_where (is_other_active saved) (superseded_row completed) rows

  from-others_off :
      (a : SnapshotRoot) → In a others_off → (b : SnapshotRoot) × (In b rows × Kept a b)
  from-others_off a h =
      let (b, (i, c)) =
        In-update_where (is_other_active saved) (superseded_row completed) a rows h in
      (
        b,
        (
          i,
          elim c [
            | inl d ↦ rw d.1 (record {
              same_ids = refl;
              same_scope = (refl, refl);
              still = λ x. absurd (false≢true x);
            })
            | inr d ↦ rw d.1 (record { same_ids = refl; same_scope = (refl, refl); still = λ x. x })
          ],
        ),
      )

  pub others_off-IsStore : (next : ℕ) → IsStore next rows → IsStore next others_off
  others_off-IsStore next h =
      let e =
        ids-update_where (is_other_active saved) (superseded_row completed) (λ r. refl) rows in
      record {
        fresh = rw e h.fresh;
        distinct = rw e h.distinct;
        one_active = one_active-Kept rows others_off h.one_active (λ a i x. from-others_off a i);
      }

  only-Came :
      (a b : SnapshotRoot)
      → Came (is_other_active saved) (superseded_row completed) a b
      → a.is_active ≡ true
      → SameScope a saved
      → a.id ≡ saved.id
  unfolding is_other_active
  only-Came a b (inl d) x s = absurd (false≢true (sym (ap (λ r. r.is_active) d.1) ∙ x))
  only-Came a b (inr d) x s =
      ground (arith, x, SameScope-in_scope a saved s, ap (is_other_active saved) d.1 ∙ d.0)

  pub others_off-only :
      (a : SnapshotRoot)
      → In a others_off
      → a.is_active ≡ true
      → SameScope a saved
      → a.id ≡ saved.id
  others_off-only a h x s =
      let (b, (i, c)) =
        In-update_where (is_other_active saved) (superseded_row completed) a rows h in
      only-Came a b c x s

  pub others_off-saved : In saved rows → In saved others_off
  unfolding is_other_active
  others_off-saved h =
      In-update_where_kept (is_other_active saved) (superseded_row completed) saved rows
        (rw (eq_refl saved.session_id, eq_refl saved.repo_root) (ground arith)) h

-- What holds of the rows before the saved root is activated, when the root is to be active or not.
pub record IsReady (saved : SnapshotRoot) (wanted : Bool) (rows : List SnapshotRoot) : Type 0 where
  pub present : In saved rows
  pub only :
      wanted ≡ true
      → (a : SnapshotRoot) → In a rows
      → a.is_active ≡ true
      → SameScope a saved
      → a.id ≡ saved.id

-- The saved root becomes active or inactive, and nothing else changes.
module _ (saved : SnapshotRoot) (wanted : Bool) (change : SnapshotRoot → SnapshotRoot)
    (keeps : (r : SnapshotRoot) → ((change r).id ≡ r.id) × SameScope (change r) r)
    (sets : (r : SnapshotRoot) → (change r).is_active ≡ wanted) (rows : List SnapshotRoot)
    (ready : IsReady saved wanted rows) where
  abbrev pub changed : List SnapshotRoot
  changed = update_where (is_row saved) change rows

  -- A row that is active afterwards is the saved one, or was active.
  data From (a b : SnapshotRoot) : Type 0 where
    target : a.id ≡ saved.id → SameScope a saved → (a.is_active ≡ true → wanted ≡ true) → From a b
    other : In b rows → a ≡ b → From a b

  From-Came : (a b : SnapshotRoot) → In b rows → Came (is_row saved) change a b → From a b
  unfolding is_row
  From-Came a b i (inr d) = other i d.1
  From-Came a b i (inl d) =
      let t = in_scope-SameScope b saved (ground (arith, d.0)) in
      let k = keeps b in
      let l = sym (ap (λ r. r.session_id) d.1) in
      target (ap (λ r. r.id) d.1 ∙ k.0 ∙ ground (arith, d.0))
        (ap (λ r. r.session_id) d.1 ∙ k.1.0 ∙ t.0, ap (λ r. r.repo_root) d.1 ∙ k.1.1 ∙ t.1)
        (λ x. sym (sets b) ∙ sym (ap (λ r. r.is_active) d.1) ∙ x)

  one_active-From :
      (one : (a b : SnapshotRoot)
        → In a rows
        → In b rows
        → a.is_active ≡ true
        → b.is_active ≡ true
        → SameScope a b
        → a.id ≡ b.id)
      (a b a' b' : SnapshotRoot)
      → From a a'
      → From b b'
      → a.is_active ≡ true
      → b.is_active ≡ true
      → SameScope a b
      → a.id ≡ b.id
  one_active-From one a b a' b' (target e s w) (target f t v) x y z = e ∙ sym f
  one_active-From one a b a' b' (target e s w) (other j g) x y z =
      e
      ∙ sym (ready.only (w x) b (subst (λ r. In r rows) (sym g) j) y (sym z.0 ∙ s.0, sym z.1 ∙ s.1))
  one_active-From one a b a' b' (other i f) (target e s w) x y z =
      ready.only (w y) a (subst (λ r. In r rows) (sym f) i) x (z.0 ∙ s.0, z.1 ∙ s.1) ∙ sym e
  one_active-From one a b a' b' (other i f) (other j g) x y z =
      one a b (subst (λ r. In r rows) (sym f) i) (subst (λ r. In r rows) (sym g) j) x y z

  pub changed-IsStore : (next : ℕ) → IsStore next rows → IsStore next changed
  changed-IsStore next h =
      let e = ids-update_where (is_row saved) change (λ r. (keeps r).0) rows in
      record {
        fresh = rw e h.fresh;
        distinct = rw e h.distinct;
        one_active = λ a b i j.
            let (a', (i', c)) = In-update_where (is_row saved) change a rows i in
            let (b', (j', d)) = In-update_where (is_row saved) change b rows j in
            one_active-From h.one_active a b a' b' (From-Came a a' i' c) (From-Came b b' j' d);
      }

  -- The row that the update returns is the saved one, changed.
  pub changed-returned :
      (next : ℕ)
      → IsStore next rows
      → (b : SnapshotRoot) → first_where (is_row saved) rows ≡ some b
      → (b ≡ saved) × In (change b) changed
  unfolding is_row
  changed-returned next h b e =
      let (i, (t, j)) = first_where-In (is_row saved) change b rows e in
      (same_id b saved rows h.distinct i ready.present (ground (arith, t)), j)
