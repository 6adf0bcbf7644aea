-- ===== src/IndexStore/Save/Saved.antt =====
-- What the transaction of `SaveSnapshotState` of internal/indexstore/sync_store.go makes of the rows
-- of `index_snapshots`.
use deep_agent_cli.Base.{
  ℕ, ◌≡◌, refl, sym, ap, ◌∙◌, subst, Bool, true, false, false≢true, Option, none, some, List, [],
  ◌∷◌, map, arith, In,
}
use deep_agent_cli.Text.{text}
use deep_agent_cli.IndexSync.{Time, SnapshotRoot, MerkleNode, FileState}
use deep_agent_cli.IndexStore.Tables.{Tables, statement, Env}
use deep_agent_cli.IndexStore.Tx.{and_then, pure, exec, ◌>>=◌, ◌>>◌}
use deep_agent_cli.IndexStore.Tx.Ensures.{
  Ensures, Ensures-and_then, Ensures-exec, Ensures-query_row, Ensures-each,
}
use deep_agent_cli.IndexStore.Rows.{
  in_scope, is_row, update_where, first_where, activated, change_of, upsert_snapshot,
  update_activation, deactivate_others, same_key,
}
use deep_agent_cli.IndexStore.Rows.Store.{IsStore}
use deep_agent_cli.IndexStore.Rows.Activated.{
  IsReady, others_off-IsStore, others_off-only, others_off-saved, changed-IsStore, changed-returned,
}
use deep_agent_cli.IndexStore.Rows.Upserted.{upsert-IsStore, upsert-rows}
use deep_agent_cli.IndexStore.Items.{
  upsert_node, delete_nodes_outside, delete_all_nodes, delete_superseded_nodes, deleted_time,
  upsert_file, delete_files_outside, delete_all_files,
}
use deep_agent_cli.IndexStore.Checks.{or_pending}
use deep_agent_cli.IndexStore.Save.{
  indexed, completion, completion_if, bulk_upsert_nodes, clear_stale_nodes, put_file,
  bulk_upsert_files, clear_stale_files, deactivate_superseded, finalize_snapshot_root,
  delete_superseded, upsert_snapshot_root, save_body, save_items, activate, exec_if,
}

-- The root is saved, and not yet activated.
pub record Prepared (root saved : SnapshotRoot) (next : ℕ) (rows : List SnapshotRoot) : Type 0 where
  pub store : IsStore next rows
  pub present : In saved rows
  pub same : same_key saved root ≡ true

-- The rows are ready for its activation.
pub record Deactivated (root saved : SnapshotRoot) (next : ℕ) (rows : List SnapshotRoot)
    : Type 0 where
  pub store : IsStore next rows
  pub ready : IsReady saved root.is_active rows
  pub same : same_key saved root ≡ true

-- The saved row stands in the table, active as it was asked to be.
pub record Saved (root final : SnapshotRoot) (next : ℕ) (rows : List SnapshotRoot) : Type 0 where
  pub store : IsStore next rows
  pub present : In final rows
  pub same : same_key final root ≡ true
  pub wanted : final.is_active ≡ root.is_active

module _ (env : Env) (root : SnapshotRoot) where
  abbrev InPrepared : SnapshotRoot → Tables → Type 0
  InPrepared saved t = Prepared root saved t.next_snapshot t.snapshots

  abbrev InDeactivated : SnapshotRoot → Tables → Type 0
  InDeactivated saved t = Deactivated root saved t.next_snapshot t.snapshots

  abbrev pub InSaved : SnapshotRoot → Tables → Type 0
  InSaved final t = Saved root final t.next_snapshot t.snapshots

  some_injective : (a b : SnapshotRoot) → some a ≡ some b → a ≡ b
  some_injective a b h = ground arith

  upsert-Prepared :
      (n : ℕ) (t : Tables)
      → IsStore t.next_snapshot t.snapshots
      → Ensures InPrepared (upsert_snapshot_root root env n t)
  unfolding upsert_snapshot_root upsert_snapshot
  upsert-Prepared n t h =
      let rows = upsert-rows root t.next_snapshot env.started t.snapshots h in
      Ensures-query_row InPrepared env (statement (text "upsert snapshot root")) n
        (upsert_snapshot root) t
        (λ a e.
          subst (λ r. InPrepared r (upsert_snapshot root env t).1) (some_injective _ a e)
            (record {
              store = upsert-IsStore root t.next_snapshot env.started t.snapshots h;
              present = rows.present;
              same = rows.same;
            }))

  module _ (saved : SnapshotRoot) where
    nodes-Prepared :
        (nodes : List MerkleNode) (n : ℕ) (t : Tables)
        → InPrepared saved t
        → Ensures (λ _. InPrepared saved) (bulk_upsert_nodes saved.id nodes env n t)
    unfolding bulk_upsert_nodes upsert_node
    nodes-Prepared nodes n t h =
        Ensures-each (InPrepared saved) env
          (λ i n. exec (indexed (text "upsert snapshot node") i) (upsert_node saved.id n))
          (λ i a n' t' h'.
            Ensures-exec (λ _. InPrepared saved) env (indexed (text "upsert snapshot node") i) n'
              (upsert_node saved.id a) t' h')
          0 nodes n t h

    stale_nodes-Prepared :
        (nodes : List MerkleNode) (n : ℕ) (t : Tables)
        → InPrepared saved t
        → Ensures (λ _. InPrepared saved) (clear_stale_nodes saved.id nodes env n t)
    unfolding clear_stale_nodes delete_all_nodes delete_nodes_outside
    stale_nodes-Prepared [] n t h =
        Ensures-exec (λ _. InPrepared saved) env (statement (text "delete all snapshot nodes")) n
          (λ env. delete_all_nodes saved.id) t h
    stale_nodes-Prepared (x ∷ xs) n t h =
        Ensures-exec (λ _. InPrepared saved) env (statement (text "delete stale snapshot nodes")) n
          (λ env. delete_nodes_outside saved.id (map (λ n. n.path) (x ∷ xs))) t h

    files-Prepared :
        (files : List FileState) (n : ℕ) (t : Tables)
        → InPrepared saved t
        → Ensures (λ _. InPrepared saved) (bulk_upsert_files saved files env n t)
    unfolding bulk_upsert_files put_file upsert_file
    files-Prepared files n t h =
        Ensures-each (InPrepared saved) env (put_file saved)
          (λ i a n' t' h'.
            Ensures-exec (λ _. InPrepared saved) env (indexed (text "upsert file state") i) n'
              (upsert_file saved a (deleted_time a.status a.deleted_at (env.clock n'))) t' h')
          0 files n t h

    stale_files-Prepared :
        (files : List FileState) (n : ℕ) (t : Tables)
        → InPrepared saved t
        → Ensures (λ _. InPrepared saved) (clear_stale_files saved files env n t)
    unfolding clear_stale_files delete_all_files delete_files_outside
    stale_files-Prepared [] n t h =
        Ensures-exec (λ _. InPrepared saved) env (statement (text "delete all file state rows")) n
          (λ env. delete_all_files saved.session_id saved.repo_root) t h
    stale_files-Prepared (x ∷ xs) n t h =
        Ensures-exec (λ _. InPrepared saved) env (statement (text "delete stale file state rows")) n
          (λ env.
            delete_files_outside saved.session_id saved.repo_root (map (λ f. f.rel_path) (x ∷ xs)))
          t h

    deactivate-Deactivated :
        (wanted : Bool)
        → root.is_active ≡ wanted
        → (n : ℕ) (t : Tables) → InPrepared saved t
        → Ensures
            (λ _. InDeactivated saved)
            (exec_if wanted
              (λ env n t.
                exec
                  (statement (text "deactivate superseded snapshots"))
                  (λ env. deactivate_others saved (completion root.completed_at (env.clock n)))
                  env
                  n
                  t)
              env
              n
              t)
    unfolding deactivate_others
    deactivate-Deactivated true w n t h =
        Ensures-exec (λ _. InDeactivated saved) env
          (statement (text "deactivate superseded snapshots")) n
          (λ env. deactivate_others saved (completion root.completed_at (env.clock n))) t
          (record {
            store =
                others_off-IsStore saved (completion root.completed_at (env.clock n)) t.snapshots
                  t.next_snapshot h.store;
            ready = record {
              present =
                  others_off-saved saved (completion root.completed_at (env.clock n)) t.snapshots
                    h.present;
              only = λ w.
                  others_off-only saved (completion root.completed_at (env.clock n)) t.snapshots;
            };
            same = h.same;
          })
    deactivate-Deactivated false w n t h = record {
      store = h.store;
      ready = record { present = h.present; only = λ x. absurd (false≢true (sym w ∙ x)) };
      same = h.same;
    }

    module _ (completed : Option Time) (t : Tables) (h : InDeactivated saved t) where
      abbrev final_change : SnapshotRoot → SnapshotRoot
      final_change =
          activated (or_pending root.status) root.is_active completed root.parent_snapshot_id

      abbrev final_rows : List SnapshotRoot
      final_rows = update_where (is_row saved) final_change t.snapshots

      Saved-final :
          In (final_change saved) final_rows
          → Saved root (final_change saved) t.next_snapshot final_rows
      unfolding same_key in_scope
      Saved-final i = record {
        store =
            changed-IsStore saved root.is_active final_change (λ r. (refl, (refl, refl)))
              (λ r. refl) t.snapshots h.ready t.next_snapshot h.store;
        present = i;
        same = h.same;
        wanted = refl;
      }

      Saved-first :
          (a : SnapshotRoot) (f : Option SnapshotRoot)
          → first_where (is_row saved) t.snapshots ≡ f
          → change_of final_change f ≡ some a
          → Saved root a t.next_snapshot final_rows
      Saved-first a none e g = absurd (ground arith)
      Saved-first a (some b) e g =
          let (s, i) =
            changed-returned saved root.is_active final_change (λ r. (refl, (refl, refl)))
              (λ r. refl) t.snapshots h.ready t.next_snapshot h.store b e in
          subst (λ r. Saved root r t.next_snapshot final_rows)
            (ap final_change (sym s) ∙ some_injective (final_change b) a g)
            (Saved-final (subst (λ r. In (final_change r) final_rows) s i))

    finalize-Saved :
        (n : ℕ) (t : Tables)
        → InDeactivated saved t
        → Ensures InSaved (finalize_snapshot_root saved root env n t)
    unfolding finalize_snapshot_root and_then update_activation
    finalize-Saved n t h =
        Ensures-query_row InSaved env (statement (text "update snapshot activation")) n
          (λ env.
            update_activation saved (or_pending root.status) root.is_active
              (completion_if root.is_active root.completed_at (env.clock n))
              root.parent_snapshot_id)
          t
          (λ a e.
            Saved-first (completion_if root.is_active root.completed_at (env.clock n)) t h a
              (first_where (is_row saved) t.snapshots) refl e)

  delete-Saved :
      (final : SnapshotRoot) (n : ℕ) (t : Tables) (c : Bool)
      → InSaved final t
      → Ensures
          (λ _. InSaved final)
          (exec_if c
            (exec
              (statement (text "delete superseded scope nodes"))
              (λ env. delete_superseded_nodes final))
            env
            n
            t)
  unfolding delete_superseded_nodes
  delete-Saved final n t true h =
      Ensures-exec (λ _. InSaved final) env (statement (text "delete superseded scope nodes")) n
        (λ env. delete_superseded_nodes final) t h
  delete-Saved final n t false h = h

  items-Prepared :
      (saved : SnapshotRoot) (nodes : List MerkleNode) (files : List FileState) (n : ℕ) (t : Tables)
      → InPrepared saved t
      → Ensures (λ _. InPrepared saved) (save_items saved nodes files env n t)
  unfolding save_items
  items-Prepared saved nodes files n t h =
      Ensures-and_then (λ _. InPrepared saved) (λ _. InPrepared saved) env
        (λ _.
          clear_stale_nodes saved.id nodes
          >> (bulk_upsert_files saved files >> clear_stale_files saved files))
        (bulk_upsert_nodes saved.id nodes env n t) (nodes-Prepared saved nodes n t h)
        (λ _ n t h.
          Ensures-and_then (λ _. InPrepared saved) (λ _. InPrepared saved) env
            (λ _. bulk_upsert_files saved files >> clear_stale_files saved files)
            (clear_stale_nodes saved.id nodes env n t) (stale_nodes-Prepared saved nodes n t h)
            (λ _ n t h.
              Ensures-and_then (λ _. InPrepared saved) (λ _. InPrepared saved) env
                (λ _. clear_stale_files saved files) (bulk_upsert_files saved files env n t)
                (files-Prepared saved files n t h)
                (λ _ n t h. stale_files-Prepared saved files n t h)))

  activate-Saved :
      (saved : SnapshotRoot) (n : ℕ) (t : Tables)
      → InPrepared saved t
      → Ensures InSaved (activate root saved env n t)
  unfolding activate deactivate_superseded delete_superseded and_then
  activate-Saved saved n t h =
      Ensures-and_then (λ _. InDeactivated saved) InSaved env
        (λ _. finalize_snapshot_root saved root >>= λ final. delete_superseded final >> pure final)
        (deactivate_superseded root saved env n t)
        (deactivate-Deactivated saved root.is_active refl n t h)
        (λ _ n t h.
          Ensures-and_then InSaved InSaved env (λ final. delete_superseded final >> pure final)
            (finalize_snapshot_root saved root env n t) (finalize-Saved saved n t h)
            (λ final n t h.
              Ensures-and_then (λ _. InSaved final) InSaved env (λ _. pure final)
                (delete_superseded final env n t) (delete-Saved final n t final.is_active h)
                (λ _ n t h. h)))

  -- The parts of the transaction, chained.
  pub body-Saved :
      (nodes : List MerkleNode) (files : List FileState) (n : ℕ) (t : Tables)
      → IsStore t.next_snapshot t.snapshots
      → Ensures InSaved (save_body root nodes files env n t)
  unfolding save_body
  body-Saved nodes files n t h =
      Ensures-and_then InPrepared InSaved env
        (λ saved. save_items saved nodes files >> activate root saved)
        (upsert_snapshot_root root env n t) (upsert-Prepared n t h)
        (λ saved n t h.
          Ensures-and_then (λ _. InPrepared saved) InSaved env (λ _. activate root saved)
            (save_items saved nodes files env n t) (items-Prepared saved nodes files n t h)
            (λ _ n t h. activate-Saved saved n t h))
