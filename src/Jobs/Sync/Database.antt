-- ===== src/Jobs/Sync/Database.antt =====
-- The database of internal/indexstore as the snapshot store of internal/jobs/river/sync_worker.go.
use deep_agent_cli.Base.{ℕ, ◌≡◌, sym, ap, ◌∙◌, true, none, some, List, arith}
use deep_agent_cli.Text.{Text, eq_iff}
use deep_agent_cli.Text.Trim.{trim}
use deep_agent_cli.Reply.{Reply, value, fault}
use deep_agent_cli.IndexSync.{SnapshotRoot, MerkleNode, FileState}
use deep_agent_cli.IndexStore.{SnapshotState}
use deep_agent_cli.IndexStore.Tables.{Tables, StoreError, Result, ok, err, Env}
use deep_agent_cli.IndexStore.Tx.Ensures.{rolled_back, committed_as, EndsAs}
use deep_agent_cli.IndexStore.Rows.{same_key}
use deep_agent_cli.IndexStore.Rows.Store.{IsStore}
use deep_agent_cli.IndexStore.Latest.{load_nodes, load_file_states, load_latest_snapshot}
use deep_agent_cli.IndexStore.Save.{save_snapshot_state}
use deep_agent_cli.IndexStore.Save.Loaded.{
  SavedIn, save_snapshot_state-Transacted, EndsAs-Saved, save-load,
}
use deep_agent_cli.Snapshot.{Snapshot}
use deep_agent_cli.Jobs.Sync.{SnapshotStore}
use deep_agent_cli.Jobs.Sync.Lost.{Laws}

-- The tables, well formed, and the files of the repositories.
pub record World (F : Type 0) : Type 0 where
  pub tables : Tables
  pub is_store : IsStore tables.next_snapshot tables.snapshots
  pub files : F

pub EndsAs-IsStore :
    (root : SnapshotRoot) (t : Tables) (r : Tables × Result SnapshotRoot)
    → IsStore t.next_snapshot t.snapshots
    → EndsAs (SavedIn root) t r
    → IsStore r.0.next_snapshot r.0.snapshots
EndsAs-IsStore root t (t', _) h (rolled_back e) = h
EndsAs-IsStore root t (t', _) h (committed_as final _ s) = s.store

module _ (message : StoreError → Text) where
  abbrev pub reply_of : {A : Type 0} → Result A → Reply A
  reply_of (ok a) = value a
  reply_of (err e) = fault (message e)

  value_injective : {A : Type 0} (a b : A) → value a ≡ value b → a ≡ b
  value_injective a b h = ground arith

  reply-ok : {A : Type 0} (r : Result A) (a : A) → reply_of r ≡ value a → r ≡ ok a
  reply-ok (ok b) a h = ap ok (value_injective b a h)
  reply-ok (err e) a h = absurd (ground arith)

  module _ {F : Type 0} (save_env load_env : Env) where
    -- The store in an environment for the saves and one for the loads.
    unfoldable pub database_store : SnapshotStore (World F)
    unfolding save_snapshot_state load_latest_snapshot
    database_store = record {
      load = λ w session_id repo_root.
          reply_of (load_latest_snapshot load_env w.tables session_id repo_root);
      save = λ w root nodes files.
          let r = save_snapshot_state save_env w.tables root nodes files in
          (
            record {
              tables = r.0;
              is_store =
                  EndsAs-IsStore root w.tables r w.is_store
                    (save_snapshot_state-Transacted save_env w.tables root nodes files w.is_store);
              files = w.files;
            },
            reply_of r.1,
          );
    }

    module _ (builder : F → Text → Reply Snapshot) where
      abbrev pub builder_in : World F → Text → Reply Snapshot
      builder_in w repo_root = builder w.files repo_root

      saved :
          (s s' : World F) (root root' : SnapshotRoot) (nodes : List MerkleNode)
          (files : List FileState)
          → ((i : ℕ) → load_env.fails i ≡ none)
          → root.is_active ≡ true
          → database_store.save s root nodes files ≡ (s', value root')
          → ((state : SnapshotState) × ((database_store.load s' root.session_id root.repo_root
                  ≡ value (some state))
                × (state.root.root_hash ≡ root.root_hash)))
      unfolding database_store same_key
      saved s s' root root' nodes files q a h =
          let r = save_snapshot_state save_env s.tables root nodes files in
          let e = reply-ok r.1 root' (ap (λ x. x.1) h) in
          let t =
            EndsAs-Saved save_env s.tables root root' nodes files r
              (save_snapshot_state-Transacted save_env s.tables root nodes files s.is_store) e in
          (
            record {
              root = root';
              nodes = load_nodes load_env r.0 root'.id;
              file_states = load_file_states load_env r.0 root.session_id root.repo_root;
            },
            (
              ap
                    (λ x.
                      reply_of
                        (load_latest_snapshot load_env x.0.tables root.session_id root.repo_root))
                    (sym h)
                  ∙ ap reply_of (
                      save-load save_env s.tables root root' nodes files s.is_store a e load_env q),
              (eq_iff root'.root_hash root.root_hash).0 (ground (arith, t.same)),
            ),
          )

      -- The database keeps the laws that the sync worker relies on: when no query of a load fails, and
      -- the root hash of a built snapshot has no space around it, an active root that is saved is the
      -- latest one of its scope, and to save touches no file.
      pub database_store-Laws :
          ((i : ℕ) → load_env.fails i ≡ none)
          → ((f : F) (r : Text) (c : Snapshot)
              → builder f r ≡ value c
              → trim c.root_hash ≡ c.root_hash)
          → Laws database_store builder_in
      unfolding database_store
      database_store-Laws q trims = record {
        saves = λ s s' root root' nodes files. saved s s' root root' nodes files q;
        keeps_files = λ s s' root root' nodes files r h. sym (ap (λ x. builder x.0.files r) h);
        trims = λ s r c. trims s.files r c;
      }
