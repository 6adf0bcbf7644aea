-- ===== src/IndexStore/Save/Loaded.antt =====
-- `SaveSnapshotState` and then `LoadLatestSnapshot`, of internal/indexstore/sync_store.go.
use deep_agent_cli.Base.{ℕ, ◌≡◌, refl, ap, ◌∙◌, subst, true, none, some, List, arith}
use deep_agent_cli.Text.{Text, text}
use deep_agent_cli.IndexSync.{SnapshotRoot, MerkleNode, FileState}
use deep_agent_cli.IndexStore.Tables.{Tables, also, Result, ok, err, Env}
use deep_agent_cli.IndexStore.Tx.Ensures.{rolled_back, committed_as, EndsAs, transact-Transacted}
use deep_agent_cli.IndexStore.Rows.{in_scope, same_key}
use deep_agent_cli.IndexStore.Rows.Store.{IsStore}
use deep_agent_cli.IndexStore.Checks.{
  validate_scope, validate_snapshot_root, normalize_snapshot_root,
}
use deep_agent_cli.IndexStore.Latest.{
  latest_row, query, load_state, load_nodes, load_file_states, load_valid, load_latest_snapshot,
}
use deep_agent_cli.IndexStore.Latest.First.{first_row-active}
use deep_agent_cli.IndexStore.Save.{save_body, validate_save, save_valid, save_snapshot_state}
use deep_agent_cli.IndexStore.Save.Saved.{Saved, body-Saved}

module _ (env : Env) (t : Tables) (h : IsStore t.next_snapshot t.snapshots) (root : SnapshotRoot)
    (nodes : List MerkleNode) (files : List FileState) where
  valid-Saved :
      (r : Result (Unit {0}))
      → EndsAs
          (λ final t'. Saved root final t'.next_snapshot t'.snapshots)
          t
          (save_valid env t root nodes files r)
  unfolding save_valid
  valid-Saved (err e) = rolled_back e
  valid-Saved (ok u) =
      transact-Transacted (λ final t'. Saved root final t'.next_snapshot t'.snapshots)
        (text "begin save snapshot state tx") (text "commit save snapshot state tx") env t
        (save_body root nodes files) (body-Saved env root nodes files 1 t h)

abbrev pub SavedIn : SnapshotRoot → SnapshotRoot → Tables → Type 0
SavedIn root final t = Saved root final t.next_snapshot t.snapshots

-- The status is not part of the key.
Saved-normalized :
    (root final : SnapshotRoot) (t : Tables)
    → SavedIn (normalize_snapshot_root root) final t
    → SavedIn root final t
unfolding normalize_snapshot_root same_key in_scope
Saved-normalized root final t s = record {
  store = s.store;
  present = s.present;
  same = s.same;
  wanted = s.wanted;
}

Transacted-normalized :
    (root : SnapshotRoot) (t : Tables) (r : Tables × Result SnapshotRoot)
    → EndsAs (SavedIn (normalize_snapshot_root root)) t r
    → EndsAs (SavedIn root) t r
Transacted-normalized root t (t', _) (rolled_back e) = rolled_back e
Transacted-normalized root t (t', _) (committed_as final _ s) =
    committed_as final t' (Saved-normalized root final t' s)

-- To save a snapshot over well-formed rows, whatever statements fail: with an error, the tables are
-- as they were; otherwise the rows are well formed, so their ids are distinct and each scope has at
-- most one active snapshot, and the returned root stands among them with the scope and the root hash
-- of the given one, and is active exactly when that asks for it.
pub save_snapshot_state-Transacted :
    (env : Env) (t : Tables) (root : SnapshotRoot) (nodes : List MerkleNode)
    (files : List FileState)
    → IsStore t.next_snapshot t.snapshots
    → EndsAs (SavedIn root) t (save_snapshot_state env t root nodes files)
unfolding save_snapshot_state
save_snapshot_state-Transacted env t root nodes files h =
    Transacted-normalized root t
      (save_valid env t (normalize_snapshot_root root) nodes files
        (validate_save (normalize_snapshot_root root) nodes files))
      (valid-Saved env t h (normalize_snapshot_root root) nodes files
        (validate_save (normalize_snapshot_root root) nodes files))

also-ok : (a b : Result (Unit {0})) → also a b ≡ ok tt → a ≡ ok tt
also-ok (ok u) b h = refl
also-ok (err e) b h = h

ok_injective : (a b : SnapshotRoot) → ok a ≡ ok b → a ≡ b
ok_injective a b h = ground arith

query-done :
    {A : Type 0} (label : Text) (env : Env) (n : ℕ) (next : Result A)
    → env.fails n ≡ none
    → query label env n next ≡ next
query-done label env n next e = rw (e, query) refl

-- A scope with a latest root, and no query that fails.
load-found :
    (env : Env) (t : Tables) (s r : Text) (root : SnapshotRoot)
    → ((i : ℕ) → env.fails i ≡ none)
    → validate_scope s r ≡ ok tt
    → latest_row s r t ≡ some root
    → load_latest_snapshot env t s r
      ≡ ok (
          some (record {
            root = root;
            nodes = load_nodes env t root.id;
            file_states = load_file_states env t s r;
          }))
unfolding load_latest_snapshot load_valid load_state
load-found env t s r root q v l =
    ap (load_valid env t s r) v
    ∙ query-done (text "select latest snapshot") env 0 (load_state env t s r (latest_row s r t))
        (q 0)
    ∙ ap (load_state env t s r) l
    ∙ query-done (text "query snapshot nodes") env 1 _ (q 1)
    ∙ query-done (text "query file state") env 2 _ (q 2)

same_key-scope :
    (a b : SnapshotRoot) → same_key a b ≡ true → in_scope b.session_id b.repo_root a ≡ true
unfolding same_key
same_key-scope a b h = ground (arith, h)

module _ (env : Env) (t : Tables) (root final : SnapshotRoot) (nodes : List MerkleNode)
    (files : List FileState) where
  save_valid-ok :
      (r : Result (Unit {0})) → (save_valid env t root nodes files r).1 ≡ ok final → r ≡ ok tt
  unfolding save_valid
  save_valid-ok (ok u) h = refl
  save_valid-ok (err e) h = absurd (ground arith)

module _ (env : Env) (t : Tables) (root final : SnapshotRoot) (nodes : List MerkleNode)
    (files : List FileState) where
  -- What is saved has a scope that can be loaded.
  save-scope :
      (save_snapshot_state env t root nodes files).1 ≡ ok final
      → validate_scope root.session_id root.repo_root ≡ ok tt
  unfolding save_snapshot_state validate_save validate_snapshot_root normalize_snapshot_root
  save-scope h = also-ok (validate_scope root.session_id root.repo_root) _ (
      also-ok (validate_snapshot_root (normalize_snapshot_root root)) _ (
        save_valid-ok env t (normalize_snapshot_root root) final nodes files
          (validate_save (normalize_snapshot_root root) nodes files) h))

  pub EndsAs-Saved :
      (r : Tables × Result SnapshotRoot)
      → EndsAs (SavedIn root) t r
      → r.1 ≡ ok final
      → SavedIn root final r.0
  EndsAs-Saved (t', _) (rolled_back e) h = absurd (ground arith)
  EndsAs-Saved (t', _) (committed_as a _ s) h =
      subst (λ r. SavedIn root r t') (ok_injective a final h) s

  -- What a save of an active root returns is what a load of its scope finds: over well-formed rows,
  -- when `SaveSnapshotState` of a root that is to be active succeeds, then `LoadLatestSnapshot` of its
  -- scope, with no failing query, returns the state whose root is the returned one, with the nodes of
  -- that snapshot and the file states of the scope, whatever other snapshots there are.
  pub save-load :
      IsStore t.next_snapshot t.snapshots
      → root.is_active ≡ true
      → (save_snapshot_state env t root nodes files).1 ≡ ok final
      → (later : Env) → ((i : ℕ) → later.fails i ≡ none)
      → load_latest_snapshot later
          (save_snapshot_state env t root nodes files).0
          root.session_id
          root.repo_root
        ≡ ok (
            some (record {
              root = final;
              nodes = load_nodes later (save_snapshot_state env t root nodes files).0 final.id;
              file_states =
                  load_file_states later
                    (save_snapshot_state env t root nodes files).0
                    root.session_id
                    root.repo_root;
            }))
  unfolding latest_row
  save-load w a h later q =
      let r = save_snapshot_state env t root nodes files in
      let s = EndsAs-Saved r (save_snapshot_state-Transacted env t root nodes files w) h in
      load-found later r.0 root.session_id root.repo_root final q (save-scope h) (
        first_row-active root.session_id root.repo_root r.0.next_snapshot r.0.snapshots s.store
          final s.present (s.wanted ∙ a) (same_key-scope final root s.same))
