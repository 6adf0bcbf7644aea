-- ===== src/IndexStore/Rows.antt =====
-- The statements of internal/indexstore/sync_store.go on the rows of `index_snapshots`, with what the
-- SQL says of a conflict, of the rows it selects and of what it returns. A session id is the text
-- that the database prints of its UUID, as the sessions have it. `COALESCE` keeps the first value
-- that is not NULL.
pub mod Store
pub mod Upserted
pub mod Activated
use deep_agent_cli.Base.{
  ℕ, suc, Bool, false, not, ◌&&◌, Option, none, some, List, [], ◌∷◌, ◌==◌, if◌then◌else◌,
}
use deep_agent_cli.Text.{Text, eq}
use deep_agent_cli.IndexSync.{Time, SnapshotStatus, SnapshotRoot}
use deep_agent_cli.IndexStore.Tables.{Tables, Env}

abbrev pub coalesce : {A : Type 0} → Option A → Option A → Option A
coalesce none b = b
coalesce (some a) b = some a

unfoldable pub in_scope : Text → Text → SnapshotRoot → Bool
in_scope session_id repo_root r = eq r.session_id session_id && eq r.repo_root repo_root

-- the key (session_id, repo_root, root_hash)
unfoldable pub same_key : SnapshotRoot → SnapshotRoot → Bool
unfolding in_scope
same_key a b = in_scope b.session_id b.repo_root a && eq a.root_hash b.root_hash

-- the row of an INSERT of a root
abbrev pub inserted : SnapshotRoot → ℕ → Time → SnapshotRoot
inserted root id started = record root { id = id; is_active = false; created_at = started }

-- ON CONFLICT ... DO UPDATE: what becomes of a row
abbrev pub merged : SnapshotRoot → SnapshotRoot → SnapshotRoot
merged root r = record r {
  parent_snapshot_id = coalesce root.parent_snapshot_id r.parent_snapshot_id;
  status = root.status;
  completed_at = coalesce root.completed_at r.completed_at;
}

-- the row that is returned, and the rows
unfoldable pub upsert :
    SnapshotRoot → SnapshotRoot → List SnapshotRoot → SnapshotRoot × List SnapshotRoot
unfolding same_key
upsert root new [] = (new, new ∷ [])
upsert root new (r ∷ rs) =
    let later = upsert root new rs in
    if same_key r root then (merged root r, merged root r ∷ rs) else (later.0, r ∷ later.1)

-- `upsertSnapshotRootSQL`
unfoldable pub upsert_snapshot : SnapshotRoot → Env → Tables → Option SnapshotRoot × Tables
unfolding upsert
upsert_snapshot root env t =
    let later = upsert root (inserted root t.next_snapshot env.started) t.snapshots in
    (some later.0, record t { next_snapshot = suc t.next_snapshot; snapshots = later.1 })

-- `UPDATE ... SET ... WHERE`
unfoldable pub update_where : {A : Type 0} → (A → Bool) → (A → A) → List A → List A
update_where test change [] = []
update_where test change (r ∷ rs) =
    let rest = update_where test change rs in if test r then change r ∷ rest else r ∷ rest

unfoldable pub first_where : {A : Type 0} → (A → Bool) → List A → Option A
first_where test [] = none
first_where test (r ∷ rs) = let rest = first_where test rs in if test r then some r else rest

unfoldable pub delete_where : {A : Type 0} → (A → Bool) → List A → List A
delete_where test [] = []
delete_where test (r ∷ rs) = let rest = delete_where test rs in if test r then rest else r ∷ rest

unfoldable pub is_row : SnapshotRoot → SnapshotRoot → Bool
unfolding in_scope
is_row saved r = r.id == saved.id && in_scope saved.session_id saved.repo_root r

abbrev pub activated : SnapshotStatus → Bool → Option Time → Option ℕ → SnapshotRoot → SnapshotRoot
activated status is_active completed parent r = record r {
  status = status;
  is_active = is_active;
  completed_at = completed;
  parent_snapshot_id = coalesce parent r.parent_snapshot_id;
}

abbrev pub change_of : {A : Type 0} → (A → A) → Option A → Option A
change_of change none = none
change_of change (some a) = some (change a)

-- `updateSnapshotActivationSQL`
unfoldable pub update_activation :
    SnapshotRoot
    → SnapshotStatus
    → Bool
    → Option Time
    → Option ℕ
    → Tables
    → Option SnapshotRoot × Tables
unfolding is_row update_where first_where
update_activation saved status is_active completed parent t = (
  change_of (activated status is_active completed parent) (first_where (is_row saved) t.snapshots),
  record t {
    snapshots =
        update_where (is_row saved) (activated status is_active completed parent) t.snapshots;
  },
)

unfoldable pub is_other_active : SnapshotRoot → SnapshotRoot → Bool
unfolding in_scope
is_other_active saved r =
    (in_scope saved.session_id saved.repo_root r && not (r.id == saved.id)) && r.is_active

abbrev pub superseded_row : Time → SnapshotRoot → SnapshotRoot
superseded_row completed r = record r {
  is_active = false;
  status = SnapshotStatus.superseded;
  completed_at = coalesce r.completed_at (some completed);
}

-- `deactivateScopeSnapshotsSQL`
unfoldable pub deactivate_others : SnapshotRoot → Time → Tables → Tables
unfolding is_other_active update_where
deactivate_others saved completed t = record t {
  snapshots = update_where (is_other_active saved) (superseded_row completed) t.snapshots;
}
