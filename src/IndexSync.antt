-- ===== src/IndexSync.antt =====
-- internal/indexsync/types.go: the records that snapshots, deltas and the stores exchange.
-- A string type with named constants is a data type; `other` holds any further string. Times are
-- numbers of nanoseconds; identifiers and sizes (int64) are numbers.
use deep_agent_cli.Base.{
  ℕ, ◌≡◌, ◌↔◌, Bool, true, false, Option, List, [], ◌∷◌, arith, if◌then◌else◌,
}
use deep_agent_cli.Text.{Text, eq, eq_iff}
use deep_agent_cli.Text.Trim.{trim}

abbrev pub Time : Type 0
Time = ℕ

pub data SnapshotStatus : Type 0 where
  pending active superseded failed : SnapshotStatus
  other : Text → SnapshotStatus

pub data NodeType : Type 0 where
  file dir : NodeType
  other : Text → NodeType

pub data FileStatus : Type 0 where
  active deleted : FileStatus
  other : Text → FileStatus

pub data DeltaAction : Type 0 where
  add modify delete : DeltaAction
  other : Text → DeltaAction

-- `a == b` on node types
unfoldable pub same_type : NodeType → NodeType → Bool
same_type file file = true
same_type dir dir = true
same_type (NodeType.other a) (NodeType.other b) = eq a b
same_type _ _ = false

pub same_type_iff : (a b : NodeType) → (same_type a b ≡ true) ↔ (a ≡ b)
unfolding same_type
same_type_iff file file = ground arith
same_type_iff file dir = ground arith
same_type_iff (NodeType.other a) (NodeType.other b) = ground (arith, eq_iff a b)
same_type_iff _ _ = ground arith

pub record SnapshotRoot : Type 0 where
  pub id : ℕ
  pub session_id : Text
  pub repo_root : Text
  pub root_hash : Text
  pub parent_snapshot_id : Option ℕ
  pub status : SnapshotStatus
  pub is_active : Bool
  pub created_at : Time
  pub completed_at : Option Time

pub record MerkleNode : Type 0 where
  pub id : ℕ
  pub snapshot_id : ℕ
  pub path : Text
  pub parent_path : Text
  pub node_type : NodeType
  pub node_hash : Text
  pub parent_hash : Text
  pub content_hash : Text
  pub size_bytes : Option ℕ
  pub mtime_ns : Option ℕ
  pub status : FileStatus
  pub created_at : Time

pub record FileState : Type 0 where
  pub id : ℕ
  pub session_id : Text
  pub repo_root : Text
  pub rel_path : Text
  pub last_snapshot_id : Option ℕ
  pub content_hash : Text
  pub node_hash : Text
  pub parent_hash : Text
  pub chunk_set_hash : Text
  pub size_bytes : Option ℕ
  pub mtime_ns : Option ℕ
  pub status : FileStatus
  pub deleted_at : Option Time
  pub updated_at : Time

pub record DeltaRecord : Type 0 where
  pub path : Text
  pub action : DeltaAction
  pub node_type : NodeType
  pub previous_node_hash : Text
  pub current_node_hash : Text
  pub previous_content_hash : Text
  pub current_content_hash : Text

pub record SyncDelta : Type 0 where
  pub session_id : Text
  pub repo_root : Text
  pub previous_snapshot_id : Option ℕ
  pub current_snapshot_id : Option ℕ
  pub previous_root_hash : Text
  pub current_root_hash : Text
  pub changes : List DeltaRecord

-- the loop of `ChangedPaths`
changed_paths_from : List DeltaRecord → List Text
changed_paths_from [] = []
changed_paths_from (c ∷ cs) =
    let rest = changed_paths_from cs in if eq (trim c.path) [] then rest else c.path ∷ rest

unfoldable pub changed_paths : SyncDelta → List Text
unfolding changed_paths_from
changed_paths d = changed_paths_from d.changes
