-- ===== src/IndexStore/Tables.antt =====
-- The database of internal/indexstore/store.go and sync_store.go: tables of rows, and transactions,
-- which pass the tables from one statement to the next. The statements are numbered; the environment
-- says which fail, with what message, what time.Now() reads after each, what the database's NOW()
-- is, which is that of the transaction's start, and how the database compares texts. A transaction that fails is rolled back; a commit that
-- fails leaves the tables as they were.
use deep_agent_cli.Base.{ℕ, Bool, Option, List}
use deep_agent_cli.Text.{Text}
use deep_agent_cli.IndexSync.{Time, NodeType, FileStatus, SnapshotRoot}
use deep_agent_cli.IndexStore.{Embedding}

-- A row of `index_nodes`; a column that may be NULL is an option.
pub record NodeRow : Type 0 where
  pub id : ℕ
  pub snapshot_id : ℕ
  pub path : Text
  pub parent_path : Option Text
  pub node_type : NodeType
  pub node_hash : Text
  pub parent_hash : Option Text
  pub content_hash : Option Text
  pub size_bytes : Option ℕ
  pub mtime_ns : Option ℕ
  pub status : FileStatus
  pub created_at : Time

-- A row of `index_file_state`.
pub record FileRow : Type 0 where
  pub id : ℕ
  pub session_id : Text
  pub repo_root : Text
  pub rel_path : Text
  pub last_snapshot_id : Option ℕ
  pub content_hash : Option Text
  pub node_hash : Option Text
  pub parent_hash : Option Text
  pub chunk_set_hash : Option Text
  pub size_bytes : Option ℕ
  pub mtime_ns : Option ℕ
  pub status : FileStatus
  pub deleted_at : Option Time
  pub updated_at : Time

-- A row of `index_chunks`.
pub record ChunkRow : Type 0 where
  pub id : ℕ
  pub session_id : Text
  pub repo_root : Text
  pub rel_path : Text
  pub chunk_index : ℕ
  pub content : Text
  pub content_hash : Text
  pub model : Text
  pub embedding_dims : ℕ
  pub embedding : Embedding
  pub created_at : Time

-- The columns of `index_snapshots` are the fields of the root. `next` numbers the next row.
pub record Tables : Type 0 where
  pub next_snapshot : ℕ
  pub snapshots : List SnapshotRoot
  pub next_node : ℕ
  pub nodes : List NodeRow
  pub next_file : ℕ
  pub files : List FileRow
  pub next_chunk : ℕ
  pub chunks : List ChunkRow

-- The errors of both files; what a statement failed with is its message, and `at` numbers an item.
pub data StoreError : Type 0 where
  session_id_required repo_root_required root_hash_required : StoreError
  node_path_required node_hash_required node_type_required node_status_required : StoreError
  rel_path_required status_required session_mismatch repo_root_mismatch : StoreError
  bad_embedding : StoreError
  item : Text → ℕ → StoreError → StoreError
  statement : Text → Text → StoreError

pub data Result {ℓ} (A : Type ℓ) : Type ℓ where
  ok : A → Result A
  err : StoreError → Result A

-- the second test, when the first one finds no error
abbrev pub also : Result (Unit {0}) → Result (Unit {0}) → Result (Unit {0})
also (ok u) k = k
also (err e) k = err e

-- `collation` is the order in which the database sorts texts.
pub record Env : Type 0 where
  pub fails : ℕ → Option Text
  pub clock : ℕ → Time
  pub started : Time
  pub collation : Text → Text → Bool
