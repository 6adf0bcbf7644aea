-- ===== src/IndexStore.antt =====
-- internal/indexstore/models.go and the state that sync_store.go loads.
pub mod Tables
pub mod Tx
pub mod Rows
pub mod Items
pub mod Checks
pub mod Save
pub mod Latest
pub mod Vector
pub mod Chunks
use deep_agent_cli.Base.{ℕ, List}
use deep_agent_cli.Text.{Text}
use deep_agent_cli.IndexSync.{Time, SnapshotRoot, MerkleNode, FileState}

-- An embedding, `[]float32`, is a list of words that stand for the floats.
abbrev pub Embedding : Type 0
Embedding = List ℕ

pub record ChunkRecord : Type 0 where
  pub id : ℕ
  pub session_id : Text
  pub repo_root : Text
  pub rel_path : Text
  pub chunk_index : ℕ
  pub content : Text
  pub content_hash : Text
  pub model : Text
  pub embedding_dims : ℕ
  pub embedding : Embedding
  pub created_at : Time

pub record ChunkRecordInput : Type 0 where
  pub session_id : Text
  pub repo_root : Text
  pub rel_path : Text
  pub chunk_index : ℕ
  pub content : Text
  pub content_hash : Text
  pub model : Text
  pub embedding_dims : ℕ
  pub embedding : Embedding

pub record SnapshotState : Type 0 where
  pub root : SnapshotRoot
  pub nodes : List MerkleNode
  pub file_states : List FileState
