-- ===== src/IndexStore/Chunks.antt =====
-- `ReplaceRepoIndex` and `ListRepoIndex` of internal/indexstore/store.go.
pub mod Replaced
pub mod Listed
use deep_agent_cli.Base.{
  ℕ, suc, Bool, not, ◌&&◌, Option, none, some, List, [], ◌∷◌, ◌++◌, leb, if◌then◌else◌,
}
use deep_agent_cli.Text.{Text, text, eq}
use deep_agent_cli.IndexSync.{Time}
use deep_agent_cli.IndexStore.{Embedding, ChunkRecord, ChunkRecordInput}
use deep_agent_cli.IndexStore.Tables.{
  Tables, ChunkRow, StoreError, session_mismatch, repo_root_mismatch, bad_embedding, item,
  statement, also, Result, ok, err, Env,
}
use deep_agent_cli.IndexStore.Tx.{Tx, Step, broken, exec, each, transact, ◌>>=◌, ◌>>◌}
use deep_agent_cli.IndexStore.Rows.{delete_where}
use deep_agent_cli.IndexStore.Checks.{validate_scope}
use deep_agent_cli.IndexStore.Latest.{select_where, query}
use deep_agent_cli.IndexStore.Vector.{Floats, vector_literal, parse_vector_literal}
use deep_agent_cli.Base.Sort.{sort}

-- The casts of the database: a parameter of type UUID, and its text; `$9::vector` into a column of
-- vectors of one dimension, 1536 in db/migrations/0004_index_chunks.sql; and `embedding::text`. `none`
-- is the refusal of a text.
pub record Casts : Type 0 where
  pub uuid : Text → Option Text
  pub dimension : ℕ
  pub read : Text → Option Embedding
  pub write : Embedding → Text

-- `validateChunkScope`
unfoldable pub validate_chunk_scope : Text → Text → ChunkRecordInput → Result (Unit {0})
unfolding validate_scope
validate_chunk_scope session_id repo_root c = also (validate_scope c.session_id c.repo_root) (
    if not (eq c.session_id session_id)
    then err session_mismatch
    else if not (eq c.repo_root repo_root)
    then err repo_root_mismatch
    else ok tt)

unfoldable pub chunk_in : Text → Text → ChunkRow → Bool
chunk_in session_id repo_root r = eq r.session_id session_id && eq r.repo_root repo_root

-- `deleteRepoIndexSQL`, of a UUID
unfoldable pub delete_chunks : Text → Text → Tables → Tables
unfolding delete_where chunk_in
delete_chunks session_id repo_root t = record t {
  chunks = delete_where (chunk_in session_id repo_root) t.chunks;
}

abbrev pub chunk_row : Text → ChunkRecordInput → Embedding → ℕ → Time → ChunkRow
chunk_row session c embedding id created = record {
  id = id;
  session_id = session;
  repo_root = c.repo_root;
  rel_path = c.rel_path;
  chunk_index = c.chunk_index;
  content = c.content;
  content_hash = c.content_hash;
  model = c.model;
  embedding_dims = c.embedding_dims;
  embedding = embedding;
  created_at = created;
}

-- `insertChunkSQL`, of a UUID and a vector
unfoldable pub insert_chunk : Text → ChunkRecordInput → Embedding → Env → Tables → Tables
insert_chunk session c embedding env t = record t {
  next_chunk = suc t.next_chunk;
  chunks = t.chunks ++ (chunk_row session c embedding t.next_chunk env.started ∷ []);
}

-- ORDER BY rel_path ASC, chunk_index ASC
unfoldable pub chunk_le : (Text → Text → Bool) → ChunkRow → ChunkRow → Bool
chunk_le collation a b =
    if eq a.rel_path b.rel_path
    then leb a.chunk_index b.chunk_index
    else collation a.rel_path b.rel_path

abbrev pub record_of_row : ChunkRow → Embedding → ChunkRecord
record_of_row r embedding = record {
  id = r.id;
  session_id = r.session_id;
  repo_root = r.repo_root;
  rel_path = r.rel_path;
  chunk_index = r.chunk_index;
  content = r.content;
  content_hash = r.content_hash;
  model = r.model;
  embedding_dims = r.embedding_dims;
  embedding = embedding;
  created_at = r.created_at;
}

abbrev pub fail : StoreError → Tx (Unit {0})
fail e env n t = broken e

abbrev pub no_uuid : Text
no_uuid = text "invalid input syntax for type uuid"

abbrev pub no_vector : Text
no_vector = text "invalid input syntax for type vector"

module _ (floats : Floats) (casts : Casts) where
  abbrev pub insert_error : ℕ → Text → StoreError
  insert_error i m = item (text "insert chunk") i (statement (text "insert chunk") m)

  insert_read : ℕ → ChunkRecordInput → Option Text → Option Embedding → Tx (Unit {0})
  unfolding exec insert_chunk
  insert_read i c none v = fail (insert_error i no_uuid)
  insert_read i c (some session) none = fail (insert_error i no_vector)
  insert_read i c (some session) (some v) = exec (insert_error i) (insert_chunk session c v)

  insert_checked : ℕ → ChunkRecordInput → Result (Unit {0}) → Tx (Unit {0})
  unfolding insert_read vector_literal
  insert_checked i c (err e) = fail (item (text "validate chunk") i e)
  insert_checked i c (ok u) =
      insert_read i c (casts.uuid c.session_id) (casts.read (vector_literal floats c.embedding))

  -- a round of the loop of `ReplaceRepoIndex`
  unfoldable pub put_chunk : Text → Text → ℕ → ChunkRecordInput → Tx (Unit {0})
  unfolding insert_checked validate_chunk_scope
  put_chunk session_id repo_root i c =
      insert_checked i c (validate_chunk_scope session_id repo_root c)

  delete_read : Text → Option Text → Tx (Unit {0})
  unfolding exec delete_chunks
  delete_read repo_root none = fail (statement (text "delete repo index rows") no_uuid)
  delete_read repo_root (some session) =
      exec (statement (text "delete repo index rows")) (λ env. delete_chunks session repo_root)

  unfoldable pub replace_body : Text → Text → List ChunkRecordInput → Tx (Unit {0})
  unfolding delete_read each put_chunk
  replace_body session_id repo_root chunks = do
    delete_read repo_root (casts.uuid session_id)
    each (put_chunk session_id repo_root) 0 chunks

  unfoldable pub replace_valid :
      Env
      → Tables
      → Text
      → Text
      → List ChunkRecordInput
      → Result (Unit {0})
      → Tables × Result (Unit {0})
  unfolding transact replace_body
  replace_valid env t session_id repo_root chunks (err e) = (t, err e)
  replace_valid env t session_id repo_root chunks (ok u) =
      transact (text "begin replace repo index tx") (text "commit replace repo index tx") env t
        (replace_body session_id repo_root chunks)

  -- `ReplaceRepoIndex`
  unfoldable pub replace_repo_index :
      Env → Tables → Text → Text → List ChunkRecordInput → Tables × Result (Unit {0})
  unfolding validate_scope replace_valid
  replace_repo_index env t session_id repo_root chunks =
      replace_valid env t session_id repo_root chunks (validate_scope session_id repo_root)

  cons_record : ChunkRow → Option Embedding → Result (List ChunkRecord) → Result (List ChunkRecord)
  cons_record r none rest = err (item r.rel_path r.chunk_index bad_embedding)
  cons_record r (some v) (err e) = err e
  cons_record r (some v) (ok records) = ok (record_of_row r v ∷ records)

  -- the loop of `ListRepoIndex` over the rows of the query
  unfoldable pub read_rows : List ChunkRow → Result (List ChunkRecord)
  unfolding cons_record parse_vector_literal
  read_rows [] = ok []
  read_rows (r ∷ rs) =
      let rest = read_rows rs in
      cons_record r (parse_vector_literal floats (casts.write r.embedding)) rest

  -- the rows of `listRepoIndexSQL`, of a UUID
  unfoldable pub listed_rows : Env → Tables → Text → Text → List ChunkRow
  unfolding select_where sort chunk_le chunk_in
  listed_rows env t session repo_root =
      sort (chunk_le env.collation) (select_where (chunk_in session repo_root) t.chunks)

  unfoldable pub list_rows : Env → Tables → Text → Option Text → Result (List ChunkRecord)
  unfolding read_rows listed_rows
  list_rows env t repo_root none = err (statement (text "query repo index rows") no_uuid)
  list_rows env t repo_root (some session) =
      query (text "query repo index rows") env 0 (read_rows (listed_rows env t session repo_root))

  unfoldable pub list_valid :
      Env → Tables → Text → Text → Result (Unit {0}) → Result (List ChunkRecord)
  unfolding list_rows
  list_valid env t session_id repo_root (err e) = err e
  list_valid env t session_id repo_root (ok u) = list_rows env t repo_root (casts.uuid session_id)

  -- `ListRepoIndex`
  unfoldable pub list_repo_index : Env → Tables → Text → Text → Result (List ChunkRecord)
  unfolding validate_scope list_valid
  list_repo_index env t session_id repo_root =
      list_valid env t session_id repo_root (validate_scope session_id repo_root)
