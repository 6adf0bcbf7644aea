-- ===== src/Lib.antt =====
-- Verification of deep-agent-cli: the index of a repository, its store and its jobs, and the turns
-- of the agent.
--
-- The program keeps a semantic index of a repository for each session. A snapshot is a Merkle tree
-- of the files; two snapshots are compared, the changed files are cut into chunks of lines, the
-- chunks become records with embeddings, and the records are merged into the stored index. A sync
-- worker saves the snapshots and queues the jobs that apply their differences, and an index worker
-- runs those; the status service sums up the jobs. The orchestrator runs a turn of the agent: it asks
-- the provider, has the tools called that the answer names, and asks again.
--
-- The files and the code they are about, by paths from the root of the repository:
--   IndexSync                internal/indexsync/types.go
--   Snapshot, Snapshot/*     internal/indexsync/snapshot/builder.go: Entry, Node, Snapshot, and
--                            BuildNodeTree (Build)
--   Diff, Diff/*             internal/indexsync/diff: DiffSnapshots (diff_snapshots),
--                            DiffNodeRecursive (diff_node), MaterializeChangedFiles
--   Status, Status/*         internal/indexsync/status: GetIndexSyncStatus; the loop over the jobs
--                            is record_jobs
--   Chunker, Chunker/*       internal/indexing/chunker.go: ChunkDocumentWithPolicy
--   Indexing, Indexing/*     internal/indexing: records.go (Records), chunk_delta.go and
--                            mergeChunkRecords (Merge), embedding_refresh.go (Refresh),
--                            delta_apply.go (Apply); CanonicalizeRepoRoot of
--                            internal/session/repo_scope.go
--   IndexStore, IndexStore/* internal/indexstore: models.go; sync_store.go: SaveSnapshotState
--                            (Save), LoadLatestSnapshot (Latest), with the statements (Rows,
--                            Items), the tests (Checks) and transactions (Tables, Tx); store.go:
--                            ReplaceRepoIndex and ListRepoIndex (Chunks), vectorLiteral (Vector)
--   Jobs, Jobs/*             internal/jobs/contracts, and internal/jobs/river: index_worker.go
--                            (Index) and sync_worker.go (Sync); Sync/Database joins the sync
--                            worker and the store
--   FilePath, FilePath/*     path/filepath as the code uses it, normalizeRelativePath of
--                            internal/indexing/records.go, normalizeSnapshotPath of
--                            internal/indexsync/snapshot/filter.go
--   Retrieval, Retrieval/*   internal/retrieval: Query, ApplyStableRanks, EmbedQuery
--   Safety, Safety/Decided   internal/tools/safety/policy.go: EvaluateAction
--   Scope, Scope/*           internal/session/repo_scope.go, internal/tools/safety/command_guard.go
--                            and repo_guard.go, internal/tools/sandbox/scope_guard.go (Sandbox)
--   Runtime, Runtime/*       internal/runtime/types.go, orchestrator.go: RunTurn (run_turn), and
--                            message_persistence.go (Persistence); session_lifecycle.go (Sessions),
--                            with internal/session/model.go
--   Base, Text, Reply        numbers, lists, sorting, strings and the answers of dependencies
--   Examples/*               tests, and instances of the theorems
--
-- Conventions. A string is the list of its bytes. The types string with named constants are data
-- types whose `other` holds any further string. An int that the code never makes negative is a
-- natural number, and the configured limits are integers. Errors are values: a constructor names
-- the place where the code returns one, and the error of a dependency is its message. Nil slices
-- and empty ones are one, but for the tool calls of a message, where the code tells them apart.
-- What lies outside of the repository or talks to the world is a parameter: the file system and
-- SHA-256 (Indexing.Host), the embedder, the stores, and for a turn the provider, the registry, the
-- dispatcher, the retriever and the cancellation of the context (Runtime.Orchestrator.Environment).
-- Links, filepath.Rel and filepath.IsLocal are those of Scope.Paths.
--
-- Bounds. The comparison of trees recurses on the depth of the previous tree, which each step down
-- makes smaller. The chunker runs on fuel, the number of lines and one, since its start grows in
-- each round. The digits of a number run on the number. The turn recurses on the iterations that
-- its configuration leaves.
--
-- The database. A statement of SQL is a function on tables, which are lists of rows; each may fail,
-- as an environment says, and a transaction that fails leaves the tables. A commit that fails is
-- taken to change nothing. The constraints of the schema are not checked by the model: a statement
-- that breaks one is one that fails. The casts of store.go to UUIDs and vectors, the collation and the
-- formatting of floats are parameters. For sync_store.go a session id is the text that PostgreSQL
-- prints of its UUID, as the sessions' store returns it, so that `session_id::text` gives it back.
-- The numbers of an embedding stand for the finite floats.
--
-- Not modelled: the SQL of the sessions and of the retrieval, the queue of jobs and its client, the
-- tools themselves, the building of snapshots from files, and the command line.
-- A worker's logs, metrics and durations are left out. The
-- lower case of a string is that of its ASCII letters. Sorting keeps the order of equal elements,
-- which the code's `slices.SortFunc` leaves open.
pub mod Base
pub mod Chunker
pub mod Diff
pub mod Examples
pub mod FilePath
pub mod IndexStore
pub mod IndexSync
pub mod Indexing
pub mod Jobs
pub mod Reply
pub mod Retrieval
pub mod Runtime
pub mod Safety
pub mod Scope
pub mod Snapshot
pub mod Status
pub mod Text
