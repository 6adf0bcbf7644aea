-- ===== src/Examples/Workers.antt =====
-- A worker that counts, and a repository of one file whose index job cannot be queued.
use deep_agent_cli.Base.{
  ℕ, suc, ◌≡◌, refl, sym, ap, subst, false, false≢true, none, some, [], ◌∷◌, arith,
}
use deep_agent_cli.Text.{Text, text, eq, eq_iff, to_lower}
use deep_agent_cli.Text.Trim.{trim}
use deep_agent_cli.FilePath.{clean}
use deep_agent_cli.Base.Sort.{sort}
use deep_agent_cli.Reply.{Reply, value, fault}
use deep_agent_cli.IndexSync.{NodeType, DeltaAction, DeltaRecord, SyncDelta}
use deep_agent_cli.Indexing.Apply.{DeltaApplyResult}
use deep_agent_cli.IndexStore.Tables.{StoreError}
use deep_agent_cli.IndexStore.Tx.{exec, and_then, each, transact, query_row}
use deep_agent_cli.Snapshot.{Entry, node, nil, cons, Snapshot}
use deep_agent_cli.Snapshot.Build.{root_entry}
use deep_agent_cli.Diff.{diff_snapshots, collect_subtree}
use deep_agent_cli.Jobs.{SyncJobPayload, IndexJobPayload, enqueue, job_identity_key}
use deep_agent_cli.Jobs.Index.{
  has_no_record, checkpoint_key, normalized_payload, run_job, new_index_worker,
}
use deep_agent_cli.Jobs.Index.Once.{HasRun, run_jobs, run_job-Did, run_job-again}
use deep_agent_cli.Jobs.Sync.{EnqueueResult}
use deep_agent_cli.Jobs.Sync.Run.{Ran, run, new_sync_worker}
use deep_agent_cli.Jobs.Sync.Did.{Ended, run-Did}
use deep_agent_cli.Jobs.Sync.Lost.{Laws, run-lost}
use deep_agent_cli.Jobs.Sync.Database.{World, database_store, builder_in, database_store-Laws}
use deep_agent_cli.Examples.Trees.{entry_of}
use deep_agent_cli.Examples.Stores.{no_tables, no_tables-IsStore, no_failure}

abbrev change : DeltaRecord
change = record {
  path = text "a";
  action = DeltaAction.add;
  node_type = NodeType.file;
  previous_node_hash = [];
  current_node_hash = text "h";
  previous_content_hash = [];
  current_content_hash = text "c";
}

abbrev delta : SyncDelta
delta = record {
  session_id = text "s";
  repo_root = text "/r";
  previous_snapshot_id = none;
  current_snapshot_id = some 7;
  previous_root_hash = [];
  current_root_hash = text "h";
  changes = change ∷ [];
}

abbrev payload : IndexJobPayload
payload = record {
  session_id = text " s ";
  repo_root = text "/r/";
  purpose = [];
  snapshot_id = 7;
  root_hash = text "h";
  delta = delta;
  requested_at = none;
}

abbrev counts : IndexJobPayload → ℕ → ℕ × Reply DeltaApplyResult
counts p w = (
  suc w,
  value (record {
    upserted_paths = text "a" ∷ [];
    deleted_paths = [];
    files_touched = 1;
    chunks_replaced = 1;
  }),
)

run_job-Did_example :
    HasRun counts (run_job (new_index_worker counts) 5 none payload ([], 0)) 5 payload [] 0
run_job-Did_example = run_job-Did counts 5 none payload [] 0

payload_has_record : has_no_record (normalized_payload 5 payload) ≡ false
unfolding has_no_record normalized_payload
payload_has_record = refl

first_run_test : (run_job (new_index_worker counts) 5 none payload ([], 0)).0.1 ≡ none
unfolding run_job new_index_worker trim clean eq to_lower
first_run_test = refl

-- The same delta in another session.
abbrev elsewhere : IndexJobPayload
elsewhere = record payload { session_id = text "t" }

elsewhere_test : ¬ (
    checkpoint_key (normalized_payload 9 payload) ≡ checkpoint_key (normalized_payload 7 elsewhere))
unfolding checkpoint_key normalized_payload job_identity_key trim clean eq to_lower
elsewhere_test h = false≢true ((eq_iff _ _).1 h)

run_job-again_example :
    (run_job (new_index_worker counts) 9 none payload (
      run_jobs counts
        ((7, (none, elsewhere)) ∷ [])
        (run_job (new_index_worker counts) 5 none payload ([], 0)).1)).1
    ≡ run_jobs counts
        ((7, (none, elsewhere)) ∷ [])
        (run_job (new_index_worker counts) 5 none payload ([], 0)).1
run_job-again_example =
    run_job-again counts 5 9 none none payload ((7, (none, elsewhere)) ∷ []) [] 0 payload_has_record
      first_run_test (elsewhere_test, tt)

abbrev one_file : Entry
one_file = entry_of NodeType.file (text "a") (text "h")

abbrev repository : Snapshot
repository = record {
  repo_root = text "/r";
  entries = one_file ∷ [];
  root = some (node root_entry (cons (node one_file nil) nil));
  root_hash = text "h";
}

-- The files do not matter: every repository holds one file.
abbrev builds : Unit {0} → Text → Reply Snapshot
builds f repo_root = value repository

repository_is : (c : Snapshot) → value repository ≡ value c → repository ≡ c
repository_is c h = ground arith

repository_trimmed : trim repository.root_hash ≡ repository.root_hash
unfolding trim
repository_trimmed = refl

builds_trimmed :
    (f : Unit {0}) (r : Text) (c : Snapshot) → builds f r ≡ value c → trim c.root_hash ≡ c.root_hash
builds_trimmed f r c h =
    subst (λ x. trim x.root_hash ≡ x.root_hash) (repository_is c h) repository_trimmed

abbrev no_message : StoreError → Text
no_message e = text "e"

database_store-Laws_example :
    Laws
      (database_store no_message no_failure no_failure)
      (builder_in no_message no_failure no_failure builds)
database_store-Laws_example =
    database_store-Laws no_message no_failure no_failure builds (λ i. refl) builds_trimmed

abbrev fresh_world : World (Unit {0})
fresh_world = record { tables = no_tables; is_store = no_tables-IsStore; files = tt }

abbrev broken_queue : IndexJobPayload → World (Unit {0}) → World (Unit {0}) × Reply EnqueueResult
broken_queue j w = (w, fault (text "down"))

abbrev working_queue : IndexJobPayload → World (Unit {0}) → World (Unit {0}) × Reply EnqueueResult
working_queue j w = (
  w,
  value (record {
    job_id = 1;
    duplicate = false;
    kind = text "k";
    queue = text "q";
    scheduled_at = 1;
  }),
)

abbrev scan : SyncJobPayload
scan = record {
  session_id = text "s";
  repo_root = text "/r";
  purpose = [];
  trigger = [];
  requested_at = none;
}

abbrev sync_run :
    (IndexJobPayload → World (Unit {0}) → World (Unit {0}) × Reply EnqueueResult)
    → World (Unit {0})
    → Ran (World (Unit {0}))
sync_run queue w =
    run
      (new_sync_worker (database_store no_message no_failure no_failure) queue
        (builder_in no_message no_failure no_failure builds))
      5 6 none scan w

run-Did_example :
    Ended
      (database_store no_message no_failure no_failure)
      broken_queue
      (builder_in no_message no_failure no_failure builds)
      5
      6
      scan
      fresh_world
      (sync_run broken_queue fresh_world)
run-Did_example =
    run-Did (database_store no_message no_failure no_failure) broken_queue
      (builder_in no_message no_failure no_failure builds) 5 6 scan fresh_world none

broken_test : (sync_run broken_queue fresh_world).0.1 ≡ some (enqueue (text "down"))
unfolding run database_store trim clean eq diff_snapshots collect_subtree sort exec and_then each
    transact query_row
broken_test = refl

run-lost_example :
    ((sync_run working_queue (sync_run broken_queue fresh_world).1).0.1 ≡ none)
    × ((sync_run working_queue (sync_run broken_queue fresh_world).1).1
        ≡ (sync_run broken_queue fresh_world).1)
run-lost_example =
    run-lost (database_store no_message no_failure no_failure)
      (builder_in no_message no_failure no_failure builds) database_store-Laws_example broken_queue
      (λ j s s' m h. sym (ap (λ x. x.0) h)) working_queue 5 6 5 6 none none scan fresh_world
      (text "down") broken_test
