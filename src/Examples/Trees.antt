-- ===== src/Examples/Trees.antt =====
-- Two small snapshots: a file that changes, one that comes, and one that stays.
use deep_agent_cli.Base.{◌≡◌, refl, inl, true, false, false≢true, none, some, [], ◌∷◌, arith, All}
use deep_agent_cli.Text.{Text, text, eq, le, member}
use deep_agent_cli.Text.Trim.{trim}
use deep_agent_cli.Base.Sort.{sort}
use deep_agent_cli.IndexSync.{NodeType, file, dir, same_type}
use deep_agent_cli.Snapshot.{Entry, Node, node, nil, cons, Snapshot, files, depth}
use deep_agent_cli.Diff.{
  ok, delta_set, added, modified, diff_snapshots, collect_subtree, same_hash, SyncDeltaSet,
}
use deep_agent_cli.Diff.Hashes.{Agree-IsFaithful}
use deep_agent_cli.Diff.Complete.{IsComparable, Accounts, diff_snapshots-Accounts}
use deep_agent_cli.Diff.Sound.{Justified, diff_snapshots-Justified}
use deep_agent_cli.Diff.Tree.{SameFiles}
use deep_agent_cli.Diff.Materialize.{materialize_changed_files}
use deep_agent_cli.Diff.Materialize.Exact.{
  Lists, is_upsert, is_remove, materialize_changed_files-Lists,
}

abbrev pub entry_of : NodeType → Text → Text → Entry
entry_of t path hash = record {
  path = path;
  parent_path = [];
  node_type = t;
  node_hash = hash;
  parent_hash = [];
  content_hash = hash;
  size_bytes = none;
  mtime_ns = none;
}

abbrev old_file : Entry
old_file = entry_of file (text "a") (text "1")

abbrev new_file : Entry
new_file = entry_of file (text "a") (text "2")

abbrev extra_file : Entry
extra_file = entry_of file (text "b") (text "3")

abbrev kept_file : Entry
kept_file = entry_of file (text "c") (text "9")

abbrev old_root : Node
old_root = node (entry_of dir [] []) (cons (node old_file nil) (cons (node kept_file nil) nil))

abbrev new_root : Node
new_root =
    node (entry_of dir [] (text "r"))
      (cons (node new_file nil) (cons (node extra_file nil) (cons (node kept_file nil) nil)))

abbrev snapshot_of : Node → Text → Snapshot
snapshot_of root hash = record { repo_root = []; entries = []; root = some root; root_hash = hash }

abbrev old_snapshot : Snapshot
old_snapshot = snapshot_of old_root (text "x")

abbrev new_snapshot : Snapshot
new_snapshot = snapshot_of new_root (text "y")

abbrev expected : SyncDeltaSet
expected =
    delta_set (some old_snapshot) (some new_snapshot)
      (modified old_file new_file ∷ added extra_file ∷ [])

diff_test : diff_snapshots (some old_snapshot) (some new_snapshot) ≡ ok expected
unfolding diff_snapshots eq le depth same_type sort member collect_subtree
diff_test = refl

comparable : IsComparable (some old_snapshot) (some new_snapshot)
unfolding eq same_hash same_type
comparable = record {
  previous_tree = ground arith;
  current_tree = ground arith;
  faithful = Agree-IsFaithful old_root new_root (
    (differ, (differ, (differ, (differ, tt)))),
    ((differ, (differ, (differ, (differ, tt)))), ((differ, (differ, (differ, (stays, tt)))), tt)),
  );
  faithful_root = λ h. absurd (false≢true h);
}
  where
    stays :
        {A : Type 0} {B : Type 0}
        → A
        → B
        → SameFiles (files (node kept_file nil)) (files (node kept_file nil))
    stays t h =
        unfold files in
        (((kept_file, inl refl, refl, refl), tt), ((kept_file, inl refl, refl, refl), tt))

    differ : {A B : Type 0} → A → false ≡ true → B
    differ t h = absurd (false≢true h)

diff_snapshots-Accounts_example :
    (s : SyncDeltaSet) × (diff_snapshots (some old_snapshot) (some new_snapshot) ≡ ok s)
    × Accounts (some old_snapshot) (some new_snapshot) s
diff_snapshots-Accounts_example =
    diff_snapshots-Accounts (some old_snapshot) (some new_snapshot) comparable

diff_snapshots-Justified_example :
    All (Justified (files old_root) (files new_root)) expected.changes
diff_snapshots-Justified_example =
    diff_snapshots-Justified (some old_snapshot) (some new_snapshot) expected refl diff_test

materialize_changed_files-Lists_example :
    Lists is_upsert expected.changes (materialize_changed_files expected).files_to_upsert
    × Lists is_remove expected.changes (materialize_changed_files expected).files_to_remove
materialize_changed_files-Lists_example = materialize_changed_files-Lists expected

materialize_test : (materialize_changed_files expected).files_to_upsert ≡ text "a" ∷ text "b" ∷ []
unfolding materialize_changed_files trim eq member sort le
materialize_test = refl
