-- ===== src/Examples/Paths.antt =====
-- Paths of internal/indexing/records.go and internal/indexsync/snapshot/filter.go.
use deep_agent_cli.Base.{◌≡◌, refl}
use deep_agent_cli.Text.{text, eq}
use deep_agent_cli.Text.Trim.{trim}
use deep_agent_cli.FilePath.{
  split, ok, err, escapes_root, normalize_relative_path, normalize_snapshot_path,
}
use deep_agent_cli.FilePath.Safe.{
  IsBelow, normalize_relative_path-IsBelow, normalize_snapshot_path-IsBelow,
}

relative_test : normalize_relative_path (text " a/./b/../c ") ≡ ok (text "a/c")
unfolding normalize_relative_path trim eq split
relative_test = refl

escape_test : normalize_relative_path (text "a/../../b") ≡ err escapes_root
unfolding normalize_relative_path trim eq split
escape_test = refl

snapshot_test : normalize_snapshot_path (text "a\\b/c") ≡ ok (text "a/b/c")
unfolding normalize_snapshot_path trim eq split
snapshot_test = refl

normalize_relative_path-IsBelow_example : IsBelow (text "a/c")
normalize_relative_path-IsBelow_example =
    normalize_relative_path-IsBelow (text " a/./b/../c ") (text "a/c") relative_test

normalize_snapshot_path-IsBelow_example : IsBelow (text "a/b/c")
normalize_snapshot_path-IsBelow_example =
    normalize_snapshot_path-IsBelow (text "a\\b/c") (text "a/b/c") snapshot_test
