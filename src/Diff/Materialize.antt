-- ===== src/Diff/Materialize.antt =====
-- internal/indexsync/diff/materialize.go: the paths that a delta set asks to refresh and to remove.
pub mod Marks
pub mod Exact
use deep_agent_cli.Base.{List, [], ◌∷◌, ◌++◌, if◌then◌else◌}
use deep_agent_cli.Text.{Text, eq, le, member, member_iff}
use deep_agent_cli.Text.Trim.{trim}
use deep_agent_cli.Base.Sort.{sort}
use deep_agent_cli.Diff.{DeltaOp, add, modify, delete, FileDelta, SyncDeltaSet}

pub record ChangedFiles : Type 0 where
  pub files_to_upsert : List Text
  pub files_to_remove : List Text

-- One of the two sets of paths seen, with the list that it guards.
pub record Seen : Type 0 where
  pub seen : List Text
  pub listed : List Text

abbrev pub nothing_seen : Seen
nothing_seen = record { seen = []; listed = [] }

-- `if _, ok := seen[path]; ok { continue }`, or the path is marked and appended
pub visit : Text → Seen → Seen
visit path s =
    if member path s.seen
    then s
    else record { seen = path ∷ s.seen; listed = s.listed ++ (path ∷ []) }

-- The `switch` on the operation; an unknown operation is passed over.
abbrev pub visit_upsert : DeltaOp → Text → Seen → Seen
visit_upsert add path s = visit path s
visit_upsert modify path s = visit path s
visit_upsert delete path s = s
visit_upsert (DeltaOp.other t) path s = s

abbrev pub visit_remove : DeltaOp → Text → Seen → Seen
visit_remove delete path s = visit path s
visit_remove add path s = s
visit_remove modify path s = s
visit_remove (DeltaOp.other t) path s = s

pub collect_changes : Seen → Seen → List FileDelta → Seen × Seen
collect_changes u r [] = (u, r)
collect_changes u r (c ∷ cs) =
    let path = trim c.path in
    let blank = eq path [] in
    collect_changes (if blank then u else visit_upsert c.op path u)
      (if blank then r else visit_remove c.op path r) cs

-- `MaterializeChangedFiles`
unfoldable pub materialize_changed_files : SyncDeltaSet → ChangedFiles
unfolding visit collect_changes
materialize_changed_files delta =
    let (u, r) = collect_changes nothing_seen nothing_seen delta.changes in
    record { files_to_upsert = sort le u.listed; files_to_remove = sort le r.listed }
