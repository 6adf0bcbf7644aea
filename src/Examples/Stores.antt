-- ===== src/Examples/Stores.antt =====
-- An empty database, a snapshot of one file, and a chunk with an embedding.
use deep_agent_cli.Base.{
  ℕ, ◌+◌, ◌-◌, ◌≡◌, refl, sym, ap, ◌∙◌, Bool, true, false, Option, none, some, [], ◌∷◌, ◌++◌, map,
  arith, ◌==◌, if◌then◌else◌, length,
}
use deep_agent_cli.Text.{Text, text, eq}
use deep_agent_cli.Text.Trim.{trim, trim_one}
use deep_agent_cli.Base.Sort.{sort}
use deep_agent_cli.IndexSync.{SnapshotRoot, SnapshotStatus}
use deep_agent_cli.IndexStore.{ChunkRecordInput, Embedding}
use deep_agent_cli.IndexStore.Tables.{Tables, ok, Env}
use deep_agent_cli.IndexStore.Tx.{exec, and_then, each, transact, query_row}
use deep_agent_cli.IndexStore.Tx.Ensures.{EndsAs}
use deep_agent_cli.IndexStore.Rows.Store.{IsStore}
use deep_agent_cli.IndexStore.Save.{save_snapshot_state}
use deep_agent_cli.IndexStore.Save.Loaded.{SavedIn, save_snapshot_state-Transacted, save-load}
use deep_agent_cli.IndexStore.Latest.{load_nodes, load_file_states, load_latest_snapshot}
use deep_agent_cli.IndexStore.Vector.{Floats, vector_literal, parse_vector_literal}
use deep_agent_cli.IndexStore.Vector.Read.{FloatLaws, parse-vector_literal}
use deep_agent_cli.IndexStore.Chunks.{
  Casts, replace_repo_index, list_repo_index, chunk_le, record_of_row,
}
use deep_agent_cli.IndexStore.Chunks.Replaced.{
  CastLaws, rows_of, Replaced, replace_repo_index-Transacted,
}
use deep_agent_cli.IndexStore.Chunks.Listed.{replace-list}

abbrev pub no_tables : Tables
no_tables = record {
  next_snapshot = 1;
  snapshots = [];
  next_node = 1;
  nodes = [];
  next_file = 1;
  files = [];
  next_chunk = 1;
  chunks = [];
}

abbrev pub no_failure : Env
no_failure = record { fails = λ n. none; clock = λ n. n; started = 5; collation = λ a b. true }

pub no_tables-IsStore : IsStore no_tables.next_snapshot no_tables.snapshots
no_tables-IsStore = record {
  fresh = λ i h. absurd h;
  distinct = tt;
  one_active = λ a b h. absurd h;
}

abbrev root : SnapshotRoot
root = record {
  id = 0;
  session_id = text "s";
  repo_root = text "/r";
  root_hash = text "h";
  parent_snapshot_id = none;
  status = SnapshotStatus.active;
  is_active = true;
  created_at = 0;
  completed_at = some 9;
}

abbrev saved : SnapshotRoot
saved = record root { id = 1; created_at = 5 }

save_snapshot_state-Transacted_example :
    EndsAs (SavedIn root) no_tables (save_snapshot_state no_failure no_tables root [] [])
save_snapshot_state-Transacted_example =
    save_snapshot_state-Transacted no_failure no_tables root [] [] no_tables-IsStore

root_saved : (save_snapshot_state no_failure no_tables root [] []).1 ≡ ok saved
unfolding save_snapshot_state eq trim and_then exec query_row each transact
root_saved = refl

save-load_example :
    load_latest_snapshot no_failure
      (save_snapshot_state no_failure no_tables root [] []).0
      (text "s")
      (text "/r")
    ≡ ok (
        some (record {
          root = saved;
          nodes = load_nodes no_failure (save_snapshot_state no_failure no_tables root [] []).0 1;
          file_states =
              load_file_states no_failure
                (save_snapshot_state no_failure no_tables root [] []).0
                (text "s")
                (text "/r");
        }))
save-load_example =
    save-load no_failure no_tables root saved [] [] no_tables-IsStore refl root_saved no_failure
      (λ i. refl)

-- A float is printed as one byte.
abbrev first_code : Text → Option ℕ
first_code [] = none
first_code (c ∷ s) = some (c - 100)

abbrev codes : Floats
codes = record { format = λ v. (v + 100) ∷ []; parse = first_code }

codes-FloatLaws : FloatLaws codes
unfolding eq
codes-FloatLaws = record {
  parses = λ v. ap some (omega arith);
  trims = λ v. trim_one (v + 100) (omega arith);
  no_comma = λ v. (ground arith, tt);
  not_empty = λ v. refl;
}

parse-vector_literal_example :
    parse_vector_literal codes (vector_literal codes (3 ∷ 4 ∷ [])) ≡ some (3 ∷ 4 ∷ [])
parse-vector_literal_example = parse-vector_literal codes codes-FloatLaws (3 ∷ 4 ∷ [])

injective : (a b : Embedding) → some a ≡ some b → a ≡ b
injective a b h = ground arith

-- A column of vectors of dimension 2.
abbrev of_two : Option Embedding → Option Embedding
of_two none = none
of_two (some v) = if length v == 2 then some v else none

abbrev casts : Casts
casts = record {
  uuid = λ s. some (text "u-" ++ s);
  dimension = 2;
  read = λ s. of_two (parse_vector_literal codes s);
  write = vector_literal codes;
}

kept-of_two :
    (v w : Embedding) (b : Bool)
    → (length v == 2) ≡ b
    → (if b then some v else none) ≡ some w
    → (w ≡ v) × (length w ≡ 2)
kept-of_two v w true e h = let q : w ≡ v = sym (injective v w h) in (q, ap length q ∙ ground arith)
kept-of_two v w false e h = absurd (ground arith)

of_two-some :
    (o : Option Embedding) (w : Embedding) → of_two o ≡ some w → (o ≡ some w) × (length w ≡ 2)
of_two-some none w h = absurd (ground arith)
of_two-some (some v) w h =
    let (q, n) = kept-of_two v w (length v == 2) refl h in (ap some (sym q), n)

casts-CastLaws : CastLaws codes casts
casts-CastLaws = record {
  reads = λ e v h. sym (
      injective e v (
        sym (parse-vector_literal codes codes-FloatLaws e)
        ∙ (of_two-some (parse_vector_literal codes (vector_literal codes e)) v h).0));
  sized = λ s v h. (of_two-some (parse_vector_literal codes s) v h).1;
  writes = λ v n. parse-vector_literal codes codes-FloatLaws v;
}

abbrev chunk : ChunkRecordInput
chunk = record {
  session_id = text "s";
  repo_root = text "/r";
  rel_path = text "a.go";
  chunk_index = 0;
  content = text "package a";
  content_hash = text "h";
  model = text "m";
  embedding_dims = 2;
  embedding = 3 ∷ 4 ∷ [];
}

replace_repo_index-Transacted_example :
    EndsAs
      (λ _.
        Replaced
          (text "s")
          (text "/r")
          codes
          casts
          casts-CastLaws
          no_failure
          no_tables
          (chunk ∷ []))
      no_tables
      (replace_repo_index codes casts no_failure no_tables (text "s") (text "/r") (chunk ∷ []))
replace_repo_index-Transacted_example =
    replace_repo_index-Transacted (text "s") (text "/r") codes casts casts-CastLaws no_failure
      no_tables (chunk ∷ [])

replaced_test :
    (replace_repo_index codes casts no_failure no_tables (text "s") (text "/r") (chunk ∷ [])).1
    ≡ ok tt
unfolding replace_repo_index parse_vector_literal vector_literal eq trim and_then exec each transact
replaced_test = refl

replace-list_example :
    (session : Text) × (casts.uuid (text "s") ≡ some session)
    × (list_repo_index codes casts no_failure
          (replace_repo_index codes casts no_failure no_tables
            (text "s")
            (text "/r")
            (chunk ∷ [])).0
          (text "s")
          (text "/r")
        ≡ ok (
            map
              (λ r. record_of_row r r.embedding)
              (sort (chunk_le no_failure.collation) (rows_of session 5 1 (chunk ∷ [])))))
replace-list_example =
    replace-list codes casts casts-CastLaws (text "s") (text "/r") no_failure no_tables (chunk ∷ [])
      replaced_test no_failure refl
