-- ===== src/Examples/Deletions.antt =====
-- Deleting the chunks of one of two files, as internal/indexing/chunk_delta.go does.
use deep_agent_cli.Base.{◌≡◌, refl, List, [], ◌∷◌}
use deep_agent_cli.Text.{Text, text, eq}
use deep_agent_cli.Text.Trim.{trim}
use deep_agent_cli.FilePath.{split, normalize_relative_path}
use deep_agent_cli.IndexStore.{ChunkRecord}
use deep_agent_cli.Indexing.{done, relative}
use deep_agent_cli.Indexing.Merge.{delete_chunks_for_file}

abbrev stored : Text → ChunkRecord
stored path = record {
  id = 1;
  session_id = text "s";
  repo_root = text "/r";
  rel_path = path;
  chunk_index = 0;
  content = text "old";
  content_hash = text "h";
  model = text "m";
  embedding_dims = 0;
  embedding = [];
  created_at = 0;
}

abbrev existing : List ChunkRecord
existing = stored (text "a") ∷ stored (text "b") ∷ []

abbrev left : List ChunkRecord
left = stored (text "b") ∷ []

deletion_test : delete_chunks_for_file existing (text "./a") ≡ done left
unfolding delete_chunks_for_file relative normalize_relative_path trim eq split
deletion_test = refl
