-- ===== src/IndexStore/Chunks/Replaced.antt =====
-- What `ReplaceRepoIndex` of internal/indexstore/store.go stores, and what `ListRepoIndex` reads back.
use deep_agent_cli.Base.{
  ℕ, suc, ◌≡◌, refl, sym, ap, ◌∙◌, not, Option, none, some, List, [], ◌∷◌, ◌++◌, append-nil,
  append_assoc, arith, if◌then◌else◌, length, All,
}
use deep_agent_cli.Text.{Text, text, eq, eq_iff}
use deep_agent_cli.IndexSync.{Time}
use deep_agent_cli.IndexStore.{Embedding, ChunkRecordInput}
use deep_agent_cli.IndexStore.Tables.{
  Tables, ChunkRow, session_mismatch, repo_root_mismatch, statement, also, Result, ok, err, Env,
}
use deep_agent_cli.IndexStore.Tx.{and_then, each}
use deep_agent_cli.IndexStore.Tx.Ensures.{
  Ensures, Ensures-and_then, Ensures-exec, Ensures-map, rolled_back, EndsAs, transact-Transacted,
}
use deep_agent_cli.IndexStore.Rows.{delete_where}
use deep_agent_cli.IndexStore.Checks.{validate_scope}
use deep_agent_cli.IndexStore.Vector.{Floats, vector_literal, parse_vector_literal}
use deep_agent_cli.IndexStore.Chunks.{
  Casts, validate_chunk_scope, chunk_in, delete_chunks, chunk_row, insert_chunk, insert_read,
  insert_checked, insert_error, delete_read, put_chunk, replace_body, replace_valid,
  replace_repo_index,
}

-- A text that the cast to a vector takes is read exactly, and its vector has the dimension of the
-- column; the text of such a vector can be parsed.
pub record CastLaws (floats : Floats) (casts : Casts) : Type 0 where
  pub reads : (e v : Embedding) → casts.read (vector_literal floats e) ≡ some v → v ≡ e
  pub sized : (s : Text) (v : Embedding) → casts.read s ≡ some v → length v ≡ casts.dimension
  pub writes :
      (v : Embedding)
      → length v ≡ casts.dimension
      → parse_vector_literal floats (casts.write v) ≡ some v

some_text : (a b : Text) → some a ≡ some b → a ≡ b
some_text a b h = ground arith

-- The rows of chunks, numbered, with the UUID of their session.
abbrev pub rows_of : Text → Time → ℕ → List ChunkRecordInput → List ChunkRow
rows_of session started next [] = []
rows_of session started next (c ∷ cs) =
    chunk_row session c c.embedding next started ∷ rows_of session started (suc next) cs

module _ (session_id repo_root : Text) where
  abbrev pub IsIn : ChunkRecordInput → Type 0
  IsIn c = (c.session_id ≡ session_id) × (c.repo_root ≡ repo_root)

  scope-if :
      (c : ChunkRecordInput) (a : Result (Unit {0}))
      → also a (
          if not (eq c.session_id session_id)
          then err session_mismatch
          else if not (eq c.repo_root repo_root)
          then err repo_root_mismatch
          else ok tt)
        ≡ ok tt
      → IsIn c
  scope-if c (err e) h = absurd (ground arith)
  scope-if c (ok u) h = (
    (eq_iff c.session_id session_id).0 (ground arith),
    (eq_iff c.repo_root repo_root).0 (ground arith),
  )

  validate-IsIn :
      (c : ChunkRecordInput) → validate_chunk_scope session_id repo_root c ≡ ok tt → IsIn c
  unfolding validate_chunk_scope
  validate-IsIn c h = scope-if c (validate_scope c.session_id c.repo_root) h

  module _ (floats : Floats) (casts : Casts) (laws : CastLaws floats casts) (env : Env) where
    -- A chunk that can be stored: it is of the scope, and its embedding has the column's dimension.
    abbrev pub IsStorable : ChunkRecordInput → Type 0
    IsStorable c = IsIn c × (length c.embedding ≡ casts.dimension)

    module _ (session : Text) (is_uuid : casts.uuid session_id ≡ some session) where
      -- The rows after the loop, from what is there before.
      record Stored (rows : List ChunkRow) (next : ℕ) (chunks : List ChunkRecordInput) (t : Tables)
          : Type 0 where
        storable : All IsStorable chunks
        stored : t.chunks ≡ rows ++ rows_of session env.started next chunks

      abbrev At : List ChunkRow → ℕ → Tables → Type 0
      At rows next t = (t.chunks ≡ rows) × (t.next_chunk ≡ next)

      abbrev Put : ChunkRecordInput → List ChunkRow → ℕ → Tables → Type 0
      Put c rows next t =
          IsStorable c
          × At (rows ++ (chunk_row session c c.embedding next env.started ∷ [])) (suc next) t

      insert_read-Put :
          (i : ℕ) (c : ChunkRecordInput) (rows : List ChunkRow) (next n : ℕ) (t : Tables)
          → IsIn c
          → At rows next t
          → (o : Option Text) → o ≡ some session
          → (v : Option Embedding) → casts.read (vector_literal floats c.embedding) ≡ v
          → Ensures (λ _. Put c rows next) (insert_read floats casts i c o v env n t)
      unfolding insert_read insert_chunk
      insert_read-Put i c rows next n t k h none e v f = tt
      insert_read-Put i c rows next n t k h (some o) e none f = tt
      insert_read-Put i c rows next n t k h (some o) e (some v) f =
          let same = laws.reads c.embedding v f in
          Ensures-exec (λ _. Put c rows next) env (insert_error floats casts i) n
            (insert_chunk o c v) t
            (
              (k, sym (ap length same) ∙ laws.sized _ v f),
              (rw (h.0, h.1, some_text o session e, same) refl, ap suc h.1),
            )

      insert_checked-Put :
          (i : ℕ) (c : ChunkRecordInput) (rows : List ChunkRow) (next n : ℕ) (t : Tables)
          (a : Result (Unit {0}))
          → validate_chunk_scope session_id repo_root c ≡ a
          → At rows next t
          → Ensures (λ _. Put c rows next) (insert_checked floats casts i c a env n t)
      unfolding insert_checked
      insert_checked-Put i c rows next n t (err e) v h = tt
      insert_checked-Put i c rows next n t (ok u) v h =
          let k = validate-IsIn c v in
          insert_read-Put i c rows next n t k h (casts.uuid c.session_id)
            (ap casts.uuid k.0 ∙ is_uuid) (casts.read (vector_literal floats c.embedding)) refl

      each-Stored :
          (chunks : List ChunkRecordInput) (i : ℕ) (rows : List ChunkRow) (next n : ℕ) (t : Tables)
          → At rows next t
          → Ensures
              (λ _. Stored rows next chunks)
              (each (put_chunk floats casts session_id repo_root) i chunks env n t)
      unfolding each put_chunk
      each-Stored [] i rows next n t h = record {
        storable = tt;
        stored = h.0 ∙ sym (append-nil rows);
      }
      each-Stored (c ∷ cs) i rows next n t h =
          let row = chunk_row session c c.embedding next env.started in
          Ensures-and_then (λ _. Put c rows next) (λ _. Stored rows next (c ∷ cs)) env
            (λ _. each (put_chunk floats casts session_id repo_root) (suc i) cs)
            (put_chunk floats casts session_id repo_root i c env n t)
            (insert_checked-Put i c rows next n t (validate_chunk_scope session_id repo_root c) refl
              h)
            (λ _ n' t' k.
              Ensures-map (λ _. Stored (rows ++ (row ∷ [])) (suc next) cs)
                (λ _. Stored rows next (c ∷ cs))
                (λ _ t'' s. record {
                  storable = (k.0, s.storable);
                  stored =
                      s.stored
                      ∙ append_assoc rows (row ∷ []) (rows_of session env.started (suc next) cs);
                })
                (each (put_chunk floats casts session_id repo_root) (suc i) cs env n' t')
                (each-Stored cs (suc i) (rows ++ (row ∷ [])) (suc next) n' t' k.1))

    -- What a replacement makes of the rows.
    pub record Replaced (t : Tables) (chunks : List ChunkRecordInput) (t' : Tables) : Type 0 where
      pub session : Text
      pub is_uuid : casts.uuid session_id ≡ some session
      pub storable : All IsStorable chunks
      pub stored :
          t'.chunks
          ≡ delete_where (chunk_in session repo_root) t.chunks
            ++ rows_of session env.started t.next_chunk chunks

    deleted-Replaced :
        (t : Tables) (chunks : List ChunkRecordInput) (o : Option Text)
        → casts.uuid session_id ≡ o
        → Ensures
            (λ _. Replaced t chunks)
            (and_then
              (λ _. each (put_chunk floats casts session_id repo_root) 0 chunks)
              env
              (delete_read floats casts repo_root o env 1 t))
    unfolding delete_read and_then delete_chunks
    deleted-Replaced t chunks none e = tt
    deleted-Replaced t chunks (some session) e =
        let rest = delete_where (chunk_in session repo_root) t.chunks in
        Ensures-and_then (λ _. At session e rest t.next_chunk) (λ _. Replaced t chunks) env
          (λ _. each (put_chunk floats casts session_id repo_root) 0 chunks)
          (delete_read floats casts repo_root (some session) env 1 t)
          (Ensures-exec (λ _. At session e rest t.next_chunk) env
            (statement (text "delete repo index rows")) 1 (λ env. delete_chunks session repo_root) t
            (refl, refl))
          (λ _ n' t' h.
            Ensures-map (λ _. Stored session e rest t.next_chunk chunks) (λ _. Replaced t chunks)
              (λ _ t'' s. record {
                session = session;
                is_uuid = e;
                storable = s.storable;
                stored = s.stored;
              })
              (each (put_chunk floats casts session_id repo_root) 0 chunks env n' t')
              (each-Stored session e chunks 0 rest t.next_chunk n' t' h))

    valid-Replaced :
        (t : Tables) (chunks : List ChunkRecordInput) (a : Result (Unit {0}))
        → EndsAs
            (λ _. Replaced t chunks)
            t
            (replace_valid floats casts env t session_id repo_root chunks a)
    unfolding replace_valid replace_body
    valid-Replaced t chunks (err e) = rolled_back e
    valid-Replaced t chunks (ok u) =
        transact-Transacted (λ _. Replaced t chunks) (text "begin replace repo index tx")
          (text "commit replace repo index tx") env t
          (replace_body floats casts session_id repo_root chunks)
          (deleted-Replaced t chunks (casts.uuid session_id) refl)

    -- To replace the index of a scope, whatever statements fail and whatever texts the casts refuse:
    -- with an error, all the tables are as they were; otherwise the session id is that of a UUID,
    -- every chunk is of the scope and has an embedding of the column's dimension, and the rows are
    -- those of the other scopes, as they were, and then one row for each chunk, in order, with its
    -- embedding. Over a cast to vectors that, where it takes a text, reads it exactly, as a vector of
    -- the column's dimension, and a parser that reads the text of such a vector.
    pub replace_repo_index-Transacted :
        (t : Tables) (chunks : List ChunkRecordInput)
        → EndsAs
            (λ _. Replaced t chunks)
            t
            (replace_repo_index floats casts env t session_id repo_root chunks)
    unfolding replace_repo_index
    replace_repo_index-Transacted t chunks =
        valid-Replaced t chunks (validate_scope session_id repo_root)
