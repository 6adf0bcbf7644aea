-- ===== src/IndexStore/Chunks/Listed.antt =====
-- `ReplaceRepoIndex` and then `ListRepoIndex`, of internal/indexstore/store.go.
use deep_agent_cli.Base.{
  ℕ, suc, ◌≡◌, refl, ap, ◌∙◌, inl, inr, Bool, none, some, List, [], ◌∷◌, ◌++◌, map, arith,
  Bool-cases, length, All, All-map,
}
use deep_agent_cli.Text.{Text, eq_refl}
use deep_agent_cli.IndexSync.{Time}
use deep_agent_cli.IndexStore.{ChunkRecordInput}
use deep_agent_cli.IndexStore.Tables.{Tables, ChunkRow, Result, ok, err, Env}
use deep_agent_cli.IndexStore.Tx.Ensures.{rolled_back, committed_as, EndsAs}
use deep_agent_cli.IndexStore.Rows.{delete_where}
use deep_agent_cli.IndexStore.Checks.{validate_scope}
use deep_agent_cli.IndexStore.Latest.{select_where, query}
use deep_agent_cli.IndexStore.Vector.{Floats}
use deep_agent_cli.IndexStore.Chunks.{
  Casts, chunk_in, chunk_le, record_of_row, replace_valid, replace_repo_index, cons_record,
  read_rows, listed_rows, list_rows, list_valid, list_repo_index,
}
use deep_agent_cli.IndexStore.Chunks.Replaced.{
  CastLaws, rows_of, IsIn, IsStorable, Replaced, replace_repo_index-Transacted,
}
use deep_agent_cli.Base.Sort.{sort, All-sort}

module _ {A : Type 0} (test : A → Bool) where
  select-delete_where : (rows : List A) → select_where test (delete_where test rows) ≡ []
  unfolding select_where delete_where
  select-delete_where [] = refl
  select-delete_where (r ∷ rs) = elim (Bool-cases (test r)) [
    | inl e ↦ rw e (select-delete_where rs)
    | inr e ↦ rw (e, e, select-delete_where rs) refl
  ]

  select-append :
      (xs ys : List A) → select_where test (xs ++ ys) ≡ select_where test xs ++ select_where test ys
  unfolding select_where
  select-append [] ys = refl
  select-append (x ∷ xs) ys = elim (Bool-cases (test x)) [
    | inl e ↦ rw (e, select-append xs ys) refl
    | inr e ↦ rw (e, select-append xs ys) refl
  ]

module _ (session_id repo_root session : Text) (started : Time) where
  select-rows_of :
      (next : ℕ) (chunks : List ChunkRecordInput)
      → All (IsIn session_id repo_root) chunks
      → select_where (chunk_in session repo_root) (rows_of session started next chunks)
        ≡ rows_of session started next chunks
  unfolding select_where chunk_in
  select-rows_of next [] h = refl
  select-rows_of next (c ∷ cs) h =
      rw (h.0.1, eq_refl session, eq_refl repo_root, select-rows_of (suc next) cs h.1) refl

module _ (floats : Floats) (casts : Casts) (laws : CastLaws floats casts) where
  read-rows :
      (rows : List ChunkRow)
      → All (λ r. length r.embedding ≡ casts.dimension) rows
      → read_rows floats casts rows ≡ ok (map (λ r. record_of_row r r.embedding) rows)
  unfolding read_rows cons_record
  read-rows [] h = refl
  read-rows (r ∷ rs) h = rw (laws.writes r.embedding h.0, read-rows rs h.1) refl

  module _ (session_id repo_root : Text) (env : Env) (t : Tables)
      (chunks : List ChunkRecordInput) where
    abbrev Stored : Tables → Type 0
    Stored = Replaced session_id repo_root floats casts laws env t chunks

    -- The chunks are of the scope, and their rows have the column's dimension.
    sized :
        (session : Text) (next : ℕ) (cs : List ChunkRecordInput)
        → All (IsStorable session_id repo_root floats casts laws env) cs
        → All (λ r. length r.embedding ≡ casts.dimension) (rows_of session env.started next cs)
    sized session next [] h = tt
    sized session next (c ∷ cs) h = (h.0.1, sized session (suc next) cs h.1)

    replace_valid-ok :
        (a : Result (Unit {0}))
        → (replace_valid floats casts env t session_id repo_root chunks a).1 ≡ ok tt
        → a ≡ ok tt
    unfolding replace_valid
    replace_valid-ok (ok u) h = refl
    replace_valid-ok (err e) h = h

    replaced :
        (r : Tables × Result (Unit {0})) → EndsAs (λ _. Stored) t r → r.1 ≡ ok tt → Stored r.0
    replaced (t', _) (rolled_back e) h = absurd (ground arith)
    replaced (t', _) (committed_as a _ s) h = s

    selected :
        (t' : Tables) (s : Stored t')
        → select_where (chunk_in s.session repo_root) t'.chunks
          ≡ rows_of s.session env.started t.next_chunk chunks
    selected t' s =
        ap (select_where (chunk_in s.session repo_root)) s.stored
        ∙ select-append (chunk_in s.session repo_root)
            (delete_where (chunk_in s.session repo_root) t.chunks) _
        ∙ rw (select-delete_where (chunk_in s.session repo_root) t.chunks) (
            select-rows_of session_id repo_root s.session env.started t.next_chunk chunks
              (All-map (λ c h. h.0) chunks s.storable))

    list_rows_lem :
        (later : Env) (t' : Tables) (s : Stored t')
        → later.fails 0 ≡ none
        → list_rows floats casts later t' repo_root (casts.uuid session_id)
          ≡ ok (
              map
                (λ r. record_of_row r r.embedding)
                (sort
                  (chunk_le later.collation)
                  (rows_of s.session env.started t.next_chunk chunks)))
    unfolding list_rows listed_rows
    list_rows_lem later t' s q =
        let rows = rows_of s.session env.started t.next_chunk chunks in
        rw (s.is_uuid, q, selected t' s, query)
          (read-rows (sort (chunk_le later.collation) rows) (
            All-sort (chunk_le later.collation) (λ r. length r.embedding ≡ casts.dimension) rows
              (sized s.session t.next_chunk chunks s.storable)))

    -- Round trip of the chunks of a repository through the database: when `ReplaceRepoIndex` succeeds
    -- with some chunks, the session id is read as a UUID, and then `ListRepoIndex` of the same scope,
    -- with no failing query, returns exactly those chunks, each with its fields and its embedding, the
    -- text of the UUID and a fresh id, sorted by path and then by index, whatever the scope held before.
    -- Over a cast to vectors that, where it takes a text, reads it exactly, as a vector of the column's
    -- dimension, and a parser that reads the text of such a vector.
    pub replace-list :
        (replace_repo_index floats casts env t session_id repo_root chunks).1 ≡ ok tt
        → (later : Env) → later.fails 0 ≡ none
        → (session : Text) × (casts.uuid session_id ≡ some session)
          × (list_repo_index floats casts later
                (replace_repo_index floats casts env t session_id repo_root chunks).0
                session_id
                repo_root
              ≡ ok (
                  map
                    (λ r. record_of_row r r.embedding)
                    (sort
                      (chunk_le later.collation)
                      (rows_of session env.started t.next_chunk chunks))))
    unfolding list_repo_index list_valid replace_repo_index
    replace-list h later q =
        let t' = (replace_repo_index floats casts env t session_id repo_root chunks).0 in
        let s =
          replaced (replace_repo_index floats casts env t session_id repo_root chunks)
            (replace_repo_index-Transacted session_id repo_root floats casts laws env t chunks) h in
        (
          s.session,
          s.is_uuid,
          ap (list_valid floats casts later t' session_id repo_root)
                (replace_valid-ok (validate_scope session_id repo_root) h)
              ∙ list_rows_lem later t' s q,
        )
