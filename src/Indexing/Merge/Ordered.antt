-- ===== src/Indexing/Merge/Ordered.antt =====
-- The order of the records of an index, in internal/indexing.
use deep_agent_cli.Base.{
  ◌≤◌, ◌≡◌, sym, ◌∙◌, ◌≢◌, ◌⊎◌, inl, inr, true, false≢true, arith, Bool-cases,
}
use deep_agent_cli.Text.{eq, eq_iff, le}
use deep_agent_cli.IndexStore.{ChunkRecordInput}
use deep_agent_cli.Indexing.Merge.{record_le}

-- The one comes before the other: it has the lesser path, or the same path and no greater index.
abbrev pub Precedes : ChunkRecordInput → ChunkRecordInput → Type 0
Precedes a b =
    ((le a.rel_path b.rel_path ≡ true) × (a.rel_path ≢ b.rel_path))
    ⊎ ((a.rel_path ≡ b.rel_path) × (a.chunk_index ≤ b.chunk_index))

pub record_le-Precedes : (a b : ChunkRecordInput) → record_le a b ≡ true → Precedes a b
unfolding record_le
record_le-Precedes a b h = elim (Bool-cases (eq a.rel_path b.rel_path)) [
  | inl p ↦ inr ((eq_iff a.rel_path b.rel_path).0 p, ground arith)
  | inr p ↦ inl (ground arith, λ q. false≢true (sym p ∙ (eq_iff a.rel_path b.rel_path).1 q))
]
