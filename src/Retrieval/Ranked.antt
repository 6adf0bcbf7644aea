-- ===== src/Retrieval/Ranked.antt =====
-- What the ranks of internal/retrieval/rank.go mean.
use deep_agent_cli.Base.{
  ℕ, suc, ◌+◌, ◌<◌, ◌≡◌, refl, sym, ap, ◌∙◌, ◌≢◌, ◌⊎◌, inl, inr, true, false, false≢true, List, [],
  ◌∷◌, arith, ◌==◌, Bool-cases, length, All, In,
}
use deep_agent_cli.Base.Sort.{
  sort, In-sort, length-sort, IsSorted, InOrder, IsSorted-InOrder, IsOrder, sort-IsSorted,
}
use deep_agent_cli.Text.{eq, le, eq_iff, le-IsOrder, le_antisym}
use deep_agent_cli.Retrieval.{SemanticQueryResult, rank_le, set_ranks, apply_stable_ranks}

rank_total : (a b : SemanticQueryResult) → rank_le a b ≡ false → rank_le b a ≡ true
unfolding rank_le
rank_total a b h = ground (
  arith,
  eq_iff a.file_path b.file_path,
  eq_iff b.file_path a.file_path,
  le-IsOrder.total a.file_path b.file_path,
  le-IsOrder.total a.chunk_id b.chunk_id,
)

rank_trans :
    (a b c : SemanticQueryResult) → rank_le a b ≡ true → rank_le b c ≡ true → rank_le a c ≡ true
unfolding rank_le
rank_trans a b c h k = ground (
  arith,
  eq_iff a.file_path b.file_path,
  eq_iff b.file_path c.file_path,
  eq_iff a.file_path c.file_path,
  le-IsOrder.trans a.file_path b.file_path c.file_path,
  le-IsOrder.trans a.chunk_id b.chunk_id c.chunk_id,
  le_antisym a.file_path b.file_path,
)

rank_le-IsOrder : IsOrder rank_le
rank_le-IsOrder = record { total = rank_total; trans = rank_trans }

-- The ranks count up from `n`.
abbrev pub RanksFrom : ℕ → List SemanticQueryResult → Type 0
RanksFrom n [] = Unit
RanksFrom n (r ∷ rs) = (r.rank ≡ n) × RanksFrom (suc n) rs

set_ranks-RanksFrom : (i : ℕ) (rs : List SemanticQueryResult) → RanksFrom (suc i) (set_ranks i rs)
unfolding set_ranks
set_ranks-RanksFrom i [] = tt
set_ranks-RanksFrom i (r ∷ rs) = (omega arith, set_ranks-RanksFrom (suc i) rs)

-- A result but for its rank.
abbrev pub SameResult : SemanticQueryResult → SemanticQueryResult → Type 0
SameResult a b =
    (a.file_path ≡ b.file_path)
    × (a.chunk_id ≡ b.chunk_id)
    × (a.score ≡ b.score)
    × (a.snippet ≡ b.snippet)

set_ranks-keeps :
    (i : ℕ) (rs : List SemanticQueryResult) (r : SemanticQueryResult)
    → In r rs
    → (s : SemanticQueryResult) × In s (set_ranks i rs) × SameResult r s
unfolding set_ranks
set_ranks-keeps i [] r h = absurd h
set_ranks-keeps i (x ∷ xs) r (inl e) = (
  record x { rank = i + 1 },
  inl refl,
  (ap (λ t. t.file_path) e, ap (λ t. t.chunk_id) e, ap (λ t. t.score) e, ap (λ t. t.snippet) e),
)
set_ranks-keeps i (x ∷ xs) r (inr h) =
    let (s, m, same) = set_ranks-keeps (suc i) xs r h in (s, inr m, same)

set_ranks-from :
    (i : ℕ) (rs : List SemanticQueryResult) (s : SemanticQueryResult)
    → In s (set_ranks i rs)
    → (r : SemanticQueryResult) × In r rs × SameResult r s
unfolding set_ranks
set_ranks-from i [] s h = absurd h
set_ranks-from i (x ∷ xs) s (inl e) = (
  x,
  inl refl,
  (
    sym (ap (λ t. t.file_path) e),
    sym (ap (λ t. t.chunk_id) e),
    sym (ap (λ t. t.score) e),
    sym (ap (λ t. t.snippet) e),
  ),
)
set_ranks-from i (x ∷ xs) s (inr h) =
    let (r, m, same) = set_ranks-from (suc i) xs s h in (r, inr m, same)

All-set_ranks :
    (x : SemanticQueryResult) (n i : ℕ) (ys : List SemanticQueryResult)
    → All (λ y. rank_le x y ≡ true) ys
    → All (λ y. rank_le (record x { rank = n }) y ≡ true) (set_ranks i ys)
unfolding set_ranks rank_le
All-set_ranks x n i [] h = tt
All-set_ranks x n i (y ∷ ys) h = (h.0, All-set_ranks x n (suc i) ys h.1)

set_ranks-IsSorted :
    (i : ℕ) (rs : List SemanticQueryResult)
    → IsSorted rank_le rs
    → IsSorted rank_le (set_ranks i rs)
unfolding set_ranks
set_ranks-IsSorted i [] h = tt
set_ranks-IsSorted i (r ∷ rs) h =
    (All-set_ranks r (i + 1) (suc i) rs h.0, set_ranks-IsSorted (suc i) rs h.1)

length-set_ranks : (i : ℕ) (rs : List SemanticQueryResult) → length (set_ranks i rs) ≡ length rs
unfolding set_ranks
length-set_ranks i [] = refl
length-set_ranks i (r ∷ rs) = ap suc (length-set_ranks (suc i) rs)

-- The one comes before the other: it has the higher score; or the same score and the lesser path; or
-- the same score and path, and its chunk's id is not greater.
abbrev pub Precedes : SemanticQueryResult → SemanticQueryResult → Type 0
Precedes a b =
    (b.score < a.score)
    ⊎ ((a.score ≡ b.score)
        × (((le a.file_path b.file_path ≡ true) × (a.file_path ≢ b.file_path))
            ⊎ ((a.file_path ≡ b.file_path) × (le a.chunk_id b.chunk_id ≡ true))))

rank_le-Precedes : (a b : SemanticQueryResult) → rank_le a b ≡ true → Precedes a b
unfolding rank_le
rank_le-Precedes a b h = elim (Bool-cases (a.score == b.score)) [
  | inr e ↦ inl (ground arith)
  | inl e ↦ elim (Bool-cases (eq a.file_path b.file_path)) [
    | inl p ↦ inr (ground arith, inr ((eq_iff a.file_path b.file_path).0 p, ground arith))
    | inr p ↦ inr (
      ground arith,
      inl (ground arith, λ q. false≢true (sym p ∙ (eq_iff a.file_path b.file_path).1 q)),
    )
  ]
]

-- Results in their ranks.
pub record IsRanked (results ranked : List SemanticQueryResult) : Type 0 where
  pub in_order : InOrder Precedes ranked
  pub ranks : RanksFrom 1 ranked
  pub complete :
      (r : SemanticQueryResult)
      → In r results
      → (s : SemanticQueryResult) × In s ranked × SameResult r s
  pub sound :
      (s : SemanticQueryResult)
      → In s ranked
      → (r : SemanticQueryResult) × In r results × SameResult r s
  pub same_length : length ranked ≡ length results

-- Ranking orders the results by falling score, then by path, then by chunk, numbers them from 1 on,
-- and neither adds, drops nor changes one but for its rank.
pub apply_stable_ranks-IsRanked :
    (results : List SemanticQueryResult) → IsRanked results (apply_stable_ranks results)
unfolding apply_stable_ranks
apply_stable_ranks-IsRanked results =
    let sorted = sort rank_le results in
    record {
      in_order =
          IsSorted-InOrder rank_le Precedes rank_le-Precedes (apply_stable_ranks results)
            (set_ranks-IsSorted 0 sorted (sort-IsSorted rank_le rank_le-IsOrder results));
      ranks = set_ranks-RanksFrom 0 sorted;
      complete = λ r i. set_ranks-keeps 0 sorted r ((In-sort rank_le r results).1 i);
      sound = λ s i.
          let (r, m, same) = set_ranks-from 0 sorted s i in
          (r, (In-sort rank_le r results).0 m, same);
      same_length = length-set_ranks 0 sorted ∙ length-sort rank_le results;
    }
