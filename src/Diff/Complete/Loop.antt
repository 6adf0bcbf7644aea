-- ===== src/Diff/Complete/Loop.antt =====
-- What one comparison guarantees of the files of both sides, and the loop over the children.
use deep_agent_cli.Base.{
  ◌≡◌, refl, sym, subst, ◌⊎◌, inl, inr, Option, List, [], ◌∷◌, All, In, All-map,
}
use deep_agent_cli.Snapshot.{Entry, Node}
use deep_agent_cli.Text.{Text}
use deep_agent_cli.Diff.{
  Changes, Result, ok, added, deleted, modified, FileDelta, child_at, diff_keys,
}
use deep_agent_cli.Diff.Tree.{Kept, files_of}

-- A file of the previous tree is kept, or recorded as deleted or modified.
abbrev pub Gone : List Entry → Changes → Entry → Type 0
Gone cs d e = Kept cs e ⊎ (In (deleted e) d ⊎ ((k : Entry) × In k cs × In (modified e k) d))

-- A file of the current tree was there before, or is recorded as added or modified.
abbrev pub New : List Entry → Changes → Entry → Type 0
New ps d e = Kept ps e ⊎ (In (added e) d ⊎ ((k : Entry) × In k ps × In (modified k e) d))

pub Gone-grows :
    (cs cs' : List Entry) (d d' : Changes)
    → ((x : Entry) → In x cs → In x cs')
    → ((x : FileDelta) → In x d → In x d')
    → (e : Entry) → Gone cs d e
    → Gone cs' d' e
Gone-grows cs cs' d d' f g e (inl (k, i, p, q)) = inl (k, f k i, p, q)
Gone-grows cs cs' d d' f g e (inr (inl i)) = inr (inl (g (deleted e) i))
Gone-grows cs cs' d d' f g e (inr (inr (k, i, j))) = inr (inr (k, f k i, g (modified e k) j))

pub New-grows :
    (ps ps' : List Entry) (d d' : Changes)
    → ((x : Entry) → In x ps → In x ps')
    → ((x : FileDelta) → In x d → In x d')
    → (e : Entry) → New ps d e
    → New ps' d' e
New-grows ps ps' d d' f g e (inl (k, i, p, q)) = inl (k, f k i, p, q)
New-grows ps ps' d d' f g e (inr (inl i)) = inr (inl (g (added e) i))
New-grows ps ps' d d' f g e (inr (inr (k, i, j))) = inr (inr (k, f k i, g (modified k e) j))

-- The records of `d'` extend those of `d` and cover the files of both sides.
pub record Covers (ps cs : List Entry) (d d' : Changes) : Type 0 where
  pub grows : (x : FileDelta) → In x d → In x d'
  pub gone : All (Gone cs d') ps
  pub new : All (New ps d') cs

abbrev pub Done : Result Changes → List Entry → List Entry → Changes → Type 0
Done r ps cs d = (d' : Changes) × (r ≡ ok d') × Covers ps cs d d'

module _ (visit : Option Node → Option Node → Changes → Result Changes) (ps cs : List Node) where
  abbrev Below : Text → Changes → Changes → Type 0
  Below k d d' = Covers (files_of (child_at k ps)) (files_of (child_at k cs)) d d'

  Below-grows :
      (k : Text) (d d' d'' : Changes)
      → Below k d d'
      → ((x : FileDelta) → In x d' → In x d'')
      → Below k d d''
  Below-grows k d d' d'' h g = record {
    grows = λ x i. g x (h.grows x i);
    gone = All-map (Gone-grows _ _ d' d'' (λ x i. i) g) (files_of (child_at k ps)) h.gone;
    new = All-map (New-grows _ _ d' d'' (λ x i. i) g) (files_of (child_at k cs)) h.new;
  }

  -- The loop covers the files under every key, if each visit does.
  pub diff_keys-Done :
      (ks : List Text) (d : Changes)
      → ((k : Text) (d₁ : Changes)
          → Done
              (visit (child_at k ps) (child_at k cs) d₁)
              (files_of (child_at k ps))
              (files_of (child_at k cs))
              d₁)
      → (d' : Changes) × (diff_keys visit ps cs ks d ≡ ok d')
        × ((x : FileDelta) → In x d → In x d')
        × ((k : Text) → In k ks → Below k d d')
  unfolding diff_keys
  diff_keys-Done [] d h = (d, refl, λ x i. i, λ k i. absurd i)
  diff_keys-Done (k ∷ ks) d h =
      let (d₁, e, c) = h k d in
      let (d', e', g, all) = diff_keys-Done ks d₁ h in
      (
        d',
        rw e e',
        λ x i. g x (c.grows x i),
        λ j i. elim i [
          | inl q ↦ subst (λ l. Below l d d') (sym q) (Below-grows k d d₁ d' c g)
          | inr m ↦
              let b = all j m in
              record { grows = λ x n. b.grows x (c.grows x n); gone = b.gone; new = b.new }
        ],
      )
