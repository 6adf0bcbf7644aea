-- ===== src/Chunker/Lines.antt =====
-- Splitting a text into lines loses nothing.
use deep_agent_cli.Base.{ℕ, ◌≡◌, refl, ap, ◌∙◌, inl, inr, List, [], ◌∷◌, ◌++◌, ◌==◌, Bool-cases}
use deep_agent_cli.Text.{Text}
use deep_agent_cli.Chunker.{grow_first, split_after, drop_last_empty, join, lines_of}

join-grow_first : (c : ℕ) (ls : List Text) → join (grow_first c ls) ≡ c ∷ join ls
unfolding join
join-grow_first c [] = refl
join-grow_first c (l ∷ ls) = refl

join-split_after : (s : Text) → join (split_after s) ≡ s
unfolding split_after join
join-split_after [] = refl
join-split_after (c ∷ s) = elim (Bool-cases (c == 10)) [
  | inl e ↦ rw e (ap (λ t. c ∷ t) (join-split_after s))
  | inr e ↦ rw e (join-grow_first c (split_after s) ∙ ap (λ t. c ∷ t) (join-split_after s))
]

join-drop_last_empty : (ls : List Text) → join (drop_last_empty ls) ≡ join ls
unfolding drop_last_empty join
join-drop_last_empty [] = refl
join-drop_last_empty ([] ∷ []) = refl
join-drop_last_empty ((c ∷ l) ∷ []) = refl
join-drop_last_empty (l ∷ m ∷ ls) = ap (λ t. l ++ t) (join-drop_last_empty (m ∷ ls))

-- The lines of a text, joined, are the text.
pub join-lines_of : (s : Text) → join (lines_of s) ≡ s
join-lines_of s = join-drop_last_empty (split_after s) ∙ join-split_after s
