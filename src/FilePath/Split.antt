-- ===== src/FilePath/Split.antt =====
-- Splitting undoes joining, for parts without a slash.
use deep_agent_cli.Base.{
  ℕ, ◌≡◌, refl, ap, ◌∙◌, inl, inr, false, List, [], ◌∷◌, ◌++◌, ◌==◌, Bool-cases, All,
}
use deep_agent_cli.Text.{Text}
use deep_agent_cli.FilePath.{slash, grow_first, split, join}

abbrev pub NoSlash : Text → Type 0
NoSlash [] = Unit
NoSlash (c ∷ s) = ((c == slash) ≡ false) × NoSlash s

All-NoSlash-grow_first :
    (c : ℕ) (ls : List Text) → (c == slash) ≡ false → All NoSlash ls → All NoSlash (grow_first c ls)
All-NoSlash-grow_first c [] h a = ((h, tt), tt)
All-NoSlash-grow_first c (l ∷ ls) h a = ((h, a.0), a.1)

pub split-NoSlash : (s : Text) → All NoSlash (split s)
unfolding split
split-NoSlash [] = (tt, tt)
split-NoSlash (c ∷ s) = elim (Bool-cases (c == slash)) [
  | inl e ↦ rw e (tt, split-NoSlash s)
  | inr e ↦ rw e (All-NoSlash-grow_first c (split s) e (split-NoSlash s))
]

split_part : (p : Text) → NoSlash p → split p ≡ p ∷ []
unfolding split
split_part [] h = refl
split_part (c ∷ p) h = rw (h.0, split_part p h.1) refl

split_parts : (p s : Text) → NoSlash p → split (p ++ (slash ∷ s)) ≡ p ∷ split s
unfolding split
split_parts [] s h = refl
split_parts (c ∷ p) s h = rw (h.0, split_parts p s h.1) refl

-- The parts of joined parts are the parts.
pub split-join : (p : Text) (ps : List Text) → All NoSlash (p ∷ ps) → split (join (p ∷ ps)) ≡ p ∷ ps
unfolding join
split-join p [] h = split_part p h.0
split-join p (q ∷ ps) h = split_parts p (join (q ∷ ps)) h.0 ∙ ap (λ l. p ∷ l) (split-join q ps h.1)
