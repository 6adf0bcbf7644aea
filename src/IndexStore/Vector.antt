-- ===== src/IndexStore/Vector.antt =====
-- `vectorLiteral` and `parseVectorLiteral` of internal/indexstore/store.go, over the formatting and the
-- parsing of floats by strconv.
pub mod Read
use deep_agent_cli.Base.{
  ℕ, Option, none, some, List, [], ◌∷◌, ◌++◌, map, reverse, ◌==◌, if◌then◌else◌,
}
use deep_agent_cli.Text.{Text, text, eq}
use deep_agent_cli.Text.Trim.{trim}
use deep_agent_cli.IndexStore.{Embedding}

-- `strconv.FormatFloat(v, 'f', -1, 32)` and `strconv.ParseFloat(s, 32)`
pub record Floats : Type 0 where
  pub format : ℕ → Text
  pub parse : Text → Option ℕ

abbrev pub comma : ℕ
comma = 44

abbrev pub open_bracket : ℕ
open_bracket = 91

abbrev pub close_bracket : ℕ
close_bracket = 93

abbrev pub grow_first : ℕ → List Text → List Text
grow_first c [] = (c ∷ []) ∷ []
grow_first c (l ∷ ls) = (c ∷ l) ∷ ls

-- `strings.Split(s, ",")`
unfoldable pub split_commas : Text → List Text
split_commas [] = [] ∷ []
split_commas (c ∷ s) =
    let rest = split_commas s in if c == comma then [] ∷ rest else grow_first c rest

-- `strings.Join(parts, ",")`
unfoldable pub join_commas : List Text → Text
join_commas [] = []
join_commas (p ∷ []) = p
join_commas (p ∷ q ∷ ps) = p ++ (comma ∷ join_commas (q ∷ ps))

-- `strings.TrimPrefix` and `strings.TrimSuffix`, of one byte
unfoldable pub trim_prefix : ℕ → Text → Text
trim_prefix b [] = []
trim_prefix b (c ∷ s) = if c == b then s else c ∷ s

unfoldable pub trim_suffix : ℕ → Text → Text
unfolding trim_prefix
trim_suffix b s = reverse (trim_prefix b (reverse s))

module _ (floats : Floats) where
  -- `vectorLiteral`
  unfoldable pub vector_literal : Embedding → Text
  unfolding join_commas
  vector_literal [] = open_bracket ∷ close_bracket ∷ []
  vector_literal (v ∷ vs) =
      open_bracket ∷ (join_commas (map floats.format (v ∷ vs)) ++ (close_bracket ∷ []))

  cons_parsed : Option ℕ → Option Embedding → Option Embedding
  cons_parsed none vs = none
  cons_parsed (some v) none = none
  cons_parsed (some v) (some vs) = some (v ∷ vs)

  unfoldable pub parse_parts : List Text → Option Embedding
  unfolding cons_parsed
  parse_parts [] = some []
  parse_parts (p ∷ ps) = cons_parsed (floats.parse (trim p)) (parse_parts ps)

  unfoldable pub parse_inner : Text → Option Embedding
  unfolding parse_parts split_commas
  parse_inner s = if eq s [] then some [] else parse_parts (split_commas s)

  -- `parseVectorLiteral`
  unfoldable pub parse_vector_literal : Text → Option Embedding
  unfolding parse_inner trim_prefix trim_suffix
  parse_vector_literal input =
      parse_inner (trim_suffix close_bracket (trim_prefix open_bracket (trim input)))
