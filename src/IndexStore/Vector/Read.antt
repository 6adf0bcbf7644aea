-- ===== src/IndexStore/Vector/Read.antt =====
-- What `parseVectorLiteral` of internal/indexstore/store.go makes of a literal of `vectorLiteral`.
use deep_agent_cli.Base.{
  ℕ, ◌≡◌, refl, sym, ap, ◌∙◌, false, false≢true, some, List, [], ◌∷◌, ◌++◌, map, reverse-append,
  reverse-reverse, ◌==◌, All,
}
use deep_agent_cli.Text.{Text, eq}
use deep_agent_cli.Text.Trim.{trim, trim_brackets}
use deep_agent_cli.IndexStore.{Embedding}
use deep_agent_cli.IndexStore.Vector.{
  Floats, comma, split_commas, join_commas, trim_prefix, trim_suffix, open_bracket, close_bracket,
  vector_literal, parse_parts, parse_inner, parse_vector_literal,
}

abbrev pub NoComma : Text → Type 0
NoComma [] = Unit
NoComma (c ∷ s) = ((c == comma) ≡ false) × NoComma s

-- What strconv says of a float that it formats: it is parsed back, and its text is not empty and has
-- neither comma nor space around it.
pub record FloatLaws (floats : Floats) : Type 0 where
  pub parses : (v : ℕ) → floats.parse (floats.format v) ≡ some v
  pub trims : (v : ℕ) → trim (floats.format v) ≡ floats.format v
  pub no_comma : (v : ℕ) → NoComma (floats.format v)
  pub not_empty : (v : ℕ) → eq (floats.format v) [] ≡ false

split_part : (p : Text) → NoComma p → split_commas p ≡ p ∷ []
unfolding split_commas
split_part [] h = refl
split_part (c ∷ p) h = rw (h.0, split_part p h.1) refl

split_parts : (p s : Text) → NoComma p → split_commas (p ++ (comma ∷ s)) ≡ p ∷ split_commas s
unfolding split_commas
split_parts [] s h = refl
split_parts (c ∷ p) s h = rw (h.0, split_parts p s h.1) refl

split-join :
    (p : Text) (ps : List Text)
    → All NoComma (p ∷ ps)
    → split_commas (join_commas (p ∷ ps)) ≡ p ∷ ps
unfolding join_commas
split-join p [] h = split_part p h.0
split-join p (q ∷ ps) h =
    split_parts p (join_commas (q ∷ ps)) h.0 ∙ ap (λ l. p ∷ l) (split-join q ps h.1)

trim_inner : (s : Text) → trim_suffix close_bracket (s ++ (close_bracket ∷ [])) ≡ s
unfolding trim_suffix trim_prefix
trim_inner s = rw (reverse-append s (close_bracket ∷ [])) (reverse-reverse s)

module _ (floats : Floats) (laws : FloatLaws floats) where
  parse_formats : (vs : Embedding) → parse_parts floats (map floats.format vs) ≡ some vs
  unfolding parse_parts
  parse_formats [] = refl
  parse_formats (v ∷ vs) = rw (laws.trims v, laws.parses v, parse_formats vs) refl

  formats-NoComma : (vs : Embedding) → All NoComma (map floats.format vs)
  formats-NoComma [] = tt
  formats-NoComma (v ∷ vs) = (laws.no_comma v, formats-NoComma vs)

  join-not_empty :
      (p : Text) (ps : List Text) → eq p [] ≡ false → eq (join_commas (p ∷ ps)) [] ≡ false
  unfolding join_commas eq
  join-not_empty p [] h = h
  join-not_empty [] (q ∷ ps) h = absurd (false≢true (sym h))
  join-not_empty (c ∷ p) (q ∷ ps) h = refl

  parse_inner-join :
      (v : ℕ) (vs : Embedding)
      → parse_inner floats (join_commas (map floats.format (v ∷ vs))) ≡ some (v ∷ vs)
  unfolding parse_inner
  parse_inner-join v vs =
      rw
        (
          join-not_empty (floats.format v) (map floats.format vs) (laws.not_empty v),
          split-join (floats.format v) (map floats.format vs) (formats-NoComma (v ∷ vs)),
        )
        (parse_formats (v ∷ vs))

  -- Round trip of an embedding through the text that the database stores it in: for floats that strconv
  -- reads back, `parseVectorLiteral` of the literal that `vectorLiteral` writes for any embedding, the
  -- empty one included, is that embedding.
  pub parse-vector_literal :
      (e : Embedding) → parse_vector_literal floats (vector_literal floats e) ≡ some e
  unfolding parse_vector_literal vector_literal parse_inner eq trim_suffix trim_prefix
  parse-vector_literal [] = rw (trim_brackets []) refl
  parse-vector_literal (v ∷ vs) =
      ap (λ s. parse_inner floats (trim_suffix close_bracket (trim_prefix open_bracket s)))
        (trim_brackets (join_commas (map floats.format (v ∷ vs))))
      ∙ ap (parse_inner floats) (trim_inner (join_commas (map floats.format (v ∷ vs))))
      ∙ parse_inner-join v vs
