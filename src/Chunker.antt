-- ===== src/Chunker.antt =====
-- internal/indexing/chunker.go: cutting a document into overlapping chunks of whole lines.
pub mod Lines
pub mod Window
pub mod Cover
use deep_agent_cli.Base.{
  ℕ, zero, suc, ◌+◌, ◌-◌, true, false, ◌&&◌, ◌||◌, Option, none, some, List, [], ◌∷◌, ◌++◌, ltb,
  leb, ◌==◌, if◌then◌else◌, length, take, drop,
}
use deep_agent_cli.Base.Int.{ℤ, pos, negsuc}
use deep_agent_cli.Text.{Text, eq}
use deep_agent_cli.Text.Trim.{trim}

abbrev pub default_chunk_max_chars : ℕ
default_chunk_max_chars = 1200

abbrev pub default_chunk_max_lines : ℕ
default_chunk_max_lines = 40

abbrev pub default_chunk_overlap_lines : ℕ
default_chunk_overlap_lines = 5

pub record ChunkPolicy : Type 0 where
  pub max_chars : ℤ
  pub max_lines : ℤ
  pub overlap_lines : ℤ

abbrev pub default_chunk_policy : ChunkPolicy
default_chunk_policy = record {
  max_chars = pos default_chunk_max_chars;
  max_lines = pos default_chunk_max_lines;
  overlap_lines = pos default_chunk_overlap_lines;
}

pub record Chunk : Type 0 where
  pub index : ℕ
  pub content : Text

-- A policy after `withDefaults`: no field is negative.
pub record Limits : Type 0 where
  pub max_chars : ℕ
  pub max_lines : ℕ
  pub overlap_lines : ℕ

-- `if x <= 0 { x = fallback }`
abbrev pub positive_or : ℕ → ℤ → ℕ
positive_or fallback (pos zero) = fallback
positive_or fallback (pos (suc n)) = suc n
positive_or fallback (negsuc n) = fallback

-- `if x < 0 { x = 0 }`
abbrev pub at_least_zero : ℤ → ℕ
at_least_zero (pos n) = n
at_least_zero (negsuc n) = 0

-- `withDefaults`
unfoldable pub with_defaults : ChunkPolicy → Limits
with_defaults p =
    let lines = positive_or default_chunk_max_lines p.max_lines in
    let overlap = at_least_zero p.overlap_lines in
    record {
      max_chars = positive_or default_chunk_max_chars p.max_chars;
      max_lines = lines;
      overlap_lines = if leb lines overlap then lines - 1 else overlap;
    }

-- `strings.ReplaceAll(content, "\r\n", "\n")`
unfoldable pub replace_crlf : Text → Text
replace_crlf [] = []
replace_crlf (a ∷ []) = a ∷ []
replace_crlf (a ∷ b ∷ s) = elim (a == 13 && b == 10) [
  | true ↦ 10 ∷ replace_crlf s
  | false ↦ a ∷ replace_crlf (b ∷ s)
]

-- the first line grows by a byte
abbrev pub grow_first : ℕ → List Text → List Text
grow_first c [] = (c ∷ []) ∷ []
grow_first c (l ∷ ls) = (c ∷ l) ∷ ls

-- `strings.SplitAfter(s, "\n")`
unfoldable pub split_after : Text → List Text
split_after [] = [] ∷ []
split_after (c ∷ s) =
    let rest = split_after s in if c == 10 then (c ∷ []) ∷ rest else grow_first c rest

-- `if lines[len(lines)-1] == "" { lines = lines[:len(lines)-1] }`
unfoldable pub drop_last_empty : List Text → List Text
drop_last_empty [] = []
drop_last_empty ([] ∷ []) = []
drop_last_empty ((c ∷ l) ∷ []) = (c ∷ l) ∷ []
drop_last_empty (l ∷ m ∷ ls) = l ∷ drop_last_empty (m ∷ ls)

-- `strings.Join(lines, "")`
unfoldable pub join : List Text → Text
join [] = []
join (l ∷ ls) = l ++ join ls

-- The inner loop from a line on: `taken` is `end - start`, and the result its last value.
unfoldable pub window : Limits → ℕ → ℕ → List Text → ℕ
window p taken chars [] = taken
window p taken chars (l ∷ ls) =
    let next_chars = chars + length l in
    let more = window p (suc taken) next_chars ls in
    if ltb 0 taken && (ltb p.max_chars next_chars || ltb p.max_lines (taken + 1))
    then taken
    else if leb p.max_chars next_chars || leb p.max_lines (taken + 1)
    then suc taken
    else more

-- `lines[start:end]`
abbrev pub slice : ℕ → ℕ → List Text → List Text
slice start end lines = take (end - start) (drop start lines)

abbrev pub content_of : ℕ → ℕ → List Text → Text
content_of start end lines = trim (join (slice start end lines))

-- `if end == start { end = start + 1 }` behind the inner loop
unfoldable pub window_end : Limits → ℕ → List Text → ℕ
unfolding window
window_end p start lines =
    let end = start + window p 0 0 (drop start lines) in if end == start then start + 1 else end

-- `nextStart := end - overlap; if nextStart <= start { nextStart = end }`
unfoldable pub next_start : Limits → ℕ → ℕ → ℕ
next_start p start end = if leb end (start + p.overlap_lines) then end else end - p.overlap_lines

unfoldable pub add_chunk : Text → List Chunk → List Chunk
add_chunk content chunks =
    if eq content []
    then chunks
    else chunks ++ (record { index = length chunks; content = content } ∷ [])

-- The outer loop; `none` means that the fuel ran out.
unfoldable pub chunk_from : ℕ → Limits → List Text → ℕ → List Chunk → Option (List Chunk)
unfolding window_end next_start add_chunk join
chunk_from zero p lines start chunks = none
chunk_from (suc fuel) p lines start chunks =
    let end = window_end p start lines in
    let grown = add_chunk (content_of start end lines) chunks in
    let more = chunk_from fuel p lines (next_start p start end) grown in
    if leb (length lines) start
    then some chunks
    else if leb (length lines) end
    then some grown
    else more

abbrev pub lines_of : Text → List Text
lines_of normalized = drop_last_empty (split_after normalized)

-- `ChunkDocumentWithPolicy`. The start grows in each round: the number of lines bounds the rounds.
unfoldable pub chunk_document_with_policy : Text → ChunkPolicy → Option (List Chunk)
unfolding with_defaults replace_crlf split_after drop_last_empty chunk_from
chunk_document_with_policy content policy =
    let normalized = replace_crlf content in
    let lines = lines_of normalized in
    if eq (trim normalized) []
    then some []
    else chunk_from (suc (length lines)) (with_defaults policy) lines 0 []

-- `ChunkDocument`
unfoldable pub chunk_document : Text → Option (List Chunk)
unfolding chunk_document_with_policy
chunk_document content = chunk_document_with_policy content default_chunk_policy
