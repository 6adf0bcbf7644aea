-- ===== src/FilePath.antt =====
-- The lexical part of Go's path/filepath on Unix, as the code uses it, and the normalization of
-- relative paths in internal/indexing/records.go and internal/indexsync/snapshot/filter.go.
pub mod Split
pub mod Safe
use deep_agent_cli.Base.{
  ℕ, Bool, false, not, ◌&&◌, ◌||◌, List, [], ◌∷◌, ◌++◌, reverse, ◌==◌, if◌then◌else◌,
}
use deep_agent_cli.Text.{Text, text, eq, has_prefix}
use deep_agent_cli.Text.Trim.{trim}

abbrev pub slash : ℕ
slash = 47

abbrev pub grow_first : ℕ → List Text → List Text
grow_first c [] = (c ∷ []) ∷ []
grow_first c (l ∷ ls) = (c ∷ l) ∷ ls

-- `strings.Split(s, "/")`
unfoldable pub split : Text → List Text
split [] = [] ∷ []
split (c ∷ s) = let rest = split s in if c == slash then [] ∷ rest else grow_first c rest

-- `strings.Join(parts, "/")`
unfoldable pub join : List Text → Text
join [] = []
join (p ∷ []) = p
join (p ∷ q ∷ ps) = p ++ (slash ∷ join (q ∷ ps))

abbrev pub dot : Text
dot = text "."

abbrev pub dot_dot : Text
dot_dot = text ".."

-- `filepath.IsAbs`
unfoldable pub is_abs : Text → Bool
is_abs [] = false
is_abs (c ∷ s) = c == slash

-- One part of a path on the stack of those before it, the last on top.
unfoldable pub push_part : Bool → Text → List Text → List Text
push_part rooted part [] =
    if eq part [] || eq part dot then [] else if eq part dot_dot && rooted then [] else part ∷ []
push_part rooted part (top ∷ stack) =
    if eq part [] || eq part dot
    then top ∷ stack
    else if eq part dot_dot && not (eq top dot_dot)
    then stack
    else part ∷ top ∷ stack

unfoldable pub push_parts : Bool → List Text → List Text → List Text
unfolding push_part
push_parts rooted [] stack = stack
push_parts rooted (p ∷ ps) stack = push_parts rooted ps (push_part rooted p stack)

-- the parts of `filepath.Clean(path)`
unfoldable pub clean_parts : Text → List Text
unfolding split is_abs push_parts
clean_parts path = reverse (push_parts (is_abs path) (split path) [])

abbrev pub or_dot : Text → Text
or_dot [] = dot
or_dot (c ∷ s) = c ∷ s

-- `filepath.Clean`
unfoldable pub clean : Text → Text
unfolding clean_parts join
clean path =
    if is_abs path then slash ∷ join (clean_parts path) else or_dot (join (clean_parts path))

pub data PathError : Type 0 where
  required must_be_relative escapes_root : PathError

pub data PathResult : Type 0 where
  ok : Text → PathResult
  err : PathError → PathResult

unfoldable pub has_dot_dot : List Text → Bool
has_dot_dot [] = false
has_dot_dot (p ∷ ps) = eq p dot_dot || has_dot_dot ps

-- the tests on a trimmed path that both normalizations make
unfoldable pub checked : Text → PathResult
unfolding clean has_dot_dot
checked trimmed =
    if is_abs trimmed
    then err must_be_relative
    else if eq (clean trimmed) dot
    then err required
    else if has_dot_dot (split (clean trimmed))
    then err escapes_root
    else ok (clean trimmed)

-- `normalizeRelativePath` of records.go
unfoldable pub normalize_relative_path : Text → PathResult
unfolding checked
normalize_relative_path path = if eq (trim path) [] then err required else checked (trim path)

-- strings.ReplaceAll(trimmed, `\`, "/")
unfoldable pub to_slashes : Text → Text
to_slashes [] = []
to_slashes (c ∷ s) = (if c == 92 then slash else c) ∷ to_slashes s

-- `normalizeSnapshotPath` of filter.go
unfoldable pub normalize_snapshot_path : Text → PathResult
unfolding checked to_slashes
normalize_snapshot_path path =
    if eq (trim path) [] then err required else checked (to_slashes (trim path))
