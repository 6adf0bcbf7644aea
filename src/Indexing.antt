-- ===== src/Indexing.antt =====
-- internal/indexing: records.go, chunk_delta.go, embedding_refresh.go, delta_apply.go and
-- `CanonicalizeRepoRoot` of internal/session/repo_scope.go. An error is the constructor that names
-- the place where the code returns it.
pub mod Records
pub mod Refresh
pub mod Merge
pub mod Apply
use deep_agent_cli.Base.{
  ℕ, ◌≡◌, refl, ◌⊎◌, inl, inr, Bool, true, false, List, [], ◌∷◌, arith, if◌then◌else◌,
}
use deep_agent_cli.Text.{Text, text, eq}
use deep_agent_cli.Text.Trim.{trim}
use deep_agent_cli.Reply.{Reply, value, fault}
use deep_agent_cli.FilePath.{PathError, PathResult, normalize_relative_path}

pub data IndexError : Type 0 where
  session_id_required repo_root_required not_a_directory : IndexError
  embedder_required dims_not_positive dims_mismatch count_mismatch : IndexError
  scope_mismatch unsupported_action chunker_stopped : IndexError
  chunk_gap chunk_empty : Text → ℕ → IndexError
  bad_path : Text → PathError → IndexError
  dependency : Text → IndexError

pub data Result {ℓ} (A : Type ℓ) : Type ℓ where
  done : A → Result A
  failed : IndexError → Result A

module _ {ℓ} {A B : Type ℓ} where
  infixl 10 ◌>>=◌
  unfoldable pub ◌>>=◌ : Result A → (A → Result B) → Result B
  ◌>>=◌ (done a) f = f a
  ◌>>=◌ (failed e) f = failed e

  pub done-bind :
      (m : Result A) (f : A → Result B) (b : B)
      → (m >>= f) ≡ done b
      → (a : A) × (m ≡ done a) × (f a ≡ done b)
  unfolding ◌>>=◌
  done-bind (done a) f b h = (a, refl, h)
  done-bind (failed e) f b h = absurd (ground arith)

module _ {ℓ} {A : Type ℓ} where
  pub else-done :
      (b : Bool) (e : IndexError) (m : Result A) (a : A)
      → (if b then failed e else m) ≡ done a
      → (b ≡ false) × (m ≡ done a)
  else-done true e m a h = absurd (ground arith)
  else-done false e m a h = (refl, h)

  pub Result-cases : (m : Result A) → ((a : A) × (m ≡ done a)) ⊎ ((e : IndexError) × (m ≡ failed e))
  Result-cases (done a) = inl (a, refl)
  Result-cases (failed e) = inr (e, refl)

  pub done_injective : (a b : A) → done a ≡ done b → a ≡ b
  done_injective a b h = ground arith

-- the first element of a list that is still computed
unfoldable pub prepend {ℓ} : {A : Type ℓ} → A → Result (List A) → Result (List A)
unfolding ◌>>=◌
prepend a rest = rest >>= λ more. done (a ∷ more)

-- `err != nil` behind a call of a dependency
unfoldable pub of_reply {ℓ} : {A : Type ℓ} → Reply A → Result A
of_reply (value a) = done a
of_reply (fault m) = failed (dependency m)

of_path : Text → PathResult → Result Text
of_path path (PathResult.ok p) = done p
of_path path (PathResult.err e) = failed (bad_path path e)

-- `normalizeRelativePath` with its error
unfoldable pub relative : Text → Result Text
unfolding of_path
relative path = of_path path (normalize_relative_path path)

-- What the code asks of the file system and of crypto/sha256 with encoding/hex.
pub record Host : Type 0 where
  pub abs : Text → Reply Text
  pub eval_symlinks : Text → Reply Text
  pub is_dir : Text → Reply Bool
  pub read_file : Text → Reply Text
  pub sha256_hex : Text → Text

-- `CanonicalizeRepoRoot`
unfoldable pub canonicalize_repo_root : Host → Text → Result Text
unfolding ◌>>=◌ of_reply
canonicalize_repo_root host repo_root =
    if eq (trim repo_root) [] then failed repo_root_required else do
      abs ← of_reply (host.abs (trim repo_root))
      resolved ← of_reply (host.eval_symlinks abs)
      is_dir ← of_reply (host.is_dir resolved)
      if is_dir then done resolved else failed not_a_directory
