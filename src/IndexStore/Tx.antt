-- ===== src/IndexStore/Tx.antt =====
-- Transactions of internal/indexstore: a chain of statements that stops at the first error, and what
-- `beginTx`, `Commit` and the deferred `rollbackTx` make of it.
pub mod Ensures
use deep_agent_cli.Base.{ℕ, suc, Option, none, some, List, [], ◌∷◌}
use deep_agent_cli.Text.{Text, text}
use deep_agent_cli.IndexSync.{Time}
use deep_agent_cli.IndexStore.Tables.{Tables, StoreError, statement, Result, ok, err, Env}

-- what some statements leave: the number of the next one and the tables, or an error
pub data Step (A : Type 0) : Type 0 where
  done : A → ℕ → Tables → Step A
  broken : StoreError → Step A

abbrev pub Tx : Type 0 → Type 0
Tx A = Env → ℕ → Tables → Step A

abbrev pub pure : {A : Type 0} → A → Tx A
pure a env n t = done a n t

unfoldable pub and_then : {A B : Type 0} → (A → Tx B) → Env → Step A → Step B
and_then f env (done a n t) = f a env n t
and_then f env (broken e) = broken e

infixl 5 ◌>>=◌ ◌>>◌
abbrev pub ◌>>=◌ : {A B : Type 0} → Tx A → (A → Tx B) → Tx B
m >>= f = λ env n t. and_then f env (m env n t)

abbrev pub ◌>>◌ : {A B : Type 0} → Tx A → Tx B → Tx B
m >> k = m >>= λ _. k

-- `time.Now().UTC()`
abbrev pub time_now : Tx Time
time_now env n t = done (env.clock n) n t

-- what a statement that may fail leaves
abbrev pub executed : (Text → StoreError) → ℕ → Tables → Option Text → Step (Unit {0})
executed error n t none = done tt (suc n) t
executed error n t (some m) = broken (error m)

-- `tx.Exec`: the statement fails, or changes the tables
unfoldable pub exec : (Text → StoreError) → (Env → Tables → Tables) → Tx (Unit {0})
exec error change env n t = executed error n (change env t) (env.fails n)

abbrev pub returned :
    {A : Type 0} → (Text → StoreError) → ℕ → Option A × Tables → Option Text → Step A
returned error n r (some m) = broken (error m)
returned error n (none, t) none = broken (error (text "no rows in result set"))
returned error n (some a, t) none = done a (suc n) t

-- `tx.QueryRow` with `Scan`, of a statement that returns rows
unfoldable pub query_row :
    {A : Type 0} → (Text → StoreError) → (Env → Tables → Option A × Tables) → Tx A
query_row error change env n t = returned error n (change env t) (env.fails n)

-- `for i, x := range xs`, from an index on
unfoldable pub each : {A : Type 0} → (ℕ → A → Tx (Unit {0})) → ℕ → List A → Tx (Unit {0})
unfolding and_then
each f i [] = pure tt
each f i (x ∷ xs) = f i x >> each f (suc i) xs

module _ {A : Type 0} (begin_error commit_error : Text) (env : Env) (t : Tables) where
  abbrev pub committed : A → Tables → Option Text → Tables × Result A
  committed a t' none = (t', ok a)
  committed a t' (some m) = (t, err (statement commit_error m))

  abbrev pub finish : Step A → Tables × Result A
  finish (broken e) = (t, err e)
  finish (done a n t') = committed a t' (env.fails n)

  abbrev pub begun : Tx A → Option Text → Tables × Result A
  begun body (some m) = (t, err (statement begin_error m))
  begun body none = finish (body env 1 t)

  -- a transaction from its begin to its commit or rollback
  unfoldable pub transact : Tx A → Tables × Result A
  transact body = begun body (env.fails 0)
