-- ===== src/IndexStore/Tx/Ensures.antt =====
-- What holds after the statements of a transaction of internal/indexstore, when none of them fails.
use deep_agent_cli.Base.{ℕ, suc, ◌≡◌, refl, Option, none, some, List, [], ◌∷◌}
use deep_agent_cli.Text.{Text}
use deep_agent_cli.IndexStore.Tables.{Tables, StoreError, statement, Result, ok, err, Env}
use deep_agent_cli.IndexStore.Tx.{
  Step, done, broken, Tx, and_then, executed, exec, returned, query_row, each, committed, finish,
  begun, transact,
}

abbrev pub Ensures : {A : Type 0} → (A → Tables → Type 0) → Step A → Type 0
Ensures Q (done a n t) = Q a t
Ensures Q (broken e) = Unit

module _ {A B : Type 0} (P : A → Tables → Type 0) (Q : B → Tables → Type 0) (env : Env)
    (f : A → Tx B) where
  pub Ensures-and_then :
      (m : Step A)
      → Ensures P m
      → ((a : A) (n : ℕ) (t : Tables) → P a t → Ensures Q (f a env n t))
      → Ensures Q (and_then f env m)
  unfolding and_then
  Ensures-and_then (done a n t) h k = k a n t h
  Ensures-and_then (broken e) h k = tt

module _ (Q : Unit {0} → Tables → Type 0) (env : Env) (error : Text → StoreError) (n : ℕ) where
  executed-Ensures : (t : Tables) (f : Option Text) → Q tt t → Ensures Q (executed error n t f)
  executed-Ensures t none h = h
  executed-Ensures t (some m) h = tt

  pub Ensures-exec :
      (change : Env → Tables → Tables) (t : Tables)
      → Q tt (change env t)
      → Ensures Q (exec error change env n t)
  unfolding exec
  Ensures-exec change t h = executed-Ensures (change env t) (env.fails n) h

module _ {A : Type 0} (Q : A → Tables → Type 0) (env : Env) (error : Text → StoreError)
    (n : ℕ) where
  Returns : Option A × Tables → Type 0
  Returns (none, t) = Unit
  Returns (some a, t) = Q a t

  returned-Ensures :
      (r : Option A × Tables) (f : Option Text) → Returns r → Ensures Q (returned error n r f)
  unfolding Returns
  returned-Ensures r (some m) h = tt
  returned-Ensures (none, t) none h = tt
  returned-Ensures (some a, t) none h = h

  Returns-of : (r : Option A × Tables) → ((a : A) → r.0 ≡ some a → Q a r.1) → Returns r
  unfolding Returns
  Returns-of (none, t) h = tt
  Returns-of (some a, t) h = h a refl

  pub Ensures-query_row :
      (change : Env → Tables → Option A × Tables) (t : Tables)
      → ((a : A) → (change env t).0 ≡ some a → Q a (change env t).1)
      → Ensures Q (query_row error change env n t)
  unfolding query_row
  Ensures-query_row change t h =
      returned-Ensures (change env t) (env.fails n) (Returns-of (change env t) h)

module _ {A : Type 0} (P : Tables → Type 0) (env : Env) (f : ℕ → A → Tx (Unit {0})) where
  pub Ensures-each :
      ((i : ℕ) (a : A) (n : ℕ) (t : Tables) → P t → Ensures (λ _. P) (f i a env n t))
      → (i : ℕ) (xs : List A) (n : ℕ) (t : Tables) → P t
      → Ensures (λ _. P) (each f i xs env n t)
  unfolding each
  Ensures-each k i [] n t h = h
  Ensures-each k i (x ∷ xs) n t h =
      Ensures-and_then (λ _. P) (λ _. P) env (λ _. each f (suc i) xs) (f i x env n t) (k i x n t h)
        (λ u n' t' h'. Ensures-each k (suc i) xs n' t' h')

-- A transaction: it fails and leaves the tables, or it succeeds with what its statements ensure.
pub data Transacted {A : Type 0} (Q : A → Tables → Type 0) (t : Tables)
    : Tables → Result A → Type 0 where
  rolled_back : (e : StoreError) → Transacted Q t t (err e)
  committed_as : (a : A) (t' : Tables) → Q a t' → Transacted Q t t' (ok a)

abbrev pub EndsAs : {A : Type 0} → (A → Tables → Type 0) → Tables → Tables × Result A → Type 0
EndsAs Q t (t', r) = Transacted Q t t' r

module _ {A : Type 0} (Q : A → Tables → Type 0) (begin_error commit_error : Text) (env : Env)
    (t : Tables) where
  committed-Transacted :
      (a : A) (t' : Tables) (f : Option Text)
      → Q a t'
      → EndsAs Q t (committed begin_error commit_error env t a t' f)
  committed-Transacted a t' none h = committed_as a t' h
  committed-Transacted a t' (some m) h = rolled_back (statement commit_error m)

  finish-Transacted :
      (m : Step A) → Ensures Q m → EndsAs Q t (finish begin_error commit_error env t m)
  finish-Transacted (broken e) h = rolled_back e
  finish-Transacted (done a n t') h = committed-Transacted a t' (env.fails n) h

  begun-Transacted :
      (body : Tx A) (f : Option Text)
      → Ensures Q (body env 1 t)
      → EndsAs Q t (begun begin_error commit_error env t body f)
  begun-Transacted body (some m) h = rolled_back (statement begin_error m)
  begun-Transacted body none h = finish-Transacted (body env 1 t) h

  pub transact-Transacted :
      (body : Tx A)
      → Ensures Q (body env 1 t)
      → EndsAs Q t (transact begin_error commit_error env t body)
  unfolding transact
  transact-Transacted body h = begun-Transacted body (env.fails 0) h

pub Ensures-map :
    {A : Type 0} (P Q : A → Tables → Type 0)
    → ((a : A) (t : Tables) → P a t → Q a t)
    → (m : Step A) → Ensures P m
    → Ensures Q m
Ensures-map P Q f (done a n t) h = f a t h
Ensures-map P Q f (broken e) h = tt
