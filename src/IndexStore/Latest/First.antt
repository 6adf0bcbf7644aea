-- ===== src/IndexStore/Latest/First.antt =====
-- The row that `selectLatestSnapshotSQL` of internal/indexstore/sync_store.go returns.
use deep_agent_cli.Base.{
  ℕ, ◌≡◌, refl, sym, ap, ◌∙◌, inl, inr, Bool, true, false, false≢true, Option, none, some, List, [],
  ◌∷◌, arith, if◌then◌else◌, Bool-cases, In,
}
use deep_agent_cli.Text.{Text}
use deep_agent_cli.IndexSync.{SnapshotRoot}
use deep_agent_cli.IndexStore.Rows.{in_scope}
use deep_agent_cli.IndexStore.Rows.Store.{IsStore, in_scope-parts, same_id}
use deep_agent_cli.IndexStore.Latest.{select_where, before, earlier, first_row}

module _ {A : Type 0} (test : A → Bool) where
  In-selected :
      (a r : A) (rs rest : List A)
      → (In a rest → In a rs × (test a ≡ true))
      → (c : Bool) → test r ≡ c
      → In a (if c then r ∷ rest else rest)
      → In a (r ∷ rs) × (test a ≡ true)
  In-selected a r rs rest k true e (inl f) = (inl f, ap test f ∙ e)
  In-selected a r rs rest k true e (inr h) = (inr (k h).0, (k h).1)
  In-selected a r rs rest k false e h = (inr (k h).0, (k h).1)

  pub In-select_where :
      (a : A) (rows : List A) → In a (select_where test rows) → In a rows × (test a ≡ true)
  unfolding select_where
  In-select_where a [] h = absurd h
  In-select_where a (r ∷ rs) h =
      In-selected a r rs (select_where test rs) (In-select_where a rs) (test r) refl h

  In-if : (a r : A) (rest : List A) (c : Bool) → In a rest → In a (if c then r ∷ rest else rest)
  In-if a r rest true h = inr h
  In-if a r rest false h = h

  pub select_where-In :
      (a : A) (rows : List A) → In a rows → test a ≡ true → In a (select_where test rows)
  unfolding select_where
  select_where-In a [] h t = absurd h
  select_where-In a (r ∷ rs) (inl e) t = rw (sym (ap test e) ∙ t) (inl e)
  select_where-In a (r ∷ rs) (inr h) t =
      In-if a r (select_where test rs) (test r) (select_where-In a rs h t)

some_injective : (a b : SnapshotRoot) → some a ≡ some b → a ≡ b
some_injective a b h = ground arith

-- What the first row is: one of the rows, and active if any of them is.
abbrev IsFirst : List SnapshotRoot → Option SnapshotRoot → Type 0
IsFirst rows none = (a : SnapshotRoot) → ¬ (In a rows)
IsFirst rows (some q) =
    In q rows × ((a : SnapshotRoot) → In a rows → a.is_active ≡ true → q.is_active ≡ true)

-- A row that is put before an active one is active; a row that an active one is not put before is
-- active.
before-active : (a b : SnapshotRoot) → before a b ≡ true → b.is_active ≡ true → a.is_active ≡ true
unfolding before
before-active a b h x = elim (Bool-cases a.is_active) [
  | inl e ↦ e
  | inr e ↦ absurd (false≢true (sym (rw (e, x) refl) ∙ h))
]

before-inactive :
    (a b : SnapshotRoot) → before a b ≡ false → a.is_active ≡ true → b.is_active ≡ true
unfolding before
before-inactive a b h x = elim (Bool-cases b.is_active) [
  | inl e ↦ e
  | inr e ↦ absurd (false≢true (sym h ∙ rw (e, x) refl))
]

module _ (r : SnapshotRoot) (rs : List SnapshotRoot) where
  IsFirst-if :
      (q : SnapshotRoot)
      → IsFirst rs (some q)
      → (c : Bool) → before q r ≡ c
      → IsFirst (r ∷ rs) (if c then some q else some r)
  IsFirst-if q h true e = (
    inr h.0,
    λ a i x. elim i [
      | inl f ↦ before-active q r e (sym (ap (λ y. y.is_active) f) ∙ x)
      | inr j ↦ h.1 a j x
    ],
  )
  IsFirst-if q h false e = (
    inl refl,
    λ a i x. elim i [
      | inl f ↦ sym (ap (λ y. y.is_active) f) ∙ x
      | inr j ↦ before-inactive q r e (h.1 a j x)
    ],
  )

  IsFirst-earlier : (f : Option SnapshotRoot) → IsFirst rs f → IsFirst (r ∷ rs) (earlier r f)
  unfolding earlier
  IsFirst-earlier none h = (
    inl refl,
    λ a i x. elim i [ inl f ↦ sym (ap (λ y. y.is_active) f) ∙ x | inr j ↦ absurd (h a j) ],
  )
  IsFirst-earlier (some q) h = IsFirst-if q h (before q r) refl

first_row-IsFirst : (rows : List SnapshotRoot) → IsFirst rows (first_row rows)
unfolding first_row
first_row-IsFirst [] = λ a i. i
first_row-IsFirst (r ∷ rs) = IsFirst-earlier r rs (first_row rs) (first_row-IsFirst rs)

module _ (session_id repo_root : Text) (next : ℕ) (rows : List SnapshotRoot) (h : IsStore next rows)
    (a : SnapshotRoot) where
  chosen :
      (f : Option SnapshotRoot)
      → IsFirst (select_where (in_scope session_id repo_root) rows) f
      → In a rows
      → a.is_active ≡ true
      → in_scope session_id repo_root a ≡ true
      → f ≡ some a
  chosen none k i x s = absurd (k a (select_where-In (in_scope session_id repo_root) a rows i s))
  chosen (some q) k i x s =
      let (j, t) = In-select_where (in_scope session_id repo_root) q rows k.0 in
      let (t0, t1) = in_scope-parts session_id repo_root q t in
      let (s0, s1) = in_scope-parts session_id repo_root a s in
      ap some (
        same_id q a rows h.distinct j i (
          h.one_active q a j i
            (k.1 a (select_where-In (in_scope session_id repo_root) a rows i s) x) x
            (t0 ∙ sym s0, t1 ∙ sym s1)))

  -- The active row of a scope is its latest one.
  pub first_row-active :
      In a rows
      → a.is_active ≡ true
      → in_scope session_id repo_root a ≡ true
      → first_row (select_where (in_scope session_id repo_root) rows) ≡ some a
  first_row-active =
      chosen (first_row (select_where (in_scope session_id repo_root) rows))
        (first_row-IsFirst (select_where (in_scope session_id repo_root) rows))
