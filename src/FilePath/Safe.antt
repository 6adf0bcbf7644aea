-- ===== src/FilePath/Safe.antt =====
-- What `normalizeRelativePath` and `normalizeSnapshotPath` promise of the paths they return.
use deep_agent_cli.Base.{
  ◌≡◌, refl, sym, ◌∙◌, subst, inl, inr, Bool, true, false, not, ◌&&◌, ◌||◌, false≢true, List, [],
  ◌∷◌, arith, if◌then◌else◌, Bool-cases, All, All-map,
}
use mathlib.Core.List.{reverse_aux}
use deep_agent_cli.Text.{Text, eq, eq_iff}
use deep_agent_cli.Text.Trim.{trim}
use deep_agent_cli.FilePath.{
  split, join, dot, dot_dot, is_abs, push_part, push_parts, clean_parts, or_dot, clean, PathError,
  required, must_be_relative, escapes_root, PathResult, ok, err, has_dot_dot, checked,
  normalize_relative_path, to_slashes, normalize_snapshot_path,
}
use deep_agent_cli.FilePath.Split.{NoSlash, split-NoSlash, split-join}

-- A part of a path that names something: not empty, not ".", and one part only.
pub record Names (p : Text) : Type 0 where
  pub not_empty : eq p [] ≡ false
  pub not_dot : eq p dot ≡ false
  pub no_slash : NoSlash p

-- A path below its root: relative, and each of its parts is a name and not "..".
pub record IsBelow (path : Text) : Type 0 where
  pub relative : is_abs path ≡ false
  pub named : All Names (split path)
  pub inside : has_dot_dot (split path) ≡ false

skipped :
    (rooted : Bool) (p : Text) (stack : List Text)
    → All Names stack
    → (eq p [] || eq p dot) ≡ true
    → All Names (push_part rooted p stack)
unfolding push_part
skipped rooted p [] h e = rw e tt
skipped rooted p (top ∷ stack) h e = rw e h

pushed :
    (rooted : Bool) (p : Text) (stack : List Text)
    → All Names stack
    → (eq p [] || eq p dot) ≡ false
    → Names p
    → All Names (push_part rooted p stack)
unfolding push_part
pushed rooted p [] h q k = elim (Bool-cases (eq p dot_dot && rooted)) [
  | inl e ↦ rw (q, e) tt
  | inr e ↦ rw (q, e) (k, tt)
]
pushed rooted p (top ∷ stack) h q k = elim (Bool-cases (eq p dot_dot && not (eq top dot_dot))) [
  | inl e ↦ rw (q, e) h.1
  | inr e ↦ rw (q, e) (k, h)
]

left_false : (a b : Bool) → (a || b) ≡ false → (a ≡ false) × (b ≡ false)
left_false a b h = ground arith

push_part-Names :
    (rooted : Bool) (p : Text) (stack : List Text)
    → NoSlash p
    → All Names stack
    → All Names (push_part rooted p stack)
push_part-Names rooted p stack n h = elim (Bool-cases (eq p [] || eq p dot)) [
  | inl e ↦ skipped rooted p stack h e
  | inr e ↦
      let (a, b) = left_false (eq p []) (eq p dot) e in
      pushed rooted p stack h e record { not_empty = a; not_dot = b; no_slash = n }
]

push_parts-Names :
    (rooted : Bool) (ps stack : List Text)
    → All NoSlash ps
    → All Names stack
    → All Names (push_parts rooted ps stack)
unfolding push_parts
push_parts-Names rooted [] stack n h = h
push_parts-Names rooted (p ∷ ps) stack n h =
    push_parts-Names rooted ps (push_part rooted p stack) n.1 (push_part-Names rooted p stack n.0 h)

All-reverse_aux :
    (xs done : List Text) → All Names xs → All Names done → All Names (reverse_aux xs done)
All-reverse_aux [] done h k = k
All-reverse_aux (x ∷ xs) done h k = All-reverse_aux xs (x ∷ done) h.1 (h.0, k)

clean_parts-Names : (path : Text) → All Names (clean_parts path)
unfolding clean_parts
clean_parts-Names path =
    All-reverse_aux (push_parts (is_abs path) (split path) []) []
      (push_parts-Names (is_abs path) (split path) [] (split-NoSlash path) tt) tt

-- joined names
join_first :
    (p : Text) (ps : List Text)
    → All Names (p ∷ ps)
    → (or_dot (join (p ∷ ps)) ≡ join (p ∷ ps)) × (is_abs (join (p ∷ ps)) ≡ false)
unfolding join is_abs eq
join_first [] ps h = absurd (false≢true (sym (h.0.not_empty)))
join_first (c ∷ p) [] h = (refl, h.0.no_slash.0)
join_first (c ∷ p) (q ∷ ps) h = (refl, h.0.no_slash.0)

else-ok :
    (b : Bool) (e : PathError) (m : PathResult) (q : Text)
    → (if b then err e else m) ≡ ok q
    → (b ≡ false) × (m ≡ ok q)
else-ok true e m q h = absurd (ground arith)
else-ok false e m q h = (refl, h)

ok_injective : (a b : Text) → ok a ≡ ok b → a ≡ b
ok_injective a b h = ground arith

joined :
    (ps : List Text) (q : Text)
    → All Names ps
    → or_dot (join ps) ≡ q
    → eq q dot ≡ false
    → has_dot_dot (split q) ≡ false
    → IsBelow q
unfolding join
joined [] q h e d g = absurd (false≢true (sym d ∙ (eq_iff q dot).1 (sym e)))
joined (p ∷ ps) q h e d g =
    let (same, relative) = join_first p ps h in
    let to_q = sym same ∙ e in
    subst IsBelow to_q record {
      relative = relative;
      named = subst (All Names) (sym (split-join p ps (All-map (λ a n. n.no_slash) (p ∷ ps) h))) h;
      inside = subst (λ t. has_dot_dot (split t) ≡ false) (sym to_q) g;
    }

checked-IsBelow : (path q : Text) → checked path ≡ ok q → IsBelow q
unfolding checked clean
checked-IsBelow path q h =
    let (a, h1) = else-ok (is_abs path) must_be_relative _ q h in
    let (d, h2) = else-ok (eq (clean path) dot) required _ q h1 in
    let (g, h3) = else-ok (has_dot_dot (split (clean path))) escapes_root _ q h2 in
    let e : clean path ≡ q = ok_injective (clean path) q h3 in
    joined (clean_parts path) q (clean_parts-Names path) (sym (rw (a, clean) refl) ∙ e)
      (subst (λ t. eq t dot ≡ false) e d) (subst (λ t. has_dot_dot (split t) ≡ false) e g)

-- A path that `normalizeRelativePath` returns is relative, and each of its parts is a name other
-- than "." and "..": joined to a root it stays below the root.
pub normalize_relative_path-IsBelow :
    (path q : Text) → normalize_relative_path path ≡ ok q → IsBelow q
unfolding normalize_relative_path
normalize_relative_path-IsBelow path q h =
    let (_, h1) = else-ok (eq (trim path) []) required _ q h in checked-IsBelow (trim path) q h1

-- The same holds of a path that `normalizeSnapshotPath` returns.
pub normalize_snapshot_path-IsBelow :
    (path q : Text) → normalize_snapshot_path path ≡ ok q → IsBelow q
unfolding normalize_snapshot_path
normalize_snapshot_path-IsBelow path q h =
    let (_, h1) = else-ok (eq (trim path) []) required _ q h in
    checked-IsBelow (to_slashes (trim path)) q h1
