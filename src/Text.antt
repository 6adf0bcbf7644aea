-- ===== src/Text.antt =====
-- Go strings as lists of bytes: equality, the order of `<` and `strings.Compare`, prefixes,
-- splitting and joining. `strings.TrimSpace` is in Text/Trim.antt.
pub mod Trim
use Prim.Native.Char.{code}
use Prim.Native.String.{String}
use deep_agent_cli.Base.{
  ℕ, ◌+◌, ◌≡◌, refl, ◌↔◌, Bool, true, false, ◌&&◌, ◌||◌, List, [], ◌∷◌, ◌++◌, arith, ltb, leb, ◌==◌,
  if◌then◌else◌, In,
}
use deep_agent_cli.Base.Sort.{IsOrder}

abbrev pub Text : Type 0
Text = List ℕ

-- The bytes of a literal. `String` has its own `[]` and `∷`.
abbrev pub text : String → Text
text String.[] = []
text (String.◌∷◌ c s) = code c ∷ text s

unfoldable pub eq : Text → Text → Bool
eq [] [] = true
eq [] (y ∷ ys) = false
eq (x ∷ xs) [] = false
eq (x ∷ xs) (y ∷ ys) = x == y && eq xs ys

pub eq_iff : (a b : Text) → (eq a b ≡ true) ↔ (a ≡ b)
unfolding eq
eq_iff [] [] = ground arith
eq_iff [] (y ∷ ys) = ground arith
eq_iff (x ∷ xs) [] = ground arith
eq_iff (x ∷ xs) (y ∷ ys) = ground (arith, eq_iff xs ys)

pub eq_refl : (a : Text) → eq a a ≡ true
eq_refl a = (eq_iff a a).1 refl

-- `a <= b`, byte by byte, a proper prefix first.
unfoldable pub le : Text → Text → Bool
le [] ys = true
le (x ∷ xs) [] = false
le (x ∷ xs) (y ∷ ys) = let rest = le xs ys in ltb x y || (x == y && rest)

le_total : (a b : Text) → le a b ≡ false → le b a ≡ true
unfolding le
le_total [] ys h = absurd (ground arith)
le_total (x ∷ xs) [] h = refl
le_total (x ∷ xs) (y ∷ ys) h = ground (arith, le_total xs ys)

le_trans : (a b c : Text) → le a b ≡ true → le b c ≡ true → le a c ≡ true
unfolding le
le_trans [] b c h k = refl
le_trans (x ∷ xs) [] c h k = absurd (ground arith)
le_trans (x ∷ xs) (y ∷ ys) [] h k = absurd (ground arith)
le_trans (x ∷ xs) (y ∷ ys) (z ∷ zs) h k = ground (arith, le_trans xs ys zs)

pub le_antisym : (a b : Text) → le a b ≡ true → le b a ≡ true → a ≡ b
unfolding le
le_antisym [] [] h k = refl
le_antisym [] (y ∷ ys) h k = absurd (ground arith)
le_antisym (x ∷ xs) [] h k = absurd (ground arith)
le_antisym (x ∷ xs) (y ∷ ys) h k = ground (arith, le_antisym xs ys)

pub le-IsOrder : IsOrder le
le-IsOrder = record { total = le_total; trans = le_trans }

-- `strings.HasPrefix(s, p)`
unfoldable pub has_prefix : Text → Text → Bool
has_prefix s [] = true
has_prefix [] (p ∷ ps) = false
has_prefix (x ∷ s) (p ∷ ps) = x == p && has_prefix s ps

pub has_prefix_iff : (s p : Text) → (has_prefix s p ≡ true) ↔ ((r : Text) × (s ≡ p ++ r))
unfolding has_prefix
has_prefix_iff s [] = (λ h. (s, refl), λ h. refl)
has_prefix_iff [] (p ∷ ps) = (λ h. absurd (ground arith), λ h. ground arith)
has_prefix_iff (x ∷ s) (p ∷ ps) = (
  λ h. let (r, e) = (has_prefix_iff s ps).0 (ground arith) in (r, ground arith),
  λ h. ground (arith, (has_prefix_iff s ps).1 (h.0, ground arith)),
)

-- `strings.ToLower` on the ASCII letters
unfoldable pub to_lower : Text → Text
to_lower [] = []
to_lower (c ∷ s) = (if leb 65 c && leb c 90 then c + 32 else c) ∷ to_lower s

-- `_, ok := set[key]` for a set of strings
unfoldable pub member : Text → List Text → Bool
member a [] = false
member a (x ∷ xs) = eq a x || member a xs

pub member_iff : (a : Text) (xs : List Text) → (member a xs ≡ true) ↔ In a xs
unfolding member
member_iff a [] = ground arith
member_iff a (x ∷ xs) = ground (arith, member_iff a xs, eq_iff a x)
