-- ===== src/Text/Trim.antt =====
-- `strings.TrimSpace` on bytes: the white space of Unicode, in UTF-8, at both ends.
use deep_agent_cli.Base.{
  ℕ, zero, suc, ◌<◌, ◌≡◌, refl, sym, ap, ◌∙◌, inl, inr, Bool, ◌&&◌, ◌||◌, List, [], ◌∷◌, ◌++◌,
  reverse, reverse-append, reverse-reverse, arith, leb, ◌==◌, if◌then◌else◌, ℕ-cases,
}

-- White space of one, of two and of three bytes.
abbrev is_space : ℕ → Bool
is_space a = (leb 9 a && leb a 13) || a == 32

abbrev is_space₂ : ℕ → ℕ → Bool
is_space₂ a b = a == 0xc2 && (b == 0x85 || b == 0xa0)

abbrev is_space₃ : ℕ → ℕ → ℕ → Bool
is_space₃ a b c =
    (a == 0xe1 && b == 0x9a && c == 0x80)
    || (a == 0xe2
        && b == 0x80
        && ((leb 0x80 c && leb c 0x8a) || c == 0xa8 || c == 0xa9 || c == 0xaf))
    || (a == 0xe2 && b == 0x81 && c == 0x9f)
    || (a == 0xe3 && b == 0x80 && c == 0x80)

-- The length in bytes of the space that the text begins with, 0 if it begins with none.
leading : List ℕ → ℕ
leading [] = 0
leading (a ∷ []) = if is_space a then 1 else 0
leading (a ∷ b ∷ []) = if is_space a then 1 else if is_space₂ a b then 2 else 0
leading (a ∷ b ∷ c ∷ r) =
    if is_space a then 1 else if is_space₂ a b then 2 else if is_space₃ a b c then 3 else 0

-- The same for the space that a text ends with, given in reverse.
trailing : List ℕ → ℕ
trailing [] = 0
trailing (a ∷ []) = if is_space a then 1 else 0
trailing (a ∷ b ∷ []) = if is_space a then 1 else if is_space₂ b a then 2 else 0
trailing (a ∷ b ∷ c ∷ r) =
    if is_space a then 1 else if is_space₂ b a then 2 else if is_space₃ c b a then 3 else 0

-- Drop what `width` finds, again and again; the number counts the bytes of a space still to drop.
strip : (List ℕ → ℕ) → ℕ → List ℕ → List ℕ
strip width n [] = []
strip width zero (x ∷ xs) = elim (width (x ∷ xs)) [ zero ↦ x ∷ xs | suc k ↦ strip width k xs ]
strip width (suc n) (x ∷ xs) = strip width n xs

trim_left : List ℕ → List ℕ
trim_left s = strip leading 0 s

trim_right : List ℕ → List ℕ
trim_right s = reverse (strip trailing 0 (reverse s))

-- `strings.TrimSpace`
unfoldable pub trim : List ℕ → List ℕ
unfolding leading trailing strip trim_left trim_right
trim s = trim_right (trim_left s)

-- What `strip` leaves begins with no space.
module _ (width : List ℕ → ℕ) (width_nil : width [] ≡ 0) where
  strip_done : (n : ℕ) (s : List ℕ) → width (strip width n s) ≡ 0
  unfolding strip
  strip_done n [] = width_nil
  strip_done zero (x ∷ xs) = elim (ℕ-cases (width (x ∷ xs))) [
    | inl e ↦ rw (e, strip) e
    | inr (k, e) ↦ rw (e, strip) (strip_done k xs)
  ]
  strip_done (suc n) (x ∷ xs) = strip_done n xs

  strip_none : (s : List ℕ) → width s ≡ 0 → strip width 0 s ≡ s
  unfolding strip
  strip_none [] h = refl
  strip_none (x ∷ xs) h = rw (h, strip) refl

-- What `strip` leaves is a suffix.
strip_suffix : (width : List ℕ → ℕ) (n : ℕ) (s : List ℕ) → (p : List ℕ) × (s ≡ p ++ strip width n s)
unfolding strip
strip_suffix width n [] = ([], refl)
strip_suffix width zero (x ∷ xs) = elim (ℕ-cases (width (x ∷ xs))) [
  | inl e ↦ ([], rw (e, strip) refl)
  | inr (k, e) ↦ let (p, q) = strip_suffix width k xs in (x ∷ p, rw (e, strip) (ap (λ l. x ∷ l) q))
]
strip_suffix width (suc n) (x ∷ xs) =
    let (p, e) = strip_suffix width n xs in (x ∷ p, ap (λ l. x ∷ l) e)

-- Cutting a text short opens no space at its front.
leading-append : (p r : List ℕ) → leading (p ++ r) ≡ 0 → leading p ≡ 0
unfolding leading
leading-append [] r h = refl
leading-append (a ∷ []) [] h = ground arith
leading-append (a ∷ []) (x ∷ []) h = ground arith
leading-append (a ∷ []) (x ∷ y ∷ r) h = ground arith
leading-append (a ∷ b ∷ []) [] h = ground arith
leading-append (a ∷ b ∷ []) (x ∷ r) h = ground arith
leading-append (a ∷ b ∷ c ∷ p) r h = h

reverse-eq-append : (s t u : List ℕ) → reverse s ≡ t ++ u → s ≡ reverse u ++ reverse t
reverse-eq-append s t u h = sym (reverse-reverse s) ∙ ap reverse h ∙ reverse-append t u

trim_right-prefix : (s : List ℕ) → (r : List ℕ) × (s ≡ trim_right s ++ r)
unfolding trim_right
trim_right-prefix s =
    let (p, e) = strip_suffix trailing 0 (reverse s) in
    (reverse p, reverse-eq-append s p (strip trailing 0 (reverse s)) e)

leading-trim : (s : List ℕ) → leading (trim s) ≡ 0
unfolding trim
leading-trim s =
    let (r, e) = trim_right-prefix (trim_left s) in
    leading-append (trim s) r (ap leading (sym e) ∙ strip_done leading refl 0 s)

trailing-trim : (s : List ℕ) → trailing (reverse (trim s)) ≡ 0
unfolding trim
trailing-trim s =
    ap trailing (reverse-reverse (strip trailing 0 (reverse (trim_left s))))
    ∙ strip_done trailing refl 0 (reverse (trim_left s))

-- Trimming twice is trimming once.
pub trim-trim : (s : List ℕ) → trim (trim s) ≡ trim s
unfolding trim
trim-trim s =
    ap trim_right (strip_none leading refl (trim s) (leading-trim s))
    ∙ ap reverse (strip_none trailing refl (reverse (trim s)) (trailing-trim s))
    ∙ reverse-reverse (trim s)

trim-fixed : (s : List ℕ) → leading s ≡ 0 → trailing (reverse s) ≡ 0 → trim s ≡ s
unfolding trim
trim-fixed s h k =
    ap trim_right (strip_none leading refl s h)
    ∙ ap reverse (strip_none trailing refl (reverse s) k)
    ∙ reverse-reverse s

leading_bracket : (s : List ℕ) → leading (91 ∷ s) ≡ 0
unfolding leading
leading_bracket [] = refl
leading_bracket (b ∷ []) = refl
leading_bracket (b ∷ c ∷ r) = refl

trailing_bracket : (s : List ℕ) → trailing (93 ∷ s) ≡ 0
unfolding trailing
trailing_bracket [] = refl
trailing_bracket (b ∷ []) = ground arith
trailing_bracket (b ∷ c ∷ r) = ground arith

-- A text in brackets has no space around it.
pub trim_brackets : (s : List ℕ) → trim (91 ∷ (s ++ (93 ∷ []))) ≡ 91 ∷ (s ++ (93 ∷ []))
trim_brackets s =
    trim-fixed (91 ∷ (s ++ (93 ∷ []))) (leading_bracket (s ++ (93 ∷ [])))
      (ap trailing (reverse-append (91 ∷ s) (93 ∷ [])) ∙ trailing_bracket (reverse (91 ∷ s)))

pub trim_one : (c : ℕ) → 32 < c → trim (c ∷ []) ≡ c ∷ []
unfolding leading trailing
trim_one c h = trim-fixed (c ∷ []) (ground arith) (ground arith)
