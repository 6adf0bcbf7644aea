-- ===== src/Chunker/Window.antt =====
-- The bounds of one window of lines.
use deep_agent_cli.Base.{
  ℕ, zero, suc, ◌+◌, ◌-◌, ◌≤◌, ◌<◌, ◌≡◌, refl, ◌⊎◌, inl, inr, Bool, ◌||◌, List, [], ◌∷◌, arith, ltb,
  leb, Bool-cases, length, take, drop, length-append, length-drop,
}
use deep_agent_cli.Text.{Text}
use deep_agent_cli.Base.Int.{ℤ, pos, negsuc}
use deep_agent_cli.Chunker.{
  ChunkPolicy, Limits, with_defaults, window, window_end, next_start, join, slice, positive_or,
}

-- What `withDefaults` guarantees.
pub record IsLimits (p : Limits) : Type 0 where
  pub chars : 0 < p.max_chars
  pub lines : 0 < p.max_lines
  pub overlap : p.overlap_lines < p.max_lines

positive : (n : ℕ) (x : ℤ) → 0 < n → 0 < positive_or n x
positive n (pos zero) h = h
positive n (pos (suc k)) h = omega arith
positive n (negsuc k) h = h

pub with_defaults-IsLimits : (p : ChunkPolicy) → IsLimits (with_defaults p)
unfolding with_defaults
with_defaults-IsLimits p =
    let a = positive 1200 p.max_chars (omega arith) in
    let b = positive 40 p.max_lines (omega arith) in
    record { chars = a; lines = b; overlap = ground arith }

-- Whether the next line would pass a limit, and whether a limit is reached with it.
abbrev over : Limits → ℕ → ℕ → Bool
over p next_chars next_lines = ltb p.max_chars next_chars || ltb p.max_lines next_lines

abbrev full : Limits → ℕ → ℕ → Bool
full p next_chars next_lines = leb p.max_chars next_chars || leb p.max_lines next_lines

-- Once a line is taken, the loop stays within both limits.
window_more :
    (p : Limits) (taken chars : ℕ) (ls : List Text)
    → 0 < taken
    → taken ≤ p.max_lines
    → chars ≤ p.max_chars
    → (m : ℕ) × (window p taken chars ls ≡ taken + m)
      × (m ≤ length ls)
      × (taken + m ≤ p.max_lines)
      × (chars + length (join (take m ls)) ≤ p.max_chars)
unfolding window join
window_more p taken chars [] a b c = (0, omega arith, omega arith, omega arith, omega arith)
window_more p taken chars (l ∷ ls) a b c =
    let next = chars + length l in
    elim (Bool-cases (over p next (taken + 1))) [
      | inl o ↦ (0, ground arith, omega arith, omega arith, omega arith)
      | inr o ↦ elim (Bool-cases (full p next (taken + 1))) [
        | inl f ↦ (1, ground arith, omega arith, ground arith, ground (arith, length-append l []))
        | inr f ↦
            let (m, e, x, y, z) =
              window_more p (suc taken) next ls (omega arith) (ground arith) (ground arith) in
            (
              suc m,
              ground (arith, e),
              omega arith,
              omega arith,
              omega (arith, length-append l (join (take m ls))),
            )
      ]
    ]

-- The window that begins at `start` and ends before `end`: not empty, within the lines, of at most
-- `max_lines` lines, and of at most `max_chars` bytes unless it is a single line.
pub record Window (p : Limits) (lines : List Text) (start end : ℕ) : Type 0 where
  pub begins : start < end
  pub ends : end ≤ length lines
  pub fits_lines : end ≤ start + p.max_lines
  pub fits_chars : (end ≡ start + 1) ⊎ (length (join (slice start end lines)) ≤ p.max_chars)

window_first :
    (p : Limits) (ls : List Text)
    → IsLimits p
    → 0 < length ls
    → (n : ℕ) × (window p 0 0 ls ≡ n)
      × (0 < n)
      × (n ≤ length ls)
      × (n ≤ p.max_lines)
      × ((n ≡ 1) ⊎ (length (join (take n ls)) ≤ p.max_chars))
unfolding window join
window_first p [] h k = absurd (omega arith)
window_first p (l ∷ ls) h k = elim (Bool-cases (full p (length l) 1)) [
  | inl f ↦ (1, ground arith, omega arith, omega arith, omega (arith, h.lines), inl refl)
  | inr f ↦
      let (m, e, x, y, z) =
        window_more p 1 (length l) ls (omega arith) (omega (arith, h.lines)) (ground arith) in
      (
        suc m,
        ground (arith, e),
        omega arith,
        omega arith,
        omega arith,
        inr (omega (arith, length-append l (join (take m ls)))),
      )
]

-- The inner loop of a round ends a window.
pub window_end-Window :
    (p : Limits) (start : ℕ) (lines : List Text)
    → IsLimits p
    → start < length lines
    → Window p lines start (window_end p start lines)
unfolding window_end
window_end-Window p start lines h k =
    let ls = drop start lines in
    let (n, e, a, b, c, d) = window_first p ls h (omega (arith, length-drop start lines)) in
    let end : window_end p start lines ≡ start + n = ground (arith, e) in
    let span : window_end p start lines - start ≡ n = omega (arith, end) in
    record {
      begins = omega (arith, end);
      ends = omega (arith, end, length-drop start lines);
      fits_lines = omega (arith, end);
      fits_chars = elim d [ inl q ↦ inl (omega (arith, end)) | inr q ↦ inr (rw span q) ];
    }

-- The next round begins behind the start of this one, and not behind its end.
pub next_start_bounds :
    (p : Limits) (start end : ℕ)
    → start < end
    → (start < next_start p start end) × (next_start p start end ≤ end)
unfolding next_start
next_start_bounds p start end h = ground arith
