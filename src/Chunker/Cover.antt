-- ===== src/Chunker/Cover.antt =====
-- The chunks of a document: numbered in order, each cut from one window, and together covering
-- every line.
use deep_agent_cli.Base.{
  ℕ, zero, suc, ◌+◌, ◌≤◌, ◌<◌, ◌≡◌, refl, ◌⊎◌, inl, inr, false, some, List, [], ◌∷◌, ◌++◌, arith,
  ltb, leb, Bool-cases, length, All, In, In-append_left, In-append_right, All-append,
}
use deep_agent_cli.Text.{Text, eq, eq_iff}
use deep_agent_cli.Text.Trim.{trim}
use deep_agent_cli.Chunker.{
  ChunkPolicy, Chunk, Limits, with_defaults, window_end, next_start, join, content_of, add_chunk,
  chunk_from, lines_of, replace_crlf, chunk_document_with_policy,
}
use deep_agent_cli.Chunker.Lines.{join-lines_of}
use deep_agent_cli.Chunker.Window.{
  IsLimits, with_defaults-IsLimits, Window, window_end-Window, next_start_bounds,
}

-- The indexes count up from `n`.
abbrev pub Numbered : ℕ → List Chunk → Type 0
Numbered n [] = Unit
Numbered n (c ∷ cs) = (c.index ≡ n) × Numbered (suc n) cs

-- A chunk is the trimmed text of a window, and not blank.
abbrev pub IsCut : Limits → List Text → Chunk → Type 0
IsCut p lines c =
    (start : ℕ) × (end : ℕ) × Window p lines start end
    × (c.content ≡ content_of start end lines)
    × (eq c.content [] ≡ false)

-- The line `i` lies in a window that is blank or is the content of a chunk.
abbrev pub IsCovered : Limits → List Text → List Chunk → ℕ → Type 0
IsCovered p lines cs i =
    (start : ℕ) × (end : ℕ) × Window p lines start end
    × (start ≤ i)
    × (i < end)
    × ((content_of start end lines ≡ [])
        ⊎ ((c : Chunk) × In c cs × (c.content ≡ content_of start end lines)))

Numbered-append :
    (n : ℕ) (cs : List Chunk) (c : Chunk)
    → Numbered n cs
    → c.index ≡ n + length cs
    → Numbered n (cs ++ (c ∷ []))
Numbered-append n [] c h e = (omega arith, tt)
Numbered-append n (x ∷ cs) c h e = (h.0, Numbered-append (suc n) cs c h.1 (omega arith))

-- What a round of the loop, or all of them, make of the chunks so far.
record Extends (p : Limits) (lines : List Text) (chunks cs : List Chunk) : Type 0 where
  keeps : (c : Chunk) → In c chunks → In c cs
  numbered : Numbered 0 chunks → Numbered 0 cs
  cut : All (IsCut p lines) chunks → All (IsCut p lines) cs

Extends-trans :
    (p : Limits) (lines : List Text) (a b c : List Chunk)
    → Extends p lines a b
    → Extends p lines b c
    → Extends p lines a c
Extends-trans p lines a b c f g = record {
  keeps = λ x i. g.keeps x (f.keeps x i);
  numbered = λ h. g.numbered (f.numbered h);
  cut = λ h. g.cut (f.cut h);
}

module _ (p : Limits) (lines : List Text) (start end : ℕ) (w : Window p lines start end)
    (chunks : List Chunk) where
  add_chunk-Extends : Extends p lines chunks (add_chunk (content_of start end lines) chunks)
  unfolding add_chunk
  add_chunk-Extends = elim (Bool-cases (eq (content_of start end lines) [])) [
    | inl e ↦ rw e (record { keeps = λ c i. i; numbered = λ h. h; cut = λ h. h })
    | inr e ↦ rw e (
        let c : Chunk = record { index = length chunks; content = content_of start end lines } in
        record {
          keeps = λ x i. In-append_left x chunks (c ∷ []) i;
          numbered = λ h. Numbered-append 0 chunks c h (omega arith);
          cut = λ h. All-append (IsCut p lines) chunks (c ∷ []) h ((start, end, w, refl, e), tt);
        })
  ]

  add_chunk-IsCovered :
      (i : ℕ)
      → start ≤ i
      → i < end
      → IsCovered p lines (add_chunk (content_of start end lines) chunks) i
  unfolding add_chunk
  add_chunk-IsCovered i a b = elim (Bool-cases (eq (content_of start end lines) [])) [
    | inl e ↦ (start, end, w, a, b, inl ((eq_iff (content_of start end lines) []).0 e))
    | inr e ↦
        let c : Chunk = record { index = length chunks; content = content_of start end lines } in
        (start, end, w, a, b, rw e (inr (c, In-append_right c chunks (c ∷ []) (inl refl), refl)))
  ]

IsCovered-wider :
    (p : Limits) (lines : List Text) (cs cs' : List Chunk) (i : ℕ)
    → ((c : Chunk) → In c cs → In c cs')
    → IsCovered p lines cs i
    → IsCovered p lines cs' i
IsCovered-wider p lines cs cs' i f (s, e, w, a, b, inl q) = (s, e, w, a, b, inl q)
IsCovered-wider p lines cs cs' i f (s, e, w, a, b, inr (c, j, q)) =
    (s, e, w, a, b, inr (c, f c j, q))

abbrev Covers : Limits → List Text → ℕ → List Chunk → List Chunk → Type 0
Covers p lines start chunks cs =
    Extends p lines chunks cs × ((i : ℕ) → start ≤ i → i < length lines → IsCovered p lines cs i)

-- With fuel for the lines that are left the loop ends, and covers them.
chunk_from-Covers :
    (fuel : ℕ) (p : Limits) (lines : List Text) (start : ℕ) (chunks : List Chunk)
    → IsLimits p
    → start ≤ length lines
    → length lines < fuel + start
    → (cs : List Chunk) × (chunk_from fuel p lines start chunks ≡ some cs)
      × Covers p lines start chunks cs
unfolding chunk_from
chunk_from-Covers zero p lines start chunks h b f = absurd (omega arith)
chunk_from-Covers (suc fuel) p lines start chunks h within f =
    elim (Bool-cases (leb (length lines) start)) [
      | inl past ↦ (
        chunks,
        rw past refl,
        (
          record { keeps = λ c i. i; numbered = λ n. n; cut = λ c. c },
          λ i a b. absurd (ground arith),
        ),
      )
      | inr left ↦
          let end = window_end p start lines in
          let w = window_end-Window p start lines h (ground arith) in
          let grown = add_chunk (content_of start end lines) chunks in
          let ext = add_chunk-Extends p lines start end w chunks in
          elim (Bool-cases (leb (length lines) end)) [
            | inl last ↦ (
              grown,
              rw (left, last) refl,
              (ext, λ i a b. add_chunk-IsCovered p lines start end w chunks i a (ground arith)),
            )
            | inr more ↦
                let next = next_start p start end in
                let (lo, hi) = next_start_bounds p start end w.begins in
                let (cs, e, covers) =
                  chunk_from-Covers fuel p lines next grown h (omega (arith, hi, w.ends))
                    (omega arith) in
                let (rest, cover) = covers in
                (
                  cs,
                  rw (left, more) e,
                  (
                    Extends-trans p lines chunks grown cs ext rest,
                    λ i a b. elim (Bool-cases (ltb i end)) [
                      | inl in_window ↦
                          IsCovered-wider p lines grown cs i rest.keeps
                            (add_chunk-IsCovered p lines start end w chunks i a (ground arith))
                      | inr behind ↦ cover i (ground arith) b
                    ],
                  ),
                )
          ]
    ]

-- A chunked document: its lines, joined, are its text with line feeds for line ends, its chunks are
-- numbered from 0, each is the text of a window of lines, and every line is covered.
pub record IsChunked (p : Limits) (normalized : Text) (cs : List Chunk) : Type 0 where
  pub lossless : join (lines_of normalized) ≡ normalized
  pub numbered : Numbered 0 cs
  pub cut : All (IsCut p (lines_of normalized)) cs
  pub covered : (i : ℕ) → i < length (lines_of normalized) → IsCovered p (lines_of normalized) cs i

-- Cutting any document with any policy ends, and a document that is not blank is then chunked
-- under the limits that the policy sets; a blank one has no chunks.
pub chunk_document_with_policy-IsChunked :
    (content : Text) (policy : ChunkPolicy)
    → (cs : List Chunk) × (chunk_document_with_policy content policy ≡ some cs)
      × (((trim (replace_crlf content) ≡ []) × (cs ≡ []))
          ⊎ IsChunked (with_defaults policy) (replace_crlf content) cs)
unfolding chunk_document_with_policy
chunk_document_with_policy-IsChunked content policy =
    let normalized = replace_crlf content in
    let lines = lines_of normalized in
    let p = with_defaults policy in
    elim (Bool-cases (eq (trim normalized) [])) [
      | inl blank ↦ ([], rw blank refl, inl ((eq_iff (trim normalized) []).0 blank, refl))
      | inr full ↦
          let (cs, e, covers) =
            chunk_from-Covers (suc (length lines)) p lines 0 [] (with_defaults-IsLimits policy)
              (omega arith) (omega arith) in
          let (ext, cover) = covers in
          (
            cs,
            rw full e,
            inr (record {
              lossless = join-lines_of normalized;
              numbered = ext.numbered tt;
              cut = ext.cut tt;
              covered = λ i h. cover i (omega arith) h;
            }),
          )
    ]
