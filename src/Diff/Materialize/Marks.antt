-- ===== src/Diff/Materialize/Marks.antt =====
-- Marking a path as seen keeps the list free of repetitions.
use deep_agent_cli.Base.{
  ◌≡◌, sym, ◌∙◌, subst, ◌↔◌, ◌⊎◌, inl, inr, false≢true, [], ◌∷◌, Bool-cases, In, In-append_left,
  In-append_right, In-append_cases, Unique, Unique-append_one,
}
use deep_agent_cli.Text.{Text, member, member_iff}
use deep_agent_cli.Diff.Materialize.{Seen, visit}

-- The set holds what is listed, and nothing is listed twice.
pub record IsSeen (s : Seen) : Type 0 where
  pub agrees : (p : Text) → In p s.seen ↔ In p s.listed
  pub unique : Unique s.listed

pub visit-IsSeen : (path : Text) (s : Seen) → IsSeen s → IsSeen (visit path s)
unfolding visit
visit-IsSeen path s h = elim (Bool-cases (member path s.seen)) [
  | inl old ↦ rw old h
  | inr new ↦ rw new (record {
    agrees = λ p. (
      λ i. elim i [
        | inl e ↦ In-append_right p s.listed (path ∷ []) (inl e)
        | inr j ↦ In-append_left p s.listed (path ∷ []) ((h.agrees p).0 j)
      ],
      λ i. elim (In-append_cases p s.listed (path ∷ []) i) [
        | inl j ↦ inr ((h.agrees p).1 j)
        | inr j ↦ elim j [ inl e ↦ inl e | inr k ↦ absurd k ]
      ],
    );
    unique =
        Unique-append_one s.listed path h.unique
          (λ i. false≢true (sym new ∙ (member_iff path s.seen).1 ((h.agrees path).1 i)));
  })
]

pub In-visit :
    (p path : Text) (s : Seen)
    → IsSeen s
    → In p (visit path s).listed ↔ (In p s.listed ⊎ (p ≡ path))
unfolding visit
In-visit p path s h = elim (Bool-cases (member path s.seen)) [
  | inl old ↦ rw old (
    λ i. inl i,
    λ i. elim i [
      | inl j ↦ j
      | inr e ↦
          subst (λ q. In q s.listed) (sym e) ((h.agrees path).0 ((member_iff path s.seen).0 old))
    ],
  )
  | inr new ↦ rw new (
    λ i. elim (In-append_cases p s.listed (path ∷ []) i) [
      | inl j ↦ inl j
      | inr j ↦ elim j [ inl e ↦ inr e | inr k ↦ absurd k ]
    ],
    λ i. elim i [
      | inl j ↦ In-append_left p s.listed (path ∷ []) j
      | inr e ↦ In-append_right p s.listed (path ∷ []) (inl e)
    ],
  )
]
