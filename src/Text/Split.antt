-- ===== src/Text/Split.antt =====
-- `split` reads back the parts that were joined by the separator.
use msgbus.Prelude.{
  ℕ, ◌≡◌, refl, ◌∙◌, ap, subst, false, List, [], ◌∷◌, ◌++◌, arith, ◌==◌, Bool-cases, inl, inr, All,
}
use msgbus.Text.{Str, contains, split, push_front}

pub split-last : (sep : ℕ) (a : Str) → contains a sep ≡ false → split sep a ≡ a ∷ []
unfolding split contains
split-last sep [] h = refl
split-last sep (x ∷ a) h = ground (arith, split-last sep a)

pub split-part :
    (sep : ℕ) (a b : Str) → contains a sep ≡ false → split sep (a ++ sep ∷ b) ≡ a ∷ split sep b
unfolding split contains
split-part sep [] b h = ground arith
split-part sep (x ∷ a) b h = ground (arith, split-part sep a b)

-- The pieces with the separator between them.
abbrev pub join : ℕ → List Str → Str
join sep [] = []
join sep (p ∷ []) = p
join sep (p ∷ q ∷ ps) = p ++ sep ∷ join sep (q ∷ ps)

-- there is always a piece
split-cons : (sep : ℕ) (s : Str) → (p : Str) × (ps : List Str) × (split sep s ≡ p ∷ ps)
unfolding split
split-cons sep [] = ([], [], refl)
split-cons sep (c ∷ s) =
    let (p, ps, e) = split-cons sep s in
    elim (Bool-cases (c == sep)) [
      | inl cut ↦ ([], p ∷ ps, rw (e, cut))
      | inr kept ↦ (c ∷ p, ps, rw (e, kept))
    ]

join-push_front :
    (sep c : ℕ) (p : Str) (ps : List Str) → join sep (push_front c (p ∷ ps)) ≡ c ∷ join sep (p ∷ ps)
join-push_front sep c p [] = refl
join-push_front sep c p (q ∷ ps) = refl

-- Joining the pieces gives the text back.
pub join-split : (sep : ℕ) (s : Str) → join sep (split sep s) ≡ s
unfolding split
join-split sep [] = refl
join-split sep (c ∷ s) =
    let (p, ps, e) = split-cons sep s in
    let ih : join sep (p ∷ ps) ≡ s = rw (← e) (join-split sep s) in
    elim (Bool-cases (c == sep)) [
      | inl cut ↦ let same : c ≡ sep = ground arith in rw (cut, e, ih, same)
      | inr kept ↦ rw (kept, e) (join-push_front sep c p ps ∙ ap (λ t. c ∷ t) ih)
    ]

-- No piece holds the separator.
pub split-All : (sep : ℕ) (s : Str) → All (λ p. contains p sep ≡ false) (split sep s)
unfolding split contains
split-All sep [] = (refl, tt)
split-All sep (c ∷ s) =
    let (p, ps, e) = split-cons sep s in
    let ih : All (λ q. contains q sep ≡ false) (p ∷ ps) =
      subst (All (λ q. contains q sep ≡ false)) e (split-All sep s) in
    elim (Bool-cases (c == sep)) [
      | inl cut ↦ rw (cut, e) (refl, ih)
      | inr kept ↦ rw (kept, e) (rw (kept, ih.0) refl, ih.1)
    ]
