-- ===== src/Text/Prefix.antt =====
-- Prefixes of texts, and parts between separators.
use msgbus.Prelude.{ℕ, ◌≡◌, refl, true, false, [], ◌∷◌, ◌++◌, arith}
use msgbus.Text.{Str, str_lt, starts_with, contains}

pub starts_with-append : (p s : Str) → starts_with (p ++ s) p ≡ true
unfolding starts_with
starts_with-append [] [] = refl
starts_with-append [] (c ∷ s) = refl
starts_with-append (x ∷ p) s = ground (arith, starts_with-append p s)

-- What is left of a text behind its prefix.
pub starts_with-rest : (s p : Str) → starts_with s p ≡ true → (r : Str) × (s ≡ p ++ r)
unfolding starts_with
starts_with-rest [] [] h = ([], refl)
starts_with-rest (c ∷ s) [] h = (c ∷ s, refl)
starts_with-rest [] (x ∷ p) h = cc
starts_with-rest (c ∷ s) (x ∷ p) h =
    let head : c ≡ x = ground arith in let (r, e) = starts_with-rest s p (ground arith) in (r, cc)

-- Between a prefix and a text with that prefix lie only texts with that prefix.
pub starts_with_between :
    (p r k : Str) → str_lt k p ≡ false → str_lt (p ++ r) k ≡ false → starts_with k p ≡ true
unfolding starts_with str_lt
starts_with_between [] r [] h g = refl
starts_with_between [] r (c ∷ k) h g = refl
starts_with_between (x ∷ p) r [] h g = cc
starts_with_between (x ∷ p) r (c ∷ k) h g = ground (arith, starts_with_between p r k)

-- A text with the prefix is not below the prefix.
pub str_lt-prefix : (p r : Str) → str_lt (p ++ r) p ≡ false
unfolding str_lt
str_lt-prefix [] [] = refl
str_lt-prefix [] (c ∷ r) = refl
str_lt-prefix (x ∷ p) r = ground (arith, str_lt-prefix p r)

pub append_cancel_left : (p a b : Str) → p ++ a ≡ p ++ b → a ≡ b
append_cancel_left [] a b h = h
append_cancel_left (x ∷ p) a b h = append_cancel_left p a b (cc)

-- A part without the separator, and the text behind the separator, are read off uniquely.
pub part_unique :
    (sep : ℕ) (a b r s : Str)
    → contains a sep ≡ false
    → contains b sep ≡ false
    → a ++ sep ∷ r ≡ b ++ sep ∷ s
    → (a ≡ b) × (r ≡ s)
unfolding contains
part_unique sep [] [] r s h g e = (refl, cc)
part_unique sep [] (y ∷ b) r s h g e = absurd (ground arith)
part_unique sep (x ∷ a) [] r s h g e = absurd (ground arith)
part_unique sep (x ∷ a) (y ∷ b) r s h g e =
    let head : x ≡ y = cc in
    let (pe, re) = part_unique sep a b r s (ground arith) (ground arith) (cc) in (cc, re)
