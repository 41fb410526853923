-- ===== src/Text/Order.antt =====
-- `==` and `<` on `str`.
use msgbus.Prelude.{◌≡◌, refl, true, false, [], ◌∷◌, ◌++◌, arith, length, Bool-cases, inl, inr}
use msgbus.Text.{Str, str_eq, str_lt}

pub str_eq_sound : (a b : Str) → str_eq a b ≡ true → a ≡ b
unfolding str_eq
str_eq_sound [] [] h = refl
str_eq_sound [] (y ∷ ys) h = cc
str_eq_sound (x ∷ xs) [] h = cc
str_eq_sound (x ∷ xs) (y ∷ ys) h = ground (arith, str_eq_sound xs ys)

pub str_eq_refl : (a : Str) → str_eq a a ≡ true
unfolding str_eq
str_eq_refl [] = refl
str_eq_refl (x ∷ xs) = ground (arith, str_eq_refl xs)

pub str_lt_irrefl : (a : Str) → str_lt a a ≡ false
unfolding str_lt
str_lt_irrefl [] = refl
str_lt_irrefl (x ∷ xs) = ground (arith, str_lt_irrefl xs)

pub str_lt_trans : (a b c : Str) → str_lt a b ≡ true → str_lt b c ≡ true → str_lt a c ≡ true
unfolding str_lt
str_lt_trans [] [] c h k = cc
str_lt_trans [] (y ∷ b) [] h k = cc
str_lt_trans [] (y ∷ b) (z ∷ c) h k = refl
str_lt_trans (x ∷ a) [] c h k = cc
str_lt_trans (x ∷ a) (y ∷ b) [] h k = cc
str_lt_trans (x ∷ a) (y ∷ b) (z ∷ c) h k = ground (arith, str_lt_trans a b c)

pub str_lt_total : (a b : Str) → str_lt a b ≡ false → str_lt b a ≡ false → a ≡ b
unfolding str_lt
str_lt_total [] [] h k = refl
str_lt_total [] (y ∷ b) h k = cc
str_lt_total (x ∷ a) [] h k = cc
str_lt_total (x ∷ a) (y ∷ b) h k = ground (arith, str_lt_total a b)

pub str_lt_asymm : (a b : Str) → str_lt a b ≡ true → str_lt b a ≡ false
str_lt_asymm a b h = elim (Bool-cases (str_lt b a)) [
  | inl k ↦ cc (str_lt_irrefl a, str_lt_trans a b a h k)
  | inr k ↦ k
]

pub str_lt-append_left : (p a b : Str) → str_lt (p ++ a) (p ++ b) ≡ str_lt a b
unfolding str_lt
str_lt-append_left [] a b = refl
str_lt-append_left (x ∷ p) a b = ground (arith, str_lt-append_left p a b)

-- Of two texts of one length, the order does not change when more is written behind them.
pub str_lt-append :
    (a b c d : Str) → length a ≡ length b → str_lt a b ≡ true → str_lt (a ++ c) (b ++ d) ≡ true
unfolding str_lt
str_lt-append [] [] c d e h = cc
str_lt-append [] (y ∷ b) c d e h = absurd (omega arith)
str_lt-append (x ∷ a) [] c d e h = absurd (omega arith)
str_lt-append (x ∷ a) (y ∷ b) c d e h =
    let shorter : length a ≡ length b = omega arith in ground (arith, str_lt-append a b c d shorter)

-- `a ≤ b` and `b ≤ c` give `a ≤ c`, each as the failure of the reverse `<`.
pub str_le_trans : (a b c : Str) → str_lt b a ≡ false → str_lt c b ≡ false → str_lt c a ≡ false
str_le_trans a b c h g =
    ground (arith, str_lt_total a b, str_lt_trans c a b, Bool-cases (str_lt c a))
