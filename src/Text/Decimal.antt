-- ===== src/Text/Decimal.antt =====
-- Zero-padded decimals: of one width, and in the order of the numbers.
use native.Mathlib.Nat.{pow-suc}
use native.Mathlib.Decide.{dec_lt}
use msgbus.Prelude.{
  ℕ, zero, suc, ◌+◌, ◌/◌, ◌%◌, ◌^◌, ◌<◌, ◌≡◌, refl, sym, ◌∙◌, ap, true, ◌⊎◌, inl, inr, [], ◌∷◌,
  arith, length, length-append,
}
use msgbus.Text.{str_lt, zero_padded}
use msgbus.Text.Order.{str_lt-append, str_lt-append_left, str_lt_irrefl}

pub length-zero_padded : (w n : ℕ) → length (zero_padded w n) ≡ w
unfolding zero_padded
length-zero_padded zero n = refl
length-zero_padded (suc w) n = omega (
  arith,
  length-append (zero_padded w (n / 10)) ((48 + n % 10) ∷ []),
  length-zero_padded w (n / 10),
)

last_digit_lt : (i j : ℕ) → i < j → str_lt ((48 + i) ∷ []) ((48 + j) ∷ []) ≡ true
unfolding str_lt
last_digit_lt i j h = ground arith

div_cases : (i j : ℕ) → i < j → (i / 10 < j / 10) ⊎ ((i / 10 ≡ j / 10) × (i % 10 < j % 10))
div_cases i j h = grind arith

-- The texts of one width are in the order of the numbers.
pub str_lt-zero_padded :
    (w i j : ℕ) → i < j → j < 10 ^ w → str_lt (zero_padded w i) (zero_padded w j) ≡ true
unfolding zero_padded
str_lt-zero_padded zero i j h b = absurd (omega arith)
str_lt-zero_padded (suc w) i j h b = elim (div_cases i j h) [
  | inl lower ↦
      str_lt-append (zero_padded w (i / 10)) (zero_padded w (j / 10)) ((48 + i % 10) ∷ [])
        ((48 + j % 10) ∷ []) (length-zero_padded w (i / 10) ∙ sym (length-zero_padded w (j / 10)))
        (str_lt-zero_padded w (i / 10) (j / 10) lower (omega (arith, pow-suc 10 w)))
  | inr same ↦
      rw same.0
        (rw (str_lt-append_left (zero_padded w (j / 10))) (last_digit_lt (i % 10) (j % 10) same.1))
]

apart : (w i j : ℕ) → i < j → j < 10 ^ w → zero_padded w i ≡ zero_padded w j → ⊥
apart w i j h b e = cc (
  str_lt_irrefl (zero_padded w j),
  ap (λ s. str_lt s (zero_padded w j)) e,
  str_lt-zero_padded w i j h b,
)

pub zero_padded_injective :
    (w i j : ℕ) → i < 10 ^ w → j < 10 ^ w → zero_padded w i ≡ zero_padded w j → i ≡ j
zero_padded_injective w i j hi hj e = elim (dec_lt i j) [
  | yes lower ↦ absurd (apart w i j lower hj e)
  | no not_lower ↦ elim (dec_lt j i) [
    | yes higher ↦ absurd (apart w j i higher hi (sym e))
    | no not_higher ↦ omega arith
  ]
]
