-- ===== src/Tests/Wire.antt =====
-- A concrete serialisation of records into numbers, read back from the front of the bytes.
use mathlib.Core.List.{append-nil, append_assoc}
use msgbus.Prelude.{
  ℕ, zero, suc, ◌≡◌, refl, ap, Bool, true, false, Option, none, some, List, [], ◌∷◌, ◌++◌, length,
}
use msgbus.Core.Error.{Result, ok, err, serialization}
use msgbus.Core.Message.{Bytes}
use msgbus.Redb.Deps.{Json}

infixl 5 ◌>>=◌
abbrev pub ◌>>=◌ : {A B : Type 0} → Option A → (A → Option B) → Option B
none >>= f = none
some a >>= f = f a

pub record Wire (A : Type 0) : Type 0 where
  pub put : A → Bytes
  pub take : Bytes → Option (A × Bytes)
  pub take-put : (a : A) (rest : Bytes) → take (put a ++ rest) ≡ some (a, rest)

abbrev pub take_number : Bytes → Option (ℕ × Bytes)
take_number [] = none
take_number (n ∷ r) = some (n, r)

abbrev pub number : Wire ℕ
number = record { put = λ n. n ∷ []; take = take_number; take-put = λ n r. refl }

module _ {A B : Type 0} (f : A → B) (g : B → A) (inverse : (b : B) → f (g b) ≡ b) (w : Wire A) where
  abbrev pub take_image : Bytes → Option (B × Bytes)
  take_image bytes = do (a, r) ← w.take bytes; some (f a, r)

  pub take_image-put : (b : B) (rest : Bytes) → take_image (w.put (g b) ++ rest) ≡ some (b, rest)
  take_image-put b rest = rw (w.take-put (g b) rest, inverse b)

  -- the wire of a type that another type holds
  abbrev pub image : Wire B
  image = record { put = λ b. w.put (g b); take = take_image; take-put = take_image-put }

module _ {A B : Type 0} (a : Wire A) (b : Wire B) where
  abbrev pub take_pair : Bytes → Option ((A × B) × Bytes)
  take_pair bytes = do (x, r) ← a.take bytes; (y, r') ← b.take r; some ((x, y), r')

  pub take_pair-put :
      (p : A × B) (rest : Bytes) → take_pair ((a.put p.0 ++ b.put p.1) ++ rest) ≡ some (p, rest)
  take_pair-put p rest = rw (
    append_assoc (a.put p.0) (b.put p.1) rest,
    a.take-put p.0 (b.put p.1 ++ rest),
    b.take-put p.1 rest,
  )

  abbrev pub pair : Wire (A × B)
  pair = record { put = λ p. a.put p.0 ++ b.put p.1; take = take_pair; take-put = take_pair-put }

module _ {A : Type 0} (w : Wire A) where
  abbrev pub put_all : List A → Bytes
  put_all [] = []
  put_all (x ∷ xs) = w.put x ++ put_all xs

  abbrev pub take_all : ℕ → Bytes → Option (List A × Bytes)
  take_all zero bytes = some ([], bytes)
  take_all (suc n) bytes = do (x, r) ← w.take bytes; (xs, r') ← take_all n r; some (x ∷ xs, r')

  pub take_all-put :
      (xs : List A) (rest : Bytes) → take_all (length xs) (put_all xs ++ rest) ≡ some (xs, rest)
  take_all-put [] rest = refl
  take_all-put (x ∷ xs) rest = rw (
    append_assoc (w.put x) (put_all xs) rest,
    w.take-put x (put_all xs ++ rest),
    take_all-put xs rest,
  )

  abbrev pub take_list : Bytes → Option (List A × Bytes)
  take_list [] = none
  take_list (n ∷ r) = take_all n r

  abbrev pub many : Wire (List A)
  many = record { put = λ xs. length xs ∷ put_all xs; take = take_list; take-put = take_all-put }

  abbrev pub from_list : List A → Option A
  from_list [] = none
  from_list (x ∷ xs) = some x

  abbrev pub to_list : Option A → List A
  to_list none = []
  to_list (some x) = x ∷ []

  pub from_list-to_list : (o : Option A) → from_list (to_list o) ≡ o
  from_list-to_list none = refl
  from_list-to_list (some x) = refl

  abbrev pub optional : Wire (Option A)
  optional = image from_list to_list from_list-to_list many

  abbrev pub finish : Option (A × Bytes) → Result A
  finish none = err (serialization [])
  finish (some (a, r)) = ok a

  abbrev pub read_whole : Bytes → Result A
  read_whole bytes = finish (w.take bytes)

  pub read_whole-put :
      (a : A) {b : Bytes} → ◌≡◌ {A = Result Bytes} (ok (w.put a)) (ok b) → read_whole b ≡ ok a
  read_whole-put a {b} e = let same : b ≡ w.put a = cc in rw same (ap finish read_all)
    where
      read_all : w.take (w.put a) ≡ some (a, [])
      read_all = rw append-nil at (w.take-put a [])

  abbrev pub json : Json A
  json = record {
    encode = λ a. ok (w.put a);
    decode = read_whole;
    encode_total = λ a. (w.put a, refl);
    decode-encode = read_whole-put;
  }

abbrev pub to_bool : ℕ → Bool
to_bool zero = false
to_bool (suc n) = true

abbrev pub to_digit : Bool → ℕ
to_digit false = 0
to_digit true = 1

pub to_bool-to_digit : (b : Bool) → to_bool (to_digit b) ≡ b
to_bool-to_digit false = refl
to_bool-to_digit true = refl

abbrev pub flag : Wire Bool
flag = image to_bool to_digit to_bool-to_digit number
