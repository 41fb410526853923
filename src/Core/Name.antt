-- ===== src/Core/Name.antt =====
-- The names that are validated: `Topic`, `QueueName` and `MessageId`, each a text behind a check.
use msgbus.Prelude.{◌≡◌, Bool, true, false, ◌++◌, arith, if◌then◌else◌}
use msgbus.Text.{Str, codes, str_eq, is_empty, trim, contains}
use msgbus.Text.Order.{str_eq_sound, str_eq_refl}
use msgbus.Core.Error.{Result, ok, err, invalid_argument, ◌>>◌}

unfoldable pub validate_part : Str → Str → Result (Unit {0})
validate_part name value =
    if is_empty (trim value)
    then err (invalid_argument (name ++ codes " is empty"))
    else if contains value 0
    then err (invalid_argument (name ++ codes " contains NUL byte"))
    else ok tt

-- What the check asks for: a character that is no white space, and no NUL.
abbrev pub IsPart : Str → Type 0
IsPart value = (is_empty (trim value) ≡ false) × (contains value 0 ≡ false)

pub validate_part_iff :
    (name value : Str)
    → (validate_part name value ≡ ok tt → IsPart value)
      × (IsPart value → validate_part name value ≡ ok tt)
unfolding validate_part
validate_part_iff name value = ground arith

pub record Topic : Type 0 where
  pub text : Str

pub record QueueName : Type 0 where
  pub text : Str

pub record MessageId : Type 0 where
  pub text : Str

unfoldable pub topic_new : Str → Result Topic
unfolding validate_part
topic_new value = do validate_part (codes "topic") value; ok (record { text = value })

unfoldable pub queue_new : Str → Result QueueName
unfolding validate_part
queue_new value = do validate_part (codes "queue") value; ok (record { text = value })

-- `MessageId::from_string`; `MessageId::new` draws a UUID, which enters the model as an argument.
unfoldable pub message_id_from_string : Str → Result MessageId
unfolding validate_part
message_id_from_string value = do
  validate_part (codes "message_id") value
  ok (record { text = value })

unfoldable pub topic_eq : Topic → Topic → Bool
unfolding str_eq
topic_eq a b = str_eq a.text b.text

unfoldable pub message_id_eq : MessageId → MessageId → Bool
unfolding str_eq
message_id_eq a b = str_eq a.text b.text

pub topic_eq_sound : (a b : Topic) → topic_eq a b ≡ true → a ≡ b
unfolding topic_eq
topic_eq_sound a b h = ground (arith, str_eq_sound a.text b.text)

pub topic_eq_refl : (a : Topic) → topic_eq a a ≡ true
unfolding topic_eq
topic_eq_refl a = str_eq_refl a.text

pub message_id_eq_sound : (a b : MessageId) → message_id_eq a b ≡ true → a ≡ b
unfolding message_id_eq
message_id_eq_sound a b h = ground (arith, str_eq_sound a.text b.text)

pub message_id_eq_refl : (a : MessageId) → message_id_eq a a ≡ true
unfolding message_id_eq
message_id_eq_refl a = str_eq_refl a.text
