-- ===== src/Core/Node.antt =====
-- `NodeId`, its key `tenant_id/bl_name/device_id`, and the key's parser.
pub mod Keys
use msgbus.Prelude.{ℕ, ◌≡◌, refl, Bool, true, List, [], ◌∷◌, ◌++◌, ◌&&◌, arith}
use msgbus.Text.{Str, codes, str_eq, is_empty, split}
use msgbus.Text.Order.{str_eq_sound, str_eq_refl}
use msgbus.Core.Error.{Result, ok, err, invalid_argument, ◌>>=◌, ◌>>◌}
use msgbus.Core.Name.{validate_part}

pub record NodeId : Type 0 where
  pub tenant_id : Str
  pub bl_name : Str
  pub device_id : Str

unfoldable pub validate : NodeId → Result (Unit {0})
unfolding validate_part
validate n = do
  validate_part (codes "tenant_id") n.tenant_id
  validate_part (codes "bl_name") n.bl_name
  validate_part (codes "device_id") n.device_id

-- `NodeId::new`
unfoldable pub node_new : Str → Str → Str → Result NodeId
unfolding validate
node_new tenant_id bl_name device_id = do
  let node : NodeId = record { tenant_id = tenant_id; bl_name = bl_name; device_id = device_id }
  validate node
  ok node

-- `NodeId::is_empty`
unfoldable pub node_is_empty : NodeId → Bool
node_is_empty n = is_empty n.tenant_id && is_empty n.bl_name && is_empty n.device_id

-- the character '/'
abbrev pub slash : ℕ
slash = b'/'

-- `NodeId::key`
unfoldable pub key : NodeId → Str
key n = n.tenant_id ++ slash ∷ (n.bl_name ++ slash ∷ n.device_id)

-- the calls of `parts.next()`
unfoldable pub from_parts : List Str → Result NodeId
unfolding node_new
from_parts [] = err (invalid_argument (codes "node key is missing tenant_id"))
from_parts (t ∷ []) = err (invalid_argument (codes "node key is missing bl_name"))
from_parts (t ∷ b ∷ []) = err (invalid_argument (codes "node key is missing device_id"))
from_parts (t ∷ b ∷ d ∷ []) = node_new t b d
from_parts (t ∷ b ∷ d ∷ e ∷ rest) =
    err (invalid_argument (codes "node key must have tenant_id/bl_name/device_id"))

-- `NodeId::from_key`
unfoldable pub from_key : Str → Result NodeId
unfolding split from_parts
from_key value = from_parts (split slash value)

unfoldable pub node_eq : NodeId → NodeId → Bool
unfolding str_eq
node_eq a b =
    str_eq a.tenant_id b.tenant_id && str_eq a.bl_name b.bl_name && str_eq a.device_id b.device_id

pub node_eq_sound : (a b : NodeId) → node_eq a b ≡ true → a ≡ b
unfolding node_eq
node_eq_sound a b h = ground (
  arith,
  str_eq_sound a.tenant_id b.tenant_id,
  str_eq_sound a.bl_name b.bl_name,
  str_eq_sound a.device_id b.device_id,
)

pub node_eq_refl : (a : NodeId) → node_eq a a ≡ true
unfolding node_eq
node_eq_refl a = rw (str_eq_refl a.tenant_id, str_eq_refl a.bl_name, str_eq_refl a.device_id)
