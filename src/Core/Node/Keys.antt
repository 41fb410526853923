-- ===== src/Core/Node/Keys.antt =====
-- Keys of nodes and their parser, with and without slashes in the parts.
use mathlib.Core.List.{append_assoc}
use msgbus.Prelude.{
  ℕ, ◌+◌, ◌<◌, ◌==◌, if◌then◌else◌, ◌≡◌, refl, sym, inl, inr, ◌∙◌, ap, false, List, [], ◌∷◌, ◌++◌,
  arith, All, subst, length, length-append, ◌≢◌,
}
use msgbus.Text.{Str, contains, split}
use msgbus.Text.Split.{split-part, split-last, join, join-split, split-All}
use msgbus.Core.Error.{MsgbusError, outcome, ok, err}
use msgbus.Core.Name.{IsPart}
use msgbus.Core.Node.{NodeId, node_new, slash, key, from_parts, from_key}

-- What `validate` asks for.
pub record IsValid (n : NodeId) : Type 0 where
  pub tenant_id : IsPart n.tenant_id
  pub bl_name : IsPart n.bl_name
  pub device_id : IsPart n.device_id

-- No part holds a slash.
pub record IsSlashFree (n : NodeId) : Type 0 where
  pub tenant_id : contains n.tenant_id slash ≡ false
  pub bl_name : contains n.bl_name slash ≡ false
  pub device_id : contains n.device_id slash ≡ false

pub node_new-IsValid :
    (t b d : Str) {n : NodeId}
    → node_new t b d ≡ ok n
    → (n ≡ record { tenant_id = t; bl_name = b; device_id = d }) × IsValid n
unfolding node_new
node_new-IsValid t b d h = ground arith

pub node_new_of-IsValid :
    (n : NodeId) → IsValid n → node_new n.tenant_id n.bl_name n.device_id ≡ ok n
unfolding node_new
node_new_of-IsValid n v = ground arith

-- The key of a valid node without slashes reads back as the node.
pub from_key-key : (n : NodeId) → IsValid n → IsSlashFree n → from_key (key n) ≡ ok n
unfolding from_key key from_parts
from_key-key n v s =
    rw
      (
        split-part slash n.tenant_id (n.bl_name ++ slash ∷ n.device_id) s.tenant_id,
        split-part slash n.bl_name n.device_id s.bl_name,
        split-last slash n.device_id s.device_id,
      )
      (node_new_of-IsValid n v)

parts_of :
    (parts : List Str) {n : NodeId}
    → from_parts parts ≡ ok n
    → (parts ≡ n.tenant_id ∷ n.bl_name ∷ n.device_id ∷ []) × IsValid n
unfolding from_parts
parts_of [] h = cc
parts_of (t ∷ []) h = cc
parts_of (t ∷ b ∷ []) h = cc
parts_of (t ∷ b ∷ d ∷ []) h = let (e, v) = node_new-IsValid t b d h in (rw e, v)
parts_of (t ∷ b ∷ d ∷ e ∷ rest) h = cc

-- Whatever `from_key` accepts is the key of the node that it returns, which is valid and holds no
-- slash.
pub key-from_key :
    (value : Str) {n : NodeId} → from_key value ≡ ok n → (key n ≡ value) × IsValid n × IsSlashFree n
unfolding from_key key
key-from_key value {n} h =
    let (e, v) = parts_of (split slash value) h in
    let free : All (λ p. contains p slash ≡ false) (n.tenant_id ∷ n.bl_name ∷ n.device_id ∷ []) =
      subst (All (λ p. contains p slash ≡ false)) e (split-All slash value) in
    (
      ap (join slash) (sym e) ∙ join-split slash value,
      v,
      record { tenant_id = free.0; bl_name = free.1.0; device_id = free.1.1.0 },
    )

slashes : Str → ℕ
slashes [] = 0
slashes (x ∷ s) = (if x == slash then 1 else 0) + slashes s

slashes-append : (a b : Str) → slashes (a ++ b) ≡ slashes a + slashes b
unfolding slashes
slashes-append [] b = omega arith
slashes-append (x ∷ a) b = omega (arith, slashes-append a b)

slashes_free : (s : Str) → contains s slash ≡ false → slashes s ≡ 0
unfolding slashes contains
slashes_free [] h = refl
slashes_free (x ∷ s) h = ground (arith, slashes_free s)

slashes-key :
    (n : NodeId)
    → slashes (key n) ≡ slashes n.tenant_id + slashes n.bl_name + slashes n.device_id + 2
unfolding key slashes
slashes-key n = omega (
  arith,
  slashes-append n.tenant_id (slash ∷ n.bl_name ++ slash ∷ n.device_id),
  slashes-append n.bl_name (slash ∷ n.device_id),
)

-- A text with more than two slashes is no key.
from_key-slashes : (value : Str) → 2 < slashes value → (e : MsgbusError) × (from_key value ≡ err e)
from_key-slashes value many = elim (outcome (from_key value)) [
  | inl refused ↦ refused
  | inr (n, read) ↦
      let (same, valid, free) = key-from_key value read in
      absurd (
        omega (
          arith,
          slashes-key n,
          ap slashes same,
          slashes_free n.tenant_id free.tenant_id,
          slashes_free n.bl_name free.bl_name,
          slashes_free n.device_id free.device_id,
        ))
]

append_differs : (a b : Str) (c : ℕ) → a ++ c ∷ b ≢ a
append_differs a b c h = absurd (omega (arith, ap length h, length-append a (c ∷ b)))

module _ (a b c d : Str) where
  -- four texts as the three parts of a node: a slash joins two of them to one part
  abbrev pub joined_tenant : NodeId
  joined_tenant = record { tenant_id = a ++ slash ∷ b; bl_name = c; device_id = d }

  abbrev pub joined_bl : NodeId
  joined_bl = record { tenant_id = a; bl_name = b ++ slash ∷ c; device_id = d }

  abbrev pub joined_device : NodeId
  joined_device = record { tenant_id = a; bl_name = b; device_id = c ++ slash ∷ d }

  joined_key-slashes : 2 < slashes (key joined_tenant)
  unfolding slashes
  joined_key-slashes = omega (arith, slashes-key joined_tenant, slashes-append a (slash ∷ b))

  -- `NodeId::new` takes parts with a slash in them, and a slash can be read in any of the three parts:
  -- if these parts are valid, three nodes that it makes differ from each other and have one key, and
  -- `from_key` refuses this key.
  pub key_collision :
      IsValid joined_tenant
      → IsValid joined_bl
      → IsValid joined_device
      → (node_new (a ++ slash ∷ b) c d ≡ ok joined_tenant)
        × (node_new a (b ++ slash ∷ c) d ≡ ok joined_bl)
        × (node_new a b (c ++ slash ∷ d) ≡ ok joined_device)
        × (key joined_tenant ≡ key joined_bl)
        × (key joined_bl ≡ key joined_device)
        × (joined_tenant ≢ joined_bl)
        × (joined_bl ≢ joined_device)
        × (joined_tenant ≢ joined_device)
        × (e : MsgbusError) × (from_key (key joined_tenant) ≡ err e)
  unfolding key
  key_collision v v' v'' =
      let (e, refused) = from_key-slashes (key joined_tenant) joined_key-slashes in
      (
        node_new_of-IsValid joined_tenant v,
        node_new_of-IsValid joined_bl v',
        node_new_of-IsValid joined_device v'',
        simp append_assoc,
        simp append_assoc,
        λ e. append_differs a b slash (ap (λ (n : NodeId). n.tenant_id) e),
        λ e. append_differs b c slash (ap (λ (n : NodeId). n.bl_name) e),
        λ e. append_differs a b slash (ap (λ (n : NodeId). n.tenant_id) e),
        e,
        refused,
      )
