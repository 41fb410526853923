-- ===== src/Tests/Core.antt =====
-- Node keys at concrete nodes.
use msgbus.Prelude.{◌≡◌, ◌≢◌, refl}
use msgbus.Text.{codes, trim, contains}
use msgbus.Core.Error.{MsgbusError, ok, err}
use msgbus.Core.Node.{NodeId, node_new, key, from_key}
use msgbus.Core.Node.Keys.{
  IsValid, IsSlashFree, from_key-key, key-from_key, joined_tenant, joined_bl, joined_device,
  key_collision,
}
use msgbus.Tests.Sample.{local}

pub local-IsValid : IsValid local
unfolding trim contains
local-IsValid = record {
  tenant_id = (refl, refl);
  bl_name = (refl, refl);
  device_id = (refl, refl);
}

local-IsSlashFree : IsSlashFree local
unfolding contains
local-IsSlashFree = record { tenant_id = refl; bl_name = refl; device_id = refl }

local_key : from_key (codes "tenant/bl/local") ≡ ok local
unfolding from_key trim contains
local_key = refl

from_key-key_example : from_key (key local) ≡ ok local
from_key-key_example = from_key-key local local-IsValid local-IsSlashFree

key-from_key_example : (key local ≡ codes "tenant/bl/local") × IsValid local × IsSlashFree local
key-from_key_example = key-from_key (codes "tenant/bl/local") local_key

joined_tenant-IsValid : IsValid (joined_tenant (codes "a") (codes "b") (codes "c") (codes "d"))
unfolding trim contains
joined_tenant-IsValid = record {
  tenant_id = (refl, refl);
  bl_name = (refl, refl);
  device_id = (refl, refl);
}

joined_bl-IsValid : IsValid (joined_bl (codes "a") (codes "b") (codes "c") (codes "d"))
unfolding trim contains
joined_bl-IsValid = record {
  tenant_id = (refl, refl);
  bl_name = (refl, refl);
  device_id = (refl, refl);
}

joined_device-IsValid : IsValid (joined_device (codes "a") (codes "b") (codes "c") (codes "d"))
unfolding trim contains
joined_device-IsValid = record {
  tenant_id = (refl, refl);
  bl_name = (refl, refl);
  device_id = (refl, refl);
}

abbrev m : NodeId
m = record { tenant_id = codes "a/b"; bl_name = codes "c"; device_id = codes "d" }

abbrev n : NodeId
n = record { tenant_id = codes "a"; bl_name = codes "b/c"; device_id = codes "d" }

abbrev k : NodeId
k = record { tenant_id = codes "a"; bl_name = codes "b"; device_id = codes "c/d" }

key_collision_example :
    (node_new (codes "a/b") (codes "c") (codes "d") ≡ ok m)
    × (node_new (codes "a") (codes "b/c") (codes "d") ≡ ok n)
    × (node_new (codes "a") (codes "b") (codes "c/d") ≡ ok k)
    × (key m ≡ key n)
    × (key n ≡ key k)
    × (m ≢ n)
    × (n ≢ k)
    × (m ≢ k)
    × (e : MsgbusError) × (from_key (key m) ≡ err e)
key_collision_example =
    key_collision (codes "a") (codes "b") (codes "c") (codes "d") joined_tenant-IsValid
      joined_bl-IsValid joined_device-IsValid
