-- ===== src/Redb/Tables.antt =====
-- What a table reads after each write, from the laws of the database crate.
use msgbus.Prelude.{◌≡◌, ◌∙◌, none, some, if◌then◌else◌}
use msgbus.Text.{Str, str_eq}
use msgbus.Text.Order.{str_eq_refl}
use msgbus.Text.SortedMap.{lookup, lookup-upsert, lookup-delete}
use msgbus.Redb.Deps.{Tables}

module _ (t : Tables) {V : Type 0} where
  open t use {
    Table, get, insert, remove, new_table, entries, get_lem, entries-insert, entries-remove,
    entries-new_table,
  }

  pub get-insert :
      (m : Table V) (k j : Str) (v : V)
      → get (insert m k v) j ≡ (if str_eq k j then some v else get m j)
  get-insert m k j v =
      rw (get_lem (insert m k v) j, entries-insert m k v, get_lem m j)
        (lookup-upsert k j v (entries m))

  pub get-remove :
      (m : Table V) (k j : Str) → get (remove m k) j ≡ (if str_eq k j then none else get m j)
  get-remove m k j =
      rw (get_lem (remove m k) j, entries-remove m k, get_lem m j) (lookup-delete k j (entries m))

  pub get-insert_self : (m : Table V) (k : Str) (v : V) → get (insert m k v) k ≡ some v
  get-insert_self m k v = get-insert m k k v ∙ rw (str_eq_refl k)

  pub get-new_table : (j : Str) → get (new_table {V = V}) j ≡ none
  unfolding lookup
  get-new_table j = rw (get_lem (new_table {V = V}) j, entries-new_table {V = V})
