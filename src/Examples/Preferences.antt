-- ===== src/Examples/Preferences.antt =====
-- lib/settings-store.js at an empty disk.
use cli_provider_router.Prelude.{◌≡◌, refl, codes, ok, Text}
use cli_provider_router.Json.{num, bool, obj, Fields, end, field, lookup}
use cli_provider_router.Prelude.{true}
use cli_provider_router.Atomic.{Disk, absent}
use cli_provider_router.Atomic.Rotation.{all_work}
use cli_provider_router.Durable.{load, mutate, settle, envelope_of}
use cli_provider_router.Settings.{insert_all, merged, get_all, update}
use cli_provider_router.Settings.Merge.{over}
use cli_provider_router.Settings.Updates.{update-get_all}

abbrev empty_disk : Disk
empty_disk = λ f. absent

abbrev port_default : Fields
port_default = field (codes "port") (num 80) end

abbrev debug_patch : Fields
debug_patch = field (codes "debug") (bool true) end

abbrev both : Fields
both = field (codes "port") (num 80) (field (codes "debug") (bool true) end)

updated_both : (update all_work port_default (obj debug_patch) 5 empty_disk).1 ≡ ok both
unfolding update mutate settle merged insert_all load envelope_of
updated_both = refl

update-get_all_example :
    (before : Fields) × (again : Fields) × ((get_all all_work port_default empty_disk).1
      ≡ ok before)
    × (get_all all_work port_default (update all_work port_default (obj debug_patch) 5 empty_disk).0
        ≡ ((update all_work port_default (obj debug_patch) 5 empty_disk).0, ok again))
    × ((k : Text)
        → (lookup k again ≡ over (lookup k debug_patch) (lookup k before))
          × (lookup k both ≡ lookup k again))
unfolding lookup
update-get_all_example =
    update-get_all all_work port_default debug_patch both 5 empty_disk (refl, tt) (refl, tt)
      updated_both
