-- ===== src/Examples/Stores.antt =====
-- lib/durable-store.js at a settings-like store.
use cli_provider_router.Prelude.{
  ℕ, ◌+◌, ◌≡◌, refl, Bool, false, none, some, List, [], ◌∷◌, codes, text_eq, text_ne, Result, ok,
  err,
}
use cli_provider_router.Json.{Json, num, obj, end}
use cli_provider_router.Atomic.{Disk, absent, primary, document, update}
use cli_provider_router.Atomic.Rotation.{all_work}
use cli_provider_router.Durable.{
  Schema, Current, Outcome, next, unchanged, envelope_of, load, save, conflicts, revision_conflict,
}
use cli_provider_router.Durable.Laws.{IsPlainKey, written, load-envelope_of}
use cli_provider_router.Durable.Updates.{
  Update, Holds, run_updates, run_cell, run_updates-Holds, load-save, save_lost_update,
}

abbrev shop : Schema
shop = record {
  name = codes "cpr.settings";
  version = 1;
  payload_key = codes "settings";
  default_payload = obj end;
  migrate_legacy = λ v. none;
  backups = 2;
}

shop-IsPlainKey : IsPlainKey shop
unfolding text_eq
shop-IsPlainKey = record {
  not_schema = text_ne (codes "schema") shop.payload_key refl;
  not_version = text_ne (codes "version") shop.payload_key refl;
  not_revision = text_ne (codes "revision") shop.payload_key refl;
  not_updated = text_ne (codes "updatedAt") shop.payload_key refl;
}

abbrev stored : Disk
stored = update (λ f. absent) primary (document (envelope_of shop (num 5) 3 100))

load-stored : load all_work shop stored ≡ (stored, ok (written shop (num 5) 3))
load-stored = load-envelope_of all_work shop shop-IsPlainKey (num 5) 3 100 stored refl

save-stored : (save all_work shop (num 6) (some 3) 101 stored).1 ≡ ok 4
unfolding save envelope_of
save-stored = refl

load-save_example :
    (c : Current) × ((load all_work shop stored).1 ≡ ok c)
    × (4 ≡ c.revision + 1)
    × (conflicts (some 3) c.revision ≡ false)
    × (load all_work shop (save all_work shop (num 6) (some 3) 101 stored).0
        ≡ ((save all_work shop (num 6) (some 3) 101 stored).0, ok (written shop (num 6) 4)))
load-save_example =
    load-save all_work shop shop-IsPlainKey (num 6) (some 3) 101 4 stored save-stored

save_lost_update_example :
    let d' = (save all_work shop (num 6) (some 3) 101 stored).0 in
    (4 ≡ 3 + 1) × (save all_work shop (num 9) (some 3) 102 d' ≡ (d', err (revision_conflict 3 4)))
save_lost_update_example =
    save_lost_update all_work shop shop-IsPlainKey (num 6) (num 9) 3 101 102 4 stored save-stored

-- One writer counts up, and another looks and leaves the file alone.
abbrev count_up : Json → ℕ → Bool → Result (Unit {0}) (Outcome ℕ)
count_up (num n) r there = ok (next (num (n + 1)) r)
count_up v r there = ok unchanged

abbrev look : Json → ℕ → Bool → Result (Unit {0}) (Outcome ℕ)
look v r there = ok unchanged

abbrev writers : List (Update (Unit {0}) ℕ)
writers =
    record { callback = count_up; now = 101 }
    ∷ record { callback = look; now = 102 }
    ∷ record { callback = count_up; now = 103 }
    ∷ []

abbrev stored-Holds : Holds all_work shop stored (num 5, 3)
stored-Holds = record {
  current = written shop (num 5) 3;
  loaded = load-stored;
  same_payload = refl;
  same_revision = refl;
  there = refl;
}

run_updates-Holds_example :
    Holds all_work shop
      (run_updates all_work (λ t. refl) shop writers stored)
      (run_cell writers (num 5, 3))
run_updates-Holds_example =
    run_updates-Holds all_work (λ t. refl) shop shop-IsPlainKey writers stored (num 5, 3)
      stored-Holds

writers_cell : run_cell writers (num 5, 3) ≡ (num 7, 5)
unfolding run_cell
writers_cell = refl
