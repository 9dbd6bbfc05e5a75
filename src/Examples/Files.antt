-- ===== src/Examples/Files.antt =====
-- lib/atomic-json.js and lib/takeover-state.js at concrete disks.
use cli_provider_router.Prelude.{
  ℕ, suc, ◌+◌, ◌≤◌, ◌<◌, ◌≡◌, refl, ◌↔◌, ◌⊎◌, Bool, true, false, none, some, codes, text_eq, lower,
  mem_text, ok, err,
}
use cli_provider_router.Json.{Json, num, str, obj, Fields, end, field, lookup, to_text}
use cli_provider_router.Atomic.{
  primary, bak, absent, malformed, document, Disk, update, read_valid, load_or_recover, best_effort,
  Loaded, from_primary, from_backup, corrupted, parse, rotate_steps,
}
use cli_provider_router.Atomic.Rotation.{all_work, rotate_generations}
use cli_provider_router.Atomic.Crash.{interrupted, interrupted_whole}
use cli_provider_router.Atomic.Recovery.{
  Loads, load_or_recover-Loads, load_or_recover_fails_closed, load_or_recover_again, backup,
}
use cli_provider_router.Takeover.{
  Files, claude, Owner, of_cli, ccswitch, Summary, status_of, state_phase, is_active_state,
  assert_can_stop, write_direct, with_file, read_state_strict,
}
use cli_provider_router.Takeover.Guard.{IsIdle, assert_can_stop_iff}

abbrev nothing : Disk
nothing f = absent

-- A file with one backup.
abbrev two_generations : Disk
two_generations = update (update nothing primary (document (num 7))) (bak 1) (document (num 6))

-- The file was cut short, its first backup too, and the second is whole.
abbrev damaged : Disk
damaged =
    update (update (update nothing primary malformed) (bak 1) malformed) (bak 2) (document (num 5))

abbrev hopeless : Disk
hopeless = update nothing primary malformed

abbrev any_value : Json → Bool
any_value v = true

interrupted_whole_example :
    (interrupted all_work 4 2 (num 8) two_generations primary ≡ document (num 7))
    ⊎ (interrupted all_work 4 2 (num 8) two_generations primary ≡ document (num 8))
interrupted_whole_example = interrupted_whole all_work 4 2 (num 8) two_generations

rotate_generations_example :
    let d' = best_effort all_work (rotate_steps 2 (document (num 7))) two_generations in
    (d' (bak 1) ≡ document (num 7))
    × ((j : ℕ) → j < 1 → d' (bak (suc (suc j))) ≡ two_generations (bak (suc j)))
    × ((j : ℕ) → 2 < j → d' (bak j) ≡ two_generations (bak j))
    × (d' primary ≡ document (num 7))
rotate_generations_example = rotate_generations 1 two_generations refl

abbrev restored : Loaded
restored = record { value = some (num 5); source = from_backup 2; recovered = true }

damaged_load : (load_or_recover all_work any_value 2 damaged).1 ≡ ok restored
unfolding load_or_recover
damaged_load = refl

load_or_recover-Loads_example : Loads all_work any_value 2 damaged restored
load_or_recover-Loads_example =
    load_or_recover-Loads all_work any_value 2 damaged restored damaged_load

restored_value : restored.value ≡ some (num 5)
restored_value = refl

load_or_recover_again_example :
    let d' = (load_or_recover all_work any_value 2 damaged).0 in
    load_or_recover all_work any_value 2 d'
    ≡ (d', ok (record { value = some (num 5); source = from_primary; recovered = false }))
load_or_recover_again_example =
    load_or_recover_again all_work any_value 2 damaged restored (num 5) damaged_load restored_value

hopeless_load : (load_or_recover all_work any_value 2 hopeless).1 ≡ err (corrupted parse)
unfolding load_or_recover
hopeless_load = refl

load_or_recover_fails_closed_example :
    (read_valid any_value malformed ≡ err parse)
    × ((j : ℕ) → 1 ≤ j → j < 1 + 2 → backup all_work any_value hopeless j ≡ none)
    × ((load_or_recover all_work any_value 2 hopeless).0 ≡ hopeless)
load_or_recover_fails_closed_example =
    load_or_recover_fails_closed all_work any_value 2 hopeless parse hopeless_load

abbrev unknown_phase : Fields
unknown_phase = field (codes "status") (str (codes "Migrating")) end

abbrev idle_files : Files
idle_files = record {
  cc_switch = document (obj (field (codes "status") (str (codes "restored")) end));
  claude_state = absent;
  codex_state = absent;
}

unknown_is_active : is_active_state (some unknown_phase) ccswitch ≡ true
unfolding is_active_state state_phase mem_text text_eq lookup to_text lower
unknown_is_active = refl

assert_can_stop_iff_example :
    ((s : Summary) × (assert_can_stop idle_files ≡ ok s)) ↔ ((o : Owner) → IsIdle idle_files o)
assert_can_stop_iff_example = assert_can_stop_iff idle_files

write_direct_applied :
    write_direct idle_files claude (obj unknown_phase)
    ≡ ok (with_file idle_files (of_cli claude) (document (obj unknown_phase)))
unfolding write_direct status_of read_state_strict
write_direct_applied = refl
