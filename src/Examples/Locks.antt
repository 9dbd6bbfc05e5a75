-- ===== src/Examples/Locks.antt =====
-- The lock of lib/durable-store.js at concrete contenders of one machine, with the limits of the
-- source: 30 s until a lock is stale, 5 s until a contender gives up.
use cli_provider_router.Prelude.{
  ℕ, ◌≤◌, ◌≡◌, refl, inl, true, Option, none, some, List, [], ◌∷◌, ◌==◌, if◌then◌else◌, arith,
}
use cli_provider_router.Lock.{
  LockFile, trying, holding, gone, State, Action, step, act, run, write_info, read_lock_info,
  may_remove,
}
use cli_provider_router.Lock.Exclusion.{unbroken_excludes, release_race, release_race_admits_two}
use cli_provider_router.Lock.Progress.{solo, lone_contender_takes, live_lock_kept}

abbrev one_host : ℕ → ℕ
one_host p = 0

abbrev five_seconds : ℕ → ℕ
five_seconds p = 5000

abbrev lock_of : ℕ → Option LockFile
lock_of p = some (record { owner = p; is_complete = true; mtime = 0 })

-- Contender 2 finds the lock of contender 1, tries again after its release, and takes it.
abbrev handover : List (Action one_host 30000 five_seconds)
handover =
    step 1
    ∷ step 1
    ∷ step 2
    ∷ step 2
    ∷ step 2
    ∷ step 2
    ∷ step 1
    ∷ step 1
    ∷ step 1
    ∷ step 2
    ∷ step 2
    ∷ []

unbroken_excludes_example : ◌≡◌ {A = ℕ} 2 2
unfolding run act write_info read_lock_info may_remove
unbroken_excludes_example =
    unbroken_excludes one_host 30000 five_seconds none handover 2 2 refl refl refl

-- Contender 1 holds the lock; contenders 2 and 3 are about to try.
abbrev held_by_one : State
held_by_one = record {
  file = lock_of 1;
  clock = 10;
  phase = λ p. if p == 1 then holding else trying;
}

abbrev raced : State
raced = run one_host 30000 five_seconds (release_race one_host 30000 five_seconds 1 2 3) held_by_one

release_race_admits_two_example : (raced.phase 2 ≡ holding) × (raced.phase 3 ≡ holding)
release_race_admits_two_example =
    release_race_admits_two one_host 30000 five_seconds held_by_one 1 2 3 0 (omega arith)
      (omega arith) (omega arith) refl refl refl refl

-- Contender 1 crashed inside the lock.
abbrev crashed_one : State
crashed_one = record { file = lock_of 1; clock = 10; phase = λ p. if p == 1 then gone else trying }

lone_contender_takes_example :
    (n : ℕ) × (n ≤ 8) × ((solo one_host 30000 five_seconds n 2 crashed_one).phase 2 ≡ holding)
lone_contender_takes_example =
    lone_contender_takes one_host 30000 five_seconds 2
      (record { owner = 1; is_complete = true; mtime = 0 }) crashed_one refl refl
      (inl (refl, refl, refl))

live_lock_kept_example :
    ((solo one_host 30000 five_seconds 4 2 held_by_one).file ≡ lock_of 1)
    × ((solo one_host 30000 five_seconds 4 2 held_by_one).phase 2 ≡ trying)
live_lock_kept_example =
    live_lock_kept one_host 30000 five_seconds 2
      (record { owner = 1; is_complete = true; mtime = 0 }) held_by_one refl refl
      (λ a. ground arith)
