-- ===== src/Atomic/Rotation.antt =====
-- lib/atomic-json.js, rotateJsonBackups: where each generation goes.
use cli_provider_router.Prelude.{
  ℕ, zero, suc, ◌<◌, ◌≡◌, ◌≢◌, refl, ◌∙◌, Bool, true, List, [], ◌∷◌, ◌++◌, arith, dec_lt,
}
use cli_provider_router.Atomic.{
  primary, bak, absent, Disk, update, Step, rename, copy, exists, is_readable, shift_steps,
  rotate_steps, best_effort, do_step,
}

-- Every call succeeds.
abbrev pub all_work : Step → Bool
all_work s = true

best_effort-append :
    (works : Step → Bool) (ss ts : List Step) (d : Disk)
    → best_effort works (ss ++ ts) d ≡ best_effort works ts (best_effort works ss d)
unfolding best_effort
best_effort-append works [] ts d = refl
best_effort-append works (s ∷ ss) ts d = best_effort-append works ss ts _

-- One backup moves up by one place, and leaves its own.
abbrev moved : ℕ → Disk → Disk
moved n d = do_step (rename (bak (suc n)) (bak (suc (suc n)))) d

moved_above :
    (n : ℕ) (d : Disk)
    → d (bak (suc (suc n))) ≡ absent
    → moved n d (bak (suc (suc n))) ≡ d (bak (suc n))
unfolding do_step
moved_above n d h = ground arith

moved_from : (n : ℕ) (d : Disk) → moved n d (bak (suc n)) ≡ absent
unfolding do_step
moved_from n d = ground arith

moved_other : (n j : ℕ) (d : Disk) → j ≢ suc n → j ≢ suc (suc n) → moved n d (bak j) ≡ d (bak j)
unfolding do_step
moved_other n j d h k = ground arith

shift_above :
    (n j : ℕ) (d : Disk) → suc n < j → best_effort all_work (shift_steps n) d (bak j) ≡ d (bak j)
unfolding shift_steps best_effort
shift_above zero j d h = refl
shift_above (suc n) j d h =
    shift_above n j (moved n d) (omega arith) ∙ moved_other n j d (omega arith) (omega arith)

shift_moves :
    (n j : ℕ) (d : Disk)
    → d (bak (suc n)) ≡ absent
    → j < n
    → best_effort all_work (shift_steps n) d (bak (suc (suc j))) ≡ d (bak (suc j))
unfolding shift_steps best_effort
shift_moves zero j d free h = elim h [ ]
shift_moves (suc n) j d free h = elim (dec_lt j n) [
  | yes p ↦
      shift_moves n j (moved n d) (moved_from n d) p
      ∙ moved_other n (suc j) d (omega arith) (omega arith)
  | no p ↦
      let last : j ≡ n = omega arith in
      rw last (shift_above n (suc (suc n)) (moved n d) (omega arith) ∙ moved_above n d free)
]

shift_frees :
    (n : ℕ) (d : Disk)
    → d (bak (suc n)) ≡ absent
    → best_effort all_work (shift_steps n) d (bak 1) ≡ absent
unfolding shift_steps best_effort
shift_frees zero d free = free
shift_frees (suc n) d free = shift_frees n (moved n d) (moved_from n d)

shift_primary : (n : ℕ) (d : Disk) → best_effort all_work (shift_steps n) d primary ≡ d primary
unfolding shift_steps best_effort do_step
shift_primary zero d = refl
shift_primary (suc n) d = shift_primary n (moved n d) ∙ ground arith

-- Where every call of the file system succeeds, a rotation of a readable file that keeps n + 1 backups
-- puts the file into backup 1 and backup j + 1 into backup j + 2 for each j < n; it leaves the file
-- itself and the backups above n + 1 as they are.
pub rotate_generations :
    (n : ℕ) (d : Disk)
    → is_readable (d primary) ≡ true
    → let d' = best_effort all_work (rotate_steps (suc n) (d primary)) d in
      (d' (bak 1) ≡ d primary)
      × ((j : ℕ) → j < n → d' (bak (suc (suc j))) ≡ d (bak (suc j)))
      × ((j : ℕ) → suc n < j → d' (bak j) ≡ d (bak j))
      × (d' primary ≡ d primary)
unfolding rotate_steps best_effort do_step
rotate_generations n d h =
    rw (there, best_effort-append all_work (shift_steps n) (copy primary (bak 1) ∷ []) freed)
      (first, later, above, kept)
  where
    there : exists (d primary) ≡ true
    there = ground arith

    freed : Disk
    freed = update d (bak (suc n)) absent

    shifted : Disk
    shifted = best_effort all_work (shift_steps n) freed

    same : shifted primary ≡ d primary
    same = shift_primary n freed

    first : best_effort all_work (copy primary (bak 1) ∷ []) shifted (bak 1) ≡ d primary
    first = ground (arith, same)

    later :
        (j : ℕ)
        → j < n
        → best_effort all_work (copy primary (bak 1) ∷ []) shifted (bak (suc (suc j)))
          ≡ d (bak (suc j))
    later j p = ground (arith, shift_moves n j freed)

    above :
        (j : ℕ)
        → suc n < j
        → best_effort all_work (copy primary (bak 1) ∷ []) shifted (bak j) ≡ d (bak j)
    above j p = ground (arith, shift_above n j freed)

    kept : best_effort all_work (copy primary (bak 1) ∷ []) shifted primary ≡ d primary
    kept = ground (arith, same)
