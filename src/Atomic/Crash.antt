-- ===== src/Atomic/Crash.antt =====
-- lib/atomic-json.js, writeJsonAtomic: what a write leaves behind, also when the process dies in it.
use cli_provider_router.Prelude.{
  ℕ, zero, suc, ◌-◌, ◌≡◌, refl, ◌∙◌, ◌⊎◌, inl, inr, Bool, List, [], ◌∷◌, arith, leb, if◌then◌else◌,
  length, take, All, All-append, All-take, Bool-cases,
}
use cli_provider_router.Json.{Json}
use cli_provider_router.Atomic.{
  primary, temp, corrupt, bak, Entry, absent, document, Disk, Step, remove, rename, copy, exists,
  do_step, shift_steps, rotate_steps, write_steps, best_effort, all_or_nothing, write_json_atomic,
}

-- The call writes neither the file nor the temporary file.
abbrev pub Spares : Step → Type 0
Spares (remove (bak i)) = Unit {0}
Spares (rename (bak i) (bak j)) = Unit {0}
Spares (copy f (bak i)) = Unit {0}
Spares (copy f corrupt) = Unit {0}
Spares _ = ⊥

spared :
    (s : Step) (d : Disk)
    → Spares s
    → (do_step s d primary ≡ d primary) × (do_step s d temp ≡ d temp)
unfolding do_step
spared (remove (bak i)) d h = ground arith
spared (rename (bak i) (bak j)) d h = ground arith
spared (copy f (bak i)) d h = ground arith
spared (copy f corrupt) d h = ground arith
spared s d h = ground arith

shift_steps-Spares : (n : ℕ) → All Spares (shift_steps n)
unfolding shift_steps
shift_steps-Spares zero = tt
shift_steps-Spares (suc n) = (tt, shift_steps-Spares n)

rotate_steps-Spares : (n : ℕ) (e : Entry) → All Spares (rotate_steps n e)
unfolding rotate_steps
rotate_steps-Spares zero e = tt
rotate_steps-Spares (suc n) e = elim (Bool-cases (exists e)) [
  | inl p ↦ rw p (
    tt,
    All-append Spares (shift_steps n) (copy primary (bak 1) ∷ []) (shift_steps-Spares n) (tt, tt),
  )
  | inr p ↦ rw p tt
]

module _ (works : Step → Bool) where
  pub best_effort-primary :
      (ss : List Step) (d : Disk) → All Spares ss → best_effort works ss d primary ≡ d primary
  unfolding best_effort
  best_effort-primary [] d h = refl
  best_effort-primary (s ∷ ss) d (p, h) =
      best_effort-primary ss (if works s then do_step s d else d) h ∙ ground (arith, spared s d p)

  -- The disk if the process dies after the first `n` calls of a write.
  pub interrupted : ℕ → ℕ → Json → Disk → Disk
  unfolding best_effort all_or_nothing
  interrupted n backups v d =
      let rotation = rotate_steps backups (d primary) in
      if leb n (length rotation)
      then best_effort works (take n rotation) d
      else (all_or_nothing works (take (n - length rotation) (write_steps v))
          (best_effort works rotation d)).0

  write_prefix :
      (m : ℕ) (v : Json) (d : Disk)
      → let d' = (all_or_nothing works (take m (write_steps v)) d).0 in
        (d' primary ≡ d primary) ⊎ (d' primary ≡ document v)
  unfolding write_steps all_or_nothing do_step
  write_prefix zero v d = inl refl
  write_prefix (suc zero) v d = ground arith
  write_prefix (suc (suc zero)) v d = ground arith
  write_prefix (suc (suc (suc zero))) v d = ground arith
  write_prefix (suc (suc (suc (suc n)))) v d = ground arith

  -- Wherever the process dies in a write, and whichever calls fail, the file holds what it held
  -- before or the whole new document.
  pub interrupted_whole :
      (n backups : ℕ) (v : Json) (d : Disk)
      → let d' = interrupted n backups v d in (d' primary ≡ d primary) ⊎ (d' primary ≡ document v)
  unfolding interrupted
  interrupted_whole n backups v d = ground (
    arith,
    best_effort-primary (take n (rotate_steps backups (d primary))) d (
        All-take Spares n (rotate_steps backups (d primary))
          (rotate_steps-Spares backups (d primary))),
    best_effort-primary (rotate_steps backups (d primary)) d
        (rotate_steps-Spares backups (d primary)),
    write_prefix (n - length (rotate_steps backups (d primary))) v
        (best_effort works (rotate_steps backups (d primary)) d),
  )

  -- A write that returns has replaced the file; one that throws has left it as it was. Neither
  -- leaves the temporary file.
  pub write_json_atomic_outcome :
      (backups : ℕ) (v : Json) (d : Disk)
      → let (d', wrote) = write_json_atomic works backups v d in
        (d' primary ≡ (if wrote then document v else d primary)) × (d' temp ≡ absent)
  unfolding write_json_atomic write_steps all_or_nothing do_step
  write_json_atomic_outcome backups v d = ground (
    arith,
    best_effort-primary (rotate_steps backups (d primary)) d
        (rotate_steps-Spares backups (d primary)),
  )
