-- ===== src/Lock/Progress.antt =====
-- What a contender of lib/durable-store.js, acquireFileLock, does while the others stand still: it
-- takes a lock that was abandoned, waits or gives up on a live one, and releases only its own.
use cli_provider_router.Prelude.{
  ℕ, zero, suc, ◌-◌, ◌≤◌, ◌<◌, ◌≡◌, ◌≢◌, ◌⊎◌, inl, inr, true, false, Bool-cases, leb, if◌then◌else◌,
  none, some, arith,
}
use cli_provider_router.Lock.{
  LockFile, trying, holding, released, timed_out, gone, State, read_lock_info, is_unchanged,
  may_remove, write_info, holder_gone, is_old, try_open, advance,
}

module _ (host : ℕ → ℕ) (stale_ms : ℕ) (deadline : ℕ → ℕ) where
  -- The contender `p` makes so many steps, and nobody else makes any.
  abbrev pub solo : ℕ → ℕ → State → State
  solo zero p s = s
  solo (suc n) p s = solo n p (advance host stale_ms deadline p s)

  -- The file is left by a contender of the same machine whose process is gone, or it is older than
  -- the limit.
  abbrev pub Abandoned : ℕ → LockFile → State → Type 0
  Abandoned p f s =
      ((f.is_complete ≡ true) × (host f.owner ≡ host p) × (s.phase f.owner ≡ gone))
      ⊎ (stale_ms < s.clock - f.mtime)

  -- A contender alone takes an abandoned lock within eight steps.
  pub lone_contender_takes :
      (p : ℕ) (f : LockFile) (s : State)
      → s.file ≡ some f
      → s.phase p ≡ trying
      → Abandoned p f s
      → (n : ℕ) × (n ≤ 8) × ((solo n p s).phase p ≡ holding)
  unfolding advance try_open holder_gone is_old read_lock_info is_unchanged write_info
  lone_contender_takes p f s e t a =
      elim (Bool-cases (holder_gone host stale_ms deadline p (read_lock_info (some f)) s)) [
        | inl y ↦ (7, omega arith, ground arith)
        | inr n ↦ (8, omega arith, ground arith)
      ]

  -- A contender alone leaves a lock file that is neither the file of a process of its machine that
  -- is gone nor older than the limit: after four steps it has given up, where its deadline has come, or it is about
  -- to try again.
  pub live_lock_kept :
      (p : ℕ) (f : LockFile) (s : State)
      → s.file ≡ some f
      → s.phase p ≡ trying
      → ¬ Abandoned p f s
      → ((solo 4 p s).file ≡ some f)
        × ((solo 4 p s).phase p ≡ (if leb (deadline p) s.clock then timed_out else trying))
  unfolding advance try_open holder_gone is_old read_lock_info is_unchanged write_info
  live_lock_kept p f s e t a = ground arith

  -- A holder that leaves removes the lock file if it is its own or cannot be read, keeps it if it
  -- names another contender, and has left after three steps either way.
  release_lem :
      (p : ℕ) (f : LockFile) (s : State)
      → s.file ≡ some f
      → s.phase p ≡ holding
      → ((f.owner ≡ p) ⊎ (f.is_complete ≡ false) → (solo 3 p s).file ≡ none)
        × (f.owner ≢ p → f.is_complete ≡ true → (solo 3 p s).file ≡ some f)
        × ((solo 3 p s).phase p ≡ released)
  unfolding advance read_lock_info may_remove
  release_lem p f s e t = ground arith
