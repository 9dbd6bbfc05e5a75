-- ===== src/Lock/Exclusion.antt =====
-- Mutual exclusion of lib/durable-store.js, acquireFileLock, while nobody removes a lock that was
-- judged stale, and the way in which such a removal admits two holders.
use cli_provider_router.Prelude.{
  ℕ, ◌≡◌, refl, ◌≢◌, Bool, true, false, ◌||◌, Option, none, some, List, [], ◌∷◌, arith,
}
use cli_provider_router.Lock.{
  LockFile, Phase, trying, opened, holding, releasing, removing, refused, probing, aging, doubting,
  breaking, released, timed_out, failed, gone, State, read_lock_info, is_unchanged, may_remove,
  write_info, holder_gone, is_old, try_open, advance, fail_write, Action, step, write_fails, dies,
  pass, act, run, start,
}

-- Between the creation of the file and its removal by the same contender.
abbrev pub is_inside : Phase → Bool
is_inside opened = true
is_inside holding = true
is_inside releasing = true
is_inside removing = true
is_inside _ = false

abbrev pub owner_of : Option LockFile → Option ℕ
owner_of none = none
owner_of (some f) = some f.owner

abbrev is_breaking : Phase → Bool
is_breaking breaking = true
is_breaking _ = false

-- Whoever is inside owns the file.
abbrev Guarded : State → Type 0
Guarded s = (q : ℕ) → is_inside (s.phase q) ≡ true → owner_of s.file ≡ some q

owner_of-write_info :
    (p now : ℕ) (file : Option LockFile) → owner_of (write_info p now file) ≡ owner_of file
unfolding write_info
owner_of-write_info p now none = refl
owner_of-write_info p now (some f) = ground arith

module _ (host : ℕ → ℕ) (stale_ms : ℕ) (deadline : ℕ → ℕ) where
  -- The action removes a lock that was judged stale.
  abbrev breaks : Action host stale_ms deadline → State → Bool
  breaks (step p) s = is_breaking (s.phase p)
  breaks _ s = false

  abbrev pub any_break : List (Action host stale_ms deadline) → State → Bool
  any_break [] s = false
  any_break (a ∷ later) s = breaks a s || any_break later (act host stale_ms deadline a s)

  advance-Guarded :
      (p : ℕ) (s : State) (ph : Phase)
      → s.phase p ≡ ph
      → is_breaking ph ≡ false
      → Guarded s
      → Guarded (advance host stale_ms deadline p s)
  unfolding advance try_open
  advance-Guarded p s trying e b g q = ground (arith, g p, g q)
  advance-Guarded p s opened e b g q =
      ground (arith, g p, g q, owner_of-write_info p s.clock s.file)
  advance-Guarded p s holding e b g q = ground (arith, g p, g q)
  advance-Guarded p s releasing e b g q = ground (arith, g p, g q)
  advance-Guarded p s removing e b g q = ground (arith, g p, g q)
  advance-Guarded p s refused e b g q = ground (arith, g p, g q)
  advance-Guarded p s (probing h) e b g q = ground (arith, g p, g q)
  advance-Guarded p s (aging h) e b g q = ground (arith, g p, g q)
  advance-Guarded p s (doubting h) e b g q = ground (arith, g p, g q)
  advance-Guarded p s breaking e b g q = ground arith
  advance-Guarded p s released e b g q = ground (arith, g q)
  advance-Guarded p s timed_out e b g q = ground (arith, g q)
  advance-Guarded p s failed e b g q = ground (arith, g q)
  advance-Guarded p s gone e b g q = ground (arith, g q)

  act-Guarded :
      (a : Action host stale_ms deadline) (s : State)
      → breaks a s ≡ false
      → Guarded s
      → Guarded (act host stale_ms deadline a s)
  unfolding act fail_write
  act-Guarded (step p) s b g q = advance-Guarded p s (s.phase p) refl b g q
  act-Guarded (write_fails p) s b g q = ground (arith, g p, g q)
  act-Guarded (dies p) s b g q = ground (arith, g q)
  act-Guarded (pass ms) s b g q = g q

  run-Guarded :
      (actions : List (Action host stale_ms deadline)) (s : State)
      → any_break actions s ≡ false
      → Guarded s
      → Guarded (run host stale_ms deadline actions s)
  unfolding run
  run-Guarded [] s b g = g
  run-Guarded (a ∷ later) s b g =
      run-Guarded later (act host stale_ms deadline a s) (ground arith)
        (act-Guarded a s (ground arith) g)

  -- However contenders interleave, crash, or fail to write their token, and whatever lock file was
  -- left behind before, two contenders that are inside the lock at once are the same one, provided
  -- no action of the run removes a lock that was judged stale.
  pub unbroken_excludes :
      (left : Option LockFile) (actions : List (Action host stale_ms deadline)) (p q : ℕ)
      → any_break actions (start left) ≡ false
      → is_inside ((run host stale_ms deadline actions (start left)).phase p) ≡ true
      → is_inside ((run host stale_ms deadline actions (start left)).phase q) ≡ true
      → p ≡ q
  unbroken_excludes left actions p q b i j =
      let g : Guarded (run host stale_ms deadline actions (start left)) =
        run-Guarded actions (start left) b (λ r h. ground arith) in
      ground (arith, g p i, g q j)

  -- The holder leaves while `a` looks at its lock; `a` finds no file, twice, and removes the lock
  -- that `b` has taken meanwhile.
  abbrev pub release_race : ℕ → ℕ → ℕ → List (Action host stale_ms deadline)
  release_race h a b =
      step a
      ∷ step h
      ∷ step h
      ∷ step h
      ∷ step a
      ∷ step a
      ∷ step a
      ∷ step a
      ∷ step b
      ∷ step b
      ∷ step a
      ∷ step a
      ∷ step a
      ∷ []

  -- While `h` holds the lock and `a` and `b`, two others, are about to try, the actions of
  -- `release_race`, in which no time passes, nobody dies and no write fails, leave both `a` and `b`
  -- holding the lock.
  pub release_race_admits_two :
      (s : State) (h a b mtime : ℕ)
      → h ≢ a
      → h ≢ b
      → a ≢ b
      → s.file ≡ some (record { owner = h; is_complete = true; mtime = mtime })
      → s.phase h ≡ holding
      → s.phase a ≡ trying
      → s.phase b ≡ trying
      → ((run host stale_ms deadline (release_race h a b) s).phase a ≡ holding)
        × ((run host stale_ms deadline (release_race h a b) s).phase b ≡ holding)
  unfolding run act advance try_open holder_gone is_old read_lock_info may_remove is_unchanged
      write_info
  release_race_admits_two s h a b mtime ha hb ab f ph pa pb = ground arith
