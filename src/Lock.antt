-- ===== src/Lock.antt =====
-- lib/durable-store.js, acquireFileLock, lockIsStale and withFileLock: the advisory lock, as the
-- steps of contenders that share the lock file. A contender is a call of withFileLock; its number
-- stands for its random token and for its process, and `host` gives the machine it runs on. Each
-- call of the file system, and each probe of a process, is one step, so that contenders interleave
-- between any two of them. A file is known by the contender that created it: what is written
-- through a descriptor whose file was removed reaches no file.
pub mod Exclusion
pub mod Progress
use cli_provider_router.Prelude.{
  ℕ, ◌+◌, ◌-◌, ltb, leb, ◌==◌, if◌then◌else◌, Bool, true, false, not, ◌&&◌, ◌||◌, Option, none,
  some, List, [], ◌∷◌,
}

-- `is_complete` once the JSON with the token is written; `mtime` is the clock at the last write.
pub record LockFile : Type 0 where
  pub owner : ℕ
  pub is_complete : Bool
  pub mtime : ℕ

-- Where a contender stands: what it does next.
pub data Phase : Type 0 where
  -- openSync(lockFile, 'wx')
  trying : Phase
  -- writeFileSync of the token through the descriptor
  opened : Phase
  -- the callback, inside the lock
  holding : Phase
  -- readLockInfo of release
  releasing : Phase
  -- rmSync of release
  removing : Phase
  -- readLockInfo after EEXIST
  refused : Phase
  -- the process probe of lockIsStale, on what was read
  probing : Option ℕ → Phase
  -- the statSync of lockIsStale
  aging : Option ℕ → Phase
  -- the second readLockInfo, of a lock judged stale
  doubting : Option ℕ → Phase
  -- rmSync of a lock judged stale
  breaking : Phase
  released timed_out failed gone : Phase

pub record State : Type 0 where
  pub file : Option LockFile
  pub clock : ℕ
  pub phase : ℕ → Phase

-- readLockInfo: `none` where the file is missing or its text does not parse.
unfoldable pub read_lock_info : Option LockFile → Option ℕ
read_lock_info none = none
read_lock_info (some f) = if f.is_complete then some f.owner else none

-- pidAlive of the process of a contender that crashed is false.
abbrev pub is_gone : Phase → Bool
is_gone gone = true
is_gone _ = false

-- `holder ? (current && current.token === holder.token) : !current`
unfoldable pub is_unchanged : Option ℕ → Option ℕ → Bool
is_unchanged none none = true
is_unchanged none (some c) = false
is_unchanged (some h) none = false
is_unchanged (some h) (some c) = h == c

-- `!current || current.token === token`
unfoldable pub may_remove : ℕ → Option ℕ → Bool
may_remove p none = true
may_remove p (some c) = c == p

-- Writing through the descriptor of the file that contender `p` created.
unfoldable pub write_info : ℕ → ℕ → Option LockFile → Option LockFile
write_info p now none = none
write_info p now (some f) =
    if f.owner == p then some (record { owner = p; is_complete = true; mtime = now }) else some f

abbrev pub put_phase : ℕ → Phase → State → State
put_phase p ph s = record s { phase = λ q. if q == p then ph else s.phase q }

abbrev pub put_file : Option LockFile → State → State
put_file f s = record s { file = f }

module _ (host : ℕ → ℕ) (stale_ms : ℕ) (deadline : ℕ → ℕ) where
  -- The process that the lock names ran on this machine and is gone.
  unfoldable pub holder_gone : ℕ → Option ℕ → State → Bool
  holder_gone p none s = false
  holder_gone p (some h) s = host h == host p && is_gone (s.phase h)

  -- The rest of lockIsStale: a missing file counts as stale.
  unfoldable pub is_old : State → Bool
  is_old s = elim s.file [ none ↦ true | some f ↦ ltb stale_ms (s.clock - f.mtime) ]

  -- openSync with 'wx' creates the file or throws EEXIST.
  unfoldable pub try_open : ℕ → State → State
  try_open p s = elim s.file [
    | none ↦
        put_phase p opened
          (put_file (some (record { owner = p; is_complete = false; mtime = s.clock })) s)
    | some f ↦ put_phase p refused s
  ]

  -- A contender's next step.
  unfoldable pub advance : ℕ → State → State
  unfolding holder_gone is_old try_open
  advance p s = elim (s.phase p) [
    | trying ↦ try_open p s
    | opened ↦ put_phase p holding (put_file (write_info p s.clock s.file) s)
    | holding ↦ put_phase p releasing s
    | releasing ↦
        put_phase p (if may_remove p (read_lock_info s.file) then removing else released) s
    | removing ↦ put_phase p released (put_file none s)
    | refused ↦ put_phase p (probing (read_lock_info s.file)) s
    | probing h ↦ put_phase p (if holder_gone p h s then doubting h else aging h) s
    | aging h ↦
        put_phase p
          (if is_old s then doubting h else if leb (deadline p) s.clock then timed_out else trying)
          s
    | doubting h ↦
        put_phase p (if is_unchanged h (read_lock_info s.file) then breaking else trying) s
    | breaking ↦ put_phase p trying (put_file none s)
    | released ↦ s
    | timed_out ↦ s
    | failed ↦ s
    | gone ↦ s
  ]

  -- The write of the token fails: the error is thrown, and the empty file stays.
  unfoldable pub fail_write : ℕ → State → State
  fail_write p s = elim (s.phase p) [ opened ↦ put_phase p failed s | _ ↦ s ]

  pub data Action : Type 0 where
    step : ℕ → Action
    write_fails : ℕ → Action
    dies : ℕ → Action
    pass : ℕ → Action

  unfoldable pub act : Action → State → State
  unfolding advance fail_write
  act (step p) s = advance p s
  act (write_fails p) s = fail_write p s
  act (dies p) s = put_phase p gone s
  act (pass ms) s = record s { clock = s.clock + ms }

  unfoldable pub run : List Action → State → State
  unfolding act
  run [] s = s
  run (a ∷ later) s = run later (act a s)

-- Everybody is about to begin, beside whatever file an earlier process left.
abbrev pub start : Option LockFile → State
start file = record { file = file; clock = 0; phase = λ p. trying }
