-- ===== src/Atomic.antt =====
-- lib/atomic-json.js: strict and lax reads, the atomic write, rolling backups and recovery.
-- One store is a `Disk`: the file, its backups `.bak<n>`, the `.corrupt` copy and the temporary
-- file of a write. Which steps of a write the file system refuses is an argument, `works`.
pub mod Rotation
pub mod Crash
pub mod Recovery
use cli_provider_router.Prelude.{
  ℕ, zero, suc, Bool, true, false, ◌&&◌, Option, none, some, List, [], ◌∷◌, ◌++◌, ◌==◌,
  if◌then◌else◌, Result, ok, err, ◌>>=◌,
}
use cli_provider_router.Json.{Json}

pub data FileName : Type 0 where
  primary corrupt temp : FileName
  bak : ℕ → FileName

abbrev pub name_eq : FileName → FileName → Bool
name_eq primary primary = true
name_eq corrupt corrupt = true
name_eq temp temp = true
name_eq (bak i) (bak j) = i == j
name_eq _ _ = false

-- What `fs.readFileSync` and `JSON.parse` make of a path.
pub data Entry : Type 0 where
  absent : Entry
  denied : Entry
  failing : Entry
  blank : Entry
  malformed : Entry
  document : Json → Entry

abbrev pub Disk : Type 0
Disk = FileName → Entry

abbrev pub update : Disk → FileName → Entry → Disk
update d f e g = if name_eq f g then e else d g

-- The reasons of CorruptedStateError.
pub data Reason : Type 0 where
  permission io truncated parse invalid : Reason

-- `readJson`: any failure gives the fallback.
pub read_json : Entry → Json → Json
read_json (document v) fallback = v
read_json _ fallback = fallback

-- `readJsonStrict`: `none` is the fallback, for a file that is not there.
unfoldable pub read_json_strict : Entry → Result Reason (Option Json)
read_json_strict absent = ok none
read_json_strict denied = err permission
read_json_strict failing = err io
read_json_strict blank = err truncated
read_json_strict malformed = err parse
read_json_strict (document v) = ok (some v)

-- The file system calls of a write.
pub data Step : Type 0 where
  remove : FileName → Step
  rename : FileName → FileName → Step
  copy : FileName → FileName → Step
  create : FileName → Step
  put : FileName → Json → Step

abbrev pub exists : Entry → Bool
exists absent = false
exists _ = true

abbrev pub is_readable : Entry → Bool
is_readable absent = false
is_readable denied = false
is_readable failing = false
is_readable _ = true

-- A rename of a file that is not there, and a copy of one that cannot be read, do nothing.
unfoldable pub do_step : Step → Disk → Disk
do_step (remove f) d = update d f absent
do_step (rename f g) d = if exists (d f) then update (update d g (d f)) f absent else d
do_step (copy f g) d = if is_readable (d f) then update d g (d f) else d
do_step (create f) d = update d f blank
do_step (put f v) d = update d f (document v)

-- The calls that shift backup i to i + 1, from the oldest down.
unfoldable pub shift_steps : ℕ → List Step
shift_steps zero = []
shift_steps (suc i) = rename (bak (suc i)) (bak (suc (suc i))) ∷ shift_steps i

-- `rotateJsonBackups`, for the number of backups to keep and the present file.
unfoldable pub rotate_steps : ℕ → Entry → List Step
unfolding shift_steps
rotate_steps zero e = []
rotate_steps (suc i) e =
    if exists e then remove (bak (suc i)) ∷ shift_steps i ++ copy primary (bak 1) ∷ [] else []

-- `atomicWriteFile`: a new temporary file is filled and takes the place of the file.
unfoldable pub write_steps : Json → List Step
write_steps v = create temp ∷ put temp v ∷ rename temp primary ∷ []

pub data Source : Type 0 where
  from_primary from_fallback : Source
  from_backup : ℕ → Source

-- A CorruptedStateError, or the failure of a write.
pub data StateError : Type 0 where
  corrupted : Reason → StateError
  write_failed : StateError

-- `none` is the fallback of the caller.
pub record Loaded : Type 0 where
  pub value : Option Json
  pub source : Source
  pub recovered : Bool

-- The first part of `loadOrRecover`: the strict read and the caller's validation.
unfoldable pub read_valid : (Json → Bool) → Entry → Result Reason (Option Json)
unfolding read_json_strict
read_valid validate e = do
  value ← read_json_strict e
  elim value [ none ↦ ok none | some v ↦ if validate v then ok (some v) else err invalid ]

-- A backup serves if it reads, is there and is valid.
abbrev pub usable : Result Reason (Option Json) → Option Json
usable (ok value) = value
usable (err e) = none

module _ (works : Step → Bool) where
  -- Steps whose failures are caught one by one.
  unfoldable pub best_effort : List Step → Disk → Disk
  unfolding do_step
  best_effort [] d = d
  best_effort (s ∷ ss) d = best_effort ss (if works s then do_step s d else d)

  -- Steps that stop at the first failure; then the temporary file is removed, and `false` is the
  -- error that is thrown.
  unfoldable pub all_or_nothing : List Step → Disk → Disk × Bool
  unfolding do_step
  all_or_nothing [] d = (d, true)
  all_or_nothing (s ∷ ss) d =
      let rest = all_or_nothing ss (do_step s d) in
      if works s then rest else (update d temp absent, false)

  unfoldable pub write_json_atomic : ℕ → Json → Disk → Disk × Bool
  unfolding best_effort all_or_nothing rotate_steps write_steps
  write_json_atomic backups v d =
      all_or_nothing (write_steps v) (best_effort (rotate_steps backups (d primary)) d)

  -- The corrupt bytes are kept beside the file, which is written anew from backup `i`.
  unfoldable pub restore_backup : ℕ → Json → Disk → Disk × Result StateError Loaded
  unfolding best_effort write_json_atomic
  restore_backup i v d =
      let (d', wrote) = write_json_atomic 0 v (best_effort (copy primary corrupt ∷ []) d) in
      (
        d',
        if wrote
            then ok (record { value = some v; source = from_backup i; recovered = true })
            else err write_failed,
      )

  -- The loop over the backups, from number `i` on, `n` of them.
  unfoldable pub recover : (Json → Bool) → Reason → ℕ → ℕ → Disk → Disk × Result StateError Loaded
  unfolding restore_backup read_valid
  recover validate reason zero i d = (d, err (corrupted reason))
  recover validate reason (suc n) i d =
      let next = recover validate reason n (suc i) d in
      elim (usable (read_valid validate (d (bak i)))) [
        | none ↦ next
        | some v ↦ restore_backup i v d
      ]

  unfoldable pub load_or_recover : (Json → Bool) → ℕ → Disk → Disk × Result StateError Loaded
  unfolding recover read_valid
  load_or_recover validate backups d = elim (read_valid validate (d primary)) [
    | ok none ↦ (d, ok (record { value = none; source = from_fallback; recovered = false }))
    | ok (some v) ↦ (d, ok (record { value = some v; source = from_primary; recovered = false }))
    | err reason ↦ recover validate reason backups 1 d
  ]
