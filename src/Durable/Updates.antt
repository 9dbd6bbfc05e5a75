-- ===== src/Durable/Updates.antt =====
-- lib/durable-store.js, `save` and `mutate`: read back, compare-and-swap, and a sequence of updates
-- against the plain pair of a payload and a revision.
use cli_provider_router.Prelude.{
  ℕ, ◌+◌, ◌≡◌, ◌≢◌, refl, ap, ◌∙◌, inl, inr, Bool, true, false, Option, some, List, [], ◌∷◌, arith,
  Result, ok, err, Result-cases,
}
use cli_provider_router.Json.{Json}
use cli_provider_router.Atomic.{
  Disk, Step, primary, temp, create, put, rename, document, write_json_atomic,
}
use cli_provider_router.Atomic.Crash.{write_json_atomic_outcome}
use cli_provider_router.Durable.{
  Schema, Current, Outcome, unchanged, next, shapeless, revision_conflict, Mutated, envelope_of,
  load, commit, save, settle, mutate, conflicts,
}
use cli_provider_router.Durable.Laws.{IsPlainKey, written, load-envelope_of}

module _ (works : Step → Bool) (s : Schema) where
  pub commit-ok {ℓ} :
      {E : Type 0} {A : Type ℓ} (payload : Json) (revision now : ℕ) (answer a : A) (d : Disk)
      → (commit works s {E = E} payload revision now answer d).1 ≡ ok a
      → (a ≡ answer)
        × ((commit works s {E = E} payload revision now answer d).0 primary
            ≡ document (envelope_of s payload revision now))
  unfolding commit
  commit-ok payload revision now answer a d h =
      ground
        (arith, write_json_atomic_outcome works s.backups (envelope_of s payload revision now) d)

  save_proceeds :
      (payload : Json) (expected : Option ℕ) (now : ℕ) (d : Disk) (c : Current)
      → (load works s d).1 ≡ ok c
      → conflicts expected c.revision ≡ false
      → save works s payload expected now d
        ≡ commit works s payload (c.revision + 1) now (c.revision + 1) (load works s d).0
  unfolding save
  save_proceeds payload expected now d c h k = rw (h, k, save)

  save_refused :
      (payload : Json) (e now : ℕ) (d : Disk) (c : Current)
      → (load works s d).1 ≡ ok c
      → e ≢ c.revision
      → save works s payload (some e) now d
        ≡ ((load works s d).0, err (revision_conflict e c.revision))
  unfolding save
  save_refused payload e now d c h k =
      let differs : conflicts (some e) c.revision ≡ true = ground arith in rw (h, differs, save)

  save_checked :
      (payload : Json) (expected : Option ℕ) (now r : ℕ) (d : Disk)
      → (save works s payload expected now d).1 ≡ ok r
      → (c : Current) × ((load works s d).1 ≡ ok c) × (conflicts expected c.revision ≡ false)
  unfolding save
  save_checked payload expected now r d h = elim (Result-cases (load works s d).1) [
    | inl (c, e) ↦ (c, e, ground arith)
    | inr (x, e) ↦ absurd (ground arith)
  ]

  -- A save that returns revision r found revision r - 1, the expected one if one was given, and the
  -- next load gives the saved payload at revision r from the file itself, provided the payload's key
  -- is none of the envelope's own.
  pub load-save :
      (plain : IsPlainKey s) (payload : Json) (expected : Option ℕ) (now r : ℕ) (d : Disk)
      → (save works s payload expected now d).1 ≡ ok r
      → (c : Current) × ((load works s d).1 ≡ ok c)
        × (r ≡ c.revision + 1)
        × (conflicts expected c.revision ≡ false)
        × (load works s (save works s payload expected now d).0
            ≡ ((save works s payload expected now d).0, ok (written s payload r)))
  load-save plain payload expected now r d h =
      let (c, e, free) = save_checked payload expected now r d h in
      let go = save_proceeds payload expected now d c e free in
      let (same, there) =
        commit-ok {E = ⊥} payload (c.revision + 1) now (c.revision + 1) r (load works s d).0
          (rw go at h) in
      (
        c,
        e,
        same,
        free,
        rw (go, same) (load-envelope_of works s plain payload (c.revision + 1) now _ there),
      )

  -- Of two saves that expect the same revision, if the first returns, the second fails with a
  -- conflict and changes nothing, provided the payload's key is none of the envelope's own.
  pub save_lost_update :
      (plain : IsPlainKey s) (first second : Json) (expected now later r : ℕ) (d : Disk)
      → (save works s first (some expected) now d).1 ≡ ok r
      → let d' = (save works s first (some expected) now d).0 in
        (r ≡ expected + 1)
        × (save works s second (some expected) later d' ≡ (d', err (revision_conflict expected r)))
  save_lost_update plain first second expected now later r d h =
      let (c, e, next_revision, free, again) = load-save plain first (some expected) now r d h in
      let matched : expected ≡ c.revision = ground arith in
      let loaded = ap (λ x. x.1) again in
      let kept = ap (λ x. x.0) again in
      (
        omega arith,
        save_refused second expected later _ (written s first r) loaded (omega arith)
            ∙ rw kept refl,
      )

-- The callback of one `mutate`, and when it runs.
pub record Update {ℓ} (E : Type 0) (R : Type ℓ) : Type ℓ where
  pub callback : Json → ℕ → Bool → Result E (Outcome R)
  pub now : ℕ

-- What a callback does to a payload and its revision.
abbrev pub applied {ℓ} : {E : Type 0} {R : Type ℓ} → Result E (Outcome R) → Json × ℕ → Json × ℕ
applied (ok (next payload r)) (p, n) = (payload, n + 1)
applied _ cell = cell

unfoldable pub run_cell {ℓ} : {E : Type 0} {R : Type ℓ} → List (Update E R) → Json × ℕ → Json × ℕ
run_cell [] cell = cell
run_cell (u ∷ us) cell = run_cell us (applied (u.callback cell.0 cell.1 true) cell)

-- The disk stands for this payload at this revision.
pub record Holds (works : Step → Bool) (s : Schema) (d : Disk) (cell : Json × ℕ) : Type 0 where
  pub current : Current
  pub loaded : load works s d ≡ (d, ok current)
  pub same_payload : current.payload ≡ cell.0
  pub same_revision : current.revision ≡ cell.1
  pub there : current.is_present ≡ true

module _ (works : Step → Bool) (sure : (t : Step) → works t ≡ true) (s : Schema) where
  write_sure : (k : ℕ) (v : Json) (d : Disk) → (write_json_atomic works k v d).1 ≡ true
  unfolding write_json_atomic
  write_sure k v d =
      ground (arith, sure (create temp), sure (put temp v), sure (rename temp primary))

  commit_sure {ℓ} :
      {E : Type 0} {A : Type ℓ} (payload : Json) (revision now : ℕ) (answer : A) (d : Disk)
      → (commit works s {E = E} payload revision now answer d).1 ≡ ok answer
  unfolding commit
  commit_sure payload revision now answer d =
      rw (write_sure s.backups (envelope_of s payload revision now) d) refl

  settle-Holds {ℓ} :
      {E : Type 0} {R : Type ℓ} (plain : IsPlainKey s) (outcome : Result E (Outcome R)) (now : ℕ)
      (d : Disk) (cell : Json × ℕ) (h : Holds works s d cell)
      → Holds works s (settle works s outcome h.current.revision now d).0 (applied outcome cell)
  unfolding settle
  settle-Holds plain (err e) now d cell h = h
  settle-Holds plain (ok unchanged) now d cell h = h
  settle-Holds plain (ok shapeless) now d cell h = h
  settle-Holds {E} {R} plain (ok (next payload r)) now d cell h =
      let answer : Mutated R = record {
        changed = true;
        revision = h.current.revision + 1;
        result = some r;
      } in
      let done = commit_sure {E = E} payload (h.current.revision + 1) now answer d in
      let (_, there) =
        commit-ok works s {E = E} payload (h.current.revision + 1) now answer answer d done in
      record {
        current = written s payload (h.current.revision + 1);
        loaded = load-envelope_of works s plain payload (h.current.revision + 1) now _ there;
        same_payload = refl;
        same_revision = rw h.same_revision;
        there = refl;
      }

  mutate_loaded {ℓ} :
      {E : Type 0} {R : Type ℓ} (u : Update E R) (d : Disk) (c : Current)
      → (load works s d).1 ≡ ok c
      → mutate works s u.callback u.now d
        ≡ settle works s
            (u.callback c.payload c.revision c.is_present)
            c.revision
            u.now
            (load works s d).0
  unfolding mutate
  mutate_loaded u d c h = rw (h, mutate)

  mutate-settle {ℓ} :
      {E : Type 0} {R : Type ℓ} (u : Update E R) (d : Disk) (cell : Json × ℕ)
      (h : Holds works s d cell)
      → mutate works s u.callback u.now d
        ≡ settle works s (u.callback cell.0 cell.1 true) h.current.revision u.now d
  mutate-settle u d cell h =
      mutate_loaded u d h.current (ap (λ x. x.1) h.loaded)
      ∙ rw (ap (λ x. x.0) h.loaded, h.same_payload, h.same_revision, h.there) refl

  mutate-Holds {ℓ} :
      {E : Type 0} {R : Type ℓ} (plain : IsPlainKey s) (u : Update E R) (d : Disk) (cell : Json × ℕ)
      → Holds works s d cell
      → Holds works s
          (mutate works s u.callback u.now d).0
          (applied (u.callback cell.0 cell.1 true) cell)
  mutate-Holds plain u d cell h =
      rw (mutate-settle u d cell h)
        (settle-Holds plain (u.callback cell.0 cell.1 true) u.now d cell h)

  pub run_updates {ℓ} : {E : Type 0} {R : Type ℓ} → List (Update E R) → Disk → Disk
  run_updates [] d = d
  run_updates (u ∷ us) d = run_updates us (mutate works s u.callback u.now d).0

  -- Updates one after another, of any writers, do to the file what their callbacks do to the pair
  -- of payload and revision, provided every file system call succeeds, the payload's key is none of
  -- the envelope's own, and the file holds a document at the start.
  pub run_updates-Holds {ℓ} :
      {E : Type 0} {R : Type ℓ} (plain : IsPlainKey s) (us : List (Update E R)) (d : Disk)
      (cell : Json × ℕ)
      → Holds works s d cell
      → Holds works s (run_updates us d) (run_cell us cell)
  unfolding run_updates run_cell
  run_updates-Holds plain [] d cell h = h
  run_updates-Holds plain (u ∷ us) d cell h =
      run_updates-Holds plain us _ _ (mutate-Holds plain u d cell h)
