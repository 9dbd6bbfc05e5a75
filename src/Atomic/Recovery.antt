-- ===== src/Atomic/Recovery.antt =====
-- lib/atomic-json.js, loadOrRecover: which generation a load gives, and that it never falls back
-- to a default while a file is there.
use cli_provider_router.Prelude.{
  ℕ, zero, suc, ◌+◌, ◌≤◌, ◌<◌, ◌≡◌, refl, ◌↔◌, inl, inr, Bool, true, false, Option, none, some, [],
  ◌∷◌, arith, ℕ_discrete, ok, err, Option-cases, Result-cases,
}
use cli_provider_router.Json.{Json}
use cli_provider_router.Atomic.{
  primary, corrupt, bak, Entry, absent, document, Disk, Step, copy, best_effort, read_valid, usable,
  restore_backup, recover, load_or_recover, Reason, Loaded, from_primary, from_fallback,
  from_backup, corrupted,
}
use cli_provider_router.Atomic.Crash.{write_json_atomic_outcome}

module _ (works : Step → Bool) (validate : Json → Bool) where
  -- The backup with this number, if it serves.
  abbrev pub backup : Disk → ℕ → Option Json
  backup d i = usable (read_valid validate (d (bak i)))

  read_valid-document :
      (v : Json) → validate v ≡ true → read_valid validate (document v) ≡ ok (some v)
  unfolding read_valid
  read_valid-document v h = rw h

  read_valid_sound :
      (e : Entry) (v : Json)
      → read_valid validate e ≡ ok (some v)
      → (e ≡ document v) × (validate v ≡ true)
  unfolding read_valid
  read_valid_sound e v h = ground arith

  read_valid-absent : (e : Entry) → (read_valid validate e ≡ ok none) ↔ (e ≡ absent)
  unfolding read_valid
  read_valid-absent e = ground arith

  usable_sound :
      (e : Entry) (v : Json) → usable (read_valid validate e) ≡ some v → validate v ≡ true
  unfolding read_valid
  usable_sound e v h = ground arith

  restore_lem :
      (i : ℕ) (v : Json) (d : Disk) (l : Loaded)
      → (restore_backup works i v d).1 ≡ ok l
      → (l ≡ record { value = some v; source = from_backup i; recovered = true })
        × ((restore_backup works i v d).0 primary ≡ document v)
  unfolding restore_backup
  restore_lem i v d l h =
      ground (
        arith,
        write_json_atomic_outcome works 0 v (best_effort works (copy primary corrupt ∷ []) d),
      )

  restore_failed :
      (i : ℕ) (v : Json) (d : Disk) (reason : Reason)
      → (restore_backup works i v d).1 ≡ err (corrupted reason)
      → ⊥
  unfolding restore_backup
  restore_failed i v d reason h = ground arith

  -- Backup `i` is the newest that serves: the file is rewritten from it.
  abbrev pub IsNewest : Disk → ℕ → ℕ → ℕ → Json → Type 0
  IsNewest d from n i v =
      (from ≤ i)
      × (i < from + n)
      × (backup d i ≡ some v)
      × ((j : ℕ) → from ≤ j → j < i → backup d j ≡ none)

  recover_none :
      (reason : Reason) (from : ℕ) (d : Disk) (l : Loaded)
      → (recover works validate reason 0 from d).1 ≡ ok l
      → ⊥
  unfolding recover
  recover_none reason from d l h = cc

  recover_miss :
      (reason : Reason) (n from : ℕ) (d : Disk)
      → backup d from ≡ none
      → recover works validate reason (suc n) from d ≡ recover works validate reason n (suc from) d
  unfolding recover
  recover_miss reason n from d miss = rw (miss, recover)

  recover_hit :
      (reason : Reason) (n from : ℕ) (d : Disk) (v : Json)
      → backup d from ≡ some v
      → recover works validate reason (suc n) from d ≡ restore_backup works from v d
  unfolding recover
  recover_hit reason n from d v hit = rw (hit, recover)

  none_from :
      (d : Disk) (from end : ℕ)
      → backup d from ≡ none
      → ((j : ℕ) → suc from ≤ j → j < end → backup d j ≡ none)
      → (j : ℕ) → from ≤ j
      → j < end
      → backup d j ≡ none
  none_from d from end miss later j p q = elim (ℕ_discrete j from) [
    | yes e ↦ rw e miss
    | no e ↦ later j (omega arith) q
  ]

  recover-IsNewest :
      (reason : Reason) (n from : ℕ) (d : Disk) (l : Loaded)
      → (recover works validate reason n from d).1 ≡ ok l
      → (i : ℕ) × (v : Json) × IsNewest d from n i v
        × (l ≡ record { value = some v; source = from_backup i; recovered = true })
        × ((recover works validate reason n from d).0 primary ≡ document v)
  recover-IsNewest reason zero from d l h = absurd (recover_none reason from d l h)
  recover-IsNewest reason (suc n) from d l h = elim (Option-cases (backup d from)) [
    | inl miss ↦
        let (i, v, (low, high, found, before), loaded, written) =
          recover-IsNewest reason n (suc from) d l (rw (recover_miss reason n from d miss) at h) in
        rw (recover_miss reason n from d miss)
          (i, v, (omega arith, omega arith, found, none_from d from i miss before), loaded, written)
    | inr (v, hit) ↦
        let e = recover_hit reason n from d v hit in
        let (loaded, written) = restore_lem from v d l (rw e at h) in
        rw e
          (from, v, (omega arith, omega arith, hit, λ j p q. absurd (omega arith)), loaded, written)
  ]

  recover_hopeless :
      (reason reason' : Reason) (n from : ℕ) (d : Disk)
      → (recover works validate reason n from d).1 ≡ err (corrupted reason')
      → (reason' ≡ reason)
        × ((j : ℕ) → from ≤ j → j < from + n → backup d j ≡ none)
        × ((recover works validate reason n from d).0 ≡ d)
  unfolding recover
  recover_hopeless reason reason' zero from d h =
      (ground arith, λ j p q. absurd (omega arith), refl)
  recover_hopeless reason reason' (suc n) from d h = elim (Option-cases (backup d from)) [
    | inl miss ↦
        let e = recover_miss reason n from d miss in
        let (same, later, kept) = recover_hopeless reason reason' n (suc from) d (rw e at h) in
        (
          same,
          λ j p q. none_from d from (from + suc n) miss (λ k a b. later k a (omega arith)) j p q,
          rw e kept,
        )
    | inr (v, hit) ↦
        absurd (restore_failed from v d reason' (rw (recover_hit reason n from d v hit) at h))
  ]

  -- What a load gives: nothing for a file that is not there, the file's document if it is valid,
  -- and else the newest valid backup.
  pub data Loads (backups : ℕ) (d : Disk) : Loaded → Type 0 where
    missing :
        {l : Loaded}
        → d primary ≡ absent
        → l ≡ record { value = none; source = from_fallback; recovered = false }
        → Loads backups d l
    present :
        {l : Loaded} (v : Json)
        → d primary ≡ document v
        → validate v ≡ true
        → l ≡ record { value = some v; source = from_primary; recovered = false }
        → Loads backups d l
    restored :
        {l : Loaded} (reason : Reason) (i : ℕ) (v : Json)
        → read_valid validate (d primary) ≡ err reason
        → IsNewest d 1 backups i v
        → l ≡ record { value = some v; source = from_backup i; recovered = true }
        → Loads backups d l

  load_rejected :
      (backups : ℕ) (d : Disk) (reason : Reason)
      → read_valid validate (d primary) ≡ err reason
      → load_or_recover works validate backups d ≡ recover works validate reason backups 1 d
  unfolding load_or_recover
  load_rejected backups d reason e = rw (e, load_or_recover)

  -- A load that returns gives nothing only for a file that is not there, the file's own document
  -- only if it is valid, and a backup only if the file is not and no newer backup is valid.
  pub load_or_recover-Loads :
      (backups : ℕ) (d : Disk) (l : Loaded)
      → (load_or_recover works validate backups d).1 ≡ ok l
      → Loads backups d l
  unfolding load_or_recover
  load_or_recover-Loads backups d l h = elim (Result-cases (read_valid validate (d primary))) [
    | inl (none, e) ↦ missing ((read_valid-absent _).0 e) (ground arith)
    | inl (some v, e) ↦
        let (there, valid) = read_valid_sound _ v e in present v there valid (ground arith)
    | inr (reason, e) ↦
        let (i, v, newest, loaded, _) =
          recover-IsNewest reason backups 1 d l (rw (load_rejected backups d reason e) at h) in
        restored reason i v e newest loaded
  ]

  -- A load that fails for corruption reports the file's own fault, had no valid backup, and changed
  -- nothing.
  pub load_or_recover_fails_closed :
      (backups : ℕ) (d : Disk) (reason : Reason)
      → (load_or_recover works validate backups d).1 ≡ err (corrupted reason)
      → (read_valid validate (d primary) ≡ err reason)
        × ((j : ℕ) → 1 ≤ j → j < 1 + backups → backup d j ≡ none)
        × ((load_or_recover works validate backups d).0 ≡ d)
  unfolding load_or_recover
  load_or_recover_fails_closed backups d reason h =
      elim (Result-cases (read_valid validate (d primary))) [
        | inl (none, e) ↦ absurd (ground arith)
        | inl (some v, e) ↦ absurd (ground arith)
        | inr (found, e) ↦
            let r = load_rejected backups d found e in
            let (same, hopeless, kept) = recover_hopeless found reason backups 1 d (rw r at h) in
            (rw same e, hopeless, rw r kept)
      ]

  pub load_present :
      (backups : ℕ) (d : Disk) (v : Json)
      → d primary ≡ document v
      → validate v ≡ true
      → load_or_recover works validate backups d
        ≡ (d, ok (record { value = some v; source = from_primary; recovered = false }))
  unfolding load_or_recover
  load_present backups d v e h = rw (e, read_valid-document v h, load_or_recover)

  pub loaded_document :
      (backups : ℕ) (d : Disk) (l : Loaded) (v : Json)
      → (load_or_recover works validate backups d).1 ≡ ok l
      → l.value ≡ some v
      → ((load_or_recover works validate backups d).0 primary ≡ document v) × (validate v ≡ true)
  unfolding load_or_recover
  loaded_document backups d l v h valued = elim (Result-cases (read_valid validate (d primary))) [
    | inl (none, e) ↦ absurd (ground arith)
    | inl (some w, e) ↦ let (there, valid) = read_valid_sound _ w e in (ground arith, ground arith)
    | inr (reason, e) ↦
        let r = load_rejected backups d reason e in
        let (i, w, newest, loaded, written) = recover-IsNewest reason backups 1 d l (rw r at h) in
        let same : w ≡ v = ground arith in
        (rw (r, ← same) written, rw (← same) (usable_sound (d (bak i)) w newest.2))
  ]

  -- After a load that gave a document, from the file or from a backup, the file holds that
  -- document, and a second load gives it again without a recovery.
  pub load_or_recover_again :
      (backups : ℕ) (d : Disk) (l : Loaded) (v : Json)
      → (load_or_recover works validate backups d).1 ≡ ok l
      → l.value ≡ some v
      → let d' = (load_or_recover works validate backups d).0 in
        load_or_recover works validate backups d'
        ≡ (d', ok (record { value = some v; source = from_primary; recovered = false }))
  load_or_recover_again backups d l v h valued =
      let (there, valid) = loaded_document backups d l v h valued in
      load_present backups _ v there valid
