-- ===== src/Durable/Laws.antt =====
-- lib/durable-store.js: a saved envelope is read back, and what a load changes.
use cli_provider_router.Prelude.{
  ℕ, ◌≡◌, ◌≢◌, refl, inl, inr, Bool, true, false, some, arith, Text, codes, text_eq, text_eq_iff,
  text_eq_refl, Result, ok, err, Result-cases, Option-cases,
}
use cli_provider_router.Json.{Json}
use cli_provider_router.Atomic.{
  Disk, Step, Reason, StateError, primary, document, from_primary, corrupted, load_or_recover,
  Loaded,
}
use cli_provider_router.Atomic.Recovery.{
  load_present, load_or_recover_again, loaded_document, load_or_recover_fails_closed,
}
use cli_provider_router.Durable.{
  Schema, Current, parse_document, document_parses, envelope_of, load, read_loaded,
}

-- The payload's key is none of the envelope's own.
pub record IsPlainKey (s : Schema) : Type 0 where
  pub not_schema : codes "schema" ≢ s.payload_key
  pub not_version : codes "version" ≢ s.payload_key
  pub not_revision : codes "revision" ≢ s.payload_key
  pub not_updated : codes "updatedAt" ≢ s.payload_key

eq_false : (a b : Text) → a ≢ b → text_eq a b ≡ false
eq_false a b h = ground (arith, text_eq_iff a b)

module _ (s : Schema) (plain : IsPlainKey s) where
  -- What is read back of a written envelope.
  pub parse_document-envelope_of :
      (payload : Json) (revision now : ℕ)
      → parse_document s (envelope_of s payload revision now)
        ≡ ok (record {
          payload = payload;
          revision = revision;
          version = some s.version;
          legacy = false;
        })
  unfolding parse_document envelope_of
  parse_document-envelope_of payload revision now = ground (
    arith,
    eq_false (codes "schema") s.payload_key plain.not_schema,
    eq_false (codes "version") s.payload_key plain.not_version,
    eq_false (codes "revision") s.payload_key plain.not_revision,
    eq_false (codes "updatedAt") s.payload_key plain.not_updated,
    text_eq_refl s.name,
    text_eq_refl s.payload_key,
  )

-- What a load gives after a write of this payload and revision.
abbrev pub written : Schema → Json → ℕ → Current
written s payload revision = record {
  document = record {
    payload = payload;
    revision = revision;
    version = some s.version;
    legacy = false;
  };
  is_present = true;
  recovered = false;
  source = from_primary;
}

module _ (works : Step → Bool) (s : Schema) where
  pub load-envelope_of :
      (plain : IsPlainKey s) (payload : Json) (revision now : ℕ) (d : Disk)
      → d primary ≡ document (envelope_of s payload revision now)
      → load works s d ≡ (d, ok (written s payload revision))
  unfolding load
  load-envelope_of plain payload revision now d e =
      let parsed = parse_document-envelope_of s plain payload revision now in
      let valid : document_parses s (envelope_of s payload revision now) ≡ true =
        unfold document_parses in rw parsed refl in
      rw (load_present works (document_parses s) s.backups d _ e valid)
        (rw (parsed, read_loaded) refl)

  unparsed :
      (v : Json) (reason : Reason)
      → document_parses s v ≡ true
      → parse_document s v ≡ err reason
      → ⊥
  unfolding document_parses
  unparsed v reason h e = ground arith

  load_parts :
      (d : Disk) (c : Current)
      → (load works s d).1 ≡ ok c
      → (l : Loaded) × ((load_or_recover works (document_parses s) s.backups d).1 ≡ ok l)
        × (read_loaded works s l ≡ ok c)
  unfolding load
  load_parts d c h = elim (Result-cases (load_or_recover works (document_parses s) s.backups d).1) [
    | inl (l, e) ↦ (l, e, rw (← h, e))
    | inr (x, e) ↦ absurd (ground arith)
  ]

  load_disk :
      (d : Disk) → (load works s d).0 ≡ (load_or_recover works (document_parses s) s.backups d).0
  unfolding load
  load_disk d = refl

  load_of_loaded :
      (d d' : Disk) (l : Loaded) (r : Result StateError Current)
      → load_or_recover works (document_parses s) s.backups d ≡ (d', ok l)
      → read_loaded works s l ≡ r
      → load works s d ≡ (d', r)
  unfolding load
  load_of_loaded d d' l r e f = rw (e, f)

  read_loaded_present :
      (l : Loaded) (c : Current)
      → read_loaded works s l ≡ ok c
      → c.is_present ≡ true
      → (v : Json) × (l.value ≡ some v)
        × (read_loaded works s (record { value = some v; source = from_primary; recovered = false })
            ≡ ok (record c { recovered = false; source = from_primary }))
  unfolding read_loaded
  read_loaded_present l c h there = elim (Option-cases l.value) [
    | inl e ↦ absurd (ground arith)
    | inr (v, e) ↦ (v, e, ground arith)
  ]

  -- The file then holds what a load gave, from a backup too: the next load gives it again, without
  -- a recovery.
  pub load_again :
      (d : Disk) (c : Current)
      → (load works s d).1 ≡ ok c
      → c.is_present ≡ true
      → load works s (load works s d).0
        ≡ ((load works s d).0, ok (record c { recovered = false; source = from_primary }))
  load_again d c h there = rw (load_disk d) (
      let (l, loaded, parsed) = load_parts d c h in
      let (v, valued, again) = read_loaded_present l c parsed there in
      let e = load_or_recover_again works (document_parses s) s.backups d l v loaded valued in
      load_of_loaded _ _ _ _ e again)

  loaded_parses :
      (d : Disk) (l : Loaded) (reason : Reason)
      → (load_or_recover works (document_parses s) s.backups d).1 ≡ ok l
      → read_loaded works s l ≡ err (corrupted reason)
      → ⊥
  unfolding read_loaded
  loaded_parses d l reason e h = elim (Option-cases l.value) [
    | inl n ↦ ground arith
    | inr (v, n) ↦
        let valid = (loaded_document works (document_parses s) s.backups d l v e n).1 in
        unparsed v reason valid (ground arith)
  ]

  -- A load that fails for corruption has changed nothing.
  pub load_fails_closed :
      (d : Disk) (reason : Reason)
      → (load works s d).1 ≡ err (corrupted reason)
      → (load works s d).0 ≡ d
  unfolding load
  load_fails_closed d reason h =
      elim (Result-cases (load_or_recover works (document_parses s) s.backups d).1) [
        | inl (l, e) ↦ absurd (loaded_parses d l reason e (ground arith))
        | inr (x, e) ↦
            (load_or_recover_fails_closed works (document_parses s) s.backups d reason
              (ground arith)).2
      ]
