-- ===== src/Durable.antt =====
-- lib/durable-store.js, createDurableStore: the schema envelope, loads, saves with an expected
-- revision, and locked read-modify-write. The functions run under the file lock, whose protocol is
-- modelled in Lock.antt; `now` is Date.now(), and `works` is as in Atomic.antt.
pub mod Laws
pub mod Updates
pub mod Changes
use cli_provider_router.Prelude.{
  ℕ, ◌+◌, Bool, true, false, not, ◌&&◌, Option, none, some, ltb, ◌==◌, if◌then◌else◌, Text, codes,
  text_eq, Result, ok, err, ◌>>=◌,
}
use cli_provider_router.Json.{Json, null, num, str, obj, Fields, end, field, lookup, to_number}
use cli_provider_router.Atomic.{
  Disk, Step, Reason, invalid, StateError, corrupted, write_failed, Source, Loaded,
  write_json_atomic, load_or_recover,
}

-- The options of a store; a store with no `migrateLegacy` has one that gives `none`.
pub record Schema : Type 0 where
  pub name : Text
  pub version : ℕ
  pub payload_key : Text
  pub default_payload : Json
  pub migrate_legacy : Json → Option Json
  pub backups : ℕ

pub record Envelope : Type 0 where
  pub payload : Json
  pub revision : ℕ
  pub version : Option Json

pub record Document : Type 0 where
  pub payload : Json
  pub revision : ℕ
  pub version : Option ℕ
  pub legacy : Bool

abbrev pub is_text : Text → Option Json → Bool
is_text t (some (str s)) = text_eq s t
is_text t _ = false

abbrev pub as_number : Option Json → Option ℕ
as_number (some (num n)) = some n
as_number _ = none

-- `isEnvelope`, with the parts that the test finds.
unfoldable pub envelope : Schema → Json → Option Envelope
unfolding lookup text_eq
envelope s (obj fs) =
    if is_text s.name (lookup (codes "schema") fs)
    then elim (as_number (lookup (codes "revision") fs)) [
      | none ↦ none
      | some r ↦ elim (lookup s.payload_key fs) [
        | none ↦ none
        | some p ↦
            some (record { payload = p; revision = r; version = lookup (codes "version") fs })
      ]
    ]
    else none
envelope s _ = none

-- `raw.version == null ? schemaVersion : Number(raw.version)`; `none` is NaN.
unfoldable pub envelope_version : Schema → Option Json → Option ℕ
unfolding to_number
envelope_version s none = some s.version
envelope_version s (some null) = some s.version
envelope_version s (some v) = to_number v

-- `version > schemaVersion`, false for NaN.
abbrev pub is_newer : Schema → Option ℕ → Bool
is_newer s none = false
is_newer s (some v) = ltb s.version v

unfoldable pub parse_document : Schema → Json → Result Reason Document
unfolding envelope envelope_version
parse_document s raw = elim (envelope s raw) [
  | some e ↦
      let version = envelope_version s e.version in
      if is_newer s version
      then err invalid
      else ok
          (record { payload = e.payload; revision = e.revision; version = version; legacy = false })
  | none ↦ elim (s.migrate_legacy raw) [
    | some p ↦ ok (record { payload = p; revision = 0; version = some s.version; legacy = true })
    | none ↦ err invalid
  ]
]

abbrev pub succeeds {ℓ} : {E : Type 0} {A : Type ℓ} → Result E A → Bool
succeeds (ok a) = true
succeeds (err e) = false

unfoldable pub document_parses : Schema → Json → Bool
unfolding parse_document
document_parses s raw = succeeds (parse_document s raw)

-- An object literal's last field, under a computed key, replaces an earlier one of that name.
unfoldable pub insert_field : Text → Json → Fields → Fields
unfolding text_eq
insert_field k v end = field k v end
insert_field k v (field j w fs) =
    let rest = insert_field k v fs in if text_eq j k then field j v fs else field j w rest

unfoldable pub envelope_of : Schema → Json → ℕ → ℕ → Json
unfolding insert_field
envelope_of s payload revision now = obj (
    insert_field s.payload_key payload (
      field (codes "schema") (str s.name) (
        field (codes "version") (num s.version)
          (field (codes "revision") (num revision) (field (codes "updatedAt") (num now) end)))))

pub record Current : Type 0 where
  pub document : Document
  pub open document use *
  pub is_present : Bool
  pub recovered : Bool
  pub source : Source

-- What a caller of `save` or `mutate` may get instead of a result. `thrown` is an error of the
-- callback of `mutate`.
pub data StoreError (E : Type 0) : Type 0 where
  state_error : StateError → StoreError E
  revision_conflict : ℕ → ℕ → StoreError E
  bad_outcome : StoreError E
  thrown : E → StoreError E

-- What the callback of `mutate` returns: null, `{ next, result }`, or something else.
pub data Outcome {ℓ} (R : Type ℓ) : Type ℓ where
  unchanged : Outcome R
  next : Json → R → Outcome R
  shapeless : Outcome R

pub record Mutated {ℓ} (R : Type ℓ) : Type ℓ where
  pub changed : Bool
  pub revision : ℕ
  pub result : Option R

-- `expected != null && Number(expected) !== revision`.
abbrev pub conflicts : Option ℕ → ℕ → Bool
conflicts none r = false
conflicts (some e) r = not (e == r)

-- `Number(expected)` of an expectation that is there.
abbrev pub or_zero : Option ℕ → ℕ
or_zero none = 0
or_zero (some e) = e

abbrev pub default_document : Schema → Document
default_document s = record {
  payload = s.default_payload;
  revision = 0;
  version = some s.version;
  legacy = false;
}

module _ (works : Step → Bool) (s : Schema) where
  -- The part of `load` behind `loadOrRecover`.
  unfoldable pub read_loaded : Loaded → Result StateError Current
  unfolding parse_document
  read_loaded l = elim l.value [
    | none ↦ ok (record {
      document = default_document s;
      is_present = false;
      recovered = false;
      source = l.source;
    })
    | some v ↦ elim (parse_document s v) [
      | err e ↦ err (corrupted e)
      | ok doc ↦
          ok (record {
            document = doc;
            is_present = true;
            recovered = l.recovered;
            source = l.source;
          })
    ]
  ]

  unfoldable pub load : Disk → Disk × Result StateError Current
  unfolding read_loaded document_parses load_or_recover
  load d =
      let (d', loaded) = load_or_recover works (document_parses s) s.backups d in
      (d', loaded >>= read_loaded)

  unfoldable pub write_envelope : Json → ℕ → ℕ → Disk → Disk × Bool
  unfolding envelope_of write_json_atomic
  write_envelope payload revision now d =
      write_json_atomic works s.backups (envelope_of s payload revision now) d

  -- The new revision, once it is written.
  unfoldable pub commit {ℓ} :
      {E : Type 0} {A : Type ℓ} → Json → ℕ → ℕ → A → Disk → Disk × Result (StoreError E) A
  unfolding write_envelope
  commit payload revision now answer d =
      let (d', wrote) = write_envelope payload revision now d in
      (d', if wrote then ok answer else err (state_error write_failed))

  -- `save` calls back nothing, so nothing else is thrown.
  unfoldable pub save : Json → Option ℕ → ℕ → Disk → Disk × Result (StoreError ⊥) ℕ
  unfolding load commit
  save payload expected now d =
      let (d', current) = load d in
      elim current [
        | err e ↦ (d', err (state_error e))
        | ok c ↦
            if conflicts expected c.revision
            then (d', err (revision_conflict (or_zero expected) c.revision))
            else commit payload (c.revision + 1) now (c.revision + 1) d'
      ]

  -- The part of `mutate` behind its callback.
  unfoldable pub settle {ℓ} :
      {E : Type 0} {R : Type ℓ}
      → Result E (Outcome R)
      → ℕ
      → ℕ
      → Disk
      → Disk × Result (StoreError E) (Mutated R)
  unfolding commit
  settle (err e) revision now d = (d, err (thrown e))
  settle (ok unchanged) revision now d =
      (d, ok (record { changed = false; revision = revision; result = none }))
  settle (ok shapeless) revision now d = (d, err bad_outcome)
  settle (ok (next payload r)) revision now d =
      commit payload (revision + 1) now
        (record { changed = true; revision = revision + 1; result = some r }) d

  unfoldable pub mutate {ℓ} :
      {E : Type 0} {R : Type ℓ}
      → (Json → ℕ → Bool → Result E (Outcome R))
      → ℕ
      → Disk
      → Disk × Result (StoreError E) (Mutated R)
  unfolding load settle
  mutate fn now d =
      let (d', current) = load d in
      elim current [
        | err e ↦ (d', err (state_error e))
        | ok c ↦ settle (fn c.payload c.revision c.is_present) c.revision now d'
      ]
