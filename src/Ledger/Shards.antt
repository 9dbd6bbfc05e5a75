-- ===== src/Ledger/Shards.antt =====
-- lib/usage-ledger.js, createUsageLedger: appending, the retention policy and pruning, under the
-- ledger's lock. The directory is the list of its shard files in the order of their names; a shard is
-- known by the number of its day since 1970, which the date in its name says. An external storage is
-- not modelled.
use Prim.Native.Nat.{◌*◌, ◌/◌}
use cli_provider_router.Prelude.{
  ℕ, ◌+◌, ◌-◌, Bool, true, false, not, ◌&&◌, ◌||◌, Option, none, some, ltb, ◌==◌, if◌then◌else◌,
  List, [], ◌∷◌, ◌++◌, length, keep, Text, codes, mem_text, is_empty, Result, ok, err, ◌>>=◌,
}
use cli_provider_router.Json.{Json, null, num, str, Fields, end, field, lookup, to_number}
use cli_provider_router.Hop.Routes.{is_given, or_field}
use cli_provider_router.Settings.{insert_all}
use cli_provider_router.Ledger.Event.{EventError, Event, json_or_null, normalize_event}

-- A line of a shard that is not blank; `torn` does not parse. `cut` is what stands after the last
-- newline of the file: the whole object of an event, or text that does not parse.
pub data Line : Type 0 where
  entry : Event → Line
  torn : Line
  cut : Option Event → Line

-- `is_jsonl` tells events-<date>.jsonl from the older events-<date>.json.
pub record Shard : Type 0 where
  pub day : ℕ
  pub is_jsonl : Bool
  pub lines : List Line

pub data LedgerError : Type 0 where
  event_error : EventError → LedgerError
  unreadable_shard write_failed bad_retention : LedgerError

abbrev pub day_ms : ℕ
day_ms = 86400000

-- readShard
unfoldable pub read_lines : List Line → Result LedgerError (List Event)
read_lines [] = ok []
read_lines (torn ∷ ls) = err unreadable_shard
read_lines (cut none ∷ ls) = err unreadable_shard
read_lines (cut (some e) ∷ ls) = read_lines ls >>= λ es. ok (e ∷ es)
read_lines (entry e ∷ ls) = read_lines ls >>= λ es. ok (e ∷ es)

-- `shardFiles().flatMap(readShard)`
unfoldable pub read_all : List Shard → Result LedgerError (List Event)
read_all [] = ok []
read_all (s ∷ ss) = read_lines s.lines >>= λ es. read_all ss >>= λ more. ok (es ++ more)

-- The identifiers that are not empty.
unfoldable pub ids_of : List Event → List Text
ids_of [] = []
ids_of (e ∷ es) = let rest = ids_of es in if is_empty e.event_id then rest else e.event_id ∷ rest

-- The identifiers of the shards up to the first that cannot be read, and whether none was that.
unfoldable pub read_ids : List Shard → List Text × Bool
read_ids [] = ([], true)
read_ids (s ∷ ss) = elim (read_lines s.lines) [
  | err x ↦ ([], false)
  | ok es ↦ (let (ids, whole) = read_ids ss in (ids_of es ++ ids, whole))
]

-- The index is read once, and kept until a prune drops it. A shard that cannot be read stops the
-- reading, and what was read until then is kept as the index.
unfoldable pub ensure_event_index : Option (List Text) → List Shard → List Text × Bool
ensure_event_index (some index) shards = (index, true)
ensure_event_index none shards = read_ids shards

-- How much of a line is written: nothing, a part that does not parse, all but the newline, or all.
pub data Written : Type 0 where
  no_text a_part no_newline a_line : Written

-- The line on its own, and the line after text that has no newline: two objects on one line, or one
-- and a part, do not parse.
unfoldable pub new_line : Written → Event → List Line
new_line no_text e = []
new_line a_part e = cut none ∷ []
new_line no_newline e = cut (some e) ∷ []
new_line a_line e = entry e ∷ []

unfoldable pub glued_line : Written → Option Event → List Line
glued_line no_text o = cut o ∷ []
glued_line a_part o = cut none ∷ []
glued_line no_newline o = cut none ∷ []
glued_line a_line o = torn ∷ []

unfoldable pub add_to_lines : Written → Event → List Line → List Line
add_to_lines w e [] = new_line w e
add_to_lines w e (cut o ∷ []) = glued_line w o
add_to_lines w e (l ∷ ls) = l ∷ add_to_lines w e ls

-- The text goes to the end of the day's file, which is made where it is missing.
unfoldable pub append_line : ℕ → Written → Event → List Shard → List Shard
append_line day w e [] = record { day = day; is_jsonl = true; lines = new_line w e } ∷ []
append_line day w e (s ∷ ss) =
    let rest = append_line day w e ss in
    if ltb day s.day
    then record { day = day; is_jsonl = true; lines = new_line w e } ∷ s ∷ ss
    else if s.day == day && s.is_jsonl
    then record s { lines = add_to_lines w e s.lines } ∷ ss
    else s ∷ rest

-- What becomes of one write of a line: openSync throws; or so much is written, and then writeSync,
-- fsyncSync or closeSync throws, or none does. A writeSync that writes less than it is given does not
-- throw.
pub data Write : Type 0 where
  unopened : Write
  thrown returned : Written → Write

abbrev pub whole : Write
whole = returned a_line

-- What a process of the ledger keeps in memory, and the directory that all of them share.
pub record Ledger : Type 0 where
  pub index : Option (List Text)
  pub shards : List Shard

-- What is left of the directory and the index when a new event is written.
unfoldable pub write_event :
    Write → Event → List Text → List Shard → Ledger × Result LedgerError Bool
write_event unopened e index ss = (record { index = some index; shards = ss }, err write_failed)
write_event (thrown w) e index ss = (
  record { index = some index; shards = append_line (e.occurred_at / day_ms) w e ss },
  err write_failed,
)
write_event (returned w) e index ss = (
  record {
    index = some (e.event_id ∷ index);
    shards = append_line (e.occurred_at / day_ms) w e ss;
  },
  ok true,
)

-- The part of `append` inside the lock.
unfoldable pub insert_event : Write → Event → Ledger → Ledger × Result LedgerError Bool
insert_event w e l =
    let (index, readable) = ensure_event_index l.index l.shards in
    if not readable
    then (record l { index = some index }, err unreadable_shard)
    else if mem_text e.event_id index
    then (record l { index = some index }, ok false)
    else write_event w e index l.shards

unfoldable pub append :
    Write → ℕ → Text → Fields → Ledger → Ledger × Result LedgerError (Bool × Event)
append w now fresh input l = elim (normalize_event now fresh true input) [
  | err x ↦ (l, err (event_error x))
  | ok e ↦ (let (l', r) = insert_event w e l in (l', r >>= λ inserted. ok (inserted, e)))
]

abbrev pub copy_field : Text → Fields → Fields → Fields
copy_field k from rest = elim (lookup k from) [ none ↦ rest | some v ↦ field k v rest ]

abbrev pub value_or : Option Json → Json → Json
value_or v d = if is_given v then json_or_null v else d

-- The input that recordProxyUsage passes on.
unfoldable pub proxy_input : ℕ → Fields → Fields
proxy_input now info = copy_field (codes "eventId") info (
    field (codes "occurredAt") (value_or (lookup (codes "occurredAt") info) (num now)) (
      field (codes "externalSessionId")
        (json_or_null
          (or_field (lookup (codes "externalSessionId") info) (lookup (codes "sessionId") info)))
        (copy_field (codes "role") info (
          copy_field (codes "roleKind") info (
            copy_field (codes "agentRole") info (
              copy_field (codes "routeName") info (
                copy_field (codes "providerId") info (
                  copy_field (codes "providerName") info (
                    copy_field (codes "model") info (
                      copy_field (codes "protocol") info (
                        field (codes "tokens")
                          (json_or_null
                            (or_field (lookup (codes "usage") info) (lookup (codes "tokens") info)))
                          (copy_field (codes "latencyMs") info (
                            field (codes "status")
                              (value_or (lookup (codes "status") info) (str (codes "success")))
                              (copy_field (codes "statusCode") info (
                                copy_field (codes "coverage") info (
                                  field (codes "source")
                                    (value_or (lookup (codes "source") info) (str (codes "exact")))
                                    (copy_field (codes "errorCode") info (
                                      copy_field (codes "fallbackReason") info end))))))))))))))))))

unfoldable pub record_proxy_usage :
    Write → ℕ → Text → Fields → Ledger → Ledger × Result LedgerError (Bool × Event)
record_proxy_usage w now fresh info l = append w now fresh (proxy_input now info) l

unfoldable pub unobservable_input : Fields → Fields
unobservable_input input = insert_all input (
    field (codes "status") (value_or (lookup (codes "status") input) (str (codes "unobservable"))) (
      field (codes "coverage") (str (codes "unobservable")) (
        field (codes "tokens") null (
          field (codes "source") (value_or (lookup (codes "source") input) (str (codes "exact")))
            end))))

unfoldable pub record_unobservable :
    Write → ℕ → Text → Fields → Ledger → Ledger × Result LedgerError (Bool × Event)
record_unobservable w now fresh input l = append w now fresh (unobservable_input input) l

abbrev pub default_retention_days : ℕ
default_retention_days = 90

-- getPolicy: the fields of the policy file, and the option of the ledger.
unfoldable pub get_policy : Fields → Option Json → ℕ
get_policy policy option =
    elim (to_number (
      json_or_null (
        or_field (lookup (codes "retentionDays") policy)
          (or_field option (some (num default_retention_days)))))) [
            | none ↦ default_retention_days
            | some n ↦ if n == 0 then default_retention_days else n
          ]

-- setRetentionDays: the policy that is written.
unfoldable pub set_retention_days : Json → ℕ → Result LedgerError Fields
set_retention_days days now = elim (to_number days) [
  | none ↦ err bad_retention
  | some n ↦
      if n == 0
      then err bad_retention
      else ok (field (codes "retentionDays") (num n) (field (codes "updatedAt") (num now) end))
]

-- 23:59:59.999 of the day.
abbrev pub shard_end : Shard → ℕ
shard_end s = s.day * day_ms + 86399999

abbrev pub is_expired : ℕ → Shard → Bool
is_expired cutoff s = ltb (shard_end s) cutoff

pub record Pruned : Type 0 where
  pub retention_days : ℕ
  pub dry_run : Bool
  pub removed : List Shard

-- A cutoff before 1970 expires nothing, and is 0 here.
unfoldable pub prune : Option Json → ℕ → Bool → ℕ → Ledger → Ledger × Result LedgerError Pruned
prune requested policy_days dry_run now l =
    elim (to_number (json_or_null (or_field requested (some (num policy_days))))) [
      | none ↦ (l, err bad_retention)
      | some days ↦
          let removed = keep (is_expired (now - days * day_ms)) l.shards in
          if days == 0 then (l, err bad_retention) else (
            if dry_run || length removed == 0 then l else record {
              index = none;
              shards = keep (λ s. not (is_expired (now - days * day_ms) s)) l.shards;
            },
            ok (record { retention_days = days; dry_run = dry_run; removed = removed }),
          )
    ]
