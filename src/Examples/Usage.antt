-- ===== src/Examples/Usage.antt =====
-- lib/usage-ledger.js at a few events, in a ledger of one or two shards.
use Prim.Native.Nat.{◌*◌}
use mathlib.Core.List.{Perm}
use cli_provider_router.Prelude.{
  keep, ℕ, ◌+◌, ◌-◌, ◌≤◌, ◌≡◌, refl, Bool, true, false, Option, none, some, List, [], ◌∷◌, All,
  Text, codes, mem_text, text_eq, ok, err, arith,
}
use cli_provider_router.Json.{num, str, Fields, end, field, lookup, to_text, to_number}
use cli_provider_router.Durable.{insert_field}
use cli_provider_router.Ledger.Event.{Tokens, Event}
use cli_provider_router.Ledger.Shards.{
  entry, torn, Shard, unreadable_shard, read_lines, read_all, read_ids, Write, whole, unopened,
  thrown, returned, a_part, a_line, write_failed, Ledger, insert_event, Pruned, prune,
}
use cli_provider_router.Ledger.Query.{
  event_matches, field_matches, parse_boundary, filter_events, not_after, insert_sorted,
  sort_events, slice_last, limit_of, query, group_value, event_fields, tokens_json,
}
use cli_provider_router.Ledger.Rollup.{
  Row, count_status, count_tokens, count_event, count_in, json_eq, fields_eq, split_commas,
  group_keys, coverage_ratio, avg_latency, group_of, rows_of, rollup,
}
use cli_provider_router.Ledger.Totals.{Counts, rollup_conserves}
use cli_provider_router.Ledger.Once.{count_id, IsOnce}
use cli_provider_router.Ledger.Appends.{
  Call, appends, appends-IsOnce, stale_index_stores_twice, torn_shard_stores_again,
  unreported_stores_twice,
}
use cli_provider_router.Ledger.Retention.{recent, IsStale, prune_keeps_recent}
use cli_provider_router.Ledger.Order.{IsOrdered, is_match, IsEnd, limit_number, query_lem}

-- Stand-ins for Date.parse, for the date of a time, and for localeCompare.
abbrev no_date : Text → Option ℕ
no_date t = none

abbrev one_date : ℕ → Text
one_date t = codes "1970-01-02"

abbrev first_of_two : Text → Text → Bool
first_of_two a b = true

abbrev event_at : Text → ℕ → Option Tokens → Event
event_at id t tokens = record {
  event_id = id;
  occurred_at = t;
  session = codes "s";
  role_kind = codes "main";
  agent_role = none;
  route_name = codes "main";
  provider_id = codes "p";
  provider_name = [];
  model = codes "m";
  protocol = codes "chat";
  tokens = tokens;
  latency_ms = 30;
  status = codes "success";
  coverage = codes "observed";
  status_code = none;
  source = codes "exact";
  error_code = none;
  fallback_reason = none;
}

abbrev three_tokens : Tokens
three_tokens = record { input = 1; output = 2; cache_read = 0; cache_write = 0; total = 3 }

abbrev late : Event
late = event_at (codes "b") 86400009 (some three_tokens)

abbrev early : Event
early = event_at (codes "a") 86400001 none

abbrev day_one : Shard
day_one = record { day = 1; is_jsonl = true; lines = entry late ∷ entry early ∷ [] }

abbrev day_zero : Shard
day_zero = record { day = 0; is_jsonl = true; lines = entry (event_at (codes "z") 5 none) ∷ [] }

abbrev last_one : Fields
last_one = field (codes "limit") (num 1) end

abbrev late_only : List Event
late_only = late ∷ []

last_event : query no_date one_date first_of_two last_one (day_one ∷ []) ≡ ok late_only
unfolding query read_all read_lines filter_events event_matches field_matches parse_boundary lookup
    sort_events insert_sorted not_after limit_of slice_last to_number text_eq
last_event = refl

query_lem_example :
    (source : List Event) × (matched : List Event) × (all : List Event) × (read_all (day_one ∷ [])
      ≡ ok source)
    × (filter_events no_date one_date first_of_two last_one source ≡ ok matched)
    × (matched ≡ keep (is_match no_date one_date first_of_two last_one) source)
    × Perm all matched
    × IsOrdered all
    × IsEnd no_date one_date first_of_two
        (limit_number no_date one_date first_of_two (lookup (codes "limit") last_one))
        all
        late_only
query_lem_example =
    query_lem no_date one_date first_of_two last_one (day_one ∷ []) late_only last_event

abbrev by_model : Fields
by_model = field (codes "model") (str (codes "m")) end

abbrev model_row : Row
model_row = record {
  group = by_model;
  events = 2;
  successful = 2;
  failed = 0;
  observed = 1;
  unobservable = 1;
  input_tokens = 1;
  output_tokens = 2;
  cache_read = 0;
  cache_write = 0;
  total_tokens = 3;
  exact = 2;
  reconciled = 0;
  latency_ms = 60;
}

rolled_up :
    rollup no_date one_date first_of_two end (some (str (codes "model"))) (day_one ∷ [])
    ≡ ok ((model_row, 5000, 30) ∷ [])
unfolding rollup query read_all read_lines filter_events event_matches field_matches parse_boundary
    lookup sort_events insert_sorted not_after limit_of rows_of group_of group_keys split_commas
    group_value event_fields tokens_json count_in count_event count_status count_tokens fields_eq
    json_eq coverage_ratio avg_latency to_text insert_field
rolled_up = refl

rollup_conserves_example :
    (es : List Event) × (query no_date one_date first_of_two end (day_one ∷ []) ≡ ok es)
    × Counts es ((model_row, 5000, 30) ∷ [])
rollup_conserves_example =
    rollup_conserves no_date one_date first_of_two end (some (str (codes "model"))) (day_one ∷ [])
      ((model_row, 5000, 30) ∷ []) rolled_up

abbrev input_a : Fields
input_a = field (codes "eventId") (str (codes "a")) (
    field (codes "roleKind") (str (codes "main")) (
      field (codes "providerId") (str (codes "p")) (
        field (codes "sessionId") (str (codes "s"))
          (field (codes "protocol") (str (codes "chat")) end))))

abbrev empty_ledger : Ledger
empty_ledger = record { index = none; shards = [] }

abbrev call_with : Write → Call
call_with w = record { write = w; now = 7; fresh = codes "f"; input = input_a }

abbrev three_calls : List Call
three_calls = call_with (thrown a_part) ∷ call_with whole ∷ call_with (returned a_part) ∷ []

empty-IsOnce : IsOnce empty_ledger
unfolding read_ids
empty-IsOnce = (λ id n. arith_le, refl)
  where
    arith_le : 0 ≤ 1
    arith_le = omega arith

appends-IsOnce_example : IsOnce (appends three_calls empty_ledger)
appends-IsOnce_example =
    appends-IsOnce three_calls empty_ledger (refl, (refl, (refl, tt))) empty-IsOnce

abbrev read_ledger : Ledger
read_ledger = record { index = some []; shards = [] }

stale_index_stores_twice_example :
    let (l, stored) = insert_event whole late read_ledger in
    let (k, again) = insert_event whole late (record { index = some []; shards = l.shards }) in
    (stored ≡ ok true)
    × (again ≡ ok true)
    × (count_id late.event_id k.shards ≡ count_id late.event_id [] + 2)
unfolding mem_text
stale_index_stores_twice_example = stale_index_stores_twice late [] [] [] refl refl refl

unreported_stores_twice_example :
    let (l, first) = insert_event (thrown a_line) late read_ledger in
    let (k, second) = insert_event whole late l in
    (first ≡ err write_failed)
    × (second ≡ ok true)
    × (count_id late.event_id k.shards ≡ count_id late.event_id [] + 2)
unfolding mem_text
unreported_stores_twice_example = unreported_stores_twice late [] [] refl refl

abbrev torn_day : Shard
torn_day = record { day = 0; is_jsonl = true; lines = torn ∷ [] }

torn_day_lines : read_lines torn_day.lines ≡ err unreadable_shard
unfolding read_lines
torn_day_lines = refl

torn_shard_stores_again_example :
    let ss = day_one ∷ [] in
    let (l, first) = insert_event unopened late (record { index = none; shards = torn_day ∷ ss }) in
    let (k, second) = insert_event whole late l in
    (first ≡ err unreadable_shard)
    × (l.shards ≡ torn_day ∷ ss)
    × (second ≡ ok true)
    × (count_id late.event_id k.shards ≡ count_id late.event_id (torn_day ∷ ss) + 1)
torn_shard_stores_again_example =
    torn_shard_stores_again unopened late torn_day (day_one ∷ []) unreadable_shard torn_day_lines
      refl

abbrev two_days : Ledger
two_days = record { index = none; shards = day_zero ∷ day_one ∷ [] }

abbrev one_gone : Pruned
one_gone = record { retention_days = 1; dry_run = false; removed = day_zero ∷ [] }

pruned_one : (prune none 1 false 200000000 two_days).1 ≡ ok one_gone
unfolding prune to_number
pruned_one = refl

prune_keeps_recent_example :
    let after = (prune none 1 false 200000000 two_days).0 in
    let cutoff = 200000000 - 1 * 86400000 in
    (recent cutoff after.shards ≡ recent cutoff two_days.shards)
    × All (IsStale cutoff) one_gone.removed
    × (false ≡ true → after ≡ two_days)
prune_keeps_recent_example =
    prune_keeps_recent none 1 false 200000000 two_days one_gone
      ((refl, tt), ((refl, (refl, tt)), tt)) pruned_one
