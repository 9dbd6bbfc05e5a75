-- ===== src/Ledger/Rollup.antt =====
-- lib/usage-ledger.js, rollup: the counters of each group of events. A row's counters are kept apart
-- from the group's own fields; the ratio of coverage is in ten thousandths.
use Prim.Native.Nat.{◌*◌, ◌/◌}
use cli_provider_router.Prelude.{
  ℕ, zero, suc, ◌+◌, Bool, true, false, not, ◌&&◌, Option, none, some, ◌==◌, if◌then◌else◌, List,
  [], ◌∷◌, map, Text, codes, text_eq, is_empty, Result, ok, ◌>>=◌,
}
use cli_provider_router.Json.{
  Json, null, bool, num, str, arr, obj, Items, nil, cons, Fields, end, field, to_text, or_blank,
}
use cli_provider_router.Durable.{insert_field}
use cli_provider_router.Ledger.Event.{Tokens, Event}
use cli_provider_router.Ledger.Shards.{Shard}
use cli_provider_router.Ledger.Query.{QueryError, query, group_value}

abbrev pub bool_eq : Bool → Bool → Bool
bool_eq true b = b
bool_eq false b = not b

-- Equality of what JSON.stringify prints.
unfoldable mutual
  pub json_eq : Json → Json → Bool
  json_eq null null = true
  json_eq (bool a) (bool b) = bool_eq a b
  json_eq (num a) (num b) = a == b
  json_eq (str a) (str b) = text_eq a b
  json_eq (arr a) (arr b) = items_eq a b
  json_eq (obj a) (obj b) = fields_eq a b
  json_eq _ _ = false

  pub items_eq : Items → Items → Bool
  items_eq nil nil = true
  items_eq (cons v vs) (cons w ws) = json_eq v w && items_eq vs ws
  items_eq _ _ = false

  pub fields_eq : Fields → Fields → Bool
  fields_eq end end = true
  fields_eq (field k v fs) (field j w gs) = text_eq k j && json_eq v w && fields_eq fs gs
  fields_eq _ _ = false

-- `text.split(',').filter(Boolean)`, the current part in reverse.
abbrev pub reversed : Text → Text → Text
reversed [] acc = acc
reversed (c ∷ s) acc = reversed s (c ∷ acc)

abbrev pub add_part : Text → List Text → List Text
add_part part rest = if is_empty part then rest else reversed part [] ∷ rest

unfoldable pub split_commas : Text → Text → List Text
split_commas [] part = add_part part []
split_commas (c ∷ s) part =
    let cut = split_commas s [] in
    let longer = split_commas s (c ∷ part) in if c == 44 then add_part part cut else longer

abbrev pub item_texts : Items → List Text
item_texts nil = []
item_texts (cons v vs) = to_text v ∷ item_texts vs

unfoldable pub group_keys : Option Json → List Text
group_keys none = []
group_keys (some (arr vs)) = item_texts vs
group_keys (some v) = split_commas (to_text (or_blank (some v))) []

pub record Row : Type 0 where
  pub group : Fields
  pub events : ℕ
  pub successful : ℕ
  pub failed : ℕ
  pub observed : ℕ
  pub unobservable : ℕ
  pub input_tokens : ℕ
  pub output_tokens : ℕ
  pub cache_read : ℕ
  pub cache_write : ℕ
  pub total_tokens : ℕ
  pub exact : ℕ
  pub reconciled : ℕ
  pub latency_ms : ℕ

abbrev pub empty_row : Fields → Row
empty_row group = record {
  group = group;
  events = 0;
  successful = 0;
  failed = 0;
  observed = 0;
  unobservable = 0;
  input_tokens = 0;
  output_tokens = 0;
  cache_read = 0;
  cache_write = 0;
  total_tokens = 0;
  exact = 0;
  reconciled = 0;
  latency_ms = 0;
}

-- What does not depend on the tokens.
unfoldable pub count_status : Event → Row → Row
count_status e r = record r {
  events = r.events + 1;
  failed = if text_eq e.status (codes "error") then r.failed + 1 else r.failed;
  successful = if text_eq e.status (codes "success") then r.successful + 1 else r.successful;
  exact = if text_eq e.source (codes "exact") then r.exact + 1 else r.exact;
  reconciled = if text_eq e.source (codes "reconciled") then r.reconciled + 1 else r.reconciled;
  latency_ms = r.latency_ms + e.latency_ms;
}

unfoldable pub count_tokens : Option Tokens → Row → Row
count_tokens none r = record r { unobservable = r.unobservable + 1 }
count_tokens (some t) r = record r {
  observed = r.observed + 1;
  input_tokens = r.input_tokens + t.input;
  output_tokens = r.output_tokens + t.output;
  cache_read = r.cache_read + t.cache_read;
  cache_write = r.cache_write + t.cache_write;
  total_tokens = r.total_tokens + t.total;
}

unfoldable pub count_event : Event → Row → Row
count_event e r = count_tokens e.tokens (count_status e r)

-- The Map of rows in the order of their first events.
unfoldable pub count_in : Fields → Event → List Row → List Row
count_in g e [] = count_event e (empty_row g) ∷ []
count_in g e (r ∷ rs) =
    let rest = count_in g e rs in if fields_eq r.group g then count_event e r ∷ rs else r ∷ rest

-- `Number((observed / events).toFixed(4))` in ten thousandths, and `Math.round(total / events)`.
abbrev pub rounded : ℕ → ℕ → ℕ
rounded n zero = 0
rounded n (suc d) = (2 * n + suc d) / (2 * suc d)

unfoldable pub coverage_ratio : Row → ℕ
coverage_ratio r = rounded (r.observed * 10000) r.events

unfoldable pub avg_latency : Row → ℕ
avg_latency r = rounded r.latency_ms r.events

module _ (parse_date : Text → Option ℕ) (iso_date : ℕ → Text) (before : Text → Text → Bool) where
  -- `Object.fromEntries(keys.map(key => [key, groupValue(event, key)]))`
  unfoldable pub group_of : Event → List Text → Fields → Fields
  group_of e [] fs = fs
  group_of e (k ∷ ks) fs =
      group_of e ks (insert_field k (group_value parse_date iso_date before e k) fs)

  unfoldable pub rows_of : List Text → List Event → List Row → List Row
  rows_of keys [] rows = rows
  rows_of keys (e ∷ es) rows = rows_of keys es (count_in (group_of e keys end) e rows)

  -- Each row with its ratio of coverage and its average latency.
  unfoldable pub rollup : Fields → Option Json → List Shard → Result QueryError (List (Row × ℕ × ℕ))
  rollup filters group_by shards = query parse_date iso_date before filters shards >>= λ events.
      ok (map (λ r. (r, coverage_ratio r, avg_latency r)) (rows_of (group_keys group_by) events []))
