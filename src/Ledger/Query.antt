-- ===== src/Ledger/Query.antt =====
-- lib/usage-ledger.js, query and rollup. `parse_date` is Date.parse, which gives no number for what
-- is not a date, `iso_date` is the date of a time, and `before` is localeCompare, true where the
-- first text does not come after the second.

use cli_provider_router.Prelude.{
  ℕ, ◌-◌, Bool, true, false, not, ◌&&◌, ◌||◌, Option, none, some, ltb, ◌==◌, if◌then◌else◌, List,
  [], ◌∷◌, ◌++◌, length, drop, all, Text, codes, text_eq, is_digit, Result, ok, err, ◌>>=◌,
}
use cli_provider_router.Json.{
  Json, null, num, str, obj, Fields, end, field, lookup, to_number, to_text, truthy,
}
use cli_provider_router.Ledger.Event.{Tokens, Event, is_nullish, json_or_null}
use cli_provider_router.Ledger.Shards.{Shard, LedgerError, read_all}

-- The errors of a query: those of the shards, and a boundary that is not a date.
pub data QueryError : Type 0 where
  of_ledger : LedgerError → QueryError
  invalid_date : QueryError

abbrev pub text_or_null : Option Text → Json
text_or_null none = null
text_or_null (some t) = str t

unfoldable pub tokens_json : Tokens → Json
tokens_json t = obj (
    field (codes "input") (num t.input) (
      field (codes "output") (num t.output) (
        field (codes "cacheRead") (num t.cache_read) (
          field (codes "cacheWrite") (num t.cache_write)
            (field (codes "total") (num t.total) end)))))

abbrev pub add_optional : Text → Option Json → Fields → Fields
add_optional k none rest = rest
add_optional k (some v) rest = field k v rest

-- The object of a stored event.
unfoldable pub event_fields : Event → Fields
event_fields e = field (codes "version") (num 2) (
    field (codes "eventId") (str e.event_id) (
      field (codes "occurredAt") (num e.occurred_at) (
        field (codes "externalSessionId") (str e.session) (
          field (codes "role") (str e.role_kind) (
            field (codes "roleKind") (str e.role_kind) (
              field (codes "agentRole") (text_or_null e.agent_role) (
                field (codes "routeName") (str e.route_name) (
                  field (codes "providerId") (str e.provider_id) (
                    field (codes "providerName") (str e.provider_name) (
                      field (codes "model") (str e.model) (
                        field (codes "protocol") (str e.protocol) (
                          field (codes "tokens")
                            (elim e.tokens [ none ↦ null | some t ↦ tokens_json t ])
                            (field (codes "latencyMs") (num e.latency_ms) (
                              field (codes "status") (str e.status) (
                                field (codes "coverage") (str e.coverage) (
                                  add_optional (codes "statusCode")
                                    (elim e.status_code [ none ↦ none | some n ↦ some (num n) ])
                                    (field (codes "source") (str e.source) (
                                      add_optional (codes "errorCode")
                                        (elim e.error_code [ none ↦ none | some t ↦ some (str t) ])
                                        (add_optional (codes "fallbackReason")
                                          (elim e.fallback_reason [
                                            | none ↦ none
                                            | some t ↦ some (str t)
                                          ])
                                          end)))))))))))))))))))

-- `String(value)` of a field that may be undefined.
abbrev pub printed : Option Json → Text
printed none = codes "undefined"
printed (some v) = to_text v

-- Filter names with the event's fields that they are compared with.
abbrev pub mappings : List (Text × Text)
mappings =
    (codes "role", codes "roleKind")
    ∷ (codes "roleKind", codes "roleKind")
    ∷ (codes "agentRole", codes "agentRole")
    ∷ (codes "routeName", codes "routeName")
    ∷ (codes "providerId", codes "providerId")
    ∷ (codes "provider", codes "providerId")
    ∷ (codes "model", codes "model")
    ∷ (codes "externalSessionId", codes "externalSessionId")
    ∷ (codes "session", codes "externalSessionId")
    ∷ (codes "protocol", codes "protocol")
    ∷ (codes "source", codes "source")
    ∷ (codes "status", codes "status")
    ∷ (codes "coverage", codes "coverage")
    ∷ []

unfoldable pub field_matches : Fields → Event → Text × Text → Bool
field_matches filters e (k, j) =
    is_nullish (lookup k filters)
    || text_eq (printed (lookup k filters)) (printed (lookup j (event_fields e)))

-- /^\d{4}-\d{2}-\d{2}$/
unfoldable pub is_date : Text → Bool
is_date (a ∷ b ∷ c ∷ d ∷ h ∷ m ∷ n ∷ i ∷ x ∷ y ∷ []) =
    is_digit a
    && is_digit b
    && is_digit c
    && is_digit d
    && h == 45
    && is_digit m
    && is_digit n
    && i == 45
    && is_digit x
    && is_digit y
is_date _ = false

abbrev pub is_blank : Json → Bool
is_blank (str []) = true
is_blank v = false

module _ (parse_date : Text → Option ℕ) (iso_date : ℕ → Text) (before : Text → Text → Bool) where
  abbrev dated : Option ℕ → Result QueryError (Option ℕ)
  dated none = err invalid_date
  dated (some t) = ok (some t)

  unfoldable pub parse_boundary : Option Json → Bool → Result QueryError (Option ℕ)
  parse_boundary none is_end = ok none
  parse_boundary (some null) is_end = ok none
  parse_boundary (some (num n)) is_end = ok (some n)
  parse_boundary (some v) is_end =
      if is_blank v
      then ok none
      else if is_date (to_text v)
      then dated (
          parse_date
            (to_text v ++ (if is_end then codes "T23:59:59.999Z" else codes "T00:00:00.000Z")))
      else dated (parse_date (to_text v))

  abbrev pub from_ok : Option ℕ → ℕ → Bool
  from_ok none t = true
  from_ok (some f) t = not (ltb t f)

  abbrev pub to_ok : Option ℕ → ℕ → Bool
  to_ok none t = true
  to_ok (some u) t = not (ltb u t)

  unfoldable pub event_matches : Fields → Event → Result QueryError Bool
  event_matches filters e = parse_boundary (lookup (codes "from") filters) false >>= λ from.
      parse_boundary (lookup (codes "to") filters) true >>= λ to. ok (
        from_ok from e.occurred_at
        && to_ok to e.occurred_at
        && all (field_matches filters e) mappings)

  unfoldable pub filter_events : Fields → List Event → Result QueryError (List Event)
  filter_events filters [] = ok []
  filter_events filters (e ∷ es) = event_matches filters e >>= λ m.
      filter_events filters es >>= λ rest. ok (if m then e ∷ rest else rest)

  -- `a.occurredAt - b.occurredAt || a.eventId.localeCompare(b.eventId)` is not positive.
  unfoldable pub not_after : Event → Event → Bool
  not_after a b =
      ltb a.occurred_at b.occurred_at
      || (a.occurred_at == b.occurred_at && before a.event_id b.event_id)

  unfoldable pub insert_sorted : Event → List Event → List Event
  insert_sorted e [] = e ∷ []
  insert_sorted e (f ∷ fs) =
      let rest = insert_sorted e fs in if not_after e f then e ∷ f ∷ fs else f ∷ rest

  unfoldable pub sort_events : List Event → List Event
  sort_events [] = []
  sort_events (e ∷ es) = insert_sorted e (sort_events es)

  -- `events.slice(-n)`; `slice(-0)` and `slice(NaN)` give the whole list.
  unfoldable pub slice_last : Option ℕ → List Event → List Event
  slice_last none es = es
  slice_last (some n) es = if n == 0 then es else drop (length es - n) es

  unfoldable pub limit_of : Option Json → List Event → List Event
  limit_of l es = if is_nullish l then es else slice_last (to_number (json_or_null l)) es

  abbrev lift_error : {A : Type 0} → Result LedgerError A → Result QueryError A
  lift_error (ok a) = ok a
  lift_error (err e) = err (of_ledger e)

  unfoldable pub query : Fields → List Shard → Result QueryError (List Event)
  query filters shards = lift_error (read_all shards) >>= λ source.
      filter_events filters source >>= λ events.
      ok (limit_of (lookup (codes "limit") filters) (sort_events events))

  -- `event[key] || ''`, with the keys that stand for another.
  unfoldable pub group_value : Event → Text → Json
  group_value e key =
      if text_eq key (codes "date")
      then str (iso_date e.occurred_at)
      else if text_eq key (codes "provider")
      then str e.provider_id
      else if text_eq key (codes "session")
      then str e.session
      else if text_eq key (codes "role")
      then str e.role_kind
      else elim (lookup key (event_fields e)) [
        | none ↦ str []
        | some v ↦ if truthy v then v else str []
      ]
