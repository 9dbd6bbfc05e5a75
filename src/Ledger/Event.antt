-- ===== src/Ledger/Event.antt =====
-- lib/usage-ledger.js, normalizeUsageEvent and normalizeTokens: the event that is stored. An input
-- is the fields of an object; `now` is Date.now() and `fresh` is crypto.randomUUID().
use cli_provider_router.Prelude.{
  ℕ, ◌+◌, Bool, true, false, not, ◌||◌, Option, none, some, ◌==◌, if◌then◌else◌, List, [], ◌∷◌,
  take, Text, codes, text_eq, is_empty, mem_text, trim, lower, Result, ok, err, ◌>>=◌, ◌>>◌,
  require,
}
use cli_provider_router.Json.{Json, null, num, str, obj, Fields, lookup, to_number, to_text}
use cli_provider_router.Hop.Routes.{is_role_name, is_given, or_field}

-- The errors that are thrown; `bad_number` has the label.
pub data EventError : Type 0 where
  bad_number : Text → EventError
  bad_time missing_id bad_role bad_source bad_status bad_coverage bad_agent bad_route : EventError
  missing_provider missing_session missing_protocol tokens_unobservable tokens_missing : EventError

pub record Tokens : Type 0 where
  pub input : ℕ
  pub output : ℕ
  pub cache_read : ℕ
  pub cache_write : ℕ
  pub total : ℕ

pub record Event : Type 0 where
  pub event_id : Text
  pub occurred_at : ℕ
  pub session : Text
  pub role_kind : Text
  pub agent_role : Option Text
  pub route_name : Text
  pub provider_id : Text
  pub provider_name : Text
  pub model : Text
  pub protocol : Text
  pub tokens : Option Tokens
  pub latency_ms : ℕ
  pub status : Text
  pub coverage : Text
  pub status_code : Option ℕ
  pub source : Text
  pub error_code : Option Text
  pub fallback_reason : Option Text

abbrev pub role_kinds : List Text
role_kinds = codes "main" ∷ codes "sub" ∷ codes "aux" ∷ []

abbrev pub agent_roles : List Text
agent_roles = codes "default" ∷ codes "worker" ∷ codes "explorer" ∷ codes "custom" ∷ []

abbrev pub sources : List Text
sources = codes "exact" ∷ codes "reconciled" ∷ []

abbrev pub statuses : List Text
statuses = codes "success" ∷ codes "error" ∷ codes "unobservable" ∷ []

abbrev pub coverages : List Text
coverages = codes "observed" ∷ codes "unobservable" ∷ []

-- `value == null`
abbrev pub is_nullish : Option Json → Bool
is_nullish none = true
is_nullish (some null) = true
is_nullish (some v) = false

abbrev pub json_or_null : Option Json → Json
json_or_null none = null
json_or_null (some v) = v

-- `number`: NaN is refused; a negative number is outside the model.
unfoldable pub number : Option Json → Text → Result EventError ℕ
number value label =
    if is_nullish value
    then ok 0
    else elim (to_number (json_or_null value)) [ none ↦ err (bad_number label) | some n ↦ ok n ]

-- `a != null ? a : b`
abbrev pub first_present : Option Json → Option Json → Option Json
first_present a b = if is_nullish a then b else a

unfoldable pub read_tokens : Fields → Result EventError Tokens
read_tokens ts =
    number (first_present (lookup (codes "input") ts) (lookup (codes "inputTokens") ts))
      (codes "tokens.input")
    >>= λ input.
        number (first_present (lookup (codes "output") ts) (lookup (codes "outputTokens") ts))
          (codes "tokens.output")
        >>= λ output.
            number (lookup (codes "cacheRead") ts) (codes "tokens.cacheRead") >>= λ cache_read.
            number (lookup (codes "cacheWrite") ts) (codes "tokens.cacheWrite") >>= λ cache_write.
            ok (record {
              input = input;
              output = output;
              cache_read = cache_read;
              cache_write = cache_write;
              total = input + output;
            })

unfoldable pub normalize_tokens : Option Json → Text → Text → Result EventError (Option Tokens)
normalize_tokens tokens status coverage =
    if text_eq coverage (codes "unobservable") || text_eq status (codes "unobservable")
    then (if is_nullish tokens then ok none else err tokens_unobservable)
    else elim tokens [
      | some (obj ts) ↦ read_tokens ts >>= λ t. ok (some t)
      | _ ↦ err tokens_missing
    ]

-- `String(a || b || ... || fallback).trim()`
abbrev pub text_of : Option Json → Text → Text
text_of v fallback = trim (to_text (if is_given v then json_or_null v else str fallback))

-- Date.now() where neither time is given.
unfoldable pub time_of : Fields → ℕ → Result EventError ℕ
time_of input now =
    let given =
      or_field (lookup (codes "occurredAt") input)
        (or_field (lookup (codes "timestamp") input) (some (num now))) in
    elim (to_number (json_or_null given)) [
      | none ↦ err bad_time
      | some t ↦ if t == 0 then err bad_time else ok t
    ]

-- `generate` is false for `options.generateId === false`.
unfoldable pub id_of : Fields → Bool → Text → Result EventError Text
id_of input generate fresh =
    let id = text_of (lookup (codes "eventId") input) (if generate then fresh else []) in
    require (not (is_empty id)) missing_id >> ok id

unfoldable pub coverage_of : Fields → Text → Text
coverage_of input status =
    let inferred =
      if is_given (lookup (codes "tokens") input) || is_given (lookup (codes "usage") input)
      then codes "observed"
      else codes "unobservable" in
    text_of (lookup (codes "coverage") input)
      (if text_eq status (codes "unobservable") then codes "unobservable" else inferred)

unfoldable pub agent_of : Fields → Text → Result EventError Text
agent_of input role_kind =
    let given = lower (text_of (lookup (codes "agentRole") input) []) in
    let agent = if is_empty given then codes "default" else given in
    if text_eq role_kind (codes "sub")
    then require (mem_text agent agent_roles) bad_agent >> ok agent
    else ok []

unfoldable pub route_of : Fields → Text → Text → Result EventError Text
route_of input role_kind agent =
    let route = lower (text_of (lookup (codes "routeName") input) agent) in
    if text_eq role_kind (codes "sub")
    then require (is_role_name route) bad_route >> ok route
    else ok role_kind

-- A text that must not be empty.
abbrev pub required : Text → EventError → Result EventError Text
required t e = require (not (is_empty t)) e >> ok t

-- `value == null ? {} : { statusCode: number(value) }`
abbrev pub optional_number : Option Json → Text → Result EventError (Option ℕ)
optional_number v label = if is_nullish v then ok none else (number v label >>= λ n. ok (some n))

-- `value ? { errorCode: String(value).slice(0, 128) } : {}`
abbrev pub short_text : Option Json → Option Text
short_text v = if is_given v then some (take 128 (to_text (json_or_null v))) else none

unfoldable pub normalize_event : ℕ → Text → Bool → Fields → Result EventError Event
normalize_event now fresh generate input =
    let role_kind =
      text_of (or_field (lookup (codes "roleKind") input) (lookup (codes "role") input)) [] in
    let source = text_of (lookup (codes "source") input) (codes "exact") in
    let status = text_of (lookup (codes "status") input) (codes "success") in
    let coverage = coverage_of input status in
    time_of input now >>= λ occurred_at. id_of input generate fresh >>= λ event_id.
    require (mem_text role_kind role_kinds) bad_role
    >> (require (mem_text source sources) bad_source
        >> (require (mem_text status statuses) bad_status
            >> (require (mem_text coverage coverages) bad_coverage
                >> (agent_of input role_kind >>= λ agent.
                    route_of input role_kind agent >>= λ route.
                    required (text_of (lookup (codes "providerId") input) []) missing_provider
                    >>= λ provider.
                        required
                          (text_of
                            (or_field (lookup (codes "externalSessionId") input)
                              (lookup (codes "sessionId") input))
                            [])
                          missing_session
                        >>= λ session.
                            required (text_of (lookup (codes "protocol") input) []) missing_protocol
                            >>= λ protocol.
                                normalize_tokens
                                  (or_field (lookup (codes "tokens") input)
                                    (lookup (codes "usage") input))
                                  status coverage
                                >>= λ tokens.
                                    number (lookup (codes "latencyMs") input) (codes "latencyMs")
                                    >>= λ latency.
                                        optional_number (lookup (codes "statusCode") input)
                                          (codes "statusCode")
                                        >>= λ status_code. ok (record {
                                          event_id = event_id;
                                          occurred_at = occurred_at;
                                          session = session;
                                          role_kind = role_kind;
                                          agent_role = if is_empty agent then none else some agent;
                                          route_name = route;
                                          provider_id = provider;
                                          provider_name =
                                              text_of (lookup (codes "providerName") input) [];
                                          model = text_of (lookup (codes "model") input) [];
                                          protocol = protocol;
                                          tokens = tokens;
                                          latency_ms = latency;
                                          status = status;
                                          coverage = coverage;
                                          status_code = status_code;
                                          source = source;
                                          error_code =
                                              short_text (lookup (codes "errorCode") input);
                                          fallback_reason =
                                              short_text (lookup (codes "fallbackReason") input);
                                        })))))
