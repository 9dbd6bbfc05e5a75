-- ===== src/Codex/Chunks.antt =====
-- lib/proxy/codex-transform.js, pushLine: what one line of the upstream stream does to the state.
-- The second part of a result is false where the code throws a TypeError.
use cli_provider_router.Prelude.{
  ℕ, Bool, true, false, ◌||◌, Option, none, some, List, [], ◌∷◌, ◌++◌, ltb, if◌then◌else◌, Text,
  codes, text_eq, trim, starts_with, drop,
}
use cli_provider_router.Json.{
  Json, null, num, str, arr, obj, Items, nil, cons, end, lookup, to_number, to_text, truthy,
}
use cli_provider_router.Codex.Stream.{
  State, Tool, Usage, created, text_delta, args_delta, tool_delta, reasoning_delta, content_delta,
  emit, report, ensure_text_item, close_text, ensure_tool_item, put_tool, finish_tool_items, finish,
}

-- `value.key`, for a value that is neither null nor undefined.
unfoldable pub prop : Text → Json → Option Json
unfolding lookup
prop k (obj fs) = lookup k fs
prop k v = none

-- `value || d` of a value that may be undefined.
abbrev pub or_json : Option Json → Json → Json
or_json none d = d
or_json (some v) d = if truthy v then v else d

abbrev pub empty_object : Json
empty_object = obj end

-- `details && details.cached_tokens`, undefined if it is falsy.
pub cached_of : Option Json → Option Json
unfolding prop
cached_of none = none
cached_of (some v) = if truthy v then prop (codes "cached_tokens") v else none

pub usage_of : Json → Usage
unfolding prop cached_of
usage_of u = record {
  input_tokens =
      or_json (prop (codes "prompt_tokens") u) (or_json (prop (codes "input_tokens") u) (num 0));
  output_tokens =
      or_json (prop (codes "completion_tokens") u)
        (or_json (prop (codes "output_tokens") u) (num 0));
  total_tokens = or_json (prop (codes "total_tokens") u) (num 0);
  cached_tokens = some (
      or_json (cached_of (prop (codes "prompt_tokens_details") u))
        (or_json (cached_of (prop (codes "input_tokens_details") u)) (num 0)));
}

abbrev pub is_positive : Option ℕ → Bool
is_positive none = false
is_positive (some n) = ltb 0 n

abbrev pub to_number? : Option Json → Option ℕ
to_number? none = none
to_number? (some v) = to_number v

-- `list && list.length > 0 ? list[0] : null`; `none` stands for null and undefined.
unfoldable pub first_of : Option Json → Option Json
unfolding lookup
first_of (some (arr (cons v vs))) = some v
first_of (some (str (c ∷ t))) = some (str (c ∷ []))
first_of (some (obj fs)) =
    if is_positive (to_number? (lookup (codes "length") fs)) then lookup (codes "0") fs else none
first_of _ = none

abbrev pub items : Items → List Json
items nil = []
items (cons v vs) = v ∷ items vs

-- What `for (const tc of delta.tool_calls)` runs over if the list is not empty; an object is not
-- iterable. The characters of a text all do what the first does: open the call 0 with no name.
pub data Calls : Type 0 where
  no_calls : Calls
  calls : List Json → Calls
  not_iterable : Calls

unfoldable pub calls_of : Option Json → Calls
unfolding lookup
calls_of (some (arr (cons v vs))) = calls (v ∷ items vs)
calls_of (some (str (c ∷ t))) = calls (str (c ∷ []) ∷ [])
calls_of (some (obj fs)) =
    if is_positive (to_number? (lookup (codes "length") fs)) then not_iterable else no_calls
calls_of _ = no_calls

-- `Number.isInteger(index) ? index : 0`.
abbrev pub key_of : Option Json → ℕ
key_of (some (num n)) = n
key_of _ = 0

-- The arguments of a call's fragment are appended, and passed on as they came.
unfoldable pub add_arguments : ℕ → Option Json → Tool → State → State
unfolding put_tool
add_arguments k none t s = s
add_arguments k (some a) t s =
    let t' : Tool = record t { arguments = t.arguments ++ to_text a } in
    if truthy a
    then emit (args_delta t.id t.output_index a)
        (report (tool_delta t.name a t.id) (record s { tool_items = put_tool k t' s.tool_items }))
    else s

-- `tc.function || {}`, its name, and the id of the call.
abbrev pub function_of : Json → Json
function_of tc = or_json (prop (codes "function") tc) empty_object

abbrev pub name_of : Json → Json
name_of tc = or_json (prop (codes "name") (function_of tc)) (str [])

abbrev pub id_of : Json → Json
id_of tc = or_json (prop (codes "id") tc) (str [])

unfoldable pub push_call : Json → State → State
push_call tc s =
    let key = key_of (prop (codes "index") tc) in
    let (s', t) = ensure_tool_item key (name_of tc) (id_of tc) s in
    add_arguments key (prop (codes "arguments") (function_of tc)) t s'

unfoldable pub push_calls : List Json → State → State × Bool
push_calls [] s = (s, true)
push_calls (null ∷ tcs) s = (s, false)
push_calls (tc ∷ tcs) s = push_calls tcs (push_call tc s)

unfoldable pub send_header : State → State
send_header s = if s.header_sent then s else record s {
  header_sent = true;
  events = created s.response_id (if truthy s.model then s.model else str []) ∷ s.events;
}

-- `reasoning_content || reasoning`, which goes to the host alone.
unfoldable pub push_reasoning : Option Json → State → State
push_reasoning none s = s
push_reasoning (some null) s = s
push_reasoning (some (str [])) s = s
push_reasoning (some v) s = report (reasoning_delta (to_text v)) s

abbrev pub first_truthy : Option Json → Option Json → Option Json
first_truthy none w = w
first_truthy (some v) w = if truthy v then some v else w

-- A content delta: open calls are closed, the message is opened, and the text is passed on.
unfoldable pub push_content : Text → State → State
push_content t s =
    let opened = ensure_text_item (finish_tool_items s) in
    record opened {
      text_acc = opened.text_acc ++ t;
      deltas = content_delta t ∷ opened.deltas;
      events = text_delta t ∷ opened.events;
    }

abbrev pub is_str : Option Json → Text → Bool
is_str (some (str s)) t = text_eq s t
is_str _ t = false

-- A finish reason of `stop` or `length` closes what is open.
unfoldable pub push_reason : Option Json → State → State
push_reason reason s =
    if is_str reason (codes "stop") || is_str reason (codes "length")
    then close_text (finish_tool_items s)
    else s

-- A delta with no calls: its content if there is one, or else the finish reason.
unfoldable pub push_text : Option Json → Option Json → State → State
push_text none reason s = push_reason reason s
push_text (some null) reason s = push_reason reason s
push_text (some v) reason s = push_content (to_text v) s

unfoldable pub push_calls_or : Calls → State → State → State × Bool
push_calls_or (calls tcs) s otherwise = push_calls tcs (close_text s)
push_calls_or not_iterable s otherwise = (close_text s, false)
push_calls_or no_calls s otherwise = (otherwise, true)

-- The part of a chunk behind `choices[0]`, for its delta and finish reason.
unfoldable pub push_delta : Json → Option Json → State → State × Bool
push_delta delta reason s =
    let thought =
      first_truthy (prop (codes "reasoning_content") delta) (prop (codes "reasoning") delta) in
    push_calls_or (calls_of (prop (codes "tool_calls") delta)) s
      (push_text (prop (codes "content") delta) reason (push_reasoning thought s))

abbrev pub note_model : Option Json → State → State
note_model none s = s
note_model (some v) s = if truthy v then record s { model = v } else s

abbrev pub note_usage : Option Json → State → State
note_usage none s = s
note_usage (some u) s = if truthy u then record s { last_usage = usage_of u } else s

unfoldable pub push_choice : Option Json → State → State × Bool
push_choice none s = (s, true)
push_choice (some choice) s =
    let pushed =
      push_delta (or_json (prop (codes "delta") choice) empty_object)
        (prop (codes "finish_reason") choice) (send_header s) in
    if truthy choice then pushed else (s, true)

-- The chunk of a `data:` line that is JSON.
unfoldable pub push_chunk : Json → State → State × Bool
push_chunk null s = (s, false)
push_chunk v s =
    push_choice (first_of (prop (codes "choices") v))
      (note_usage (prop (codes "usage") v) (note_model (prop (codes "model") v) s))

-- The payload of a line, if it is one with data.
unfoldable pub payload_of : Text → Option Text
unfolding trim starts_with
payload_of line =
    if starts_with (codes "data:") (trim line) then some (trim (drop 5 (trim line))) else none

unfoldable pub push_payload : (Text → Option Json) → Text → State → State × Bool
push_payload parse_json payload s =
    if text_eq payload (codes "[DONE]")
    then (finish [] s, true)
    else elim (parse_json payload) [ none ↦ (s, true) | some v ↦ push_chunk v s ]

unfoldable pub push_line : (Text → Option Json) → Text → State → State × Bool
push_line parse_json line s =
    if s.finished
    then (s, true)
    else elim (payload_of line) [ none ↦ (s, true) | some t ↦ push_payload parse_json t s ]
