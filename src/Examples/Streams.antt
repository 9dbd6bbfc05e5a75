-- ===== src/Examples/Streams.antt =====
-- lib/proxy/codex-transform.js at short streams.
use cli_provider_router.Prelude.{
  ℕ, ◌≡◌, refl, true, Option, none, some, List, [], ◌∷◌, ◌++◌, Text, codes, text_eq, trim,
  starts_with, if◌then◌else◌, length, get_elem?,
}
use cli_provider_router.Json.{
  Json, num, str, arr, obj, nil, cons, Fields, end, field, lookup, to_text,
}
use cli_provider_router.Codex.Stream.{
  State, Item, message, initial, finish, finish_tool_items, close_text, ensure_text_item,
  ensure_tool_item, get_tool, put_tool, new_tool, short_id,
}
use cli_provider_router.Codex.Stream.Counts.{
  calls_added, calls_closed, messages_added, messages_closed, added, closed, endings, sent,
}
use cli_provider_router.Codex.Chunks.{
  prop, first_of, calls_of, push_chunk, push_content, push_calls, push_call, add_arguments,
  push_line, push_payload, payload_of, push_choice, push_delta, push_calls_or, push_text,
  push_reasoning, send_header,
}
use cli_provider_router.Codex.Runs.{run, stream_ends_once, stream_closes_items}
use cli_provider_router.Codex.Outputs.{Completes, Says, push_all, text_stream-Completes}
use cli_provider_router.Codex.ToolCalls.{arguments_at, fragments, push_calls_arguments}
use cli_provider_router.Codex.LateText.{late_text_lost}

-- A chunk with this delta.
abbrev chunk : Fields → Json
chunk delta =
    obj (field (codes "choices") (arr (cons (obj (field (codes "delta") (obj delta) end)) nil)) end)

abbrev saying : Text → Json
saying t = chunk (field (codes "content") (str t) end)

abbrev calling : ℕ → Text → Json
calling i a = obj (
    field (codes "index") (num i)
      (field (codes "function") (obj (field (codes "arguments") (str a) end)) end))

-- A parser that knows one payload.
abbrev one_payload : Text → Option Json
one_payload t = if text_eq t (codes "h") then some (saying (codes "hi")) else none

abbrev three_lines : List Text
three_lines = codes "data: h" ∷ codes ": ping" ∷ codes "data: [DONE]" ∷ []

stream_ends_once_example :
    let s = finish [] (run one_payload three_lines (initial (codes "resp_1"))) in
    (endings s.events ≡ 1) × (sent s.events ≡ s.text_acc) × (s.finished ≡ true)
stream_ends_once_example = stream_ends_once one_payload (codes "resp_1") [] three_lines

stream_closes_items_example :
    let s = finish [] (run one_payload three_lines (initial (codes "resp_1"))) in
    ((i : ℕ) → calls_added i s.events ≡ calls_closed i s.events)
    × (messages_added s.events ≡ messages_closed s.events)
    × (added s.events ≡ closed s.events)
    × (added s.events ≡ length s.output_items)
stream_closes_items_example = stream_closes_items one_payload (codes "resp_1") three_lines

hello :
    (finish [] (run one_payload three_lines (initial (codes "resp_1")))).output_items
    ≡ message (codes "hi" ∷ []) ∷ []
unfolding run push_line push_payload payload_of push_chunk push_choice push_delta push_calls_or
    push_text push_content push_reasoning send_header first_of calls_of prop finish initial
    ensure_text_item finish_tool_items close_text text_eq lookup to_text trim starts_with
hello = refl

saying-Says : (t : Text) → Says (saying t) t
unfolding first_of calls_of prop lookup to_text text_eq
saying-Says t = record {
  choice = obj (field (codes "delta") (obj (field (codes "content") (str t) end)) end);
  content = str t;
  chosen = refl;
  taken = refl;
  untooled = refl;
  told = refl;
  not_null = λ e. cc;
  read = refl;
}

text_stream-Completes_example :
    Completes
      (message (codes "hello" ∷ []) ∷ [])
      (finish [] (
        push_all
          (saying (codes "hel") ∷ saying (codes "lo") ∷ [])
          (initial (codes "resp_1")))).events
text_stream-Completes_example =
    text_stream-Completes (codes "resp_1") (saying (codes "hel")) (saying (codes "lo") ∷ [])
      (codes "hel") (codes "lo" ∷ []) (saying-Says (codes "hel"), (saying-Says (codes "lo"), tt))

abbrev three_calls : List Json
three_calls = calling 0 (codes "{a") ∷ calling 1 (codes "[") ∷ calling 0 (codes "}") ∷ []

push_calls_arguments_example :
    arguments_at 0 (push_calls three_calls (initial [])).0
    ≡ arguments_at 0 (initial []) ++ fragments 0 three_calls
push_calls_arguments_example =
    push_calls_arguments 0 three_calls (initial []) ((λ e. cc), ((λ e. cc), ((λ e. cc), tt)))

fragments-three_calls : fragments 0 three_calls ≡ codes "{a}"
unfolding prop lookup text_eq to_text
fragments-three_calls = refl

-- A state in which a tool call has opened the output.
abbrev after_call : State
after_call = (push_calls (calling 0 (codes "{}") ∷ []) (initial [])).0

late_text_lost_example :
    (xs : List Item) × Completes xs (finish [] (push_content (codes "done") after_call)).events
    × (get_elem? xs (length after_call.output_items) ≡ some (message []))
unfolding push_calls push_call ensure_tool_item add_arguments get_tool put_tool new_tool short_id
    initial prop text_eq
late_text_lost_example = late_text_lost (codes "done") after_call tt refl refl refl
