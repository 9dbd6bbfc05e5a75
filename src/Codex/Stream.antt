-- ===== src/Codex/Stream.antt =====
-- lib/proxy/codex-transform.js, chatStreamToResponses: the state machine from Chat Completions
-- chunks to Responses events. `events` and `deltas` are what was emitted to the client and to the
-- host, newest first; JSON.parse is the argument `parse_json` of `push_line`.
pub mod Counts
pub mod Protocol
use cli_provider_router.Prelude.{
  ℕ, zero, suc, ◌+◌, Bool, true, false, not, ◌&&◌, ◌||◌, Option, none, some, List, [], ◌∷◌, ◌++◌,
  map, ◌==◌, ltb, if◌then◌else◌, Text, codes, text_eq, is_empty, trim, starts_with, length, set,
  drop,
}
use cli_provider_router.Json.{
  Json, null, num, str, arr, obj, Items, nil, cons, Fields, end, lookup, to_number, to_text,
  decimal, truthy, or_blank,
}

-- An output item; its `content` is empty until the message is closed.
pub data Item : Type 0 where
  message : (content : List Text) → Item
  function_call : (id name : Json) (arguments : Text) → Item

pub record Tool : Type 0 where
  pub id : Json
  pub name : Json
  pub arguments : Text
  pub output_index : ℕ
  pub done : Bool

pub record Usage : Type 0 where
  pub input_tokens : Json
  pub output_tokens : Json
  pub total_tokens : Json
  pub cached_tokens : Option Json

-- The events `response.…` by their names; those of the message item all carry its constant id,
-- the output index 0 and the content index 0.
pub data Event : Type 0 where
  created : Text → Json → Event
  item_added : ℕ → Item → Event
  part_added : Event
  text_delta : Text → Event
  text_done : Text → Event
  part_done : Text → Event
  item_done : ℕ → Item → Event
  args_delta : Json → ℕ → Json → Event
  args_done : Json → ℕ → Text → Event
  completed : Text → List Item → Usage → Event
  failed : Text → Event

-- What the optional host callback is given.
pub data Delta : Type 0 where
  tool_delta : (name arguments tool_id : Json) → Delta
  reasoning_delta : Text → Delta
  content_delta : Text → Delta

pub record State : Type 0 where
  pub response_id : Text
  pub finished : Bool
  pub header_sent : Bool
  pub text_started : Bool
  pub text_part_started : Bool
  pub text_item_finished : Bool
  pub text_acc : Text
  pub tool_index : ℕ
  pub tool_items : List (ℕ × Tool)
  pub output_items : List Item
  pub last_usage : Usage
  pub model : Json
  pub events : List Event
  pub deltas : List Delta

unfoldable pub initial : Text → State
initial rid = record {
  response_id = rid;
  finished = false;
  header_sent = false;
  text_started = false;
  text_part_started = false;
  text_item_finished = false;
  text_acc = [];
  tool_index = 0;
  tool_items = [];
  output_items = [];
  last_usage = record {
    input_tokens = num 0;
    output_tokens = num 0;
    total_tokens = num 0;
    cached_tokens = none;
  };
  model = str [];
  events = [];
  deltas = [];
}

abbrev pub emit : Event → State → State
emit e s = record s { events = e ∷ s.events }

abbrev pub report : Delta → State → State
report d s = record s { deltas = d ∷ s.deltas }

-- `shortId(prefix, n)`.
unfoldable pub short_id : Text → ℕ → Json
short_id prefix n = str (prefix ++ (codes "_" ++ decimal n))

-- `ensureTextItem`: the message item, and then its one part.
unfoldable pub open_message : State → State
open_message s = if s.text_started then s else record s {
  output_items = s.output_items ++ message [] ∷ [];
  events = item_added (length s.output_items) (message []) ∷ s.events;
  text_started = true;
}

unfoldable pub open_part : State → State
open_part s =
    if s.text_part_started
    then s
    else record s { text_part_started = true; events = part_added ∷ s.events }

unfoldable pub ensure_text_item : State → State
unfolding open_message open_part
ensure_text_item s = if s.text_item_finished then s else open_part (open_message s)

-- The stored item is given its text only if the message is the first item.
abbrev pub fill_first : Text → List Item → List Item
fill_first t (message content ∷ items) = message (t ∷ []) ∷ items
fill_first t items = items

unfoldable pub finish_text_item : Text → State → State
finish_text_item t s = if s.text_item_finished then s else record s {
  output_items = fill_first t s.output_items;
  events = item_done 0 (message (t ∷ [])) ∷ part_done t ∷ text_done t ∷ s.events;
  text_item_finished = true;
}

-- `if (_textStarted && !_textItemFinished) finishTextItem(_textAcc)`.
unfoldable pub close_text : State → State
unfolding finish_text_item
close_text s =
    if s.text_started && not s.text_item_finished then finish_text_item s.text_acc s else s

-- The Map of tool calls, in the order of insertion.
unfoldable pub get_tool : ℕ → List (ℕ × Tool) → Option Tool
get_tool k [] = none
get_tool k ((j, t) ∷ ts) = if j == k then some t else get_tool k ts

-- The entry is there when it is replaced.
unfoldable pub put_tool : ℕ → Tool → List (ℕ × Tool) → List (ℕ × Tool)
put_tool k t [] = []
put_tool k t ((j, u) ∷ ts) = if j == k then (j, t) ∷ ts else (j, u) ∷ put_tool k t ts

-- `new || old`, as the late name and id of a known call are taken.
abbrev pub fill : Json → Json → Json
fill new old = if truthy new && not (truthy old) then new else old

abbrev pub default_to : Json → Json → Json
default_to v d = if truthy v then v else d

unfoldable pub new_tool : State → Json → Json → Tool
unfolding short_id
new_tool s name id = record {
  id = default_to id (short_id (codes "fc") s.tool_index);
  name = default_to name (str []);
  arguments = [];
  output_index = length s.output_items;
  done = false;
}

abbrev pub item_of : Tool → Item
item_of t = function_call t.id t.name t.arguments

-- `ensureToolItem`: the call under this key, and the state that holds it.
unfoldable pub ensure_tool_item : ℕ → Json → Json → State → State × Tool
unfolding get_tool put_tool
ensure_tool_item k name id s = elim (get_tool k s.tool_items) [
  | some t ↦
      let t' : Tool = record t { name = fill name t.name; id = fill id t.id } in
      (record s { tool_items = put_tool k t' s.tool_items }, t')
  | none ↦
      let t : Tool = new_tool s name id in
      (
        record s {
          tool_items = s.tool_items ++ (k, t) ∷ [];
          output_items = s.output_items ++ item_of t ∷ [];
          events = item_added t.output_index (item_of t) ∷ s.events;
          tool_index = s.tool_index + 1;
        },
        t,
      )
]

unfoldable pub finish_tool_item : Tool → State → State
finish_tool_item t s = if t.done then s else record s {
  output_items = set s.output_items t.output_index (item_of t);
  events =
      item_done t.output_index (item_of t) ∷ args_done t.id t.output_index t.arguments ∷ s.events;
}

unfoldable pub finish_each : List (ℕ × Tool) → State → State
unfolding finish_tool_item
finish_each [] s = s
finish_each ((k, t) ∷ ts) s = finish_each ts (finish_tool_item t s)

abbrev pub mark_done : ℕ × Tool → ℕ × Tool
mark_done (k, t) = (k, record t { done = true })

-- `finishToolItems`: each open call is closed, in the order of the Map.
unfoldable pub finish_tool_items : State → State
unfolding finish_each
finish_tool_items s =
    let closed = finish_each s.tool_items s in
    record closed { tool_items = map mark_done s.tool_items }

-- `end`; no error message, or an empty one, completes the response.
unfoldable pub finish : Text → State → State
finish error s =
    let closed = close_text (finish_tool_items (record s { finished = true })) in
    if s.finished
    then s
    else if not (is_empty error)
    then record s { finished = true; events = failed error ∷ s.events }
    else record closed {
      events = completed s.response_id closed.output_items closed.last_usage ∷ closed.events;
    }
