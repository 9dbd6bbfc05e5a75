-- ===== src/Codex/Request.antt =====
-- lib/proxy/codex-transform.js, responsesToChat: the chat request that a Responses request becomes.
-- `none` is a TypeError; a field that is undefined is left out, as JSON.stringify does.
use cli_provider_router.Prelude.{
  Bool, true, false, not, ◌||◌, Option, none, some, if◌then◌else◌, List, [], ◌∷◌, ◌++◌, all, map,
  Text, codes,
}
use cli_provider_router.Json.{
  Json, null, bool, str, arr, obj, Items, nil, cons, Fields, end, field, lookup, to_text, truthy,
  or_blank,
}
use cli_provider_router.Durable.{is_text}
use cli_provider_router.Hop.Routes.{is_given, or_field}
use cli_provider_router.Ledger.Event.{is_nullish, json_or_null}
use cli_provider_router.Ledger.Query.{add_optional}
use cli_provider_router.Profiles.Store.{list_items}

-- A part of a message's content that is kept.
pub data Part : Type 0 where
  text_part : Json → Part
  image_part : Fields → Part
  file_part : Fields → Part

abbrev pub given_field : Text → Fields → Fields → Fields
given_field k from rest =
    if is_given (lookup k from) then field k (json_or_null (lookup k from)) rest else rest

unfoldable pub image_url : Fields → Json
image_url c =
    let file_id = lookup (codes "file_id") c in
    let file =
      if is_given file_id
      then str (codes "file://" ++ to_text (json_or_null file_id))
      else str [] in
    json_or_null
      (or_field (lookup (codes "image_url") c) (or_field (lookup (codes "url") c) (some file)))

unfoldable pub file_fields : Fields → Fields
file_fields c =
    given_field (codes "file_id") c
      (given_field (codes "filename") c (given_field (codes "file_data") c end))

abbrev pub file_of : Fields → Option Part
file_of end = none
file_of (field k v fs) = some (file_part (field k v fs))

-- The part that an object of the content becomes, if any.
unfoldable pub part_of : Fields → Option Part
part_of c =
    let kind = lookup (codes "type") c in
    if is_text (codes "input_text") kind || is_text (codes "output_text") kind
    then some (text_part (or_blank (lookup (codes "text") c)))
    else if is_text (codes "input_image") kind
    then (if truthy (image_url c)
        then some
            (image_part (field (codes "url") (image_url c) (given_field (codes "detail") c end)))
        else none)
    else if is_text (codes "input_file") kind
    then file_of (file_fields c)
    else none

abbrev pub add_part : Option Part → List Part → List Part
add_part none ps = ps
add_part (some p) ps = p ∷ ps

-- A part that is null throws, and one of another type is left out.
unfoldable pub parts_of_content : Items → Option (List Part)
parts_of_content nil = some []
parts_of_content (cons null vs) = none
parts_of_content (cons (obj c) vs) = elim (parts_of_content vs) [
  | none ↦ none
  | some ps ↦ some (add_part (part_of c) ps)
]
parts_of_content (cons v vs) = parts_of_content vs

abbrev pub is_text_part : Part → Bool
is_text_part (text_part t) = true
is_text_part p = false

abbrev pub part_text : Part → Text
part_text (text_part t) = to_text t
part_text p = []

abbrev pub joined : List Part → Text
joined [] = []
joined (p ∷ ps) = part_text p ++ joined ps

abbrev pub part_json : Part → Json
part_json (text_part t) =
    obj (field (codes "type") (str (codes "text")) (field (codes "text") t end))
part_json (image_part fs) =
    obj (field (codes "type") (str (codes "image_url")) (field (codes "image_url") (obj fs) end))
part_json (file_part fs) =
    obj (field (codes "type") (str (codes "file")) (field (codes "file") (obj fs) end))

abbrev pub content_json : List Part → Json
content_json ps =
    if all is_text_part ps then str (joined ps) else arr (list_items (map part_json ps))

-- A content that is no array has no part.
abbrev pub content_items : Option Json → Items
content_items (some (arr vs)) = vs
content_items v = nil

pub data Message : Type 0 where
  system : Json → Message
  plain : Option Json → List Part → Message
  call : Option Json → Option Json → Json → Message
  output : Option Json → Json → Message

-- `item.role === 'developer' ? 'system' : item.role`
unfoldable pub role_of_item : Option Json → Option Json
role_of_item role = if is_text (codes "developer") role then some (str (codes "system")) else role

unfoldable pub message_of : Fields → Option (List Message)
message_of item =
    let kind = lookup (codes "type") item in
    let id = lookup (codes "call_id") item in
    if is_text (codes "message") kind
    then elim (parts_of_content (content_items (lookup (codes "content") item))) [
      | none ↦ none
      | some ps ↦ some (plain (role_of_item (lookup (codes "role") item)) ps ∷ [])
    ]
    else if is_text (codes "function_call") kind
    then some
        (call id (lookup (codes "name") item) (or_blank (lookup (codes "arguments") item)) ∷ [])
    else if is_text (codes "function_call_output") kind
    then some (output id (or_blank (lookup (codes "output") item)) ∷ [])
    else some []

-- The loop over the input; an item of another type is passed over, and null throws.
unfoldable pub messages_of : Items → Option (List Message)
messages_of nil = some []
messages_of (cons null vs) = none
messages_of (cons (obj item) vs) = elim (message_of item) [
  | none ↦ none
  | some ms ↦ elim (messages_of vs) [ none ↦ none | some more ↦ some (ms ++ more) ]
]
messages_of (cons v vs) = messages_of vs

-- `responsesBody.input || []`, a text by its characters, none of which has a type.
unfoldable pub input_items : Option Json → Option Items
input_items (some (arr vs)) = some vs
input_items (some (str s)) = some nil
input_items v = if is_given v then none else some nil

abbrev pub instructions_of : Option Json → List Message
instructions_of v = if is_given v then system (json_or_null v) ∷ [] else []

unfoldable pub message_json : Message → Json
message_json (system content) =
    obj (field (codes "role") (str (codes "system")) (field (codes "content") content end))
message_json (plain role ps) =
    obj (add_optional (codes "role") role (field (codes "content") (content_json ps) end))
message_json (call id name arguments) = obj (
    field (codes "role") (str (codes "assistant")) (
      field (codes "content") null (
        field (codes "tool_calls")
          (arr (
            cons
              (obj (
                add_optional (codes "id") id (
                  field (codes "type") (str (codes "function")) (
                    field (codes "function")
                      (obj (
                        add_optional (codes "name") name (field (codes "arguments") arguments end)))
                      end))))
              nil))
          end)))
message_json (output id content) = obj (
    field (codes "role") (str (codes "tool"))
      (add_optional (codes "tool_call_id") id (field (codes "content") content end)))

-- The tools that are functions, nested as chat wants them.
abbrev pub tool_json : Fields → Json
tool_json t = obj (
    field (codes "type") (str (codes "function")) (
      field (codes "function")
        (obj (
          add_optional (codes "name") (lookup (codes "name") t) (
            add_optional (codes "description") (lookup (codes "description") t)
              (add_optional (codes "parameters") (lookup (codes "parameters") t) end))))
        end))

abbrev pub is_function : Option Json → Bool
is_function kind = not (is_given kind) || is_text (codes "function") kind

-- A tool that is no object has no field.
unfoldable pub tools_of : Items → Option (List Json)
tools_of nil = some []
tools_of (cons null vs) = none
tools_of (cons (obj t) vs) = elim (tools_of vs) [
  | none ↦ none
  | some ts ↦ some (if is_function (lookup (codes "type") t) then tool_json t ∷ ts else ts)
]
tools_of (cons v vs) = elim (tools_of vs) [ none ↦ none | some ts ↦ some (tool_json end ∷ ts) ]

abbrev pub tool_items : Option Json → Option Items
tool_items (some (arr vs)) = some vs
tool_items v = if is_given v then none else some nil

abbrev pub tools_field : List Json → Fields → Fields
tools_field [] rest = rest
tools_field (t ∷ ts) rest = field (codes "tools") (arr (list_items (t ∷ ts))) rest

abbrev pub present_field : Text → Fields → Fields → Fields
present_field k from rest =
    if is_nullish (lookup k from) then rest else field k (json_or_null (lookup k from)) rest

pub record Chat : Type 0 where
  pub model : Json
  pub messages : List Message
  pub tools : List Json

unfoldable pub chat_json : Fields → Chat → Json
chat_json body c = obj (
    field (codes "model") c.model (
      field (codes "messages") (arr (list_items (map message_json c.messages))) (
        field (codes "stream") (bool true) (
          tools_field c.tools (
            present_field (codes "tool_choice") body
              (present_field (codes "parallel_tool_calls") body end))))))

unfoldable pub chat_of : Fields → Option Chat
chat_of body = elim (input_items (lookup (codes "input") body)) [
  | none ↦ none
  | some items ↦ elim (messages_of items) [
    | none ↦ none
    | some ms ↦ elim (tool_items (lookup (codes "tools") body)) [
      | none ↦ none
      | some list ↦ elim (tools_of list) [
        | none ↦ none
        | some ts ↦ some (record {
          model =
              json_or_null
                (or_field (lookup (codes "model") body) (some (str (codes "deepseek-chat"))));
          messages = instructions_of (lookup (codes "instructions") body) ++ ms;
          tools = ts;
        })
      ]
    ]
  ]
]

unfoldable pub responses_to_chat : Fields → Option Json
responses_to_chat body = elim (chat_of body) [ none ↦ none | some c ↦ some (chat_json body c) ]
