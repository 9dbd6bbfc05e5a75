-- ===== src/Examples/Requests.antt =====
-- lib/proxy/codex-transform.js, responsesToChat, and lib/model-policy.js at small requests.
use cli_provider_router.Prelude.{
  ◌≡◌, refl, false, none, some, [], ◌∷◌, codes, text_eq, mem_text, trim, lower,
}
use cli_provider_router.Json.{str, arr, obj, Items, nil, cons, Fields, end, field, lookup, to_text}
use cli_provider_router.Codex.Request.{
  call, output, Chat, message_of, messages_of, input_items, tools_of, chat_of,
}
use cli_provider_router.Codex.Requests.{Keeps, chat_of-Keeps}
use cli_provider_router.Policy.Models.{strip_model_suffix, cut_suffix, is_tier}
use cli_provider_router.Policy.Wire.{Options, is_honored, resolve_wire_model}

-- A call of a tool and its output.
abbrev call_item : Fields
call_item =
    field (codes "type") (str (codes "function_call"))
      (field (codes "call_id") (str (codes "c1")) (field (codes "name") (str (codes "ls")) end))

abbrev output_item : Fields
output_item =
    field (codes "type") (str (codes "function_call_output"))
      (field (codes "call_id") (str (codes "c1")) (field (codes "output") (str (codes "a")) end))

abbrev two_items : Fields
two_items = field (codes "input") (arr (cons (obj call_item) (cons (obj output_item) nil))) end

abbrev two_messages : Chat
two_messages = record {
  model = str (codes "deepseek-chat");
  messages =
      call (some (str (codes "c1"))) (some (str (codes "ls"))) (str [])
      ∷ output (some (str (codes "c1"))) (str (codes "a"))
      ∷ [];
  tools = [];
}

translated : chat_of two_items ≡ some two_messages
unfolding chat_of messages_of message_of input_items tools_of lookup text_eq
translated = refl

chat_of-Keeps_example :
    (vs : Items) × (input_items (lookup (codes "input") two_items) ≡ some vs)
    × Keeps vs two_messages.messages
chat_of-Keeps_example = chat_of-Keeps two_items two_messages translated

-- A provider of two models, asked for one of them by its name in a catalog.
abbrev two_models : Options
two_models = record {
  provider_model = some (str (codes "m1"));
  model = none;
  provider_models = some (arr (cons (str (codes "m1")) (cons (str (codes "m2[1M]")) nil)));
  model_options = none;
  skip_default_model = false;
  default_model = none;
}

sent_bare : resolve_wire_model (some (str (codes "m2[1M]"))) two_models ≡ some (codes "m2")
unfolding resolve_wire_model is_honored strip_model_suffix trim cut_suffix to_text is_tier mem_text
    text_eq lower
sent_bare = refl
