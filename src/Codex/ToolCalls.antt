-- ===== src/Codex/ToolCalls.antt =====
-- lib/proxy/codex-transform.js: the fragments of parallel tool calls.
use cli_provider_router.Prelude.{
  ℕ, ◌≡◌, refl, sym, ap, ◌∙◌, inl, inr, Option, none, some, List, [], ◌∷◌, ◌++◌, arith, ◌==◌,
  if◌then◌else◌, Text, codes, Bool-cases, Option-cases, All, ◌≢◌,
}
use mathlib.Core.List.{append_assoc, append-nil}
use cli_provider_router.Json.{Json, null, truthy, to_text}
use cli_provider_router.Codex.Stream.{
  State, Tool, get_tool, put_tool, new_tool, ensure_tool_item, fill,
}
use cli_provider_router.Codex.Stream.Protocol.{get_tool-ensure_tool_item}
use cli_provider_router.Codex.Chunks.{
  prop, key_of, name_of, id_of, function_of, add_arguments, push_call, push_calls,
}

abbrev pub arguments_of : Option Tool → Text
arguments_of none = []
arguments_of (some t) = t.arguments

-- The arguments that have come in under a key.
abbrev pub arguments_at : ℕ → State → Text
arguments_at k s = arguments_of (get_tool k s.tool_items)

abbrev pub index_of : Json → ℕ
index_of tc = key_of (prop (codes "index") tc)

abbrev pub fragment_text : Option Json → Text
fragment_text none = []
fragment_text (some a) = if truthy a then to_text a else []

-- The fragment of arguments that a call delta carries.
abbrev pub fragment_of : Json → Text
fragment_of tc = fragment_text (prop (codes "arguments") (function_of tc))

-- The fragments for one key, in order.
abbrev pub fragments : ℕ → List Json → Text
fragments k [] = []
fragments k (tc ∷ tcs) = (if index_of tc == k then fragment_of tc else []) ++ fragments k tcs

put_tool_arguments :
    (j k : ℕ) (t u : Tool) (ts : List (ℕ × Tool))
    → get_tool k ts ≡ some t
    → arguments_of (get_tool j (put_tool k u ts))
      ≡ (if k == j then u.arguments else arguments_of (get_tool j ts))
unfolding get_tool put_tool
put_tool_arguments j k t u [] h = cc
put_tool_arguments j k t u ((i, w) ∷ ts) h = ground (arith, put_tool_arguments j k t u ts)

append_arguments :
    (j k : ℕ) (u : Tool) (ts : List (ℕ × Tool))
    → u.arguments ≡ []
    → arguments_of (get_tool j (ts ++ (k, u) ∷ [])) ≡ arguments_of (get_tool j ts)
unfolding get_tool
append_arguments j k u [] h = ground arith
append_arguments j k u ((i, w) ∷ ts) h = ground (arith, append_arguments j k u ts h)

ensure_tool_item_arguments :
    (j k : ℕ) (name id : Json) (s : State)
    → arguments_at j (ensure_tool_item k name id s).0 ≡ arguments_at j s
unfolding ensure_tool_item new_tool
ensure_tool_item_arguments j k name id s = elim (Option-cases (get_tool k s.tool_items)) [
  | inl e ↦ rw (e, ensure_tool_item) (append_arguments j k (new_tool s name id) s.tool_items refl)
  | inr (t, e) ↦
      let t' : Tool = record t { name = fill name t.name; id = fill id t.id } in
      rw (e, ensure_tool_item) (ground (arith, put_tool_arguments j k t t' s.tool_items e))
]

add_arguments_lem :
    (j k : ℕ) (a : Option Json) (t : Tool) (s : State)
    → get_tool k s.tool_items ≡ some t
    → arguments_at j (add_arguments k a t s)
      ≡ arguments_at j s ++ (if k == j then fragment_text a else [])
unfolding add_arguments
add_arguments_lem j k none t s e = ground (arith, append-nil (arguments_at j s))
add_arguments_lem j k (some a) t s e =
    let t' : Tool = record t { arguments = t.arguments ++ to_text a } in
    elim (Bool-cases (k == j)) [
      | inl same ↦
          let here : k ≡ j = ground arith in
          ground (
            arith,
            append-nil (arguments_at j s),
            put_tool_arguments j k t t' s.tool_items e,
            ap (λ n. get_tool n s.tool_items) here,
          )
      | inr other ↦
          ground (arith, append-nil (arguments_at j s), put_tool_arguments j k t t' s.tool_items e)
    ]

push_call_arguments :
    (j : ℕ) (tc : Json) (s : State)
    → arguments_at j (push_call tc s)
      ≡ arguments_at j s ++ (if index_of tc == j then fragment_of tc else [])
unfolding push_call
push_call_arguments j tc s =
    let key = index_of tc in
    let name = name_of tc in
    let id = id_of tc in
    add_arguments_lem j key (prop (codes "arguments") (function_of tc))
      (ensure_tool_item key name id s).1 (ensure_tool_item key name id s).0
      (get_tool-ensure_tool_item key name id s)
    ∙ ap (λ x. x ++ (if key == j then fragment_of tc else []))
        (ensure_tool_item_arguments j key name id s)

-- However the fragments of parallel calls are interleaved, each key gathers exactly its own, in
-- order, behind what it had.
pub push_calls_arguments :
    (j : ℕ) (tcs : List Json) (s : State)
    → All (λ tc. tc ≢ null) tcs
    → arguments_at j (push_calls tcs s).0 ≡ arguments_at j s ++ fragments j tcs
unfolding push_calls
push_calls_arguments j [] s h = sym (append-nil _)
push_calls_arguments j (null ∷ tcs) s (p, h) = absurd (p refl)
push_calls_arguments j (tc ∷ tcs) s (p, h) =
    push_calls_arguments j tcs (push_call tc s) h
    ∙ ap (λ x. x ++ fragments j tcs) (push_call_arguments j tc s)
    ∙ append_assoc (arguments_at j s) (if index_of tc == j then fragment_of tc else [])
        (fragments j tcs)
