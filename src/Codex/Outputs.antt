-- ===== src/Codex/Outputs.antt =====
-- lib/proxy/codex-transform.js: what the completed response lists, for a stream of text alone and
-- for text that comes after tool calls.
use cli_provider_router.Prelude.{
  ◌≡◌, ◌≢◌, refl, sym, ap, subst, ◌∙◌, ◌⊎◌, true, false, Option, some, List, [], ◌∷◌, ◌++◌, arith,
  Text, codes,
}
use mathlib.Core.List.{append_assoc, append-nil}
use cli_provider_router.Json.{Json, null, truthy, to_text}
use cli_provider_router.Codex.Stream.{
  State, Usage, Item, message, Event, completed, initial, ensure_text_item, close_text,
  finish_tool_items, finish,
}
use cli_provider_router.Codex.Chunks.{
  no_calls, calls_of, first_truthy, prop, or_json, empty_object, first_of, push_text, push_calls_or,
  push_choice, push_delta, push_chunk, push_content, push_reasoning, send_header, note_model,
  note_usage,
}

-- Only text has come in so far, `acc` of it.
pub record TextState (acc : Text) (s : State) : Type 0 where
  pub running : s.finished ≡ false
  pub no_tools : s.tool_items ≡ []
  pub unclosed : s.text_item_finished ≡ false
  pub accumulated : s.text_acc ≡ acc
  pub listed :
      ((s.text_started ≡ false) × (s.output_items ≡ []))
      ⊎ ((s.text_started ≡ true) × (s.output_items ≡ message [] ∷ []))

initial-TextState : (rid : Text) → TextState [] (initial rid)
unfolding initial
initial-TextState rid = ground arith

push_content-TextState :
    (acc t : Text) (s : State)
    → TextState acc s
    → TextState (acc ++ t) (push_content t s) × ((push_content t s).text_started ≡ true)
unfolding push_content finish_tool_items ensure_text_item
push_content-TextState acc t s h = ground arith

-- The newest event completes the response with these items.
abbrev pub Completes : List Item → List Event → Type 0
Completes xs [] = ⊥
Completes xs (e ∷ es) = (rid : Text) × (u : Usage) × (e ≡ completed rid xs u)

finish-TextState :
    (acc : Text) (s : State)
    → TextState acc s
    → s.text_started ≡ true
    → (finish [] s).events
      ≡ completed s.response_id (message (acc ∷ []) ∷ []) s.last_usage
        ∷ (close_text (finish_tool_items s)).events
unfolding finish close_text finish_tool_items
finish-TextState acc s h started = ground arith

-- The chunk has a content delta, a text `t`, and no tool calls.
pub record Says (v : Json) (t : Text) : Type 0 where
  pub choice : Json
  pub content : Json
  pub chosen : first_of (prop (codes "choices") v) ≡ some choice
  pub taken : truthy choice ≡ true
  pub untooled :
      calls_of (prop (codes "tool_calls") (or_json (prop (codes "delta") choice) empty_object))
      ≡ no_calls
  pub told :
      prop (codes "content") (or_json (prop (codes "delta") choice) empty_object) ≡ some content
  pub not_null : content ≢ null
  pub read : to_text content ≡ t

push_text-some :
    (w : Json) (reason : Option Json) (s : State)
    → w ≢ null
    → push_text (some w) reason s ≡ push_content (to_text w) s
unfolding push_text
push_text-some null reason s h = absurd (h refl)
push_text-some w reason s h = refl

push_chunk-choice :
    (v choice : Json) (s : State)
    → first_of (prop (codes "choices") v) ≡ some choice
    → push_chunk v s
      ≡ push_choice
          (some choice)
          (note_usage (prop (codes "usage") v) (note_model (prop (codes "model") v) s))
unfolding push_chunk
push_chunk-choice null choice s e = absurd (unfold prop first_of in ground arith)
push_chunk-choice v choice s e = rw e refl

-- What a text chunk does before its content is taken.
noted-TextState :
    (acc : Text) (usage model thought : Option Json) (s : State)
    → TextState acc s
    → TextState acc (push_reasoning thought (send_header (note_usage usage (note_model model s))))
unfolding push_reasoning send_header
noted-TextState acc usage model thought s h = ground arith

abbrev delta_of : Json → Json
delta_of choice = or_json (prop (codes "delta") choice) empty_object

abbrev noted : Json → State → State
noted v s = note_usage (prop (codes "usage") v) (note_model (prop (codes "model") v) s)

abbrev thought_of : Json → Option Json
thought_of delta =
    first_truthy (prop (codes "reasoning_content") delta) (prop (codes "reasoning") delta)

push_choice-taken :
    (choice : Json) (s : State)
    → truthy choice ≡ true
    → push_choice (some choice) s
      ≡ push_delta (delta_of choice) (prop (codes "finish_reason") choice) (send_header s)
unfolding push_choice
push_choice-taken choice s e = rw e refl

push_delta-told :
    (delta content : Json) (reason : Option Json) (s : State)
    → calls_of (prop (codes "tool_calls") delta) ≡ no_calls
    → prop (codes "content") delta ≡ some content
    → content ≢ null
    → push_delta delta reason s
      ≡ (push_content (to_text content) (push_reasoning (thought_of delta) s), true)
unfolding push_delta push_calls_or
push_delta-told delta content reason s e f h =
    rw (e, f) (ap (λ x. (x, true)) (push_text-some content reason _ h))

push_chunk-Says :
    (t : Text) (v : Json) (s : State) (y : Says v t)
    → push_chunk v s ≡ (
      push_content t (push_reasoning (thought_of (delta_of y.choice)) (send_header (noted v s))),
      true,
    )
push_chunk-Says t v s y =
    push_chunk-choice v y.choice s y.chosen
    ∙ push_choice-taken y.choice (noted v s) y.taken
    ∙ push_delta-told (delta_of y.choice) y.content _ _ y.untooled y.told y.not_null
    ∙ rw y.read refl

push_chunk-TextState :
    (acc t : Text) (v : Json) (s : State)
    → Says v t
    → TextState acc s
    → TextState (acc ++ t) (push_chunk v s).0 × ((push_chunk v s).0.text_started ≡ true)
push_chunk-TextState acc t v s y h =
    subst (λ r. TextState (acc ++ t) r.0 × (r.0.text_started ≡ true))
      (sym (push_chunk-Says t v s y))
      (push_content-TextState acc t _
        (noted-TextState acc (prop (codes "usage") v) (prop (codes "model") v) _ s h))

-- Chunks pushed one after another.
pub push_all : List Json → State → State
push_all [] s = s
push_all (v ∷ vs) s = push_all vs (push_chunk v s).0

abbrev pub concat : List Text → Text
concat [] = []
concat (t ∷ ts) = t ++ concat ts

-- Each chunk says the text at its place.
abbrev pub AllSay : List Json → List Text → Type 0
AllSay [] [] = Unit {0}
AllSay (v ∷ vs) (t ∷ ts) = Says v t × AllSay vs ts
AllSay _ _ = ⊥

push_all-TextState :
    (vs : List Json) (ts : List Text) (acc : Text) (s : State)
    → AllSay vs ts
    → TextState acc s
    → s.text_started ≡ true
    → TextState (acc ++ concat ts) (push_all vs s) × ((push_all vs s).text_started ≡ true)
unfolding push_all
push_all-TextState [] [] acc s y h started = (rw append-nil h, started)
push_all-TextState (v ∷ vs) (t ∷ ts) acc s (y, ys) h started =
    let (h', started') = push_chunk-TextState acc t v s y h in
    rw (← append_assoc acc t (concat ts)) (push_all-TextState vs ts (acc ++ t) _ ys h' started')
push_all-TextState [] (t ∷ ts) acc s y h started = elim y [ ]
push_all-TextState (v ∷ vs) [] acc s y h started = elim y [ ]

-- A stream of one or more text chunks, with no tool calls, is completed with a single message that
-- holds all of its text in order.
pub text_stream-Completes :
    (rid : Text) (v : Json) (vs : List Json) (t : Text) (ts : List Text)
    → AllSay (v ∷ vs) (t ∷ ts)
    → Completes
        (message (concat (t ∷ ts) ∷ []) ∷ [])
        (finish [] (push_all (v ∷ vs) (initial rid))).events
unfolding push_all
text_stream-Completes rid v vs t ts (y, ys) =
    let (h, started) = push_chunk-TextState [] t v (initial rid) y (initial-TextState rid) in
    let (h', started') = push_all-TextState vs ts t _ ys h started in
    rw (finish-TextState (t ++ concat ts) _ h' started') (_, _, refl)
