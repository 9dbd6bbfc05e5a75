-- ===== src/Codex/Running.antt =====
-- lib/proxy/codex-transform.js: each step of a stream that has not ended keeps the invariant.
use cli_provider_router.Prelude.{
  if◌then◌else◌, ◌||◌, ℕ, ◌≡◌, refl, ◌∙◌, inl, inr, Bool, true, false, Option, none, some, List, [],
  ◌∷◌, ◌++◌, arith, Text, codes, Bool-cases,
}
use cli_provider_router.Json.{Json, null, str, truthy, to_text}
use cli_provider_router.Codex.Stream.{
  State, Tool, Usage, created, ensure_text_item, close_text, ensure_tool_item, get_tool,
  finish_tool_items,
}
use cli_provider_router.Codex.Stream.Protocol.{
  WellFormed, ensure_text_item-WellFormed, close_text-WellFormed, ensure_tool_item-WellFormed,
  finish_tool_items-WellFormed, ensure_text_item-finished, close_text-finished,
  ensure_tool_item-finished, finish_tool_items-finished, get_tool-ensure_tool_item,
}
use cli_provider_router.Codex.Stream.Counts.{open_tools-put_tool, open_at-put_tool}
use cli_provider_router.Codex.Chunks.{
  Calls, calls, calls_of, key_of, name_of, id_of, function_of, push_text, push_calls_or,
  push_choice, no_calls, not_iterable, prop, add_arguments, push_call, push_calls, send_header,
  push_reasoning, push_content, push_reason, push_delta, push_chunk, note_model, note_usage,
  usage_of, is_str,
}

module _ (i : ℕ) where
  -- The invariant, with the stream not ended.
  abbrev pub Running : State → Type 0
  Running s = WellFormed i 0 s × (s.finished ≡ false)

  ensure_text_item-Running : (s : State) → Running s → Running (ensure_text_item s)
  ensure_text_item-Running s (w, r) =
      (ensure_text_item-WellFormed i 0 s w, ensure_text_item-finished s ∙ r)

  close_text-Running : (s : State) → Running s → Running (close_text s)
  close_text-Running s (w, r) = (close_text-WellFormed i 0 s w, close_text-finished s ∙ r)

  finish_tool_items-Running : (s : State) → Running s → Running (finish_tool_items s)
  finish_tool_items-Running s (w, r) =
      (finish_tool_items-WellFormed i 0 s w, finish_tool_items-finished s ∙ r)

  if-Running : (b : Bool) (s t : State) → Running s → Running t → Running (if b then s else t)
  if-Running true s t h k = h
  if-Running false s t h k = k

  -- What the invariant does not look at.
  noted-Running :
      (sent_header : Bool) (usage : Usage) (model : Json) (s : State)
      → Running s
      → Running (record s { header_sent = sent_header; last_usage = usage; model = model })
  noted-Running sent_header usage model s (w, r) = (
    record {
      announced = w.announced;
      balanced = w.balanced;
      calls_matched = w.calls_matched;
      messages_matched = w.messages_matched;
      ended = w.ended;
      kept = w.kept;
      unopened = w.unopened;
    },
    r,
  )

  created-Running :
      (id : Text) (model : Json) (s : State)
      → Running s
      → Running (record s { events = created id model ∷ s.events })
  created-Running id model s (w, r) = (
    record {
      announced = w.announced;
      balanced = w.balanced;
      calls_matched = w.calls_matched;
      messages_matched = w.messages_matched;
      ended = w.ended;
      kept = w.kept;
      unopened = w.unopened;
    },
    r,
  )

  add_arguments-Running :
      (k : ℕ) (a : Option Json) (t : Tool) (s : State)
      → get_tool k s.tool_items ≡ some t
      → Running s
      → Running (add_arguments k a t s)
  unfolding add_arguments
  add_arguments-Running k none t s e h = h
  add_arguments-Running k (some a) t s e (w, r) =
      let t' : Tool = record t { arguments = t.arguments ++ to_text a } in
      if-Running (truthy a) _ s
        (
          record {
            announced = w.announced;
            balanced = omega (arith, w.balanced, open_tools-put_tool k t t' s.tool_items e refl);
            calls_matched =
                omega (arith, w.calls_matched, open_at-put_tool i k t t' s.tool_items e refl refl);
            messages_matched = w.messages_matched;
            ended = w.ended;
            kept = w.kept;
            unopened = w.unopened;
          },
          r,
        )
        (w, r)

  push_call-Running : (tc : Json) (s : State) → Running s → Running (push_call tc s)
  unfolding push_call
  push_call-Running tc s (w, r) =
      let key = key_of (prop (codes "index") tc) in
      let name = name_of tc in
      let id = id_of tc in
      add_arguments-Running key (prop (codes "arguments") (function_of tc))
        (ensure_tool_item key name id s).1 (ensure_tool_item key name id s).0
        (get_tool-ensure_tool_item key name id s)
        (
          ensure_tool_item-WellFormed i 0 s w key name id,
          ensure_tool_item-finished key name id s ∙ r,
        )

  push_calls-Running : (tcs : List Json) (s : State) → Running s → Running (push_calls tcs s).0
  unfolding push_calls
  push_calls-Running [] s h = h
  push_calls-Running (null ∷ tcs) s h = h
  push_calls-Running (tc ∷ tcs) s h =
      push_calls-Running tcs (push_call tc s) (push_call-Running tc s h)

  push_content-Running : (t : Text) (s : State) → Running s → Running (push_content t s)
  unfolding push_content
  push_content-Running t s h =
      ground (arith, ensure_text_item-Running (finish_tool_items s) (finish_tool_items-Running s h))

  push_reason-Running :
      (reason : Option Json) (s : State) → Running s → Running (push_reason reason s)
  unfolding push_reason
  push_reason-Running reason s h =
      if-Running (is_str reason (codes "stop") || is_str reason (codes "length")) _ s
        (close_text-Running (finish_tool_items s) (finish_tool_items-Running s h)) h

  push_reasoning-Running : (v : Option Json) (s : State) → Running s → Running (push_reasoning v s)
  unfolding push_reasoning
  push_reasoning-Running v s h = ground arith

  send_header-Running : (s : State) → Running s → Running (send_header s)
  unfolding send_header
  send_header-Running s h = if-Running s.header_sent s _ h (
      created-Running s.response_id (if truthy s.model then s.model else str []) _
        (noted-Running true s.last_usage s.model s h))

  push_text-Running :
      (content reason : Option Json) (s : State) → Running s → Running (push_text content reason s)
  unfolding push_text
  push_text-Running none reason s h = push_reason-Running reason s h
  push_text-Running (some null) reason s h = push_reason-Running reason s h
  push_text-Running (some v) reason s h = push_content-Running (to_text v) s h

  push_calls_or-Running :
      (c : Calls) (s other : State)
      → Running s
      → Running other
      → Running (push_calls_or c s other).0
  unfolding push_calls_or
  push_calls_or-Running (calls tcs) s other h k =
      push_calls-Running tcs (close_text s) (close_text-Running s h)
  push_calls_or-Running not_iterable s other h k = close_text-Running s h
  push_calls_or-Running no_calls s other h k = k

  push_delta-Running :
      (delta : Json) (reason : Option Json) (s : State)
      → Running s
      → Running (push_delta delta reason s).0
  unfolding push_delta
  push_delta-Running delta reason s h =
      push_calls_or-Running (calls_of (prop (codes "tool_calls") delta)) s _ h
        (push_text-Running (prop (codes "content") delta) reason _ (push_reasoning-Running _ s h))

  push_choice-Running :
      (choice : Option Json) (s : State) → Running s → Running (push_choice choice s).0
  unfolding push_choice
  push_choice-Running none s h = h
  push_choice-Running (some c) s h = elim (Bool-cases (truthy c)) [
    | inl e ↦ rw e (push_delta-Running _ _ (send_header s) (send_header-Running s h))
    | inr e ↦ rw e h
  ]

  note_model-Running : (model : Option Json) (s : State) → Running s → Running (note_model model s)
  note_model-Running none s h = h
  note_model-Running (some v) s h =
      if-Running (truthy v) _ s (noted-Running s.header_sent s.last_usage v s h) h

  note_usage-Running : (usage : Option Json) (s : State) → Running s → Running (note_usage usage s)
  note_usage-Running none s h = h
  note_usage-Running (some u) s h =
      if-Running (truthy u) _ s (noted-Running s.header_sent (usage_of u) s.model s h) h

  pub push_chunk-Running : (v : Json) (s : State) → Running s → Running (push_chunk v s).0
  unfolding push_chunk
  push_chunk-Running null s h = h
  push_chunk-Running v s h = push_choice-Running _ _ (
      note_usage-Running (prop (codes "usage") v) _
        (note_model-Running (prop (codes "model") v) s h))
