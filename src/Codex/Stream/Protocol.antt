-- ===== src/Codex/Stream/Protocol.antt =====
-- chatStreamToResponses: the invariant of the state machine. Every item that is announced is
-- closed at most once, the response ends at most once, and the text sent is the text kept.
use cli_provider_router.Prelude.{
  ℕ, sym, subst, ◌+◌, ◌≡◌, ap, ◌∙◌, inl, inr, Bool, true, false, some, List, [], ◌∷◌, arith,
  if◌then◌else◌, text_eq_refl, Text, length, length-append, Bool-cases, Option-cases,
}
use cli_provider_router.Json.{Json}
use cli_provider_router.Codex.Stream.{
  message, Tool, Event, part_added, State, open_message, open_part, ensure_text_item,
  finish_tool_item, close_text, get_tool, new_tool, ensure_tool_item, finish_each,
  finish_tool_items, finish, initial, item_of, fill,
}
use cli_provider_router.Codex.Stream.Counts.{
  added, closed, calls_added, calls_closed, messages_added, messages_closed, endings, sent,
  open_tools, open_at, open_text, length-set, length-fill_first, open_tools-append,
  open_tools-mark_done, open_at-append, open_at-mark_done, get_tool-put_tool_self,
  get_tool-append_self, open_tools-put_tool, open_at-put_tool,
}

-- `n` is how often the response has ended, `i` an output index.
pub record WellFormed (i n : ℕ) (s : State) : Type 0 where
  pub announced : added s.events ≡ length s.output_items
  pub balanced : added s.events ≡ closed s.events + open_tools s.tool_items + open_text s
  pub calls_matched : calls_added i s.events ≡ calls_closed i s.events + open_at i s.tool_items
  pub messages_matched : messages_added s.events ≡ messages_closed s.events + open_text s
  pub ended : endings s.events ≡ n
  pub kept : sent s.events ≡ s.text_acc
  pub unopened : s.text_started ≡ false → s.text_item_finished ≡ false

pub initial-WellFormed : (i : ℕ) (rid : Text) → WellFormed i 0 (initial rid)
unfolding initial
initial-WellFormed i rid = ground arith

module _ (i n : ℕ) (s : State) (w : WellFormed i n s) where
  open_message-WellFormed : WellFormed i n (open_message s)
  unfolding open_message
  open_message-WellFormed = ground (arith, length-append s.output_items (message [] ∷ []))

  open_part-WellFormed : WellFormed i n (open_part s)
  unfolding open_part
  open_part-WellFormed = elim (Bool-cases s.text_part_started) [
    | inl y ↦ let same : open_part s ≡ s = ground arith in subst (WellFormed i n) (sym same) w
    | inr x ↦
        let same : open_part s
            ≡ record s { text_part_started = true; events = part_added ∷ s.events } =
          ground arith in
        subst (WellFormed i n) (sym same) (record {
          announced = w.announced;
          balanced = w.balanced;
          calls_matched = w.calls_matched;
          messages_matched = w.messages_matched;
          ended = w.ended;
          kept = w.kept;
          unopened = w.unopened;
        })
  ]

  pub close_text-WellFormed : WellFormed i n (close_text s)
  unfolding close_text
  close_text-WellFormed = ground (arith, length-fill_first s.text_acc s.output_items)

  pub ensure_tool_item-WellFormed :
      (k : ℕ) (name id : Json) → WellFormed i n (ensure_tool_item k name id s).0
  unfolding ensure_tool_item new_tool
  ensure_tool_item-WellFormed k name id = elim (Option-cases (get_tool k s.tool_items)) [
    | inl e ↦
        rw (e, ensure_tool_item)
          (ground (
            arith,
            length-append s.output_items (item_of (new_tool s name id) ∷ []),
            open_tools-append s.tool_items ((k, new_tool s name id) ∷ []),
            open_at-append i s.tool_items ((k, new_tool s name id) ∷ []),
          ))
    | inr (t, e) ↦
        let t' : Tool = record t { name = fill name t.name; id = fill id t.id } in
        rw (e, ensure_tool_item)
          (ground (
            arith,
            open_tools-put_tool k t t' s.tool_items e,
            open_at-put_tool i k t t' s.tool_items e,
          ))
  ]

pub ensure_text_item-WellFormed :
    (i n : ℕ) (s : State) → WellFormed i n s → WellFormed i n (ensure_text_item s)
unfolding ensure_text_item
ensure_text_item-WellFormed i n s w = elim (Bool-cases s.text_item_finished) [
  | inl y ↦ let same : ensure_text_item s ≡ s = ground arith in subst (WellFormed i n) (sym same) w
  | inr x ↦
      let same : ensure_text_item s ≡ open_part (open_message s) = ground arith in
      subst (WellFormed i n) (sym same)
        (open_part-WellFormed i n (open_message s) (open_message-WellFormed i n s w))
]

-- What closing the calls of a list does to the state.
pub record Closes (i : ℕ) (ts : List (ℕ × Tool)) (s s' : State) : Type 0 where
  pub items_kept : length s'.output_items ≡ length s.output_items
  pub added_kept : added s'.events ≡ added s.events
  pub closed_more : closed s'.events ≡ closed s.events + open_tools ts
  pub calls_kept : calls_added i s'.events ≡ calls_added i s.events
  pub calls_more : calls_closed i s'.events ≡ calls_closed i s.events + open_at i ts
  pub messages_kept : messages_added s'.events ≡ messages_added s.events
  pub messages_done : messages_closed s'.events ≡ messages_closed s.events
  pub endings_kept : endings s'.events ≡ endings s.events
  pub sent_kept : sent s'.events ≡ sent s.events
  pub same_rest : s' ≡ record s { output_items = s'.output_items; events = s'.events }

finish_tool_item-Closes :
    (i k : ℕ) (t : Tool) (s : State) → Closes i ((k, t) ∷ []) s (finish_tool_item t s)
unfolding finish_tool_item
finish_tool_item-Closes i k t s = elim (Bool-cases t.done) [
  | inl y ↦ rw y (ground arith)
  | inr n ↦ rw n (
      ground
        (arith, text_eq_refl t.arguments, length-set s.output_items t.output_index (item_of t)))
]

finish_each-Closes : (i : ℕ) (ts : List (ℕ × Tool)) (s : State) → Closes i ts s (finish_each ts s)
unfolding finish_each
finish_each-Closes i [] s = ground arith
finish_each-Closes i ((k, t) ∷ ts) s =
    let one = finish_tool_item-Closes i k t s in
    let rest = finish_each-Closes i ts (finish_tool_item t s) in
    let after = finish_each ts (finish_tool_item t s) in
    let later : State → State =
      λ x. record x { output_items = after.output_items; events = after.events } in
    record {
      items_kept = rest.items_kept ∙ one.items_kept;
      added_kept = rest.added_kept ∙ one.added_kept;
      closed_more = omega (arith, rest.closed_more, one.closed_more);
      calls_kept = rest.calls_kept ∙ one.calls_kept;
      calls_more = omega (arith, rest.calls_more, one.calls_more);
      messages_kept = rest.messages_kept ∙ one.messages_kept;
      messages_done = rest.messages_done ∙ one.messages_done;
      endings_kept = rest.endings_kept ∙ one.endings_kept;
      sent_kept = rest.sent_kept ∙ one.sent_kept;
      same_rest = rest.same_rest ∙ ap later one.same_rest;
    }

module _ (i n : ℕ) (s : State) (w : WellFormed i n s) where
  pub finish_tool_items-WellFormed : WellFormed i n (finish_tool_items s)
  unfolding finish_tool_items
  finish_tool_items-WellFormed = ground (
    arith,
    finish_each-Closes i s.tool_items s,
    open_tools-mark_done s.tool_items,
    open_at-mark_done i s.tool_items,
  )

-- None of these ends the stream, and closing leaves nothing open.
pub ensure_text_item-finished : (s : State) → (ensure_text_item s).finished ≡ s.finished
unfolding ensure_text_item
ensure_text_item-finished s = ground arith

pub close_text-finished : (s : State) → (close_text s).finished ≡ s.finished
unfolding close_text
close_text-finished s = ground arith

pub ensure_tool_item-finished :
    (k : ℕ) (name id : Json) (s : State) → (ensure_tool_item k name id s).0.finished ≡ s.finished
unfolding ensure_tool_item
ensure_tool_item-finished k name id s = ground arith

pub finish_tool_items-finished : (s : State) → (finish_tool_items s).finished ≡ s.finished
unfolding finish_tool_items
finish_tool_items-finished s = ground (arith, finish_each-Closes 0 s.tool_items s)

finish_tool_items-closed :
    (i : ℕ) (s : State)
    → (open_tools (finish_tool_items s).tool_items ≡ 0)
      × (open_at i (finish_tool_items s).tool_items ≡ 0)
unfolding finish_tool_items
finish_tool_items-closed i s =
    ground (arith, open_tools-mark_done s.tool_items, open_at-mark_done i s.tool_items)

close_text-closed :
    (s : State) → (open_text (close_text s) ≡ 0) × ((close_text s).tool_items ≡ s.tool_items)
unfolding close_text
close_text-closed s = ground arith

-- Each item that was announced is closed: as often in all, at this index for the calls, and for the
-- messages.
abbrev pub AllClosed : ℕ → List Event → Type 0
AllClosed i es =
    (added es ≡ closed es)
    × (calls_added i es ≡ calls_closed i es)
    × (messages_added es ≡ messages_closed es)

-- The state in which the response is completed.
abbrev settled : State → State
settled s = close_text (finish_tool_items (record s { finished = true }))

settled-WellFormed :
    (i : ℕ) (s : State)
    → WellFormed i 0 s
    → WellFormed i 0 (settled s) × AllClosed i (settled s).events × ((settled s).finished ≡ true)
settled-WellFormed i s w =
    let start : WellFormed i 0 (record s { finished = true }) = ground arith in
    let tools = finish_tool_items-WellFormed i 0 (record s { finished = true }) start in
    let all = close_text-WellFormed i 0 (finish_tool_items (record s { finished = true })) tools in
    (
      all,
      ground (
        arith,
        all,
        close_text-closed (finish_tool_items (record s { finished = true })),
        finish_tool_items-closed i (record s { finished = true }),
      ),
      close_text-finished (finish_tool_items (record s { finished = true }))
          ∙ finish_tool_items-finished (record s { finished = true }),
    )

abbrev pub ending_count : Bool → ℕ
ending_count finished = if finished then 1 else 0

pub finish-WellFormed :
    (i : ℕ) (error : Text) (s : State)
    → WellFormed i (ending_count s.finished) s
    → WellFormed i 1 (finish error s) × ((finish error s).finished ≡ true)
unfolding finish
finish-WellFormed i error s w = elim (Bool-cases s.finished) [
  | inl over ↦ ground arith
  | inr running ↦ ground (arith, settled-WellFormed i s)
]

-- A stream that ends without an error has closed every item that it announced.
pub finish_closes_all :
    (i : ℕ) (s : State) → s.finished ≡ false → WellFormed i 0 s → AllClosed i (finish [] s).events
unfolding finish
finish_closes_all i s running w = ground (arith, settled-WellFormed i s w)

-- The call that is handed back is the one in the Map.
pub get_tool-ensure_tool_item :
    (k : ℕ) (name id : Json) (s : State)
    → get_tool k (ensure_tool_item k name id s).0.tool_items ≡ some (ensure_tool_item k name id s).1
unfolding ensure_tool_item
get_tool-ensure_tool_item k name id s = elim (Option-cases (get_tool k s.tool_items)) [
  | inl e ↦ rw (e, ensure_tool_item) (get_tool-append_self k (new_tool s name id) s.tool_items e)
  | inr (t, e) ↦ rw (e, ensure_tool_item) (get_tool-put_tool_self k t _ s.tool_items e)
]
