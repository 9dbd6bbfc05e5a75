-- ===== src/Codex/LateText.antt =====
-- lib/proxy/codex-transform.js: text that comes after a tool call has opened the output.
use cli_provider_router.Prelude.{
  ℕ, zero, suc, ◌≡◌, refl, ap, ap₂, sym, subst, ◌∙◌, true, false, some, List, [], ◌∷◌, ◌++◌, map,
  arith, Text, length, get_elem?, set,
}
use cli_provider_router.Codex.Stream.{
  State, Tool, Item, message, function_call, completed, ensure_text_item, close_text,
  finish_tool_items, finish_each, finish_tool_item, mark_done, item_of, fill_first, finish,
}
use cli_provider_router.Codex.Chunks.{push_content}
use cli_provider_router.Codex.Outputs.{Completes}

abbrev pub IsCall : Item → Type 0
IsCall (function_call i n a) = Unit {0}
IsCall (message c) = ⊥

-- The first item of the output is a tool call.
abbrev pub LedByCall : List Item → Type 0
LedByCall [] = ⊥
LedByCall (x ∷ xs) = IsCall x

set-LedByCall :
    (xs : List Item) (i : ℕ) (t : Tool) → LedByCall xs → LedByCall (set xs i (item_of t))
set-LedByCall [] i t h = h
set-LedByCall (x ∷ xs) zero t h = tt
set-LedByCall (x ∷ xs) (suc i) t h = h

append-LedByCall : (xs ys : List Item) → LedByCall xs → LedByCall (xs ++ ys)
append-LedByCall [] ys h = elim h [ ]
append-LedByCall (x ∷ xs) ys h = h

fill_first-LedByCall : (t : Text) (xs : List Item) → LedByCall xs → fill_first t xs ≡ xs
fill_first-LedByCall t [] h = refl
fill_first-LedByCall t (message c ∷ xs) h = elim h [ ]
fill_first-LedByCall t (function_call i n a ∷ xs) h = refl

length-set : (xs : List Item) (i : ℕ) (x : Item) → length (set xs i x) ≡ length xs
length-set [] i x = refl
length-set (y ∷ xs) zero x = refl
length-set (y ∷ xs) (suc i) x = ap suc (length-set xs i x)

get_elem?-append_end : (xs : List Item) (x : Item) → get_elem? (xs ++ x ∷ []) (length xs) ≡ some x
get_elem?-append_end [] x = refl
get_elem?-append_end (y ∷ xs) x = get_elem?-append_end xs x

-- A closed list of calls.
abbrev pub AllDone : List (ℕ × Tool) → Type 0
AllDone [] = Unit {0}
AllDone ((k, t) ∷ ts) = (t.done ≡ true) × AllDone ts

mark_done-AllDone : (ts : List (ℕ × Tool)) → AllDone (map mark_done ts)
mark_done-AllDone [] = tt
mark_done-AllDone ((k, t) ∷ ts) = (refl, mark_done-AllDone ts)

finish_each-AllDone : (ts : List (ℕ × Tool)) (s : State) → AllDone ts → finish_each ts s ≡ s
unfolding finish_each
finish_each-AllDone [] s h = refl
finish_each-AllDone ((k, t) ∷ ts) s (d, h) =
    rw (finish_each-AllDone ts (finish_tool_item t s) h) (ground arith)

-- What closing calls keeps of the text's part of the state.
pub record Keeps (s s' : State) : Type 0 where
  pub same_length : length s'.output_items ≡ length s.output_items
  pub same_started : s'.text_started ≡ s.text_started
  pub same_finished : s'.finished ≡ s.finished
  pub same_closed : s'.text_item_finished ≡ s.text_item_finished
  pub led : LedByCall s'.output_items

finish_tool_item-Keeps :
    (t : Tool) (s : State) → LedByCall s.output_items → Keeps s (finish_tool_item t s)
unfolding finish_tool_item
finish_tool_item-Keeps t s h = ground (
  arith,
  set-LedByCall s.output_items t.output_index t h,
  length-set s.output_items t.output_index (item_of t),
)

Keeps-trans : (s t u : State) → Keeps s t → Keeps t u → Keeps s u
Keeps-trans s t u k l = record {
  same_length = l.same_length ∙ k.same_length;
  same_started = l.same_started ∙ k.same_started;
  same_finished = l.same_finished ∙ k.same_finished;
  same_closed = l.same_closed ∙ k.same_closed;
  led = l.led;
}

finish_each-Keeps :
    (ts : List (ℕ × Tool)) (s : State) → LedByCall s.output_items → Keeps s (finish_each ts s)
unfolding finish_each
finish_each-Keeps [] s h = record {
  same_length = refl;
  same_started = refl;
  same_finished = refl;
  same_closed = refl;
  led = h;
}
finish_each-Keeps ((k, t) ∷ ts) s h =
    let first = finish_tool_item-Keeps t s h in
    Keeps-trans s (finish_tool_item t s) _ first
      (finish_each-Keeps ts (finish_tool_item t s) first.led)

finish_tool_items-Keeps :
    (s : State)
    → LedByCall s.output_items
    → Keeps s (finish_tool_items s) × AllDone (finish_tool_items s).tool_items
unfolding finish_tool_items
finish_tool_items-Keeps s h =
    let k = finish_each-Keeps s.tool_items s h in
    (
      record {
        same_length = k.same_length;
        same_started = k.same_started;
        same_finished = k.same_finished;
        same_closed = k.same_closed;
        led = k.led;
      },
      mark_done-AllDone s.tool_items,
    )

-- The message is opened behind the items, and stays empty when it is closed.
ensure_text_item-last :
    (s : State)
    → s.text_started ≡ false
    → s.text_item_finished ≡ false
    → (ensure_text_item s).output_items ≡ s.output_items ++ message [] ∷ []
unfolding ensure_text_item
ensure_text_item-last s a b = ground arith

ensure_text_item-rest :
    (s : State)
    → ((ensure_text_item s).tool_items ≡ s.tool_items)
      × ((ensure_text_item s).finished ≡ s.finished)
unfolding ensure_text_item
ensure_text_item-rest s = ground arith

push_content-last :
    (t : Text) (s : State)
    → LedByCall s.output_items
    → s.text_started ≡ false
    → s.text_item_finished ≡ false
    → let s' = push_content t s in
      LedByCall s'.output_items
      × AllDone s'.tool_items
      × (s'.finished ≡ s.finished)
      × (get_elem? s'.output_items (length s.output_items) ≡ some (message []))
unfolding push_content
push_content-last t s h a b =
    let (k, done) = finish_tool_items-Keeps s h in
    let f : State = finish_tool_items s in
    let opened = ensure_text_item-last f (k.same_started ∙ a) (k.same_closed ∙ b) in
    let (tools, over) = ensure_text_item-rest f in
    (
      subst LedByCall (sym opened) (append-LedByCall f.output_items (message [] ∷ []) k.led),
      subst AllDone (sym tools) done,
      over ∙ k.same_finished,
      ap₂ get_elem? opened (sym k.same_length) ∙ get_elem?-append_end f.output_items (message []),
    )

finish_tool_items-AllDone :
    (s : State) → AllDone s.tool_items → (finish_tool_items s).output_items ≡ s.output_items
unfolding finish_tool_items
finish_tool_items-AllDone s h = ap (λ x. x.output_items) (finish_each-AllDone s.tool_items s h)

close_text-led :
    (s : State) → LedByCall s.output_items → (close_text s).output_items ≡ s.output_items
unfolding close_text
close_text-led s h = ground (arith, fill_first-LedByCall s.text_acc s.output_items h)

abbrev closing : State → State
closing s = close_text (finish_tool_items (record s { finished = true }))

finish_running :
    (s : State)
    → s.finished ≡ false
    → (finish [] s).events
      ≡ completed s.response_id (closing s).output_items (closing s).last_usage ∷ (closing s).events
unfolding finish
finish_running s running = ground arith

finish-last :
    (s : State)
    → LedByCall s.output_items
    → AllDone s.tool_items
    → s.finished ≡ false
    → Completes s.output_items (finish [] s).events
finish-last s h done running =
    let r : State = record s { finished = true } in
    let e = finish_tool_items-AllDone r done in
    let f = close_text-led (finish_tool_items r) (subst LedByCall (sym e) h) ∙ e in
    subst (Completes s.output_items) (sym (finish_running s running)) (
      s.response_id,
      (closing s).last_usage,
      ap (λ xs. completed s.response_id xs (closing s).last_usage) f,
    )

-- Once the output begins with a tool call, the completed response lists an empty message for text
-- that comes later, whatever text was sent.
pub late_text_lost :
    (t : Text) (s : State)
    → LedByCall s.output_items
    → s.text_started ≡ false
    → s.text_item_finished ≡ false
    → s.finished ≡ false
    → (xs : List Item) × Completes xs (finish [] (push_content t s)).events
      × (get_elem? xs (length s.output_items) ≡ some (message []))
late_text_lost t s h a b running =
    let (led, done, over, last) = push_content-last t s h a b in
    (
      (push_content t s).output_items,
      finish-last (push_content t s) led done (over ∙ running),
      last,
    )
