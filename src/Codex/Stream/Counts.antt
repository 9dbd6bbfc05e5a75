-- ===== src/Codex/Stream/Counts.antt =====
-- chatStreamToResponses: what the events and the open calls of a stream count.
use cli_provider_router.Prelude.{
  ℕ, zero, suc, ◌+◌, ◌≡◌, refl, ap, not, ◌&&◌, none, some, List, [], ◌∷◌, ◌++◌, map, arith,
  if◌then◌else◌, ◌==◌, text_eq, Text, length, set,
}
use cli_provider_router.Codex.Stream.{
  Item, message, function_call, Tool, Event, item_added, text_delta, item_done, args_done,
  completed, failed, State, fill_first, get_tool, put_tool, mark_done,
}

-- How many events announce an item, close one, and end the response.
abbrev pub added : List Event → ℕ
added [] = 0
added (item_added i x ∷ es) = suc (added es)
added (e ∷ es) = added es

abbrev pub closed : List Event → ℕ
closed [] = 0
closed (item_done i x ∷ es) = suc (closed es)
closed (e ∷ es) = closed es

-- How many events announce a call at this output index, and how many close one there with the
-- arguments of the event before; and the same of messages.
abbrev pub calls_added : ℕ → List Event → ℕ
calls_added i [] = 0
calls_added i (item_added j (function_call id n a) ∷ es) =
    (if j == i then 1 else 0) + calls_added i es
calls_added i (e ∷ es) = calls_added i es

abbrev pub calls_closed : ℕ → List Event → ℕ
calls_closed i [] = 0
calls_closed i (item_done j (function_call id n a) ∷ args_done id' k b ∷ es) =
    (if j == i && k == i && text_eq a b then 1 else 0) + calls_closed i es
calls_closed i (e ∷ es) = calls_closed i es

abbrev pub messages_added : List Event → ℕ
messages_added [] = 0
messages_added (item_added i (message c) ∷ es) = suc (messages_added es)
messages_added (e ∷ es) = messages_added es

abbrev pub messages_closed : List Event → ℕ
messages_closed [] = 0
messages_closed (item_done i (message c) ∷ es) = suc (messages_closed es)
messages_closed (e ∷ es) = messages_closed es

abbrev pub endings : List Event → ℕ
endings [] = 0
endings (completed r xs u ∷ es) = suc (endings es)
endings (failed t ∷ es) = suc (endings es)
endings (e ∷ es) = endings es

-- The text of the deltas, in the order in which they were sent.
abbrev pub sent : List Event → Text
sent [] = []
sent (text_delta t ∷ es) = sent es ++ t
sent (e ∷ es) = sent es

abbrev pub open_tools : List (ℕ × Tool) → ℕ
open_tools [] = 0
open_tools ((k, t) ∷ ts) = (if t.done then 0 else 1) + open_tools ts

abbrev pub open_at : ℕ → List (ℕ × Tool) → ℕ
open_at i [] = 0
open_at i ((k, t) ∷ ts) =
    (if t.done then 0 else if t.output_index == i then 1 else 0) + open_at i ts

abbrev pub open_text : State → ℕ
open_text s = if s.text_started && not s.text_item_finished then 1 else 0

pub length-set : (xs : List Item) (i : ℕ) (x : Item) → length (set xs i x) ≡ length xs
length-set [] i x = refl
length-set (y ∷ xs) zero x = refl
length-set (y ∷ xs) (suc i) x = ap suc (length-set xs i x)

pub length-fill_first : (t : Text) (xs : List Item) → length (fill_first t xs) ≡ length xs
length-fill_first t [] = refl
length-fill_first t (message c ∷ xs) = refl
length-fill_first t (function_call i n a ∷ xs) = refl

pub open_tools-append :
    (ts us : List (ℕ × Tool)) → open_tools (ts ++ us) ≡ open_tools ts + open_tools us
open_tools-append [] us = omega arith
open_tools-append ((k, t) ∷ ts) us = omega (arith, open_tools-append ts us)

pub open_tools-mark_done : (ts : List (ℕ × Tool)) → open_tools (map mark_done ts) ≡ 0
open_tools-mark_done [] = refl
open_tools-mark_done ((k, t) ∷ ts) = omega (arith, open_tools-mark_done ts)

pub open_at-append :
    (i : ℕ) (ts us : List (ℕ × Tool)) → open_at i (ts ++ us) ≡ open_at i ts + open_at i us
open_at-append i [] us = omega arith
open_at-append i ((k, t) ∷ ts) us = omega (arith, open_at-append i ts us)

pub open_at-mark_done : (i : ℕ) (ts : List (ℕ × Tool)) → open_at i (map mark_done ts) ≡ 0
open_at-mark_done i [] = refl
open_at-mark_done i ((k, t) ∷ ts) = omega (arith, open_at-mark_done i ts)

-- The entry of a known key is replaced, and that of an unknown key comes last.
pub get_tool-put_tool_self :
    (k : ℕ) (t u : Tool) (ts : List (ℕ × Tool))
    → get_tool k ts ≡ some t
    → get_tool k (put_tool k u ts) ≡ some u
unfolding get_tool put_tool
get_tool-put_tool_self k t u [] h = cc
get_tool-put_tool_self k t u ((j, w) ∷ ts) h = ground (arith, get_tool-put_tool_self k t u ts)

pub get_tool-append_self :
    (k : ℕ) (u : Tool) (ts : List (ℕ × Tool))
    → get_tool k ts ≡ none
    → get_tool k (ts ++ (k, u) ∷ []) ≡ some u
unfolding get_tool
get_tool-append_self k u [] h = ground arith
get_tool-append_self k u ((j, w) ∷ ts) h = ground (arith, get_tool-append_self k u ts)

-- A call that stays open or closed under its key leaves the count.
pub open_tools-put_tool :
    (k : ℕ) (t u : Tool) (ts : List (ℕ × Tool))
    → get_tool k ts ≡ some t
    → u.done ≡ t.done
    → open_tools (put_tool k u ts) ≡ open_tools ts
unfolding get_tool put_tool
open_tools-put_tool k t u [] h e = refl
open_tools-put_tool k t u ((j, w) ∷ ts) h e = ground (arith, open_tools-put_tool k t u ts)

pub open_at-put_tool :
    (i k : ℕ) (t u : Tool) (ts : List (ℕ × Tool))
    → get_tool k ts ≡ some t
    → u.done ≡ t.done
    → u.output_index ≡ t.output_index
    → open_at i (put_tool k u ts) ≡ open_at i ts
unfolding get_tool put_tool
open_at-put_tool i k t u [] h e o = refl
open_at-put_tool i k t u ((j, w) ∷ ts) h e o = ground (arith, open_at-put_tool i k t u ts)
